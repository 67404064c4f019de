-- ===== src/QState/Indexed.antt =====
-- Each qubit of a register stands among the ids of its group, so `ids.index` never raises.
use qfabric.Prelude.{
  ℕ, ◌+◌, ◌<◌, ◌≡◌, refl, sym, ◌∙◌, ap, inl, inr, Bool, true, not, ◌||◌, Bool-cases, Option, none,
  some, List, [], ◌∷◌, arith, ◌==◌, if◌then◌else◌,
}
use qfabric.Prelude.Elem.{elem, elem-append}
use qfabric.Prelude.Result.{Result, ok, err, require, value_error, ◌>>=◌, ◌>>◌}
use qfabric.Amplitudes.{Amplitudes}
use qfabric.Tensors.{Tensor}
use qfabric.QState.{
  QStateRegister, found, ref_of, store, set_amp, merge, without, kept, forget, measure, measure_at,
  pauli_at, apply_pauli, bell_measure, create_bell_pair,
}
use qfabric.QState.Groups.{elem-without}

-- What holds of the value, if the code returns.
abbrev pub OnOk {ℓ} : {Value : Type ℓ} → (Value → Type 0) → Result Value → Type 0
OnOk P (err raised) = Unit
OnOk P (ok returned) = P returned

module _ {ℓ κ} {Value : Type ℓ} {Next : Type κ} where
  pub OnOk->>= :
      (P : Value → Type 0) (Q : Next → Type 0) (code : Result Value) (rest : Value → Result Next)
      → OnOk P code
      → ((x : Value) → P x → OnOk Q (rest x))
      → OnOk Q (code >>= rest)
  OnOk->>= P Q (err raised) rest h step = tt
  OnOk->>= P Q (ok x) rest h step = step x h

pub OnOk->> :
    {Next : Type 0} (Q : Next → Type 0) (code : Result (Unit {0})) (rest : Result Next)
    → OnOk Q rest
    → OnOk Q (code >> rest)
OnOk->> Q (err raised) rest h = tt
OnOk->> Q (ok x) rest h = h

module _ (q : Amplitudes) where
  open q use {F}

  -- Every known qubit is among the ids of an existing group, and every id has been given out.
  pub record IsIndexed (r : QStateRegister q) : Type 0 where
    pub inside : (j ref : ℕ) → r.owner j ≡ some ref → elem j (r.group ref).ids ≡ true
    pub older : (j ref : ℕ) → r.owner j ≡ some ref → ref < r.fresh
    pub named : (ref j : ℕ) → ref < r.fresh → elem j (r.group ref).ids ≡ true → j < r.next_id

  found-OnOk : (o : Option ℕ) → OnOk (λ ref. o ≡ some ref) (found q o)
  found-OnOk none = tt
  found-OnOk (some ref) = refl

  pub ref_of-OnOk :
      (j : ℕ) (r : QStateRegister q) → OnOk (λ ref. r.owner j ≡ some ref) (ref_of q j r)
  ref_of-OnOk j r = found-OnOk (r.owner j)

  pub store-IsIndexed :
      (ids : List ℕ) (amp : Tensor q) (r : QStateRegister q)
      → ((j : ℕ) → elem j ids ≡ true → j < r.next_id)
      → IsIndexed r
      → IsIndexed (store q ids amp r)
  store-IsIndexed ids amp r given h = record {
    inside = λ j ref at. elim (Bool-cases (elem j ids)) [
      | inl in_ids ↦ ground (arith, at, in_ids)
      | inr out ↦
          let was : r.owner j ≡ some ref = ground (arith, at, out) in
          ground (arith, h.inside j ref was, h.older j ref was)
    ];
    older = λ j ref at. elim (Bool-cases (elem j ids)) [
      | inl in_ids ↦ ground (arith, at, in_ids)
      | inr out ↦
          let was : r.owner j ≡ some ref = ground (arith, at, out) in
          omega (arith, h.older j ref was)
    ];
    named = λ ref j less in_group. elim (Bool-cases (ref == r.fresh)) [
      | inl new ↦ given j (ground (arith, new, in_group))
      | inr old ↦ h.named ref j (ground (arith, less, old)) (ground (arith, old, in_group))
    ];
  }

  same_ids :
      (k ref : ℕ) (amp : Tensor q) (r : QStateRegister q)
      → ((set_amp q ref amp r).group k).ids ≡ (r.group k).ids
  same_ids k ref amp r = elim (Bool-cases (k == ref)) [
    | inl e ↦ ground (arith, e)
    | inr e ↦ ground (arith, e)
  ]

  pub set_amp-IsIndexed :
      (ref : ℕ) (amp : Tensor q) (r : QStateRegister q)
      → IsIndexed r
      → IsIndexed (set_amp q ref amp r)
  set_amp-IsIndexed ref amp r h = record {
    inside = λ j k at. ap (elem j) (same_ids k ref amp r) ∙ h.inside j k at;
    older = h.older;
    named =
        λ k j less in_group. h.named k j less (sym (ap (elem j) (same_ids k ref amp r)) ∙ in_group);
  }

  -- `del self._groups[qubit_id]`
  pub none-IsIndexed :
      (qubit : ℕ) (r : QStateRegister q)
      → IsIndexed r
      → IsIndexed (record r { owner = λ j. if j == qubit then none else r.owner j })
  none-IsIndexed qubit r h = record {
    inside = λ j ref at. elim (Bool-cases (j == qubit)) [
      | inl e ↦ absurd (ground (arith, at, e))
      | inr e ↦ h.inside j ref (ground (arith, at, e))
    ];
    older = λ j ref at. elim (Bool-cases (j == qubit)) [
      | inl e ↦ absurd (ground (arith, at, e))
      | inr e ↦ h.older j ref (ground (arith, at, e))
    ];
    named = h.named;
  }

  pub merge-IsIndexed :
      (ref1 ref2 : ℕ) (r : QStateRegister q)
      → ref1 < r.fresh
      → ref2 < r.fresh
      → IsIndexed r
      → IsIndexed (merge q ref1 ref2 r)
  unfolding merge
  merge-IsIndexed ref1 ref2 r old1 old2 h = elim (Bool-cases (ref1 == ref2)) [
    | inl e ↦ rw e h
    | inr e ↦ rw e (
        store-IsIndexed _ _ r
          (λ j here. elim (Bool-cases (elem j (r.group ref1).ids)) [
            | inl one ↦ h.named ref1 j old1 one
            | inr other ↦
                h.named ref2 j old2
                  (ground (arith, here, other, elem-append j (r.group ref1).ids (r.group ref2).ids))
          ])
          h)
  ]

  kept-IsIndexed :
      (ids : List ℕ) (amp : Tensor q) (r : QStateRegister q)
      → ((j : ℕ) → elem j ids ≡ true → j < r.next_id)
      → IsIndexed r
      → IsIndexed (kept q ids amp r)
  unfolding kept
  kept-IsIndexed [] amp r given h = h
  kept-IsIndexed (id ∷ ids) amp r given h = store-IsIndexed (id ∷ ids) amp r given h

  forget-IsIndexed :
      (qubit ref : ℕ) (amp : Tensor q) (r : QStateRegister q)
      → ref < r.fresh
      → IsIndexed r
      → IsIndexed (forget q qubit ref amp r)
  unfolding forget
  forget-IsIndexed qubit ref amp r old h = none-IsIndexed qubit _ (
      kept-IsIndexed (without qubit (r.group ref).ids) amp r
        (λ j here. h.named ref j old (ground (arith, here, elem-without j qubit (r.group ref).ids)))
        h)

  -- A measurement, and the operations before it.
  pub measure-IsIndexed :
      (qubit : ℕ) (angle : q.Angle) (samp : F) (r : QStateRegister q)
      → IsIndexed r
      → OnOk (λ done. IsIndexed done.0) (measure q qubit angle samp r)
  unfolding measure measure_at
  measure-IsIndexed qubit angle samp r h =
      OnOk->>= _ _ (ref_of q qubit r) _ (ref_of-OnOk qubit r)
        (λ ref at. forget-IsIndexed qubit ref _ r (h.older qubit ref at) h)

  pub create_bell_pair-IsIndexed :
      (fidelity draw : F) (other : ℕ) (r : QStateRegister q)
      → IsIndexed r
      → IsIndexed (create_bell_pair q fidelity draw other r).0
  unfolding create_bell_pair
  create_bell_pair-IsIndexed fidelity draw other r h =
      store-IsIndexed _ _ (record r { next_id = r.next_id + 2 }) (λ j here. ground (arith, here))
        (record {
          inside = h.inside;
          older = h.older;
          named = λ ref j less here. omega (arith, h.named ref j less here);
        })

  pub apply_pauli-IsIndexed :
      (qubit : ℕ) (x z : Bool) (r : QStateRegister q)
      → IsIndexed r
      → OnOk IsIndexed (apply_pauli q qubit x z r)
  unfolding apply_pauli pauli_at
  apply_pauli-IsIndexed qubit x z r h =
      OnOk->>= _ _ (ref_of q qubit r) _ (ref_of-OnOk qubit r) (λ ref at.
        elim (Bool-cases (x || z)) [ inl e ↦ rw e (set_amp-IsIndexed ref _ r h) | inr e ↦ rw e h ])

  pub bell_measure-IsIndexed :
      (q1 q2 : ℕ) (samp1 samp2 : F) (r : QStateRegister q)
      → IsIndexed r
      → OnOk (λ done. IsIndexed done.0) (bell_measure q q1 q2 samp1 samp2 r)
  unfolding bell_measure
  bell_measure-IsIndexed q1 q2 samp1 samp2 r h =
      OnOk->> _ (require (not (q1 == q2)) value_error) _ (
        OnOk->>= _ _ (ref_of q q1 r) _ (ref_of-OnOk q1 r) (λ ref1 at1.
          OnOk->>= _ _ (ref_of q q2 r) _ (ref_of-OnOk q2 r) (λ ref2 at2.
            let merged =
              merge-IsIndexed ref1 ref2 r (h.older q1 ref1 at1) (h.older q2 ref2 at2) h in
            OnOk->>= _ _ (ref_of q q1 (merge q ref1 ref2 r)) _
              (ref_of-OnOk q1 (merge q ref1 ref2 r))
              (λ ref at.
                OnOk->>= _ _ (measure q q1 q.z_basis samp1 _) _
                  (measure-IsIndexed q1 q.z_basis samp1 _ (set_amp-IsIndexed ref _ _ merged))
                  (λ first once.
                    OnOk->>= _ _ (measure q q2 q.z_basis samp2 first.0) _
                      (measure-IsIndexed q2 q.z_basis samp2 first.0 once)
                      (λ second twice. twice))))))
