-- ===== src/QuantumService/Indexed.antt =====
-- The registers that the operations reach, in any order.
use qfabric.Prelude.{
  ℕ, ◌+◌, ◌<◌, ◌≤◌, ◌≡◌, subst, inl, inr, Bool, true, not, Bool-cases, Option-cases, Option, none,
  some, List, [], ◌∷◌, length, arith, ◌==◌,
}
use qfabric.Prelude.Elem.{elem}
use qfabric.Prelude.Result.{ok, require, value_error}
use qfabric.Amplitudes.{Amplitudes}
use qfabric.QState.{
  QStateRegister, ref_of, merge, index, measure, apply_pauli, bell_measure, create_bell_pair,
}
use qfabric.QState.Gates.{alloc, Matrix, all_known, apply_known, apply_two, apply_gate}
use qfabric.QState.Indexed.{
  OnOk, OnOk->>=, OnOk->>, IsIndexed, ref_of-OnOk, merge-IsIndexed, set_amp-IsIndexed,
  store-IsIndexed, none-IsIndexed, measure-IsIndexed, apply_pauli-IsIndexed, bell_measure-IsIndexed,
  create_bell_pair-IsIndexed,
}
use qfabric.QuantumService.{QuantumStateService, drop}

index-lt : (j : ℕ) (ids : List ℕ) → elem j ids ≡ true → index j ids < length ids
index-lt j [] h = absurd (ground (arith, h))
index-lt j (x ∷ ids) h = elim (Bool-cases (j == x)) [
  | inl e ↦ ground (arith, e)
  | inr e ↦ ground (arith, e, index-lt j ids (ground (arith, e, h)))
]

module _ (q : Amplitudes) where
  open q use {F}

  two-IsIndexed :
      (q1 q2 : ℕ) (u : _) (r : QStateRegister q)
      → IsIndexed q r
      → OnOk (IsIndexed q) (apply_two q q1 q2 u r)
  unfolding apply_two
  two-IsIndexed q1 q2 u r h = OnOk->> _ (require (not (q1 == q2)) value_error) _ (
      OnOk->>= _ _ (ref_of q q1 r) _ (ref_of-OnOk q q1 r) (λ ref1 at1.
        OnOk->>= _ _ (ref_of q q2 r) _ (ref_of-OnOk q q2 r) (λ ref2 at2.
          let merged =
            merge-IsIndexed q ref1 ref2 r (h.older q1 ref1 at1) (h.older q2 ref2 at2) h in
          OnOk->>= _ _ (ref_of q q1 (merge q ref1 ref2 r)) _
            (ref_of-OnOk q q1 (merge q ref1 ref2 r))
            (λ ref at. set_amp-IsIndexed q ref _ _ merged))))

  known-IsIndexed :
      (ids : List ℕ) (matrix : Matrix q) (r : QStateRegister q)
      → IsIndexed q r
      → OnOk (IsIndexed q) (apply_known q ids matrix r)
  unfolding apply_known
  known-IsIndexed [] matrix r h = tt
  known-IsIndexed (id ∷ []) (Matrix.one_qubit u) r h =
      OnOk->>= _ _ (ref_of q id r) _ (ref_of-OnOk q id r) (λ ref at. set_amp-IsIndexed q ref _ r h)
  known-IsIndexed (id ∷ []) (Matrix.two_qubits u) r h = tt
  known-IsIndexed (q1 ∷ q2 ∷ []) (Matrix.two_qubits u) r h = two-IsIndexed q1 q2 u r h
  known-IsIndexed (q1 ∷ q2 ∷ []) (Matrix.one_qubit u) r h = tt
  known-IsIndexed (q1 ∷ q2 ∷ q3 ∷ ids) matrix r h = tt

  alloc-IsIndexed :
      (state : Option (F × F)) (r : QStateRegister q)
      → IsIndexed q r
      → OnOk (λ done. IsIndexed q done.0) (alloc q state r)
  unfolding alloc
  alloc-IsIndexed state r h =
      let vec : F × F = elim state [ none ↦ (q.one, q.zero) | some v ↦ v ] in
      elim (Bool-cases (q.lt q.zero (q.sqrt (q.add (q.abs2 vec.0) (q.abs2 vec.1))))) [
        | inr e ↦ rw e tt
        | inl e ↦ rw e (
            store-IsIndexed q _ _ (record r { next_id = r.next_id + 1 })
              (λ j here. ground (arith, here))
              (record {
                inside = h.inside;
                older = h.older;
                named = λ ref j less here. omega (arith, h.named ref j less here);
              }))
      ]

  gate-IsIndexed :
      (ids : List ℕ) (matrix : Matrix q) (r : QStateRegister q)
      → IsIndexed q r
      → OnOk (IsIndexed q) (apply_gate q ids matrix r)
  unfolding apply_gate
  gate-IsIndexed ids matrix r h =
      OnOk->> (IsIndexed q) (all_known q ids r) _ (known-IsIndexed ids matrix r h)

  -- One operation of the register or of the service.
  pub data Reached : QStateRegister q → Type 0 where
    empty :
        (r : QStateRegister q)
        → ((j : ℕ) → r.owner j ≡ none)
        → ((ref : ℕ) → (r.group ref).ids ≡ [])
        → Reached r
    created :
        (fidelity draw : F) (other : ℕ) (r : QStateRegister q)
        → Reached r
        → Reached (create_bell_pair q fidelity draw other r).0
    allocated :
        (state : Option (F × F)) (r r' : QStateRegister q) (id : ℕ)
        → alloc q state r ≡ ok (r', id)
        → Reached r
        → Reached r'
    paulied :
        (qubit : ℕ) (x z : Bool) (r r' : QStateRegister q)
        → apply_pauli q qubit x z r ≡ ok r'
        → Reached r
        → Reached r'
    gated :
        (ids : List ℕ) (matrix : Matrix q) (r r' : QStateRegister q)
        → apply_gate q ids matrix r ≡ ok r'
        → Reached r
        → Reached r'
    measured :
        (qubit : ℕ) (angle : q.Angle) (samp : F) (r r' : QStateRegister q) (m : Bool)
        → measure q qubit angle samp r ≡ ok (r', m)
        → Reached r
        → Reached r'
    swapped :
        (q1 q2 : ℕ) (samp1 samp2 : F) (r r' : QStateRegister q) (m1 m2 : Bool)
        → bell_measure q q1 q2 samp1 samp2 r ≡ ok (r', m1, m2)
        → Reached r
        → Reached r'
    dropped :
        (samp : ℕ → F) (qubit : ℕ) (svc : QuantumStateService q samp)
        → Reached svc.register
        → Reached (drop q samp qubit svc).register

  Reached-IsIndexed : (r : QStateRegister q) → Reached r → IsIndexed q r
  unfolding drop
  Reached-IsIndexed r (empty r' none_known no_ids) = record {
    inside = λ j ref at. absurd (ground (arith, at, none_known j));
    older = λ j ref at. absurd (ground (arith, at, none_known j));
    named = λ ref j less here. absurd (ground (arith, here, no_ids ref));
  }
  Reached-IsIndexed r (created fidelity draw other r0 before) =
      create_bell_pair-IsIndexed q fidelity draw other r0 (Reached-IsIndexed r0 before)
  Reached-IsIndexed r (allocated state r0 r1 id run before) =
      subst (OnOk (λ done. IsIndexed q done.0)) run
        (alloc-IsIndexed state r0 (Reached-IsIndexed r0 before))
  Reached-IsIndexed r (paulied qubit x z r0 r1 run before) =
      subst (OnOk (IsIndexed q)) run
        (apply_pauli-IsIndexed q qubit x z r0 (Reached-IsIndexed r0 before))
  Reached-IsIndexed r (gated ids matrix r0 r1 run before) =
      subst (OnOk (IsIndexed q)) run (gate-IsIndexed ids matrix r0 (Reached-IsIndexed r0 before))
  Reached-IsIndexed r (measured qubit angle samp r0 r1 m run before) =
      subst (OnOk (λ done. IsIndexed q done.0)) run
        (measure-IsIndexed q qubit angle samp r0 (Reached-IsIndexed r0 before))
  Reached-IsIndexed r (swapped q1 q2 samp1 samp2 r0 r1 m1 m2 run before) =
      subst (OnOk (λ done. IsIndexed q done.0)) run
        (bell_measure-IsIndexed q q1 q2 samp1 samp2 r0 (Reached-IsIndexed r0 before))
  Reached-IsIndexed r (dropped samp qubit svc before) =
      none-IsIndexed q qubit svc.register (Reached-IsIndexed svc.register before)

  -- In every register that the operations reach, in whatever order: a known qubit has a place among the
  -- ids of its group, so `ids.index` finds it; and a number that is still to be given out is unknown.
  pub Reached-index :
      (r : QStateRegister q)
      → Reached r
      → ((j ref : ℕ) → r.owner j ≡ some ref → index j (r.group ref).ids < length (r.group ref).ids)
        × ((j : ℕ) → r.next_id ≤ j → r.owner j ≡ none)
  Reached-index r reached =
      let h = Reached-IsIndexed r reached in
      (
        λ j ref at. index-lt j (r.group ref).ids (h.inside j ref at),
        λ j new. elim (Option-cases (r.owner j)) [
          | inl e ↦ e
          | inr (ref, at) ↦
              absurd (omega (arith, new, h.named ref j (h.older j ref at) (h.inside j ref at)))
        ],
      )
