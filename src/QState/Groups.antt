-- ===== src/QState/Groups.antt =====
-- Which qubits share an object of the register, and what the operations leave alone.
use qfabric.Prelude.{
  ℕ, ◌≤◌, ◌<◌, ◌≡◌, ◌≢◌, refl, sym, ap, ◌∙◌, Bool, true, false, not, ◌&&◌, some, List, [], ◌∷◌,
  ◌++◌, length, arith, ◌==◌,
}
use qfabric.Prelude.Elem.{elem}
use qfabric.Prelude.Result.{ok}
use qfabric.Amplitudes.{Amplitudes}
use qfabric.Tensors.{Tensor, apply_1q, kron, drop_qubit, rot_meas_unitary}
use qfabric.QState.{
  QStateRegister, set_amp, index, without, collapse, outcome_of, forget, kept, measure, merge,
}

pub elem-without : (j x : ℕ) (ys : List ℕ) → elem j (without x ys) ≡ (not (j == x) && elem j ys)
elem-without j x [] = ground arith
elem-without j x (y ∷ ys) = ground (arith, elem-without j x ys)

module _ (q : Amplitudes) where
  open q use {F}

  -- The qubits of a list are the group of one object.
  pub record Has (r : QStateRegister q) (ids : List ℕ) (amp : Tensor q) (ref : ℕ) : Type 0 where
    pub owned : (j : ℕ) → elem j ids ≡ true → r.owner j ≡ some ref
    pub is_group : r.group ref ≡ record { ids = ids; amp = amp }
    pub older : ref < r.fresh

  -- What an operation on some qubits leaves alone.
  pub record Leaves (ids : List ℕ) (r r' : QStateRegister q) : Type 0 where
    pub others : (j : ℕ) → elem j ids ≡ false → r'.owner j ≡ r.owner j
    pub objects : (k : ℕ) → k < r.fresh → r'.group k ≡ r.group k
    pub newer : r.fresh ≤ r'.fresh

  abbrev pub turned : q.Angle → Tensor q → ℕ → Tensor q
  turned angle amp idx = apply_1q q amp (rot_meas_unitary q angle) idx

  abbrev pub left : q.Angle → Tensor q → ℕ → ℕ → Bool → Tensor q
  left angle amp idx n m = drop_qubit q (collapse q idx n m (turned angle amp idx)) idx m

  pub measure_lem :
      (angle : q.Angle) (r : QStateRegister q) (ids : List ℕ) (amp : Tensor q) (ref qubit idx n : ℕ)
      (samp : F)
      → r.owner qubit ≡ some ref
      → r.group ref ≡ record { ids = ids; amp = amp }
      → index qubit ids ≡ idx
      → length ids ≡ n
      → measure q qubit angle samp r ≡ (
          let m = outcome_of q idx n samp (turned angle amp idx) in
          ok (forget q qubit ref (left angle amp idx n m) r, m))
  unfolding measure
  measure_lem angle r ids amp ref qubit idx n samp o g i l = rw o (rw g (rw i (rw l refl)))

  forget-Has :
      (r : QStateRegister q) (ids rest : List ℕ) (amp next : Tensor q) (ref qubit id : ℕ)
      → Has r ids amp ref
      → without qubit ids ≡ id ∷ rest
      → elem qubit (id ∷ rest) ≡ false
      → Has (forget q qubit ref next r) (id ∷ rest) next r.fresh
  unfolding forget kept
  forget-Has r ids rest amp next ref qubit id h w out = rw h.is_group (
      rw w record {
        owned = λ j here. ground (arith, here, out);
        is_group = ground arith;
        older = omega arith;
      })

  forget-Leaves :
      (r : QStateRegister q) (ids rest : List ℕ) (amp next : Tensor q) (ref qubit id : ℕ)
      → Has r ids amp ref
      → elem qubit ids ≡ true
      → without qubit ids ≡ id ∷ rest
      → Leaves ids r (forget q qubit ref next r)
  unfolding forget kept
  forget-Leaves r ids rest amp next ref qubit id h here w = rw h.is_group (
      rw w record {
        others = λ j out.
            let e : elem j (id ∷ rest) ≡ (not (j == qubit) && elem j ids) =
              sym (ap (elem j) w) ∙ elem-without j qubit ids in
            ground (arith, here, out, e);
        objects = λ k lt. ground (arith, lt);
        newer = omega arith;
      })

  -- A measurement of one qubit of a group with more of them.
  pub measure-Has :
      (angle : q.Angle) (r : QStateRegister q) (ids rest : List ℕ) (amp : Tensor q)
      (ref qubit id idx n : ℕ) (samp : F)
      → Has r ids amp ref
      → elem qubit ids ≡ true
      → without qubit ids ≡ id ∷ rest
      → index qubit ids ≡ idx
      → length ids ≡ n
      → (r' : QStateRegister q) × (m : Bool) × (measure q qubit angle samp r ≡ ok (r', m))
        × Has r' (id ∷ rest) (left angle amp idx n m) r.fresh
        × Leaves ids r r'
  measure-Has angle r ids rest amp ref qubit id idx n samp h here w i l =
      let m = outcome_of q idx n samp (turned angle amp idx) in
      let out : elem qubit (id ∷ rest) ≡ false =
        sym (ap (elem qubit) w) ∙ elem-without qubit qubit ids ∙ ground arith in
      (
        forget q qubit ref (left angle amp idx n m) r,
        m,
        measure_lem angle r ids amp ref qubit idx n samp (h.owned qubit here) h.is_group i l,
        forget-Has r ids rest amp (left angle amp idx n m) ref qubit id h w out,
        forget-Leaves r ids rest amp (left angle amp idx n m) ref qubit id h here w,
      )

  pub Leaves-trans :
      (ids ids' : List ℕ) (r r' r'' : QStateRegister q)
      → ((j : ℕ) → elem j ids ≡ false → elem j ids' ≡ false)
      → Leaves ids r r'
      → Leaves ids' r' r''
      → Leaves ids r r''
  Leaves-trans ids ids' r r' r'' sub a b = record {
    others = λ j out. b.others j (sub j out) ∙ a.others j out;
    objects = λ k lt. b.objects k (omega (arith, a.newer)) ∙ a.objects k lt;
    newer = omega (arith, a.newer, b.newer);
  }

  pub Leaves-more :
      (ids ids' : List ℕ) (r r' : QStateRegister q)
      → ((j : ℕ) → elem j ids ≡ false → elem j ids' ≡ false)
      → Leaves ids' r r'
      → Leaves ids r r'
  Leaves-more ids ids' r r' sub a = record {
    others = λ j out. a.others j (sub j out);
    objects = a.objects;
    newer = a.newer;
  }

  -- Two groups joined, and the state of the joined one changed.
  pub merge-Has :
      (r : QStateRegister q) (ids1 ids2 : List ℕ) (amp1 amp2 next : Tensor q) (ref1 ref2 : ℕ)
      → Has r ids1 amp1 ref1
      → Has r ids2 amp2 ref2
      → ref1 ≢ ref2
      → Has (set_amp q r.fresh next (merge q ref1 ref2 r)) (ids1 ++ ids2) next r.fresh
        × Leaves (ids1 ++ ids2) r (set_amp q r.fresh next (merge q ref1 ref2 r))
        × ((merge q ref1 ref2 r).group r.fresh
            ≡ record { ids = ids1 ++ ids2; amp = kron q (length ids1) amp1 amp2 })
        × ((j : ℕ) → elem j (ids1 ++ ids2) ≡ true → (merge q ref1 ref2 r).owner j ≡ some r.fresh)
  unfolding merge
  merge-Has r ids1 ids2 amp1 amp2 next ref1 ref2 h1 h2 other =
      let t : (ref1 == ref2) ≡ false = ground (arith, other) in
      rw t (
        rw h1.is_group (
          rw h2.is_group (
            record {
              owned = λ j here. ground (arith, here);
              is_group = ground arith;
              older = omega arith;
            },
            record {
              others = λ j out. ground (arith, out);
              objects = λ k lt. ground (arith, lt);
              newer = omega arith;
            },
            ground arith,
            λ j here. ground (arith, here),
          )))
