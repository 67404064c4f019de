-- ===== src/QState/Readout.antt =====
-- Both qubits of a pair read out in one basis: the second outcome is the first, flipped by the bit of
-- the pair's state that the basis shows.
use qfabric.Prelude.{ℕ, ◌≡◌, refl, ap, ◌∙◌, Bool, true, false, not, ◌&&◌, [], ◌∷◌, xor, arith, ◌==◌}
use qfabric.Prelude.Result.{ok}
use qfabric.Amplitudes.{Amplitudes, IsExact}
use qfabric.Tensors.{Tensor, apply_1q, sum_all, masked, drop_qubit, rot_meas_unitary}
use qfabric.QState.{QStateRegister, measure, outcome_of}
use qfabric.QState.Groups.{turned, left, measure_lem, measure-Has}
use qfabric.QState.Entries.{
  signed, pick, picked, mul-signed, rotated, abs2-entry, div-signed, xor_self, collapse_lem,
}
use qfabric.QState.Swap.{Pair, IsPair}

module _ (q : Amplitudes) (e : IsExact q) where
  open q use {F, add, mul, neg, div, abs2, inv_sqrt2}

  -- The state of one qubit that is surely `y`, up to a sign.
  abbrev Sure : Tensor q → Bool → Type 0
  Sure amp y =
      (t : Bool → Bool) × ((d : Bool)
        → amp (d ∷ []) ≡ pick q e (not (xor y d)) (signed q e (t d) q.one))

  outcome-Sure :
      (samp : F) (amp : Tensor q) (y : Bool)
      → q.lt samp q.one ≡ true
      → q.lt samp q.zero ≡ false
      → Sure amp y
      → outcome_of q 0 1 samp amp ≡ y
  unfolding outcome_of sum_all masked
  outcome-Sure samp amp true below above (t, h) =
      simp (outcome_of, sum_all, masked, h, e.abs2-zero, e.add-zero, above)
  outcome-Sure samp amp false below above (t, h) =
      simp
        (outcome_of, sum_all, masked, h, abs2-entry q e, e.abs2-zero, e.abs2-one, e.add-zero, below)

  -- The Z basis: after the first outcome the other qubit is sure.
  z_weight :
      (amp : Tensor q) (x z s m : Bool)
      → Pair q e amp x z s
      → sum_all q 2 (λ bits. abs2 (masked q 0 m amp bits)) ≡ mul inv_sqrt2 inv_sqrt2
  unfolding sum_all masked
  z_weight amp x z s true h =
      simp
        (sum_all, masked, h, e.abs2-zero, abs2-entry q e, picked q e, e.abs2-inv_sqrt2, e.zero-add)
  z_weight amp x z s false h =
      simp
        (sum_all, masked, h, e.abs2-zero, abs2-entry q e, picked q e, e.abs2-inv_sqrt2, e.add-zero)

  div-one :
      (r s : Bool)
      → div (pick q e r (signed q e s inv_sqrt2)) inv_sqrt2 ≡ pick q e r (signed q e s q.one)
  div-one true true = e.neg-div _ _ ∙ ap neg e.div-self
  div-one true false = e.div-self
  div-one false s = e.zero-div

  z_left :
      (amp : Tensor q) (x z s m : Bool)
      → Pair q e amp x z s
      → Sure (left q q.z_basis amp 0 2 m) (xor m x)
  unfolding drop_qubit masked
  z_left amp x z s m h =
      let turned-Pair : Pair q e (turned q q.z_basis amp 0) x z s =
        λ p d. rotated q e amp 0 (p ∷ d ∷ []) refl ∙ h p d in
      (
        λ d. xor s (z && m),
        λ d.
            collapse_lem q e 0 2 m (turned q q.z_basis amp 0) (m ∷ d ∷ [])
              (z_weight (turned q q.z_basis amp 0) x z s m turned-Pair)
            ∙ simp (xor_self, turned-Pair, div-one),
      )

  -- The X basis
  x_turn : (b c : Bool) → rot_meas_unitary q q.x_basis b c ≡ signed q e (b && not c) inv_sqrt2
  unfolding rot_meas_unitary
  x_turn true true = e.cos_x
  x_turn true false = ap neg e.sin_x
  x_turn false true = e.sin_x
  x_turn false false = e.cos_x

  -- The sign of an entry of a pair whose first qubit is turned.
  abbrev x_sign : Bool → Bool → Bool → Bool → Bool → Bool
  x_sign x z s p d = xor (p && not (xor d x)) (xor s (z && xor d x))

  x_turned :
      (amp : Tensor q) (x z s p d : Bool)
      → Pair q e amp x z s
      → turned q q.x_basis amp 0 (p ∷ d ∷ [])
        ≡ signed q e (x_sign x z s p d) (mul inv_sqrt2 inv_sqrt2)
  unfolding apply_1q
  x_turned amp true z s p true h =
      simp (apply_1q, x_turn, h, mul-signed q e, e.mul-zero, e.add-zero)
  x_turned amp true z s p false h =
      simp (apply_1q, x_turn, h, mul-signed q e, e.mul-zero, e.zero-add)
  x_turned amp false z s p true h =
      simp (apply_1q, x_turn, h, mul-signed q e, e.mul-zero, e.zero-add)
  x_turned amp false z s p false h =
      simp (apply_1q, x_turn, h, mul-signed q e, e.mul-zero, e.add-zero)

  abs2-signed : (s : Bool) (v : F) → abs2 (signed q e s v) ≡ abs2 v
  abs2-signed s v = abs2-entry q e true s v

  x_weight :
      (amp : Tensor q) (sign : Bool → Bool → Bool) (m : Bool)
      → ((p d : Bool) → amp (p ∷ d ∷ []) ≡ signed q e (sign p d) (mul inv_sqrt2 inv_sqrt2))
      → sum_all q 2 (λ bits. abs2 (masked q 0 m amp bits)) ≡ mul inv_sqrt2 inv_sqrt2
  unfolding sum_all masked
  x_weight amp sign true h = simp (
    sum_all, masked, h, e.abs2-zero, abs2-signed, e.abs2-mul, e.abs2-inv_sqrt2, e.halves,
    e.zero-add,
  )
  x_weight amp sign false h = simp (
    sum_all, masked, h, e.abs2-zero, abs2-signed, e.abs2-mul, e.abs2-inv_sqrt2, e.halves,
    e.add-zero,
  )

  x_left :
      (amp : Tensor q) (x z s m d : Bool)
      → Pair q e amp x z s
      → left q q.x_basis amp 0 2 m (d ∷ []) ≡ signed q e (x_sign x z s m d) inv_sqrt2
  unfolding drop_qubit masked
  x_left amp x z s m d h =
      collapse_lem q e 0 2 m (turned q q.x_basis amp 0) (m ∷ d ∷ [])
        (x_weight (turned q q.x_basis amp 0) (x_sign x z s) m (λ p d. x_turned amp x z s p d h))
      ∙ simp (xor_self, x_turned amp x z s m d h, div-signed q e)

  -- Two entries with signs add up to one or cancel.
  summed :
      (s t : Bool)
      → add (signed q e s (mul inv_sqrt2 inv_sqrt2)) (signed q e t (mul inv_sqrt2 inv_sqrt2))
        ≡ pick q e (not (xor s t)) (signed q e s q.one)
  summed true true = e.neg_add _ _ ∙ ap neg e.two_halves
  summed true false = e.neg-add _
  summed false true = e.add-neg _
  summed false false = e.two_halves

  same_sign :
      (x z s m d : Bool)
      → xor (xor (d && true) (x_sign x z s m false)) (xor (d && false) (x_sign x z s m true))
        ≡ xor (xor m z) d
  same_sign x z s m d = ground arith

  -- The turned state of one qubit whose entries differ by a sign.
  turned_sign :
      (amp : Tensor q) (s t d : Bool)
      → amp (false ∷ []) ≡ signed q e s inv_sqrt2
      → amp (true ∷ []) ≡ signed q e t inv_sqrt2
      → turned q q.x_basis amp 0 (d ∷ [])
        ≡ pick q e
            (not (xor (xor (d && true) s) (xor (d && false) t)))
            (signed q e (xor (d && true) s) q.one)
  unfolding apply_1q
  turned_sign amp s t d h k =
      simp (apply_1q, x_turn, h, k, mul-signed q e)
        (summed (xor (d && true) s) (xor (d && false) t))

  x-Sure :
      (amp : Tensor q) (x z s m : Bool)
      → Pair q e amp x z s
      → Sure (turned q q.x_basis (left q q.x_basis amp 0 2 m) 0) (xor m z)
  x-Sure amp x z s m h = (
    λ d. xor (d && true) (x_sign x z s m false),
    λ d.
        turned_sign (left q q.x_basis amp 0 2 m) (x_sign x z s m false) (x_sign x z s m true) d
          (x_left amp x z s m false h) (x_left amp x z s m true h)
        ∙ simp (same_sign x z s m d),
  )

  z-Sure :
      (amp : Tensor q) (x z s m : Bool)
      → Pair q e amp x z s
      → Sure (turned q q.z_basis (left q q.z_basis amp 0 2 m) 0) (xor m x)
  z-Sure amp x z s m h =
      let (t, first) = z_left amp x z s m h in
      (t, λ d. rotated q e (left q q.z_basis amp 0 2 m) 0 (d ∷ []) refl ∙ first d)

  second_outcome :
      (angle1 angle2 angle : q.Angle) (samp2 : F) (amp : Tensor q) (w m : Bool)
      → q.lt samp2 q.one ≡ true
      → q.lt samp2 q.zero ≡ false
      → Sure (turned q angle (left q angle amp 0 2 m) 0) (xor m w)
      → angle1 ≡ angle
      → angle2 ≡ angle
      → outcome_of q 0 1 samp2 (turned q angle2 (left q angle1 amp 0 2 m) 0) ≡ xor m w
  second_outcome angle1 angle2 angle samp2 amp w m below above sure e1 e2 = rw e1 (
      rw e2
        (outcome-Sure samp2 (turned q angle (left q angle amp 0 2 m) 0) (xor m w) below above sure))

  -- Whatever the two angles are, both measurements return; in one key basis the bits are related.
  pub measure-ends :
      (r : QStateRegister q) (a b : ℕ) (angle1 angle2 : q.Angle) (samp1 samp2 : F) (x z : Bool)
      → (a == b) ≡ false
      → q.lt samp2 q.one ≡ true
      → q.lt samp2 q.zero ≡ false
      → IsPair q e r a b x z
      → (r1 : QStateRegister q) × (r2 : QStateRegister q) × (m1 : Bool) × (m2 : Bool) × (measure q a
            angle1 samp1 r
          ≡ ok (r1, m1))
        × (measure q b angle2 samp2 r1 ≡ ok (r2, m2))
        × (angle1 ≡ q.z_basis → angle2 ≡ q.z_basis → m2 ≡ xor m1 x)
        × (angle1 ≡ q.x_basis → angle2 ≡ q.x_basis → m2 ≡ xor m1 z)
  measure-ends r a b angle1 angle2 samp1 samp2 x z apart below above h =
      let (r1, m, run, has, leaves) =
        measure-Has q angle1 r (a ∷ b ∷ []) [] h.amp h.ref a b 0 2 samp1 h.has (ground arith)
          (ground (arith, apart)) (ground arith) refl in
      let rest = left q angle1 h.amp 0 2 m in
      (
        r1,
        _,
        m,
        outcome_of q 0 1 samp2 (turned q angle2 rest 0),
        run,
        measure_lem q angle2 r1 (b ∷ []) rest r.fresh b 0 1 samp2 (has.owned b (ground arith))
            has.is_group (ground arith) refl,
        second_outcome angle1 angle2 q.z_basis samp2 h.amp x m below above
            (z-Sure h.amp x z h.sign_bit m h.entries),
        second_outcome angle1 angle2 q.x_basis samp2 h.amp z m below above
            (x-Sure h.amp x z h.sign_bit m h.entries),
      )
