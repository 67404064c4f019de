-- ===== src/QState/Paulis.antt =====
-- A new pair is in the Bell state that was drawn, and a Pauli correction of its second qubit changes
-- the bits of the state.
use qfabric.Prelude.{
  ℕ, ◌+◌, ◌≡◌, refl, ap, ◌∙◌, Bool, true, false, not, ◌&&◌, [], ◌∷◌, xor, arith, ◌==◌,
  if◌then◌else◌,
}
use qfabric.Prelude.Result.{ok}
use qfabric.Amplitudes.{Amplitudes, IsExact}
use qfabric.Tensors.{Tensor, Gate, apply_1q, identity, pauli_x, pauli_z, matmul}
use qfabric.QState.{
  QStateRegister, set_amp, index, bell_tensor, drawn_state, create_bell_pair, correction, pauli_at,
  apply_pauli,
}
use qfabric.QState.Groups.{Has, Leaves}
use qfabric.QState.Entries.{x_of, z_of, signed, pick, mul-signed, mul-pick, bell-entry}
use qfabric.QState.Swap.{Pair, IsPair}

module _ (q : Amplitudes) (e : IsExact q) where
  open q use {F, add, mul, neg, inv_sqrt2}

  pub pick-mul : (r : Bool) (u v : F) → mul (pick q e r u) v ≡ pick q e r (mul u v)
  pick-mul true u v = refl
  pick-mul false u v = e.zero-mul v

  -- A gate that has one entry in each row: `x` says whether it flips, `z` whether a 1 gets a minus.
  abbrev Flips : Gate q → Bool → Bool → Type 0
  Flips u x z = (a b : Bool) → u a b ≡ pick q e (not (xor (xor a b) x)) (signed q e (z && b) q.one)

  matmul-Flips :
      (u v : Gate q) (x s t : Bool)
      → Flips u x s
      → Flips v false t
      → Flips (matmul q u v) x (xor s t)
  unfolding matmul
  matmul-Flips u v x s t h k a true =
      simp (matmul, h, k, e.mul-zero, e.zero-add, pick-mul, mul-signed q e, e.one-mul)
        (ap (λ b. pick q e (not (xor (xor a true) x)) (signed q e b q.one)) (ground arith))
  matmul-Flips u v x s t h k a false =
      simp (matmul, h, k, e.mul-zero, e.add-zero, pick-mul, mul-signed q e, e.one-mul)
        (ap (λ b. pick q e (not (xor (xor a false) x)) (signed q e b q.one)) (ground arith))

  identity-Flips : Flips (identity q) false false
  unfolding identity
  identity-Flips true true = refl
  identity-Flips true false = refl
  identity-Flips false true = refl
  identity-Flips false false = refl

  pauli_x-Flips : Flips (pauli_x q) true false
  unfolding pauli_x
  pauli_x-Flips true true = refl
  pauli_x-Flips true false = refl
  pauli_x-Flips false true = refl
  pauli_x-Flips false false = refl

  pauli_z-Flips : Flips (pauli_z q) false true
  unfolding pauli_z
  pauli_z-Flips true true = refl
  pauli_z-Flips true false = refl
  pauli_z-Flips false true = refl
  pauli_z-Flips false false = refl

  correction-Flips : (x z : Bool) → Flips (correction q x z) x z
  unfolding correction
  correction-Flips true true =
      matmul-Flips (pauli_x q) (matmul q (pauli_z q) (identity q)) true false true pauli_x-Flips
        (matmul-Flips (pauli_z q) (identity q) false true false pauli_z-Flips identity-Flips)
  correction-Flips true false =
      matmul-Flips (pauli_x q) (identity q) true false false pauli_x-Flips identity-Flips
  correction-Flips false true =
      matmul-Flips (pauli_z q) (identity q) false true false pauli_z-Flips identity-Flips
  correction-Flips false false = identity-Flips

  -- Of the two entries that a row meets, the one where the pair is not 0.
  met :
      (y d x t0 t1 : Bool)
      → add
          (pick q e
            (not (xor (xor d false) x))
            (pick q e (not (xor y false)) (signed q e t0 inv_sqrt2)))
          (pick q e
            (not (xor (xor d true) x))
            (pick q e (not (xor y true)) (signed q e t1 inv_sqrt2)))
        ≡ pick q e (not (xor (xor y x) d)) (signed q e (if y then t1 else t0) inv_sqrt2)
  met true true true t0 t1 = e.zero-add _
  met true true false t0 t1 = e.zero-add _
  met true false true t0 t1 = e.zero-add _
  met true false false t0 t1 = e.zero-add _
  met false true true t0 t1 = e.add-zero _
  met false true false t0 t1 = e.add-zero _
  met false false true t0 t1 = e.add-zero _
  met false false false t0 t1 = e.add-zero _

  parity_lem : (p x1 x : Bool) → xor (xor p x1) x ≡ xor p (xor x1 x)
  parity_lem p x1 x = ground arith

  sign_lem :
      (p x1 z s z1 : Bool)
      → (if xor p x1 then xor (z && true) (xor s (z1 && p)) else xor (z && false) (xor s (z1 && p)))
        ≡ xor (xor s (z && x1)) (xor z1 z && p)
  sign_lem p x1 z s z1 = ground arith

  -- The second qubit of a pair under such a gate.
  flipped :
      (amp : Tensor q) (u : Gate q) (x1 z1 s x z : Bool)
      → Flips u x z
      → Pair q e amp x1 z1 s
      → Pair q e (apply_1q q amp u 1) (xor x1 x) (xor z1 z) (xor s (z && x1))
  unfolding apply_1q
  flipped amp u x1 z1 s x z h k p d =
      simp (apply_1q, h, k, pick-mul, mul-pick q e, mul-signed q e, e.one-mul)
        (met (xor p x1) d x (xor (z && false) (xor s (z1 && p))) (xor (z && true) (xor s (z1 && p)))
          ∙ simp (parity_lem, sign_lem))

  pub xor_zero : (b : Bool) → xor b false ≡ b
  xor_zero true = refl
  xor_zero false = refl

  -- The group of a pair after its second qubit's gate.
  changed-Has :
      (r : QStateRegister q) (a b ref : ℕ) (amp : Tensor q) (u : Gate q)
      → (a == b) ≡ false
      → Has q r (a ∷ b ∷ []) amp ref
      → Has q
          (set_amp q ref (apply_1q q (r.group ref).amp u (index b (r.group ref).ids)) r)
          (a ∷ b ∷ [])
          (apply_1q q amp u 1)
          ref
  changed-Has r a b ref amp u apart h =
      let i : index b (a ∷ b ∷ []) ≡ 1 = ground (arith, apart) in
      rw h.is_group
        (rw i record { owned = h.owned; is_group = rw h.is_group (ground arith); older = h.older })

  pauli_at-IsPair :
      (r : QStateRegister q) (a b : ℕ) (x1 z1 x z : Bool)
      → (a == b) ≡ false
      → (h : IsPair q e r a b x1 z1)
      → IsPair q e (pauli_at q b x z r h.ref) a b (xor x1 x) (xor z1 z)
  unfolding pauli_at
  pauli_at-IsPair r a b x1 z1 true z apart h = record {
    amp = apply_1q q h.amp (correction q true z) 1;
    ref = h.ref;
    sign_bit = xor h.sign_bit (z && x1);
    has = changed-Has r a b h.ref h.amp (correction q true z) apart h.has;
    entries =
        flipped h.amp (correction q true z) x1 z1 h.sign_bit true z (correction-Flips true z)
          h.entries;
  }
  pauli_at-IsPair r a b x1 z1 false true apart h = record {
    amp = apply_1q q h.amp (correction q false true) 1;
    ref = h.ref;
    sign_bit = xor h.sign_bit x1;
    has = changed-Has r a b h.ref h.amp (correction q false true) apart h.has;
    entries =
        flipped h.amp (correction q false true) x1 z1 h.sign_bit false true
          (correction-Flips false true) h.entries;
  }
  pauli_at-IsPair r a b x1 z1 false false apart h = rw (xor_zero x1) (rw (xor_zero z1) h)

  -- With exact arithmetic `apply_pauli` of the second qubit of a pair adds its bits to those of the pair.
  pub apply_pauli-IsPair :
      (r : QStateRegister q) (a b : ℕ) (x1 z1 x z : Bool)
      → (a == b) ≡ false
      → IsPair q e r a b x1 z1
      → (r' : QStateRegister q) × (apply_pauli q b x z r ≡ ok r')
        × IsPair q e r' a b (xor x1 x) (xor z1 z)
  unfolding apply_pauli
  apply_pauli-IsPair r a b x1 z1 x z apart h = (
    pauli_at q b x z r h.ref,
    rw (h.has.owned b (ground arith)) refl,
    pauli_at-IsPair r a b x1 z1 x z apart h,
  )

  -- A new pair is in the state that was drawn.
  pub create_bell_pair-IsPair :
      (fidelity draw : F) (other : ℕ) (r : QStateRegister q)
      → let state = drawn_state q fidelity draw other in
        IsPair q e
          (create_bell_pair q fidelity draw other r).0
          r.next_id
          (r.next_id + 1)
          (x_of state)
          (z_of state)
  unfolding create_bell_pair bell_tensor
  create_bell_pair-IsPair fidelity draw other r = record {
    amp = bell_tensor q (drawn_state q fidelity draw other);
    ref = r.fresh;
    sign_bit = false;
    has = record {
      owned = λ j here. ground (arith, here);
      is_group = ground arith;
      older = omega arith;
    };
    entries = λ p d. bell-entry q e (drawn_state q fidelity draw other) p d;
  }

  pub create_bell_pair-Leaves :
      (fidelity draw : F) (other : ℕ) (r : QStateRegister q)
      → Leaves q (r.next_id ∷ (r.next_id + 1) ∷ []) r (create_bell_pair q fidelity draw other r).0
  unfolding create_bell_pair
  create_bell_pair-Leaves fidelity draw other r = record {
    others = λ j out. ground (arith, out);
    objects = λ k lt. ground (arith, lt);
    newer = omega arith;
  }
