-- ===== src/QState/Entries.antt =====
-- The entries of the states in a Bell-state measurement are 0 or, up to a sign, a power of 1/√2.
use qfabric.Prelude.{
  ℕ, ◌≡◌, refl, ap, subst, ◌∙◌, Bool, true, false, not, ◌&&◌, List, [], ◌∷◌, set, xor, Bool-cases,
  inl, inr,
}
use qfabric.Amplitudes.{Amplitudes, IsExact}
use qfabric.Tensors.{
  Tensor, apply_1q, apply_2q, sum_all, masked, drop_qubit, rot_meas_unitary, hadamard, cnot, bit,
}
use qfabric.QState.{BellState, phi_plus, phi_minus, psi_plus, psi_minus, bell, collapse}

-- The two bits of a Bell state: whether the qubits differ, and whether a 1 has a minus.
abbrev pub x_of : BellState → Bool
x_of phi_plus = false
x_of phi_minus = false
x_of psi_plus = true
x_of psi_minus = true

abbrev pub z_of : BellState → Bool
z_of phi_plus = false
z_of phi_minus = true
z_of psi_plus = false
z_of psi_minus = true

pub xor_self : (b : Bool) → xor b b ≡ false
xor_self true = refl
xor_self false = refl

module _ (q : Amplitudes) (e : IsExact q) where
  open q use {F, add, mul, neg, div, abs2, sqrt, inv_sqrt2}

  abbrev pub signed : Bool → F → F
  signed true v = neg v
  signed false v = v

  abbrev pub pick : Bool → F → F
  pick true v = v
  pick false v = q.zero

  pub mul-pick : (x : F) (r : Bool) (v : F) → mul x (pick r v) ≡ pick r (mul x v)
  mul-pick x true v = refl
  mul-pick x false v = e.mul-zero x

  pub mul-signed :
      (s t : Bool) (u v : F) → mul (signed s u) (signed t v) ≡ signed (xor s t) (mul u v)
  mul-signed true true u v = simp (e.neg-mul, e.mul-neg, e.neg-neg)
  mul-signed true false u v = e.neg-mul u v
  mul-signed false true u v = e.mul-neg u v
  mul-signed false false u v = refl

  pub div-pick : (r : Bool) (v : F) → div (pick r v) inv_sqrt2 ≡ pick r (div v inv_sqrt2)
  div-pick true v = refl
  div-pick false v = e.zero-div

  pub div-signed : (s : Bool) (v : F) → div (signed s (mul inv_sqrt2 v)) inv_sqrt2 ≡ signed s v
  div-signed true v = e.neg-div _ _ ∙ ap neg (e.div-mul v)
  div-signed false v = e.div-mul v

  pub abs2-entry : (r s : Bool) (v : F) → abs2 (pick r (signed s v)) ≡ pick r (abs2 v)
  abs2-entry true true v = e.abs2-neg v
  abs2-entry true false v = refl
  abs2-entry false s v = e.abs2-zero

  -- Of two entries at which the last bit differs, one is picked.
  pub picked : (w : Bool) (v : F) → add (pick (not (xor w false)) v) (pick (not (xor w true)) v) ≡ v
  picked true v = e.zero-add v
  picked false v = e.add-zero v

  pub bell-entry :
      (state : BellState) (a b : Bool)
      → bell q state a b
        ≡ pick (not (xor (xor a (x_of state)) b)) (signed (z_of state && a) inv_sqrt2)
  unfolding bell
  bell-entry phi_plus true true = e.one-mul _
  bell-entry phi_plus true false = e.zero-mul _
  bell-entry phi_plus false true = e.zero-mul _
  bell-entry phi_plus false false = e.one-mul _
  bell-entry phi_minus true true = e.neg-mul _ _ ∙ ap neg (e.one-mul _)
  bell-entry phi_minus true false = e.zero-mul _
  bell-entry phi_minus false true = e.zero-mul _
  bell-entry phi_minus false false = e.one-mul _
  bell-entry psi_plus true true = e.zero-mul _
  bell-entry psi_plus true false = e.one-mul _
  bell-entry psi_plus false true = e.one-mul _
  bell-entry psi_plus false false = e.zero-mul _
  bell-entry psi_minus true true = e.zero-mul _
  bell-entry psi_minus true false = e.neg-mul _ _ ∙ ap neg (e.one-mul _)
  bell-entry psi_minus false true = e.one-mul _
  bell-entry psi_minus false false = e.zero-mul _

  pub hadamard-entry : (b c : Bool) → hadamard q b c ≡ signed (b && c) inv_sqrt2
  unfolding hadamard
  hadamard-entry true true = e.neg-mul _ _ ∙ ap neg (e.one-mul _)
  hadamard-entry true false = e.one-mul _
  hadamard-entry false true = e.one-mul _
  hadamard-entry false false = e.one-mul _

  cnot-entry :
      (b c b' c' : Bool) → cnot q b c b' c' ≡ pick (not (xor b b') && not (xor (xor c c') b)) q.one
  unfolding cnot
  cnot-entry true true true true = refl
  cnot-entry true true true false = refl
  cnot-entry true false true true = refl
  cnot-entry true false true false = refl
  cnot-entry false true false true = refl
  cnot-entry false true false false = refl
  cnot-entry false false false true = refl
  cnot-entry false false false false = refl
  cnot-entry true c false c' = refl
  cnot-entry false c true c' = refl

  -- CNOT adds the control to the target.
  pub cnot_lem :
      (amp : Tensor q) (a b c d : Bool)
      → apply_2q q amp (cnot q) 1 2 (a ∷ b ∷ c ∷ d ∷ []) ≡ amp (a ∷ b ∷ xor c b ∷ d ∷ [])
  unfolding apply_2q
  cnot_lem amp a true true d =
      simp (apply_2q, cnot-entry, e.zero-mul, e.one-mul, e.zero-add, e.add-zero)
  cnot_lem amp a true false d = simp (apply_2q, cnot-entry, e.zero-mul, e.one-mul, e.zero-add)
  cnot_lem amp a false true d =
      simp (apply_2q, cnot-entry, e.zero-mul, e.one-mul, e.zero-add, e.add-zero)
  cnot_lem amp a false false d =
      simp (apply_2q, cnot-entry, e.zero-mul, e.one-mul, e.zero-add, e.add-zero)

  turn-entry : (b c : Bool) → rot_meas_unitary q q.z_basis b c ≡ pick (not (xor b c)) q.one
  unfolding rot_meas_unitary
  turn-entry true true = e.cos_z
  turn-entry true false = ap neg e.sin_z ∙ e.neg-zero
  turn-entry false true = e.sin_z
  turn-entry false false = e.cos_z

  -- The rotation to the Z basis changes nothing.
  pub rotated :
      (amp : Tensor q) (idx : ℕ) (bits : List Bool)
      → set bits idx (bit idx bits) ≡ bits
      → apply_1q q amp (rot_meas_unitary q q.z_basis) idx bits ≡ amp bits
  unfolding apply_1q
  rotated amp idx bits h = elim (Bool-cases (bit idx bits)) [
    | inl t ↦
        let same : set bits idx true ≡ bits = subst (λ b. set bits idx b ≡ bits) t h in
        rw (t, apply_1q) (simp (turn-entry, e.zero-mul, e.one-mul, e.zero-add) (ap amp same))
    | inr t ↦
        let same : set bits idx false ≡ bits = subst (λ b. set bits idx b ≡ bits) t h in
        rw (t, apply_1q) (simp (turn-entry, e.zero-mul, e.one-mul, e.add-zero) (ap amp same))
  ]

  -- Entries that are 0 unless a parity holds: `w` is that of the qubits before the last.
  abbrev pub Entries4 :
      Tensor q → (Bool → Bool → Bool) → (Bool → Bool → Bool → Bool → Bool) → Type 0
  Entries4 amp w s =
      (a b c d : Bool)
      → amp (a ∷ b ∷ c ∷ d ∷ [])
        ≡ pick (not (xor (w a c) d)) (signed (s a b c d) (mul inv_sqrt2 (mul inv_sqrt2 inv_sqrt2)))

  abbrev pub Entries3 : Tensor q → (Bool → Bool → Bool) → (Bool → Bool → Bool → Bool) → Type 0
  Entries3 amp w s =
      (a c d : Bool)
      → amp (a ∷ c ∷ d ∷ [])
        ≡ pick (not (xor (w a c) d)) (signed (s a c d) (mul inv_sqrt2 inv_sqrt2))

  abbrev pub Entries2 : Tensor q → (Bool → Bool) → (Bool → Bool → Bool) → Type 0
  Entries2 amp w s =
      (a d : Bool) → amp (a ∷ d ∷ []) ≡ pick (not (xor (w a) d)) (signed (s a d) inv_sqrt2)

  -- The squares of what a measurement leaves sum to 1/2, whatever its outcome.
  weight4 :
      (amp : Tensor q) (w : Bool → Bool → Bool) (s : Bool → Bool → Bool → Bool → Bool) (m : Bool)
      → Entries4 amp w s
      → sum_all q 4 (λ bits. abs2 (masked q 1 m amp bits)) ≡ mul inv_sqrt2 inv_sqrt2
  unfolding sum_all masked
  weight4 amp w s true h = simp (
    sum_all, masked, h, e.abs2-zero, abs2-entry, picked, e.abs2-mul, e.abs2-inv_sqrt2, e.halves,
    e.zero-add,
  )
  weight4 amp w s false h = simp (
    sum_all, masked, h, e.abs2-zero, abs2-entry, picked, e.abs2-mul, e.abs2-inv_sqrt2, e.halves,
    e.add-zero,
  )

  weight3 :
      (amp : Tensor q) (w : Bool → Bool → Bool) (s : Bool → Bool → Bool → Bool) (m : Bool)
      → Entries3 amp w s
      → sum_all q 3 (λ bits. abs2 (masked q 1 m amp bits)) ≡ mul inv_sqrt2 inv_sqrt2
  unfolding sum_all masked
  weight3 amp w s true h = simp (
    sum_all, masked, h, e.abs2-zero, abs2-entry, picked, e.abs2-mul, e.abs2-inv_sqrt2, e.halves,
    e.zero-add,
  )
  weight3 amp w s false h = simp (
    sum_all, masked, h, e.abs2-zero, abs2-entry, picked, e.abs2-mul, e.abs2-inv_sqrt2, e.halves,
    e.add-zero,
  )

  -- After an outcome whose squares sum to 1/2, each entry of the outcome is divided by 1/√2.
  pub collapse_lem :
      (idx n : ℕ) (m : Bool) (amp : Tensor q) (bits : List Bool)
      → sum_all q n (λ bits. abs2 (masked q idx m amp bits)) ≡ mul inv_sqrt2 inv_sqrt2
      → collapse q idx n m amp bits ≡ div (masked q idx m amp bits) inv_sqrt2
  unfolding collapse
  collapse_lem idx n m amp bits h = rw (h, e.sqrt-half, e.positive)

  pub collapse4 :
      (amp : Tensor q) (w : Bool → Bool → Bool) (s : Bool → Bool → Bool → Bool → Bool) (m : Bool)
      → Entries4 amp w s
      → Entries3 (drop_qubit q (collapse q 1 4 m amp) 1 m) w (λ a c d. s a m c d)
  unfolding drop_qubit masked
  collapse4 amp w s m h a c d =
      collapse_lem 1 4 m amp (a ∷ m ∷ c ∷ d ∷ []) (weight4 amp w s m h)
      ∙ simp (xor_self, h, div-pick, div-signed)

  pub collapse3 :
      (amp : Tensor q) (w : Bool → Bool → Bool) (s : Bool → Bool → Bool → Bool) (m : Bool)
      → Entries3 amp w s
      → Entries2 (drop_qubit q (collapse q 1 3 m amp) 1 m) (λ a. w a m) (λ a d. s a m d)
  unfolding drop_qubit masked
  collapse3 amp w s m h a d =
      collapse_lem 1 3 m amp (a ∷ m ∷ d ∷ []) (weight3 amp w s m h)
      ∙ simp (xor_self, h, div-pick, div-signed)
