-- ===== src/Tensors.antt =====
-- qne-sequence/qne_sequence/qstate_core.py: the linear algebra of the register. A state of n qubits is
-- numpy's array of 2^n amplitudes seen through `reshape([2] * n)`: a function of the n indices.
use qfabric.Prelude.{
  ℕ, zero, suc, Bool, true, false, List, [], ◌∷◌, get_or, set, take, drop, xor, if◌then◌else◌,
}
use qfabric.Amplitudes.{Amplitudes}

-- The index of a qubit among the indices, and the indices with one put in.
abbrev pub bit : ℕ → List Bool → Bool
bit idx bits = get_or bits idx false

abbrev pub insert_at : ℕ → Bool → List Bool → List Bool
insert_at zero b bits = b ∷ bits
insert_at (suc i) b [] = b ∷ []
insert_at (suc i) b (c ∷ bits) = c ∷ insert_at i b bits

module _ (q : Amplitudes) where
  open q use {F, add, mul, neg, inv_sqrt2, cos_half, sin_half}

  abbrev pub Tensor : Type 0
  Tensor = List Bool → F

  -- A 2x2 matrix by row and column, and a 4x4 one as `reshape(2, 2, 2, 2)` reads it.
  abbrev pub Gate : Type 0
  Gate = Bool → Bool → F

  abbrev pub Gate2 : Type 0
  Gate2 = Bool → Bool → Bool → Bool → F

  -- `_apply_1q`
  unfoldable pub apply_1q : Tensor → Gate → ℕ → Tensor
  apply_1q amp u idx bits =
      add (mul (u (bit idx bits) false) (amp (set bits idx false)))
        (mul (u (bit idx bits) true) (amp (set bits idx true)))

  -- `_apply_2q`
  unfoldable pub apply_2q : Tensor → Gate2 → ℕ → ℕ → Tensor
  apply_2q amp u i j bits =
      let term =
        λ (b c : Bool). mul (u (bit i bits) (bit j bits) b c) (amp (set (set bits i b) j c)) in
      add (add (term false false) (term false true)) (add (term true false) (term true true))

  -- `np.kron` of a state of n qubits with another
  unfoldable pub kron : ℕ → Tensor → Tensor → Tensor
  kron n left right bits = mul (left (take n bits)) (right (drop n bits))

  -- `np.sum` over all 2^n entries
  unfoldable pub sum_all : ℕ → Tensor → F
  sum_all zero amp = amp []
  sum_all (suc n) amp =
      add (sum_all n (λ bits. amp (false ∷ bits))) (sum_all n (λ bits. amp (true ∷ bits)))

  -- The entries under `_bit_mask`, and zero elsewhere.
  unfoldable pub masked : ℕ → Bool → Tensor → Tensor
  masked idx want amp bits = if xor (bit idx bits) want then q.zero else amp bits

  -- `_drop_qubit`
  unfoldable pub drop_qubit : Tensor → ℕ → Bool → Tensor
  drop_qubit amp idx outcome bits = amp (insert_at idx outcome bits)

  -- `_rot_meas_unitary`
  unfoldable pub rot_meas_unitary : q.Angle → Gate
  rot_meas_unitary theta false false = cos_half theta
  rot_meas_unitary theta false true = sin_half theta
  rot_meas_unitary theta true false = neg (sin_half theta)
  rot_meas_unitary theta true true = cos_half theta

  -- `_PAULI_X`, `_PAULI_Z`, their product, `_HADAMARD` and `_CNOT`
  unfoldable pub identity : Gate
  identity a b = if xor a b then q.zero else q.one

  unfoldable pub pauli_x : Gate
  pauli_x a b = if xor a b then q.one else q.zero

  unfoldable pub pauli_z : Gate
  pauli_z false false = q.one
  pauli_z true true = neg q.one
  pauli_z false true = q.zero
  pauli_z true false = q.zero

  unfoldable pub hadamard : Gate
  hadamard true true = mul (neg q.one) inv_sqrt2
  hadamard true false = mul q.one inv_sqrt2
  hadamard false b = mul q.one inv_sqrt2

  unfoldable pub cnot : Gate2
  cnot a b c d = if xor a c then q.zero else if xor (xor b d) a then q.zero else q.one

  -- `@` of two 2x2 matrices
  unfoldable pub matmul : Gate → Gate → Gate
  matmul u v a b = add (mul (u a false) (v false b)) (mul (u a true) (v true b))
