-- ===== src/QState.antt =====
-- qne-sequence/qne_sequence/qstate_core.py: the register of all qubits. The dict from a qubit's id to its
-- group holds references, since the qubits of a group share one object that gates change in place.
-- A random draw is an argument. The amplitudes are a parameter.
pub mod Gates
pub mod Entries
pub mod Groups
pub mod Swap
pub mod Paulis
pub mod Readout
pub mod Indexed
pub mod Tests
use qfabric.Prelude.{
  ℕ, zero, suc, ◌+◌, Bool, true, false, not, ◌||◌, Option, none, some, List, [], ◌∷◌, ◌++◌, length,
  ◌==◌, if◌then◌else◌,
}
use qfabric.Prelude.Elem.{elem}
use qfabric.Prelude.Result.{Result, ok, err, key_error, value_error, require, ◌>>=◌, ◌>>◌}
use qfabric.Amplitudes.{Amplitudes}
use qfabric.Tensors.{
  Tensor, Gate, Gate2, apply_1q, apply_2q, kron, sum_all, masked, drop_qubit, rot_meas_unitary,
  identity, pauli_x, pauli_z, hadamard, cnot, matmul, bit,
}

-- The four Bell states, `_BELL`.
pub data BellState : Type 0 where
  phi_plus phi_minus psi_plus psi_minus : BellState

-- The position of an id in a list, `ids.index`.
abbrev pub index : ℕ → List ℕ → ℕ
index x [] = 0
index x (y ∷ ys) = if x == y then 0 else suc (index x ys)

abbrev pub without : ℕ → List ℕ → List ℕ
without x [] = []
without x (y ∷ ys) = if y == x then without x ys else y ∷ without x ys

-- The entry of a map from ids, and all of a list of ids set to one reference.
abbrev pub update {ℓ} : {Value : Type ℓ} → ℕ → Value → (ℕ → Value) → ℕ → Value
update k v map j = if j == k then v else map j

abbrev pub update_all : List ℕ → ℕ → (ℕ → Option ℕ) → ℕ → Option ℕ
update_all ids ref map j = if elem j ids then some ref else map j

module _ (q : Amplitudes) where
  open q use {F, mul, add, neg, div, abs2, sqrt, lt, inv_sqrt2}

  -- `_Group`
  pub record Group : Type 0 where
    pub ids : List ℕ
    pub amp : Tensor q

  -- `_groups` is `owner` and then `group`; `fresh` is the reference that the next object has.
  pub record QStateRegister : Type 0 where
    pub owner : ℕ → Option ℕ
    pub group : ℕ → Group
    pub fresh : ℕ
    pub next_id : ℕ

  -- `_BELL[state]`, over the bits of the two qubits
  pub bell : BellState → Bool → Bool → F
  bell phi_plus false false = mul q.one inv_sqrt2
  bell phi_plus true true = mul q.one inv_sqrt2
  bell phi_plus false true = mul q.zero inv_sqrt2
  bell phi_plus true false = mul q.zero inv_sqrt2
  bell phi_minus false false = mul q.one inv_sqrt2
  bell phi_minus true true = mul (neg q.one) inv_sqrt2
  bell phi_minus false true = mul q.zero inv_sqrt2
  bell phi_minus true false = mul q.zero inv_sqrt2
  bell psi_plus false false = mul q.zero inv_sqrt2
  bell psi_plus true true = mul q.zero inv_sqrt2
  bell psi_plus false true = mul q.one inv_sqrt2
  bell psi_plus true false = mul q.one inv_sqrt2
  bell psi_minus false false = mul q.zero inv_sqrt2
  bell psi_minus true true = mul q.zero inv_sqrt2
  bell psi_minus false true = mul q.one inv_sqrt2
  bell psi_minus true false = mul (neg q.one) inv_sqrt2

  unfoldable pub bell_tensor : BellState → Tensor q
  bell_tensor state bits = bell state (bit 0 bits) (bit 1 bits)

  -- `min(max(fidelity, 0.0), 1.0)`
  pub clamped : F → F
  clamped x = let low = if lt x q.zero then q.zero else x in if lt q.one low then q.one else low

  -- `_OTHER_BELL`
  pub other_bell : ℕ → BellState
  other_bell zero = phi_minus
  other_bell (suc zero) = psi_plus
  other_bell (suc (suc i)) = psi_minus

  -- Which state a pair gets: `draw` is `random()`, and `other` is `integers(3)`.
  pub drawn_state : F → F → ℕ → BellState
  drawn_state fidelity draw other =
      let f = clamped fidelity in
      if lt draw (add f (div (add q.one (neg f)) q.four)) then phi_plus else other_bell other

  -- A new object for some qubits.
  abbrev pub store : List ℕ → Tensor q → QStateRegister → QStateRegister
  store ids amp r = record r {
    owner = update_all ids r.fresh r.owner;
    group = update r.fresh (record { ids = ids; amp = amp }) r.group;
    fresh = suc r.fresh;
  }

  -- `g.amp = amp`
  abbrev pub set_amp : ℕ → Tensor q → QStateRegister → QStateRegister
  set_amp ref amp r = record r { group = update ref (record (r.group ref) { amp = amp }) r.group }

  unfoldable pub create_bell_pair : F → F → ℕ → QStateRegister → QStateRegister × ℕ × ℕ
  create_bell_pair fidelity draw other r =
      let a = r.next_id in
      let b = r.next_id + 1 in
      let amp = bell_tensor (drawn_state fidelity draw other) in
      (store (a ∷ b ∷ []) amp (record r { next_id = r.next_id + 2 }), a, b)

  -- `self._groups[qubit_id]`, or KeyError
  abbrev pub found : Option ℕ → Result ℕ
  found none = err key_error
  found (some ref) = ok ref

  abbrev pub ref_of : ℕ → QStateRegister → Result ℕ
  ref_of qubit r = found (r.owner qubit)

  -- `X^x @ Z^z`, as `apply_pauli` builds it
  pub correction : Bool → Bool → Gate q
  correction x z =
      let u = if z then matmul q (pauli_z q) (identity q) else identity q in
      if x then matmul q (pauli_x q) u else u

  -- `apply_pauli` at an object
  pub pauli_at : ℕ → Bool → Bool → QStateRegister → ℕ → QStateRegister
  pauli_at qubit x z r ref =
      let g = r.group ref in
      let changed = set_amp ref (apply_1q q g.amp (correction x z) (index qubit g.ids)) r in
      if x || z then changed else r

  unfoldable pub apply_pauli : ℕ → Bool → Bool → QStateRegister → Result QStateRegister
  unfolding pauli_at
  apply_pauli qubit x z r = do ref ← ref_of qubit r; ok (pauli_at qubit x z r ref)

  -- `_merge`
  unfoldable pub merge : ℕ → ℕ → QStateRegister → QStateRegister
  merge ref1 ref2 r =
      let g1 = r.group ref1 in
      let g2 = r.group ref2 in
      if ref1 == ref2 then r else store (g1.ids ++ g2.ids) (kron q (length g1.ids) g1.amp g2.amp) r

  -- The state after an outcome: collapsed, and divided by its norm unless that is 0.
  unfoldable pub collapse : ℕ → ℕ → Bool → Tensor q → Tensor q
  collapse idx n outcome amp =
      let collapsed = masked q idx outcome amp in
      let norm = sqrt (sum_all q n (λ bits. abs2 (collapsed bits))) in
      if lt q.zero norm then (λ bits. div (collapsed bits) norm) else collapsed

  -- `samp < p0` is outcome 0.
  unfoldable pub outcome_of : ℕ → ℕ → F → Tensor q → Bool
  outcome_of idx n samp amp =
      not (lt samp (sum_all q n (λ bits. abs2 (masked q idx false amp bits))))

  -- The remaining qubits of a measured group get a new object.
  unfoldable pub kept : List ℕ → Tensor q → QStateRegister → QStateRegister
  kept [] amp r = r
  kept (id ∷ ids) amp r = store (id ∷ ids) amp r

  -- The register without a measured qubit.
  unfoldable pub forget : ℕ → ℕ → Tensor q → QStateRegister → QStateRegister
  unfolding kept
  forget qubit ref amp r =
      let rest = kept (without qubit (r.group ref).ids) amp r in
      record rest { owner = update qubit none rest.owner }

  -- `measure` of a qubit of an object
  unfoldable pub measure_at : ℕ → q.Angle → F → QStateRegister → ℕ → QStateRegister × Bool
  measure_at qubit angle samp r ref =
      let g = r.group ref in
      let idx = index qubit g.ids in
      let n = length g.ids in
      let amp = apply_1q q g.amp (rot_meas_unitary q angle) idx in
      let outcome = outcome_of idx n samp amp in
      (forget qubit ref (drop_qubit q (collapse idx n outcome amp) idx outcome) r, outcome)

  unfoldable pub measure : ℕ → q.Angle → F → QStateRegister → Result (QStateRegister × Bool)
  unfolding measure_at
  measure qubit angle samp r = do ref ← ref_of qubit r; ok (measure_at qubit angle samp r ref)

  -- The circuit in front of the two measurements of `bell_measure`: CNOT and then H.
  unfoldable pub analyzed : Group → ℕ → ℕ → Tensor q
  analyzed g q1 q2 =
      let i = index q1 g.ids in
      apply_1q q (apply_2q q g.amp (cnot q) i (index q2 g.ids)) (hadamard q) i

  unfoldable pub bell_measure :
      ℕ → ℕ → F → F → QStateRegister → Result (QStateRegister × Bool × Bool)
  bell_measure q1 q2 samp1 samp2 r = do
    require (not (q1 == q2)) value_error
    ref1 ← ref_of q1 r
    ref2 ← ref_of q2 r
    let merged = merge ref1 ref2 r
    ref ← ref_of q1 merged
    (r1, m1) ← measure q1 q.z_basis samp1 (set_amp ref (analyzed (merged.group ref) q1 q2) merged)
    (r2, m2) ← measure q2 q.z_basis samp2 r1
    ok (r2, m1, m2)
