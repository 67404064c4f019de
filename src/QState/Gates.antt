-- ===== src/QState/Gates.antt =====
-- qne-sequence/qne_sequence/qstate_core.py: the data qubits and general gates of distributed computing.
use qfabric.Prelude.{ℕ, ◌+◌, Bool, not, Option, none, some, List, [], ◌∷◌, ◌==◌, if◌then◌else◌}
use qfabric.Prelude.Result.{Result, ok, err, value_error, require, ◌>>=◌, ◌>>◌}
use qfabric.Amplitudes.{Amplitudes}
use qfabric.Tensors.{Gate, Gate2, apply_1q, apply_2q, bit}
use qfabric.QState.{QStateRegister, store, set_amp, ref_of, merge, index}

module _ (q : Amplitudes) where
  open q use {F, add, div, abs2, sqrt, lt}

  -- `alloc`, of |0> or of two amplitudes; a norm that is not above 0 is 0.
  unfoldable pub alloc : Option (F × F) → QStateRegister q → Result (QStateRegister q × ℕ)
  alloc state r =
      let vec : F × F = elim state [ none ↦ (q.one, q.zero) | some v ↦ v ] in
      let norm = sqrt (add (abs2 vec.0) (abs2 vec.1)) in
      let amp = λ (bits : List Bool). div (if bit 0 bits then vec.1 else vec.0) norm in
      let id = r.next_id in
      if lt q.zero norm
      then ok (store q (id ∷ []) amp (record r { next_id = r.next_id + 1 }), id)
      else err value_error

  -- The matrix of a gate, by its shape.
  pub data Matrix : Type 0 where
    one_qubit : Gate q → Matrix
    two_qubits : Gate2 q → Matrix

  abbrev pub all_known : List ℕ → QStateRegister q → Result (Unit {0})
  all_known [] r = ok tt
  all_known (id ∷ ids) r = ref_of q id r >>= λ ref. all_known ids r

  unfoldable pub apply_two : ℕ → ℕ → Gate2 q → QStateRegister q → Result (QStateRegister q)
  apply_two q1 q2 u r = do
    require (not (q1 == q2)) value_error
    ref1 ← ref_of q q1 r
    ref2 ← ref_of q q2 r
    let merged = merge q ref1 ref2 r
    ref ← ref_of q q1 merged
    let g = merged.group ref
    ok (set_amp q ref (apply_2q q g.amp u (index q1 g.ids) (index q2 g.ids)) merged)

  -- `apply_gate` after the test of its ids
  unfoldable pub apply_known : List ℕ → Matrix → QStateRegister q → Result (QStateRegister q)
  apply_known (id ∷ []) (one_qubit u) r = do
    ref ← ref_of q id r
    let g = r.group ref
    ok (set_amp q ref (apply_1q q g.amp u (index id g.ids)) r)
  apply_known (q1 ∷ q2 ∷ []) (two_qubits u) r = apply_two q1 q2 u r
  apply_known ids matrix r = err value_error

  unfoldable pub apply_gate : List ℕ → Matrix → QStateRegister q → Result (QStateRegister q)
  apply_gate ids matrix r = all_known ids r >> apply_known ids matrix r
