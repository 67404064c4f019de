-- ===== src/QuantumService.antt =====
-- qne-sequence/qne_sequence/quantum_state_service.py: the service that owns the register. The samples of
-- its own generator are a stream, of which it has drawn a number.
pub mod Indexed
mod Tests
use qfabric.Prelude.{ℕ, zero, suc, Bool, not, ◌&&◌, List, [], ◌∷◌, none, some, Option}
use qfabric.Prelude.Result.{Result, ok, err, value_error, ◌>>=◌}
use qfabric.Amplitudes.{Amplitudes}
use qfabric.Dqc.{telegate_cnot_apply, teleport_recv}
use qfabric.QState.Gates.{alloc}
use qfabric.QState
use qfabric.QState.{QStateRegister, update, create_bell_pair, apply_pauli}

module _ (q : Amplitudes) (samp : ℕ → q.F) where
  open q use {F}

  -- `samp` is the stream of `_samp_rng`, and `drawn` the number of its draws.
  pub record QuantumStateService : Type 0 where
    pub register : QStateRegister q
    pub drawn : ℕ

  unfoldable pub measure : ℕ → q.Angle → QuantumStateService → Result (QuantumStateService × Bool)
  measure qubit angle svc = do
    (register, outcome) ← QState.measure q qubit angle (samp svc.drawn) svc.register
    ok (record { register = register; drawn = suc svc.drawn }, outcome)

  pub measure_batch :
      List (ℕ × q.Angle) → QuantumStateService → Result (QuantumStateService × List Bool)
  unfolding measure
  measure_batch [] svc = ok (svc, [])
  measure_batch ((qubit, angle) ∷ requests) svc = measure qubit angle svc >>= λ first.
      measure_batch requests first.0 >>= λ rest. ok (rest.0, first.1 ∷ rest.1)

  unfoldable pub bell_measure :
      ℕ → ℕ → QuantumStateService → Result (QuantumStateService × Bool × Bool)
  bell_measure q1 q2 svc = do
    (register, m1, m2) ←
        QState.bell_measure q q1 q2 (samp svc.drawn) (samp (suc svc.drawn)) svc.register
    ok (record { register = register; drawn = suc (suc svc.drawn) }, m1, m2)

  unfoldable pub apply_correction :
      ℕ → Bool → Bool → QuantumStateService → Result QuantumStateService
  apply_correction qubit x z svc = do
    register ← apply_pauli q qubit x z svc.register
    ok (record svc { register = register })

  -- The pairs and whether each survives: for each pair the draws of its state and, if the loss is not 0,
  -- the draw of its loss.
  pub create_pairs :
      F → F → List (F × ℕ × F) → QStateRegister q → QStateRegister q × List ℕ × List ℕ × List Bool
  create_pairs fidelity loss [] r = (r, [], [], [])
  create_pairs fidelity loss ((draw, other, lost) ∷ draws) r =
      let (r', a, b) = create_bell_pair q fidelity draw other r in
      let (r'', a_ids, b_ids, surviving) = create_pairs fidelity loss draws r' in
      (r'', a ∷ a_ids, b ∷ b_ids, not (q.lt q.zero loss && q.lt lost loss) ∷ surviving)

  -- `discard_pair`
  pub discard_pair : ℕ → ℕ → QuantumStateService → Result QuantumStateService
  unfolding measure
  discard_pair a_id b_id svc = do
    (first, m1) ← measure a_id q.z_basis svc
    (second, m2) ← measure b_id q.z_basis first
    ok second

  -- `drop`
  unfoldable pub drop : ℕ → QuantumStateService → QuantumStateService
  drop qubit svc = record svc {
    register = record svc.register { owner = update qubit none svc.register.owner };
  }

  -- The state's name in `alloc_batch`: "zero", "plus" or another string.
  pub data DataState : Type 0 where
    zero_state plus_state other_state : DataState

  -- `_PLUS`
  abbrev plus_vector : F × F
  plus_vector = let half = q.div q.one (q.sqrt (q.add q.one q.one)) in (half, half)

  pub alloc_all : ℕ → Option (F × F) → QStateRegister q → Result (QStateRegister q × List ℕ)
  alloc_all zero state r = ok (r, [])
  alloc_all (suc count) state r = do
    (r1, id) ← alloc q state r
    (r2, ids) ← alloc_all count state r1
    ok (r2, id ∷ ids)

  pub alloc_batch : ℕ → DataState → QStateRegister q → Result (QStateRegister q × List ℕ)
  alloc_batch count zero_state r = alloc_all count none r
  alloc_batch count plus_state r = alloc_all count (some plus_vector) r
  alloc_batch count other_state r = err value_error

  -- Each request of the batch is with the sample that the register draws for it.
  pub telegate_apply_batch :
      List (ℕ × ℕ × Bool × F) → QStateRegister q → Result (QStateRegister q × List Bool)
  telegate_apply_batch [] r = ok (r, [])
  telegate_apply_batch ((epr, target, m1, own) ∷ requests) r = do
    (r1, m2) ← telegate_cnot_apply q epr target m1 own r
    (r2, rest) ← telegate_apply_batch requests r1
    ok (r2, m2 ∷ rest)

  pub teleport_recv_batch : List (ℕ × Bool × Bool) → QStateRegister q → Result (QStateRegister q)
  teleport_recv_batch [] r = ok r
  teleport_recv_batch ((epr, m1, m2) ∷ requests) r =
      teleport_recv q epr m1 m2 r >>= teleport_recv_batch requests
