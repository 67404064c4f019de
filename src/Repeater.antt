-- ===== src/Repeater.antt =====
-- qne-sequence/qne_sequence/repeater.py: the attempts of a repeater chain. The draws of an attempt are
-- arguments: those of its losses, of its links and of the two codes.
pub mod Links
pub mod Chain
pub mod Session
mod Tests
use qfabric.Prelude.{
  ℕ, zero, suc, ◌+◌, Bool, true, false, not, ◌&&◌, ◌||◌, Option, none, some, List, [], ◌∷◌, xor,
  if◌then◌else◌,
}
use qfabric.Prelude.Result.{Result, ok, err, ◌>>=◌}
use qfabric.Amplitudes.{Amplitudes}
use qfabric.QState.{QStateRegister, create_bell_pair}
use qfabric.QuantumService.{QuantumStateService, bell_measure, apply_correction, measure}

module _ (q : Amplitudes) (samp : ℕ → q.F) where
  open q use {F}

  -- `[svc.register.create_bell_pair(fidelity) for _ in range(num_links)]`
  pub create_links : F → List (F × ℕ) → QStateRegister q → QStateRegister q × List (ℕ × ℕ)
  create_links fidelity [] r = (r, [])
  create_links fidelity ((draw, other) ∷ draws) r =
      let first = create_bell_pair q fidelity draw other r in
      let rest = create_links fidelity draws first.0 in (rest.0, (first.1, first.2) ∷ rest.1)

  -- The state of the loop over the swaps: the service, the end of the last link so far, `x`, `z`
  -- and `swaps`.
  pub record Swapping : Type 0 where
    pub svc : QuantumStateService q samp
    pub end_b : ℕ
    pub x : Bool
    pub z : Bool
    pub swaps : ℕ

  -- `for i in range(num_links - 1)`, over the links after the first
  pub swap_all : List (ℕ × ℕ) → Swapping → Result Swapping
  swap_all [] s = ok s
  swap_all ((a, b) ∷ pairs) s = bell_measure q samp s.end_b a s.svc >>= λ (svc, m1, m2).
      swap_all pairs
        (record { svc = svc; end_b = b; x = xor s.x m2; z = xor s.z m1; swaps = suc s.swaps })

  -- `if apply_correction and (x or z)`
  pub corrected : Bool → Swapping → Result Swapping
  corrected apply s =
      if apply && (s.x || s.z)
      then (apply_correction q samp s.end_b s.x s.z s.svc >>= λ svc. ok (record s { svc = svc }))
      else ok s

  -- An attempt whose links have all survived: its two end qubits and the state of the loop.
  unfoldable pub attempt :
      Bool → F × ℕ → List (F × ℕ) → F → QuantumStateService q samp → Result (ℕ × Swapping)
  unfolding corrected
  attempt apply (draw, other) draws fidelity svc =
      let (r1, a, b) = create_bell_pair q fidelity draw other svc.register in
      let (r2, pairs) = create_links fidelity draws r1 in
      let start : Swapping = record {
        svc = record svc { register = r2 };
        end_b = b;
        x = false;
        z = false;
        swaps = 0;
      } in
      swap_all pairs start >>= λ swapped. corrected apply swapped >>= λ done. ok (a, done)

  -- `_ANGLE`, the angle of a code
  unfoldable pub angle_of : ℕ → q.Angle
  angle_of zero = q.z_basis
  angle_of (suc zero) = q.quarter
  angle_of (suc (suc zero)) = q.x_basis
  angle_of (suc (suc (suc n))) = q.three_quarters

  -- The draws of one pass through the loop of `run_chain_session`.
  pub record Round : Type 0 where
    pub losses : List F
    pub first : F × ℕ
    pub draws : List (F × ℕ)
    pub a_code : ℕ
    pub b_code : ℕ

  -- What a delivered pair adds to `a_codes`, `b_codes`, `a_bits` and `b_bits`.
  pub record Outcome : Type 0 where
    pub a_code : ℕ
    pub b_code : ℕ
    pub a_bit : Bool
    pub b_bit : Bool

  pub any_below : F → List F → Bool
  any_below loss [] = false
  any_below loss (l ∷ losses) = q.lt l loss || any_below loss losses

  -- A link has failed.
  unfoldable pub is_lost : F → Round → Bool
  unfolding any_below
  is_lost loss r = q.lt q.zero loss && any_below loss r.losses

  -- The attempt and the two measurements of a round.
  unfoldable pub deliver :
      Bool
      → F
      → Round
      → QuantumStateService q samp
      → Result (QuantumStateService q samp × ℕ × Outcome)
  deliver apply fidelity r svc = do
    (end_a, done) ← attempt apply r.first r.draws fidelity svc
    (svc1, a_bit) ← measure q samp end_a (angle_of r.a_code) done.svc
    (svc2, b_bit) ← measure q samp done.end_b (angle_of r.b_code) svc1
    ok (
      svc2,
      done.swaps,
      record { a_code = r.a_code; b_code = r.b_code; a_bit = a_bit; b_bit = b_bit },
    )

  -- The loop: the number of swaps and the outcomes, in order.
  pub run_rounds :
      F
      → Bool
      → F
      → List Round
      → QuantumStateService q samp
      → Result (QuantumStateService q samp × ℕ × List Outcome)
  run_rounds loss apply fidelity [] svc = ok (svc, 0, [])
  run_rounds loss apply fidelity (r ∷ rounds) svc = elim (is_lost loss r) [
    | true ↦ run_rounds loss apply fidelity rounds svc
    | false ↦ deliver apply fidelity r svc >>= λ (svc1, swaps, outcome).
        run_rounds loss apply fidelity rounds svc1 >>= λ (svc2, more, outcomes).
        ok (svc2, swaps + more, outcome ∷ outcomes)
  ]
