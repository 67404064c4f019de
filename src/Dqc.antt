-- ===== src/Dqc.antt =====
-- qne-sequence/qne_sequence/dqc.py: teleportation and the non-local CNOT over a shared pair, each step
-- where its node runs it, and corrections that come after the measurement. The register's own samples
-- are arguments.
pub mod Teleport
mod Tests
use qfabric.Prelude.{ℕ, Bool, true, false, [], ◌∷◌, xor, if◌then◌else◌}
use qfabric.Prelude.Result.{Result, ok, err, value_error, ◌>>=◌}
use qfabric.Amplitudes.{Amplitudes}
use qfabric.Tensors.{cnot}
use qfabric.QState.Gates.{two_qubits, apply_gate}
use qfabric.QState.{QStateRegister, bell_measure, apply_pauli, measure}

-- `sent`: a withheld bit is 0 for the peer.
abbrev pub sent : Bool → Bool → Bool
sent withheld value = if withheld then false else value

-- The two bits that may be withheld, m1 and m2.
pub record Withheld : Type 0 where
  pub m1 : Bool
  pub m2 : Bool

module _ (q : Amplitudes) where
  open q use {F}

  unfoldable pub teleport_send :
      ℕ → ℕ → F → F → QStateRegister q → Result (QStateRegister q × Bool × Bool)
  teleport_send data_q epr_local samp1 samp2 r = bell_measure q data_q epr_local samp1 samp2 r

  unfoldable pub teleport_recv : ℕ → Bool → Bool → QStateRegister q → Result (QStateRegister q)
  teleport_recv epr_remote m1 m2 r = apply_pauli q epr_remote m2 m1 r

  unfoldable pub teleport :
      ℕ → ℕ → ℕ → F → F → QStateRegister q → Result (QStateRegister q × Bool × Bool)
  unfolding teleport_send teleport_recv
  teleport data_q epr_local epr_remote samp1 samp2 r = do
    (r1, m1, m2) ← teleport_send data_q epr_local samp1 samp2 r
    r2 ← teleport_recv epr_remote m1 m2 r1
    ok (r2, m1, m2)

  pub telegate_cnot_send : ℕ → ℕ → F → QStateRegister q → Result (QStateRegister q × Bool)
  telegate_cnot_send control epr_local samp r = do
    r1 ← apply_gate q (control ∷ epr_local ∷ []) (two_qubits (cnot q)) r
    measure q epr_local q.z_basis samp r1

  -- `if bit: reg.apply_pauli(qubit, x=1)`, and with `z`
  pub flip_if : Bool → Bool → Bool → ℕ → QStateRegister q → Result (QStateRegister q)
  flip_if bit x z qubit r = if bit then apply_pauli q qubit x z r else ok r

  pub telegate_cnot_apply : ℕ → ℕ → Bool → F → QStateRegister q → Result (QStateRegister q × Bool)
  telegate_cnot_apply epr_remote target m1 samp r = do
    r1 ← flip_if m1 true false epr_remote r
    r2 ← apply_gate q (epr_remote ∷ target ∷ []) (two_qubits (cnot q)) r1
    measure q epr_remote q.x_basis samp r2

  pub telegate_cnot_finish : ℕ → Bool → QStateRegister q → Result (QStateRegister q)
  telegate_cnot_finish control m2 r = flip_if m2 false true control r

  pub telegate_cnot :
      ℕ → ℕ → ℕ → ℕ → F → F → QStateRegister q → Result (QStateRegister q × Bool × Bool)
  telegate_cnot control target epr_local epr_remote samp1 samp2 r = do
    (r1, m1) ← telegate_cnot_send control epr_local samp1 r
    (r2, m2) ← telegate_cnot_apply epr_remote target m1 samp2 r1
    r3 ← telegate_cnot_finish control m2 r2
    ok (r3, m1, m2)

  -- A shot of `run_dqc_session` up to its read-out: the register and the bits of the sender.
  pub teleport_shot :
      Withheld → ℕ → ℕ → ℕ → F → F → QStateRegister q → Result (QStateRegister q × Bool × Bool)
  unfolding teleport_send teleport_recv
  teleport_shot w data_q epr_a epr_b samp1 samp2 r = do
    (r1, m1, m2) ← teleport_send data_q epr_a samp1 samp2 r
    r2 ← teleport_recv epr_b (sent w.m1 m1) (sent w.m2 m2) r1
    ok (r2, m1, m2)

  -- `is_z` is `abs(basis) < 1e-9`, and `is_x` is `abs(basis - math.pi / 2) < 1e-9`.
  module _ (is_z is_x : q.Angle → Bool) where
    unfoldable pub correct_outcome : Bool → q.Angle → Bool → Bool → Result Bool
    correct_outcome outcome basis x z =
        if is_z basis
        then ok (xor outcome x)
        else if is_x basis
        then ok (xor outcome z)
        else err value_error

    -- The read-out of the shot, with the missed correction if it is late.
    pub read_out :
        Bool
        → Withheld
        → Bool
        → Bool
        → ℕ
        → q.Angle
        → F
        → QStateRegister q
        → Result (QStateRegister q × Bool)
    unfolding correct_outcome
    read_out late w m1 m2 epr_b basis samp r = do
      (r1, out) ← measure q epr_b basis samp r
      fixed ←
          if late
          then correct_outcome out basis (xor (sent w.m2 m2) m2) (xor (sent w.m1 m1) m1)
          else ok out
      ok (r1, fixed)
