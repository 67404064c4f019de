-- ===== src/Dqc/Tests.antt =====
-- Teleportation of qubit 1, the partner of qubit 0, over the pair of the qubits 2 and 3 in the state Ψ+.
use qfabric.Prelude.{◌≡◌, refl, inl, Bool, true, false, xor, if◌then◌else◌, ◌==◌}
use qfabric.Prelude.Result.{ok, err, value_error}
use qfabric.Amplitudes.Seven.{n0, seven, seven-IsExact}
use qfabric.QState.{QStateRegister, measure}
use qfabric.QState.Swap.{IsPair}
use qfabric.QState.Tests.{two_pairs, first-IsPair, second-IsPair}
use qfabric.Dqc.{Withheld, teleport, teleport_shot, correct_outcome, read_out}
use qfabric.Dqc.Teleport.{teleport-IsPair, late_outcome}

teleport-IsPair_example :
    (r' : QStateRegister seven) × (m1 : Bool) × (m2 : Bool) × (teleport seven 1 2 3 n0 n0 two_pairs
      ≡ ok (r', m1, m2))
    × IsPair seven seven-IsExact r' 0 3 (xor false true) (xor false false)
teleport-IsPair_example =
    teleport-IsPair seven seven-IsExact two_pairs 0 1 2 3 n0 n0 false false true false
      (refl, (refl, (refl, (refl, tt)))) first-IsPair second-IsPair

-- The second bit is withheld.
abbrev late_m2 : Withheld
late_m2 = record { m1 = false; m2 = true }

late_outcome_example :
    (r1 : QStateRegister seven) × (r2 : QStateRegister seven) × (r3 : QStateRegister seven)
    × (m1 : Bool) × (m2 : Bool) × (o : Bool) × (out : Bool) × (teleport_shot seven late_m2 1 2 3 n0
          n0 two_pairs
        ≡ ok (r1, m1, m2))
    × (measure seven 0 0 n0 r1 ≡ ok (r2, o))
    × (read_out seven (λ t. t == 0) (λ t. t == 2) true late_m2 m1 m2 3 0 n0 r2 ≡ ok (r3, out))
    × (out ≡ xor o (if 0 == 0 then xor false true else xor false false))
late_outcome_example =
    late_outcome seven seven-IsExact (λ t. t == 0) (λ t. t == 2) refl refl refl late_m2 two_pairs 0
      1 2 3 n0 n0 n0 n0 false false true false 0 (inl refl) refl refl
      (refl, (refl, (refl, (refl, tt)))) first-IsPair second-IsPair

-- No Pauli relabels the outcomes of another basis.
other_basis : correct_outcome seven (λ t. t == 0) (λ t. t == 2) true 1 true false ≡ err value_error
unfolding correct_outcome
other_basis = refl
