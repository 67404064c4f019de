-- ===== src/QState/Tests.antt =====
-- Two pairs in an empty register, the second with the state Ψ+, and the swap of both.
use qfabric.Prelude.{◌≡◌, refl, Bool, true, false, none, [], ◌∷◌, xor}
use qfabric.Prelude.Result.{ok, err, key_error, value_error}
use qfabric.Amplitudes.Seven.{n0, n1, n5, seven, seven-IsExact}
use qfabric.QState.{
  QStateRegister, phi_plus, psi_plus, drawn_state, clamped, other_bell, create_bell_pair,
  bell_measure, measure,
}
use qfabric.QState.Groups.{Leaves}
use qfabric.QState.Swap.{IsPair, Leaves-IsPair, bell_measure-IsPair}
use qfabric.QState.Paulis.{create_bell_pair-IsPair, create_bell_pair-Leaves}

abbrev empty : QStateRegister seven
empty = record {
  owner = λ j. none;
  group = λ k. record { ids = []; amp = λ bits. n0 };
  fresh = 0;
  next_id = 0;
}

abbrev one_pair : QStateRegister seven
one_pair = (create_bell_pair seven n1 n0 0 empty).0

abbrev pub two_pairs : QStateRegister seven
two_pairs = (create_bell_pair seven n1 n5 1 one_pair).0

first_state : drawn_state seven n1 n0 0 ≡ phi_plus
unfolding drawn_state clamped
first_state = refl

second_state : drawn_state seven n1 n5 1 ≡ psi_plus
unfolding drawn_state clamped other_bell
second_state = refl

pub first-IsPair : IsPair seven seven-IsExact two_pairs 0 1 false false
unfolding create_bell_pair drawn_state clamped
first-IsPair =
    Leaves-IsPair seven seven-IsExact (2 ∷ 3 ∷ []) one_pair two_pairs 0 1 false false
      (create_bell_pair-Leaves seven seven-IsExact n1 n5 1 one_pair) refl refl
      (create_bell_pair-IsPair seven seven-IsExact n1 n0 0 empty)

pub second-IsPair : IsPair seven seven-IsExact two_pairs 2 3 true false
unfolding create_bell_pair drawn_state clamped other_bell
second-IsPair = create_bell_pair-IsPair seven seven-IsExact n1 n5 1 one_pair

bell_measure-IsPair_example :
    (r' : QStateRegister seven) × (m1 : Bool) × (m2 : Bool) × (bell_measure seven 1 2 n0 n0
        two_pairs
      ≡ ok (r', m1, m2))
    × IsPair seven seven-IsExact r' 0 3 (xor (xor false true) m2) (xor (xor false false) m1)
    × Leaves seven (0 ∷ 1 ∷ 2 ∷ 3 ∷ []) two_pairs r'
bell_measure-IsPair_example =
    bell_measure-IsPair seven seven-IsExact two_pairs 0 1 2 3 n0 n0 false false true false
      (refl, (refl, (refl, (refl, tt)))) first-IsPair second-IsPair

-- A qubit that is not there, and one qubit twice.
unknown : measure seven 7 0 n0 two_pairs ≡ err key_error
unfolding measure create_bell_pair
unknown = refl

twice : bell_measure seven 1 1 n0 n0 two_pairs ≡ err value_error
unfolding bell_measure
twice = refl
