-- ===== src/QuantumService/Tests.antt =====
-- A pair of which one half is dropped and the other measured.
use qfabric.Prelude.{ℕ, ◌≡◌, ◌<◌, ◌≤◌, refl, Bool, Option, none, some, [], length}
use qfabric.Prelude.Result.{Result, ok, err}
use qfabric.Amplitudes.Seven.{Seven, n0, n1, seven}
use qfabric.QState.{QStateRegister, index, create_bell_pair, measure, forget}
use qfabric.QuantumService.{QuantumStateService, drop}
use qfabric.QuantumService.Indexed.{Reached, empty, created, dropped, Reached-index}

abbrev samples : ℕ → Seven
samples k = n0

abbrev nothing : QStateRegister seven
nothing = record {
  owner = λ j. none;
  group = λ k. record { ids = []; amp = λ bits. n0 };
  fresh = 0;
  next_id = 0;
}

abbrev pair : QuantumStateService seven samples
pair = record { register = (create_bell_pair seven n1 n0 0 nothing).0; drawn = 0 }

abbrev half : QStateRegister seven
half = (drop seven samples 1 pair).register

half-Reached : Reached seven half
half-Reached =
    dropped samples 1 pair (created n1 n0 0 nothing (empty nothing (λ j. refl) (λ k. refl)))

Reached-index_example :
    ((j ref : ℕ)
      → half.owner j ≡ some ref
      → index j (half.group ref).ids < length (half.group ref).ids)
    × ((j : ℕ) → half.next_id ≤ j → half.owner j ≡ none)
Reached-index_example = Reached-index seven half half-Reached

-- The dropped qubit is unknown at first; the measurement of its partner makes it known again.
abbrev owner_after : ℕ → Result (QStateRegister seven × Bool) → Option ℕ
owner_after j (err raised) = none
owner_after j (ok (r, m)) = r.owner j

dropped_back : (half.owner 1 ≡ none) × (owner_after 1 (measure seven 0 0 n0 half) ≡ some 1)
unfolding measure create_bell_pair drop forget
dropped_back = (refl, refl)
