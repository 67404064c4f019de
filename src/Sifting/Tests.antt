-- ===== src/Sifting/Tests.antt =====
-- Three photons: one measured in the right basis, one in the wrong one, one lost.
use mathlib.Core.Option.{some-injective, none-ne-some}
use qfabric.Prelude.{ℕ, zero, suc, ◌≡◌, refl, ap, List, [], ◌∷◌, get_elem?}
use qfabric.Prelude.Maps.{lookup, insert}
use qfabric.Sifting.{Record, by_seq, sift_from, sift, num_errors, num_sampled, sample_size}
use qfabric.Sifting.Sound.{In, IsMatch, sift-IsMatch}

abbrev photon : ℕ → ℕ → ℕ → Record
photon n basis bit = record { sequence_num = n; basis = basis; bit_value = bit }

abbrev alice_log : List Record
alice_log = photon 0 0 1 ∷ photon 1 1 0 ∷ photon 2 0 1 ∷ []

abbrev bob_log : List Record
bob_log = photon 1 0 1 ∷ photon 0 0 1 ∷ []

sifts :
    sift alice_log bob_log
    ≡ record { alice_bits = 1 ∷ []; bob_bits = 1 ∷ []; matching_indices = 0 ∷ [] }
unfolding sift sift_from by_seq lookup insert
sifts = refl

sift-IsMatch_example : IsMatch alice_log bob_log (sift alice_log bob_log) 0 0
sift-IsMatch_example =
    sift-IsMatch alice_log bob_log 0 0
      (ap (λ (r : qfabric.Sifting.SiftingResult). get_elem? r.matching_indices 0) sifts)

abbrev one : List Record
one = photon 0 0 1 ∷ []

only : (r : Record) → In r one → photon 0 0 1 ≡ r
only r (zero, at) = some-injective (photon 0 0 1) r at
only r (suc i, at) = absurd (none-ne-some r at)
