-- ===== src/DistributedQkd/Keys.antt =====
-- A train ends without an exception, and both sides take their keys from the same positions of it.
use qfabric.Prelude.{ℕ, Bool, Option, List, length}
use qfabric.Prelude.Sort.{sorted, minus}
use qfabric.Floats.{Floats}
use qfabric.Random.{Generator}
use qfabric.Sifting.{Record}
use qfabric.Exchange.Bob.{disclosed}
use qfabric.Exchange.Matching.{matching_of}
use qfabric.DistributedQkd.{Bob}
use qfabric.DistributedQkd.Decoy.{DecoyExtra, DecoyStats}
use qfabric.DistributedQkd.Sift.{numbered, SiftedMessage, BobKey, QberMessage, AliceKey}

module _ (f : Floats) (g : Generator f) where
  module _ (biased : Bool) (fraction : f.F) (intensity : Option (List ℕ)) (bases bits : List ℕ)
      (dict : List (ℕ × Record)) (signal : List ℕ) (rng : g.Rng) where
    abbrev matching : List ℕ
    matching = sorted (matching_of (numbered 0 bases) dict)

    abbrev sample : List ℕ
    sample = (disclosed f g biased fraction dict signal rng).0

    abbrev order : List ℕ
    order = minus signal sample

    abbrev message_of : Option DecoyExtra → List ℕ → SiftedMessage
    message_of extra sample_bits = record {
      matching_indices = signal;
      sample_indices = sample;
      bob_sample_bits = sample_bits;
      decoy = extra;
    }

    abbrev kept : BobKey
    kept = record {
      key_order = order;
      sifted_count = length signal;
      num_sampled = length sample;
      bob_detected = length dict;
    }

    abbrev alice_of : QberMessage f g → List ℕ → Option (DecoyStats f g) → AliceKey f g
    alice_of told key_bits stats = record {
      told = told;
      key_order = order;
      key_bits = key_bits;
      final_key_bits = f.int_of (f.mul (f.ratio (length order) 1) told.secure_fraction);
      decoy = stats;
    }
