-- ===== src/Sifting.antt =====
-- qne/bb84.py: basis sifting, the size of the disclosed sample, and the count of its errors; Rates has the formulas of the key rate.
pub mod Sound
pub mod Rates
mod Tests
use qfabric.Prelude.{
  ℕ, zero, suc, ◌+◌, min, max, Option, none, some, List, [], ◌∷◌, length, ltb, ◌==◌, if◌then◌else◌,
}
use qfabric.Prelude.Maps.{lookup, insert}
use qfabric.Floats.{Floats}

-- `AliceRecord`, and `BobRecord`, which has the same fields.
pub record Record : Type 0 where
  pub sequence_num : ℕ
  pub basis : ℕ
  pub bit_value : ℕ

pub record SiftingResult : Type 0 where
  pub alice_bits : List ℕ
  pub bob_bits : List ℕ
  pub matching_indices : List ℕ

-- `{r.sequence_num: r for r in bob_log}`, added to a dict: a later record replaces an earlier one.
unfoldable pub by_seq : List Record → List (ℕ × Record) → List (ℕ × Record)
by_seq [] dict = dict
by_seq (r ∷ log) dict = by_seq log (insert r.sequence_num r dict)

abbrev pub nothing_sifted : SiftingResult
nothing_sifted = record { alice_bits = []; bob_bits = []; matching_indices = [] }

abbrev pub add_match : Record → Record → SiftingResult → SiftingResult
add_match a b rest = record {
  alice_bits = a.bit_value ∷ rest.alice_bits;
  bob_bits = b.bit_value ∷ rest.bob_bits;
  matching_indices = a.sequence_num ∷ rest.matching_indices;
}

-- The loop of `sift` over Alice's log.
pub sift_from : List (ℕ × Record) → List Record → SiftingResult
sift_from dict [] = nothing_sifted
sift_from dict (a ∷ log) =
    let rest = sift_from dict log in
    elim (lookup a.sequence_num dict) [
      | none ↦ rest
      | some b ↦ if a.basis == b.basis then add_match a b rest else rest
    ]

pub sift : List Record → List Record → SiftingResult
sift alice_log bob_log = sift_from (by_seq bob_log []) alice_log

-- `sum(1 for a, b in zip(alice_bits, bob_bits) if int(a) != int(b))`
unfoldable pub num_errors : List ℕ → List ℕ → ℕ
num_errors [] bob_bits = 0
num_errors (a ∷ alice_bits) [] = 0
num_errors (a ∷ alice_bits) (b ∷ bob_bits) =
    (if a == b then 0 else 1) + num_errors alice_bits bob_bits

abbrev pub num_sampled : List ℕ → List ℕ → ℕ
num_sampled alice_bits bob_bits = min (length alice_bits) (length bob_bits)

module _ (f : Floats) where
  open f use {F, ratio, mul, int_of}

  unfoldable pub sample_size : ℕ → F → ℕ
  sample_size zero sample_fraction = 0
  sample_size (suc n) sample_fraction =
      min (suc n) (max 1 (int_of (mul (ratio (suc n) 1) sample_fraction)))
