-- ===== src/Random/Counter.antt =====
-- A counter in place of a generator, for concrete runs.
use native.Mathlib.Nat.{mod-lt}
use qfabric.Prelude.Elem.{elem}
use qfabric.Prelude.{
  zero, List, [], ◌∷◌, true, arith, length-take, ℕ, suc, ◌+◌, ◌-◌, ◌<◌, ◌*◌, ◌%◌, ◌≡◌, take,
}
use qfabric.Floats.Hundredths.{floats}
use qfabric.Random.{Generator, IsGenerator}

abbrev pub counter : Generator floats
counter = record {
  Rng = ℕ;
  random = λ rng. (rng * 30 % 100, suc rng);
  integers = λ low high rng. (low + rng % (high - low), suc rng);
  normal = λ mean deviation rng. (rng % 2, suc rng);
  choice = λ xs n rng. (take n xs, suc rng);
}

elem-take : (n i : ℕ) (xs : List ℕ) → elem i (take n xs) ≡ true → elem i xs ≡ true
elem-take zero i xs h = absurd (cc)
elem-take (suc n) i [] h = h
elem-take (suc n) i (x ∷ xs) h = ground (arith, h, elem-take n i xs)

below :
    (low high rng : ℕ)
    → rng % (high - low) < high - low
    → low < high
    → low + rng % (high - low) < high
below low high rng less h = omega arith

pub counter-IsGenerator : IsGenerator floats counter
counter-IsGenerator = record {
  integers_range = λ low high rng h. omega arith;
  integers_below =
      λ low high rng h. below low high rng (mod-lt rng {m = high - low} (omega arith)) h;
  choice_from = λ xs n x rng h. elem-take n x xs h;
  choice_size = λ xs n rng h. omega (arith, length-take n xs);
}
