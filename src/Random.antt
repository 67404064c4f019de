-- ===== src/Random.antt =====
-- numpy's random generators, as a parameter: each draw returns its value and the generator after it.
pub mod Counter
use qfabric.Prelude.{ℕ, ◌+◌, ◌≤◌, ◌<◌, ◌≡◌, true, List, length}
use qfabric.Prelude.Elem.{elem}
use qfabric.Floats.{Floats}

-- `rng.random()`, `rng.integers(low, high)`, `rng.normal(mean, deviation)` and
-- `rng.choice(xs, size=n, replace=False).tolist()`.
pub record Generator (f : Floats) : Type 1 where
  pub Rng : Type 0
  pub random : Rng → f.F × Rng
  pub integers : ℕ → ℕ → Rng → ℕ × Rng
  pub normal : f.F → f.F → Rng → f.F × Rng
  pub choice : List ℕ → ℕ → Rng → List ℕ × Rng

-- What numpy documents: integers are below `high`, and a choice without replacement takes n of the list.
pub record IsGenerator (f : Floats) (g : Generator f) : Type 0 where
  pub integers_range : (low high : ℕ) (rng : g.Rng) → low < high → low ≤ (g.integers low high rng).0
  pub integers_below :
      (low high : ℕ) (rng : g.Rng) → low < high → (g.integers low high rng).0 < high
  pub choice_from :
      (xs : List ℕ) (n x : ℕ) (rng : g.Rng)
      → elem x ((g.choice xs n rng).0) ≡ true
      → elem x xs ≡ true
  pub choice_size :
      (xs : List ℕ) (n : ℕ) (rng : g.Rng) → n ≤ length xs → length ((g.choice xs n rng).0) ≡ n
