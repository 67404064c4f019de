-- ===== src/Floats.antt =====
-- Python's floats, as a parameter: the type, its tests and its operations. No law is assumed here;
-- a theorem that needs one names it. `int(x)`, `int(round(x))` and `math.ceil(x)` are given as natural numbers, with
-- 0 for a negative x: the modelled code clamps each of them from below, by 0 or by 1.
pub mod Hundredths
use qfabric.Prelude.{ℕ, Bool}

pub record Floats : Type 1 where
  pub F : Type 0
  pub ratio : ℕ → ℕ → F
  pub le : F → F → Bool
  pub lt : F → F → Bool
  pub add : F → F → F
  pub sub : F → F → F
  pub mul : F → F → F
  pub div : F → F → F
  pub max_f : F → F → F
  pub min_f : F → F → F
  pub abs_f : F → F
  pub sqrt : F → F
  pub pow : F → ℕ → F
  pub log2 : F → F
  pub int_of : F → ℕ
  pub round_of : F → ℕ
  pub ceil_of : F → ℕ
