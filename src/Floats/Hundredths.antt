-- ===== src/Floats/Hundredths.antt =====
-- Whole hundredths in place of the floats, for concrete runs.
use qfabric.Prelude.{ℕ, ◌+◌, ◌*◌, ◌-◌, ◌/◌, max, min, leb, ltb}
use qfabric.Floats.{Floats}

abbrev pub floats : Floats
floats = record {
  F = ℕ;
  ratio = λ a b. a * 100 / b;
  le = leb;
  lt = ltb;
  add = λ a b. a + b;
  sub = λ a b. a - b;
  mul = λ a b. a * b / 100;
  div = λ a b. a * 100 / max 1 b;
  max_f = max;
  min_f = min;
  abs_f = λ a. a;
  sqrt = λ a. a;
  pow = λ a n. a;
  log2 = λ a. a;
  int_of = λ a. a / 100;
  round_of = λ a. a / 100;
  ceil_of = λ a. a / 100;
}
