-- ===== src/Bytes.antt =====
-- Python's `struct` for big-endian unsigned fields, over byte strings as lists of numbers below 256.
-- `uint w n` packs one field and raises where n does not fit; `read w` takes one field off the front.
pub mod Laws
use qfabric.Prelude.{
  ℕ, zero, suc, ◌*◌, ◌+◌, ◌/◌, ◌%◌, ◌^◌, List, [], ◌∷◌, ◌++◌, take, drop, length, ltb,
  if◌then◌else◌,
}
use qfabric.Prelude.Result.{Result, ok, err, struct_error}

abbrev pub Bytes : Type 0
Bytes = List ℕ

-- The w low bytes of n, the highest first.
unfoldable pub be : ℕ → ℕ → Bytes
be zero n = []
be (suc w) n = be w (n / 256) ++ n % 256 ∷ []

-- The number that bytes stand for, the highest first.
unfoldable pub unbe_from : ℕ → Bytes → ℕ
unbe_from acc [] = acc
unbe_from acc (b ∷ bs) = unbe_from (acc * 256 + b) bs

unfoldable pub uint : ℕ → ℕ → Result Bytes
unfolding be
uint w n = if ltb n (256 ^ w) then ok (be w n) else err struct_error

unfoldable pub read : ℕ → Bytes → Result (ℕ × Bytes)
unfolding unbe_from
read w bs = if ltb (length bs) w then err struct_error else ok (unbe_from 0 (take w bs), drop w bs)
