-- ===== src/Prelude/Slices.antt =====
-- Python's `[xs[i:i + size] for i in range(start, n, size)]`.
use mathlib.Core.List.{List, [], ◌∷◌, flatten}
use mathlib.Core.Path.{◌≡◌, sym}
use mathlib.Core.Logic.{inl, inr}
use Prim.Native.Nat.{ℕ, zero, suc, ◌+◌, ◌≤◌}
use native.Mathlib.Omega.{arith}
use qfabric.Prelude.Tests.{ltb, if◌then◌else◌, Bool-cases}
use qfabric.Prelude.Lists.{
  length, take, drop, get_or, drop_all, drop-drop, take-append-drop, length-take,
}

-- The slices from position i on, with fuel for the steps of the range.
unfoldable pub slices {ℓ} : {A : Type ℓ} → ℕ → List A → ℕ → ℕ → ℕ → List (List A)
slices zero xs size i n = []
slices (suc fuel) xs size i n =
    let rest = slices fuel xs size (i + size) n in
    if ltb i n then take size (drop i xs) ∷ rest else []

pub flatten-slices {ℓ} :
    {A : Type ℓ} (fuel : ℕ) (xs : List A) (size i n : ℕ)
    → length xs ≡ n
    → 1 ≤ size
    → n ≤ i + fuel
    → flatten (slices fuel xs size i n) ≡ drop i xs
unfolding slices flatten
flatten-slices zero xs size i n e b h = sym (drop_all i xs (omega arith))
flatten-slices (suc fuel) xs size i n e b h = elim (Bool-cases (ltb i n)) [
  | inl t ↦
      rw (t, flatten-slices fuel xs size (i + size) n e b (omega arith), ← drop-drop size i xs)
        (take-append-drop size (drop i xs))
  | inr t ↦ rw t (sym (drop_all i xs (ground arith)))
]

pub length-slice {ℓ} :
    {A : Type ℓ} (fuel : ℕ) (xs : List A) (size i n k : ℕ)
    → length (get_or (slices fuel xs size i n) k []) ≤ size
unfolding slices
length-slice zero xs size i n k = omega arith
length-slice (suc fuel) xs size i n zero = elim (Bool-cases (ltb i n)) [
  | inl t ↦ rw t (omega (arith, length-take size (drop i xs)))
  | inr t ↦ rw t (omega arith)
]
length-slice (suc fuel) xs size i n (suc k) = elim (Bool-cases (ltb i n)) [
  | inl t ↦ rw t (length-slice fuel xs size (i + size) n k)
  | inr t ↦ rw t (omega arith)
]

pub length-slices {ℓ} :
    {A : Type ℓ} (fuel : ℕ) (xs : List A) (size i n : ℕ) → length (slices fuel xs size i n) ≤ fuel
unfolding slices
length-slices zero xs size i n = omega arith
length-slices (suc fuel) xs size i n = ground (arith, length-slices fuel xs size (i + size) n)
