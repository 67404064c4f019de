-- ===== src/Prelude/Sort.antt =====
-- Python's `sorted` on numbers, and a list without the members of another.
use Prim.Native.Nat.{ℕ}
use mathlib.Core.Path.{◌≡◌, refl, ap}
use mathlib.Core.Bool.{◌||◌, ◌&&◌, not}
use mathlib.Core.List.{List, [], ◌∷◌}
use native.Mathlib.Omega.{arith}
use qfabric.Prelude.Tests.{leb, ◌==◌, if◌then◌else◌}
use qfabric.Prelude.Elem.{elem}

unfoldable pub insert_sorted : ℕ → List ℕ → List ℕ
insert_sorted x [] = x ∷ []
insert_sorted x (y ∷ ys) = if leb x y then x ∷ y ∷ ys else y ∷ insert_sorted x ys

unfoldable pub sorted : List ℕ → List ℕ
sorted [] = []
sorted (x ∷ xs) = insert_sorted x (sorted xs)

-- `[s for s in xs if s not in set(ys)]`
unfoldable pub minus : List ℕ → List ℕ → List ℕ
minus [] ys = []
minus (x ∷ xs) ys = if elem x ys then minus xs ys else x ∷ minus xs ys

elem-insert_sorted : (i x : ℕ) (ys : List ℕ) → elem i (insert_sorted x ys) ≡ (i == x || elem i ys)
unfolding insert_sorted
elem-insert_sorted i x [] = refl
elem-insert_sorted i x (y ∷ ys) = ground (arith, elem-insert_sorted i x ys)

pub elem-sorted : (i : ℕ) (xs : List ℕ) → elem i (sorted xs) ≡ elem i xs
unfolding sorted
elem-sorted i [] = refl
elem-sorted i (x ∷ xs) = ground (arith, elem-insert_sorted i x (sorted xs), elem-sorted i xs)

pub elem-minus : (i : ℕ) (xs ys : List ℕ) → elem i (minus xs ys) ≡ (elem i xs && not (elem i ys))
unfolding minus
elem-minus i [] ys = refl
elem-minus i (x ∷ xs) ys = ground (arith, elem-minus i xs ys, ap (λ k. elem k ys) {x = i} {y = x})
