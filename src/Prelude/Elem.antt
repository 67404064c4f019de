-- ===== src/Prelude/Elem.antt =====
-- Membership of a number in a list, as a test, and lists without repetition.
use Prim.Native.Nat.{ℕ}
use mathlib.Core.Path.{◌≡◌, refl}
use mathlib.Core.Logic.{◌⊎◌, inl, inr}
use mathlib.Core.Bool.{Bool, true, false, ◌||◌}
use mathlib.Core.List.{List, [], ◌∷◌, ◌++◌}
use native.Mathlib.Omega.{arith}
use qfabric.Prelude.Tests.{◌==◌, if◌then◌else◌, Bool-cases}

abbrev pub elem : ℕ → List ℕ → Bool
elem i [] = false
elem i (x ∷ xs) = i == x || elem i xs

abbrev pub Distinct : List ℕ → Type 0
Distinct [] = Unit
Distinct (x ∷ xs) = (elem x xs ≡ false) × Distinct xs

pub elem_here : (x : ℕ) (xs : List ℕ) → elem x (x ∷ xs) ≡ true
elem_here x xs = ground arith

pub elem_there : (i x : ℕ) (xs : List ℕ) → elem i xs ≡ true → elem i (x ∷ xs) ≡ true
elem_there i x xs h = ground (arith, h)

-- A member of a list that has an element more if a test holds.
pub elem_if :
    (i s : ℕ) (b : Bool) (xs : List ℕ)
    → elem i (if b then s ∷ xs else xs) ≡ true
    → ((i ≡ s) × (b ≡ true)) ⊎ (elem i xs ≡ true)
elem_if i s true xs h = elim (Bool-cases (i == s)) [
  | inl e ↦ inl (ground (arith, e), refl)
  | inr e ↦ inr (ground (arith, e, h))
]
elem_if i s false xs h = inr h

pub elem_unless :
    (i s : ℕ) (b : Bool) (xs : List ℕ) → elem i xs ≡ true → elem i (if b then s ∷ xs else xs) ≡ true
elem_unless i s true xs h = elem_there i s xs h
elem_unless i s false xs h = h

pub elem-append : (i : ℕ) (xs ys : List ℕ) → elem i (xs ++ ys) ≡ (elem i xs || elem i ys)
elem-append i [] ys = refl
elem-append i (x ∷ xs) ys = ground (arith, elem-append i xs ys)

-- No number stands in both of two lists whose concatenation repeats none.
pub Distinct-disjoint :
    (i : ℕ) (xs ys : List ℕ) → Distinct (xs ++ ys) → elem i xs ≡ true → elem i ys ≡ false
Distinct-disjoint i [] ys d h = absurd (ground arith)
Distinct-disjoint i (x ∷ xs) ys d h =
    ground (arith, elem-append x xs ys, Distinct-disjoint i xs ys d.1)

pub Distinct-append_right : (xs ys : List ℕ) → Distinct (xs ++ ys) → Distinct ys
Distinct-append_right [] ys d = d
Distinct-append_right (x ∷ xs) ys d = Distinct-append_right xs ys d.1
