-- ===== src/Prelude/Maps.antt =====
-- Python dictionaries with number keys, as association lists in insertion order.
use Prim.Native.Nat.{ℕ, ◌≤◌, ◌<◌}
use mathlib.Core.Path.{◌≡◌, refl}
use mathlib.Core.Bool.{Bool, true, false}
use mathlib.Core.Option.{Option, none, some}
use mathlib.Core.List.{List, [], ◌∷◌}
use native.Mathlib.Omega.{arith}
use qfabric.Prelude.Lists.{length}
use qfabric.Prelude.Tests.{◌==◌, if◌then◌else◌}

abbrev pub is_some {ℓ} : {A : Type ℓ} → Option A → Bool
is_some none = false
is_some (some a) = true

module _ {ℓ} {Value : Type ℓ} where
  -- d.get(key)
  unfoldable pub lookup : ℕ → List (ℕ × Value) → Option Value
  lookup key (entry ∷ dict) = if entry.0 == key then some (entry.1) else lookup key dict
  lookup key [] = none

  -- key in d
  abbrev pub has : ℕ → List (ℕ × Value) → Bool
  has key dict = is_some (lookup key dict)

  -- del d[key]
  unfoldable pub remove : ℕ → List (ℕ × Value) → List (ℕ × Value)
  remove key (entry ∷ dict) = if entry.0 == key then remove key dict else entry ∷ remove key dict
  remove key [] = []

  -- d[key] = value, at the place of an entry that has the key
  unfoldable pub insert : ℕ → Value → List (ℕ × Value) → List (ℕ × Value)
  insert key value (entry ∷ dict) =
      if entry.0 == key then (entry.0, value) ∷ dict else entry ∷ insert key value dict
  insert key value [] = (key, value) ∷ []

  pub lookup-remove :
      (key other : ℕ) (dict : List (ℕ × Value))
      → lookup other (remove key dict) ≡ (if key == other then none else lookup other dict)
  unfolding lookup remove
  lookup-remove key other (entry ∷ dict) = ground (arith, lookup-remove key other dict)
  lookup-remove key other [] = ground arith

  pub lookup-insert :
      (key other : ℕ) (value : Value) (dict : List (ℕ × Value))
      → lookup other (insert key value dict)
        ≡ (if key == other then some value else lookup other dict)
  unfolding lookup insert
  lookup-insert key other value (entry ∷ dict) = ground (arith, lookup-insert key other value dict)
  lookup-insert key other value [] = refl

  length-remove-le : (k : ℕ) (m : List (ℕ × Value)) → length (remove k m) ≤ length m
  unfolding remove
  length-remove-le k [] = omega arith
  length-remove-le k ((i, w) ∷ m) = ground (arith, length-remove-le k m)

  -- Deleting a key that is there makes the dict smaller.
  pub length-remove :
      (k : ℕ) (v : Value) (m : List (ℕ × Value))
      → lookup k m ≡ some v
      → length (remove k m) < length m
  unfolding lookup remove
  length-remove k v [] h = absurd (cc)
  length-remove k v ((i, w) ∷ m) h = ground (arith, length-remove-le k m, length-remove k v m)

  pub lookup_empty : (k : ℕ) (m : List (ℕ × Value)) → length m ≤ 0 → lookup k m ≡ none
  unfolding lookup
  lookup_empty k [] h = refl
  lookup_empty k (e ∷ m) h = absurd (omega arith)
