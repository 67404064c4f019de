-- ===== src/DistributedQkd/Dicts.antt =====
-- A dict keeps one entry for each key, whatever is written or deleted.
use qfabric.Prelude.{
  ℕ, ◌≡◌, refl, inl, inr, false, not, ◌&&◌, ◌||◌, Bool-cases, List, [], ◌∷◌, arith, ◌==◌,
}
use qfabric.Prelude.Maps.{insert, remove}
use qfabric.Prelude.Elem.{elem, Distinct}
use qfabric.DistributedQkd.{remove_all}

abbrev pub keys {ℓ} : {Value : Type ℓ} → List (ℕ × Value) → List ℕ
keys [] = []
keys (entry ∷ dict) = entry.0 ∷ keys dict

module _ {ℓ} {Value : Type ℓ} where
  pub elem-insert :
      (i k : ℕ) (v : Value) (dict : List (ℕ × Value))
      → elem i (keys (insert k v dict)) ≡ (i == k || elem i (keys dict))
  unfolding insert
  elem-insert i k v [] = refl
  elem-insert i k v ((q, w) ∷ dict) = ground (arith, elem-insert i k v dict)

  pub Distinct-insert :
      (k : ℕ) (v : Value) (dict : List (ℕ × Value))
      → Distinct (keys dict)
      → Distinct (keys (insert k v dict))
  unfolding insert
  Distinct-insert k v [] d = (refl, tt)
  Distinct-insert k v ((q, w) ∷ dict) d = elim (Bool-cases (q == k)) [
    | inl e ↦ rw e d
    | inr e ↦ rw e (ground (arith, e, d, elem-insert q k v dict), Distinct-insert k v dict d.1)
  ]

  elem-remove :
      (i k : ℕ) (dict : List (ℕ × Value))
      → elem i (keys dict) ≡ false
      → elem i (keys (remove k dict)) ≡ false
  unfolding remove
  elem-remove i k [] h = refl
  elem-remove i k ((q, w) ∷ dict) h = ground (arith, h, elem-remove i k dict)

  Distinct-remove :
      (k : ℕ) (dict : List (ℕ × Value)) → Distinct (keys dict) → Distinct (keys (remove k dict))
  unfolding remove
  Distinct-remove k [] d = d
  Distinct-remove k ((q, w) ∷ dict) d = elim (Bool-cases (q == k)) [
    | inl e ↦ rw e (Distinct-remove k dict d.1)
    | inr e ↦ rw e (elem-remove q k dict d.0, Distinct-remove k dict d.1)
  ]

  pub Distinct-remove_all :
      (ks : List ℕ) (dict : List (ℕ × Value))
      → Distinct (keys dict)
      → Distinct (keys (remove_all ks dict))
  unfolding remove_all
  Distinct-remove_all [] dict d = d
  Distinct-remove_all (k ∷ ks) dict d =
      Distinct-remove_all ks (remove k dict) (Distinct-remove k dict d)

  elem-remove_key :
      (i k : ℕ) (dict : List (ℕ × Value))
      → elem i (keys (remove k dict)) ≡ (not (i == k) && elem i (keys dict))
  unfolding remove
  elem-remove_key i k [] = ground arith
  elem-remove_key i k ((q, w) ∷ dict) = ground (arith, elem-remove_key i k dict)

  pub elem-remove_all :
      (i : ℕ) (ks : List ℕ) (dict : List (ℕ × Value))
      → elem i (keys (remove_all ks dict)) ≡ (not (elem i ks) && elem i (keys dict))
  unfolding remove_all
  elem-remove_all i [] dict = refl
  elem-remove_all i (k ∷ ks) dict =
      ground (arith, elem-remove_all i ks (remove k dict), elem-remove_key i k dict)
