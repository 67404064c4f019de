-- ===== src/ReliableLink/Assembly.antt =====
-- A partly filled assembly: how many of its indices are filled, and what a new fragment changes.
use mathlib.Core.Bool.{false≢true}
use mathlib.Core.List.{flatten}
use qfabric.Prelude.{
  ℕ, zero, suc, ◌+◌, ◌≤◌, ◌<◌, ◌≡◌, refl, sym, ◌∙◌, ap, inl, inr, true, Option-cases, none, some,
  List, [], ◌∷◌, length, get_elem?, get_elem?-lt, arith, if◌then◌else◌, ◌==◌,
}
use qfabric.Prelude.Maps.{is_some, has, lookup, insert, lookup-insert}
use qfabric.Prelude.Result.{ok}
use qfabric.Bytes.{Bytes}
use qfabric.ReliableLink.{join, set_default}
use qfabric.ReliableLink.Fragments.{join-flatten}

-- The number of indices below n that the dict has.
pub filled : List (ℕ × Bytes) → ℕ → ℕ
filled dict zero = 0
filled dict (suc n) = (if has n dict then 1 else 0) + filled dict n

pub filled-le : (dict : List (ℕ × Bytes)) (n : ℕ) → filled dict n ≤ n
unfolding filled
filled-le dict zero = omega arith
filled-le dict (suc n) = ground (arith, filled-le dict n)

-- Full, exactly when every index below n is there.
pub filled_full :
    (dict : List (ℕ × Bytes)) (n i : ℕ) → filled dict n ≡ n → i < n → has i dict ≡ true
unfolding filled
filled_full dict zero i h lt = absurd (omega arith)
filled_full dict (suc n) i h lt = ground (arith, filled-le dict n, filled_full dict n i)

pub full_filled :
    (dict : List (ℕ × Bytes)) (n : ℕ) → ((i : ℕ) → i < n → has i dict ≡ true) → filled dict n ≡ n
unfolding filled
full_filled dict zero h = refl
full_filled dict (suc n) h =
    ground (arith, h n (omega arith), full_filled dict n (λ i lt. h i (omega arith)))

has-insert :
    (i k : ℕ) (p : Bytes) (dict : List (ℕ × Bytes))
    → has i (insert k p dict) ≡ (if k == i then true else has i dict)
has-insert i k p dict = rw (lookup-insert k i p dict) (ground arith)

-- A new index below n fills one more; one past n fills none.
filled-insert_past :
    (dict : List (ℕ × Bytes)) (n k : ℕ) (p : Bytes)
    → n ≤ k
    → filled (insert k p dict) n ≡ filled dict n
unfolding filled
filled-insert_past dict zero k p h = refl
filled-insert_past dict (suc n) k p h =
    ground (arith, has-insert n k p dict, filled-insert_past dict n k p (omega arith))

filled-insert :
    (dict : List (ℕ × Bytes)) (n k : ℕ) (p : Bytes)
    → lookup k dict ≡ none
    → k < n
    → filled (insert k p dict) n ≡ suc (filled dict n)
unfolding filled
filled-insert dict zero k p fresh h = absurd (omega arith)
filled-insert dict (suc n) k p fresh h =
    ground
      (arith, has-insert n k p dict, filled-insert dict n k p fresh, filled-insert_past dict n k p)

length-insert_new :
    (dict : List (ℕ × Bytes)) (k : ℕ) (p : Bytes)
    → lookup k dict ≡ none
    → length (insert k p dict) ≡ suc (length dict)
unfolding lookup insert
length-insert_new [] k p fresh = refl
length-insert_new ((j, q) ∷ dict) k p fresh = ground (arith, length-insert_new dict k p)

-- A dict of fragments of a message: every entry is the right fragment, and each counts once.
pub record IsPartial (frags : List Bytes) (dict : List (ℕ × Bytes)) : Type 0 where
  pub genuine : (i : ℕ) (p : Bytes) → lookup i dict ≡ some p → get_elem? frags i ≡ some p
  pub counted : length dict ≡ filled dict (length frags)

filled-nil : (n : ℕ) → filled [] n ≡ 0
unfolding filled lookup
filled-nil zero = refl
filled-nil (suc n) = omega (arith, filled-nil n)

pub empty-IsPartial : (frags : List Bytes) → IsPartial frags []
unfolding lookup
empty-IsPartial frags = record {
  genuine = λ i p e. absurd (cc);
  counted = sym (filled-nil (length frags));
}

pub set_default-IsPartial :
    (frags : List Bytes) (dict : List (ℕ × Bytes)) (i : ℕ) (p : Bytes)
    → get_elem? frags i ≡ some p
    → IsPartial frags dict
    → IsPartial frags (set_default i p dict)
unfolding set_default
set_default-IsPartial frags dict i p at d = elim (Option-cases (lookup i dict)) [
  | inr (q, e) ↦ rw (e, set_default) d
  | inl e ↦
      rw (e, set_default)
        (record {
          genuine = λ j q h. ground (
            arith,
            h,
            lookup-insert i j p dict,
            d.genuine j q,
            at,
            ap (get_elem? frags) {x = i} {y = j},
          );
          counted = omega (
            arith,
            length-insert_new dict i p e,
            filled-insert dict (length frags) i p e (get_elem?-lt frags i p at),
            d.counted,
          );
        })
]

-- After `setdefault` the index is there, and whatever was there still is.
pub has-set_default :
    (i j : ℕ) (p : Bytes) (dict : List (ℕ × Bytes))
    → has j (set_default i p dict) ≡ (if i == j then true else has j dict)
unfolding set_default
has-set_default i j p dict = elim (Option-cases (lookup i dict)) [
  | inr (q, e) ↦
      rw (e, set_default) (ground (arith, e, ap (λ (k : ℕ). lookup k dict) {x = i} {y = j}))
  | inl e ↦ rw (e, set_default) (has-insert j i p dict)
]

-- A dict with as many entries as there are fragments joins to the message.
pub full-join :
    (frags : List Bytes) (dict : List (ℕ × Bytes))
    → IsPartial frags dict
    → length dict ≡ length frags
    → join dict 0 (length frags) ≡ ok (flatten frags)
full-join frags dict d full = join-flatten frags dict 0 (length frags) (omega arith) right
  where
    right : (i : ℕ) → i < length frags → lookup i dict ≡ get_elem? frags i
    right i lt = elim (Option-cases (lookup i dict)) [
      | inl e ↦ absurd (
          false≢true
            (ap is_some (sym e) ∙ filled_full dict (length frags) i (sym d.counted ∙ full) lt))
      | inr (p, e) ↦ e ∙ sym (d.genuine i p e)
    ]
