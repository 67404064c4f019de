-- ===== src/Cascade/Blocks.antt =====
-- The blocks of a pass: they cut the permutation into pieces, and the index built beside them names
-- the block of every position.
use mathlib.Core.List.{flatten}
use qfabric.Prelude.{
  ℕ, zero, suc, ◌+◌, ◌≤◌, ◌<◌, ◌≡◌, refl, ap, ◌∙◌, inl, inr, true, false, List, [], ◌∷◌, ◌++◌,
  arith, length, length-set, get_or, get_or-set, set, Bool-cases, if◌then◌else◌,
}
use qfabric.Prelude.Elem.{elem, Distinct, elem-append, Distinct-disjoint, Distinct-append_right}
use qfabric.Cascade.{mark, mark_all, range_from}

-- Every member of the list is below n.
abbrev pub Below : ℕ → List ℕ → Type 0
Below n xs = (i : ℕ) → elem i xs ≡ true → i < n

-- The positions of a key of length n, each once: what `rng.permutation(n)` returns.
pub record IsPermutation (n : ℕ) (perm : List ℕ) : Type 0 where
  pub size : length perm ≡ n
  pub distinct : Distinct perm
  pub below : Below n perm

length-mark : (bid : ℕ) (blk pb : List ℕ) → length (mark bid blk pb) ≡ length pb
unfolding mark
length-mark bid [] pb = refl
length-mark bid (i ∷ blk) pb = length-mark bid blk (set pb i bid) ∙ length-set pb i bid

get_or-mark :
    (bid j : ℕ) (blk pb : List ℕ)
    → Below (length pb) blk
    → get_or (mark bid blk pb) j 0 ≡ (if elem j blk then bid else get_or pb j 0)
unfolding mark
get_or-mark bid j [] pb h = refl
get_or-mark bid j (i ∷ blk) pb h = ground (
  arith,
  get_or-mark bid j blk (set pb i bid) (λ k e. rw (length-set pb i bid) (h k (ground arith))),
  get_or-set pb i j bid 0,
  h i (ground arith),
)

Below-head : (n : ℕ) (xs ys : List ℕ) → Below n (xs ++ ys) → Below n xs
Below-head n xs ys h i e = h i (ground (arith, elem-append i xs ys))

Below-tail : (n : ℕ) (xs ys : List ℕ) → Below n (xs ++ ys) → Below n ys
Below-tail n xs ys h i e = h i (ground (arith, elem-append i xs ys))

-- Positions outside the blocks are not written.
get_or-mark_all_out :
    (bid j : ℕ) (blocks : List (List ℕ)) (pb : List ℕ)
    → Below (length pb) (flatten blocks)
    → elem j (flatten blocks) ≡ false
    → get_or (mark_all bid blocks pb) j 0 ≡ get_or pb j 0
unfolding mark_all flatten
get_or-mark_all_out bid j [] pb h e = refl
get_or-mark_all_out bid j (blk ∷ blocks) pb h e = ground (
  arith,
  elem-append j blk (flatten blocks),
  get_or-mark bid j blk pb (Below-head _ blk (flatten blocks) h),
  get_or-mark_all_out (suc bid) j blocks (mark bid blk pb)
      (rw (length-mark bid blk pb) (Below-tail _ blk (flatten blocks) h)),
)

-- A position of block k is marked with k's number.
pub get_or-mark_all :
    (bid j k : ℕ) (blocks : List (List ℕ)) (pb : List ℕ)
    → Below (length pb) (flatten blocks)
    → Distinct (flatten blocks)
    → elem j (get_or blocks k []) ≡ true
    → get_or (mark_all bid blocks pb) j 0 ≡ bid + k
unfolding mark_all flatten
get_or-mark_all bid j k [] pb h d e = absurd (ground arith)
get_or-mark_all bid j zero (blk ∷ blocks) pb h d e = ground (
  arith,
  Distinct-disjoint j blk (flatten blocks) d e,
  get_or-mark bid j blk pb (Below-head _ blk (flatten blocks) h),
  get_or-mark_all_out (suc bid) j blocks (mark bid blk pb)
      (rw (length-mark bid blk pb) (Below-tail _ blk (flatten blocks) h)),
)
get_or-mark_all bid j (suc k) (blk ∷ blocks) pb h d e = omega (
  arith,
  get_or-mark_all (suc bid) j k blocks (mark bid blk pb)
      (rw (length-mark bid blk pb) (Below-tail _ blk (flatten blocks) h))
      (Distinct-append_right blk (flatten blocks) d) e,
)

-- `list(range(n))` is such a permutation.
length-range_from : (start count : ℕ) → length (range_from start count) ≡ count
unfolding range_from
length-range_from start zero = refl
length-range_from start (suc count) = ap suc (length-range_from (suc start) count)

elem-range_from :
    (i start count : ℕ) → elem i (range_from start count) ≡ true → (start ≤ i) × (i < start + count)
unfolding range_from
elem-range_from i start zero h = absurd (ground arith)
elem-range_from i start (suc count) h = ground (arith, elem-range_from i (suc start) count)

Distinct-range_from : (start count : ℕ) → Distinct (range_from start count)
unfolding range_from
Distinct-range_from start zero = tt
Distinct-range_from start (suc count) = (
  elim (Bool-cases (elem start (range_from (suc start) count))) [
    | inl e ↦ absurd (omega (arith, (elem-range_from start (suc start) count e).0))
    | inr e ↦ e
  ],
  Distinct-range_from (suc start) count,
)

pub range_from-IsPermutation : (n : ℕ) → IsPermutation n (range_from 0 n)
range_from-IsPermutation n = record {
  size = length-range_from 0 n;
  distinct = Distinct-range_from 0 n;
  below = λ i e. omega (arith, elem-range_from i 0 n e);
}
