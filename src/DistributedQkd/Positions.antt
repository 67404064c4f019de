-- ===== src/DistributedQkd/Positions.antt =====
-- Positions of a train: what is announced for them, and what is read at them.
use qfabric.Prelude.{
  ℕ, suc, ◌+◌, ◌<◌, ◌≡◌, refl, ap, subst, inl, inr, true, Bool-cases, Option, none, some, List, [],
  ◌∷◌, length, get_elem?, get_elem?-some, arith, ◌==◌,
}
use qfabric.Prelude.Result.{ok}
use qfabric.Prelude.Maps.{lookup}
use qfabric.Prelude.Elem.{elem, elem_here, elem_there}
use qfabric.Exchange.Matching.{sequences, is_basis}
use qfabric.DistributedQkd.{Records}
use qfabric.DistributedQkd.Dicts.{keys}
use qfabric.DistributedQkd.Decoy.{bits_in}
use qfabric.DistributedQkd.Sift.{numbered, noted}

pub sequences-noted : (records : Records) → sequences (noted records) ≡ keys records
unfolding noted sequences
sequences-noted [] = refl
sequences-noted ((seq, (basis, bit)) ∷ records) = ap (◌∷◌ seq) (sequences-noted records)

lookup-numbered :
    (k i b : ℕ) (bases : List ℕ)
    → lookup i (numbered k bases) ≡ some b
    → (j : ℕ) × (i ≡ k + j) × (get_elem? bases j ≡ some b)
unfolding numbered lookup
lookup-numbered k i b [] h = absurd (cc)
lookup-numbered k i b (x ∷ bases) h = elim (Bool-cases (k == i)) [
  | inl e ↦ (0, ground (arith, e), ground (arith, e, h))
  | inr e ↦
      let (j, place, at) = lookup-numbered (suc k) i b bases (ground (arith, e, h)) in
      (suc j, omega (arith, place), at)
]

-- A position of the train, and the basis announced for it.
pub announced-at :
    (i b : ℕ) (bases : List ℕ) → lookup i (numbered 0 bases) ≡ some b → get_elem? bases i ≡ some b
announced-at i b bases h =
    let (j, place, at) = lookup-numbered 0 i b bases h in
    let same : j ≡ i = omega (arith, place) in subst (λ (n : ℕ). get_elem? bases n ≡ some b) same at

pub basis_announced : (basis : ℕ) (o : Option ℕ) → is_basis basis o ≡ true → o ≡ some basis
unfolding is_basis
basis_announced basis none h = absurd (cc)
basis_announced basis (some b) h = ap some (ground (arith, h))

-- What is read at positions that are there.
pub bits_in-ok :
    (bits seqs : List ℕ)
    → ((i : ℕ) → elem i seqs ≡ true → i < length bits)
    → (xs : List ℕ) × (bits_in bits seqs ≡ ok xs) × (length xs ≡ length seqs)
unfolding bits_in
bits_in-ok bits [] h = ([], refl, refl)
bits_in-ok bits (s ∷ seqs) h =
    let (x, at) = get_elem?-some bits s (h s (elem_here s seqs)) in
    let (xs, e, size) = bits_in-ok bits seqs (λ i m. h i (elem_there i s seqs m)) in
    (x ∷ xs, rw (bits_in, at, e) refl, ap suc size)
