-- ===== src/Exchange/Clean.antt =====
-- Records without noise: where both sides read the same bits.
use mathlib.Core.Option.{some-injective}
use qfabric.Prelude.{
  ℕ, ◌≡◌, refl, sym, ◌∙◌, subst, inl, inr, true, Bool-cases, some, List, [], ◌∷◌, ◌==◌, arith,
}
use qfabric.Prelude.Maps.{lookup, has, insert, lookup-insert}
use qfabric.Prelude.Elem.{elem, elem_here, elem_there}
use qfabric.Detector.{Photon}
use qfabric.Sifting.{Record}
use qfabric.Exchange.{bits_at}
use qfabric.Exchange.Matching.{index_detections}

-- The record is of a photon that was sent, and in the basis it was sent in it has the bit sent.
abbrev IsFaithful : List (ℕ × Record) → Record → Type 0
IsFaithful sent r =
    (a : Record) × (lookup r.sequence_num sent ≡ some a)
    × (a.basis ≡ r.basis → a.bit_value ≡ r.bit_value)

abbrev pub AllFaithful : List (ℕ × Record) → List Record → Type 0
AllFaithful sent [] = Unit
AllFaithful sent (r ∷ log) = IsFaithful sent r × AllFaithful sent log

-- Every photon that arrives is one that Alice sent, as she sent it.
unfoldable pub AllSent : List (ℕ × Record) → List Photon → Type 0
AllSent sent [] = Unit
AllSent sent (p ∷ photons) =
    ((a : Record) × (lookup p.sequence_num sent ≡ some a)
      × (a.basis ≡ p.basis)
      × (a.bit_value ≡ p.state))
    × AllSent sent photons

-- Every entry of the dict.
abbrev IsFaithfulDict : List (ℕ × Record) → List (ℕ × Record) → Type 0
IsFaithfulDict sent dict =
    (s : ℕ) (r : Record)
    → lookup s dict ≡ some r
    → (a : Record) × (lookup s sent ≡ some a) × (a.basis ≡ r.basis → a.bit_value ≡ r.bit_value)

IsFaithfulDict-insert :
    (sent dict : List (ℕ × Record)) (r : Record)
    → IsFaithful sent r
    → IsFaithfulDict sent dict
    → IsFaithfulDict sent (insert r.sequence_num r dict)
IsFaithfulDict-insert sent dict r (a, at, bit) h s q e = elim (Bool-cases (r.sequence_num == s)) [
  | inl t ↦
      let same : r ≡ q =
        some-injective r q (ground (arith, e, lookup-insert r.sequence_num s r dict, t)) in
      let number : r.sequence_num ≡ s = ground (arith, t) in
      (
        a,
        subst (λ (k : ℕ). lookup k sent ≡ some a) number at,
        subst (λ (x : Record). a.basis ≡ x.basis → a.bit_value ≡ x.bit_value) same bit,
      )
  | inr t ↦ h s q (ground (arith, e, t, lookup-insert r.sequence_num s r dict))
]

pub IsFaithfulDict-index :
    (sent : List (ℕ × Record)) (log : List Record) (dict : List (ℕ × Record))
    → AllFaithful sent log
    → IsFaithfulDict sent dict
    → IsFaithfulDict sent (index_detections log dict)
unfolding index_detections
IsFaithfulDict-index sent [] dict all h = h
IsFaithfulDict-index sent (r ∷ log) dict all h = elim (Bool-cases (has r.sequence_num dict)) [
  | inl e ↦ rw e (IsFaithfulDict-index sent log dict all.1 h)
  | inr e ↦ rw e (IsFaithfulDict-index sent log _ all.1 (IsFaithfulDict-insert sent dict r all.0 h))
]

-- Two dicts that agree on the bits at some positions give the same bits there.
pub bits_at_same :
    (sent dict : List (ℕ × Record)) (seqs : List ℕ)
    → ((i : ℕ)
        → elem i seqs ≡ true
        → (a b : Record) × (lookup i sent ≡ some a)
          × (lookup i dict ≡ some b)
          × (a.bit_value ≡ b.bit_value))
    → bits_at sent seqs ≡ bits_at dict seqs
unfolding bits_at
bits_at_same sent dict [] h = refl
bits_at_same sent dict (s ∷ seqs) h =
    let (a, b, x, y, same) = h s (elem_here s seqs) in
    let rest = bits_at_same sent dict seqs (λ i m. h i (elem_there i s seqs m)) in
    rw (bits_at, x, y, rest, same) refl

pub same_bits :
    (sent dict : List (ℕ × Record))
    → IsFaithfulDict sent dict
    → (i : ℕ)
    → ((a b : Record) × (lookup i sent ≡ some a) × (lookup i dict ≡ some b) × (a.basis ≡ b.basis))
    → (a b : Record) × (lookup i sent ≡ some a)
      × (lookup i dict ≡ some b)
      × (a.bit_value ≡ b.bit_value)
same_bits sent dict h i (a, b, x, y, basis) =
    let (q, at, bit) = h i b y in
    let same : q ≡ a = some-injective q a (sym at ∙ x) in
    (
      a,
      b,
      x,
      y,
      subst (λ (t : Record). t.basis ≡ b.basis → t.bit_value ≡ b.bit_value) same bit basis,
    )
