-- ===== src/Exchange/Shared.antt =====
-- The dicts of both sides: what their lookups say of the announced bases and of the sifted positions.
use qfabric.Prelude.{
  ℕ, suc, ◌≡◌, refl, sym, ◌∙◌, ap, subst, inl, inr, Bool, true, false, ◌||◌, Bool-cases, Option,
  none, some, List, [], ◌∷◌, length, ◌==◌, arith, if◌then◌else◌,
}
use qfabric.Prelude.Result.{ok}
use qfabric.Prelude.Maps.{lookup, has, insert, lookup-insert}
use qfabric.Prelude.Elem.{elem, Distinct, elem_if, elem_here, elem_there, elem_unless}
use qfabric.Sifting.{Record, by_seq}
use qfabric.Exchange.{bits_at}
use qfabric.Exchange.Alice.{basis_list, sent_by_seq}
use qfabric.Exchange.Matching.{
  index_detections, sequences, is_basis, matching_of, has_basis, with_basis, pick,
}

abbrev pub basis_of : Option Record → Option ℕ
basis_of none = none
basis_of (some r) = some r.basis

abbrev Announces : List (ℕ × ℕ) → List (ℕ × Record) → Type 0
Announces bases dict = (s : ℕ) → lookup s bases ≡ basis_of (lookup s dict)

if_basis_of :
    (b : Bool) (r : Record) (o : Option Record)
    → basis_of (if b then some r else o) ≡ (if b then some r.basis else basis_of o)
if_basis_of true r o = refl
if_basis_of false r o = refl

Announces-insert :
    (r : Record) (bases : List (ℕ × ℕ)) (dict : List (ℕ × Record))
    → Announces bases dict
    → Announces (insert r.sequence_num r.basis bases) (insert r.sequence_num r dict)
Announces-insert r bases dict h s =
    rw (lookup-insert r.sequence_num s r.basis bases, lookup-insert r.sequence_num s r dict, h s)
      (sym (if_basis_of (r.sequence_num == s) r (lookup s dict)))

Announces-log :
    (log : List Record) (bases : List (ℕ × ℕ)) (dict : List (ℕ × Record))
    → Announces bases dict
    → Announces (basis_list log bases) (by_seq log dict)
unfolding basis_list by_seq
Announces-log [] bases dict h = h
Announces-log (r ∷ log) bases dict h = Announces-log log _ _ (Announces-insert r bases dict h)

-- What Alice announces is the basis she has on record.
pub basis_list-Announces : (log : List Record) → Announces (basis_list log []) (sent_by_seq log)
basis_list-Announces log = Announces-log log [] [] (λ s. unfold lookup in refl)

elem-insert :
    (i : ℕ) (k : ℕ) (r : Record) (dict : List (ℕ × Record))
    → elem i (sequences (insert k r dict)) ≡ (i == k || elem i (sequences dict))
unfolding insert sequences
elem-insert i k r [] = refl
elem-insert i k r ((s, x) ∷ dict) = ground (arith, elem-insert i k r dict)

Distinct-insert :
    (k : ℕ) (r : Record) (dict : List (ℕ × Record))
    → Distinct (sequences dict)
    → Distinct (sequences (insert k r dict))
unfolding insert sequences
Distinct-insert k r [] d = (refl, tt)
Distinct-insert k r ((s, x) ∷ dict) d = elim (Bool-cases (s == k)) [
  | inl e ↦ rw e d
  | inr e ↦ rw e (ground (arith, e, d, elem-insert s k r dict), Distinct-insert k r dict d.1)
]

pub index_detections-Distinct :
    (log : List Record) (dict : List (ℕ × Record))
    → Distinct (sequences dict)
    → Distinct (sequences (index_detections log dict))
unfolding index_detections
index_detections-Distinct [] dict d = d
index_detections-Distinct (r ∷ log) dict d = elim (Bool-cases (has r.sequence_num dict)) [
  | inl e ↦ rw e (index_detections-Distinct log dict d)
  | inr e ↦ rw e (index_detections-Distinct log _ (Distinct-insert r.sequence_num r dict d))
]

elem-matching_of :
    (i : ℕ) (bases : List (ℕ × ℕ)) (dict : List (ℕ × Record))
    → elem i (matching_of bases dict) ≡ true
    → elem i (sequences dict) ≡ true
unfolding matching_of sequences
elem-matching_of i bases [] h = h
elem-matching_of i bases ((s, r) ∷ dict) h =
    elim (elem_if i s (is_basis r.basis (lookup s bases)) (matching_of bases dict) h) [
      | inl (e, b) ↦ ground (arith, e)
      | inr e ↦ ground (arith, elem-matching_of i bases dict e)
    ]

-- A matching position has been detected in the basis that was announced for it.
abbrev pub IsMatched : List (ℕ × ℕ) → List (ℕ × Record) → ℕ → Type 0
IsMatched bases dict i =
    (r : Record) × (lookup i dict ≡ some r) × (is_basis r.basis (lookup i bases) ≡ true)

lookup_first :
    (i s : ℕ) (r : Record) (dict : List (ℕ × Record)) → i ≡ s → lookup i ((s, r) ∷ dict) ≡ some r
unfolding lookup
lookup_first i s r dict e = ground (arith, e)

lookup_rest :
    (i s : ℕ) (r : Record) (dict : List (ℕ × Record))
    → elem i (sequences dict) ≡ true
    → elem s (sequences dict) ≡ false
    → lookup i ((s, r) ∷ dict) ≡ lookup i dict
unfolding lookup
lookup_rest i s r dict h no_s =
    ground (arith, h, no_s, ap (λ (k : ℕ). elem k (sequences dict)) {x = i} {y = s})

pub matching_of-IsMatched :
    (i : ℕ) (bases : List (ℕ × ℕ)) (dict : List (ℕ × Record))
    → Distinct (sequences dict)
    → elem i (matching_of bases dict) ≡ true
    → IsMatched bases dict i
unfolding matching_of sequences
matching_of-IsMatched i bases [] d h = absurd (cc)
matching_of-IsMatched i bases ((s, r) ∷ dict) d h =
    elim (elem_if i s (is_basis r.basis (lookup s bases)) (matching_of bases dict) h) [
      | inl (e, b) ↦ (
        r,
        lookup_first i s r dict e,
        subst (λ (k : ℕ). is_basis r.basis (lookup k bases) ≡ true) (sym e) b,
      )
      | inr e ↦
          let (q, at, same) = matching_of-IsMatched i bases dict d.1 e in
          (q, lookup_rest i s r dict (elem-matching_of i bases dict e) d.0 ∙ at, same)
    ]

-- What is read at positions that are there.
pub bits_at-ok :
    (dict : List (ℕ × Record)) (seqs : List ℕ)
    → ((i : ℕ) → elem i seqs ≡ true → (r : Record) × (lookup i dict ≡ some r))
    → (bits : List ℕ) × (bits_at dict seqs ≡ ok bits) × (length bits ≡ length seqs)
unfolding bits_at
bits_at-ok dict [] h = ([], refl, refl)
bits_at-ok dict (s ∷ seqs) h =
    let (r, at) = h s (elem_here s seqs) in
    let (bits, e, size) = bits_at-ok dict seqs (λ i m. h i (elem_there i s seqs m)) in
    (r.bit_value ∷ bits, rw (bits_at, at, e) refl, ap suc size)

pub pick-ok :
    (basis : ℕ) (bases : List (ℕ × ℕ)) (sample bits : List ℕ)
    → ((i : ℕ) → elem i sample ≡ true → (b : ℕ) × (lookup i bases ≡ some b))
    → length bits ≡ length sample
    → (picked : List ℕ) × (pick basis bases sample bits ≡ ok picked)
unfolding pick
pick-ok basis bases [] bits h size = ([], refl)
pick-ok basis bases (s ∷ sample) [] h size = absurd (omega arith)
pick-ok basis bases (s ∷ sample) (x ∷ bits) h size =
    let (b, at) = h s (elem_here s sample) in
    let (xs, e) =
      pick-ok basis bases sample bits (λ i m. h i (elem_there i s sample m)) (omega arith) in
    elim (Bool-cases (b == basis)) [
      | inl t ↦ (x ∷ xs, rw (pick, at, e, t) refl)
      | inr t ↦ (xs, rw (pick, at, e, t) refl)
    ]

pub elem-with_basis :
    (i basis : ℕ) (dict : List (ℕ × Record)) (seqs : List ℕ)
    → elem i (with_basis basis dict seqs) ≡ true
    → (elem i seqs ≡ true) × (has_basis basis (lookup i dict) ≡ true)
unfolding with_basis
elem-with_basis i basis dict [] h = absurd (cc)
elem-with_basis i basis dict (s ∷ seqs) h =
    elim (elem_if i s (has_basis basis (lookup s dict)) (with_basis basis dict seqs) h) [
      | inl (e, b) ↦
          (ground (arith, e), subst (λ (k : ℕ). has_basis basis (lookup k dict) ≡ true) (sym e) b)
      | inr e ↦ let (m, b) = elem-with_basis i basis dict seqs e in (elem_there i s seqs m, b)
    ]

pub with_basis-elem :
    (i basis : ℕ) (dict : List (ℕ × Record)) (seqs : List ℕ)
    → elem i seqs ≡ true
    → has_basis basis (lookup i dict) ≡ true
    → elem i (with_basis basis dict seqs) ≡ true
unfolding with_basis
with_basis-elem i basis dict [] h b = h
with_basis-elem i basis dict (s ∷ seqs) h b = elim (Bool-cases (i == s)) [
  | inl e ↦
      let same : i ≡ s = ground (arith, e) in
      let here : has_basis basis (lookup s dict) ≡ true =
        subst (λ (k : ℕ). has_basis basis (lookup k dict) ≡ true) same b in
      rw here (ground (arith, e))
  | inr e ↦
      elem_unless i s (has_basis basis (lookup s dict)) _
        (with_basis-elem i basis dict seqs (ground (arith, e, h)) b)
]
