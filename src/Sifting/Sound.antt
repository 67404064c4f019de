-- ===== src/Sifting/Sound.antt =====
-- What sifting keeps: pairs of records of one photon with one basis, aligned on both sides.
use mathlib.Core.Option.{some-injective, none-ne-some}
use qfabric.Prelude.{
  ℕ, zero, suc, ◌≤◌, ◌<◌, ◌≡◌, refl, sym, ◌∙◌, ap, subst, true, false, inl, inr, Bool-cases,
  Option-cases, none, some, List, [], ◌∷◌, get_elem?, arith, ◌==◌,
}
use qfabric.Prelude.Maps.{lookup, insert, lookup-insert}
use qfabric.Floats.{Floats}
use qfabric.Sifting.{
  Record, SiftingResult, by_seq, add_match, sift_from, sift, num_errors, num_sampled, sample_size,
}

-- The record is in the log.
abbrev pub In : Record → List Record → Type 0
In r log = (i : ℕ) × (get_elem? log i ≡ some r)

-- A dict of records under their own numbers, all of them from the log.
abbrev IsIndex : List Record → List (ℕ × Record) → Type 0
IsIndex log dict = (s : ℕ) (r : Record) → lookup s dict ≡ some r → (r.sequence_num ≡ s) × In r log

by_seq-IsIndex :
    (whole log : List Record) (dict : List (ℕ × Record))
    → ((r : Record) → In r log → In r whole)
    → IsIndex whole dict
    → IsIndex whole (by_seq log dict)
unfolding by_seq
by_seq-IsIndex whole [] dict sub h = h
by_seq-IsIndex whole (x ∷ log) dict sub h =
    by_seq-IsIndex whole log (insert x.sequence_num x dict) (λ r (i, at). sub r (suc i, at)) added
  where
    added : IsIndex whole (insert x.sequence_num x dict)
    added s r e = elim (Bool-cases (x.sequence_num == s)) [
      | inl same ↦
          let seq : x.sequence_num ≡ s = ground arith in
          let eq : x ≡ r =
            some-injective x r (ground (arith, e, lookup-insert x.sequence_num s x dict, same)) in
          (ap (λ (t : Record). t.sequence_num) (sym eq) ∙ seq, sub r (0, ap some eq))
      | inr other ↦ h s r (ground (arith, e, other, lookup-insert x.sequence_num s x dict))
    ]

-- Entry j of the result: a photon that both have on record, in one basis, with both bits.
pub record IsMatch (alice_log bob_log : List Record) (res : SiftingResult) (j s : ℕ) : Type 0 where
  pub alice : Record
  pub bob : Record
  pub alice_in : In alice alice_log
  pub bob_in : In bob bob_log
  pub alice_seq : alice.sequence_num ≡ s
  pub bob_seq : bob.sequence_num ≡ s
  pub same_basis : alice.basis ≡ bob.basis
  pub alice_bit : get_elem? res.alice_bits j ≡ some alice.bit_value
  pub bob_bit : get_elem? res.bob_bits j ≡ some bob.bit_value

-- The two ways on at a record of Alice's.
sift_skip :
    (dict : List (ℕ × Record)) (a : Record) (log : List Record)
    → lookup a.sequence_num dict ≡ none
    → sift_from dict (a ∷ log) ≡ sift_from dict log
unfolding sift_from
sift_skip dict a log e = rw (e, sift_from) refl

sift_other :
    (dict : List (ℕ × Record)) (a b : Record) (log : List Record)
    → lookup a.sequence_num dict ≡ some b
    → (a.basis == b.basis) ≡ false
    → sift_from dict (a ∷ log) ≡ sift_from dict log
unfolding sift_from
sift_other dict a b log e f = rw (e, f, sift_from) refl

sift_keep :
    (dict : List (ℕ × Record)) (a b : Record) (log : List Record)
    → lookup a.sequence_num dict ≡ some b
    → (a.basis == b.basis) ≡ true
    → sift_from dict (a ∷ log) ≡ add_match a b (sift_from dict log)
unfolding sift_from
sift_keep dict a b log e f = rw (e, f, sift_from) refl

num_errors_self : (bits : List ℕ) → num_errors bits bits ≡ 0
unfolding num_errors
num_errors_self [] = refl
num_errors_self (b ∷ bits) = ground (arith, num_errors_self bits)

module _ (alice_log bob_log : List Record) where
  weaker :
      (a b : Record) (res : SiftingResult) (j s : ℕ)
      → IsMatch alice_log bob_log res j s
      → IsMatch alice_log bob_log (add_match a b res) (suc j) s
  weaker a b res j s m = record {
    alice = m.alice;
    bob = m.bob;
    alice_in = m.alice_in;
    bob_in = m.bob_in;
    alice_seq = m.alice_seq;
    bob_seq = m.bob_seq;
    same_basis = m.same_basis;
    alice_bit = m.alice_bit;
    bob_bit = m.bob_bit;
  }

  newest :
      (a b : Record) (res : SiftingResult) (j s : ℕ)
      → In a alice_log
      → In b bob_log
      → b.sequence_num ≡ a.sequence_num
      → a.basis ≡ b.basis
      → ((j s : ℕ) → get_elem? res.matching_indices j ≡ some s → IsMatch alice_log bob_log res j s)
      → get_elem? (add_match a b res).matching_indices j ≡ some s
      → IsMatch alice_log bob_log (add_match a b res) j s
  newest a b res (suc j) s ina inb seq basis rest at = weaker a b res j s (rest j s at)
  newest a b res zero s ina inb seq basis rest at =
      let number : a.sequence_num ≡ s = some-injective a.sequence_num s at in
      record {
        alice = a;
        bob = b;
        alice_in = ina;
        bob_in = inb;
        alice_seq = number;
        bob_seq = seq ∙ number;
        same_basis = basis;
        alice_bit = refl;
        bob_bit = refl;
      }

  sift_from-IsMatch :
      (dict : List (ℕ × Record)) (log : List Record)
      → IsIndex bob_log dict
      → ((r : Record) → In r log → In r alice_log)
      → (j s : ℕ) → get_elem? (sift_from dict log).matching_indices j ≡ some s
      → IsMatch alice_log bob_log (sift_from dict log) j s
  sift_from-IsMatch dict [] h sub j s at = absurd (unfold sift_from in none-ne-some s at)
  sift_from-IsMatch dict (a ∷ log) h sub j s at =
      let rest = sift_from-IsMatch dict log h (λ r (i, e). sub r (suc i, e)) in
      elim (Option-cases (lookup a.sequence_num dict)) [
        | inl e ↦
            subst (λ t. get_elem? t.matching_indices j ≡ some s → IsMatch alice_log bob_log t j s)
              (sym (sift_skip dict a log e)) (rest j s) at
        | inr (b, e) ↦ elim (Bool-cases (a.basis == b.basis)) [
          | inr f ↦
              subst (λ t. get_elem? t.matching_indices j ≡ some s → IsMatch alice_log bob_log t j s)
                (sym (sift_other dict a b log e f)) (rest j s) at
          | inl f ↦
              subst (λ t. get_elem? t.matching_indices j ≡ some s → IsMatch alice_log bob_log t j s)
                (sym (sift_keep dict a b log e f))
                (newest a b (sift_from dict log) j s (sub a (0, refl)) ((h a.sequence_num b e).1)
                  ((h a.sequence_num b e).0) (ground (arith, f)) rest)
                at
        ]
      ]

  -- Every entry of the sifted key is a photon that both sides have on record under its number, that
  -- they measured in one basis, and the two bits at its place are theirs.
  pub sift-IsMatch :
      (j s : ℕ)
      → get_elem? (sift alice_log bob_log).matching_indices j ≡ some s
      → IsMatch alice_log bob_log (sift alice_log bob_log) j s
  unfolding sift
  sift-IsMatch =
      sift_from-IsMatch (by_seq bob_log []) alice_log
        (by_seq-IsIndex bob_log bob_log [] (λ r i. i) (λ s r e. absurd (unfold lookup in cc)))
        (λ r i. i)

  sift_from-clean :
      (dict : List (ℕ × Record)) (log : List Record)
      → IsIndex bob_log dict
      → ((r : Record) → In r log → In r alice_log)
      → ((a b : Record)
          → In a alice_log
          → In b bob_log
          → a.sequence_num ≡ b.sequence_num
          → a.basis ≡ b.basis
          → a.bit_value ≡ b.bit_value)
      → (sift_from dict log).alice_bits ≡ (sift_from dict log).bob_bits
  sift_from-clean dict [] h sub clean = unfold sift_from in refl
  sift_from-clean dict (a ∷ log) h sub clean =
      let rest = sift_from-clean dict log h (λ r (i, e). sub r (suc i, e)) clean in
      elim (Option-cases (lookup a.sequence_num dict)) [
        | inl e ↦ rw (sift_skip dict a log e) rest
        | inr (b, e) ↦ elim (Bool-cases (a.basis == b.basis)) [
          | inr f ↦ rw (sift_other dict a b log e f) rest
          | inl f ↦
              let same =
                clean a b (sub a (0, refl)) ((h a.sequence_num b e).1)
                  (sym (h a.sequence_num b e).0) (ground (arith, f)) in
              rw (sift_keep dict a b log e f) (cc (same, rest))
        ]
      ]

  -- On a channel where photons measured in the basis they were sent in give the bit that was sent,
  -- both sides sift the same key, and comparing the two keys counts no error.
  sift_clean :
      ((a b : Record)
        → In a alice_log
        → In b bob_log
        → a.sequence_num ≡ b.sequence_num
        → a.basis ≡ b.basis
        → a.bit_value ≡ b.bit_value)
      → ((sift alice_log bob_log).alice_bits ≡ (sift alice_log bob_log).bob_bits)
        × (num_errors ((sift alice_log bob_log).alice_bits) ((sift alice_log bob_log).bob_bits) ≡ 0)
  unfolding sift
  sift_clean clean =
      let same =
        sift_from-clean (by_seq bob_log []) alice_log
          (by_seq-IsIndex bob_log bob_log [] (λ r i. i) (λ s r e. absurd (unfold lookup in cc)))
          (λ r i. i) clean in
      (same, ap (num_errors _) (sym same) ∙ num_errors_self _)

num_errors-le :
    (alice_bits bob_bits : List ℕ)
    → num_errors alice_bits bob_bits ≤ num_sampled alice_bits bob_bits
unfolding num_errors
num_errors-le [] bob_bits = omega arith
num_errors-le (a ∷ alice_bits) [] = omega arith
num_errors-le (a ∷ alice_bits) (b ∷ bob_bits) = ground (arith, num_errors-le alice_bits bob_bits)

-- Of a sifted key that is not empty at least one bit is disclosed and never more than there are,
-- whatever the fraction; and comparing two samples never counts more errors than were sampled.
sample_size-le :
    (f : Floats) (n : ℕ) (fraction : f.F) (alice_bits bob_bits : List ℕ)
    → 0 < n
    → (1 ≤ sample_size f n fraction)
      × (sample_size f n fraction ≤ n)
      × (num_errors alice_bits bob_bits ≤ num_sampled alice_bits bob_bits)
unfolding sample_size
sample_size-le f zero fraction alice_bits bob_bits pos = absurd (omega arith)
sample_size-le f (suc n) fraction alice_bits bob_bits pos =
    (omega arith, omega arith, num_errors-le alice_bits bob_bits)
