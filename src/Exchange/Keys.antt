-- ===== src/Exchange/Keys.antt =====
-- The sifting exchange returns, and both sides take their keys from the same undisclosed positions.
use mathlib.Core.Bool.{false≢true}
use qfabric.Prelude.{
  ℕ, ◌≡◌, refl, sym, ◌∙◌, ap, subst, inl, inr, Bool, true, false, ◌&&◌, not, Bool-cases, Option,
  none, some, List, [], ◌∷◌, length, arith,
}
use qfabric.Prelude.Result.{ok}
use qfabric.Prelude.Maps.{lookup}
use qfabric.Prelude.Elem.{elem}
use qfabric.Prelude.Sort.{sorted, minus, elem-sorted, elem-minus}
use qfabric.Floats.{Floats}
use qfabric.Random.{Generator, IsGenerator}
use qfabric.Privacy.{Numpy}
use qfabric.Sifting.{Record}
use qfabric.Sifting.Rates.{qber_from_disclosed}
use qfabric.Exchange.{bits_at}
use qfabric.Exchange.Alice.{basis_list, sent_by_seq}
use qfabric.Exchange.Bob.{by_basis, Estimate, is_biased, disclosed, verdict, estimate_from}
use qfabric.Exchange.Matching.{index_detections, is_basis, matching_of, has_basis, sequences}
use qfabric.Exchange.Run.{Options, Sifted, sift_exchange}
use qfabric.Exchange.Shared.{
  basis_of, basis_list-Announces, index_detections-Distinct, IsMatched, matching_of-IsMatched,
  bits_at-ok, pick-ok,
}
use qfabric.Exchange.Sample.{elem-disclosed, disclosed-x}

is_basis_known :
    (basis : ℕ) (o : Option Record)
    → is_basis basis (basis_of o) ≡ true
    → (a : Record) × (o ≡ some a) × (a.basis ≡ basis)
unfolding is_basis
is_basis_known basis none h = absurd (cc)
is_basis_known basis (some a) h = (a, refl, ground (arith, h))

-- A matching position is on record on both sides, with one basis.
abbrev Both : List Record → List (ℕ × Record) → ℕ → Type 0
Both sent_log dict i =
    (a b : Record) × (lookup i (sent_by_seq sent_log) ≡ some a)
    × (lookup i dict ≡ some b)
    × (a.basis ≡ b.basis)

IsMatched-Both :
    (sent_log : List Record) (dict : List (ℕ × Record)) (i : ℕ)
    → IsMatched (basis_list sent_log []) dict i
    → Both sent_log dict i
IsMatched-Both sent_log dict i (b, at, same) =
    let (a, on_record, equal) =
      is_basis_known b.basis (lookup i (sent_by_seq sent_log))
        (subst (λ t. is_basis b.basis t ≡ true) (basis_list-Announces sent_log i) same) in
    (a, b, on_record, at, equal)

module _ (f : Floats) (g : Generator f) (np : Numpy) where
  -- What holds of the two sides after sifting: one key order of matching, undisclosed positions, keys
  -- of one length read at them, and in the key of biased bases no X match.
  pub record IsShared (o : Options f g np) (sent_log detection_log : List Record)
      (s : Sifted f g np) : Type 0 where
    pub same_order : s.alice_order ≡ s.bob_order
    pub same_length : length s.alice_key ≡ length s.bob_key
    pub alice_bits : bits_at (sent_by_seq sent_log) s.bob_order ≡ ok s.alice_key
    pub bob_bits : bits_at (index_detections detection_log []) s.bob_order ≡ ok s.bob_key
    pub undisclosed : (i : ℕ) → elem i s.bob_order ≡ (elem i s.matching && not (elem i s.sample))
    pub sampled : (i : ℕ) → elem i s.sample ≡ true → elem i s.matching ≡ true
    pub matched :
        (i : ℕ) → elem i s.matching ≡ true → Both sent_log (index_detections detection_log []) i
    pub no_x :
        (i : ℕ)
        → is_biased f g o.basis_bias ≡ true
        → elem i s.bob_order ≡ true
        → has_basis 1 (lookup i (index_detections detection_log [])) ≡ false

  estimate_from-ok :
      (biased : Bool) (bases : List (ℕ × ℕ)) (sample alice_bits bob_bits : List ℕ)
      → ((i : ℕ) → elem i sample ≡ true → (b : ℕ) × (lookup i bases ≡ some b))
      → length alice_bits ≡ length sample
      → length bob_bits ≡ length sample
      → (e : Estimate f g) × (estimate_from f g biased bases sample alice_bits bob_bits ≡ ok e)
  unfolding estimate_from
  estimate_from-ok biased bases [] alice_bits bob_bits h a b = (_, refl)
  estimate_from-ok false bases (s ∷ sample) alice_bits bob_bits h a b = (_, refl)
  estimate_from-ok true bases (s ∷ sample) alice_bits bob_bits h a b =
      let (az, e1) = pick-ok 0 bases (s ∷ sample) alice_bits h a in
      let (bz, e2) = pick-ok 0 bases (s ∷ sample) bob_bits h b in
      let (ax, e3) = pick-ok 1 bases (s ∷ sample) alice_bits h a in
      let (bx, e4) = pick-ok 1 bases (s ∷ sample) bob_bits h b in
      (
        by_basis f g (qber_from_disclosed f alice_bits bob_bits) (qber_from_disclosed f az bz)
            (qber_from_disclosed f ax bx),
        rw (e1, e2, e3, e4) refl,
      )

  module _ (o : Options f g np) (sent_log detection_log : List Record) (rng : g.Rng) where
    abbrev sent : List (ℕ × Record)
    sent = sent_by_seq sent_log

    abbrev dict : List (ℕ × Record)
    dict = index_detections detection_log []

    abbrev bases : List (ℕ × ℕ)
    bases = basis_list sent_log []

    abbrev biased : Bool
    biased = is_biased f g o.basis_bias

    abbrev matching : List ℕ
    matching = sorted (matching_of bases dict)

    abbrev sample : List ℕ
    sample = (disclosed f g biased o.sample_fraction dict matching rng).0

    abbrev order : List ℕ
    order = minus matching sample

    abbrev sifted : List ℕ → List ℕ → Estimate f g → Sifted f g np
    sifted alice_key bob_key e = record {
      matching = matching;
      sample = sample;
      alice_order = order;
      bob_order = order;
      alice_key = alice_key;
      bob_key = bob_key;
      estimate = e;
      told = verdict f g o.reconcile o.num_photons (length matching) (length order) e;
    }

    sifts :
        (alice_bits bob_bits alice_key bob_key : List ℕ) (e : Estimate f g)
        → bits_at sent sample ≡ ok alice_bits
        → bits_at dict sample ≡ ok bob_bits
        → bits_at dict order ≡ ok bob_key
        → estimate_from f g biased bases sample alice_bits bob_bits ≡ ok e
        → bits_at sent order ≡ ok alice_key
        → sift_exchange f g np o sent_log detection_log rng ≡ ok (sifted alice_key bob_key e)
    unfolding sift_exchange
    sifts alice_bits bob_bits alice_key bob_key e h1 h2 h3 h4 h5 = rw (h1, h2, h3, h4, h5) refl

    both : (i : ℕ) → elem i matching ≡ true → Both sent_log dict i
    both i m = IsMatched-Both sent_log dict i (
        matching_of-IsMatched i bases dict
          (index_detections-Distinct detection_log [] (unfold sequences in tt))
          (sym (elem-sorted i _) ∙ m))

    announced : (i : ℕ) → elem i matching ≡ true → (b : ℕ) × (lookup i bases ≡ some b)
    announced i m =
        let (a, b, at, x, y) = both i m in
        (a.basis, basis_list-Announces sent_log i ∙ ap basis_of at)

    elem-order : (i : ℕ) → elem i order ≡ true → (elem i matching ≡ true) × (elem i sample ≡ false)
    elem-order i h = ground (arith, h, elem-minus i matching sample)

    no-x :
        IsGenerator f g
        → (i : ℕ) → biased ≡ true
        → elem i order ≡ true
        → has_basis 1 (lookup i dict) ≡ false
    no-x laws i b h = elim (Bool-cases (has_basis 1 (lookup i dict))) [
      | inr e ↦ e
      | inl e ↦
          let (m, out) = elem-order i h in
          let shown : elem i sample ≡ true =
            subst (λ t. elem i ((disclosed f g t o.sample_fraction dict matching rng).0) ≡ true)
              (sym b) (disclosed-x f g laws i o.sample_fraction dict matching rng m e) in
          absurd (false≢true (sym out ∙ shown))
    ]

    -- For any logs, bias and draws of a generator that keeps its documentation: the exchange raises
    -- nothing, and what holds then is `IsShared`.
    pub sift_exchange-IsShared :
        IsGenerator f g
        → (s : Sifted f g np) × (sift_exchange f g np o sent_log detection_log rng ≡ ok s)
          × IsShared o sent_log detection_log s
    sift_exchange-IsShared laws =
        let inside : (i : ℕ) → elem i sample ≡ true → elem i matching ≡ true =
          λ i. elem-disclosed f g laws i biased o.sample_fraction dict matching rng in
        let at_alice : (i : ℕ) → elem i matching ≡ true → (r : Record) × (lookup i sent ≡ some r) =
          λ i m. let (a, b, x, y, z) = both i m in (a, x) in
        let at_bob : (i : ℕ) → elem i matching ≡ true → (r : Record) × (lookup i dict ≡ some r) =
          λ i m. let (a, b, x, y, z) = both i m in (b, y) in
        let (alice_bits, h1, n1) = bits_at-ok sent sample (λ i m. at_alice i (inside i m)) in
        let (bob_bits, h2, n2) = bits_at-ok dict sample (λ i m. at_bob i (inside i m)) in
        let (bob_key, h3, n3) = bits_at-ok dict order (λ i m. at_bob i ((elem-order i m).0)) in
        let (e, h4) =
          estimate_from-ok biased bases sample alice_bits bob_bits (λ i m. announced i (inside i m))
            n1 n2 in
        let (alice_key, h5, n5) = bits_at-ok sent order (λ i m. at_alice i ((elem-order i m).0)) in
        (
          sifted alice_key bob_key e,
          sifts alice_bits bob_bits alice_key bob_key e h1 h2 h3 h4 h5,
          record {
            same_order = refl;
            same_length = n5 ∙ sym n3;
            alice_bits = h5;
            bob_bits = h3;
            undisclosed = λ i. elem-minus i matching sample;
            sampled = inside;
            matched = both;
            no_x = no-x laws;
          },
        )
