-- ===== src/DistributedQkd/Trained.antt =====
-- What a train leaves: the rates that Alice computes and what holds of both sides.
use qfabric.Prelude.{
  ℕ, ◌≡◌, refl, sym, ◌∙◌, ap, Bool, true, false, ◌&&◌, not, none, some, List, length, get_elem?,
  leb, if◌then◌else◌,
}
use qfabric.Prelude.Result.{ok}
use qfabric.Prelude.Maps.{lookup, is_some}
use qfabric.Prelude.Elem.{elem}
use qfabric.Floats.{Floats}
use qfabric.Random.{Generator}
use qfabric.Sifting.{Record}
use qfabric.Sifting.Rates.{qber_from_disclosed}
use qfabric.Exchange.Matching.{has_basis}
use qfabric.Exchange.Shared.{pick-ok}
use qfabric.DistributedQkd.Sift.{QberMessage, biased_rates, rates, key_of, Train}

module _ (f : Floats) (g : Generator f) where
  pub rates-ok :
      (biased : Bool) (bases : List (ℕ × ℕ)) (sample a_sample b_sample : List ℕ)
      → ((i : ℕ) → elem i sample ≡ true → (b : ℕ) × (lookup i bases ≡ some b))
      → length a_sample ≡ length sample
      → length b_sample ≡ length sample
      → (told : QberMessage f g) × (rates f g biased bases sample a_sample b_sample ≡ ok told)
  unfolding rates
  rates-ok false bases sample a_sample b_sample h a b = (_, refl)
  rates-ok true bases sample a_sample b_sample h a b =
      let (az, e1) = pick-ok 0 bases sample a_sample h a in
      let (bz, e2) = pick-ok 0 bases sample b_sample h b in
      let (ax, e3) = pick-ok 1 bases sample a_sample h a in
      let (bx, e4) = pick-ok 1 bases sample b_sample h b in
      (
        biased_rates f g (qber_from_disclosed f az bz) (qber_from_disclosed f ax bx),
        rw (e1, e2, e3, e4) refl,
      )

  is_some_if : (c : Bool) (k : ℕ) → is_some (if c then some k else none) ≡ c
  is_some_if true k = refl
  is_some_if false k = refl

  pub some_key :
      (n : ℕ) (set_key : ℕ → List ℕ → ℕ) (xs ys : List ℕ)
      → length xs ≡ length ys
      → is_some (key_of f g set_key n xs) ≡ is_some (key_of f g set_key n ys)
  some_key n set_key xs ys e =
      is_some_if (leb n (length xs)) (set_key n xs)
      ∙ ap (leb n) e
      ∙ sym (is_some_if (leb n (length ys)) (set_key n ys))

  -- What holds of both sides at the end of a train: one key order of signal positions that were not
  -- disclosed, keys of one length, both long enough or neither, and in the key of biased bases no X match.
  pub record IsTrained (biased : Bool) (bases : List ℕ) (dict : List (ℕ × Record)) (t : Train f g)
      : Type 0 where
    pub same_order : t.alice.key_order ≡ t.bob.key_order
    pub same_length : length t.alice.key_bits ≡ length t.bob_key_bits
    pub same_outcome :
        (set_key : ℕ → List ℕ → ℕ) (key_length : ℕ)
        → is_some (key_of f g set_key key_length t.alice.key_bits)
          ≡ is_some (key_of f g set_key key_length t.bob_key_bits)
    pub undisclosed :
        (i : ℕ)
        → elem i t.bob.key_order
          ≡ (elem i t.message.matching_indices && not (elem i t.message.sample_indices))
    pub matched :
        (i : ℕ)
        → elem i t.message.matching_indices ≡ true
        → (r : Record) × (lookup i dict ≡ some r) × (get_elem? bases i ≡ some r.basis)
    pub no_x :
        (i : ℕ)
        → biased ≡ true
        → elem i t.bob.key_order ≡ true
        → has_basis 1 (lookup i dict) ≡ false
