-- ===== src/Exchange/Sample.antt =====
-- The positions that Bob discloses are matching ones, and for biased bases all X matches are among them.
use qfabric.Prelude.{
  ℕ, zero, suc, ◌≡◌, sym, ◌∙◌, ap, inl, inr, Bool, true, false, ◌||◌, List, ◌++◌, length, or-cases,
}
use qfabric.Prelude.Maps.{lookup}
use qfabric.Prelude.Elem.{elem, elem-append}
use qfabric.Prelude.Sort.{elem-sorted}
use qfabric.Floats.{Floats}
use qfabric.Random.{Generator, IsGenerator}
use qfabric.Sifting.{Record, sample_size}
use qfabric.Exchange.Bob.{chosen, random_sample, disclosed}
use qfabric.Exchange.Matching.{has_basis, with_basis}
use qfabric.Exchange.Shared.{elem-with_basis, with_basis-elem}

module _ (f : Floats) (g : Generator f) (laws : IsGenerator f g) where
  elem-chosen :
      (i n : ℕ) (xs : List ℕ) (rng : g.Rng)
      → elem i ((chosen f g xs n rng).0) ≡ true
      → elem i xs ≡ true
  elem-chosen i zero xs rng h = absurd (cc)
  elem-chosen i (suc n) xs rng h = laws.choice_from xs (suc n) i rng (sym (elem-sorted i _) ∙ h)

  elem-random_sample :
      (i : ℕ) (fraction : f.F) (xs : List ℕ) (rng : g.Rng)
      → elem i ((random_sample f g fraction xs rng).0) ≡ true
      → elem i xs ≡ true
  unfolding random_sample
  elem-random_sample i fraction xs rng = elem-chosen i (sample_size f (length xs) fraction) xs rng

  pub elem-disclosed :
      (i : ℕ) (biased : Bool) (fraction : f.F) (dict : List (ℕ × Record)) (matching : List ℕ)
      (rng : g.Rng)
      → elem i ((disclosed f g biased fraction dict matching rng).0) ≡ true
      → elem i matching ≡ true
  unfolding disclosed
  elem-disclosed i false fraction dict matching rng h = elem-random_sample i fraction matching rng h
  elem-disclosed i true fraction dict matching rng h =
      let xs = with_basis 1 dict matching in
      let zs = (random_sample f g fraction (with_basis 0 dict matching) rng).0 in
      let member : (elem i xs || elem i zs) ≡ true =
        sym (elem-append i xs zs) ∙ sym (elem-sorted i (xs ++ zs)) ∙ h in
      elim (or-cases (elem i xs) (elem i zs) member) [
        | inl x ↦ (elem-with_basis i 1 dict matching x).0
        | inr z ↦
            (elem-with_basis i 0 dict matching
              (elem-random_sample i fraction (with_basis 0 dict matching) rng z)).0
      ]

  pub disclosed-x :
      (i : ℕ) (fraction : f.F) (dict : List (ℕ × Record)) (matching : List ℕ) (rng : g.Rng)
      → elem i matching ≡ true
      → has_basis 1 (lookup i dict) ≡ true
      → elem i ((disclosed f g true fraction dict matching rng).0) ≡ true
  unfolding disclosed
  disclosed-x i fraction dict matching rng m b =
      let xs = with_basis 1 dict matching in
      let zs = (random_sample f g fraction (with_basis 0 dict matching) rng).0 in
      elem-sorted i (xs ++ zs)
      ∙ elem-append i xs zs
      ∙ ap (λ t. t || elem i zs) (with_basis-elem i 1 dict matching m b)
