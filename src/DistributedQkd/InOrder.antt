-- ===== src/DistributedQkd/InOrder.antt =====
-- The slots of a train shown to the detector in their order.
use qfabric.Prelude.{
  ℕ, zero, suc, ◌+◌, ◌≤◌, ◌<◌, ◌≡◌, refl, ◌∙◌, ap, inl, inr, true, false, Bool-cases, Option, none,
  some, List, [], ◌∷◌, arith, leb, ◌==◌, if◌then◌else◌,
}
use qfabric.Prelude.Maps.{lookup, remove, is_some, lookup-remove}
use qfabric.Prelude.Elem.{elem}
use qfabric.Floats.{Floats}
use qfabric.Random.{Generator}
use qfabric.Detector.{Settings, Detector, zero_f}
use qfabric.Eve.{Pulse}
use qfabric.DistributedQkd.{
  Slot, empty_slot, Records, strays, remove_all, is_empty, detected, finalize_slot, finalize_slots,
}
use qfabric.DistributedQkd.Parked.{first}

pub remove_all-below :
    {Value : Type 0} (n i : ℕ) (seen : List ℕ) (dict : List (ℕ × Value))
    → i < n
    → lookup i (remove_all (strays n seen) dict) ≡ lookup i dict
unfolding strays remove_all
remove_all-below n i [] dict h = refl
remove_all-below n i (q ∷ seen) dict h = elim (Bool-cases (leb n q)) [
  | inl e ↦
      let other : (q == i) ≡ false = ground (arith, e, h) in
      rw e (remove_all-below n i seen (remove q dict) h ∙ lookup-remove q i dict ∙ rw other refl)
  | inr e ↦ rw e (remove_all-below n i seen dict h)
]

pub remove_all-nil : {Value : Type 0} (keys : List ℕ) → remove_all {Value = Value} keys [] ≡ []
unfolding remove_all remove
remove_all-nil [] = refl
remove_all-nil (q ∷ keys) = remove_all-nil keys

pub is_empty-lookup :
    {Value : Type 0} (i : ℕ) (dict : List (ℕ × Value)) → is_empty dict ≡ true → lookup i dict ≡ none
unfolding lookup
is_empty-lookup i [] h = refl
is_empty-lookup i (e ∷ dict) h = absurd (cc)

pub first_none : (i : ℕ) → false ≡ is_some (first i [])
unfolding first
first_none i = refl

pub lookup_none : (i : ℕ) → lookup {Value = Slot} i [] ≡ first i []
unfolding lookup first
lookup_none i = refl

module _ (f : Floats) (g : Generator f) (s : Settings f g) where
  -- The slot before the detector: with its pulse, or empty if dark counts are modelled.
  pub shown : ℕ → Option Slot → Records × Detector f g → Records × Detector f g
  shown seq (some slot) state = detected f g s seq slot state
  shown seq none state =
      if f.le s.dark_count_prob (zero_f f g) then state else detected f g s seq empty_slot state

  -- The slots from `seq` on, `left` of them, in their order.
  pub in_order : List Pulse → ℕ → ℕ → Records × Detector f g → Records × Detector f g
  in_order pulses seq zero state = state
  in_order pulses seq (suc left) state =
      in_order pulses (suc seq) left (shown seq (first seq pulses) state)

  finalize_slot-shown :
      (seen : List ℕ) (seq : ℕ) (slot : Option Slot) (state : Records × Detector f g)
      → elem seq seen ≡ is_some slot
      → finalize_slot f g s seen seq slot state ≡ shown seq slot state
  unfolding finalize_slot shown
  finalize_slot-shown seen seq (some slot) state e = refl
  finalize_slot-shown seen seq none state e = rw (finalize_slot, e) refl

  pub finalize_slots-in_order :
      (seen : List ℕ) (pending : List (ℕ × Slot)) (pulses : List Pulse) (n seq left : ℕ)
      (state : Records × Detector f g)
      → seq + left ≤ n
      → ((i : ℕ) → i < n → lookup i pending ≡ first i pulses)
      → ((i : ℕ) → elem i seen ≡ is_some (first i pulses))
      → finalize_slots f g s seen pending seq left state ≡ in_order pulses seq left state
  unfolding finalize_slots in_order
  finalize_slots-in_order seen pending pulses n seq zero state h parked known = refl
  finalize_slots-in_order seen pending pulses n seq (suc left) state h parked known =
      let now =
        ap (λ o. finalize_slot f g s seen seq o state) (parked seq (omega arith))
        ∙ finalize_slot-shown seen seq (first seq pulses) state (known seq) in
      ap (finalize_slots f g s seen pending (suc seq) left) now
      ∙ finalize_slots-in_order seen pending pulses n (suc seq) left _ (omega arith) parked known

  -- Without pulses and dark counts nothing happens.
  pub in_order-idle :
      (pulses : List Pulse) (n seq left : ℕ) (state : Records × Detector f g)
      → seq + left ≤ n
      → ((i : ℕ) → i < n → first i pulses ≡ none)
      → f.le s.dark_count_prob (zero_f f g) ≡ true
      → in_order pulses seq left state ≡ state
  unfolding in_order shown
  in_order-idle pulses n seq zero state h empty dark = refl
  in_order-idle pulses n seq (suc left) state h empty dark =
      ap (λ o. in_order pulses (suc seq) left (shown seq o state)) (empty seq (omega arith))
      ∙ ap
          (λ b.
            in_order pulses (suc seq) left
              (if b then state else detected f g s seq empty_slot state))
          dark
      ∙ in_order-idle pulses n (suc seq) left state (omega arith) empty dark
