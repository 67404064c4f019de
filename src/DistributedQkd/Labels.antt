-- ===== src/DistributedQkd/Labels.antt =====
-- The labels of a decoy source: where each position of a train has one, no lookup of a label raises.
use qfabric.Prelude.{
  ℕ, zero, suc, ◌<◌, ◌≡◌, refl, subst, inl, inr, true, Option, none, some, List, [], ◌∷◌, length,
  get_elem?, get_elem?-some, arith, ◌==◌, if◌then◌else◌,
}
use qfabric.Prelude.Result.{ok}
use qfabric.Prelude.Maps.{lookup}
use qfabric.Prelude.Elem.{elem, elem_if, elem_here, elem_there}
use qfabric.Prelude.Sort.{sorted}
use qfabric.Floats.{Floats}
use qfabric.Random.{Generator}
use qfabric.Sifting.{Record}
use qfabric.Sifting.Rates.{qber_from_disclosed}
use qfabric.Exchange.Matching.{sequences}
use qfabric.Exchange.Shared.{bits_at-ok}
use qfabric.DistributedQkd.Decoy.{
  class_of, with_class, signal_of, decoy_extra, DecoyExtra, Counts, no_counts, count, count_sent,
  count_detected, decoy_analysis, DecoyStats,
}
use qfabric.DistributedQkd.Positions.{bits_in-ok}

-- If there are labels, there is one for each of n positions: signal, decoy or vacuum.
abbrev pub Labelled : ℕ → Option (List ℕ) → Type 0
Labelled n none = Unit
Labelled n (some classes) =
    (length classes ≡ n) × ((i c : ℕ) → get_elem? classes i ≡ some c → c < 3)

class_of-ok :
    (classes : List ℕ) (s : ℕ)
    → s < length classes
    → (c : ℕ) × (get_elem? classes s ≡ some c) × (class_of classes s ≡ ok c)
unfolding class_of
class_of-ok classes s h =
    let (c, at) = get_elem?-some classes s h in (c, at, rw (class_of, at) refl)

with_class-ok :
    (label : ℕ) (classes seqs : List ℕ)
    → ((i : ℕ) → elem i seqs ≡ true → i < length classes)
    → (found : List ℕ) × (with_class label classes seqs ≡ ok found)
      × ((i : ℕ) → elem i found ≡ true → elem i seqs ≡ true)
unfolding with_class
with_class-ok label classes [] h = ([], refl, λ i m. m)
with_class-ok label classes (s ∷ seqs) h =
    let (c, at, label_at) = class_of-ok classes s (h s (elem_here s seqs)) in
    let (found, e, inside) =
      with_class-ok label classes seqs (λ i m. h i (elem_there i s seqs m)) in
    (
      (if c == label then s ∷ found else found),
      rw (label_at, e) refl,
      λ i m. elim (elem_if i s (c == label) found m) [
        | inl (same, b) ↦ ground (arith, same)
        | inr later ↦ elem_there i s seqs (inside i later)
      ],
    )

pub signal_of-ok :
    (n : ℕ) (intensity : Option (List ℕ)) (matching : List ℕ)
    → Labelled n intensity
    → ((i : ℕ) → elem i matching ≡ true → i < n)
    → (signal : List ℕ) × (signal_of intensity matching ≡ ok signal)
      × ((i : ℕ) → elem i signal ≡ true → elem i matching ≡ true)
signal_of-ok n none matching labels h = (matching, refl, λ i m. m)
signal_of-ok n (some classes) matching labels h =
    with_class-ok 0 classes matching (λ i m. omega (arith, labels.0, h i m))

-- What Bob discloses of the decoy pulses.
abbrev pub IsDisclosed : List (ℕ × Record) → List ℕ → Option DecoyExtra → Type 0
IsDisclosed dict matching none = Unit
IsDisclosed dict matching (some extra) =
    (extra.detected_sequences ≡ sorted (sequences dict))
    × ((i : ℕ) → elem i extra.decoy_indices ≡ true → elem i matching ≡ true)

pub decoy_extra-ok :
    (n : ℕ) (dict : List (ℕ × Record)) (intensity : Option (List ℕ)) (matching : List ℕ)
    → Labelled n intensity
    → ((i : ℕ) → elem i matching ≡ true → i < n)
    → ((i : ℕ) → elem i matching ≡ true → (r : Record) × (lookup i dict ≡ some r))
    → (extra : Option DecoyExtra) × (decoy_extra dict intensity matching ≡ ok extra)
      × IsDisclosed dict matching extra
unfolding decoy_extra
decoy_extra-ok n dict none matching labels h at = (none, refl, tt)
decoy_extra-ok n dict (some classes) matching labels h at =
    let (found, e1, inside) =
      with_class-ok 1 classes matching (λ i m. omega (arith, labels.0, h i m)) in
    let (bits, e2, size) = bits_at-ok dict found (λ i m. at i (inside i m)) in
    (
      some (record {
        detected_sequences = sorted (sequences dict);
        decoy_indices = found;
        decoy_bits = bits;
      }),
      rw (e1, e2) refl,
      (refl, inside),
    )

count-ok : (c : ℕ) (counts : Counts) → c < 3 → (after : Counts) × (count c counts ≡ ok after)
unfolding count
count-ok zero counts h = (_, refl)
count-ok (suc zero) counts h = (_, refl)
count-ok (suc (suc zero)) counts h = (_, refl)
count-ok (suc (suc (suc c))) counts h = absurd (omega (arith, h))

count_sent-ok :
    (classes : List ℕ) (counts : Counts)
    → ((i c : ℕ) → get_elem? classes i ≡ some c → c < 3)
    → (after : Counts) × (count_sent classes counts ≡ ok after)
unfolding count_sent
count_sent-ok [] counts h = (counts, refl)
count_sent-ok (c ∷ classes) counts h =
    let (next, e) = count-ok c counts (h 0 c refl) in
    let (after, rest) = count_sent-ok classes next (λ i d at. h (suc i) d at) in (after, rw e rest)

count_detected-ok :
    (classes seqs : List ℕ) (counts : Counts)
    → ((i c : ℕ) → get_elem? classes i ≡ some c → c < 3)
    → ((i : ℕ) → elem i seqs ≡ true → i < length classes)
    → (after : Counts) × (count_detected classes seqs counts ≡ ok after)
unfolding count_detected
count_detected-ok classes [] counts h inside = (counts, refl)
count_detected-ok classes (s ∷ seqs) counts h inside =
    let (c, at, label_at) = class_of-ok classes s (inside s (elem_here s seqs)) in
    let (next, e) = count-ok c counts (h s c at) in
    let (after, rest) =
      count_detected-ok classes seqs next h (λ i m. inside i (elem_there i s seqs m)) in
    (after, rw (label_at, e) rest)

module _ (f : Floats) (g : Generator f) where
  pub decoy_analysis-ok :
      (dict : List (ℕ × Record)) (matching bits : List ℕ) (intensity : Option (List ℕ))
      (extra : Option DecoyExtra)
      → Labelled (length bits) intensity
      → IsDisclosed dict matching extra
      → ((i : ℕ) → elem i (sorted (sequences dict)) ≡ true → i < length bits)
      → ((i : ℕ) → elem i matching ≡ true → i < length bits)
      → (stats : Option (DecoyStats f g)) × (decoy_analysis f g bits intensity extra ≡ ok stats)
  unfolding decoy_analysis
  decoy_analysis-ok dict matching bits none extra labels told seen in_range = (none, refl)
  decoy_analysis-ok dict matching bits (some classes) none labels told seen in_range = (none, refl)
  decoy_analysis-ok dict matching bits (some classes) (some extra) labels told seen in_range =
      let (sent, e1) = count_sent-ok classes no_counts labels.1 in
      let (det, e2) =
        count_detected-ok classes extra.detected_sequences no_counts labels.1
          (λ i m. omega (arith, labels.0, seen i (subst (λ seqs. elem i seqs ≡ true) told.0 m))) in
      let (a_decoy, e3, size) =
        bits_in-ok bits extra.decoy_indices (λ i m. in_range i (told.1 i m)) in
      (
        some (record {
          sent = sent;
          detected = det;
          qber_decoy = (qber_from_disclosed f a_decoy extra.decoy_bits).qber;
        }),
        rw (e1, e2, e3) refl,
      )
