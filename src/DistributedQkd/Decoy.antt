-- ===== src/DistributedQkd/Decoy.antt =====
-- qne-sequence/qne_sequence/distributed_qkd.py: the labels of a decoy source at the end of a train, and
-- what Bob discloses and Alice counts by them.
use qfabric.Prelude.{
  ℕ, zero, suc, Option, none, some, List, [], ◌∷◌, get_elem?, ◌==◌, if◌then◌else◌,
}
use qfabric.Prelude.Result.{Result, ok, err, index_error, ◌>>=◌}
use qfabric.Prelude.Sort.{sorted}
use qfabric.Floats.{Floats}
use qfabric.Random.{Generator}
use qfabric.Sifting.{Record}
use qfabric.Sifting.Rates.{qber_from_disclosed}
use qfabric.Exchange.{bits_at}
use qfabric.Exchange.Matching.{sequences}

-- `[int(bits[s]) for s in seqs]`
unfoldable pub bits_in : List ℕ → List ℕ → Result (List ℕ)
bits_in bits [] = ok []
bits_in bits (s ∷ seqs) =
    let rest = bits_in bits seqs in
    elim (get_elem? bits s) [ none ↦ err index_error | some x ↦ rest >>= λ xs. ok (x ∷ xs) ]

-- `classes[s]`
unfoldable pub class_of : List ℕ → ℕ → Result ℕ
class_of classes s = elim (get_elem? classes s) [ none ↦ err index_error | some c ↦ ok c ]

-- `[s for s in matching if classes[s] == label]`
unfoldable pub with_class : ℕ → List ℕ → List ℕ → Result (List ℕ)
with_class label classes [] = ok []
with_class label classes (s ∷ seqs) =
    let rest = with_class label classes seqs in
    class_of classes s >>= λ c. rest >>= λ found. ok (if c == label then s ∷ found else found)

pub record DecoyExtra : Type 0 where
  pub detected_sequences : List ℕ
  pub decoy_indices : List ℕ
  pub decoy_bits : List ℕ

-- The matching positions that may go into the key: those of signal pulses if there are labels.
abbrev pub signal_of : Option (List ℕ) → List ℕ → Result (List ℕ)
signal_of none matching = ok matching
signal_of (some classes) matching = with_class 0 classes matching

unfoldable pub decoy_extra :
    List (ℕ × Record) → Option (List ℕ) → List ℕ → Result (Option DecoyExtra)
decoy_extra dict none matching = ok none
decoy_extra dict (some classes) matching = do
  decoy_matched ← with_class 1 classes matching
  bits ← bits_at dict decoy_matched
  ok (
      some (record {
        detected_sequences = sorted (sequences dict);
        decoy_indices = decoy_matched;
        decoy_bits = bits;
      }))

-- `sent` and `det`, by the labels signal, decoy and vacuum
pub record Counts : Type 0 where
  pub signal : ℕ
  pub decoy : ℕ
  pub vacuum : ℕ

abbrev pub no_counts : Counts
no_counts = record { signal = 0; decoy = 0; vacuum = 0 }

-- `counts[label] += 1`
unfoldable pub count : ℕ → Counts → Result Counts
count zero c = ok (record c { signal = suc c.signal })
count (suc zero) c = ok (record c { decoy = suc c.decoy })
count (suc (suc zero)) c = ok (record c { vacuum = suc c.vacuum })
count (suc (suc (suc label))) c = err index_error

-- `for c in classes: sent[c] += 1`
unfoldable pub count_sent : List ℕ → Counts → Result Counts
count_sent [] sent = ok sent
count_sent (c ∷ classes) sent = count c sent >>= count_sent classes

-- `for s in detected_sequences: det[classes[s]] += 1`
unfoldable pub count_detected : List ℕ → List ℕ → Counts → Result Counts
count_detected classes [] det = ok det
count_detected classes (s ∷ seqs) det =
    class_of classes s >>= λ c. count c det >>= count_detected classes seqs

module _ (f : Floats) (g : Generator f) where
  open f use {F}

  -- What the decoy analysis starts from: the pulses sent and detected by label, and `e_d.qber`.
  pub record DecoyStats : Type 0 where
    pub sent : Counts
    pub detected : Counts
    pub qber_decoy : F

  abbrev pub decoy_stats : List ℕ → List ℕ → DecoyExtra → Result DecoyStats
  decoy_stats bits classes extra = do
    sent ← count_sent classes no_counts
    detected ← count_detected classes extra.detected_sequences no_counts
    a_decoy ← bits_in bits extra.decoy_indices
    let e_d = qber_from_disclosed f a_decoy extra.decoy_bits
    ok (record { sent = sent; detected = detected; qber_decoy = e_d.qber })

  -- `if self.decoy is not None and "detected_sequences" in msg.payload`
  unfoldable pub decoy_analysis :
      List ℕ → Option (List ℕ) → Option DecoyExtra → Result (Option DecoyStats)
  decoy_analysis bits none extra = ok none
  decoy_analysis bits (some classes) none = ok none
  decoy_analysis bits (some classes) (some extra) =
      decoy_stats bits classes extra >>= λ stats. ok (some stats)
