-- ===== src/DistributedQkd/Sift.antt =====
-- qne-sequence/qne_sequence/distributed_qkd.py: the train that Alice makes, and the messages BASIS_LIST,
-- SIFTED and QBER_RESULT with what each side does on them.
use qfabric.Prelude.{
  ℕ, suc, Bool, true, false, ◌&&◌, not, Option, none, some, List, [], ◌∷◌, length, leb, ◌==◌,
  if◌then◌else◌,
}
use qfabric.Prelude.Result.{Result, ok, ◌>>=◌}
use qfabric.Prelude.Sort.{sorted, minus}
use qfabric.Floats.{Floats}
use qfabric.Random.{Generator}
use qfabric.Sifting.{Record}
use qfabric.Sifting.Rates.{
  QberEstimate, zero_f, qber_from_disclosed, secure_key_fraction, efficient_secure_fraction,
}
use qfabric.Detector.{Settings}
use qfabric.Eve.{Pulse}
use qfabric.Exchange.{bits_at}
use qfabric.Exchange.Bob.{is_biased, disclosed}
use qfabric.Exchange.Matching.{matching_of, pick}
use qfabric.DistributedQkd.{Records, Bob, finalize_detections}
use qfabric.DistributedQkd.Decoy.{
  bits_in, DecoyExtra, signal_of, decoy_extra, DecoyStats, decoy_analysis,
}

-- `[[i, basis_list[i], bit_list[i]] for i in range(num)]` from position i on
pub plain_pulses : ℕ → List ℕ → List ℕ → List Pulse
plain_pulses i [] bits = []
plain_pulses i (b ∷ bases) [] = []
plain_pulses i (b ∷ bases) (x ∷ bits) =
    record { seq = i; basis = b; bit = x; rest = [] } ∷ plain_pulses (suc i) bases bits

-- The same with the counts of photons that arrive, for a decoy source.
pub decoy_pulses : ℕ → List ℕ → List ℕ → List ℕ → List Pulse
decoy_pulses i [] bits counts = []
decoy_pulses i (b ∷ bases) [] counts = []
decoy_pulses i (b ∷ bases) (x ∷ bits) [] = []
decoy_pulses i (b ∷ bases) (x ∷ bits) (n ∷ counts) =
    record { seq = i; basis = b; bit = x; rest = n ∷ [] } ∷ decoy_pulses (suc i) bases bits counts

-- `make_pulses`; the counts, which a decoy source draws, are given.
abbrev pub make_pulses : List ℕ → List ℕ → Option (List ℕ) → List Pulse
make_pulses bases bits none = plain_pulses 0 bases bits
make_pulses bases bits (some counts) = decoy_pulses 0 bases bits counts

-- The list of bases as a dict from positions, and Bob's records as records with their numbers.
unfoldable pub numbered : ℕ → List ℕ → List (ℕ × ℕ)
numbered i [] = []
numbered i (b ∷ bases) = (i, b) ∷ numbered (suc i) bases

unfoldable pub noted : Records → List (ℕ × Record)
noted [] = []
noted ((seq, (basis, bit)) ∷ records) =
    (seq, record { sequence_num = seq; basis = basis; bit_value = bit }) ∷ noted records

-- BASIS_LIST
pub record BasisList : Type 0 where
  pub bases : List ℕ
  pub intensity : Option (List ℕ)

-- SIFTED
pub record SiftedMessage : Type 0 where
  pub matching_indices : List ℕ
  pub sample_indices : List ℕ
  pub bob_sample_bits : List ℕ
  pub decoy : Option DecoyExtra

-- What Bob keeps of it.
pub record BobKey : Type 0 where
  pub key_order : List ℕ
  pub sifted_count : ℕ
  pub num_sampled : ℕ
  pub bob_detected : ℕ

module _ (f : Floats) (g : Generator f) where
  open f use {F, ratio, mul, int_of}

  -- BASIS_LIST at Bob, once the detections are complete: what he sends, and what he keeps.
  unfoldable pub sift_and_sample :
      Bool → F → BasisList → List (ℕ × Record) → g.Rng → Result (SiftedMessage × BobKey)
  sift_and_sample biased fraction msg dict rng = do
    let matching = sorted (matching_of (numbered 0 msg.bases) dict)
    extra ← decoy_extra dict msg.intensity matching
    signal ← signal_of msg.intensity matching
    let sample = (disclosed f g biased fraction dict signal rng).0
    sample_bits ← bits_at dict sample
    ok (
      record {
        matching_indices = signal;
        sample_indices = sample;
        bob_sample_bits = sample_bits;
        decoy = extra;
      },
      record {
        key_order = minus signal sample;
        sifted_count = length signal;
        num_sampled = length sample;
        bob_detected = length dict;
      },
    )

  -- QBER_RESULT
  pub record QberMessage : Type 0 where
    pub qber : F
    pub qber_x : Option F
    pub secure_fraction : F

  abbrev pub unbiased_rates : QberEstimate f → QberMessage
  unbiased_rates e = record {
    qber = e.qber;
    qber_x = none;
    secure_fraction = secure_key_fraction f e.qber;
  }

  abbrev pub biased_rates : QberEstimate f → QberEstimate f → QberMessage
  biased_rates z x = record {
    qber = z.qber;
    qber_x = some x.qber;
    secure_fraction =
        if not (z.num_sampled == 0) && not (x.num_sampled == 0)
        then efficient_secure_fraction f z.qber x.qber
        else zero_f f;
  }

  unfoldable pub rates : Bool → List (ℕ × ℕ) → List ℕ → List ℕ → List ℕ → Result QberMessage
  rates false bases sample a_sample b_sample =
      ok (unbiased_rates (qber_from_disclosed f a_sample b_sample))
  rates true bases sample a_sample b_sample = do
    alice_z ← pick 0 bases sample a_sample
    bob_z ← pick 0 bases sample b_sample
    alice_x ← pick 1 bases sample a_sample
    bob_x ← pick 1 bases sample b_sample
    ok (biased_rates (qber_from_disclosed f alice_z bob_z) (qber_from_disclosed f alice_x bob_x))

  -- The key, if there are enough bits for it. `set_key` is the simulator's, on the length and the bits.
  abbrev pub key_of : (ℕ → List ℕ → ℕ) → ℕ → List ℕ → Option ℕ
  key_of set_key key_length key_bits =
      if leb key_length (length key_bits) then some (set_key key_length key_bits) else none

  -- SIFTED at Alice: QBER_RESULT, her key bits and their positions, the length of the final key, and the
  -- counts of the decoy analysis.
  pub record AliceKey : Type 0 where
    pub told : QberMessage
    pub key_order : List ℕ
    pub key_bits : List ℕ
    pub final_key_bits : ℕ
    pub decoy : Option (DecoyStats f g)

  unfoldable pub estimate_and_key :
      Bool → Option (List ℕ) → List ℕ → List ℕ → SiftedMessage → Result AliceKey
  estimate_and_key biased intensity bases bits msg =
      let key_order = minus msg.matching_indices msg.sample_indices in
      do
        a_sample ← bits_in bits msg.sample_indices
        told ← rates biased (numbered 0 bases) msg.sample_indices a_sample msg.bob_sample_bits
        key_bits ← bits_in bits key_order
        decoy ← decoy_analysis f g bits intensity msg.decoy
        ok (record {
          told = told;
          key_order = key_order;
          key_bits = key_bits;
          final_key_bits = int_of (mul (ratio (length key_order) 1) told.secure_fraction);
          decoy = decoy;
        })

  -- How a train ends: what both sides have.
  pub record Train : Type 0 where
    pub message : SiftedMessage
    pub bob : BobKey
    pub alice : AliceKey
    pub bob_key_bits : List ℕ

  -- BASIS_LIST, SIFTED and QBER_RESULT, from Bob's state and Alice's bases and bits.
  unfoldable pub end_train :
      Settings f g → F → F → Option (List ℕ) → List ℕ → List ℕ → Bob f g → g.Rng → Result Train
  end_train s bias fraction intensity bases bits b rng =
      let dict = noted (finalize_detections f g s (length bases) b).records in
      do
        (message, bob) ←
            sift_and_sample (is_biased f g bias) fraction
              (record { bases = bases; intensity = intensity }) dict rng
        alice ← estimate_and_key (is_biased f g bias) intensity bases bits message
        bob_key_bits ← bits_at dict bob.key_order
        ok (record { message = message; bob = bob; alice = alice; bob_key_bits = bob_key_bits })
