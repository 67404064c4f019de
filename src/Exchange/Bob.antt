-- ===== src/Exchange/Bob.antt =====
-- qne/bob.py: the dark counts that end `_receive_photons`, and the steps of Bob's `_run_sifting`.
use qfabric.Prelude.{
  ℕ, zero, suc, Bool, true, false, ◌&&◌, ◌||◌, not, Option, none, some, List, [], ◌∷◌, ◌++◌, length,
  ◌==◌, if◌then◌else◌,
}
use qfabric.Prelude.Result.{Result, ok, err, protocol_error, ◌>>=◌}
use qfabric.Prelude.Elem.{elem}
use qfabric.Prelude.Sort.{sorted}
use qfabric.Floats.{Floats}
use qfabric.Random.{Generator}
use qfabric.Sifting.{Record, sample_size}
use qfabric.Sifting.Rates.{
  QberEstimate, zero_f, qber_from_disclosed, secure_key_fraction, efficient_secure_fraction,
  per_photon,
}
use qfabric.Detector.{Photon, DetectionEvent, Detector, Settings, detect, chance}
use qfabric.Exchange.{
  Message, QberResult, alice_bases, sifting_result, request_sample, alice_sample_bits, qber_result,
  other_message,
}
use qfabric.Exchange.Matching.{with_basis, picked, pick}

module _ (f : Floats) (g : Generator f) where
  open f use {F, ratio, lt, mul, int_of}
  open g use {Rng, random, integers, choice}

  abbrev pub record_of : DetectionEvent → ℕ → Record
  record_of event basis = record {
    sequence_num = event.sequence_num;
    basis = basis;
    bit_value = event.bit_value;
  }

  -- A detection is appended; an event that is detected has a basis.
  abbrev pub recorded : DetectionEvent → Option ℕ → List Record → List Record
  recorded event none log = log
  recorded event (some basis) log = if event.detected then record_of event basis ∷ log else log

  -- The loop over the photons that arrive: the detection log, and the detector.
  unfoldable pub detect_photons :
      Settings f g → List Photon → Detector f g → List Record × Detector f g
  detect_photons s [] d = ([], d)
  detect_photons s (photon ∷ photons) d =
      let (event, d₁) = detect f g s photon none d in
      let (log, d₂) = detect_photons s photons d₁ in (recorded event event.basis log, d₂)

  -- The dark count of an empty slot, if there is one.
  abbrev pub dark_record : F → ℕ → Bool × Rng → Option Record × Rng
  dark_record bias seq (false, rng) = (none, rng)
  dark_record bias seq (true, rng) =
      let (z, rng₁) = chance f g bias rng in
      let (bit, rng₂) = integers 0 2 rng₁ in
      (some (record { sequence_num = seq; basis = if z then 0 else 1; bit_value = bit }), rng₂)

  -- The loop over the slots, from slot `seq` on with `left` to go, for the slots not in `seen`.
  unfoldable pub fill_dark : Settings f g → List ℕ → ℕ → ℕ → Rng → List Record × Rng
  fill_dark s seen seq zero rng = ([], rng)
  fill_dark s seen seq (suc left) rng = elim (elem seq seen) [
    | true ↦ fill_dark s seen (suc seq) left rng
    | false ↦
        let (event, rng₁) = dark_record s.basis_bias seq (chance f g s.dark_count_prob rng) in
        let (log, rng₂) = fill_dark s seen (suc seq) left rng₁ in
        (elim event [ none ↦ log | some r ↦ r ∷ log ], rng₂)
  ]

  abbrev pub slots_of : List Photon → List ℕ
  slots_of [] = []
  slots_of (photon ∷ photons) = photon.sequence_num ∷ slots_of photons

  -- `_receive_photons` on the photons that arrive before the silence that ends it. Whatever was
  -- detected has arrived, so the slots seen are those of the arrivals.
  unfoldable pub receive_photons : Settings f g → ℕ → List Photon → Detector f g → List Record × Rng
  receive_photons s num_photons photons d =
      let (log, d₁) = detect_photons s photons d in
      let (dark, rng) = fill_dark s (slots_of photons) 0 num_photons d₁.rng in (log ++ dark, rng)

  abbrev pub hear_bases : Message f → Result (List (ℕ × ℕ))
  hear_bases (alice_bases bases) = ok bases
  hear_bases (sifting_result matching detected) = err protocol_error
  hear_bases (request_sample sample) = err protocol_error
  hear_bases (alice_sample_bits bits) = err protocol_error
  hear_bases (qber_result result) = err protocol_error
  hear_bases other_message = err protocol_error

  -- `sorted(rng.choice(xs, size=n_sample, replace=False).tolist()) if n_sample else []`
  abbrev pub chosen : List ℕ → ℕ → Rng → List ℕ × Rng
  chosen xs zero rng = ([], rng)
  chosen xs (suc n) rng = let (picked, rng₁) = choice xs (suc n) rng in (sorted picked, rng₁)

  unfoldable pub random_sample : F → List ℕ → Rng → List ℕ × Rng
  random_sample fraction xs rng = chosen xs (sample_size f (length xs) fraction) rng

  -- `bias != 0.5`
  unfoldable pub is_biased : F → Bool
  is_biased bias = lt bias (ratio 1 2) || lt (ratio 1 2) bias

  -- The positions to disclose: for biased bases every X match and a sample of the Z matches.
  unfoldable pub disclosed : Bool → F → List (ℕ × Record) → List ℕ → Rng → List ℕ × Rng
  disclosed true fraction dict matching rng =
      let (z_sample, rng₁) = random_sample fraction (with_basis 0 dict matching) rng in
      (sorted (with_basis 1 dict matching ++ z_sample), rng₁)
  disclosed false fraction dict matching rng = random_sample fraction matching rng

  -- Alice's bits and the sample, which is dropped if she sent something else, or nothing yet.
  abbrev pub hear_sample : Option (Message f) → List ℕ → List ℕ × List ℕ
  hear_sample (some (alice_sample_bits bits)) sample = (bits, sample)
  hear_sample (some (alice_bases bases)) sample = ([], [])
  hear_sample (some (sifting_result matching detected)) sample = ([], [])
  hear_sample (some (request_sample s)) sample = ([], [])
  hear_sample (some (qber_result result)) sample = ([], [])
  hear_sample (some other_message) sample = ([], [])
  hear_sample none sample = ([], [])

  -- What `qber_result` is made from: the estimate, the secure fraction, and the phase error if the
  -- bases are biased.
  pub record Estimate : Type 0 where
    pub estimate : QberEstimate f
    pub secure_fraction : F
    pub qber_pa : Option F

  abbrev pub unbiased_estimate : List ℕ → List ℕ → Estimate
  unbiased_estimate alice_bits bob_bits =
      let e = qber_from_disclosed f alice_bits bob_bits in
      record { estimate = e; secure_fraction = secure_key_fraction f e.qber; qber_pa = none }

  -- The fraction, and the phase error, from the estimates of the two bases.
  abbrev pub by_basis : QberEstimate f → QberEstimate f → QberEstimate f → Estimate
  by_basis e z x =
      if not (z.num_sampled == 0) && not (x.num_sampled == 0)
      then record {
        estimate = e;
        secure_fraction = efficient_secure_fraction f z.qber x.qber;
        qber_pa = some x.qber;
      }
      else record { estimate = e; secure_fraction = zero_f f; qber_pa = none }

  abbrev pub biased_estimate : List (ℕ × ℕ) → List ℕ → List ℕ → List ℕ → Result Estimate
  biased_estimate bases sample alice_bits bob_bits = do
    alice_z ← pick 0 bases sample alice_bits
    bob_z ← pick 0 bases sample bob_bits
    alice_x ← pick 1 bases sample alice_bits
    bob_x ← pick 1 bases sample bob_bits
    ok (
        by_basis (qber_from_disclosed f alice_bits bob_bits) (qber_from_disclosed f alice_z bob_z)
          (qber_from_disclosed f alice_x bob_x))

  -- `if bias != 0.5 and sample`
  unfoldable pub estimate_from : Bool → List (ℕ × ℕ) → List ℕ → List ℕ → List ℕ → Result Estimate
  estimate_from biased bases [] alice_bits bob_bits = ok (unbiased_estimate alice_bits bob_bits)
  estimate_from false bases (s ∷ sample) alice_bits bob_bits =
      ok (unbiased_estimate alice_bits bob_bits)
  estimate_from true bases (s ∷ sample) alice_bits bob_bits =
      biased_estimate bases (s ∷ sample) alice_bits bob_bits

  -- The message `qber_result`, with the decision to reconcile.
  abbrev pub verdict : Bool → ℕ → ℕ → ℕ → Estimate → QberResult f
  verdict reconcile num_photons num_matching num_key e =
      let final_key_bits = int_of (mul (ratio num_key 1) e.secure_fraction) in
      record {
        qber = e.estimate.qber;
        num_sampled = e.estimate.num_sampled;
        num_errors = e.estimate.num_errors;
        confidence_interval = e.estimate.confidence_interval;
        raw_key_rate = per_photon f num_matching num_photons;
        secure_key_rate = per_photon f final_key_bits num_photons;
        final_key_bits = final_key_bits;
        reconcile = reconcile && (not (num_key == 0) && lt (zero_f f) e.secure_fraction);
      }
