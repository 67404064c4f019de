-- ===== src/Exchange/Run.antt =====
-- qne/alice.py and qne/bob.py: the two `_run_sifting` against each other, message by message.
use qfabric.Prelude.{ℕ, Bool, true, false, Option, none, some, List, [], length}
use qfabric.Prelude.Result.{Result, ok, err, Error, key_verification_error, ◌>>=◌}
use qfabric.Prelude.Sort.{sorted, minus}
use qfabric.Floats.{Floats}
use qfabric.Random.{Generator}
use qfabric.Privacy.{Numpy}
use qfabric.Sifting.{Record}
use qfabric.KeyAgreement.{KeyMaterial, Settings, session}
use qfabric.Exchange.{
  QberResult, alice_bases, sifting_result, request_sample, qber_result, bits_at, to_bools,
  bits_to_int,
}
use qfabric.Exchange.Alice.{basis_list, sent_by_seq, hear_sifting, answer_sample, hear_qber}
use qfabric.Exchange.Bob.{
  Estimate, hear_bases, hear_sample, is_biased, disclosed, estimate_from, verdict,
}
use qfabric.Exchange.Matching.{index_detections, sequences, matching_of}

-- `self.final_key`: None after a KeyVerificationError; another exception leaves `_run_sifting`.
abbrev pub after_failure : Error → Result (Option ℕ)
after_failure key_verification_error = ok none
after_failure raised = err raised

abbrev pub final_key : Result KeyMaterial → Result (Option ℕ)
final_key (ok k) = ok (bits_to_int k.final)
final_key (err raised) = after_failure raised

-- How the two methods end; Alice's is none if she still waits for a message.
pub record Ends : Type 0 where
  pub alice : Option (Result (Option ℕ))
  pub bob : Result (Option ℕ)

abbrev pub ends_of : Option (Result KeyMaterial) × Result KeyMaterial → Ends
ends_of (none, bob) = record { alice = none; bob = final_key bob }
ends_of (some alice, bob) = record { alice = some (final_key alice); bob = final_key bob }

abbrev pub after_cascade : Option (Option (Result KeyMaterial) × Result KeyMaterial) → Option Ends
after_cascade none = none
after_cascade (some results) = some (ends_of results)

abbrev pub no_keys : Ends
no_keys = record { alice = some (ok none); bob = ok none }

module _ (f : Floats) (g : Generator f) (np : Numpy) where
  -- The settings of both sides, and Cascade's choices for a key of the given length.
  pub record Options : Type 0 where
    pub basis_bias : f.F
    pub sample_fraction : f.F
    pub num_photons : ℕ
    pub reconcile : Bool
    pub passes : ℕ
    pub eps_cor : f.F
    pub perms : ℕ → ℕ → List ℕ
    pub pa_seed : ℕ
    pub verify_seed : ℕ

  -- What both sides hold when sifting is over, before Cascade.
  pub record Sifted : Type 0 where
    pub matching : List ℕ
    pub sample : List ℕ
    pub alice_order : List ℕ
    pub bob_order : List ℕ
    pub alice_key : List ℕ
    pub bob_key : List ℕ
    pub estimate : Estimate f g
    pub told : QberResult f

  -- The exchange up to `qber_result`.
  unfoldable pub sift_exchange : Options → List Record → List Record → g.Rng → Result Sifted
  sift_exchange o sent_log detection_log rng =
      let sent = sent_by_seq sent_log in
      let detections = index_detections detection_log [] in
      do
        bases ← hear_bases f g (alice_bases (basis_list sent_log []))
        let matching = sorted (matching_of bases detections)
        (told_matching, told_detected) ←
            hear_sifting f (sifting_result matching (sequences detections))
        let biased = is_biased f g o.basis_bias
        let wanted = (disclosed f g biased o.sample_fraction detections matching rng).0
        (alice_sample, answer) ← answer_sample f sent (request_sample wanted)
        let (alice_bits, sample) = hear_sample f g answer wanted
        bob_bits ← bits_at detections sample
        let bob_order = minus matching sample
        bob_key ← bits_at detections bob_order
        estimate ← estimate_from f g biased bases sample alice_bits bob_bits
        told ← hear_qber f (
            qber_result
              (verdict f g o.reconcile o.num_photons (length matching) (length bob_order) estimate))
        let alice_order = minus told_matching alice_sample
        alice_key ← bits_at sent alice_order
        ok (record {
          matching = matching;
          sample = sample;
          alice_order = alice_order;
          bob_order = bob_order;
          alice_key = alice_key;
          bob_key = bob_key;
          estimate = estimate;
          told = told;
        })

  -- What Bob passes to `drive_cascade`.
  abbrev pub cascade_settings : Options → Sifted → Settings f np
  cascade_settings o s = record {
    qber = s.estimate.estimate.qber;
    passes = o.passes;
    qber_pa = s.estimate.qber_pa;
    max_out_len = none;
    qber_upper = some ((s.estimate.estimate.confidence_interval).1);
    default_eps_cor = o.eps_cor;
    perms = o.perms (length s.bob_key);
    pa_seed = o.pa_seed;
    verify_seed = o.verify_seed;
  }

  -- Cascade, which both sides run or both skip, by Bob's message. `none` if Cascade does not end.
  abbrev pub conclusion : Bool → Options → Sifted → Option Ends
  conclusion false o s = some no_keys
  conclusion true o s =
      after_cascade
        (session f np (cascade_settings o s) (to_bools s.alice_key) (to_bools s.bob_key))

  unfoldable pub run_sifting : Options → List Record → List Record → g.Rng → Result (Option Ends)
  run_sifting o sent_log detection_log rng =
      sift_exchange o sent_log detection_log rng >>= λ s. ok (conclusion s.told.reconcile o s)
