-- ===== src/Exchange/Tests.antt =====
-- Seven photons: one lost, one measured in the wrong basis, one with a wrong bit.
use mathlib.Core.Option.{some-injective}
use qfabric.Prelude.Slices.{slices}
use qfabric.Prelude.{
  ℕ, ap, ◌≡◌, refl, sym, ◌∙◌, subst, true, false, some, Option, List, [], ◌∷◌, arith,
}
use qfabric.Prelude.Maps.{lookup, insert}
use qfabric.Prelude.Sort.{sorted, insert_sorted, minus}
use qfabric.Prelude.Result.{ok, ok-injective}
use qfabric.Floats.Hundredths.{floats}
use qfabric.Random.Counter.{counter, counter-IsGenerator}
use qfabric.Privacy.{Numpy, table, convolution}
use qfabric.Cascade.{
  CascadeResult, initial_block_size, parity, flip, ask, bisect, reconcile, run_pass, open_pass,
  drain, first_work, is_odd, range_from,
}
use qfabric.Cascade.Blocks.{range_from-IsPermutation}
use qfabric.Sifting.{Record, by_seq, sample_size, num_errors}
use qfabric.Detector.{Photon, Settings, new_detector, chance}
use qfabric.Sifting.Rates.{qber_from_disclosed, wilson_interval}
use qfabric.KeyAgreement.{serve, cascade_sizing_qber}
use qfabric.KeyAgreement.Agree.{cascade}
use qfabric.Exchange.{bits_at, to_bools}
use qfabric.Exchange.Alice.{basis_list, sent_by_seq}
use qfabric.Exchange.Bob.{random_sample, disclosed, receive_photons, is_biased, estimate_from}
use qfabric.Exchange.Matching.{index_detections, sequences, is_basis, matching_of}
use qfabric.Exchange.Run.{Options, Sifted, cascade_settings, sift_exchange, run_sifting}
use qfabric.Exchange.Keys.{IsShared, sift_exchange-IsShared}
use qfabric.Exchange.Agree.{NoCollision, same_key, run_sifting_agrees}
use qfabric.Exchange.Ideal.{ideal-same_key}
use qfabric.Exchange.Clean.{AllSent}

abbrev numpy : Numpy
numpy = record {
  integers = λ seed n. table (λ i. 1) 0 n;
  fft_length = λ m. m;
  fft_product = λ xs ys n. table (convolution xs ys) 0 n;
}

abbrev options : Options floats counter numpy
options = record {
  basis_bias = 50;
  sample_fraction = 30;
  num_photons = 7;
  reconcile = true;
  passes = 2;
  eps_cor = 100;
  perms = λ n p. range_from 0 n;
  pa_seed = 1;
  verify_seed = 2;
}

abbrev row : ℕ → ℕ → ℕ → Record
row n basis bit = record { sequence_num = n; basis = basis; bit_value = bit }

abbrev sent_log : List Record
sent_log = row 0 0 1 ∷ row 1 1 0 ∷ row 2 0 1 ∷ row 3 1 1 ∷ row 4 0 1 ∷ row 5 1 0 ∷ row 6 1 0 ∷ []

-- Photon 1 is measured in the wrong basis, photon 2 lost, photon 3 delivered twice.
abbrev detection_log : List Record
detection_log =
    row 3 1 1 ∷ row 0 0 1 ∷ row 1 0 0 ∷ row 3 0 0 ∷ row 5 1 1 ∷ row 4 0 1 ∷ row 6 1 0 ∷ []

abbrev key_order :
    (s : Sifted floats counter numpy) × (sift_exchange floats counter numpy options sent_log
        detection_log 0
      ≡ ok s)
    × (s.sample ≡ 0 ∷ [])
    × (s.alice_order ≡ 3 ∷ 4 ∷ 5 ∷ 6 ∷ [])
    × (s.alice_key ≡ 1 ∷ 1 ∷ 0 ∷ 0 ∷ [])
unfolding sample_size sift_exchange index_detections sequences matching_of is_basis lookup insert
    sorted insert_sorted minus basis_list by_seq bits_at disclosed random_sample is_biased
    estimate_from
key_order = (_, refl, refl, refl, refl)

sift_exchange-IsShared_example :
    (s : Sifted floats counter numpy) × (sift_exchange floats counter numpy options sent_log
        detection_log 0
      ≡ ok s)
    × IsShared floats counter numpy options sent_log detection_log s
sift_exchange-IsShared_example =
    sift_exchange-IsShared floats counter numpy options sent_log detection_log 0 counter-IsGenerator

abbrev sifted : Sifted floats counter numpy
sifted = key_order.0

cascades :
    (res : CascadeResult) × (cascade floats numpy
        (cascade_settings floats counter numpy options sifted)
        (to_bools sifted.alice_key)
        (to_bools sifted.bob_key)
      ≡ some res)
    × (res.corrected_key ≡ to_bools sifted.alice_key)
unfolding reconcile slices run_pass open_pass drain first_work parity is_odd flip ask bisect serve
    initial_block_size cascade_sizing_qber sample_size sift_exchange index_detections sequences
    matching_of is_basis lookup insert sorted insert_sorted minus basis_list by_seq bits_at
    disclosed random_sample is_biased estimate_from qber_from_disclosed num_errors wilson_interval
cascades = (_, refl, refl)

-- Cascade gives Bob the key that Alice has.
no_collision :
    (s : Sifted floats counter numpy)
    → sift_exchange floats counter numpy options sent_log detection_log 0 ≡ ok s
    → NoCollision floats counter numpy options s
unfolding NoCollision
no_collision s e =
    subst (NoCollision floats counter numpy options) (ok-injective sifted s (sym (key_order.1) ∙ e))
      (λ res run same.
        let (found, ran, equal) = cascades in
        sym equal
        ∙ ap (λ (r : CascadeResult). r.corrected_key) (some-injective found res (sym ran ∙ run)))

run_sifting_agrees_example :
    (key : Option ℕ) × (run_sifting floats counter numpy options sent_log detection_log 0
      ≡ ok (some (same_key floats counter numpy options key)))
run_sifting_agrees_example =
    run_sifting_agrees floats counter numpy options sent_log detection_log 0 counter-IsGenerator
      (λ n p. range_from-IsPermutation n) no_collision

abbrev clean : Settings floats counter
clean = record {
  efficiency = 95;
  dark_count_prob = 0;
  detection_window = 100;
  polarization_error = 0;
  basis_bias = 50;
  dead_time = 0;
  timing_jitter = 0;
  pulse_period_ns = 0;
}

abbrev photon : ℕ → ℕ → ℕ → Photon
photon n basis state = record { sequence_num = n; basis = basis; state = state }

abbrev photons : List Photon
photons = photon 3 1 1 ∷ photon 0 0 1 ∷ photon 3 1 1 ∷ []

arrived : AllSent (sent_by_seq sent_log) photons
unfolding AllSent by_seq insert lookup
arrived = (
  (row 3 1 1, refl, refl, refl),
  ((row 0 0 1, refl, refl, refl), ((row 3 1 1, refl, refl, refl), tt)),
)

never : (rng : ℕ) → (chance floats counter 0 rng).0 ≡ false
unfolding chance
never rng = ground arith

ideal-same_key_example :
    (s : Sifted floats counter numpy) × (sift_exchange floats counter numpy options sent_log
        ((receive_photons floats counter clean 4 photons (new_detector floats counter 0)).0)
        0
      ≡ ok s)
    × (s.alice_key ≡ s.bob_key)
ideal-same_key_example =
    ideal-same_key floats counter clean refl refl never numpy options sent_log 4 photons
      (new_detector floats counter 0) 0 counter-IsGenerator arrived
