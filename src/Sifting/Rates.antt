-- ===== src/Sifting/Rates.antt =====
-- qne/bb84.py: the estimate of the error rate from a disclosed sample, and the key rates.
use qfabric.Prelude.{ℕ, zero, suc, ◌-◌, ◌*◌, Bool, ◌&&◌, ◌||◌, List, length, if◌then◌else◌}
use qfabric.Floats.{Floats}
use qfabric.Sifting.{SiftingResult, num_errors, num_sampled}

module _ (f : Floats) where
  open f use {F, ratio, le, lt, add, sub, mul, div, max_f, min_f, sqrt, pow, log2, int_of}

  abbrev pub zero_f : F
  zero_f = ratio 0 1

  abbrev pub one_f : F
  one_f = ratio 1 1

  pub record QberEstimate : Type 0 where
    pub qber : F
    pub num_sampled : ℕ
    pub num_errors : ℕ
    pub confidence_interval : F × F

  pub record KeyRateResult : Type 0 where
    pub raw_key_rate : F
    pub secure_key_rate : F
    pub sifted_bits : ℕ
    pub final_key_bits : ℕ
    pub qber : F

  -- `wilson_interval`, with z = 1.96
  unfoldable pub wilson_interval : F → ℕ → F × F
  wilson_interval qber zero = (zero_f, zero_f)
  wilson_interval qber (suc m) =
      let n = suc m in
      let z = ratio 196 100 in
      let denominator = add one_f (div (pow z 2) (ratio n 1)) in
      let center = div (add qber (div (pow z 2) (ratio (2 * n) 1))) denominator in
      let variance =
        div (add (mul qber (sub one_f qber)) (div (pow z 2) (ratio (4 * n) 1))) (ratio n 1) in
      let spread = div (mul z (sqrt variance)) denominator in
      (max_f zero_f (sub center spread), min_f one_f (add center spread))

  -- `errors / num if num > 0 else 0.0`
  abbrev pub error_rate : ℕ → ℕ → F
  error_rate errors zero = zero_f
  error_rate errors (suc n) = ratio errors (suc n)

  unfoldable pub qber_from_disclosed : List ℕ → List ℕ → QberEstimate
  qber_from_disclosed alice_bits bob_bits =
      let num = num_sampled alice_bits bob_bits in
      let errors = num_errors alice_bits bob_bits in
      let qber = error_rate errors num in
      record {
        qber = qber;
        num_sampled = num;
        num_errors = errors;
        confidence_interval = wilson_interval qber num;
      }

  pub binary_entropy : F → F
  binary_entropy p =
      if le p zero_f || le one_f p
      then zero_f
      else sub (mul (sub zero_f p) (log2 p)) (mul (sub one_f p) (log2 (sub one_f p)))

  unfoldable pub secure_key_fraction : F → F
  secure_key_fraction qber =
      if le zero_f qber && lt qber (ratio 11 100)
      then max_f zero_f (sub one_f (mul (ratio 2 1) (binary_entropy qber)))
      else zero_f

  abbrev below_half : F → Bool
  below_half x = le zero_f x && lt x (ratio 1 2)

  pub efficient_secure_fraction : F → F → F
  efficient_secure_fraction qber_z qber_x =
      if below_half qber_z && below_half qber_x
      then max_f zero_f (sub (sub one_f (binary_entropy qber_z)) (binary_entropy qber_x))
      else zero_f

  -- `x / num_photons_sent if num_photons_sent > 0 else 0.0`
  abbrev pub per_photon : ℕ → ℕ → F
  per_photon x zero = zero_f
  per_photon x (suc n) = ratio x (suc n)

  -- No estimate samples more bits than were sifted, so the difference is not negative.
  pub compute_key_rate : SiftingResult → QberEstimate → ℕ → KeyRateResult
  compute_key_rate sifted estimate num_photons_sent =
      let n_sifted = length sifted.alice_bits in
      let n_remaining = n_sifted - estimate.num_sampled in
      let final_key_bits = int_of (mul (ratio n_remaining 1) (secure_key_fraction estimate.qber)) in
      record {
        raw_key_rate = per_photon n_sifted num_photons_sent;
        secure_key_rate = per_photon final_key_bits num_photons_sent;
        sifted_bits = n_sifted;
        final_key_bits = final_key_bits;
        qber = estimate.qber;
      }
