-- ===== src/Detector/Tests.antt =====
-- Three photons, 20 ns apart, before a detector with 30 ns of dead time.
use qfabric.Prelude.{arith, ℕ, ◌≡◌, refl, false, List, [], ◌∷◌}
use qfabric.Floats.Hundredths.{floats}
use qfabric.Random.Counter.{counter}
use qfabric.Detector.{
  Photon, Settings, Detector, new_detector, detect_batch, detect, detect_at, measure, own_bit,
  real_click, dark_click, arrival_ns, is_blind, rearmed, chance, random_basis,
}
use qfabric.Detector.DeadTime.{Apart, click_times, detect_batch-Apart}

abbrev settings : Settings floats counter
settings = record {
  efficiency = 95;
  dark_count_prob = 0;
  detection_window = 100;
  polarization_error = 0;
  basis_bias = 50;
  dead_time = 3000;
  timing_jitter = 0;
  pulse_period_ns = 2000;
}

abbrev photon : ℕ → Photon
photon n = record { sequence_num = n; basis = 0; state = 1 }

abbrev photons : List Photon
photons = photon 0 ∷ photon 1 ∷ photon 2 ∷ []

abbrev fresh : Detector floats counter
fresh = new_detector floats counter 0

-- The second photon falls into the dead time of the first.
clicks :
    click_times floats counter settings photons
      ((detect_batch floats counter settings photons fresh).0)
    ≡ 0 ∷ 4000 ∷ []
unfolding click_times detect_batch detect detect_at measure own_bit real_click dark_click arrival_ns
    is_blind rearmed chance random_basis
clicks = refl

detect_batch-Apart_example : Apart floats counter settings (
    click_times floats counter settings photons
      ((detect_batch floats counter settings photons fresh).0))
detect_batch-Apart_example = detect_batch-Apart floats counter settings refl photons fresh

never : (rng : ℕ) → (chance floats counter 0 rng).0 ≡ false
unfolding chance
never rng = ground arith
