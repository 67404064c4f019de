-- ===== src/DistributedQkd/Tests.antt =====
-- A train of four slots: one pulse early, one repeated, one lost, one stray.
use mathlib.Core.List.{flatten}
use qfabric.Prelude.{ℕ, ◌+◌, ◌≡◌, refl, false, some, List, [], ◌∷◌}
use qfabric.Floats.Hundredths.{floats}
use qfabric.Random.Counter.{counter}
use qfabric.Detector.{Settings, new_detector}
use qfabric.Eve.{Pulse, new_eve}
use qfabric.DistributedQkd.{
  Bob, begin_photon_pulse, receive_qubits, finalize_detections, intercepted,
}
use qfabric.DistributedQkd.Slots.{deliver, outcome, finalize_detections-in_order}
use qfabric.DistributedQkd.InOrder.{in_order}
use qfabric.DistributedQkd.Accounts.{Reached, begun, delivered, IsAccounted, Reached-IsAccounted}

abbrev settings : ℕ → Settings floats counter
settings dead_time = record {
  efficiency = 95;
  dark_count_prob = 0;
  detection_window = 100;
  polarization_error = 0;
  basis_bias = 50;
  dead_time = dead_time;
  timing_jitter = 0;
  pulse_period_ns = 2000;
}

abbrev pulse : ℕ → Pulse
pulse n = record { seq = n; basis = 0; bit = 1; rest = [] }

abbrev idle : Bob floats counter
idle = record {
  working = false;
  records = [];
  seen = [];
  pending = [];
  duplicates = 0;
  out_of_range = 0;
  pre_begin_pulses = pulse 2 ∷ [];
  eavesdropper = some (new_eve floats counter 50 0);
  detector = new_detector floats counter 0;
}

abbrev deliveries : List (List Pulse)
deliveries = (pulse 0 ∷ pulse 2 ∷ []) ∷ (pulse 9 ∷ []) ∷ (pulse 1 ∷ []) ∷ []

finalize_detections-in_order_example :
    outcome floats counter (settings 3000) (
      finalize_detections floats counter (settings 3000) 4 (
        deliver floats counter
          (settings 3000)
          deliveries
          (begin_photon_pulse floats counter (settings 3000) idle)))
    ≡ in_order floats counter
        (settings 3000)
        ((intercepted floats counter idle.eavesdropper
          (pulse 2 ∷ pulse 0 ∷ pulse 2 ∷ pulse 9 ∷ pulse 1 ∷ [])).0)
        0
        4
        ([], idle.detector)
unfolding flatten
finalize_detections-in_order_example =
    finalize_detections-in_order floats counter (settings 3000) refl deliveries 4 idle

abbrev running : Bob floats counter
running =
    receive_qubits floats counter (settings 0) (pulse 0 ∷ pulse 2 ∷ [])
      (begin_photon_pulse floats counter (settings 0) idle)

reached : Reached floats counter (settings 0) (1 + 2) running
reached = delivered 1 _ (pulse 0 ∷ pulse 2 ∷ []) (begun idle)

Reached-IsAccounted_example : IsAccounted floats counter (settings 0) 3 running
Reached-IsAccounted_example = Reached-IsAccounted floats counter (settings 0) 3 running reached
