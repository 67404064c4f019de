-- ===== src/Detector.antt =====
-- qne/detector.py: the single-photon detector, over a generator's draws. Its settings are arguments,
-- its state is the generator, the end of the blind window (none for -inf) and the count of drops.
pub mod Outcome
pub mod DeadTime
mod Tests
use qfabric.Prelude.{
  ℕ, zero, suc, Bool, true, false, ◌&&◌, not, Option, none, some, List, [], ◌∷◌, ◌==◌,
  if◌then◌else◌,
}
use qfabric.Floats.{Floats}
use qfabric.Random.{Generator}

-- The fields of a photon that the detector reads.
pub record Photon : Type 0 where
  pub sequence_num : ℕ
  pub basis : ℕ
  pub state : ℕ

-- The basis is none for the -1 of a blind detector.
pub record DetectionEvent : Type 0 where
  pub sequence_num : ℕ
  pub detected : Bool
  pub basis : Option ℕ
  pub bit_value : ℕ
  pub is_dark_count : Bool
  pub basis_match : Bool
  pub is_dead_time : Bool

module _ (f : Floats) (g : Generator f) where
  open f use {F, ratio, le, lt, add, sub, mul, div, abs_f, pow}
  open g use {Rng, random, integers, normal}

  abbrev pub zero_f : F
  zero_f = ratio 0 1

  -- What `__init__` is given; `dark_count_prob` is the rate times the window.
  pub record Settings : Type 0 where
    pub efficiency : F
    pub dark_count_prob : F
    pub detection_window : F
    pub polarization_error : F
    pub basis_bias : F
    pub dead_time : F
    pub timing_jitter : F
    pub pulse_period_ns : F

  pub record Detector : Type 0 where
    pub rng : Rng
    pub blocked_until_ns : Option F
    pub dead_time_drops : ℕ

  abbrev pub new_detector : Rng → Detector
  new_detector rng = record { rng = rng; blocked_until_ns = none; dead_time_drops = 0 }

  -- `rng.random() < p`
  unfoldable pub chance : F → Rng → Bool × Rng
  chance p rng = let (x, rng₁) = random rng in (lt x p, rng₁)

  -- `0 if rng.random() < basis_bias else 1`
  unfoldable pub random_basis : F → Rng → ℕ × Rng
  random_basis bias rng = let (z, rng₁) = chance bias rng in (if z then 0 else 1, rng₁)

  unfoldable pub arrival_ns : Settings → Photon → Option F → Option F
  arrival_ns s photon (some t) = some t
  arrival_ns s photon none =
      if lt zero_f s.pulse_period_ns
      then some (mul (ratio photon.sequence_num 1) s.pulse_period_ns)
      else none

  -- `self.dead_time > 0 and t_ns is not None and t_ns < self._blocked_until_ns`
  unfoldable pub is_blind : Settings → Option F → Option F → Bool
  is_blind s until none = false
  is_blind s none (some t) = false
  is_blind s (some until) (some t) = lt zero_f s.dead_time && lt t until

  abbrev pub depolarized : Bool → ℕ → Rng → ℕ × Rng
  depolarized false state rng = (state, rng)
  depolarized true state rng = integers 0 2 rng

  -- The bit of a photon that is measured in its own basis.
  pub own_bit : Settings → ℕ → Rng → ℕ × Rng
  own_bit s state rng = elim (lt zero_f s.polarization_error) [
    | false ↦ (state, rng)
    | true ↦ let (flip, rng₁) = chance s.polarization_error rng in depolarized flip state rng₁
  ]

  abbrev pub measured_bit : Settings → Bool → ℕ → Rng → ℕ × Rng
  measured_bit s true state rng = own_bit s state rng
  measured_bit s false state rng = integers 0 2 rng

  -- A click whose timing error falls outside the gate is discarded.
  abbrev pub in_gate : Settings → Bool → Rng → Bool × Rng
  in_gate s false rng = (false, rng)
  in_gate s true rng = elim (lt zero_f s.timing_jitter) [
    | false ↦ (true, rng)
    | true ↦
        let (x, rng₁) = normal zero_f s.timing_jitter rng in
        (le (abs_f x) (div (mul s.detection_window (ratio 1000000000 1)) (ratio 2 1)), rng₁)
  ]

  pub real_click : Settings → F → Rng → Bool × Rng
  real_click s p_detect rng = let (hit, rng₁) = chance p_detect rng in in_gate s hit rng₁

  pub dark_click : Settings → Bool → Rng → Bool × Rng
  dark_click s true rng = (false, rng)
  dark_click s false rng = elim (lt zero_f s.dark_count_prob) [
    | false ↦ (false, rng)
    | true ↦ chance s.dark_count_prob rng
  ]

  abbrev pub dark_bit : Bool → ℕ → Rng → ℕ × Rng
  dark_bit true bit rng = integers 0 2 rng
  dark_bit false bit rng = (bit, rng)

  -- `_detect` after the dead-time gate: the event, and the generator after its draws.
  pub measure : Settings → Photon → F → Rng → DetectionEvent × Rng
  measure s photon p_detect rng =
      let (meas_basis, rng₁) = random_basis s.basis_bias rng in
      let same = meas_basis == photon.basis in
      let (bit, rng₂) = measured_bit s same photon.state rng₁ in
      let (real, rng₃) = real_click s p_detect rng₂ in
      let (dark, rng₄) = dark_click s real rng₃ in
      let (value, rng₅) = dark_bit dark bit rng₄ in
      (
        record {
          sequence_num = photon.sequence_num;
          detected = if dark then true else real;
          basis = some meas_basis;
          bit_value = value;
          is_dark_count = dark;
          basis_match = same;
          is_dead_time = false;
        },
        rng₅,
      )

  abbrev pub blind_event : Photon → DetectionEvent
  blind_event photon = record {
    sequence_num = photon.sequence_num;
    detected = false;
    basis = none;
    bit_value = 0;
    is_dark_count = false;
    basis_match = false;
    is_dead_time = true;
  }

  abbrev pub later : Settings → F → Option F
  later s t = some (add t s.dead_time)

  -- A click re-arms the dead-time window.
  unfoldable pub rearmed : Settings → Option F → Bool → Option F → Option F
  rearmed s none detected until = until
  rearmed s (some t) detected until = if detected && lt zero_f s.dead_time then later s t else until

  abbrev pub dropped : Photon → Detector → DetectionEvent × Detector
  dropped photon d = (
    blind_event photon,
    record {
      rng = d.rng;
      blocked_until_ns = d.blocked_until_ns;
      dead_time_drops = suc d.dead_time_drops;
    },
  )

  abbrev pub registered :
      Settings → Option F → Detector → DetectionEvent × Rng → DetectionEvent × Detector
  registered s t d (event, rng) = (
    event,
    record {
      rng = rng;
      blocked_until_ns = rearmed s t event.detected d.blocked_until_ns;
      dead_time_drops = d.dead_time_drops;
    },
  )

  -- `_detect`
  pub detect_at : Settings → Photon → F → Option F → Detector → DetectionEvent × Detector
  detect_at s photon p_detect t d = elim (is_blind s d.blocked_until_ns t) [
    | true ↦ dropped photon d
    | false ↦ registered s t d (measure s photon p_detect d.rng)
  ]

  unfoldable pub detect : Settings → Photon → Option F → Detector → DetectionEvent × Detector
  detect s photon t = detect_at s photon s.efficiency (arrival_ns s photon t)

  -- `0.0 if n_photons <= 0 else 1.0 - (1.0 - self.efficiency) ** n_photons`
  abbrev pub pulse_probability : Settings → ℕ → F
  pulse_probability s n_photons =
      if n_photons == 0
      then zero_f
      else sub (ratio 1 1) (pow (sub (ratio 1 1) s.efficiency) n_photons)

  unfoldable pub detect_pulse :
      Settings → Photon → ℕ → Option F → Detector → DetectionEvent × Detector
  detect_pulse s photon n_photons t =
      detect_at s photon (pulse_probability s n_photons) (arrival_ns s photon t)

  unfoldable pub detect_batch : Settings → List Photon → Detector → List DetectionEvent × Detector
  detect_batch s [] d = ([], d)
  detect_batch s (photon ∷ photons) d =
      let (event, d₁) = detect s photon none d in
      let (events, d₂) = detect_batch s photons d₁ in (event ∷ events, d₂)

  -- `generate_dark_counts`, from slot `slot` on with `left` slots to go
  pub dark_counts_from : F → ℕ → ℕ → Rng → List ℕ × Rng
  dark_counts_from p slot zero rng = ([], rng)
  dark_counts_from p slot (suc left) rng =
      let (dark, rng₁) = chance p rng in
      let (slots, rng₂) = dark_counts_from p (suc slot) left rng₁ in
      (if dark then slot ∷ slots else slots, rng₂)

  pub generate_dark_counts : Settings → ℕ → Detector → List ℕ × Detector
  generate_dark_counts s num_slots d =
      let (slots, rng) = dark_counts_from s.dark_count_prob 0 num_slots d.rng in
      (
        slots,
        record {
          rng = rng;
          blocked_until_ns = d.blocked_until_ns;
          dead_time_drops = d.dead_time_drops;
        },
      )
