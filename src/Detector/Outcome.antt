-- ===== src/Detector/Outcome.antt =====
-- What one measurement gives: the photon's own bit in its own basis, and dark counts alone from vacuum.
use mathlib.Core.Option.{some-injective, none-ne-some}
use qfabric.Prelude.{
  ℕ, ◌≡◌, refl, sym, subst, ◌∙◌, inl, inr, Bool, true, false, Bool-cases, Option, some, arith,
  if◌then◌else◌,
}
use qfabric.Floats.{Floats}
use qfabric.Random.{Generator}
use qfabric.Detector.{
  Photon, DetectionEvent, Settings, Detector, zero_f, chance, own_bit, measured_bit, in_gate,
  real_click, dark_click, dark_bit, measure, is_blind, detect_at, detect_pulse, arrival_ns, dropped,
  registered, blind_event,
}

module _ (f : Floats) (g : Generator f) where
  open g use {Rng}

  own_bit_clean :
      (s : Settings f g) (state : ℕ) (rng : Rng)
      → f.lt (zero_f f g) s.polarization_error ≡ false
      → (own_bit f g s state rng).0 ≡ state
  unfolding own_bit
  own_bit_clean s state rng clean = rw (clean, own_bit) refl

  measured_bit_clean :
      (s : Settings f g) (same : Bool) (state : ℕ) (rng : Rng)
      → f.lt (zero_f f g) s.polarization_error ≡ false
      → same ≡ true
      → (measured_bit f g s same state rng).0 ≡ state
  measured_bit_clean s true state rng clean e = own_bit_clean s state rng clean
  measured_bit_clean s false state rng clean e = absurd (cc)

  dark_bit_kept :
      (dark : Bool) (bit : ℕ) (rng : Rng) → dark ≡ false → (dark_bit f g dark bit rng).0 ≡ bit
  dark_bit_kept false bit rng e = refl
  dark_bit_kept true bit rng e = absurd (cc)

  measure-own :
      (s : Settings f g) (photon : Photon) (p : f.F) (rng : Rng)
      → f.lt (zero_f f g) s.polarization_error ≡ false
      → ((measure f g s photon p rng).0).is_dark_count ≡ false
      → ((measure f g s photon p rng).0).basis ≡ some photon.basis
      → ((measure f g s photon p rng).0).bit_value ≡ photon.state
  unfolding measure
  measure-own s photon p rng clean light own =
      let basis = some-injective _ photon.basis own in
      dark_bit_kept _ _ _ light
      ∙ measured_bit_clean s _ photon.state _ clean (ground (arith, basis))

  -- The two ways through `_detect`.
  pub detect_at_blind :
      (s : Settings f g) (photon : Photon) (p : f.F) (t : Option f.F) (d : Detector f g)
      → is_blind f g s d.blocked_until_ns t ≡ true
      → detect_at f g s photon p t d ≡ dropped f g photon d
  unfolding detect_at
  detect_at_blind s photon p t d e = rw (e, detect_at) refl

  pub detect_at_open :
      (s : Settings f g) (photon : Photon) (p : f.F) (t : Option f.F) (d : Detector f g)
      → is_blind f g s d.blocked_until_ns t ≡ false
      → detect_at f g s photon p t d ≡ registered f g s t d (measure f g s photon p d.rng)
  unfolding detect_at
  detect_at_open s photon p t d e = rw (e, detect_at) refl

  -- What holds of the event of a drop and of a measurement holds of the event of `_detect`.
  event_of :
      (P : DetectionEvent → Type 0) (s : Settings f g) (photon : Photon) (p : f.F) (t : Option f.F)
      (d : Detector f g)
      → P (blind_event f g photon)
      → P ((measure f g s photon p d.rng).0)
      → P ((detect_at f g s photon p t d).0)
  event_of P s photon p t d blind seen = elim (Bool-cases (is_blind f g s d.blocked_until_ns t)) [
    | inl e ↦ subst (λ x. P (x.0)) (sym (detect_at_blind s photon p t d e)) blind
    | inr e ↦ subst (λ x. P (x.0)) (sym (detect_at_open s photon p t d e)) seen
  ]

  abbrev IsOwn : Photon → DetectionEvent → Type 0
  IsOwn photon event =
      event.is_dark_count ≡ false → event.basis ≡ some photon.basis → event.bit_value ≡ photon.state

  -- Without depolarization, a click that is not a dark count and that was measured in the photon's
  -- own basis carries the photon's bit.
  pub detect_at-IsOwn :
      (s : Settings f g) (photon : Photon) (p : f.F) (t : Option f.F) (d : Detector f g)
      → f.lt (zero_f f g) s.polarization_error ≡ false
      → IsOwn photon ((detect_at f g s photon p t d).0)
  detect_at-IsOwn s photon p t d clean =
      event_of (IsOwn photon) s photon p t d (λ light own. absurd (none-ne-some photon.basis own))
        (measure-own s photon p d.rng clean)

  dark_click_none :
      (s : Settings f g) (real : Bool) (rng : Rng)
      → f.lt (zero_f f g) s.dark_count_prob ≡ false
      → (dark_click f g s real rng).0 ≡ false
  unfolding dark_click
  dark_click_none s true rng e = refl
  dark_click_none s false rng e = rw (e, dark_click) refl

  abbrev IsLight : DetectionEvent → Type 0
  IsLight event = event.is_dark_count ≡ false

  -- Without dark counts no click is one.
  pub detect_at_light :
      (s : Settings f g) (photon : Photon) (p : f.F) (t : Option f.F) (d : Detector f g)
      → f.lt (zero_f f g) s.dark_count_prob ≡ false
      → ((detect_at f g s photon p t d).0).is_dark_count ≡ false
  unfolding measure
  detect_at_light s photon p t d e = event_of IsLight s photon p t d refl (dark_click_none s _ _ e)

  in_gate-false :
      (s : Settings f g) (hit : Bool) (rng : Rng) → hit ≡ false → (in_gate f g s hit rng).0 ≡ false
  in_gate-false s false rng e = refl
  in_gate-false s true rng e = absurd (cc)

  if_dark : (dark real : Bool) → real ≡ false → (if dark then true else real) ≡ dark
  if_dark true real e = refl
  if_dark false real e = e

  abbrev IsDark : DetectionEvent → Type 0
  IsDark event = event.detected ≡ event.is_dark_count

  -- An empty pulse clicks exactly when it is a dark count, in any window of the detector, if no draw
  -- is below probability zero.
  detect_pulse_vacuum :
      (s : Settings f g) (photon : Photon) (t : Option f.F) (d : Detector f g)
      → ((rng : Rng) → (chance f g (zero_f f g) rng).0 ≡ false)
      → ((detect_pulse f g s photon 0 t d).0).detected
        ≡ ((detect_pulse f g s photon 0 t d).0).is_dark_count
  unfolding measure real_click detect_pulse
  detect_pulse_vacuum s photon t d never =
      event_of IsDark s photon (zero_f f g) (arrival_ns f g s photon t) d refl
        (if_dark _ _ (in_gate-false s _ _ (never _)))

  -- Every event is about its photon's slot.
  abbrev IsAbout : ℕ → DetectionEvent → Type 0
  IsAbout seq event = event.sequence_num ≡ seq

  pub detect_at-seq :
      (s : Settings f g) (photon : Photon) (p : f.F) (t : Option f.F) (d : Detector f g)
      → ((detect_at f g s photon p t d).0).sequence_num ≡ photon.sequence_num
  unfolding measure
  detect_at-seq s photon p t d = event_of (IsAbout photon.sequence_num) s photon p t d refl refl
