-- ===== src/Eve.antt =====
-- qne/eve.py: the intercept-resend eavesdropper.
pub mod Resend
mod Tests
use qfabric.Prelude.{ℕ, suc, Bool, true, false, ◌||◌, not, List, [], ◌∷◌, ◌==◌, if◌then◌else◌}
use qfabric.Floats.{Floats}
use qfabric.Random.{Generator}

-- `[seq, basis, bit, *rest]`
pub record Pulse : Type 0 where
  pub seq : ℕ
  pub basis : ℕ
  pub bit : ℕ
  pub rest : List ℕ

module _ (f : Floats) (g : Generator f) where
  open f use {F, ratio, le, lt, mul, max_f, min_f}
  open g use {Rng, random, integers}

  pub record InterceptResendEve : Type 0 where
    pub fraction : F
    pub rng : Rng
    pub photons_seen : ℕ
    pub photons_intercepted : ℕ
    pub eve_basis_match : ℕ

  abbrev clamped : F → F
  clamped x = max_f (ratio 0 1) (min_f (ratio 1 1) x)

  -- `0.25 * max(0.0, min(1.0, intercept_fraction))`
  pub expected_sifted_qber : F → F
  expected_sifted_qber intercept_fraction = mul (ratio 1 4) (clamped intercept_fraction)

  abbrev pub new_eve : F → Rng → InterceptResendEve
  new_eve intercept_fraction rng = record {
    fraction = clamped intercept_fraction;
    rng = rng;
    photons_seen = 0;
    photons_intercepted = 0;
    eve_basis_match = 0;
  }

  -- `self.f <= 0.0 or self.rng.random() >= self.f`, which draws only if the first test fails
  unfoldable pub passes : F → Rng → Bool × Rng
  passes fraction rng = elim (le fraction (ratio 0 1)) [
    | true ↦ (true, rng)
    | false ↦ let (x, rng₁) = random rng in (le fraction x, rng₁)
  ]

  abbrev pub untouched : ℕ → ℕ → InterceptResendEve → Rng → (ℕ × ℕ) × InterceptResendEve
  untouched basis bit eve rng = (
    (basis, bit),
    record {
      fraction = eve.fraction;
      rng = rng;
      photons_seen = suc eve.photons_seen;
      photons_intercepted = eve.photons_intercepted;
      eve_basis_match = eve.eve_basis_match;
    },
  )

  -- What Eve resends, having measured in the basis `e_basis`, which is Alice's or not.
  abbrev pub resent : Bool → ℕ → ℕ → InterceptResendEve → Rng → (ℕ × ℕ) × InterceptResendEve
  resent true e_basis bit eve rng = (
    (e_basis, bit),
    record {
      fraction = eve.fraction;
      rng = rng;
      photons_seen = suc eve.photons_seen;
      photons_intercepted = suc eve.photons_intercepted;
      eve_basis_match = suc eve.eve_basis_match;
    },
  )
  resent false e_basis bit eve rng =
      let (e_bit, rng₁) = integers 0 2 rng in
      (
        (e_basis, e_bit),
        record {
          fraction = eve.fraction;
          rng = rng₁;
          photons_seen = suc eve.photons_seen;
          photons_intercepted = suc eve.photons_intercepted;
          eve_basis_match = eve.eve_basis_match;
        },
      )

  abbrev pub tapped : ℕ → ℕ → InterceptResendEve → Rng → (ℕ × ℕ) × InterceptResendEve
  tapped basis bit eve rng =
      let (e_basis, rng₁) = integers 0 2 rng in resent (e_basis == basis) e_basis bit eve rng₁

  abbrev pub sent_on : ℕ → ℕ → InterceptResendEve → Bool × Rng → (ℕ × ℕ) × InterceptResendEve
  sent_on basis bit eve (true, rng) = untouched basis bit eve rng
  sent_on basis bit eve (false, rng) = tapped basis bit eve rng

  unfoldable pub intercept : ℕ → ℕ → InterceptResendEve → (ℕ × ℕ) × InterceptResendEve
  intercept basis bit eve = sent_on basis bit eve (passes eve.fraction eve.rng)

  unfoldable pub intercept_pulses :
      List Pulse → InterceptResendEve → List Pulse × InterceptResendEve
  intercept_pulses [] eve = ([], eve)
  intercept_pulses (p ∷ pulses) eve =
      let ((basis, bit), eve₁) = intercept p.basis p.bit eve in
      let (later, eve₂) = intercept_pulses pulses eve₁ in
      (record { seq = p.seq; basis = basis; bit = bit; rest = p.rest } ∷ later, eve₂)
