-- ===== src/Eve/Resend.antt =====
-- What Eve leaves of a pulse train, and her counts.
use qfabric.Prelude.{
  ℕ, suc, ◌+◌, ◌≤◌, ◌≡◌, refl, Bool, true, false, List, [], ◌∷◌, length, ◌==◌, arith,
}
use qfabric.Floats.{Floats}
use qfabric.Random.{Generator}
use qfabric.Eve.{Pulse, InterceptResendEve, resent, sent_on, intercept, intercept_pulses}

-- The second pulse is what Eve makes of the first: the same slot and trailing fields, and in the
-- sender's basis also the sender's bit.
pub record IsResent (p q : Pulse) : Type 0 where
  pub same_seq : q.seq ≡ p.seq
  pub same_rest : q.rest ≡ p.rest
  pub right_basis : q.basis ≡ p.basis → q.bit ≡ p.bit

pub AllResent : List Pulse → List Pulse → Type 0
AllResent [] [] = Unit
AllResent [] (q ∷ qs) = ⊥
AllResent (p ∷ ps) [] = ⊥
AllResent (p ∷ ps) (q ∷ qs) = IsResent p q × AllResent ps qs

module _ (f : Floats) (g : Generator f) where
  -- Eve's counts after `n` photons more, in their order.
  pub record IsCounted (before after : InterceptResendEve f g) (n : ℕ) : Type 0 where
    pub seen : after.photons_seen ≡ before.photons_seen + n
    pub intercepted : after.photons_intercepted ≤ before.photons_intercepted + n
    pub matched :
        after.eve_basis_match + before.photons_intercepted
        ≤ before.eve_basis_match + after.photons_intercepted
    pub more_matched : before.eve_basis_match ≤ after.eve_basis_match

  resent_bit :
      (same : Bool) (e_basis basis bit : ℕ) (eve : InterceptResendEve f g) (rng : g.Rng)
      → (e_basis == basis) ≡ same
      → ((resent f g same e_basis bit eve rng).0).0 ≡ basis
      → ((resent f g same e_basis bit eve rng).0).1 ≡ bit
  resent_bit true e_basis basis bit eve rng e h = refl
  resent_bit false e_basis basis bit eve rng e h = absurd (ground (arith, e, h))

  resent_counts :
      (same : Bool) (e_basis bit : ℕ) (eve : InterceptResendEve f g) (rng : g.Rng)
      → IsCounted eve ((resent f g same e_basis bit eve rng).1) 1
  resent_counts true e_basis bit eve rng = record {
    seen = omega arith;
    intercepted = omega arith;
    matched = omega arith;
    more_matched = omega arith;
  }
  resent_counts false e_basis bit eve rng = record {
    seen = omega arith;
    intercepted = omega arith;
    matched = omega arith;
    more_matched = omega arith;
  }

  sent_on_bit :
      (basis bit : ℕ) (eve : InterceptResendEve f g) (p : Bool × g.Rng)
      → ((sent_on f g basis bit eve p).0).0 ≡ basis
      → ((sent_on f g basis bit eve p).0).1 ≡ bit
  sent_on_bit basis bit eve (true, rng) h = refl
  sent_on_bit basis bit eve (false, rng) h = resent_bit _ _ basis bit eve _ refl h

  sent_on_counts :
      (basis bit : ℕ) (eve : InterceptResendEve f g) (p : Bool × g.Rng)
      → IsCounted eve ((sent_on f g basis bit eve p).1) 1
  sent_on_counts basis bit eve (true, rng) = record {
    seen = omega arith;
    intercepted = omega arith;
    matched = omega arith;
    more_matched = omega arith;
  }
  sent_on_counts basis bit eve (false, rng) = resent_counts _ _ bit eve _

  counts_add :
      (a b c : InterceptResendEve f g) (n : ℕ)
      → IsCounted a b 1
      → IsCounted b c n
      → IsCounted a c (suc n)
  counts_add a b c n h k = record {
    seen = omega (arith, h.seen, k.seen);
    intercepted = omega (arith, h.intercepted, k.intercepted);
    matched = omega (arith, h.matched, k.matched);
    more_matched = omega (arith, h.more_matched, k.more_matched);
  }

  -- Whatever Eve draws: each pulse keeps its slot and its trailing fields, none is lost or added, one
  -- that leaves in the sender's basis carries the sender's bit; she counts every pulse, and counts no
  -- more intercepted than there were and no more in the right basis than intercepted.
  pub intercept_pulses-IsResent :
      (pulses : List Pulse) (eve : InterceptResendEve f g)
      → AllResent pulses ((intercept_pulses f g pulses eve).0)
        × IsCounted eve ((intercept_pulses f g pulses eve).1) (length pulses)
  unfolding intercept_pulses intercept AllResent
  intercept_pulses-IsResent [] eve = (
    tt,
    record {
      seen = omega arith;
      intercepted = omega arith;
      matched = omega arith;
      more_matched = omega arith;
    },
  )
  intercept_pulses-IsResent (p ∷ pulses) eve =
      let (resent, counted) =
        intercept_pulses-IsResent pulses ((intercept f g p.basis p.bit eve).1) in
      (
        (
          record {
            same_seq = refl;
            same_rest = refl;
            right_basis = sent_on_bit p.basis p.bit eve _;
          },
          resent,
        ),
        counts_add eve _ _ _ (sent_on_counts p.basis p.bit eve _) counted,
      )
