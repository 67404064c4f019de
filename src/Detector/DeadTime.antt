-- ===== src/Detector/DeadTime.antt =====
-- The dead time keeps the clicks of a batch apart.
use qfabric.Prelude.{
  ◌≡◌, refl, sym, subst, inl, inr, Bool, true, false, Bool-cases, Option, none, some, List, [], ◌∷◌,
  arith, if◌then◌else◌,
}
use qfabric.Floats.{Floats}
use qfabric.Random.{Generator}
use qfabric.Detector.{
  Photon, DetectionEvent, Settings, Detector, zero_f, is_blind, detect_at, detect, detect_batch,
  arrival_ns, rearmed, later,
}
use qfabric.Detector.Outcome.{detect_at_blind, detect_at_open}

module _ (f : Floats) (g : Generator f) (s : Settings f g) where
  abbrev click_at : Bool → Option f.F → List f.F → List f.F
  click_at detected none times = times
  click_at detected (some t) times = if detected then t ∷ times else times

  -- The times of the clicks of a batch.
  unfoldable pub click_times : List Photon → List DetectionEvent → List f.F
  click_times [] events = []
  click_times (photon ∷ photons) [] = []
  click_times (photon ∷ photons) (event ∷ events) =
      click_at event.detected (arrival_ns f g s photon none) (click_times photons events)

  -- No click lies before the end of the window of the click before it.
  pub Apart : List f.F → Type 0
  Apart [] = Unit
  Apart (t ∷ []) = Unit
  Apart (t ∷ u ∷ times) = (f.lt u (f.add t s.dead_time) ≡ false) × Apart (u ∷ times)

  -- The detector is blind until the window of its last click ends.
  abbrev From : Option f.F → List f.F → Type 0
  From none times = Apart times
  From (some until) [] = Unit
  From (some until) (u ∷ times) = (f.lt u until ≡ false) × Apart (u ∷ times)

  From-Apart : (until : Option f.F) (times : List f.F) → From until times → Apart times
  unfolding Apart
  From-Apart none times h = h
  From-Apart (some until) [] h = tt
  From-Apart (some until) (u ∷ times) h = h.1

  From-later : (t : f.F) (times : List f.F) → From (later f g s t) times → Apart (t ∷ times)
  unfolding Apart
  From-later t [] h = tt
  From-later t (u ∷ times) h = h

  module _ (dead : f.lt (zero_f f g) s.dead_time ≡ true) where
    From-click :
        (until : Option f.F) (t : f.F) (times : List f.F)
        → is_blind f g s until (some t) ≡ false
        → Apart (t ∷ times)
        → From until (t ∷ times)
    unfolding is_blind
    From-click none t times free h = h
    From-click (some until) t times free h = (ground (arith, free, dead), h)

    rearmed_click :
        (t : f.F) (until : Option f.F) → rearmed f g s (some t) true until ≡ later f g s t
    unfolding rearmed
    rearmed_click t until = rw dead refl

    -- A slot that is measured.
    From-measured :
        (t : Option f.F) (detected : Bool) (times : List f.F) (until : Option f.F)
        → is_blind f g s until t ≡ false
        → From (rearmed f g s t detected until) times
        → From until (click_at detected t times)
    unfolding rearmed
    From-measured none detected times until free h = h
    From-measured (some t) false times until free h = h
    From-measured (some t) true times until free h =
        From-click until t times free
          (From-later t times (subst (λ x. From x times) (rearmed_click t until) h))

    click_none : (t : Option f.F) (times : List f.F) → click_at false t times ≡ times
    click_none none times = refl
    click_none (some t) times = refl

    From-detect :
        (photon : Photon) (p : f.F) (t : Option f.F) (d : Detector f g) (times : List f.F)
        → From ((detect_at f g s photon p t d).1).blocked_until_ns times
        → From d.blocked_until_ns (click_at ((detect_at f g s photon p t d).0).detected t times)
    From-detect photon p t d times =
        let kept : DetectionEvent × Detector f g → Type 0 = λ x.
          From (x.1).blocked_until_ns times
          → From d.blocked_until_ns (click_at (x.0).detected t times) in
        elim (Bool-cases (is_blind f g s d.blocked_until_ns t)) [
          | inl e ↦
              subst kept (sym (detect_at_blind f g s photon p t d e))
                (subst (From d.blocked_until_ns) (sym (click_none t times)))
          | inr e ↦
              subst kept (sym (detect_at_open f g s photon p t d e))
                (From-measured t _ times d.blocked_until_ns e)
        ]

    From-nil : (until : Option f.F) → From until []
    unfolding Apart
    From-nil none = tt
    From-nil (some until) = tt

    From-batch :
        (photons : List Photon) (d : Detector f g)
        → From d.blocked_until_ns (click_times photons ((detect_batch f g s photons d).0))
    unfolding detect_batch click_times detect
    From-batch [] d = From-nil d.blocked_until_ns
    From-batch (photon ∷ photons) d =
        From-detect photon s.efficiency (arrival_ns f g s photon none) d _
          (From-batch photons ((detect f g s photon none d).1))

    -- For a positive dead time, whatever photons a batch has and whatever the generator draws: each
    -- click that has a time lies outside the dead window of the click before it.
    pub detect_batch-Apart :
        (photons : List Photon) (d : Detector f g)
        → Apart (click_times photons ((detect_batch f g s photons d).0))
    detect_batch-Apart photons d = From-Apart d.blocked_until_ns _ (From-batch photons d)
