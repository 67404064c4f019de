-- ===== src/Exchange/Ideal.antt =====
-- On a channel without noise the two sifted keys are equal, whatever is lost.
use qfabric.Prelude.{
  ℕ, zero, suc, ◌≡◌, refl, sym, ◌∙◌, ap, subst, inl, inr, Bool, true, false, Bool-cases, Option,
  none, some, List, [], ◌∷◌, ◌++◌, arith, append-nil, if◌then◌else◌,
}
use qfabric.Prelude.Result.{ok, ok-injective}
use qfabric.Prelude.Maps.{lookup}
use qfabric.Prelude.Elem.{elem}
use qfabric.Floats.{Floats}
use qfabric.Random.{Generator, IsGenerator}
use qfabric.Privacy.{Numpy}
use qfabric.Detector.{Photon, DetectionEvent, Settings, Detector, zero_f, chance, detect}
use qfabric.Detector.Outcome.{detect_at-IsOwn, detect_at_light, detect_at-seq}
use qfabric.Sifting.{Record}
use qfabric.Exchange.Alice.{sent_by_seq}
use qfabric.Exchange.Bob.{
  record_of, recorded, detect_photons, dark_record, fill_dark, slots_of, receive_photons,
}
use qfabric.Exchange.Matching.{index_detections}
use qfabric.Exchange.Run.{Options, Sifted, sift_exchange}
use qfabric.Exchange.Keys.{sift_exchange-IsShared}
use qfabric.Exchange.Clean.{AllFaithful, AllSent, IsFaithfulDict-index, bits_at_same, same_bits}

module _ (f : Floats) (g : Generator f) (settings : Settings f g)
    (no_depolarization : f.lt (zero_f f g) settings.polarization_error ≡ false)
    (no_darks : f.lt (zero_f f g) settings.dark_count_prob ≡ false)
    (never : (rng : g.Rng) → (chance f g settings.dark_count_prob rng).0 ≡ false) where
  recorded-faithful :
      (sent : List (ℕ × Record)) (p : Photon) (event : DetectionEvent) (basis : Option ℕ)
      (log : List Record)
      → event.basis ≡ basis
      → event.sequence_num ≡ p.sequence_num
      → (event.basis ≡ some p.basis → event.bit_value ≡ p.state)
      → ((a : Record) × (lookup p.sequence_num sent ≡ some a)
          × (a.basis ≡ p.basis)
          × (a.bit_value ≡ p.state))
      → AllFaithful sent log
      → AllFaithful sent (recorded f g event basis log)
  recorded-faithful sent p event none log e seq own s all = all
  recorded-faithful sent p event (some b) log e seq own (a, at, basis, bit) all =
      kept event.detected
    where
      kept :
          (detected : Bool)
          → AllFaithful sent (if detected then record_of f g event b ∷ log else log)
      kept false = all
      kept true = (
        (
          a,
          subst (λ (k : ℕ). lookup k sent ≡ some a) (sym seq) at,
          λ same. bit ∙ sym (own (e ∙ ap some (sym same ∙ basis))),
        ),
        all,
      )

  detect_photons-faithful :
      (sent : List (ℕ × Record)) (photons : List Photon) (d : Detector f g)
      → AllSent sent photons
      → AllFaithful sent ((detect_photons f g settings photons d).0)
  unfolding detect_photons detect AllSent
  detect_photons-faithful sent [] d h = tt
  detect_photons-faithful sent (p ∷ photons) d (here, rest) =
      let event = (detect f g settings p none d).0 in
      recorded-faithful sent p event event.basis _ refl (detect_at-seq f g settings p _ _ d)
        (detect_at-IsOwn f g settings p _ _ d no_depolarization
          (detect_at_light f g settings p _ _ d no_darks))
        here (detect_photons-faithful sent photons _ rest)

  -- No empty slot counts.
  dark_record-none :
      (bias : f.F) (seq : ℕ) (x : Bool × g.Rng)
      → x.0 ≡ false
      → (dark_record f g bias seq x).0 ≡ none
  dark_record-none bias seq (false, rng) e = refl
  dark_record-none bias seq (true, rng) e = absurd (cc)

  fill_dark_none :
      (seen : List ℕ) (seq left : ℕ) (rng : g.Rng)
      → (fill_dark f g settings seen seq left rng).0 ≡ []
  unfolding fill_dark
  fill_dark_none seen seq zero rng = refl
  fill_dark_none seen seq (suc left) rng = elim (Bool-cases (elem seq seen)) [
    | inl e ↦ rw (fill_dark, e) (fill_dark_none seen (suc seq) left rng)
    | inr e ↦
        rw
          (
            fill_dark,
            e,
            dark_record-none settings.basis_bias seq (chance f g settings.dark_count_prob rng)
                (never rng),
          )
          (fill_dark_none seen (suc seq) left _)
  ]

  receive_photons-faithful :
      (sent : List (ℕ × Record)) (num_photons : ℕ) (photons : List Photon) (d : Detector f g)
      → AllSent sent photons
      → AllFaithful sent ((receive_photons f g settings num_photons photons d).0)
  unfolding receive_photons
  receive_photons-faithful sent num_photons photons d h =
      subst (AllFaithful sent)
        (sym (
          ap (λ t. (detect_photons f g settings photons d).0 ++ t)
            (fill_dark_none (slots_of f g photons) 0 num_photons _)
          ∙ append-nil _))
        (detect_photons-faithful sent photons d h)

  -- For a detector without depolarization and dark counts, when what arrives are photons that Alice
  -- sent, in any order and with any losses and repetitions: the exchange returns, and Alice's sifted
  -- key is Bob's.
  pub ideal-same_key :
      (np : Numpy) (o : Options f g np) (sent_log : List Record) (num_photons : ℕ)
      (photons : List Photon) (d : Detector f g) (rng : g.Rng)
      → IsGenerator f g
      → AllSent (sent_by_seq sent_log) photons
      → let log = (receive_photons f g settings num_photons photons d).0 in
        (s : Sifted f g np) × (sift_exchange f g np o sent_log log rng ≡ ok s)
        × (s.alice_key ≡ s.bob_key)
  ideal-same_key np o sent_log num_photons photons d rng laws all =
      let log = (receive_photons f g settings num_photons photons d).0 in
      let (s, e, shared) = sift_exchange-IsShared f g np o sent_log log rng laws in
      let sent = sent_by_seq sent_log in
      let faithful =
        IsFaithfulDict-index sent log [] (receive_photons-faithful sent num_photons photons d all)
          (λ i r none_there. absurd (unfold lookup in cc)) in
      (
        s,
        e,
        ok-injective s.alice_key s.bob_key (
            sym shared.alice_bits
            ∙ bits_at_same sent (index_detections log []) s.bob_order (λ i m.
              same_bits sent (index_detections log []) faithful i
                (shared.matched i (ground (arith, m, shared.undisclosed i))))
            ∙ shared.bob_bits),
      )
