-- ===== src/DistributedQkd/Slots.antt =====
-- With a dead time, what Bob has on record at the end is what a detector records that is shown the
-- slots one after the other, each with the first pulse that came for it.
use mathlib.Core.List.{flatten}
use qfabric.Prelude.{
  ℕ, ◌<◌, ◌≡◌, refl, sym, ◌∙◌, ap, subst, inl, inr, Bool, true, false, ◌&&◌, Bool-cases, Option,
  none, some, List, [], ◌∷◌, ◌++◌, arith, if◌then◌else◌, append_assoc, append-nil,
}
use qfabric.Prelude.Maps.{lookup}
use qfabric.Prelude.Elem.{elem}
use qfabric.Floats.{Floats}
use qfabric.Random.{Generator}
use qfabric.Detector.{Settings, Detector, zero_f}
use qfabric.Eve.{Pulse, InterceptResendEve, intercept_pulses}
use qfabric.DistributedQkd.{
  Records, strays, remove_all, is_empty, Bob, receive_pulse, receive_pulses, intercepted, take_in,
  receive_qubits, reset, begin_photon_pulse, finalize_slots, finalize_detections,
}
use qfabric.DistributedQkd.Parked.{
  first, intercepted-append, IsParked, receive_pulse-again, receive_pulse-new,
  receive_pulses-IsParked,
}
use qfabric.DistributedQkd.InOrder.{
  remove_all-below, remove_all-nil, is_empty-lookup, first_none, lookup_none, in_order,
  finalize_slots-in_order, in_order-idle,
}

module _ (f : Floats) (g : Generator f) (s : Settings f g) where
  abbrev pub outcome : Bob f g → Records × Detector f g
  outcome b = (b.records, b.detector)

  outcome_if :
      (c : Bool) (x y : Bob f g) (r : Records × Detector f g)
      → (c ≡ true → outcome x ≡ r)
      → (c ≡ false → outcome y ≡ r)
      → outcome (if c then x else y) ≡ r
  outcome_if true x y r yes_case no_case = yes_case refl
  outcome_if false x y r yes_case no_case = no_case refl

  finalize-parked :
      (d : Detector f g) (pulses : List Pulse) (n : ℕ) (b : Bob f g)
      → IsParked f g s d pulses b
      → outcome (finalize_detections f g s n b) ≡ in_order f g s pulses 0 n ([], d)
  unfolding finalize_detections
  finalize-parked d pulses n b h =
      let pending = remove_all (strays n b.seen) b.pending in
      let parked : (i : ℕ) → i < n → lookup i pending ≡ first i pulses =
        λ i less. remove_all-below n i b.seen b.pending less ∙ h.parked i in
      let start : ◌≡◌ {A = Records × Detector f g}
          (remove_all (strays n b.seen) b.records, b.detector) ([], d) =
        ap (λ r. (remove_all (strays n b.seen) r, b.detector)) h.records
        ∙ ap (λ r. (r, b.detector)) (remove_all-nil (strays n b.seen))
        ∙ ap (λ x. ([], x)) h.detector in
      outcome_if (is_empty pending && f.le s.dark_count_prob (zero_f f g)) _ _ _
        (λ c.
          start
          ∙ sym (
              in_order-idle f g s pulses n 0 n ([], d) (omega arith)
                (λ i less. sym (parked i less) ∙ is_empty-lookup i pending (ground (arith, c)))
                (ground (arith, c))))
        (λ c.
          ap (finalize_slots f g s b.seen pending 0 n) start
          ∙ finalize_slots-in_order f g s b.seen pending pulses n 0 n ([], d) (omega arith) parked
              h.seen)

  -- The calls of `receive_qubits`, one for each delivery.
  pub deliver : List (List Pulse) → Bob f g → Bob f g
  deliver [] b = b
  deliver (pulses ∷ rest) b = deliver rest (receive_qubits f g s pulses b)

  module _ (dead : f.lt (zero_f f g) s.dead_time ≡ true) where
    -- All that has been delivered since the train began, as Eve left it.
    IsReached : Option (InterceptResendEve f g) → Detector f g → List Pulse → Bob f g → Type 0
    IsReached eve d sent b =
        IsParked f g s d ((intercepted f g eve sent).0) b
        × (b.eavesdropper ≡ (intercepted f g eve sent).1)

    receive_pulse-eve :
        (p : Pulse) (b : Bob f g) → (receive_pulse f g s p b).eavesdropper ≡ b.eavesdropper
    receive_pulse-eve p b = elim (Bool-cases (elem p.seq b.seen)) [
      | inl e ↦ ap (λ (x : Bob f g). x.eavesdropper) (receive_pulse-again f g s dead p b e)
      | inr e ↦ ap (λ (x : Bob f g). x.eavesdropper) (receive_pulse-new f g s dead p b e)
    ]

    receive_pulses-eve :
        (pulses : List Pulse) (b : Bob f g)
        → (receive_pulses f g s pulses b).eavesdropper ≡ b.eavesdropper
    unfolding receive_pulses
    receive_pulses-eve [] b = refl
    receive_pulses-eve (p ∷ pulses) b =
        receive_pulses-eve pulses (receive_pulse f g s p b) ∙ receive_pulse-eve p b

    receive_qubits-working :
        (pulses : List Pulse) (b : Bob f g)
        → b.working ≡ true
        → receive_qubits f g s pulses b ≡ take_in f g s b (intercepted f g b.eavesdropper pulses)
    unfolding receive_qubits
    receive_qubits-working pulses b e = rw (receive_qubits, e) refl

    receive_qubits-IsReached :
        (eve : Option (InterceptResendEve f g)) (d : Detector f g) (sent pulses : List Pulse)
        (b : Bob f g)
        → IsReached eve d sent b
        → IsReached eve d (sent ++ pulses) (receive_qubits f g s pulses b)
    unfolding IsReached
    receive_qubits-IsReached eve d sent pulses b (h, e) =
        let (before, eve₁) = intercepted f g eve sent in
        let (now, eve₂) = intercepted f g eve₁ pulses in
        let ready : IsParked f g s d before (record b { eavesdropper = eve₂ }) = record {
          working = h.working;
          records = h.records;
          detector = h.detector;
          parked = h.parked;
          seen = h.seen;
        } in
        let run : receive_qubits f g s pulses b ≡ take_in f g s b (now, eve₂) =
          receive_qubits-working pulses b h.working
          ∙ ap (λ v. take_in f g s b (intercepted f g v pulses)) e in
        subst
          (λ x.
            IsParked f g s d (x.0) (receive_qubits f g s pulses b)
            × ((receive_qubits f g s pulses b).eavesdropper ≡ x.1))
          (sym (intercepted-append f g s eve sent pulses))
          (subst (λ y. IsParked f g s d (before ++ now) y × (y.eavesdropper ≡ eve₂)) (sym run)
            (
              receive_pulses-IsParked f g s dead d before now (record b { eavesdropper = eve₂ })
                  ready,
              receive_pulses-eve now (record b { eavesdropper = eve₂ }),
            ))

    deliver-IsReached :
        (eve : Option (InterceptResendEve f g)) (d : Detector f g) (sent : List Pulse)
        (deliveries : List (List Pulse)) (b : Bob f g)
        → IsReached eve d sent b
        → IsReached eve d (sent ++ flatten deliveries) (deliver deliveries b)
    unfolding deliver flatten
    deliver-IsReached eve d sent [] b h = rw (append-nil sent) h
    deliver-IsReached eve d sent (pulses ∷ rest) b h =
        subst (λ xs. IsReached eve d xs (deliver rest (receive_qubits f g s pulses b)))
          (append_assoc sent pulses (flatten rest))
          (deliver-IsReached eve d (sent ++ pulses) rest (receive_qubits f g s pulses b)
            (receive_qubits-IsReached eve d sent pulses b h))

    intercepted-nil : (eve : Option (InterceptResendEve f g)) → intercepted f g eve [] ≡ ([], eve)
    unfolding intercept_pulses
    intercepted-nil none = refl
    intercepted-nil (some eve) = refl

    reset-IsReached : (b : Bob f g) → IsReached b.eavesdropper b.detector [] (reset f g b)
    unfolding IsReached
    reset-IsReached b =
        subst (λ x. IsParked f g s b.detector (x.0) (reset f g b) × (b.eavesdropper ≡ x.1))
          (sym (intercepted-nil b.eavesdropper))
          (
            record {
              working = refl;
              records = refl;
              detector = refl;
              parked = λ i. lookup_none i;
              seen = λ i. first_none i;
            },
            refl,
          )

    begin-cases :
        (early : List Pulse) (b : Bob f g)
        → b.pre_begin_pulses ≡ early
        → IsReached b.eavesdropper b.detector early (begin_photon_pulse f g s b)
    unfolding begin_photon_pulse
    begin-cases [] b e = rw (begin_photon_pulse, e) (reset-IsReached b)
    begin-cases (p ∷ early) b e =
        rw (begin_photon_pulse, e)
          (receive_qubits-IsReached b.eavesdropper b.detector [] (p ∷ early) (reset f g b)
            (reset-IsReached b))

    -- For a detector with a dead time, whatever was early, however the train is cut into deliveries,
    -- mixed and repeated, with or without Eve: at the end of a train of n slots, Bob's records and his
    -- detector are those of a detector that is shown the slots 0 to n - 1 in their order, each with the
    -- first pulse that came for it.
    pub finalize_detections-in_order :
        (deliveries : List (List Pulse)) (n : ℕ) (b : Bob f g)
        → let arrived =
            (intercepted f g b.eavesdropper (b.pre_begin_pulses ++ flatten deliveries)).0 in
          outcome (finalize_detections f g s n (deliver deliveries (begin_photon_pulse f g s b)))
          ≡ in_order f g s arrived 0 n ([], b.detector)
    unfolding IsReached
    finalize_detections-in_order deliveries n b =
        let (parked, e) =
          deliver-IsReached b.eavesdropper b.detector b.pre_begin_pulses deliveries
            (begin_photon_pulse f g s b) (begin-cases b.pre_begin_pulses b refl) in
        finalize-parked b.detector _ n _ parked
