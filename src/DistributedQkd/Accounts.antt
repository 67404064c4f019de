-- ===== src/DistributedQkd/Accounts.antt =====
-- The steps of Bob's reception as a relation: each slot is seen once, has at most one record, and every
-- pulse is accounted for.
use mathlib.Core.Bool.{true≢false}
use qfabric.Prelude.{
  ℕ, zero, suc, ◌+◌, ◌&&◌, if_holds, ◌≡◌, refl, sym, ◌∙◌, ap, subst, true, ◌||◌, Option, none, some,
  List, [], ◌∷◌, length, arith,
}
use qfabric.Prelude.Maps.{lookup}
use qfabric.Prelude.Elem.{elem, Distinct}
use qfabric.Floats.{Floats}
use qfabric.Random.{Generator}
use qfabric.Detector.{Settings, Detector, DetectionEvent, zero_f}
use qfabric.Eve.{Pulse, InterceptResendEve, intercept_pulses}
use qfabric.DistributedQkd.{
  Slot, slot_of, Records, note, strays, remove_all, is_empty, empty_slot, Bob, detected,
  receive_pulse, receive_pulses, intercepted, receive_qubits, reset, begin_photon_pulse,
  finalize_slot, finalize_slots, finalize_detections,
}
use qfabric.DistributedQkd.Dicts.{keys, Distinct-insert, Distinct-remove_all}

-- A note keeps one record for each slot.
Distinct-note :
    (seq : ℕ) (event : DetectionEvent) (basis : Option ℕ) (records : Records)
    → Distinct (keys records)
    → Distinct (keys (note seq event basis records))
unfolding note
Distinct-note seq event none records d = d
Distinct-note seq event (some b) records d =
    if_holds (λ (r : Records). Distinct (keys r)) event.detected _ _
      (λ c. Distinct-insert seq (b, event.bit_value) records d) (λ c. d)

module _ (f : Floats) (g : Generator f) (s : Settings f g) where
  abbrev IsSingle : Records × Detector f g → Type 0
  IsSingle state = Distinct (keys (state.0))

  detected-IsSingle :
      (seq : ℕ) (slot : Slot) (state : Records × Detector f g)
      → IsSingle state
      → IsSingle (detected f g s seq slot state)
  unfolding detected
  detected-IsSingle seq slot (records, d) h = Distinct-note seq _ _ records h

  finalize_slot-IsSingle :
      (seen : List ℕ) (seq : ℕ) (slot : Option Slot) (state : Records × Detector f g)
      → IsSingle state
      → IsSingle (finalize_slot f g s seen seq slot state)
  unfolding finalize_slot
  finalize_slot-IsSingle seen seq (some slot) state h = detected-IsSingle seq slot state h
  finalize_slot-IsSingle seen seq none state h =
      if_holds IsSingle (elem seq seen || f.le s.dark_count_prob (zero_f f g)) _ _ (λ c. h)
        (λ c. detected-IsSingle seq empty_slot state h)

  finalize_slots-IsSingle :
      (seen : List ℕ) (pending : List (ℕ × Slot)) (seq left : ℕ) (state : Records × Detector f g)
      → IsSingle state
      → IsSingle (finalize_slots f g s seen pending seq left state)
  unfolding finalize_slots
  finalize_slots-IsSingle seen pending seq zero state h = h
  finalize_slots-IsSingle seen pending seq (suc left) state h =
      finalize_slots-IsSingle seen pending (suc seq) left _
        (finalize_slot-IsSingle seen seq (lookup seq pending) state h)

  -- What holds when k pulses have come since the train began.
  pub record IsAccounted (k : ℕ) (b : Bob f g) : Type 0 where
    pub working : b.working ≡ true
    pub seen_once : Distinct b.seen
    pub counted : length b.seen + b.duplicates ≡ k
    pub one_record : Distinct (keys b.records)

  receive_pulse-IsAccounted :
      (k : ℕ) (p : Pulse) (b : Bob f g)
      → IsAccounted k b
      → IsAccounted (suc k) (receive_pulse f g s p b)
  unfolding receive_pulse
  receive_pulse-IsAccounted k p b h =
      if_holds (IsAccounted (suc k)) (elem p.seq b.seen) _ _
        (λ e. record {
          working = h.working;
          seen_once = h.seen_once;
          counted = omega (arith, h.counted);
          one_record = h.one_record;
        })
        (λ e.
          if_holds (IsAccounted (suc k)) (f.lt (zero_f f g) s.dead_time) _ _
            (λ c. record {
              working = h.working;
              seen_once = (e, h.seen_once);
              counted = omega (arith, h.counted);
              one_record = h.one_record;
            })
            (λ c. record {
              working = h.working;
              seen_once = (e, h.seen_once);
              counted = omega (arith, h.counted);
              one_record = detected-IsSingle p.seq (slot_of p) (b.records, b.detector) h.one_record;
            }))

  receive_pulses-IsAccounted :
      (k total : ℕ) (pulses : List Pulse) (b : Bob f g)
      → total ≡ k + length pulses
      → IsAccounted k b
      → IsAccounted total (receive_pulses f g s pulses b)
  unfolding receive_pulses
  receive_pulses-IsAccounted k total [] b e h =
      subst (λ (n : ℕ). IsAccounted n b) (omega (arith, e)) h
  receive_pulses-IsAccounted k total (p ∷ pulses) b e h =
      receive_pulses-IsAccounted (suc k) total pulses (receive_pulse f g s p b) (omega (arith, e))
        (receive_pulse-IsAccounted k p b h)

  length-intercept_pulses :
      (pulses : List Pulse) (eve : InterceptResendEve f g)
      → length ((intercept_pulses f g pulses eve).0) ≡ length pulses
  unfolding intercept_pulses
  length-intercept_pulses [] eve = refl
  length-intercept_pulses (p ∷ pulses) eve = ap suc (length-intercept_pulses pulses _)

  length-intercepted :
      (eve : Option (InterceptResendEve f g)) (pulses : List Pulse)
      → length ((intercepted f g eve pulses).0) ≡ length pulses
  length-intercepted none pulses = refl
  length-intercepted (some eve) pulses = length-intercept_pulses pulses eve

  receive_qubits-IsAccounted :
      (k total : ℕ) (pulses : List Pulse) (b : Bob f g)
      → total ≡ k + length pulses
      → IsAccounted k b
      → IsAccounted total (receive_qubits f g s pulses b)
  unfolding receive_qubits
  receive_qubits-IsAccounted k total pulses b sum h =
      if_holds (IsAccounted total) b.working _ _
        (λ e.
          receive_pulses-IsAccounted k total ((intercepted f g b.eavesdropper pulses).0) _
            (omega (arith, sum, length-intercepted b.eavesdropper pulses))
            (record {
              working = h.working;
              seen_once = h.seen_once;
              counted = h.counted;
              one_record = h.one_record;
            }))
        (λ e. absurd (true≢false (sym h.working ∙ e)))

  reset-IsAccounted : (b : Bob f g) → IsAccounted 0 (reset f g b)
  reset-IsAccounted b = record {
    working = refl;
    seen_once = tt;
    counted = omega arith;
    one_record = tt;
  }

  begin-IsAccounted :
      (early : List Pulse) (b : Bob f g)
      → b.pre_begin_pulses ≡ early
      → IsAccounted (length early) (begin_photon_pulse f g s b)
  unfolding begin_photon_pulse
  begin-IsAccounted [] b e = rw (begin_photon_pulse, e) (reset-IsAccounted b)
  begin-IsAccounted (p ∷ early) b e =
      rw (begin_photon_pulse, e)
        (receive_qubits-IsAccounted 0 (length (p ∷ early)) (p ∷ early) (reset f g b) (omega arith)
          (reset-IsAccounted b))

  finalize-IsAccounted :
      (k n : ℕ) (b : Bob f g) → IsAccounted k b → IsAccounted k (finalize_detections f g s n b)
  unfolding finalize_detections
  finalize-IsAccounted k n b h =
      let kept = Distinct-remove_all (strays n b.seen) b.records h.one_record in
      if_holds (IsAccounted k)
        (is_empty (remove_all (strays n b.seen) b.pending) && f.le s.dark_count_prob (zero_f f g)) _
        _
        (λ c. record {
          working = h.working;
          seen_once = h.seen_once;
          counted = h.counted;
          one_record = kept;
        })
        (λ c. record {
          working = h.working;
          seen_once = h.seen_once;
          counted = h.counted;
          one_record = finalize_slots-IsSingle b.seen _ 0 n (_, b.detector) kept;
        })

  -- The steps of a train; the number counts the pulses that have come since it began.
  pub data Reached : ℕ → Bob f g → Type 0 where
    begun : (b : Bob f g) → Reached (length b.pre_begin_pulses) (begin_photon_pulse f g s b)
    delivered :
        (k : ℕ) (b : Bob f g) (pulses : List Pulse)
        → Reached k b
        → Reached (k + length pulses) (receive_qubits f g s pulses b)
    finalized :
        (k : ℕ) (b : Bob f g) (n : ℕ) → Reached k b → Reached k (finalize_detections f g s n b)

  -- In every state that a train reaches, whatever comes in whatever pieces: no slot has been seen
  -- twice, none has two records, and the slots seen and the duplicates counted are together the
  -- pulses that have come.
  pub Reached-IsAccounted : (k : ℕ) (b : Bob f g) → Reached k b → IsAccounted k b
  Reached-IsAccounted _ _ (begun b) = begin-IsAccounted b.pre_begin_pulses b refl
  Reached-IsAccounted _ _ (delivered k b pulses r) =
      receive_qubits-IsAccounted k (k + length pulses) pulses b refl (Reached-IsAccounted k b r)
  Reached-IsAccounted _ _ (finalized k b n r) =
      finalize-IsAccounted k n b (Reached-IsAccounted k b r)
