-- ===== src/DistributedQkd/InTrain.antt =====
-- Where Bob's records lie: on slots that he has seen, and once the detections are complete, in the train.
use qfabric.Prelude.{
  ℕ, zero, suc, ◌+◌, ◌≤◌, ◌≡◌, refl, subst, if_holds, inl, inr, Bool, Bool-cases, true, ◌&&◌, ◌||◌,
  Option, none, some, List, [], ◌∷◌, length, arith, ltb, leb, ◌==◌,
}
use qfabric.Prelude.Maps.{lookup}
use qfabric.Prelude.Elem.{elem}
use qfabric.Floats.{Floats}
use qfabric.Random.{Generator}
use qfabric.Detector.{Settings, Detector, DetectionEvent, zero_f}
use qfabric.Eve.{Pulse}
use qfabric.DistributedQkd.{
  Slot, slot_of, Records, note, strays, remove_all, is_empty, empty_slot, Bob, detected,
  receive_pulse, receive_pulses, intercepted, receive_qubits, reset, begin_photon_pulse,
  finalize_slot, finalize_slots, finalize_detections,
}
use qfabric.DistributedQkd.Dicts.{keys, elem-insert, elem-remove_all}
use qfabric.DistributedQkd.Accounts.{Reached, begun, delivered}

-- Every record is on a slot that passes a test.
abbrev pub LieIn : (ℕ → Bool) → Records → Type 0
LieIn test records = (i : ℕ) → elem i (keys records) ≡ true → test i ≡ true

note-LieIn :
    (test : ℕ → Bool) (seq : ℕ) (event : DetectionEvent) (basis : Option ℕ) (records : Records)
    → test seq ≡ true
    → LieIn test records
    → LieIn test (note seq event basis records)
unfolding note
note-LieIn test seq event none records here h = h
note-LieIn test seq event (some b) records here h =
    if_holds (LieIn test) event.detected _ _
      (λ c i m. elim (Bool-cases (i == seq)) [
        | inl e ↦ subst (λ (k : ℕ). test k ≡ true) (ground (arith, e)) here
        | inr e ↦ h i (ground (arith, m, e, elem-insert i seq (b, event.bit_value) records))
      ])
      (λ c. h)

elem-strays : (i n : ℕ) (seen : List ℕ) → elem i (strays n seen) ≡ (leb n i && elem i seen)
unfolding strays
elem-strays i n [] = ground arith
elem-strays i n (q ∷ seen) = ground (arith, elem-strays i n seen)

module _ (f : Floats) (g : Generator f) (s : Settings f g) where
  detected-LieIn :
      (test : ℕ → Bool) (seq : ℕ) (slot : Slot) (state : Records × Detector f g)
      → test seq ≡ true
      → LieIn test (state.0)
      → LieIn test ((detected f g s seq slot state).0)
  unfolding detected
  detected-LieIn test seq slot (records, d) here h = note-LieIn test seq _ _ records here h

  finalize_slot-LieIn :
      (test : ℕ → Bool) (seen : List ℕ) (seq : ℕ) (slot : Option Slot)
      (state : Records × Detector f g)
      → test seq ≡ true
      → LieIn test (state.0)
      → LieIn test ((finalize_slot f g s seen seq slot state).0)
  unfolding finalize_slot
  finalize_slot-LieIn test seen seq (some slot) state here h =
      detected-LieIn test seq slot state here h
  finalize_slot-LieIn test seen seq none state here h =
      if_holds (λ (t : Records × Detector f g). LieIn test (t.0))
        (elem seq seen || f.le s.dark_count_prob (zero_f f g)) _ _ (λ c. h)
        (λ c. detected-LieIn test seq empty_slot state here h)

  finalize_slots-LieIn :
      (n : ℕ) (seen : List ℕ) (pending : List (ℕ × Slot)) (seq left : ℕ)
      (state : Records × Detector f g)
      → seq + left ≤ n
      → LieIn (λ i. ltb i n) (state.0)
      → LieIn (λ i. ltb i n) ((finalize_slots f g s seen pending seq left state).0)
  unfolding finalize_slots
  finalize_slots-LieIn n seen pending seq zero state fits h = h
  finalize_slots-LieIn n seen pending seq (suc left) state fits h =
      finalize_slots-LieIn n seen pending (suc seq) left _ (omega (arith, fits)) (
        finalize_slot-LieIn (λ i. ltb i n) seen seq (lookup seq pending) state
          (ground (arith, fits)) h)

  abbrev NotesSeen : Bob f g → Type 0
  NotesSeen b = LieIn (λ i. elem i b.seen) b.records

  receive_pulse-NotesSeen :
      (p : Pulse) (b : Bob f g) → NotesSeen b → NotesSeen (receive_pulse f g s p b)
  unfolding receive_pulse
  receive_pulse-NotesSeen p b h =
      let more : LieIn (λ i. elem i (p.seq ∷ b.seen)) b.records = λ i m. ground (arith, h i m) in
      if_holds NotesSeen (elem p.seq b.seen) _ _ (λ e. h)
        (λ e.
          if_holds NotesSeen (f.lt (zero_f f g) s.dead_time) _ _ (λ c. more)
            (λ c.
              detected-LieIn (λ i. elem i (p.seq ∷ b.seen)) p.seq (slot_of p)
                (b.records, b.detector) (ground arith) more))

  receive_pulses-NotesSeen :
      (pulses : List Pulse) (b : Bob f g) → NotesSeen b → NotesSeen (receive_pulses f g s pulses b)
  unfolding receive_pulses
  receive_pulses-NotesSeen [] b h = h
  receive_pulses-NotesSeen (p ∷ pulses) b h =
      receive_pulses-NotesSeen pulses (receive_pulse f g s p b) (receive_pulse-NotesSeen p b h)

  receive_qubits-NotesSeen :
      (pulses : List Pulse) (b : Bob f g) → NotesSeen b → NotesSeen (receive_qubits f g s pulses b)
  unfolding receive_qubits
  receive_qubits-NotesSeen pulses b h =
      if_holds NotesSeen b.working _ _
        (λ e. receive_pulses-NotesSeen ((intercepted f g b.eavesdropper pulses).0) _ h) (λ e. h)

  begin-NotesSeen :
      (early : List Pulse) (b : Bob f g)
      → b.pre_begin_pulses ≡ early
      → NotesSeen (begin_photon_pulse f g s b)
  unfolding begin_photon_pulse
  begin-NotesSeen [] b e = rw (begin_photon_pulse, e) (λ i m. absurd (ground (arith, m)))
  begin-NotesSeen (p ∷ early) b e =
      rw (begin_photon_pulse, e)
        (receive_qubits-NotesSeen (p ∷ early) (reset f g b) (λ i m. absurd (ground (arith, m))))

  -- The states of a train whose detections are still to be completed; the number counts the pulses.
  pub data Receiving : ℕ → Bob f g → Type 0 where
    started : (b : Bob f g) → Receiving (length b.pre_begin_pulses) (begin_photon_pulse f g s b)
    received :
        (k : ℕ) (b : Bob f g) (pulses : List Pulse)
        → Receiving k b
        → Receiving (k + length pulses) (receive_qubits f g s pulses b)

  pub Receiving-Reached : (k : ℕ) (b : Bob f g) → Receiving k b → Reached f g s k b
  Receiving-Reached _ _ (started b) = begun b
  Receiving-Reached _ _ (received k b pulses r) = delivered k b pulses (Receiving-Reached k b r)

  Receiving-NotesSeen : (k : ℕ) (b : Bob f g) → Receiving k b → NotesSeen b
  Receiving-NotesSeen _ _ (started b) = begin-NotesSeen b.pre_begin_pulses b refl
  Receiving-NotesSeen _ _ (received k b pulses r) =
      receive_qubits-NotesSeen pulses b (Receiving-NotesSeen k b r)

  pub finalized-LieIn :
      (k n : ℕ) (b : Bob f g)
      → Receiving k b
      → LieIn (λ i. ltb i n) (finalize_detections f g s n b).records
  unfolding finalize_detections
  finalized-LieIn k n b r =
      let seen = Receiving-NotesSeen k b r in
      let cleared : LieIn (λ i. ltb i n) (remove_all (strays n b.seen) b.records) = λ i m.
        let gone = elem-remove_all i (strays n b.seen) b.records in
        let noted : elem i (keys b.records) ≡ true = ground (arith, m, gone) in
        ground (arith, m, gone, elem-strays i n b.seen, seen i noted) in
      if_holds (λ (c : Bob f g). LieIn (λ i. ltb i n) c.records)
        (is_empty (remove_all (strays n b.seen) b.pending) && f.le s.dark_count_prob (zero_f f g)) _
        _ (λ c. cleared)
        (λ c. finalize_slots-LieIn n b.seen _ 0 n (_, b.detector) (omega arith) cleared)
