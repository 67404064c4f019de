-- ===== src/DistributedQkd.antt =====
-- qne-sequence/qne_sequence/distributed_qkd.py: how Bob's side receives a photon train. Sequence numbers
-- are natural, so the test for a negative one is left out.
pub mod InOrder
pub mod Slots
pub mod Parked
pub mod Dicts
pub mod Accounts
pub mod InTrain
pub mod Decoy
pub mod Sift
pub mod Positions
pub mod Labels
pub mod Trained
pub mod Keys
mod Tests
use qfabric.Prelude.{
  ℕ, zero, suc, ◌+◌, Bool, true, false, ◌&&◌, ◌||◌, Option, none, some, List, [], ◌∷◌, ◌++◌, length,
  leb, if◌then◌else◌,
}
use qfabric.Prelude.Maps.{lookup, insert, remove}
use qfabric.Prelude.Elem.{elem}
use qfabric.Floats.{Floats}
use qfabric.Random.{Generator}
use qfabric.Detector.{Photon, DetectionEvent, Settings, Detector, zero_f, detect, detect_pulse}
use qfabric.Eve.{Pulse, InterceptResendEve, intercept_pulses}

-- `(basis, bit, n)`: a parked pulse, with the count of photons of a decoy descriptor.
pub record Slot : Type 0 where
  pub basis : ℕ
  pub bit : ℕ
  pub photons : Option ℕ

-- `int(rest[0]) if rest else None`
abbrev pub count_of : List ℕ → Option ℕ
count_of [] = none
count_of (n ∷ rest) = some n

abbrev pub slot_of : Pulse → Slot
slot_of p = record { basis = p.basis; bit = p.bit; photons = count_of p.rest }

-- A pulse that never arrived: it can only dark-count.
abbrev pub empty_slot : Slot
empty_slot = record { basis = 0; bit = 0; photons = some 0 }

-- `self._bob_records`: number ↦ (basis, bit)
abbrev pub Records : Type 0
Records = List (ℕ × (ℕ × ℕ))

-- `self._bob_records[seq] = (basis, bit)` if the event is detected; then it has a basis.
unfoldable pub note : ℕ → DetectionEvent → Option ℕ → Records → Records
note seq event none records = records
note seq event (some basis) records =
    if event.detected then insert seq (basis, event.bit_value) records else records

-- The members from n on, and a dict without them.
unfoldable pub strays : ℕ → List ℕ → List ℕ
strays n [] = []
strays n (q ∷ seen) = if leb n q then q ∷ strays n seen else strays n seen

unfoldable pub remove_all {ℓ} : {Value : Type ℓ} → List ℕ → List (ℕ × Value) → List (ℕ × Value)
remove_all [] dict = dict
remove_all (q ∷ keys) dict = remove_all keys (remove q dict)

abbrev pub is_empty {ℓ} : {A : Type ℓ} → List A → Bool
is_empty [] = true
is_empty (x ∷ xs) = false

module _ (f : Floats) (g : Generator f) where
  open f use {F, le, lt}

  -- Bob's fields that reception reads and writes.
  pub record Bob : Type 0 where
    pub working : Bool
    pub records : Records
    pub seen : List ℕ
    pub pending : List (ℕ × Slot)
    pub duplicates : ℕ
    pub out_of_range : ℕ
    pub pre_begin_pulses : List Pulse
    pub eavesdropper : Option (InterceptResendEve f g)
    pub detector : Detector f g

  pub detect_slot : Settings f g → ℕ → Slot → Detector f g → DetectionEvent × Detector f g
  detect_slot s seq slot d =
      let photon : Photon = record { sequence_num = seq; basis = slot.basis; state = slot.bit } in
      elim slot.photons [
        | none ↦ detect f g s photon none d
        | some n ↦ detect_pulse f g s photon n none d
      ]

  -- One slot before the detector, and its record.
  unfoldable pub detected :
      Settings f g → ℕ → Slot → Records × Detector f g → Records × Detector f g
  detected s seq slot (records, d) =
      let (event, d₁) = detect_slot s seq slot d in (note seq event event.basis records, d₁)

  abbrev pub with_records : Bob → Records × Detector f g → Bob
  with_records b (records, d) = record b { records = records; detector = d }

  -- The loop body of `receive_qubits`.
  unfoldable pub receive_pulse : Settings f g → Pulse → Bob → Bob
  receive_pulse s p b =
      if elem p.seq b.seen
      then record b { duplicates = suc b.duplicates }
      else (if lt (zero_f f g) s.dead_time
          then record b { seen = p.seq ∷ b.seen; pending = insert p.seq (slot_of p) b.pending }
          else with_records (record b { seen = p.seq ∷ b.seen })
              (detected s p.seq (slot_of p) (b.records, b.detector)))

  unfoldable pub receive_pulses : Settings f g → List Pulse → Bob → Bob
  receive_pulses s [] b = b
  receive_pulses s (p ∷ pulses) b = receive_pulses s pulses (receive_pulse s p b)

  -- What Eve, if she is there, makes of the pulses.
  abbrev pub intercepted :
      Option (InterceptResendEve f g) → List Pulse → List Pulse × Option (InterceptResendEve f g)
  intercepted none pulses = (pulses, none)
  intercepted (some eve) pulses =
      let (resent, eve₁) = intercept_pulses f g pulses eve in (resent, some eve₁)

  abbrev pub take_in : Settings f g → Bob → List Pulse × Option (InterceptResendEve f g) → Bob
  take_in s b (pulses, eve) = receive_pulses s pulses (record b { eavesdropper = eve })

  unfoldable pub receive_qubits : Settings f g → List Pulse → Bob → Bob
  receive_qubits s pulses b =
      if b.working
      then take_in s b (intercepted b.eavesdropper pulses)
      else record b { pre_begin_pulses = b.pre_begin_pulses ++ pulses }

  abbrev pub reset : Bob → Bob
  reset b = record b {
    working = true;
    records = [];
    seen = [];
    pending = [];
    duplicates = 0;
    out_of_range = 0;
    pre_begin_pulses = [];
  }

  -- BEGIN_PHOTON_PULSE, with the replay of the pulses that were early.
  unfoldable pub begin_photon_pulse : Settings f g → Bob → Bob
  begin_photon_pulse s b = elim b.pre_begin_pulses [
    | [] ↦ reset b
    | p ∷ early ↦ receive_qubits s (p ∷ early) (reset b)
  ]

  -- The body of the loop over the slots in `_finalize_detections`.
  unfoldable pub finalize_slot :
      Settings f g → List ℕ → ℕ → Option Slot → Records × Detector f g → Records × Detector f g
  finalize_slot s seen seq (some slot) state = detected s seq slot state
  finalize_slot s seen seq none state =
      if elem seq seen || le s.dark_count_prob (zero_f f g)
      then state
      else detected s seq empty_slot state

  -- The loop from slot `seq` on with `left` slots to go.
  unfoldable pub finalize_slots :
      Settings f g
      → List ℕ
      → List (ℕ × Slot)
      → ℕ
      → ℕ
      → Records × Detector f g
      → Records × Detector f g
  finalize_slots s seen pending seq zero state = state
  finalize_slots s seen pending seq (suc left) state =
      finalize_slots s seen pending (suc seq) left
        (finalize_slot s seen seq (lookup seq pending) state)

  -- `_finalize_detections`
  unfoldable pub finalize_detections : Settings f g → ℕ → Bob → Bob
  finalize_detections s num_slots b =
      let stray = strays num_slots b.seen in
      let pending = remove_all stray b.pending in
      let cleared = record b {
        pending = [];
        records = remove_all stray b.records;
        out_of_range = b.out_of_range + length stray;
      } in
      if is_empty pending && le s.dark_count_prob (zero_f f g)
      then cleared
      else with_records cleared
          (finalize_slots s b.seen pending 0 num_slots (cleared.records, cleared.detector))
