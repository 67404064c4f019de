-- ===== src/Listener.antt =====
-- qne-sequence/qne_sequence/listener.py: Listener, which puts the frames that arrive on the local
-- timeline, and hands the frames of the later phase over to another handler. A frame is decoded: it
-- has a kind and maybe a time of sending, or it belongs to the later phase. Both methods hold the
-- listener's lock where they touch the stash, so each is one step.
pub mod HandOver
pub mod Fidelity
mod Tests
use qfabric.Prelude.{
  ℕ, suc, ◌+◌, ◌-◌, max, Bool, true, false, ◌&&◌, Option, none, some, List, [], ◌∷◌, ◌++◌, ltb,
  ◌==◌, if◌then◌else◌,
}
use qfabric.Bytes.{Bytes}

pub data Frame : Type 0 where
  rpc : Bytes → Frame
  protocol : Option ℕ → Bytes → Frame

-- An event on the timeline, with the time at which its frame was sent.
pub record Event : Type 0 where
  pub fire : ℕ
  pub priority : ℕ
  pub t_send : Option ℕ
  pub payload : Bytes

-- `handed` is what the new handler has got; `handoff` says whether it is set.
pub record Listener : Type 0 where
  pub delay : ℕ
  pub pending_rpc : List Bytes
  pub handoff : Bool
  pub handed : List Bytes
  pub dropped_after_handoff : ℕ
  pub seq : ℕ
  pub on_time_events : ℕ
  pub late_events : ℕ
  pub max_lateness_ps : ℕ
  pub injected : List Event

abbrev pub listener : ℕ → Listener
listener delay = record {
  delay = delay;
  pending_rpc = [];
  handoff = false;
  handed = [];
  dropped_after_handoff = 0;
  seq = 0;
  on_time_events = 0;
  late_events = 0;
  max_lateness_ps = 0;
  injected = [];
}

-- `self._seq += 1` and `self.timeline.inject(...)`
abbrev pub inject : ℕ → Option ℕ → Bytes → Listener → Listener
inject fire t_send payload l = record l {
  seq = suc l.seq;
  injected =
      l.injected
      ++ record { fire = fire; priority = suc l.seq; t_send = t_send; payload = payload } ∷ [];
}

-- The time at which a frame fires, and the count of how it kept its deadline.
pub deliver : ℕ → Option ℕ → Bytes → Listener → Listener
deliver now none payload l = inject (now + l.delay) none payload l
deliver now (some t) payload l =
    if ltb 0 l.delay
    then if ltb (t + l.delay) now
      then inject now (some t) payload (record l {
        late_events = suc l.late_events;
        max_lateness_ps = max l.max_lateness_ps (now - (t + l.delay));
      })
      else inject (t + l.delay) (some t) payload
          (record l { on_time_events = suc l.on_time_events })
    else inject (now + l.delay) (some t) payload l

-- `on_frame`, at the local time `now`
pub on_frame : ℕ → Frame → Listener → Listener
unfolding deliver
on_frame now (rpc frame) l =
    if l.handoff
    then record l { handed = l.handed ++ frame ∷ [] }
    else record l { pending_rpc = l.pending_rpc ++ frame ∷ [] }
on_frame now (protocol t_send payload) l =
    if l.handoff
    then record l { dropped_after_handoff = suc l.dropped_after_handoff }
    else deliver now t_send payload l

-- `hand_over`
abbrev pub hand_over : Listener → Listener
hand_over l = record l { handed = l.handed ++ l.pending_rpc; pending_rpc = []; handoff = true }

pub data Step : Type 0 where
  arrives : ℕ → Frame → Step
  hands_over : Step

pub step : Step → Listener → Listener
unfolding on_frame
step (arrives now frame) l = on_frame now frame l
step hands_over l = hand_over l

-- Any interleaving of arrivals and hand-overs.
pub run : List Step → Listener → Listener
run [] l = l
run (s ∷ steps) l = run steps (step s l)

-- `lookahead_report`: `certified`, which is None where no delay is modelled
pub certified : ℕ → ℕ → ℕ → Option Bool
certified on_time_events late_events delay_ps =
    if ltb 0 delay_ps then some (late_events == 0 && ltb 0 (on_time_events + late_events)) else none
