-- ===== src/Timeline.antt =====
-- qne-sequence/qne_sequence/conservative_timeline.py: the event loop of a node that runs only what the
-- time authority has granted. SeQUeNCe's event queue is a list in the order of its `top`; a handler is
-- the parameter `handle`, which gives the events that it schedules. A round is one pass through the
-- body of `while True`; what the authority answers is an argument of the round that asks.
pub mod Granted
mod Tests
use qfabric.Prelude.{
  ℕ, zero, suc, ◌+◌, Bool, true, false, not, ◌&&◌, ◌||◌, Option, none, some, List, [], ◌∷◌, ◌++◌,
  ltb, leb, if◌then◌else◌,
}

-- The time of an event, and whether it is still valid.
pub record Event : Type 0 where
  pub time : ℕ
  pub invalid : Bool

-- `TimeClient.request`: a bound, the end of the run, or a request to report again.
pub data Answer : Type 0 where
  lbts : ℕ → Answer
  finished : Answer
  rereport : Answer

-- `granted` is 0 for nothing and else the bound and one, for the source's -1. `executed` has the
-- time of each event that has run, with the bound under which it ran.
pub record Timeline : Type 0 where
  pub time : ℕ
  pub stop_time : ℕ
  pub granted : ℕ
  pub events : List Event
  pub run_counter : ℕ
  pub rounds : ℕ
  pub rereports : ℕ
  pub running : Bool
  pub finished_by_authority : Bool
  pub executed : List (ℕ × ℕ)

-- `top.time >= self.stop_time or top.time > self.granted`
abbrev pub is_held : Timeline → ℕ → Bool
is_held t at = leb t.stop_time at || leb t.granted at

-- The inner loop: invalid events are dropped, and the first valid one that is not held is due.
pub next_due : Timeline → List Event → Option Event × List Event
next_due t [] = (none, [])
next_due t (e ∷ events) =
    let rest = next_due t events in
    if is_held t e.time then (none, e ∷ events) else if e.invalid then rest else (some e, events)

-- `ev.process.run()` and the bookkeeping around it
pub execute : (ℕ → List Event → List Event) → Event → List Event → Timeline → Timeline
execute handle e events t = record t {
  time = if ltb t.time e.time then e.time else t.time;
  events = handle e.time events;
  run_counter = suc t.run_counter;
  executed = t.executed ++ (e.time, t.granted) ∷ [];
}

-- What the answer of the authority changes.
pub adopt : Answer → Timeline → Timeline
adopt rereport t = record t { rereports = suc t.rereports }
adopt finished t = record t { rounds = suc t.rounds; running = false; finished_by_authority = true }
adopt (lbts b) t = record t {
  rounds = suc t.rounds;
  granted = if ltb t.granted (suc b) then suc b else t.granted;
}

-- `len(self.events) > 0 and self.events.top().time >= self.stop_time`
abbrev pub is_over : Timeline → List Event → Bool
is_over t [] = false
is_over t (e ∷ events) = leb t.stop_time e.time

-- One pass through `while True`.
pub round : (ℕ → List Event → List Event) → Answer → Timeline → Timeline
round handle answer t =
    let (due, events) = next_due t t.events in
    elim due [
      | some e ↦ execute handle e events t
      | none ↦
          if is_over t events
          then record t { events = events; running = false }
          else adopt answer (record t { events = events })
    ]

-- `run`: for each round, what the link's thread does to the queue before it, and the answer to it
pub run :
    (ℕ → List Event → List Event) → List ((List Event → List Event) × Answer) → Timeline → Timeline
run handle [] t = t
run handle ((injects, answer) ∷ answers) t =
    let rest = run handle answers (round handle answer (record t { events = injects t.events })) in
    if t.running then rest else t

abbrev pub timeline : ℕ → List Event → Timeline
timeline stop_time events = record {
  time = 0;
  stop_time = stop_time;
  granted = 0;
  events = events;
  run_counter = 0;
  rounds = 0;
  rereports = 0;
  running = true;
  finished_by_authority = false;
  executed = [];
}
