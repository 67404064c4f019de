-- ===== src/RemoteCall.antt =====
-- qne-sequence/qne_sequence/remote_qm.py: LogicalClock, and RpcChannel in its logical mode, in which
-- a frame carries its sender's clock and the receiver's clock jumps to that time and the delay.
pub mod Elapsed
mod Tests
use qfabric.Prelude.{
  ℕ, zero, suc, ◌+◌, ◌-◌, Bool, true, false, Option, none, some, List, [], ◌∷◌, ltb, ◌==◌,
  if◌then◌else◌,
}
use qfabric.Prelude.Result.{Result, ok, err, value_error, ◌>>=◌}
use qfabric.Bytes.{Bytes}

pub record LogicalClock : Type 0 where
  pub ps : ℕ
  pub start_ps : ℕ

abbrev pub logical_clock : ℕ → LogicalClock
logical_clock start_ps = record { ps = start_ps; start_ps = start_ps }

pub advance_to : ℕ → LogicalClock → LogicalClock
advance_to ps c = if ltb c.ps ps then record c { ps = ps } else c

-- `max(0, self.ps - self.start_ps)`
abbrev pub elapsed_ps : LogicalClock → ℕ
elapsed_ps c = c.ps - c.start_ps

-- A frame: its kind, its body and its `_ts`.
pub record Frame : Type 0 where
  pub kind : ℕ
  pub body : Bytes
  pub ts : Option ℕ

-- One end of the channel.
pub record RpcChannel : Type 0 where
  pub delay_ps : ℕ
  pub clock : LogicalClock
  pub on_time_events : ℕ
  pub late_events : ℕ

-- `send`: the frame that goes out
pub send : RpcChannel → ℕ → Bytes → Frame
send r kind body = record {
  kind = kind;
  body = body;
  ts = if ltb 0 r.delay_ps then some r.clock.ps else none;
}

-- `_paced`
pub paced : RpcChannel → Frame → RpcChannel
unfolding advance_to
paced r frame = elim frame.ts [
  | none ↦ r
  | some t ↦
      if ltb 0 r.delay_ps
      then record r {
        clock = advance_to (t + r.delay_ps) r.clock;
        on_time_events = suc r.on_time_events;
      }
      else r
]

-- `recv`
pub recv : ℕ → RpcChannel → Frame → Result (RpcChannel × Bytes)
recv expected r frame =
    if frame.kind == expected then ok (paced r frame, frame.body) else err value_error

-- A request of the caller's and the answer of the server's: `call` on one end, `recv_any` and `send`
-- on the other. The answer has the kind and the body that `serve` gives.
pub call :
    (ℕ → Bytes → ℕ × Bytes)
    → ℕ
    → Bytes
    → ℕ
    → RpcChannel
    → RpcChannel
    → Result (RpcChannel × RpcChannel × Bytes)
call serve kind body expected caller server = do
  let server' = paced server (send caller kind body)
  (caller', reply) ← recv expected caller (send server' ((serve kind body).0) ((serve kind body).1))
  ok (caller', server', reply)

-- A number of calls, one after the other.
pub calls :
    (ℕ → Bytes → ℕ × Bytes)
    → ℕ
    → List Bytes
    → ℕ
    → RpcChannel
    → RpcChannel
    → Result (RpcChannel × RpcChannel)
calls serve kind [] expected caller server = ok (caller, server)
calls serve kind (body ∷ bodies) expected caller server = do
  (caller', server', reply) ← call serve kind body expected caller server
  calls serve kind bodies expected caller' server'

abbrev pub channel : ℕ → ℕ → RpcChannel
channel delay_ps start_ps = record {
  delay_ps = delay_ps;
  clock = logical_clock start_ps;
  on_time_events = 0;
  late_events = 0;
}
