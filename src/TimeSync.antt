-- ===== src/TimeSync.antt =====
-- qne-sequence/qne_sequence/timesync.py: the round trip that aligns the clocks of two machines before
-- a run. A message is a value in place of its JSON text; what `link.recv_one` gives is an argument,
-- and so is each reading of the clock.
pub mod Aligned
pub mod Mirrored
mod Tests
use qfabric.Prelude.{
  ℕ, zero, suc, ◌+◌, Bool, true, false, not, Option, none, some, List, [], ◌∷◌, ◌==◌, if◌then◌else◌,
}
use qfabric.Prelude.Integers.{ℤ, pos, negsuc, diff, ◌+ℤ◌, -ℤ◌, halved}
use qfabric.Prelude.Result.{
  Result, ok, err, Error, value_error, connection_error, timeout_error, ◌>>=◌,
}

-- The messages, each with its fields: `epoch_ns` and `server_ns`, or `peer_offset_ns` and `rtt_ns`.
pub data Message : Type 0 where
  epoch_req : Message
  epoch_resp : ℕ → ℕ → Message
  epoch_ack : ℤ → ℤ → Message
  sync_req : Message
  sync_resp : ℕ → Message
  sync_ack : ℤ → ℤ → Message

-- `link.recv_one()`: a message, none when the link has closed, or the exception that it raises.
abbrev pub Received : Type 0
Received = Result (Option Message)

-- `_recv` up to its test of the kind
unfoldable pub recv_raw : Received → Result Message
recv_raw (err timeout_error) = err connection_error
recv_raw (err raised) = err raised
recv_raw (ok none) = err connection_error
recv_raw (ok (some message)) = ok message

-- The messages of one kind: `_recv` returns the fields of one and raises ValueError for any other.
abbrev pub is_epoch_req : Message → Result (Unit {0})
is_epoch_req epoch_req = ok tt
is_epoch_req message = err value_error

abbrev pub is_epoch_resp : Message → Result (ℕ × ℕ)
is_epoch_resp (epoch_resp epoch_ns server_ns) = ok (epoch_ns, server_ns)
is_epoch_resp message = err value_error

abbrev pub is_epoch_ack : Message → Result (ℤ × ℤ)
is_epoch_ack (epoch_ack peer_offset_ns rtt_ns) = ok (peer_offset_ns, rtt_ns)
is_epoch_ack message = err value_error

abbrev pub is_sync_req : Message → Result (Unit {0})
is_sync_req sync_req = ok tt
is_sync_req message = err value_error

abbrev pub is_sync_resp : Message → Result ℕ
is_sync_resp (sync_resp server_ns) = ok server_ns
is_sync_resp message = err value_error

abbrev pub is_sync_ack : Message → Result (ℤ × ℤ)
is_sync_ack (sync_ack peer_offset_ns rtt_ns) = ok (peer_offset_ns, rtt_ns)
is_sync_ack message = err value_error

-- `_recv(link, kind)`
unfoldable pub recv {ℓ} : {Fields : Type ℓ} → (Message → Result Fields) → Received → Result Fields
unfolding recv_raw
recv is_kind received = recv_raw received >>= is_kind

-- `server_ns + rtt // 2 - t1`
unfoldable pub offset_of : ℕ → ℕ → ℕ → ℤ
offset_of t0 server_ns t1 = (pos server_ns +ℤ halved (diff t1 t0)) +ℤ (-ℤ pos t1)

-- What a side sends, and how it ends.
pub record Side (Answer : Type 0) : Type 0 where
  pub sent : List Message
  pub ended : Result Answer

-- `serve_epoch`, which reads its clock once
unfoldable pub serve_epoch : ℕ → Received → ℕ → Received → Side (ℤ × ℤ)
unfolding recv
serve_epoch epoch_ns request server_ns ack = elim (recv is_epoch_req request) [
  | err raised ↦ record { sent = []; ended = err raised }
  | ok u ↦ record { sent = epoch_resp epoch_ns server_ns ∷ []; ended = recv is_epoch_ack ack }
]

-- `request_epoch`, which reads its clock before it sends and after it has received
unfoldable pub request_epoch : ℕ → Received → ℕ → Side (ℤ × ℤ × ℤ)
unfolding recv offset_of
request_epoch t0 response t1 = elim (recv is_epoch_resp response) [
  | err raised ↦ record { sent = epoch_req ∷ []; ended = err raised }
  | ok (epoch_ns, server_ns) ↦
      let offset = offset_of t0 server_ns t1 in
      record {
        sent = epoch_req ∷ epoch_ack (-ℤ offset) (diff t1 t0) ∷ [];
        ended = ok (pos epoch_ns +ℤ (-ℤ offset), offset, diff t1 t0);
      }
]

-- `sync_link` of the serving side
unfoldable pub sync_serving : Received → ℕ → Received → Side (ℤ × ℤ)
unfolding recv
sync_serving request server_ns ack = elim (recv is_sync_req request) [
  | err raised ↦ record { sent = []; ended = err raised }
  | ok u ↦ record { sent = sync_resp server_ns ∷ []; ended = recv is_sync_ack ack }
]

-- `sync_link` of the side that connects
unfoldable pub sync_connecting : ℕ → Received → ℕ → Side (ℤ × ℤ)
unfolding recv offset_of
sync_connecting t0 response t1 = elim (recv is_sync_resp response) [
  | err raised ↦ record { sent = sync_req ∷ []; ended = err raised }
  | ok server_ns ↦
      let offset = offset_of t0 server_ns t1 in
      record {
        sent = sync_req ∷ sync_ack (-ℤ offset) (diff t1 t0) ∷ [];
        ended = ok (offset, diff t1 t0);
      }
]

-- The message at a position of what the other side has sent, or a closed link.
unfoldable pub message_at : ℕ → List Message → Received
message_at i [] = ok none
message_at zero (m ∷ sent) = ok (some m)
message_at (suc i) (m ∷ sent) = message_at i sent
