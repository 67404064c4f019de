-- ===== src/Channel.antt =====
-- qne/channel.py: ClassicalChannel, length-prefixed frames over a TCP stream. A message is its JSON
-- text as bytes. The socket is the list of the chunks that have arrived, none of them empty, and the
-- end of the list is the end of the stream; `recv` returns at most one chunk.
pub mod Exact
pub mod Framing
mod Tests
use qfabric.Prelude.{
  ℕ, zero, suc, ◌+◌, ◌-◌, ◌*◌, Option, none, some, List, [], ◌∷◌, ◌++◌, take, drop, length, ltb,
  leb, if◌then◌else◌, not,
}
use qfabric.Prelude.Result.{Result, ok, err, connection_error, protocol_error, require, ◌>>=◌, ◌>>◌}
use qfabric.Bytes.{Bytes, uint, read}
use qfabric.Auth.{FrameAuthenticator, seal, open_frame}

abbrev pub max_frame_bytes : ℕ
max_frame_bytes = 64 * 1024 * 1024

-- `self._sock.recv(k)`, and what is left to receive
abbrev pub sock_recv : ℕ → List Bytes → Bytes × List Bytes
sock_recv k [] = ([], [])
sock_recv k (chunk ∷ chunks) =
    if leb (length chunk) k then (chunk, chunks) else (take k chunk, drop k chunk ∷ chunks)

-- `_recv_exact`: one round of the loop for each unit of fuel; n rounds are enough, since each
-- round that does not raise receives a byte.
pub recv_exact : ℕ → ℕ → Bytes → List Bytes → Result (Bytes × List Bytes)
recv_exact zero n buf chunks = if ltb (length buf) n then err connection_error else ok (buf, chunks)
recv_exact (suc fuel) n buf chunks =
    let received = sock_recv (n - length buf) chunks in
    let rest = recv_exact fuel n (buf ++ received.0) (received.1) in
    if ltb (length buf) n
    then if leb (length (received.0)) 0 then err connection_error else rest
    else ok (buf, chunks)

module _ (digest : Bytes → Bytes → Bytes) where
  -- `send_message`: the channel's authenticator afterwards, and the bytes for `sendall`
  unfoldable pub send_message :
      Option FrameAuthenticator → Bytes → Result (Option FrameAuthenticator × Bytes)
  send_message none frame = do header ← uint 4 (length frame); ok (none, header ++ frame)
  send_message (some a) frame = do
    (a', sealed) ← seal digest a frame
    header ← uint 4 (length sealed)
    ok (some a', header ++ sealed)

  -- The frame, opened if the channel is authenticated.
  abbrev pub opened :
      Option FrameAuthenticator
      → Bytes
      → List Bytes
      → Result (Option FrameAuthenticator × Bytes × List Bytes)
  opened none frame chunks = ok (none, frame, chunks)
  opened (some a) frame chunks = do
    (a', payload) ← open_frame digest a frame
    ok (some a', payload, chunks)

  -- `recv_message`
  unfoldable pub recv_message :
      Option FrameAuthenticator
      → List Bytes
      → Result (Option FrameAuthenticator × Bytes × List Bytes)
  recv_message auth chunks = do
    (header, chunks₁) ← recv_exact 4 4 [] chunks
    (size, _) ← read 4 header
    require (leb size max_frame_bytes) protocol_error
    (frame, chunks₂) ← recv_exact size size [] chunks₁
    opened auth frame chunks₂
