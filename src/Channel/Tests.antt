-- ===== src/Channel/Tests.antt =====
-- Short messages over streams that are cut in the middle of the header and of the frame.
use mathlib.Core.List.{flatten}
use qfabric.Prelude.{
  ℕ, ◌+◌, ◌≡◌, refl, List, [], ◌∷◌, some, none, replicate, length, length-replicate, arith,
}
use qfabric.Prelude.Result.{ok, err, protocol_error, connection_error}
use qfabric.Bytes.{Bytes, be}
use qfabric.Auth.{FrameAuthenticator}
use qfabric.Auth.Order.{sealed}
use qfabric.Channel.{recv_exact, send_message, recv_message}
use qfabric.Channel.Exact.{AllNonempty}
use qfabric.Channel.Framing.{
  framed, recv_message_oversize, recv_message-send_message, recv_message-sealed,
}

abbrev digest : Bytes → Bytes → Bytes
digest k m = replicate 32 (length k)

digest_size : (k m : Bytes) → length (digest k m) ≡ 32
digest_size k m = length-replicate {A = ℕ} 32 (length k)

abbrev chunks : List Bytes
chunks = (0 ∷ 0 ∷ []) ∷ (0 ∷ 2 ∷ 7 ∷ []) ∷ (8 ∷ 9 ∷ []) ∷ []

nonempty : AllNonempty chunks
nonempty = (omega arith, (omega arith, (omega arith, tt)))

stream_ends : recv_exact 9 9 [] chunks ≡ err connection_error
unfolding recv_exact
stream_ends = refl

recv_message-send_message_example :
    (send_message digest none (7 ∷ 8 ∷ []) ≡ ok (none, framed (7 ∷ 8 ∷ [])))
    × (rest : List Bytes) × (recv_message digest none chunks ≡ ok (none, 7 ∷ 8 ∷ [], rest))
    × (flatten rest ≡ 9 ∷ [])
recv_message-send_message_example =
    recv_message-send_message digest (7 ∷ 8 ∷ []) (9 ∷ []) chunks (omega arith) nonempty
      (unfold flatten be in refl)

recv_message_oversize_example :
    recv_message digest none ((255 ∷ 255 ∷ 255 ∷ 255 ∷ []) ∷ []) ≡ err protocol_error
recv_message_oversize_example =
    recv_message_oversize digest none ((255 ∷ 255 ∷ 255 ∷ 255 ∷ []) ∷ []) 4294967295 []
      (omega arith, tt) (omega arith) (omega arith) (unfold flatten be in refl)

abbrev sender : FrameAuthenticator
sender = record { key = 9 ∷ []; tx_seq = 3; rx_seq = 0 }

abbrev receiver : FrameAuthenticator
receiver = record { key = 9 ∷ []; tx_seq = 0; rx_seq = 3 }

abbrev wire : Bytes
wire = framed (sealed digest digest_size (9 ∷ []) 3 (5 ∷ []))

recv_message-sealed_example :
    (send_message digest (some sender) (5 ∷ [])
      ≡ ok (some (record sender { tx_seq = 3 + 1 }), wire))
    × (rest : List Bytes) × (recv_message digest (some receiver) (wire ∷ [])
        ≡ ok (some (record receiver { rx_seq = 3 + 1 }), 5 ∷ [], rest))
    × (flatten rest ≡ [])
recv_message-sealed_example =
    recv_message-sealed digest digest_size sender receiver (5 ∷ []) [] (wire ∷ []) refl refl
      (omega arith) (omega arith) (unfold be in omega arith, tt) (unfold flatten in refl)
