-- ===== src/Channel/Framing.antt =====
-- A message that is sent is received, whatever follows it and however TCP cuts the stream.
use mathlib.Core.List.{flatten}
use qfabric.Prelude.{
  ℕ, ◌+◌, ◌^◌, ◌≤◌, ◌<◌, ◌≡◌, refl, sym, ◌∙◌, ap, true, false, Option, none, some, List, [], ◌++◌,
  append_assoc, take, drop, length, length-append, take-append_length, drop-append_length, arith,
  leb,
}
use qfabric.Prelude.Result.{ok, err, protocol_error}
use qfabric.Bytes.{Bytes, be}
use qfabric.Bytes.Laws.{length-be, uint_lem, read-be_end}
use qfabric.Auth.{FrameAuthenticator, tag, open_frame}
use qfabric.Auth.Order.{sealed, seal_lem, length-tag, open_frame_expected}
use qfabric.Channel.{recv_exact, send_message, opened, recv_message, max_frame_bytes}
use qfabric.Channel.Exact.{AllNonempty, recv_exact-IsExact}

-- A frame behind its length.
abbrev pub framed : Bytes → Bytes
framed frame = be 4 (length frame) ++ frame

-- Two ways to cut the same bytes at the same place.
append-eq : (a b x y : Bytes) → length a ≡ length b → a ++ x ≡ b ++ y → (a ≡ b) × (x ≡ y)
append-eq a b x y size e = (
  sym (take-append_length a x)
      ∙ ap (take (length a)) e
      ∙ ap (λ (n : ℕ). take n (b ++ y)) size
      ∙ take-append_length b y,
  sym (drop-append_length a x)
      ∙ ap (drop (length a)) e
      ∙ ap (λ (n : ℕ). drop n (b ++ y)) size
      ∙ drop-append_length b y,
)

recv_exact-prefix :
    (n : ℕ) (chunks : List Bytes) (first more : Bytes)
    → AllNonempty chunks
    → flatten chunks ≡ first ++ more
    → length first ≡ n
    → (rest : List Bytes) × (recv_exact n n [] chunks ≡ ok (first, rest))
      × (flatten rest ≡ more)
      × AllNonempty rest
recv_exact-prefix n chunks first more h e size =
    let (got, rest, run, x) =
      recv_exact-IsExact n chunks h (omega (arith, ap length e, length-append first more, size)) in
    let (same, left) = append-eq got first (flatten rest) more (x.size ∙ sym size) (x.whole ∙ e) in
    (rest, run ∙ ap (λ (b : Bytes). ok (b, rest)) same, left, x.nonempty)

module _ (digest : Bytes → Bytes → Bytes) where
  -- The frame that follows its length is handed on, and what follows it is left.
  recv_frame :
      (auth : Option FrameAuthenticator) (chunks : List Bytes) (frame more : Bytes)
      → AllNonempty chunks
      → length frame ≤ max_frame_bytes
      → flatten chunks ≡ be 4 (length frame) ++ (frame ++ more)
      → (rest : List Bytes) × (recv_message digest auth chunks ≡ opened digest auth frame rest)
        × (flatten rest ≡ more)
        × AllNonempty rest
  unfolding recv_message
  recv_frame auth chunks frame more h small e =
      let (chunks₁, run₁, e₁, h₁) =
        recv_exact-prefix 4 chunks (be 4 (length frame)) (frame ++ more) h e
          (length-be 4 (length frame)) in
      let (chunks₂, run₂, e₂, h₂) =
        recv_exact-prefix (length frame) chunks₁ frame more h₁ e₁ refl in
      let fits : leb (length frame) max_frame_bytes ≡ true = ground (arith, small) in
      (chunks₂, rw (run₁, read-be_end 4 (length frame) (omega arith), fits, run₂) refl, e₂, h₂)

  -- A length prefix above MAX_FRAME_BYTES is refused before a byte of the frame is received.
  pub recv_message_oversize :
      (auth : Option FrameAuthenticator) (chunks : List Bytes) (size : ℕ) (more : Bytes)
      → AllNonempty chunks
      → max_frame_bytes < size
      → size < 256 ^ 4
      → flatten chunks ≡ be 4 size ++ more
      → recv_message digest auth chunks ≡ err protocol_error
  unfolding recv_message
  recv_message_oversize auth chunks size more h large fits e =
      let (rest, run, left, h') =
        recv_exact-prefix 4 chunks (be 4 size) more h e (length-be 4 size) in
      let refused : leb size max_frame_bytes ≡ false = ground (arith, large) in
      rw (run, read-be_end 4 size fits, refused) refl

  -- Without authentication, a message of at most MAX_FRAME_BYTES is sent behind its length, and
  -- received as it was from any stream that begins with these bytes, however the stream is cut into
  -- nonempty chunks; what follows them is left.
  pub recv_message-send_message :
      (payload more : Bytes) (chunks : List Bytes)
      → length payload ≤ max_frame_bytes
      → AllNonempty chunks
      → flatten chunks ≡ framed payload ++ more
      → (send_message digest none payload ≡ ok (none, framed payload))
        × (rest : List Bytes) × (recv_message digest none chunks ≡ ok (none, payload, rest))
        × (flatten rest ≡ more)
  unfolding send_message
  recv_message-send_message payload more chunks small h e =
      let (rest, run, left, h') =
        recv_frame none chunks payload more h small
          (e ∙ append_assoc (be 4 (length payload)) payload more) in
      (rw (uint_lem 4 (length payload) (omega (arith, small))) refl, rest, run, left)

  module _ (digest_size : (k m : Bytes) → length (digest k m) ≡ 32) where
    length-sealed :
        (key payload : Bytes) (seq : ℕ)
        → length (sealed digest digest_size key seq payload) ≡ 24 + length payload
    length-sealed key payload seq = omega (
      arith,
      length-append (be 8 seq) (tag digest key (be 8 seq) payload ++ payload),
      length-append (tag digest key (be 8 seq) payload) payload,
      length-be 8 seq,
      length-tag digest digest_size key (be 8 seq) payload,
    )

    -- With authentication by 32-byte digests, between ends that share the key and agree on the next
    -- number, below 256 ^ 8: a message is sent as the sealed frame behind its length, and received as
    -- it was, however the stream is cut into nonempty chunks; what follows is left, and the two ends
    -- agree on the number after it. With its header the message has at most MAX_FRAME_BYTES.
    pub recv_message-sealed :
        (a b : FrameAuthenticator) (payload more : Bytes) (chunks : List Bytes)
        → a.key ≡ b.key
        → a.tx_seq ≡ b.rx_seq
        → a.tx_seq < 256 ^ 8
        → 24 + length payload ≤ max_frame_bytes
        → AllNonempty chunks
        → flatten chunks ≡ framed (sealed digest digest_size a.key a.tx_seq payload) ++ more
        → (send_message digest (some a) payload
            ≡ ok (
              some (record a { tx_seq = a.tx_seq + 1 }),
              framed (sealed digest digest_size a.key a.tx_seq payload),
            ))
          × (rest : List Bytes) × (recv_message digest (some b) chunks
              ≡ ok (some (record b { rx_seq = a.tx_seq + 1 }), payload, rest))
          × (flatten rest ≡ more)
    unfolding send_message
    recv_message-sealed a b payload more chunks same next fits small h e =
        let frame = sealed digest digest_size a.key a.tx_seq payload in
        let size = length-sealed a.key payload a.tx_seq in
        let (rest, run, left, h') =
          recv_frame (some b) chunks frame more h (omega (arith, size))
            (e ∙ append_assoc (be 4 (length frame)) frame more) in
        let received : open_frame digest b frame
            ≡ ok (record b { rx_seq = a.tx_seq + 1 }, payload) =
          ap (λ (k : Bytes). open_frame digest b (sealed digest digest_size k a.tx_seq payload))
            same
          ∙ ap (λ (n : ℕ). open_frame digest b (sealed digest digest_size b.key n payload)) next
          ∙ open_frame_expected digest digest_size b payload (omega arith)
          ∙ ap (λ (n : ℕ). ok (record b { rx_seq = n + 1 }, payload)) (sym next) in
        (
          rw
              (
                seal_lem digest digest_size a payload fits,
                uint_lem 4 (length frame) (omega (arith, size)),
              )
              refl,
          rest,
          run ∙ rw received refl,
          left,
        )
