-- ===== src/Auth/Attack.antt =====
-- An attacker who may drop, repeat, reorder, invent and send back frames, but cannot make a tag of its
-- own. Both ends seal with one key and number from 0, and a tag does not say which end has made it, so
-- a frame of the receiver's own that comes back is one with a right tag.
use qfabric.Prelude.{
  ℕ, suc, ◌+◌, ◌^◌, ◌<◌, ◌≡◌, ◌⊎◌, sym, subst, ap, ◌∙◌, inl, inr, true, List, [], ◌∷◌, some, length,
  get_elem?, get_elem?-lt, ◌==◌, if◌then◌else◌, arith,
}
use qfabric.Prelude.Result.{Result-cases, ok, err, auth_sequence_break}
use qfabric.Bytes.{Bytes}
use qfabric.Auth.{
  FrameAuthenticator, bytes_eq, tag, open_frame, accepted, hdr_of, tag_of, payload_of,
}
use qfabric.Auth.Order.{sealed, open_frame-sealed, accepted_next}

module _ (digest : Bytes → Bytes → Bytes) (digest_size : (k m : Bytes) → length (digest k m) ≡ 32)
    (key : Bytes) where
  -- Frame number seq of those that an end has sealed for its payloads.
  abbrev pub IsSealed : List Bytes → Bytes → Type 0
  IsSealed payloads frame =
      (seq : ℕ) × (payload : Bytes) × (get_elem? payloads seq ≡ some payload)
      × (frame ≡ sealed digest digest_size key seq payload)

  -- The attacker cannot forge: each arriving frame with a right tag was sealed by one of the two ends.
  abbrev pub Unforged : List Bytes → List Bytes → List Bytes → Type 0
  Unforged sent own [] = Unit
  Unforged sent own (frame ∷ frames) =
      (bytes_eq (tag_of digest frame)
            (tag digest key (hdr_of digest frame) (payload_of digest frame))
          ≡ true
        → IsSealed sent frame ⊎ IsSealed own frame)
      × Unforged sent own frames

  -- From the receiver's number on, one payload for each number: that of the sender, or that which the
  -- receiver has itself sent under it.
  abbrev pub InTurn : List Bytes → List Bytes → ℕ → List Bytes → Type 0
  InTurn sent own seq [] = Unit
  InTurn sent own seq (payload ∷ payloads) =
      ((get_elem? sent seq ≡ some payload) ⊎ (get_elem? own seq ≡ some payload))
      × InTurn sent own (suc seq) payloads

  tag_checked :
      (a a' : FrameAuthenticator) (frame payload : Bytes)
      → open_frame digest a frame ≡ ok (a', payload)
      → bytes_eq
          (tag_of digest frame)
          (tag digest a.key (hdr_of digest frame) (payload_of digest frame))
        ≡ true
  unfolding open_frame
  tag_checked a a' frame payload h = ground arith

  genuine :
      (payloads : List Bytes) (b b' : FrameAuthenticator) (frame payload : Bytes)
      → b.key ≡ key
      → length payloads < 256 ^ 8
      → open_frame digest b frame ≡ ok (b', payload)
      → IsSealed payloads frame
      → (get_elem? payloads b.rx_seq ≡ some payload) × (b'.rx_seq ≡ suc b.rx_seq) × (b'.key ≡ b.key)
  genuine payloads b b' frame payload same fits opened (seq, sent, at, e) =
      let small : seq < 256 ^ 8 = omega (arith, get_elem?-lt payloads seq sent at) in
      let eq : (if seq == b.rx_seq
            then ok (record b { rx_seq = b.rx_seq + 1 }, sent)
            else err auth_sequence_break)
          ≡ ok (b', payload) =
        sym (open_frame-sealed digest digest_size b seq sent small)
        ∙ ap (open_frame digest b) (ap (λ k. sealed digest digest_size k seq sent) same ∙ sym e)
        ∙ opened in
      ground (arith, eq, at, ap (get_elem? payloads) {x = seq} {y = b.rx_seq})

  -- The two ends seal fewer than 256 ^ 8 payloads each, with 32-byte digests under one key. Whatever
  -- frames arrive at one end, if every frame with a right tag was sealed by one of the two: what it
  -- accepts has consecutive numbers from the expected one on, each at most once, and is under each
  -- number what the other end has sent under it, or what this end has itself.
  pub accepted-InTurn :
      (sent own : List Bytes) (b : FrameAuthenticator) (frames : List Bytes)
      → b.key ≡ key
      → length sent < 256 ^ 8
      → length own < 256 ^ 8
      → Unforged sent own frames
      → InTurn sent own b.rx_seq (accepted digest b frames)
  unfolding accepted
  accepted-InTurn sent own b [] same fits fits' safe = tt
  accepted-InTurn sent own b (frame ∷ frames) same fits fits' safe =
      elim (Result-cases (open_frame digest b frame)) [
        | inl (e, refused) ↦ rw (refused, accepted) tt
        | inr ((b', payload), opened) ↦
            let (at, next, same') = in_turn b b' frame payload same fits fits' opened (
              safe.0 (
                ap
                  (λ k.
                    bytes_eq (tag_of digest frame)
                      (tag digest k (hdr_of digest frame) (payload_of digest frame)))
                  (sym same)
                ∙ tag_checked b b' frame payload opened)) in
            rw (accepted_next digest digest_size b b' frame payload frames opened) (
              at,
              subst (λ (n : ℕ). InTurn sent own n (accepted digest b' frames)) next
                  (accepted-InTurn sent own b' frames (same' ∙ same) fits fits' safe.1),
            )
      ]
    where
      in_turn :
          (b b' : FrameAuthenticator) (frame payload : Bytes)
          → b.key ≡ key
          → length sent < 256 ^ 8
          → length own < 256 ^ 8
          → open_frame digest b frame ≡ ok (b', payload)
          → IsSealed sent frame ⊎ IsSealed own frame
          → ((get_elem? sent b.rx_seq ≡ some payload) ⊎ (get_elem? own b.rx_seq ≡ some payload))
            × (b'.rx_seq ≡ suc b.rx_seq)
            × (b'.key ≡ b.key)
      in_turn b b' frame payload same fits fits' opened (inl s) =
          let (at, next, key_kept) = genuine sent b b' frame payload same fits opened s in
          (inl at, next, key_kept)
      in_turn b b' frame payload same fits fits' opened (inr s) =
          let (at, next, key_kept) = genuine own b b' frame payload same fits' opened s in
          (inr at, next, key_kept)
