-- ===== src/Auth/Order.antt =====
-- What is sealed is opened in the same order, and a frame is accepted once.
use qfabric.Prelude.{
  ℕ, ◌+◌, ◌^◌, ◌<◌, ◌≡◌, refl, sym, ap, ◌∙◌, true, false, List, [], ◌∷◌, ◌++◌, take, drop, length,
  length-append, length-take, take-append_length, drop-append_length, drop-drop, ltb, ◌==◌, ==_refl,
  if◌then◌else◌, arith,
}
use qfabric.Prelude.Result.{ok, err, auth_sequence_break}
use qfabric.Bytes.{Bytes, be}
use qfabric.Bytes.Laws.{length-be, uint_lem, read-be_end}
use qfabric.Auth.{
  FrameAuthenticator, bytes_eq, tag, seal, open_frame, seal_all, accepted, hdr_of, tag_of,
  payload_of,
}

pub bytes_eq_refl : (bs : Bytes) → bytes_eq bs bs ≡ true
unfolding bytes_eq
bytes_eq_refl [] = refl
bytes_eq_refl (b ∷ bs) = ground (arith, bytes_eq_refl bs)

module _ (digest : Bytes → Bytes → Bytes)
    (digest_size : (k m : Bytes) → length (digest k m) ≡ 32) where
  -- The frame number seq for a payload.
  abbrev pub sealed : Bytes → ℕ → Bytes → Bytes
  sealed key seq payload = be 8 seq ++ (tag digest key (be 8 seq) payload ++ payload)

  pub length-tag : (key : Bytes) (h p : Bytes) → length (tag digest key h p) ≡ 16
  unfolding tag
  length-tag key h p = omega (arith, length-take 16 (digest key (h ++ p)), digest_size key (h ++ p))

  module _ (key : Bytes) (seq : ℕ) (payload : Bytes) where
    hdr-sealed : hdr_of digest (sealed key seq payload) ≡ be 8 seq
    hdr-sealed =
        ap (λ (k : ℕ). take k (sealed key seq payload)) (sym (length-be 8 seq))
        ∙ take-append_length (be 8 seq) _

    after_hdr : drop 8 (sealed key seq payload) ≡ tag digest key (be 8 seq) payload ++ payload
    after_hdr =
        ap (λ (k : ℕ). drop k (sealed key seq payload)) (sym (length-be 8 seq))
        ∙ drop-append_length (be 8 seq) _

    tag-sealed : tag_of digest (sealed key seq payload) ≡ tag digest key (be 8 seq) payload
    tag-sealed =
        ap (take 16) after_hdr
        ∙ ap (λ (k : ℕ). take k (tag digest key (be 8 seq) payload ++ payload))
            (sym (length-tag key (be 8 seq) payload))
        ∙ take-append_length (tag digest key (be 8 seq) payload) payload

    payload-sealed : payload_of digest (sealed key seq payload) ≡ payload
    payload-sealed =
        sym (drop-drop 16 8 (sealed key seq payload))
        ∙ ap (drop 16) after_hdr
        ∙ ap (λ (k : ℕ). drop k (tag digest key (be 8 seq) payload ++ payload))
            (sym (length-tag key (be 8 seq) payload))
        ∙ drop-append_length (tag digest key (be 8 seq) payload) payload

    long-sealed : ltb (length (sealed key seq payload)) 24 ≡ false
    long-sealed = ground (
      arith,
      length-append (be 8 seq) (tag digest key (be 8 seq) payload ++ payload),
      length-append (tag digest key (be 8 seq) payload) payload,
      length-be 8 seq,
      length-tag key (be 8 seq) payload,
    )

  -- With 32-byte digests, a frame sealed under the receiver's key with number seq < 256 ^ 8 is
  -- accepted exactly when seq is the number that the receiver expects, and else refused as a break
  -- of the sequence.
  pub open_frame-sealed :
      (b : FrameAuthenticator) (seq : ℕ) (payload : Bytes)
      → seq < 256 ^ 8
      → open_frame digest b (sealed b.key seq payload) ≡ (
          if seq == b.rx_seq
          then ok (record b { rx_seq = b.rx_seq + 1 }, payload)
          else err auth_sequence_break)
  unfolding open_frame
  open_frame-sealed b seq payload fits =
      rw
        (
          long-sealed b.key seq payload,
          tag-sealed b.key seq payload,
          hdr-sealed b.key seq payload,
          payload-sealed b.key seq payload,
          bytes_eq_refl (tag digest b.key (be 8 seq) payload),
          read-be_end 8 seq fits,
        )
        (ground arith)

  pub seal_lem :
      (a : FrameAuthenticator) (payload : Bytes)
      → a.tx_seq < 256 ^ 8
      → seal digest a payload
        ≡ ok (record a { tx_seq = a.tx_seq + 1 }, sealed a.key a.tx_seq payload)
  unfolding seal
  seal_lem a payload fits = rw (uint_lem 8 a.tx_seq fits)

  pub open_frame_expected :
      (b : FrameAuthenticator) (payload : Bytes)
      → b.rx_seq < 256 ^ 8
      → open_frame digest b (sealed b.key b.rx_seq payload)
        ≡ ok (record b { rx_seq = b.rx_seq + 1 }, payload)
  open_frame_expected b payload fits =
      open_frame-sealed b b.rx_seq payload fits ∙ rw (==_refl b.rx_seq)

  pub accepted_next :
      (b b' : FrameAuthenticator) (frame payload : Bytes) (frames : List Bytes)
      → open_frame digest b frame ≡ ok (b', payload)
      → accepted digest b (frame ∷ frames) ≡ payload ∷ accepted digest b' frames
  unfolding accepted
  accepted_next b b' frame payload frames e = rw (e, accepted)

  -- With 32-byte digests and numbers that stay below 256 ^ 8, sealing succeeds, and a receiver that
  -- shares the key and expects the sender's next number accepts the sealed payloads, all of them and
  -- in the order in which they were sealed.
  pub accepted-seal_all :
      (a b : FrameAuthenticator) (payloads : List Bytes)
      → a.key ≡ b.key
      → a.tx_seq ≡ b.rx_seq
      → a.tx_seq + length payloads < 256 ^ 8
      → (frames : List Bytes) × (seal_all digest a payloads ≡ ok frames)
        × (accepted digest b frames ≡ payloads)
  unfolding seal_all accepted
  accepted-seal_all a b [] same next fits = ([], refl, refl)
  accepted-seal_all a b (payload ∷ payloads) same next fits =
      let (frames, e, opened) =
        accepted-seal_all (record a { tx_seq = a.tx_seq + 1 }) (record b { rx_seq = b.rx_seq + 1 })
          payloads same (ap (λ (k : ℕ). k + 1) next) (omega arith) in
      (
        sealed a.key a.tx_seq payload ∷ frames,
        rw (seal_lem a payload (omega arith), e),
        accepted_next b (record b { rx_seq = b.rx_seq + 1 }) (sealed a.key a.tx_seq payload) payload
              frames
              (ap (open_frame digest b) (
                  ap (λ (k : Bytes). sealed k a.tx_seq payload) same
                  ∙ ap (λ (n : ℕ). sealed b.key n payload) next)
                ∙ open_frame_expected b payload (omega arith))
            ∙ ap (◌∷◌ payload) opened,
      )

  -- A frame that was accepted is refused when it comes again.
  open_frame-replay :
      (a a' : FrameAuthenticator) (frame payload : Bytes)
      → open_frame digest a frame ≡ ok (a', payload)
      → open_frame digest a' frame ≡ err auth_sequence_break
  unfolding open_frame
  open_frame-replay a a' frame payload h = ground arith
