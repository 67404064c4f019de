-- ===== src/TimeSync/Mirrored.antt =====
-- `sync_link`: both sides of a link learn the offset of the other's clock.
use qfabric.Prelude.{ℕ, ◌+◌, ◌-◌, ◌/◌, ◌≤◌, ◌≡◌, refl, inl, inr, ◌∙◌, ap, some, arith}
use qfabric.Prelude.Integers.{ℤ, pos, diff, ◌+ℤ◌, -ℤ◌, abs, diff-pos}
use qfabric.Prelude.Result.{Result-cases, ok}
use qfabric.TimeSync.{
  sync_req, sync_ack, sync_resp, Received, recv, recv_raw, is_sync_resp, offset_of, Side,
  sync_serving, sync_connecting, message_at,
}
use qfabric.TimeSync.Aligned.{offset_near}

asked_sync :
    (t0 : ℕ) (r : Received) (t1 : ℕ)
    → message_at 0 (sync_connecting t0 r t1).sent ≡ ok (some sync_req)
unfolding sync_connecting message_at
asked_sync t0 r t1 = elim (Result-cases (recv is_sync_resp r)) [
  | inl (e, h) ↦ rw (h, message_at) refl
  | inr (x, h) ↦ rw (h, message_at) refl
]

answered_sync :
    (server_ns : ℕ) (ack : Received)
    → message_at 0 (sync_serving (ok (some sync_req)) server_ns ack).sent
      ≡ ok (some (sync_resp server_ns))
unfolding sync_serving message_at recv recv_raw
answered_sync server_ns ack = refl

module _ (c m s0 sm s1 : ℕ) (request response ack : Received) where
  abbrev connecting : Side (ℤ × ℤ)
  connecting = sync_connecting (s0 + c) response (s1 + c)

  abbrev serving : Side (ℤ × ℤ)
  serving = sync_serving request (sm + m) ack

  abbrev estimate : ℤ
  estimate = offset_of (s0 + c) (sm + m) (s1 + c)

  requested : request ≡ message_at 0 connecting.sent → request ≡ ok (some sync_req)
  requested h = h ∙ asked_sync (s0 + c) response (s1 + c)

  responded :
      request ≡ message_at 0 connecting.sent
      → response ≡ message_at 0 serving.sent
      → response ≡ ok (some (sync_resp (sm + m)))
  responded h k =
      k
      ∙ (ap (λ r. message_at 0 (sync_serving r (sm + m) ack).sent) (requested h)
          ∙ answered_sync (sm + m) ack)

  connecting_ends :
      response ≡ ok (some (sync_resp (sm + m)))
      → connecting.ended ≡ ok (estimate, diff (s1 + c) (s0 + c))
  unfolding sync_connecting recv recv_raw
  connecting_ends e = rw e refl

  connecting_acks :
      response ≡ ok (some (sync_resp (sm + m)))
      → message_at 1 connecting.sent ≡ ok (some (sync_ack (-ℤ estimate) (diff (s1 + c) (s0 + c))))
  unfolding sync_connecting recv recv_raw message_at
  connecting_acks e = rw e refl

  serving_ends :
      (o d : ℤ)
      → request ≡ ok (some sync_req)
      → ack ≡ ok (some (sync_ack o d))
      → serving.ended ≡ ok (o, d)
  unfolding sync_serving recv recv_raw
  serving_ends o d e f = rw e (rw f refl)

  -- The two sides of `sync_link` against each other, each receiving what the other has sent, with the
  -- serving side's reading between the other's two: both return, with the exact round trip and
  -- opposite offsets, and the offset is right up to half of the round trip, rounded up.
  pub sync_link-IsMirrored :
      s0 ≤ sm
      → sm ≤ s1
      → request ≡ message_at 0 connecting.sent
      → response ≡ message_at 0 serving.sent
      → ack ≡ message_at 1 connecting.sent
      → (offset : ℤ) × (connecting.ended ≡ ok (offset, pos (s1 - s0)))
        × (serving.ended ≡ ok (-ℤ offset, pos (s1 - s0)))
        × (abs (offset +ℤ (-ℤ diff m c)) ≤ (s1 - s0) - (s1 - s0) / 2)
  sync_link-IsMirrored h k p q r =
      let e = responded p q in
      let d = diff-pos (s1 + c) (s0 + c) (omega arith) ∙ ap pos (omega arith) in
      (
        estimate,
        connecting_ends e ∙ ap (λ d. ok (estimate, d)) d,
        serving_ends _ _ (requested p) (r ∙ connecting_acks e) ∙ ap (λ d. ok (-ℤ estimate, d)) d,
        offset_near c m s0 sm s1 h k,
      )
