-- ===== src/TimeSync/Aligned.antt =====
-- An exchange in which each side receives what the other has sent, timed by a common clock that the
-- machines do not see: `c` and `m` are what the clocks of the client and the master show at its zero.
use qfabric.Prelude.{ℕ, ◌+◌, ◌-◌, ◌/◌, ◌≤◌, ◌≡◌, refl, inl, inr, ◌∙◌, ap, some, arith}
use qfabric.Prelude.Integers.{
  ℤ, pos, diff, ◌+ℤ◌, -ℤ◌, halved, abs, add-diff, neg-diff, abs-diff-le, pos-diff, diff-pos,
  diff-same,
}
use qfabric.Prelude.Result.{Result-cases, ok}
use qfabric.TimeSync.{
  epoch_req, epoch_resp, epoch_ack, Received, recv, recv_raw, is_epoch_resp, offset_of, Side,
  serve_epoch, request_epoch, message_at,
}

-- The offset that the client estimates, as one difference.
offset_lem :
    (c s0 t s1 : ℕ) → s0 ≤ s1 → offset_of (s0 + c) t (s1 + c) ≡ diff (t + (s1 - s0) / 2) (s1 + c)
unfolding offset_of halved
offset_lem c s0 t s1 h = rw (diff-pos (s1 + c) (s0 + c) (omega arith)) (
    rw (pos-diff t) (
      rw (pos-diff (((s1 + c) - (s0 + c)) / 2)) (
        rw (pos-diff (s1 + c)) (
          rw (neg-diff (s1 + c) 0) (
            rw (add-diff t 0 (((s1 + c) - (s0 + c)) / 2) 0) (
              rw (add-diff (t + ((s1 + c) - (s0 + c)) / 2) 0 0 (s1 + c))
                (diff-same _ _ _ _ (omega arith))))))))

-- With a round trip of `rtt`, the client's offset is the difference of the clocks, and at every time
-- the two clocks read the same time since the epoch, both up to half of `rtt`, rounded up.
pub record IsAligned (epoch_ns c m rtt : ℕ) (local_epoch offset : ℤ) : Type 0 where
  pub offset_close : abs (offset +ℤ (-ℤ diff m c)) ≤ rtt - rtt / 2
  pub now_close :
      (time : ℕ)
      → abs ((pos (time + c) +ℤ (-ℤ local_epoch)) +ℤ (-ℤ diff (time + m) epoch_ns)) ≤ rtt - rtt / 2

pub offset_near :
    (c m s0 sm s1 : ℕ)
    → s0 ≤ sm
    → sm ≤ s1
    → abs (offset_of (s0 + c) (sm + m) (s1 + c) +ℤ (-ℤ diff m c)) ≤ (s1 - s0) - (s1 - s0) / 2
offset_near c m s0 sm s1 h k = rw (offset_lem c s0 (sm + m) s1 (omega arith)) (
    rw (neg-diff m c) (
      rw (add-diff (sm + m + (s1 - s0) / 2) (s1 + c) c m)
        (abs-diff-le _ _ _ (omega arith) (omega arith))))

now_near :
    (epoch_ns c m s0 sm s1 time : ℕ)
    → s0 ≤ sm
    → sm ≤ s1
    → abs (
        (pos (time + c) +ℤ (-ℤ (pos epoch_ns +ℤ (-ℤ offset_of (s0 + c) (sm + m) (s1 + c)))))
        +ℤ (-ℤ diff (time + m) epoch_ns))
      ≤ (s1 - s0) - (s1 - s0) / 2
now_near epoch_ns c m s0 sm s1 time h k = rw (offset_lem c s0 (sm + m) s1 (omega arith)) (
    rw (pos-diff (time + c)) (
      rw (pos-diff epoch_ns) (
        rw (neg-diff (sm + m + (s1 - s0) / 2) (s1 + c)) (
          rw (add-diff epoch_ns 0 (s1 + c) (sm + m + (s1 - s0) / 2)) (
            rw (neg-diff (epoch_ns + (s1 + c)) (0 + (sm + m + (s1 - s0) / 2))) (
              rw (add-diff (time + c) 0 (0 + (sm + m + (s1 - s0) / 2)) (epoch_ns + (s1 + c))) (
                rw (neg-diff (time + m) epoch_ns) (
                  rw (add-diff _ _ epoch_ns (time + m))
                    (abs-diff-le _ _ _ (omega arith) (omega arith))))))))))

-- What the connecting side sends first does not depend on what it receives.
asked :
    (t0 : ℕ) (r : Received) (t1 : ℕ)
    → message_at 0 (request_epoch t0 r t1).sent ≡ ok (some epoch_req)
unfolding request_epoch message_at
asked t0 r t1 = elim (Result-cases (recv is_epoch_resp r)) [
  | inl (e, h) ↦ rw (h, message_at) refl
  | inr (x, h) ↦ rw (h, message_at) refl
]

answered :
    (epoch_ns server_ns : ℕ) (ack : Received)
    → message_at 0 (serve_epoch epoch_ns (ok (some epoch_req)) server_ns ack).sent
      ≡ ok (some (epoch_resp epoch_ns server_ns))
unfolding serve_epoch message_at recv recv_raw
answered epoch_ns server_ns ack = refl

module _ (epoch_ns c m s0 sm s1 : ℕ) (request response ack : Received) where
  abbrev client : Side (ℤ × ℤ × ℤ)
  client = request_epoch (s0 + c) response (s1 + c)

  abbrev master : Side (ℤ × ℤ)
  master = serve_epoch epoch_ns request (sm + m) ack

  abbrev estimate : ℤ
  estimate = offset_of (s0 + c) (sm + m) (s1 + c)

  requested : request ≡ message_at 0 client.sent → request ≡ ok (some epoch_req)
  requested h = h ∙ asked (s0 + c) response (s1 + c)

  responded :
      request ≡ message_at 0 client.sent
      → response ≡ message_at 0 master.sent
      → response ≡ ok (some (epoch_resp epoch_ns (sm + m)))
  responded h k =
      k
      ∙ (ap (λ r. message_at 0 (serve_epoch epoch_ns r (sm + m) ack).sent) (requested h)
          ∙ answered epoch_ns (sm + m) ack)

  span : s0 ≤ sm → sm ≤ s1 → diff (s1 + c) (s0 + c) ≡ pos (s1 - s0)
  span h k = diff-pos (s1 + c) (s0 + c) (omega arith) ∙ ap pos (omega arith)

  client_ends :
      response ≡ ok (some (epoch_resp epoch_ns (sm + m)))
      → client.ended ≡ ok (pos epoch_ns +ℤ (-ℤ estimate), estimate, diff (s1 + c) (s0 + c))
  unfolding request_epoch recv recv_raw
  client_ends e = rw e refl

  client_acks :
      response ≡ ok (some (epoch_resp epoch_ns (sm + m)))
      → message_at 1 client.sent ≡ ok (some (epoch_ack (-ℤ estimate) (diff (s1 + c) (s0 + c))))
  unfolding request_epoch recv recv_raw message_at
  client_acks e = rw e refl

  master_ends :
      (o d : ℤ)
      → request ≡ ok (some epoch_req)
      → ack ≡ ok (some (epoch_ack o d))
      → master.ended ≡ ok (o, d)
  unfolding serve_epoch recv recv_raw
  master_ends o d e f = rw e (rw f refl)

  -- `serve_epoch` and `request_epoch` against each other, each receiving what the other has sent, with
  -- the master's reading between the client's two: both return, with the exact round trip and opposite
  -- offsets, and the epoch and the offset are right up to half of the round trip, rounded up.
  pub request_epoch-IsAligned :
      s0 ≤ sm
      → sm ≤ s1
      → request ≡ message_at 0 client.sent
      → response ≡ message_at 0 master.sent
      → ack ≡ message_at 1 client.sent
      → (local_epoch : ℤ) × (offset : ℤ) × (client.ended ≡ ok (local_epoch, offset, pos (s1 - s0)))
        × (master.ended ≡ ok (-ℤ offset, pos (s1 - s0)))
        × IsAligned epoch_ns c m (s1 - s0) local_epoch offset
  request_epoch-IsAligned h k p q r =
      let e = responded p q in
      let d = span h k in
      (
        pos epoch_ns +ℤ (-ℤ estimate),
        estimate,
        client_ends e ∙ ap (λ d. ok (pos epoch_ns +ℤ (-ℤ estimate), estimate, d)) d,
        master_ends _ _ (requested p) (r ∙ client_acks e) ∙ ap (λ d. ok (-ℤ estimate, d)) d,
        record {
          offset_close = offset_near c m s0 sm s1 h k;
          now_close = λ time. now_near epoch_ns c m s0 sm s1 time h k;
        },
      )
