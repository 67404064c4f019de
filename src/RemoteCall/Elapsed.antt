-- ===== src/RemoteCall/Elapsed.antt =====
-- The simulation time that a phase of calls costs.
use qfabric.Prelude.{
  ℕ, suc, ◌+◌, ◌*◌, ◌≤◌, ◌<◌, ◌≡◌, refl, sym, ◌∙◌, ap, subst, true, List, [], ◌∷◌, length, arith,
  ltb, ◌==◌, if◌then◌else◌,
}
use qfabric.Prelude.Result.{ok, err, value_error}
use qfabric.Bytes.{Bytes}
use qfabric.RemoteCall.{advance_to, elapsed_ps, RpcChannel, send, paced, recv, call, calls, channel}

-- The two ends between calls: the caller's clock is not behind the server's, and nothing was late.
pub record IsPaced (delay start done : ℕ) (caller server : RpcChannel) : Type 0 where
  pub caller_delay : caller.delay_ps ≡ delay
  pub server_delay : server.delay_ps ≡ delay
  pub caller_clock : caller.clock.ps ≡ start + done * (2 * delay)
  pub caller_start : caller.clock.start_ps ≡ start
  pub server_behind : server.clock.ps ≤ caller.clock.ps
  pub on_time : caller.on_time_events ≡ done
  pub none_late : caller.late_events ≡ 0

abbrev jumped : RpcChannel → ℕ → RpcChannel
jumped r t = record r {
  clock = record r.clock { ps = t + r.delay_ps };
  on_time_events = suc r.on_time_events;
}

-- A frame of a sender that is not behind the receiver takes the receiver to its own time and the delay.
paced-send :
    (r s : RpcChannel) (kind : ℕ) (body : Bytes)
    → 0 < r.delay_ps
    → s.delay_ps ≡ r.delay_ps
    → r.clock.ps ≤ s.clock.ps
    → paced r (send s kind body) ≡ jumped r s.clock.ps
unfolding paced send advance_to
paced-send r s kind body pos same le =
    let e₁ : ltb 0 s.delay_ps ≡ true = ground (arith, same) in
    let e₂ : ltb 0 r.delay_ps ≡ true = ground (arith, pos) in
    let e₃ : ltb r.clock.ps (s.clock.ps + r.delay_ps) ≡ true = ground (arith, pos, le) in
    rw (e₁, e₂, e₃) refl

recv-send :
    (expected : ℕ) (r s : RpcChannel) (kind : ℕ) (body : Bytes)
    → recv expected r (send s kind body)
      ≡ (if kind == expected then ok (paced r (send s kind body), body) else err value_error)
unfolding recv send
recv-send expected r s kind body = refl

module _ (serve : ℕ → Bytes → ℕ × Bytes) (kind expected : ℕ)
    (answers : (body : Bytes) → (serve kind body).0 ≡ expected) where
  call-jumped :
      (caller server : RpcChannel) (body : Bytes)
      → 0 < caller.delay_ps
      → server.delay_ps ≡ caller.delay_ps
      → server.clock.ps ≤ caller.clock.ps
      → call serve kind body expected caller server
        ≡ ok (
          jumped caller (jumped server caller.clock.ps).clock.ps,
          jumped server caller.clock.ps,
          (serve kind body).1,
        )
  unfolding call
  call-jumped caller server body pos same le =
      let there = paced-send server caller kind body (omega (arith, pos, same)) (sym same) le in
      let back =
        paced-send caller (jumped server caller.clock.ps) ((serve kind body).0)
          ((serve kind body).1) pos same (omega arith) in
      let right : ((serve kind body).0 == expected) ≡ true = ground (arith, answers body) in
      rw (there, recv-send expected, right, back) refl

  calls-IsPaced :
      (delay start done : ℕ) (bodies : List Bytes) (caller server : RpcChannel)
      → 0 < delay
      → IsPaced delay start done caller server
      → (caller' : RpcChannel) × (server' : RpcChannel) × (calls serve kind bodies expected caller
            server
          ≡ ok (caller', server'))
        × IsPaced delay start (done + length bodies) caller' server'
  unfolding calls
  calls-IsPaced delay start done [] caller server pos h = (
    caller,
    server,
    refl,
    record {
      caller_delay = h.caller_delay;
      server_delay = h.server_delay;
      caller_clock =
          h.caller_clock
          ∙ ap (λ (n : ℕ). start + n * (2 * delay)) {x = done} {y = done + 0} (omega arith);
      caller_start = h.caller_start;
      server_behind = h.server_behind;
      on_time = omega (arith, h.on_time);
      none_late = h.none_late;
    },
  )
  calls-IsPaced delay start done (body ∷ bodies) caller server pos h =
      let server' = jumped server caller.clock.ps in
      let caller' = jumped caller server'.clock.ps in
      let e =
        call-jumped caller server body (omega (arith, pos, h.caller_delay))
          (h.server_delay ∙ sym h.caller_delay) h.server_behind in
      let next : IsPaced delay start (done + 1) caller' server' = record {
        caller_delay = h.caller_delay;
        server_delay = h.server_delay;
        caller_clock = grind (arith, h.caller_clock, h.caller_delay, h.server_delay);
        caller_start = h.caller_start;
        server_behind = omega arith;
        on_time = omega (arith, h.on_time);
        none_late = h.none_late;
      } in
      let (last, last', rest, good) =
        calls-IsPaced delay start (done + 1) bodies caller' server' pos next in
      (
        last,
        last',
        rw (e, rest) refl,
        subst (λ n. IsPaced delay start n last last') (omega arith) good,
      )

  -- Between two ends that start at one time with a positive delay, and with a server that answers in
  -- the expected kind: a phase of calls ends, its frames all arrive on time, and it costs exactly twice
  -- the delay of simulation time for each call.
  pub calls_elapsed :
      (delay start : ℕ) (bodies : List Bytes)
      → 0 < delay
      → (caller : RpcChannel) × (server : RpcChannel) × (calls serve kind bodies expected
            (channel delay start)
            (channel delay start)
          ≡ ok (caller, server))
        × (elapsed_ps caller.clock ≡ length bodies * (2 * delay))
        × (caller.on_time_events ≡ length bodies)
        × (caller.late_events ≡ 0)
  calls_elapsed delay start bodies pos =
      let (caller, server, e, h) =
        calls-IsPaced delay start 0 bodies (channel delay start) (channel delay start) pos (record {
          caller_delay = refl;
          server_delay = refl;
          caller_clock = omega arith;
          caller_start = refl;
          server_behind = omega arith;
          on_time = refl;
          none_late = refl;
        }) in
      (
        caller,
        server,
        e,
        omega (
          arith,
          h.caller_clock,
          h.caller_start,
          ap (λ (n : ℕ). n * (2 * delay)) {x = 0 + length bodies} {y = length bodies} (omega arith),
        ),
        omega (arith, h.on_time),
        h.none_late,
      )
