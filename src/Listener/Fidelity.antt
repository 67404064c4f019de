-- ===== src/Listener/Fidelity.antt =====
-- The fidelity certificate: a run that is certified has put every timed frame that came before the
-- hand-over on the timeline, at exactly the time at which a simulator would have delivered it.
use mathlib.Core.Bool.{true≢false}
use qfabric.Prelude.{
  ℕ, suc, ◌+◌, ◌-◌, max, ◌<◌, ◌≡◌, refl, sym, ◌∙◌, ap, Bool, true, false, subst, inl, inr,
  Bool-cases, Option-cases, none, some, List, [], ◌∷◌, ◌++◌, append-nil, arith, ltb, if◌then◌else◌,
}
use qfabric.Bytes.{Bytes}
use qfabric.Listener.{
  rpc, protocol, Event, Listener, listener, inject, deliver, on_frame, hand_over, Step, arrives,
  hands_over, step, run, certified,
}

-- A delivery: when it fires, when its frame was sent, and its payload.
abbrev pub Delivery : Type 0
Delivery = ℕ × ℕ × Bytes

-- The deliveries on the timeline whose frames carried their time of sending, in their order.
unfoldable pub timed : List Event → List Delivery
timed [] = []
timed (e ∷ events) = elim e.t_send [
  | none ↦ timed events
  | some t ↦ (e.fire, t, e.payload) ∷ timed events
]

-- What a simulator delivers of the timed frames that arrive before the first hand-over.
unfoldable pub due : ℕ → List Step → List Delivery
due delay [] = []
due delay (hands_over ∷ steps) = []
due delay (arrives now (rpc frame) ∷ steps) = due delay steps
due delay (arrives now (protocol none payload) ∷ steps) = due delay steps
due delay (arrives now (protocol (some t) payload) ∷ steps) =
    (t + delay, t, payload) ∷ due delay steps

-- The protocol frames that arrive after it.
unfoldable pub stragglers : Bool → List Step → ℕ
stragglers over [] = 0
stragglers over (hands_over ∷ steps) = stragglers true steps
stragglers over (arrives now (rpc frame) ∷ steps) = stragglers over steps
stragglers over (arrives now (protocol t payload) ∷ steps) =
    if over then suc (stragglers over steps) else stragglers over steps

timed-other :
    (events : List Event) (e : Event) → e.t_send ≡ none → timed (events ++ e ∷ []) ≡ timed events
unfolding timed
timed-other [] e now = rw now refl
timed-other (x ∷ events) e now = elim (Option-cases x.t_send) [
  | inl w ↦ rw w (timed-other events e now)
  | inr (t, w) ↦ rw w (ap (◌∷◌ (x.fire, t, x.payload)) (timed-other events e now))
]

timed-snoc :
    (events : List Event) (e : Event) (t : ℕ) (more : List Delivery)
    → e.t_send ≡ some t
    → timed (events ++ e ∷ []) ++ more ≡ timed events ++ (e.fire, t, e.payload) ∷ more
unfolding timed
timed-snoc [] e t more now = rw now refl
timed-snoc (x ∷ events) e t more now = elim (Option-cases x.t_send) [
  | inl w ↦ rw w (timed-snoc events e t more now)
  | inr (u, w) ↦ rw w (ap (◌∷◌ (x.fire, u, x.payload)) (timed-snoc events e t more now))
]

-- What a run has added to the timeline and to the count of dropped frames, and that none was late.
record Adds (l l' : Listener) (more : List Delivery) (dropped : ℕ) : Type 0 where
  was : l.late_events ≡ 0
  on_timeline : timed l'.injected ≡ timed l.injected ++ more
  counted : l'.dropped_after_handoff ≡ l.dropped_after_handoff + dropped

if_true : (b : Bool) (x y : Listener) → b ≡ true → (if b then x else y) ≡ x
if_true true x y e = refl
if_true false x y e = absurd (true≢false (sym e))

if_false : (b : Bool) (x y : Listener) → b ≡ false → (if b then x else y) ≡ y
if_false true x y e = absurd (true≢false e)
if_false false x y e = refl

-- A run whose first step leaves a known state.
after :
    (steps : List Step) (l m known : Listener) (more : List Delivery) (dropped : ℕ)
    → m ≡ known
    → (run steps m).late_events ≡ 0
    → ((run steps known).late_events ≡ 0 → Adds l (run steps known) more dropped)
    → Adds l (run steps m) more dropped
after steps l m known more dropped e late rest =
    subst (λ n. Adds l (run steps n) more dropped) (sym e)
      (rest (subst (λ n. (run steps n).late_events ≡ 0) e late))

-- After the hand-over no frame gets to the timeline.
run-over :
    (steps : List Step) (l : Listener)
    → l.handoff ≡ true
    → (run steps l).late_events ≡ 0
    → Adds l (run steps l) [] (stragglers true steps)
unfolding run step on_frame stragglers
run-over [] l off late = record {
  was = late;
  on_timeline = sym (append-nil (timed l.injected));
  counted = omega arith;
}
run-over (hands_over ∷ steps) l off late =
    let rest = run-over steps (hand_over l) refl late in
    record { was = rest.was; on_timeline = rest.on_timeline; counted = rest.counted }
run-over (arrives now (rpc frame) ∷ steps) l off late =
    after steps l _ (record l { handed = l.handed ++ frame ∷ [] }) _ _ (if_true l.handoff _ _ off)
      late
      (λ late'.
        let rest = run-over steps (record l { handed = l.handed ++ frame ∷ [] }) off late' in
        record { was = rest.was; on_timeline = rest.on_timeline; counted = rest.counted })
run-over (arrives now (protocol t payload) ∷ steps) l off late =
    let dropped = record l { dropped_after_handoff = suc l.dropped_after_handoff } in
    after steps l _ dropped _ _ (if_true l.handoff _ _ off) late (λ late'.
      let rest = run-over steps dropped off late' in
      record {
        was = rest.was;
        on_timeline = rest.on_timeline;
        counted = omega (arith, rest.counted);
      })

-- A frame in time.
timely :
    (now t : ℕ) (payload : Bytes) (l : Listener)
    → ltb 0 l.delay ≡ true
    → ltb (t + l.delay) now ≡ false
    → deliver now (some t) payload l
      ≡ inject (t + l.delay) (some t) payload (record l { on_time_events = suc l.on_time_events })
unfolding deliver
timely now t payload l positive in_time =
    if_true (ltb 0 l.delay) _ _ positive ∙ if_false (ltb (t + l.delay) now) _ _ in_time

tardy :
    (now t : ℕ) (payload : Bytes) (l : Listener)
    → ltb 0 l.delay ≡ true
    → ltb (t + l.delay) now ≡ true
    → deliver now (some t) payload l
      ≡ inject now (some t) payload (record l {
        late_events = suc l.late_events;
        max_lateness_ps = max l.max_lateness_ps (now - (t + l.delay));
      })
unfolding deliver
tardy now t payload l positive missed =
    if_true (ltb 0 l.delay) _ _ positive ∙ if_true (ltb (t + l.delay) now) _ _ missed

run-due :
    (delay : ℕ) (steps : List Step) (l : Listener)
    → l.delay ≡ delay
    → ltb 0 delay ≡ true
    → l.handoff ≡ false
    → (run steps l).late_events ≡ 0
    → Adds l (run steps l) (due delay steps) (stragglers false steps)
unfolding run step on_frame due stragglers
run-due delay [] l same positive off late = record {
  was = late;
  on_timeline = sym (append-nil (timed l.injected));
  counted = omega arith;
}
run-due delay (hands_over ∷ steps) l same positive off late =
    let rest = run-over steps (hand_over l) refl late in
    record { was = rest.was; on_timeline = rest.on_timeline; counted = rest.counted }
run-due delay (arrives now (rpc frame) ∷ steps) l same positive off late =
    let kept = record l { pending_rpc = l.pending_rpc ++ frame ∷ [] } in
    after steps l _ kept _ _ (if_false l.handoff _ _ off) late (λ late'.
      let rest = run-due delay steps kept same positive off late' in
      record { was = rest.was; on_timeline = rest.on_timeline; counted = rest.counted })
run-due delay (arrives now (protocol none payload) ∷ steps) l same positive off late =
    let put = inject (now + l.delay) none payload l in
    after steps l _ put _ _ (if_false l.handoff _ _ off) late (λ late'.
      let rest = run-due delay steps put same positive off late' in
      record {
        was = rest.was;
        on_timeline =
            rest.on_timeline ∙ ap (λ ds. ds ++ due delay steps) (timed-other l.injected _ refl);
        counted = rest.counted;
      })
run-due delay (arrives now (protocol (some t) payload) ∷ steps) l same positive off late =
    let lookahead : ltb 0 l.delay ≡ true = ap (ltb 0) same ∙ positive in
    elim (Bool-cases (ltb (t + l.delay) now)) [
      | inl missed ↦
          after steps l _ _ _ _
            (if_false l.handoff _ _ off ∙ tardy now t payload l lookahead missed) late
            (λ late'.
              let rest = run-due delay steps _ same positive off late' in
              absurd (omega (arith, rest.was)))
      | inr in_time ↦
          after steps l _ _ _ _
            (if_false l.handoff _ _ off ∙ timely now t payload l lookahead in_time) late
            (λ late'.
              let rest = run-due delay steps _ same positive off late' in
              record {
                was = rest.was;
                on_timeline =
                    rest.on_timeline
                    ∙ timed-snoc l.injected _ t (due delay steps) refl
                    ∙ ap (λ (d : ℕ). timed l.injected ++ (t + d, t, payload) ∷ due delay steps)
                        same;
                counted = rest.counted;
              })
    ]

-- From a new listener, for any interleaving of arriving frames and hand-overs: if `lookahead_report`
-- certifies the run, a lookahead is in force, and of the timed frames exactly those that came before
-- the first hand-over are on the timeline, all of them and in the order in which they came, each with
-- its payload, at its time of sending plus the delay; the protocol frames that came after it are
-- counted as dropped.
pub certified-run :
    (delay : ℕ) (steps : List Step)
    → certified
        ((run steps (listener delay)).on_time_events)
        ((run steps (listener delay)).late_events)
        delay
      ≡ some true
    → (0 < delay)
      × (timed ((run steps (listener delay)).injected) ≡ due delay steps)
      × ((run steps (listener delay)).dropped_after_handoff ≡ stragglers false steps)
unfolding certified timed
certified-run delay steps ok =
    let h =
      run-due delay steps (listener delay) refl (ground (arith, ok)) refl (ground (arith, ok)) in
    (ground (arith, ok), h.on_timeline, omega (arith, h.counted))
