-- ===== src/Timeline/Granted.antt =====
-- Whatever the handlers schedule and the authority answers, no event runs before it is granted.
use mathlib.Core.Option.{some-injective, none-ne-some}
use qfabric.Prelude.{
  ℕ, ◌≤◌, ◌<◌, ◌≡◌, refl, sym, ◌∙◌, ap, Bool, true, false, ◌&&◌, inl, inr, ◌⊎◌, Option, none, some,
  List, [], ◌∷◌, ◌++◌, length, length-append, arith, ltb, leb, if◌then◌else◌,
}
use qfabric.Timeline.{
  Event, Answer, lbts, finished, rereport, Timeline, is_held, next_due, execute, adopt, is_over,
  round, run, timeline,
}

-- Each event ran under a bound that was granted by then, and before the end of the run.
pub all_within : ℕ → ℕ → List (ℕ × ℕ) → Bool
all_within stop granted [] = true
all_within stop granted ((at, bound) ∷ log) =
    (ltb at bound && leb bound granted && ltb at stop) && all_within stop granted log

all_within-snoc :
    (stop granted : ℕ) (log : List (ℕ × ℕ)) (at bound : ℕ)
    → all_within stop granted (log ++ (at, bound) ∷ [])
      ≡ (all_within stop granted log && (ltb at bound && leb bound granted && ltb at stop))
unfolding all_within
all_within-snoc stop granted [] at bound = ground arith
all_within-snoc stop granted ((a, b) ∷ log) at bound =
    ground (arith, all_within-snoc stop granted log at bound)

all_within_more :
    (stop granted granted' : ℕ) (log : List (ℕ × ℕ))
    → granted ≤ granted'
    → all_within stop granted log ≡ true
    → all_within stop granted' log ≡ true
unfolding all_within
all_within_more stop granted granted' [] le h = refl
all_within_more stop granted granted' ((at, bound) ∷ log) le h =
    ground (arith, le, h, all_within_more stop granted granted' log le)

-- The log is within the grants, and the node's clock is not beyond them.
pub record IsWithin (stop : ℕ) (t : Timeline) : Type 0 where
  pub same_stop : t.stop_time ≡ stop
  pub within : all_within stop t.granted t.executed ≡ true
  pub clock : (t.time ≡ 0) ⊎ (t.time < t.granted)
  pub counted : t.run_counter ≡ length t.executed

due_cases :
    (held invalid : Bool) (rest : Option Event × List Event) (x e : Event) (l l' : List Event)
    → (if held then (none, l) else if invalid then rest else (some x, l')).0 ≡ some e
    → (held ≡ false) × ((rest.0 ≡ some e) ⊎ (x ≡ e))
due_cases true invalid rest x e l l' h = absurd (none-ne-some e h)
due_cases false true rest x e l l' h = (refl, inl h)
due_cases false false rest x e l l' h = (refl, inr (some-injective x e h))

next_due_free :
    (t : Timeline) (events : List Event) (e : Event)
    → (next_due t events).0 ≡ some e
    → is_held t e.time ≡ false
unfolding next_due
next_due_free t [] e h = absurd (none-ne-some e h)
next_due_free t (x ∷ events) e h =
    let (free, which) =
      due_cases (is_held t x.time) x.invalid (next_due t events) x e (x ∷ events) events h in
    elim which [
      | inl later ↦ next_due_free t events e later
      | inr same ↦ ap (λ (y : Event). is_held t y.time) (sym same) ∙ free
    ]

execute-IsWithin :
    (handle : ℕ → List Event → List Event) (stop : ℕ) (t : Timeline) (e : Event)
    (events : List Event)
    → is_held t e.time ≡ false
    → IsWithin stop t
    → IsWithin stop (execute handle e events t)
unfolding execute
execute-IsWithin handle stop t e events free h = record {
  same_stop = h.same_stop;
  within = ground (
    arith,
    free,
    h.same_stop,
    h.within,
    all_within-snoc stop t.granted t.executed e.time t.granted,
  );
  clock = ground (arith, free, h.clock);
  counted = omega (arith, h.counted, length-append t.executed ((e.time, t.granted) ∷ []));
}

adopt-IsWithin :
    (stop : ℕ) (answer : Answer) (t : Timeline) → IsWithin stop t → IsWithin stop (adopt answer t)
unfolding adopt
adopt-IsWithin stop rereport t h = record {
  same_stop = h.same_stop;
  within = h.within;
  clock = h.clock;
  counted = h.counted;
}
adopt-IsWithin stop finished t h = record {
  same_stop = h.same_stop;
  within = h.within;
  clock = h.clock;
  counted = h.counted;
}
adopt-IsWithin stop (lbts b) t h = record {
  same_stop = h.same_stop;
  within = all_within_more stop t.granted _ t.executed (ground arith) h.within;
  clock = ground (arith, h.clock);
  counted = h.counted;
}

if-IsWithin :
    (b : Bool) (stop : ℕ) (t t' : Timeline)
    → IsWithin stop t
    → IsWithin stop t'
    → IsWithin stop (if b then t else t')
if-IsWithin true stop t t' h h' = h
if-IsWithin false stop t t' h h' = h'

idle-IsWithin :
    (stop : ℕ) (events : List Event) (running : Bool) (t : Timeline)
    → IsWithin stop t
    → IsWithin stop (record t { events = events; running = running })
idle-IsWithin stop events running t h = record {
  same_stop = h.same_stop;
  within = h.within;
  clock = h.clock;
  counted = h.counted;
}

due-IsWithin :
    (handle : ℕ → List Event → List Event) (stop : ℕ) (answer : Answer) (t : Timeline)
    (due : Option Event) (events : List Event)
    → ((e : Event) → due ≡ some e → is_held t e.time ≡ false)
    → IsWithin stop t
    → IsWithin stop (elim due [
      | some e ↦ execute handle e events t
      | none ↦
          if is_over t events
          then record t { events = events; running = false }
          else adopt answer (record t { events = events })
    ])
due-IsWithin handle stop answer t (some e) events free h =
    execute-IsWithin handle stop t e events (free e refl) h
due-IsWithin handle stop answer t none events free h =
    if-IsWithin (is_over t events) stop _ _ (idle-IsWithin stop events false t h)
      (adopt-IsWithin stop answer _ (idle-IsWithin stop events t.running t h))

round-IsWithin :
    (handle : ℕ → List Event → List Event) (stop : ℕ) (answer : Answer) (t : Timeline)
    → IsWithin stop t
    → IsWithin stop (round handle answer t)
unfolding round
round-IsWithin handle stop answer t h =
    due-IsWithin handle stop answer t ((next_due t t.events).0) ((next_due t t.events).1)
      (λ e. next_due_free t t.events e) h

run-IsWithin_from :
    (handle : ℕ → List Event → List Event) (stop : ℕ)
    (answers : List ((List Event → List Event) × Answer)) (t : Timeline)
    → IsWithin stop t
    → IsWithin stop (run handle answers t)
unfolding run
run-IsWithin_from handle stop [] t h = h
run-IsWithin_from handle stop ((injects, answer) ∷ answers) t h =
    if-IsWithin t.running stop _ _
      (run-IsWithin_from handle stop answers _
        (round-IsWithin handle stop answer _ (idle-IsWithin stop (injects t.events) t.running t h)))
      h

-- From any first events, whatever the handlers schedule, the link injects and the authority answers: every event
-- that has run lay under the bound granted at that time and before the end of the run, that bound was
-- never taken back, the node's clock has not passed what is granted, and the count of events is right.
pub run-IsWithin :
    (handle : ℕ → List Event → List Event) (stop : ℕ) (events : List Event)
    (answers : List ((List Event → List Event) × Answer))
    → IsWithin stop (run handle answers (timeline stop events))
run-IsWithin handle stop events answers =
    run-IsWithin_from handle stop answers (timeline stop events) (record {
      same_stop = refl;
      within = unfold all_within in refl;
      clock = inl refl;
      counted = refl;
    })
