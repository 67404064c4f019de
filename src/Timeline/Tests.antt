-- ===== src/Timeline/Tests.antt =====
-- Two events and a bound between them.
use qfabric.Prelude.{ℕ, ◌≡◌, refl, true, false, List, [], ◌∷◌}
use qfabric.Timeline.{Event, Answer, lbts, rereport, next_due, execute, adopt, round, run, timeline}
use qfabric.Timeline.Granted.{IsWithin, run-IsWithin}

abbrev at : ℕ → Event
at t = record { time = t; invalid = false }

abbrev events : List Event
events = at 3 ∷ record { time = 4; invalid = true } ∷ at 8 ∷ []

abbrev quiet : Answer → (List Event → List Event) × Answer
quiet answer = (λ queue. queue, answer)

abbrev answers : List ((List Event → List Event) × Answer)
answers =
    quiet rereport
    ∷ quiet (lbts 5)
    ∷ quiet (lbts 5)
    ∷ (λ queue. at 4 ∷ queue, lbts 5)
    ∷ quiet (lbts 7)
    ∷ []

abbrev nothing_new : ℕ → List Event → List Event
nothing_new t rest = rest

-- An event is injected at 4; the invalid one is dropped, and the last one is held.
held : (run nothing_new answers (timeline 100 events)).executed ≡ (3, 6) ∷ (4, 6) ∷ []
unfolding run round next_due execute adopt
held = refl

run-IsWithin_example : IsWithin 100 (run nothing_new answers (timeline 100 events))
run-IsWithin_example = run-IsWithin nothing_new 100 events answers
