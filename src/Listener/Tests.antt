-- ===== src/Listener/Tests.antt =====
-- Two timed frames, a frame of the later phase before the hand-over, and one behind it.
use qfabric.Prelude.{◌<◌, ◌≡◌, refl, false, some, List, [], ◌∷◌}
use qfabric.Listener.{
  rpc, protocol, Listener, listener, deliver, on_frame, Step, arrives, hands_over, step, run,
  certified,
}
use qfabric.Listener.HandOver.{rpc_frames, kept, IsHanded, run_keeps_frames}
use qfabric.Listener.Fidelity.{timed, due, stragglers, certified-run}

abbrev steps : List Step
steps =
    arrives 3 (protocol (some 1) (1 ∷ []))
    ∷ arrives 9 (rpc (5 ∷ []))
    ∷ hands_over
    ∷ arrives 11 (protocol (some 2) (2 ∷ []))
    ∷ arrives 12 (rpc (6 ∷ []))
    ∷ []

abbrev after : Listener
after = run steps (listener 10)

ends : (after.handed ≡ (5 ∷ []) ∷ (6 ∷ []) ∷ []) × (after.dropped_after_handoff ≡ 1)
unfolding run step on_frame deliver
ends = (refl, refl)

run_keeps_frames_example : (kept after ≡ rpc_frames steps) × IsHanded after
run_keeps_frames_example = run_keeps_frames 10 steps

certified-run_example :
    (0 < 10)
    × (timed after.injected ≡ due 10 steps)
    × (after.dropped_after_handoff ≡ stragglers false steps)
certified-run_example = certified-run 10 steps (unfold certified run step on_frame deliver in refl)

-- The frame before the hand-over is due at 11, and the one behind it is not.
due_once : (due 10 steps ≡ (11, 1, 1 ∷ []) ∷ []) × (stragglers false steps ≡ 1)
unfolding due stragglers
due_once = (refl, refl)
