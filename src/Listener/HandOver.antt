-- ===== src/Listener/HandOver.antt =====
-- No frame of the later phase is lost or reordered, wherever the hand-over falls.
use mathlib.Core.Bool.{false≢true}
use qfabric.Prelude.{
  ℕ, suc, ◌+◌, ◌≡◌, refl, sym, ◌∙◌, ap, Bool, true, false, inl, inr, Bool-cases, Option, none, some,
  List, [], ◌∷◌, ◌++◌, append_assoc, append-nil, ltb, if◌then◌else◌,
}
use qfabric.Bytes.{Bytes}
use qfabric.Listener.{
  rpc, protocol, Listener, listener, deliver, on_frame, Step, arrives, hands_over, step, run,
}

-- The frames of the later phase, in the order in which they arrive.
abbrev pub rpc_frames : List Step → List Bytes
rpc_frames [] = []
rpc_frames (arrives now (rpc frame) ∷ steps) = frame ∷ rpc_frames steps
rpc_frames (arrives now (protocol t_send payload) ∷ steps) = rpc_frames steps
rpc_frames (hands_over ∷ steps) = rpc_frames steps

-- Everything that the new handler has, or will get at the hand-over.
abbrev pub kept : Listener → List Bytes
kept l = l.handed ++ l.pending_rpc

-- Nothing is stashed once the handler is set.
abbrev pub IsHanded : Listener → Type 0
IsHanded l = l.handoff ≡ true → l.pending_rpc ≡ []

deliver-kept :
    (now : ℕ) (t : Option ℕ) (p : Bytes) (l : Listener)
    → (kept (deliver now t p l) ≡ kept l)
      × ((deliver now t p l).pending_rpc ≡ l.pending_rpc)
      × ((deliver now t p l).handoff ≡ l.handoff)
unfolding deliver
deliver-kept now none p l = (refl, refl, refl)
deliver-kept now (some t) p l = elim (Bool-cases (ltb 0 l.delay)) [
  | inr e ↦ rw e (refl, refl, refl)
  | inl e ↦ elim (Bool-cases (ltb (t + l.delay) now)) [
    | inl f ↦ rw (e, f) (refl, refl, refl)
    | inr f ↦ rw (e, f) (refl, refl, refl)
  ]
]

-- What one step does: the frames xs are kept behind the others.
abbrev Keeps : Listener → List Bytes → Listener → Type 0
Keeps l xs l' = (kept l' ≡ kept l ++ xs) × IsHanded l'

stash-Keeps :
    (b : Bool) (frame : Bytes) (l : Listener)
    → b ≡ l.handoff
    → IsHanded l
    → Keeps l (frame ∷ []) (
        if b
        then record l { handed = l.handed ++ frame ∷ [] }
        else record l { pending_rpc = l.pending_rpc ++ frame ∷ [] })
stash-Keeps true frame l e h =
    let none_left = h (sym e) in
    (
      ap (λ (t : List Bytes). (l.handed ++ frame ∷ []) ++ t) none_left
          ∙ append-nil (l.handed ++ frame ∷ [])
          ∙ ap (λ (t : List Bytes). t ++ frame ∷ [])
              (sym (append-nil l.handed) ∙ ap (λ (t : List Bytes). l.handed ++ t) (sym none_left)),
      h,
    )
stash-Keeps false frame l e h =
    (sym (append_assoc l.handed l.pending_rpc (frame ∷ [])), λ on. absurd (false≢true (e ∙ on)))

protocol-Keeps :
    (b : Bool) (now : ℕ) (t : Option ℕ) (p : Bytes) (l : Listener)
    → IsHanded l
    → Keeps l [] (
        if b
        then record l { dropped_after_handoff = suc l.dropped_after_handoff }
        else deliver now t p l)
protocol-Keeps true now t p l h = (sym (append-nil (kept l)), h)
protocol-Keeps false now t p l h =
    let (same, pending, handoff) = deliver-kept now t p l in
    (same ∙ sym (append-nil (kept l)), λ on. pending ∙ h (sym handoff ∙ on))

step-Keeps : (s : Step) (l : Listener) → IsHanded l → Keeps l (rpc_frames (s ∷ [])) (step s l)
unfolding step on_frame
step-Keeps hands_over l h = (refl, λ e. refl)
step-Keeps (arrives now (rpc frame)) l h = stash-Keeps l.handoff frame l refl h
step-Keeps (arrives now (protocol t p)) l h = protocol-Keeps l.handoff now t p l h

rpc_frames-cons :
    (s : Step) (steps : List Step)
    → rpc_frames (s ∷ steps) ≡ rpc_frames (s ∷ []) ++ rpc_frames steps
rpc_frames-cons hands_over steps = refl
rpc_frames-cons (arrives now (rpc frame)) steps = refl
rpc_frames-cons (arrives now (protocol t p)) steps = refl

run-Keeps :
    (steps : List Step) (l : Listener) → IsHanded l → Keeps l (rpc_frames steps) (run steps l)
unfolding run
run-Keeps [] l h = (sym (append-nil (kept l)), h)
run-Keeps (s ∷ steps) l h =
    let (first, handed) = step-Keeps s l h in
    let (rest, handed') = run-Keeps steps (step s l) handed in
    (
      rest
          ∙ ap (λ (t : List Bytes). t ++ rpc_frames steps) first
          ∙ append_assoc (kept l) (rpc_frames (s ∷ [])) (rpc_frames steps)
          ∙ ap (λ (t : List Bytes). kept l ++ t) (sym (rpc_frames-cons s steps)),
      handed',
    )

-- From a new listener, for any interleaving of arriving frames and hand-overs: what the new handler
-- has got, followed by what is still stashed for it, is every frame of the later phase in the order
-- of arrival; and once the handler is set nothing is stashed, so it has got them all.
pub run_keeps_frames :
    (delay : ℕ) (steps : List Step)
    → (kept (run steps (listener delay)) ≡ rpc_frames steps) × IsHanded (run steps (listener delay))
run_keeps_frames delay steps = run-Keeps steps (listener delay) (λ e. refl)
