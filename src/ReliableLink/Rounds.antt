-- ===== src/ReliableLink/Rounds.antt =====
-- One round of `send`: which fragments are left, and the ways on.
use qfabric.Prelude.{
  ℕ, zero, suc, ◌+◌, ◌≤◌, ◌<◌, ◌≡◌, refl, ap, inl, inr, true, false, ◌||◌, Bool-cases, List, [],
  ◌∷◌, ◌++◌, length, arith, ◌==◌,
}
use qfabric.Prelude.Elem.{elem, elem_there}
use qfabric.Prelude.Result.{Result, Error, ok, err, timeout_error}
use qfabric.Bytes.{Bytes}
use qfabric.ReliableLink.{LinkState}
use qfabric.ReliableLink.Send.{
  is_acked, unacked, forget, indices, packets_of, none_pending, this_round, later_rounds, heard,
  done, rounds, close, send, send_all,
}

pub is_acked-append :
    (xs ys : List (ℕ × ℕ)) (s i : ℕ)
    → is_acked (xs ++ ys) s i ≡ (is_acked xs s i || is_acked ys s i)
unfolding is_acked
is_acked-append [] ys s i = refl
is_acked-append (a ∷ xs) ys s i = ground (arith, is_acked-append xs ys s i)

pub is_acked-forget :
    (seq count s i : ℕ) (acked : List (ℕ × ℕ))
    → is_acked (forget seq count acked) s i ≡ true
    → is_acked acked s i ≡ true
unfolding forget is_acked
is_acked-forget seq count s i [] h = h
is_acked-forget seq count s i (a ∷ acked) h = ground (arith, h, is_acked-forget seq count s i acked)

-- An index that was pending still is, or has been acknowledged.
pub elem-unacked :
    (i seq : ℕ) (acked : List (ℕ × ℕ)) (pending : List ℕ)
    → elem i pending ≡ true
    → (elem i (unacked acked seq pending) || is_acked acked seq i) ≡ true
unfolding unacked
elem-unacked i seq acked [] h = absurd (cc)
elem-unacked i seq acked (j ∷ pending) h =
    ground (arith, h, elem-unacked i seq acked pending, ap (is_acked acked seq) {x = i} {y = j})

pub elem-indices : (i k n : ℕ) → k ≤ i → i < k + n → elem i (indices k n) ≡ true
unfolding indices
elem-indices i k zero le lt = absurd (omega arith)
elem-indices i k (suc n) le lt = elim (Bool-cases (i == k)) [
  | inl e ↦ ground (arith, e)
  | inr e ↦
      elem_there i k (indices (suc k) n)
        (elem-indices i (suc k) n (ground (arith, e)) (omega arith))
]

pub none_pending-elem : (i : ℕ) (xs : List ℕ) → none_pending xs ≡ true → elem i xs ≡ false
none_pending-elem i [] h = refl
none_pending-elem i (x ∷ xs) h = absurd (cc)

-- The ways on of a round.
module _ (left seq : ℕ) (frags : List Bytes) (pending : List ℕ) (replies : List (List (ℕ × ℕ)))
    (l : LinkState) (sent packets : List Bytes)
    (built : packets_of seq frags pending ≡ ok packets) where
  abbrev pub still : List ℕ
  still = unacked (this_round replies ++ l.acked) seq pending

  pub rounds_done :
      none_pending still ≡ true
      → rounds (suc left) seq frags pending replies l sent
        ≡ (done seq (length frags) (heard l (this_round replies)), sent ++ packets, ok tt)
  unfolding rounds
  rounds_done e = rw (rounds, built, e) refl

  pub rounds_again :
      none_pending still ≡ false
      → rounds (suc left) seq frags pending replies l sent
        ≡ rounds left seq frags still
            (later_rounds replies)
            (heard l (this_round replies))
            (sent ++ packets)
  unfolding rounds
  rounds_again e = rw (rounds, built, e) refl

pub rounds_out :
    (seq : ℕ) (frags : List Bytes) (pending : List ℕ) (replies : List (List (ℕ × ℕ)))
    (l : LinkState) (sent : List Bytes)
    → rounds zero seq frags pending replies l sent ≡ (close l, sent, err timeout_error)
unfolding rounds
rounds_out seq frags pending replies l sent = refl

pub rounds_raise :
    (left seq : ℕ) (frags : List Bytes) (pending : List ℕ) (replies : List (List (ℕ × ℕ)))
    (l : LinkState) (sent : List Bytes) (e : Error)
    → packets_of seq frags pending ≡ err e
    → rounds (suc left) seq frags pending replies l sent ≡ (l, sent, err e)
unfolding rounds
rounds_raise left seq frags pending replies l sent e h = rw (rounds, h) refl

pub err-ne-ok : {A : Type 0} (e : Error) {a : A} → ◌≡◌ {A = Result A} (err e) (ok a) → ⊥
err-ne-ok e h = cc

module _ (m : Bytes) (replies : List (List (ℕ × ℕ))) (script : List (Bytes × List (List (ℕ × ℕ))))
    (l : LinkState) where
  pub send_all_stop :
      (e : Error)
      → (send m replies l).2 ≡ err e
      → send_all ((m, replies) ∷ script) l ≡ ((send m replies l).0, err e)
  unfolding send_all
  send_all_stop e h = rw (send_all, h) refl

  pub send_all_next :
      (send m replies l).2 ≡ ok tt
      → send_all ((m, replies) ∷ script) l ≡ send_all script ((send m replies l).0)
  unfolding send_all
  send_all_next h = rw (send_all, h) refl
