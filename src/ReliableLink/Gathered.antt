-- ===== src/ReliableLink/Gathered.antt =====
-- The acknowledgements that have come after some rounds, and the fragments that still lack one.
use qfabric.Prelude.{
  ℕ, zero, suc, ◌+◌, ◌≤◌, ◌<◌, ◌≡◌, refl, ap, true, false, ◌&&◌, not, if_holds, List, [], ◌∷◌, ◌++◌,
  arith,
}
use qfabric.Prelude.Elem.{elem}
use qfabric.ReliableLink.{LinkState}
use qfabric.ReliableLink.Send.{
  is_acked, unacked, forget, indices, close, none_pending, this_round, later_rounds,
}
use qfabric.ReliableLink.Rounds.{is_acked-append}

-- What has been acknowledged after the given number of rounds.
unfoldable pub gathered : ℕ → List (List (ℕ × ℕ)) → List (ℕ × ℕ) → List (ℕ × ℕ)
gathered zero replies acked = acked
gathered (suc left) replies acked =
    gathered left (later_rounds replies) (this_round replies ++ acked)

pub gathered-kept :
    (left : ℕ) (replies : List (List (ℕ × ℕ))) (acked : List (ℕ × ℕ)) (s i : ℕ)
    → is_acked acked s i ≡ true
    → is_acked (gathered left replies acked) s i ≡ true
unfolding gathered
gathered-kept zero replies acked s i h = h
gathered-kept (suc left) replies acked s i h =
    gathered-kept left (later_rounds replies) (this_round replies ++ acked) s i
      (ground (arith, h, is_acked-append (this_round replies) acked s i))

pub unacked-elem :
    (i seq : ℕ) (acked : List (ℕ × ℕ)) (pending : List ℕ)
    → elem i (unacked acked seq pending) ≡ true
    → elem i pending ≡ true
unfolding unacked
unacked-elem i seq acked [] h = h
unacked-elem i seq acked (j ∷ pending) h = ground (arith, h, unacked-elem i seq acked pending)

-- After the clean-up no acknowledgement of the message is left.
pub forget-none :
    (seq count i : ℕ) (acked : List (ℕ × ℕ))
    → i < count
    → is_acked (forget seq count acked) seq i ≡ false
unfolding forget is_acked
forget-none seq count i [] h = refl
forget-none seq count i (a ∷ acked) h = ground (arith, h, forget-none seq count i acked h)

pub unacked-clean :
    (i seq : ℕ) (acked : List (ℕ × ℕ)) (pending : List ℕ)
    → elem i (unacked acked seq pending) ≡ true
    → is_acked acked seq i ≡ false
unfolding unacked
unacked-clean i seq acked [] h = absurd (cc)
unacked-clean i seq acked (j ∷ pending) h =
    ground (arith, h, unacked-clean i seq acked pending, ap (is_acked acked seq) {x = i} {y = j})

pub close-running : (l : LinkState) → (close l).running ≡ false
unfolding close
close-running l =
    if_holds (λ (x : LinkState). x.running ≡ false) (not l.running && not l.connected) _ _
      (λ c. ground (arith, c)) (λ c. refl)

pub indices_busy : (n : ℕ) → 1 ≤ n → none_pending (indices 0 n) ≡ false
unfolding indices
indices_busy zero h = absurd (omega arith)
indices_busy (suc n) h = refl

elem-indices_from : (i k n : ℕ) → elem i (indices k n) ≡ true → i < k + n
unfolding indices
elem-indices_from i k zero h = absurd (cc)
elem-indices_from i k (suc n) h = ground (arith, h, elem-indices_from i (suc k) n)

pub elem-indices_below : (i n : ℕ) → elem i (indices 0 n) ≡ true → i < n
elem-indices_below i n h = omega (arith, elem-indices_from i 0 n h)
