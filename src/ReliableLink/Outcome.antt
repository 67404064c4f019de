-- ===== src/ReliableLink/Outcome.antt =====
-- How a `send` ends: it returns exactly when every fragment is acknowledged within the retries, and
-- else it times out and closes the link.
use mathlib.Core.Bool.{false≢true}
use mathlib.Core.Option.{none-ne-some, some-injective}
use qfabric.Prelude.{
  ℕ, zero, suc, ◌^◌, ◌≤◌, ◌<◌, ◌≡◌, refl, sym, ap, subst, inl, inr, ◌⊎◌, true, false, ◌||◌, not,
  Bool-cases, or-cases, if_holds, some, List, [], ◌∷◌, ◌++◌, length, get_elem?, get_elem?-some,
  get_or, arith, ltb,
}
use qfabric.Prelude.Elem.{elem, elem_here, elem_there}
use qfabric.Prelude.Result.{ok, err, timeout_error}
use qfabric.Bytes.{Bytes}
use qfabric.ReliableLink.{LinkState, fragments, or_empty, type_data}
use qfabric.ReliableLink.Fragments.{length-fragments}
use qfabric.Prelude.Slices.{slices, length-slice}
use qfabric.ReliableLink.Packet.{FitsHeader, raw, packet_lem}
use qfabric.ReliableLink.Send.{
  is_acked, unacked, indices, packets_of, none_pending, this_round, later_rounds, Sending, heard,
  rounds, with_number, send,
}
use qfabric.ReliableLink.Rounds.{
  elem-unacked, none_pending-elem, still, rounds_done, rounds_again, rounds_out,
}
use qfabric.ReliableLink.Gathered.{
  gathered, gathered-kept, unacked-elem, forget-none, unacked-clean, close-running, indices_busy,
  elem-indices_below,
}

module _ (seq : ℕ) (frags : List Bytes) where
  -- All pending fragments are acknowledged in time, or one is not.
  pub record IsReturned (pending : List ℕ) (all : List (ℕ × ℕ)) (l : LinkState) (x : Sending)
      : Type 0 where
    pub returned : x.2 ≡ ok tt
    pub acknowledged : (i : ℕ) → elem i pending ≡ true → is_acked all seq i ≡ true
    pub counted : (x.0).tx_count ≡ suc l.tx_count
    pub still_running : (x.0).running ≡ l.running
    pub forgotten : (i : ℕ) → i < length frags → is_acked (x.0).acked seq i ≡ false

  pub record IsTimedOut (pending : List ℕ) (all : List (ℕ × ℕ)) (x : Sending) : Type 0 where
    pub raised : x.2 ≡ err timeout_error
    pub missing : (i : ℕ) × (elem i pending ≡ true) × (is_acked all seq i ≡ false)
    pub closed : (x.0).running ≡ false

  abbrev Ends : List ℕ → List (ℕ × ℕ) → LinkState → Sending → Type 0
  Ends pending all l x = IsReturned pending all l x ⊎ IsTimedOut pending all x

module _ (seq : ℕ) (frags : List Bytes) (few : length frags < 256 ^ 2) (fits_seq : seq < 256 ^ 8)
    (short : (i : ℕ) (p : Bytes) → get_elem? frags i ≡ some p → length p < 256 ^ 4) where
  packets_of-ok :
      (pending : List ℕ)
      → ((i : ℕ) → elem i pending ≡ true → i < length frags)
      → (packets : List Bytes) × (packets_of seq frags pending ≡ ok packets)
  unfolding packets_of
  packets_of-ok [] h = ([], refl)
  packets_of-ok (i ∷ pending) h =
      let less = h i (elem_here i pending) in
      let (p, at) = get_elem?-some frags i less in
      let small = short i p at in
      let fits : FitsHeader type_data seq i (length frags) (length p) = omega arith in
      let (packets, e) = packets_of-ok pending (λ j m. h j (elem_there j i pending m)) in
      (
        raw type_data seq i (length frags) (length p) p ∷ packets,
        rw (packets_of, at, packet_lem type_data seq i (length frags) p fits, e) refl,
      )

  -- The rest of the rounds ends for the fragments that were pending before.
  widened :
      (pending : List ℕ) (reply all : List (ℕ × ℕ)) (l : LinkState) (x : Sending)
      → ((i : ℕ) → is_acked (reply ++ l.acked) seq i ≡ true → is_acked all seq i ≡ true)
      → Ends seq frags (unacked (reply ++ l.acked) seq pending) all (heard l reply) x
      → Ends seq frags pending all l x
  widened pending reply all l x kept (inl h) = inl (record {
    returned = h.returned;
    acknowledged = λ i m.
        elim (or-cases (elem i (unacked (reply ++ l.acked) seq pending))
          (is_acked (reply ++ l.acked) seq i) (elem-unacked i seq (reply ++ l.acked) pending m)) [
            | inl e ↦ h.acknowledged i e
            | inr e ↦ kept i e
          ];
    counted = h.counted;
    still_running = h.still_running;
    forgotten = h.forgotten;
  })
  widened pending reply all l x kept (inr h) =
      let (i, m, e) = h.missing in
      inr (record {
        raised = h.raised;
        missing = (i, unacked-elem i seq (reply ++ l.acked) pending m, e);
        closed = h.closed;
      })

  rounds-Ends :
      (left : ℕ) (pending : List ℕ) (replies : List (List (ℕ × ℕ))) (l : LinkState)
      (sent : List Bytes)
      → ((i : ℕ) → elem i pending ≡ true → i < length frags)
      → none_pending pending ≡ false
      → (left ≡ 0 → (i : ℕ) → elem i pending ≡ true → is_acked l.acked seq i ≡ false)
      → Ends seq frags pending
          (gathered left replies l.acked)
          l
          (rounds left seq frags pending replies l sent)
  unfolding gathered
  rounds-Ends zero [] replies l sent inside busy clean = absurd (cc)
  rounds-Ends zero (i ∷ pending) replies l sent inside busy clean =
      subst (Ends seq frags (i ∷ pending) l.acked l)
        (sym (rounds_out seq frags (i ∷ pending) replies l sent))
        (inr (record {
          raised = refl;
          missing = (i, elem_here i pending, clean refl i (elem_here i pending));
          closed = close-running l;
        }))
  rounds-Ends (suc left) pending replies l sent inside busy clean =
      let (packets, built) = packets_of-ok pending inside in
      let acked = this_round replies ++ l.acked in
      let rest = still left seq frags pending replies l sent packets built in
      let all = gathered left (later_rounds replies) acked in
      elim (Bool-cases (none_pending rest)) [
        | inl none_left ↦
            subst (Ends seq frags pending all l)
              (sym (rounds_done left seq frags pending replies l sent packets built none_left))
              (inl (record {
                returned = refl;
                acknowledged = λ i m. gathered-kept left (later_rounds replies) acked seq i (
                    ground (
                      arith,
                      elem-unacked i seq acked pending m,
                      none_pending-elem i rest none_left,
                    ));
                counted = refl;
                still_running = refl;
                forgotten = λ i less. forget-none seq (length frags) i acked less;
              }))
        | inr some_left ↦
            subst (Ends seq frags pending all l)
              (sym (rounds_again left seq frags pending replies l sent packets built some_left))
              (widened pending (this_round replies) all l _
                (λ i. gathered-kept left (later_rounds replies) acked seq i)
                (rounds-Ends left rest (later_rounds replies) (heard l (this_round replies))
                  (sent ++ packets) (λ i m. inside i (unacked-elem i seq acked pending m)) some_left
                  (λ e i m. unacked-clean i seq acked pending m)))
      ]

get_or-get_elem? :
    (xs : List Bytes) (i : ℕ) (p : Bytes) → get_elem? xs i ≡ some p → get_or xs i [] ≡ p
get_or-get_elem? [] i p h = absurd (none-ne-some p h)
get_or-get_elem? (x ∷ xs) zero p h = some-injective x p h
get_or-get_elem? (x ∷ xs) (suc i) p h = get_or-get_elem? xs i p h

length-or_empty_fragment :
    (frags : List Bytes) (size i : ℕ) (p : Bytes)
    → ((k : ℕ) → length (get_or frags k []) ≤ size)
    → get_elem? (or_empty frags) i ≡ some p
    → length p ≤ size
length-or_empty_fragment [] size zero p h at =
    let none_there : length p ≡ 0 = ap length (sym (some-injective [] p at)) in
    omega (arith, none_there)
length-or_empty_fragment [] size (suc i) p h at = absurd (none-ne-some p at)
length-or_empty_fragment (f ∷ frags) size i p h at =
    let same : length (get_or (f ∷ frags) i []) ≡ length p =
      ap length (get_or-get_elem? (f ∷ frags) i p at) in
    omega (arith, same, h i)

length-fragment :
    (size : ℕ) (message : Bytes) (i : ℕ) (p : Bytes)
    → get_elem? (fragments size message) i ≡ some p
    → length p ≤ size
unfolding fragments
length-fragment size message i p at =
    length-or_empty_fragment (slices (length message) message size 0 (length message)) size i p
      (λ k. length-slice (length message) message size 0 (length message) k) at

-- On a connected link with at least one retry and a fragment size within its bound, for a message of
-- at most 65535 fragments and a number that fits: either every fragment is acknowledged within the
-- retries, `send` returns, counts the message, and forgets its acknowledgements; or some fragment
-- is not, `send` raises TimeoutError, and the link is closed.
pub send_ends :
    (message : Bytes) (replies : List (List (ℕ × ℕ))) (l : LinkState)
    → l.connected ≡ true
    → l.running ≡ true
    → 1 ≤ l.max_retries
    → l.fragment_size ≤ 65535
    → l.next_tx_seq < 256 ^ 8
    → length (fragments l.fragment_size message) ≤ 65535
    → let frags = fragments l.fragment_size message in
      let pending = indices 0 (length frags) in
      let all = gathered l.max_retries replies l.acked in
      IsReturned l.next_tx_seq frags pending all (with_number l) (send message replies l)
      ⊎ IsTimedOut l.next_tx_seq frags pending all (send message replies l)
unfolding send
send_ends message replies l up running retry size number count =
    let frags = fragments l.fragment_size message in
    let pending = indices 0 (length frags) in
    let all = gathered l.max_retries replies l.acked in
    let good : Sending → Type 0 = λ x.
      IsReturned l.next_tx_seq frags pending all (with_number l) x
      ⊎ IsTimedOut l.next_tx_seq frags pending all x in
    if_holds good (not l.connected || not l.running) _ _
      (λ c. absurd (false≢true (ground (arith, c, up, running))))
      (λ c.
        if_holds good (ltb 65535 (length frags)) _ _ (λ c. absurd (ground (arith, c, count)))
          (λ c.
            rounds-Ends l.next_tx_seq frags (omega (arith, count)) number
              (λ i p at. omega (arith, length-fragment l.fragment_size message i p at, size))
              l.max_retries pending replies (with_number l) []
              (λ i m. elem-indices_below i (length frags) m)
              (indices_busy (length frags) (length-fragments l.fragment_size message))
              (λ none_left. absurd (omega (arith, none_left, retry)))))
