-- ===== src/ReliableLink/Delivered.antt =====
-- A `send` that returns was acknowledged in every fragment; so once all sends have returned, what the
-- receiver has delivered is exactly what was sent.
use mathlib.Core.Bool.{false≢true}
use mathlib.Core.Option.{none-ne-some, some-injective}
use qfabric.Prelude.{
  ℕ, zero, suc, ◌+◌, ◌≤◌, ◌<◌, ◌≡◌, refl, sym, ◌∙◌, ap, subst, inl, inr, true, ◌||◌, not,
  Bool-cases, or-cases, if_holds, some, List, [], ◌∷◌, ◌++◌, map, length, get_elem?, arith, ltb,
}
use qfabric.Prelude.Elem.{elem}
use qfabric.Prelude.Result.{Result-cases, ok}
use qfabric.Bytes.{Bytes}
use qfabric.ReliableLink.{LinkState, DataPacket, fragments, receive_all, opened}
use qfabric.ReliableLink.Arrival.{arrived, FitsLink, AllGenuine, receive_all_complete}
use qfabric.ReliableLink.Send.{
  is_acked, indices, packets_of, none_pending, this_round, later_rounds, Sending, heard, rounds,
  with_number, send, send_all,
}
use qfabric.ReliableLink.Rounds.{
  is_acked-append, is_acked-forget, elem-unacked, elem-indices, none_pending-elem, still,
  rounds_done, rounds_again, rounds_out, rounds_raise, err-ne-ok, send_all_stop, send_all_next,
}

-- What is true of every acknowledgement that has come.
module _ (P : ℕ → ℕ → Type 0) where
  unfoldable pub AllTrue : List (ℕ × ℕ) → Type 0
  AllTrue acked = (s i : ℕ) → is_acked acked s i ≡ true → P s i

  unfoldable pub AllHeard : List (List (ℕ × ℕ)) → Type 0
  AllHeard [] = Unit
  AllHeard (r ∷ replies) = AllTrue r × AllHeard replies

  -- What a send that returned leaves.
  pub record IsReturned (seq : ℕ) (pending : List ℕ) (before after : LinkState) : Type 0 where
    pub acknowledged : (i : ℕ) → elem i pending ≡ true → P seq i
    pub genuine : AllTrue after.acked
    pub same_seq : after.next_tx_seq ≡ before.next_tx_seq
    pub same_size : after.fragment_size ≡ before.fragment_size

  AllTrue-heard :
      (replies : List (List (ℕ × ℕ))) (acked : List (ℕ × ℕ))
      → AllHeard replies
      → AllTrue acked
      → AllTrue (this_round replies ++ acked)
  unfolding AllTrue AllHeard
  AllTrue-heard [] acked all h s i a = h s i a
  AllTrue-heard (r ∷ replies) acked all h s i a =
      elim (or-cases (is_acked r s i) (is_acked acked s i)
        (sym (is_acked-append r acked s i) ∙ a)) [ inl x ↦ all.0 s i x | inr x ↦ h s i x ]

  AllHeard-tail :
      (replies : List (List (ℕ × ℕ))) → AllHeard replies → AllHeard (later_rounds replies)
  unfolding AllHeard
  AllHeard-tail [] all = all
  AllHeard-tail (r ∷ replies) all = all.1

  rounds-IsReturned :
      (left seq : ℕ) (frags : List Bytes) (pending : List ℕ) (replies : List (List (ℕ × ℕ)))
      (l : LinkState) (sent : List Bytes)
      → AllHeard replies
      → AllTrue l.acked
      → (rounds left seq frags pending replies l sent).2 ≡ ok tt
      → IsReturned seq pending l ((rounds left seq frags pending replies l sent).0)
  unfolding AllTrue
  rounds-IsReturned zero seq frags pending replies l sent all h =
      subst (λ (x : Sending). x.2 ≡ ok tt → IsReturned seq pending l (x.0))
        (sym (rounds_out seq frags pending replies l sent)) (λ e. absurd (cc))
  rounds-IsReturned (suc left) seq frags pending replies l sent all h =
      let good : Sending → Type 0 = λ x. x.2 ≡ ok tt → IsReturned seq pending l (x.0) in
      let now = AllTrue-heard replies l.acked all h in
      elim (Result-cases (packets_of seq frags pending)) [
        | inl (e, bad) ↦
            subst good (sym (rounds_raise left seq frags pending replies l sent e bad))
              (λ wrong. absurd (cc))
        | inr (packets, built) ↦
            let rest = still left seq frags pending replies l sent packets built in
            elim (Bool-cases (none_pending rest)) [
              | inl none_left ↦
                  subst good
                    (sym
                      (rounds_done left seq frags pending replies l sent packets built none_left))
                    (λ e. record {
                      acknowledged = λ i m. now seq i (
                          ground (
                            arith,
                            elem-unacked i seq (this_round replies ++ l.acked) pending m,
                            none_pending-elem i rest none_left,
                          ));
                      genuine = λ s i a. now s i (
                          is_acked-forget seq (length frags) s i (this_round replies ++ l.acked) a);
                      same_seq = refl;
                      same_size = refl;
                    })
              | inr some_left ↦
                  subst good
                    (sym
                      (rounds_again left seq frags pending replies l sent packets built some_left))
                    (λ e.
                      let later =
                        rounds-IsReturned left seq frags rest (later_rounds replies)
                          (heard l (this_round replies)) (sent ++ packets)
                          (AllHeard-tail replies all) now e in
                      record {
                        acknowledged = λ i m.
                            elim (or-cases (elem i rest)
                              (is_acked (this_round replies ++ l.acked) seq i)
                              (elem-unacked i seq (this_round replies ++ l.acked) pending m)) [
                                | inl x ↦ later.acknowledged i x
                                | inr x ↦ now seq i x
                              ];
                        genuine = later.genuine;
                        same_seq = later.same_seq;
                        same_size = later.same_size;
                      })
            ]
      ]

  send-IsReturned :
      (message : Bytes) (replies : List (List (ℕ × ℕ))) (l : LinkState)
      → AllHeard replies
      → AllTrue l.acked
      → (send message replies l).2 ≡ ok tt
      → IsReturned l.next_tx_seq
          (indices 0 (length (fragments l.fragment_size message)))
          (with_number l)
          ((send message replies l).0)
  unfolding send
  send-IsReturned message replies l all h =
      let frags = fragments l.fragment_size message in
      let good : Sending → Type 0 = λ x.
        x.2 ≡ ok tt → IsReturned l.next_tx_seq (indices 0 (length frags)) (with_number l) (x.0) in
      if_holds good (not l.connected || not l.running) _ _ (λ c wrong. absurd (cc))
        (λ c.
          if_holds good (ltb 65535 (length frags)) _ _ (λ c wrong. absurd (cc))
            (λ c.
              rounds-IsReturned l.max_retries l.next_tx_seq frags (indices 0 (length frags)) replies
                (with_number l) [] all h))

  unfoldable pub AllHonest : List (Bytes × List (List (ℕ × ℕ))) → Type 0
  AllHonest [] = Unit
  AllHonest (x ∷ script) = AllHeard (x.1) × AllHonest script

  -- Every fragment of every message, the first of which has the number `base`.
  Covered : ℕ → ℕ → List (Bytes × List (List (ℕ × ℕ))) → Type 0
  Covered size base script =
      (j i s : ℕ) (m : Bytes)
      → s ≡ base + j
      → get_elem? (map (λ x. x.0) script) j ≡ some m
      → i < length (fragments size m)
      → P s i

  Covered-cons :
      (size base : ℕ) (m₀ : Bytes) (replies : List (List (ℕ × ℕ)))
      (script : List (Bytes × List (List (ℕ × ℕ))))
      → ((i : ℕ) → i < length (fragments size m₀) → P base i)
      → Covered size (suc base) script
      → Covered size base ((m₀, replies) ∷ script)
  unfolding Covered
  Covered-cons size base m₀ replies script first rest zero i s m place at less =
      let same : m₀ ≡ m = some-injective m₀ m at in
      let number : base ≡ s = omega (arith, place) in
      subst (λ (n : ℕ). P n i) number
        (first i (subst (λ (x : Bytes). i < length (fragments size x)) (sym same) less))
  Covered-cons size base m₀ replies script first rest (suc j) i s m place at less =
      rest j i s m (omega (arith, place)) at less

  Covered-nil : (size base : ℕ) → Covered size base []
  unfolding Covered
  Covered-nil size base j i s m place at less = absurd (none-ne-some m at)

  -- What is true of the fragments of all messages of a script that was sent to its end.
  send_all-Covered :
      (size : ℕ) (script : List (Bytes × List (List (ℕ × ℕ)))) (l : LinkState)
      → l.fragment_size ≡ size
      → AllHonest script
      → AllTrue l.acked
      → (send_all script l).1 ≡ ok tt
      → Covered size l.next_tx_seq script
  unfolding AllHonest
  send_all-Covered size [] l e all h fine = Covered-nil size l.next_tx_seq
  send_all-Covered size ((m₀, replies) ∷ script) l e all h fine =
      elim (Result-cases ((send m₀ replies l).2)) [
        | inl (raised, bad) ↦ absurd (
            err-ne-ok raised
              (sym (ap (λ x. x.1) (send_all_stop m₀ replies script l raised bad)) ∙ fine))
        | inr (u, good) ↦
            let returned = send-IsReturned m₀ replies l all.0 h good in
            let after = (send m₀ replies l).0 in
            let rest =
              send_all-Covered size script after (returned.same_size ∙ e) all.1 returned.genuine
                (sym (ap (λ x. x.1) (send_all_next m₀ replies script l good)) ∙ fine) in
            Covered-cons size l.next_tx_seq m₀ replies script
              (λ i less.
                let here : i < length (fragments l.fragment_size m₀) =
                  subst (λ (n : ℕ). i < length (fragments n m₀)) (sym e) less in
                returned.acknowledged i (
                  elem-indices i 0 (length (fragments l.fragment_size m₀)) (omega arith)
                    (omega (arith, here))))
              (subst (λ (n : ℕ). Covered size n script) returned.same_seq rest)
      ]

abbrev pub messages_of : List (Bytes × List (List (ℕ × ℕ))) → List Bytes
messages_of script = map (λ x. x.0) script

-- A link of which nothing has been sent or acknowledged; the messages fit the header; genuine packets
-- have come to the receiver, and each acknowledgement that a send heard is of a fragment that came. If
-- all sends returned, the receiver has handled all packets and delivered exactly the messages sent.
pub send_all_delivered :
    (script : List (Bytes × List (List (ℕ × ℕ)))) (size : ℕ) (size_pos : 1 ≤ size)
    (packets : List DataPacket) (l : LinkState) (retries : ℕ)
    → FitsLink (messages_of script) size size_pos
    → AllGenuine (messages_of script) size size_pos packets
    → AllHonest (λ s i. arrived s i packets ≡ true) script
    → l.fragment_size ≡ size
    → l.next_tx_seq ≡ 0
    → l.acked ≡ []
    → (send_all script l).1 ≡ ok tt
    → (l' : LinkState) × (receive_all (opened size retries) packets ≡ ok l')
      × (l'.deliveries ≡ messages_of script)
unfolding Covered AllTrue
send_all_delivered script size size_pos packets l retries fits genuine honest e start quiet fine =
    let P : ℕ → ℕ → Type 0 = λ s i. arrived s i packets ≡ true in
    let covered =
      send_all-Covered P size script l e honest
        (subst (AllTrue P) (sym quiet) (λ s i a. absurd (unfold is_acked in false≢true a))) fine in
    receive_all_complete (messages_of script) size size_pos fits retries packets genuine
      (λ s i m at less. covered s i s m (omega (arith, start)) at less)
