-- ===== src/ReliableLink/Send.antt =====
-- qne-sequence/qne_sequence/l2_link.py: the retry loop of `send`, and `close`. The acknowledgements that
-- the receiving thread records while `send` waits are given, one list for each round; no other
-- thread closes the link meanwhile.
use qfabric.Prelude.{
  ℕ, zero, suc, Bool, true, false, not, ◌&&◌, ◌||◌, none, some, List, [], ◌∷◌, ◌++◌, length,
  get_elem?, ltb, ◌==◌, if◌then◌else◌,
}
use qfabric.Prelude.Result.{
  Result, ok, err, value_error, index_error, connection_error, timeout_error, ◌>>=◌,
}
use qfabric.Bytes.{Bytes}
use qfabric.ReliableLink.{LinkState, fragments, packet, type_data}

-- `(seq, index) in self._acked`
unfoldable pub is_acked : List (ℕ × ℕ) → ℕ → ℕ → Bool
is_acked [] seq index = false
is_acked (a ∷ acked) seq index = (a.0 == seq && a.1 == index) || is_acked acked seq index

-- `{index for index in pending if (seq, index) not in self._acked}`, in order
unfoldable pub unacked : List (ℕ × ℕ) → ℕ → List ℕ → List ℕ
unacked acked seq [] = []
unacked acked seq (i ∷ pending) =
    if is_acked acked seq i then unacked acked seq pending else i ∷ unacked acked seq pending

-- `self._acked.difference_update((seq, index) for index in range(frag_count))`
unfoldable pub forget : ℕ → ℕ → List (ℕ × ℕ) → List (ℕ × ℕ)
forget seq frag_count [] = []
forget seq frag_count (a ∷ acked) =
    if a.0 == seq && ltb (a.1) frag_count
    then forget seq frag_count acked
    else a ∷ forget seq frag_count acked

-- `set(range(frag_count))`, from one index on
unfoldable pub indices : ℕ → ℕ → List ℕ
indices i zero = []
indices i (suc count) = i ∷ indices (suc i) count

-- The packets of the pending fragments.
unfoldable pub packets_of : ℕ → List Bytes → List ℕ → Result (List Bytes)
packets_of seq frags [] = ok []
packets_of seq frags (i ∷ pending) = elim (get_elem? frags i) [
  | none ↦ err index_error
  | some p ↦ do
    first ← packet type_data seq i (length frags) p
    rest ← packets_of seq frags pending
    ok (first ∷ rest)
]

-- `close`
unfoldable pub close : LinkState → LinkState
close l =
    if not l.running && not l.connected then l else record l { running = false; connected = false }

abbrev pub this_round : List (List (ℕ × ℕ)) → List (ℕ × ℕ)
this_round [] = []
this_round (r ∷ replies) = r

abbrev pub later_rounds : List (List (ℕ × ℕ)) → List (List (ℕ × ℕ))
later_rounds [] = []
later_rounds (r ∷ replies) = replies

abbrev pub none_pending : List ℕ → Bool
none_pending [] = true
none_pending (i ∷ pending) = false

-- What `send` leaves: the state, the packets sent, and its result.
abbrev pub Sending : Type 0
Sending = LinkState × List Bytes × Result (Unit {0})

abbrev pub heard : LinkState → List (ℕ × ℕ) → LinkState
heard l reply = record l { acked = reply ++ l.acked }

abbrev pub done : ℕ → ℕ → LinkState → LinkState
done seq frag_count l = record l {
  acked = forget seq frag_count l.acked;
  tx_count = suc l.tx_count;
}

-- The loop over the retries that are left.
unfoldable pub rounds :
    ℕ → ℕ → List Bytes → List ℕ → List (List (ℕ × ℕ)) → LinkState → List Bytes → Sending
rounds zero seq frags pending replies l sent = (close l, sent, err timeout_error)
rounds (suc left) seq frags pending replies l sent = elim (packets_of seq frags pending) [
  | err raised ↦ (l, sent, err raised)
  | ok packets ↦
      let l₁ = heard l (this_round replies) in
      let open_ones = unacked l₁.acked seq pending in
      let again = rounds left seq frags open_ones (later_rounds replies) l₁ (sent ++ packets) in
      if none_pending open_ones then (done seq (length frags) l₁, sent ++ packets, ok tt) else again
]

abbrev pub with_number : LinkState → LinkState
with_number l = record l { next_tx_seq = suc l.next_tx_seq }

-- `send` of a message that is sealed already if the link is authenticated
unfoldable pub send : Bytes → List (List (ℕ × ℕ)) → LinkState → Sending
send message replies l =
    if not l.connected || not l.running
    then (l, [], err connection_error)
    else (let frags = fragments l.fragment_size message in
        if ltb 65535 (length frags)
        then (with_number l, [], err value_error)
        else rounds l.max_retries l.next_tx_seq frags (indices 0 (length frags)) replies
            (with_number l) [])

-- One `send` after the other, each with the acknowledgements of its rounds, until one raises.
unfoldable pub send_all :
    List (Bytes × List (List (ℕ × ℕ))) → LinkState → LinkState × Result (Unit {0})
send_all [] l = (l, ok tt)
send_all ((m, replies) ∷ rest) l =
    let (l₁, sent, result) = send m replies l in
    elim result [ err raised ↦ (l₁, err raised) | ok u ↦ send_all rest l₁ ]
