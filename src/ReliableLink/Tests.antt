-- ===== src/ReliableLink/Tests.antt =====
-- Two messages in three packets, which arrive out of order and with a repetition.
use mathlib.Core.Option.{some-injective, none-ne-some}
use qfabric.Prelude.{
  ℕ, zero, suc, ◌≤◌, ◌⊎◌, ◌^◌, sym, subst, ◌≡◌, refl, ◌<◌, some, List, [], ◌∷◌, ◌++◌, length,
  get_elem?, take, true, arith,
}
use qfabric.Prelude.Slices.{slices}
use qfabric.Prelude.Result.{ok}
use qfabric.Bytes.{Bytes, uint, be}
use qfabric.ReliableLink.{LinkState, DataPacket, fragments, packet, receive_all, opened, type_data}
use qfabric.ReliableLink.Dispatch.{dispatch, handle_packet}
use qfabric.ReliableLink.Packet.{FitsHeader, header, handle_packet-packet}
use qfabric.ReliableLink.Send.{
  is_acked, unacked, forget, indices, packets_of, close, with_number, rounds, send, send_all,
}
use qfabric.ReliableLink.Delivered.{AllTrue, AllHeard, AllHonest, send_all_delivered}
use qfabric.ReliableLink.Outcome.{IsReturned, IsTimedOut, send_ends}
use qfabric.ReliableLink.Gathered.{gathered}
use qfabric.ReliableLink.Arrival.{
  AllGenuine, FitsLink, arrived, receive_all-prefix, receive_all_complete,
}

abbrev whole : Bytes
whole = 1 ∷ 2 ∷ 3 ∷ []

abbrev messages : List Bytes
messages = whole ∷ [] ∷ []

abbrev first_half : DataPacket
first_half = record { seq = 0; frag_index = 0; frag_count = 2; payload = 1 ∷ 2 ∷ [] }

abbrev second_half : DataPacket
second_half = record { seq = 0; frag_index = 1; frag_count = 2; payload = 3 ∷ [] }

abbrev empty_message : DataPacket
empty_message = record { seq = 1; frag_index = 0; frag_count = 1; payload = [] }

abbrev packets : List DataPacket
packets = empty_message ∷ second_half ∷ second_half ∷ first_half ∷ []

cut : fragments 2 (1 ∷ 2 ∷ 3 ∷ []) ≡ (1 ∷ 2 ∷ []) ∷ (3 ∷ []) ∷ []
unfolding fragments slices
cut = refl

cut_empty : fragments 2 [] ≡ [] ∷ []
unfolding fragments slices
cut_empty = refl

genuine : AllGenuine messages 2 (omega arith) packets
unfolding fragments slices
genuine = (
  ([], refl, refl, refl),
  ((whole, refl, refl, refl), ((whole, refl, refl, refl), ((whole, refl, refl, refl), tt))),
)

small : (s : ℕ) (m : Bytes) → get_elem? messages s ≡ some m → length (fragments 2 m) < 256 ^ 2
unfolding fragments slices
small zero m at =
    subst (λ t. length (fragments 2 t) < 256 ^ 2) (some-injective whole m at) (omega arith)
small (suc zero) m at =
    subst (λ t. length (fragments 2 t) < 256 ^ 2) (some-injective [] m at) (omega arith)
small (suc (suc s)) m at = absurd (none-ne-some _ at)

fits : FitsLink messages 2 (omega arith)
fits = record { few_messages = omega arith; few_fragments = small }

receive_all-prefix_example :
    (l : LinkState) × (receive_all (opened 2 5) packets ≡ ok l)
    × (l.deliveries ≡ take l.next_rx_seq messages)
receive_all-prefix_example = receive_all-prefix messages 2 (omega arith) fits 5 packets genuine

all_arrived :
    (s i : ℕ) (m : Bytes)
    → get_elem? messages s ≡ some m
    → i < length (fragments 2 m)
    → arrived s i packets ≡ true
unfolding fragments slices
all_arrived zero zero m at lt = refl
all_arrived zero (suc zero) m at lt = refl
all_arrived zero (suc (suc i)) m at lt = absurd (
    omega (
      arith,
      subst (λ t. suc (suc i) < length (fragments 2 t)) (sym (some-injective whole m at)) lt,
    ))
all_arrived (suc zero) zero m at lt = refl
all_arrived (suc zero) (suc i) m at lt =
    absurd
      (omega (arith, subst (λ t. suc i < length (fragments 2 t)) (sym (some-injective [] m at)) lt))
all_arrived (suc (suc s)) i m at lt = absurd (none-ne-some _ at)

receive_all_complete_example :
    (l : LinkState) × (receive_all (opened 2 5) packets ≡ ok l) × (l.deliveries ≡ messages)
receive_all_complete_example =
    receive_all_complete messages 2 (omega arith) fits 5 packets genuine all_arrived

abbrev fits_packet : FitsHeader type_data 3 1 2 2
fits_packet = record {
  packet_type = omega arith;
  seq = omega arith;
  frag_index = omega arith;
  frag_count = omega arith;
  plen = omega arith;
}

handle_packet-packet_example :
    (sent : Bytes) × (packet type_data 3 1 2 (7 ∷ 8 ∷ []) ≡ ok sent)
    × (handle_packet (opened 2 5) (sent ++ 0 ∷ [])
        ≡ dispatch (opened 2 5) (header type_data 3 1 2 2) (7 ∷ 8 ∷ []))
handle_packet-packet_example =
    handle_packet-packet (opened 2 5) type_data 3 1 2 (7 ∷ 8 ∷ []) (0 ∷ []) fits_packet

abbrev sender : LinkState
sender = record (opened 2 5) { connected = true }

-- The first message needs two rounds: the acknowledgement of its first half comes late.
abbrev script : List (Bytes × List (List (ℕ × ℕ)))
script = (whole, ((0, 1) ∷ []) ∷ ((0, 0) ∷ []) ∷ []) ∷ ([], ((1, 0) ∷ []) ∷ []) ∷ []

single :
    (a b s i : ℕ)
    → arrived a b packets ≡ true
    → is_acked ((a, b) ∷ []) s i ≡ true
    → arrived s i packets ≡ true
unfolding is_acked
single a b s i h e =
    let same_seq : a ≡ s = ground (arith, e) in
    let same_index : b ≡ i = ground (arith, e) in
    subst (λ (t : ℕ). arrived t i packets ≡ true) same_seq
      (subst (λ (j : ℕ). arrived a j packets ≡ true) same_index h)

honest : AllHonest (λ s i. arrived s i packets ≡ true) script
unfolding AllHonest AllHeard AllTrue
honest = (
  (λ s i. single 0 1 s i refl, (λ s i. single 0 0 s i refl, tt)),
  ((λ s i. single 1 0 s i refl, tt), tt),
)

sent : (send_all script sender).1 ≡ ok tt
unfolding send_all send rounds packets_of packet uint be is_acked unacked forget indices fragments
    slices close
sent = refl

send_all_delivered_example :
    (l : LinkState) × (receive_all (opened 2 5) packets ≡ ok l) × (l.deliveries ≡ messages)
send_all_delivered_example =
    send_all_delivered script 2 (omega arith) packets sender 5 fits genuine honest refl refl refl
      sent

few : length (fragments 2 whole) ≤ 65535
unfolding fragments slices
few = omega arith

send_ends_example :
    IsReturned 0
      (fragments 2 whole)
      (indices 0 (length (fragments 2 whole)))
      (gathered 5 (((0, 1) ∷ []) ∷ ((0, 0) ∷ []) ∷ []) [])
      (with_number sender)
      (send whole (((0, 1) ∷ []) ∷ ((0, 0) ∷ []) ∷ []) sender)
    ⊎ IsTimedOut 0
        (fragments 2 whole)
        (indices 0 (length (fragments 2 whole)))
        (gathered 5 (((0, 1) ∷ []) ∷ ((0, 0) ∷ []) ∷ []) [])
        (send whole (((0, 1) ∷ []) ∷ ((0, 0) ∷ []) ∷ []) sender)
send_ends_example =
    send_ends whole (((0, 1) ∷ []) ∷ ((0, 0) ∷ []) ∷ []) sender refl refl (omega arith)
      (omega arith) (omega arith) few
