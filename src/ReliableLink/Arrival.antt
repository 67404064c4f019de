-- ===== src/ReliableLink/Arrival.antt =====
-- Any sequence of genuine data packets: the messages delivered are a prefix of those sent, and once
-- every fragment of the first k messages has arrived they are all delivered.
use mathlib.Core.Bool.{false≢true}
use mathlib.Core.Option.{some-injective, none-ne-some}
use qfabric.Prelude.{
  ℕ, ◌^◌, ◌≤◌, ◌<◌, ◌≡◌, refl, sym, ◌∙◌, ap, subst, inl, inr, Bool, true, false, ◌&&◌, ◌||◌,
  Option-cases, some, List, [], ◌∷◌, length, get_elem?, get_elem?-lt, get_elem?-some, take,
  take_all, arith, ◌==◌, ltb, leb, Bool-cases,
}
use qfabric.Prelude.Maps.{lookup}
use qfabric.Prelude.Result.{ok}
use qfabric.Bytes.{Bytes}
use qfabric.ReliableLink.{
  LinkState, DataPacket, fragments, accept_data, handle_data, receive_all, opened, type_ack,
}
use qfabric.ReliableLink.Packet.{FitsHeader, raw, packet_lem}
use qfabric.ReliableLink.Fragments.{length-fragments}
use qfabric.ReliableLink.Assembly.{filled, full_filled}
use qfabric.ReliableLink.Receive.{has_got, IsSound, IsDrained, IsGenuine}
use qfabric.ReliableLink.Accept.{accept_data-IsAccepted}

handle_data_genuine :
    (l l' : LinkState) (s i c : ℕ) (p : Bytes)
    → s < 256 ^ 8
    → c < 256 ^ 2
    → i < c
    → accept_data l s i c p ≡ ok l'
    → (acks : List Bytes) × (handle_data l s i c p ≡ ok (l', acks))
unfolding handle_data
handle_data_genuine l l' s i c p hs hc lt e =
    let fits : FitsHeader type_ack s i 0 0 = omega arith in
    (raw type_ack s i 0 0 [] ∷ [], rw (inside, packet_lem type_ack s i 0 [] fits, e))
  where
    inside : (c == 0 || leb c i) ≡ false
    inside = ground arith

-- The packet with fragment i of message s is among those that arrived.
abbrev pub arrived : ℕ → ℕ → List DataPacket → Bool
arrived s i [] = false
arrived s i (d ∷ packets) = (d.seq == s && d.frag_index == i) || arrived s i packets

arrived_head :
    (l : LinkState) (d : DataPacket) (packets : List DataPacket) (s i : ℕ)
    → has_got l d.seq d.frag_index ≡ true
    → arrived s i (d ∷ packets) ≡ true
    → arrived s i packets ≡ false
    → has_got l s i ≡ true
arrived_head l d packets s i now h e =
    let es : d.seq ≡ s = ground (arith, h, e) in
    let ei : d.frag_index ≡ i = ground (arith, h, e) in
    subst (λ t. has_got l t i ≡ true) es (subst (λ j. has_got l d.seq j ≡ true) ei now)

arrived_now :
    (l₁ l₂ : LinkState) (d : DataPacket) (packets : List DataPacket) (s i : ℕ)
    → has_got l₁ d.seq d.frag_index ≡ true
    → ((s i : ℕ) → has_got l₁ s i ≡ true → has_got l₂ s i ≡ true)
    → ((s i : ℕ) → arrived s i packets ≡ true → has_got l₂ s i ≡ true)
    → arrived s i (d ∷ packets) ≡ true
    → has_got l₂ s i ≡ true
arrived_now l₁ l₂ d packets s i now kept later h = elim (Bool-cases (arrived s i packets)) [
  | inl e ↦ later s i e
  | inr e ↦ kept s i (arrived_head l₁ d packets s i now h e)
]

module _ (messages : List Bytes) (size : ℕ) (size_pos : 1 ≤ size) where
  -- Every packet carries a fragment of a message that was sent.
  abbrev pub AllGenuine : List DataPacket → Type 0
  AllGenuine [] = Unit
  AllGenuine (d ∷ packets) =
      IsGenuine messages size size_pos d.seq d.frag_index d.frag_count d.payload
      × AllGenuine packets

  -- The header has room for every sequence number and fragment count.
  pub record FitsLink : Type 0 where
    pub few_messages : length messages < 256 ^ 8
    pub few_fragments :
        (s : ℕ) (m : Bytes) → get_elem? messages s ≡ some m → length (fragments size m) < 256 ^ 2

  pub record IsReceived (l : LinkState) (packets : List DataPacket) (l' : LinkState) : Type 0 where
    pub sound : IsSound messages size size_pos l'
    pub drained : IsDrained messages size size_pos l'
    pub kept : (s i : ℕ) → has_got l s i ≡ true → has_got l' s i ≡ true
    pub got : (s i : ℕ) → arrived s i packets ≡ true → has_got l' s i ≡ true

  receive_all-IsReceived :
      FitsLink
      → (l : LinkState) (packets : List DataPacket) → IsSound messages size size_pos l
      → IsDrained messages size size_pos l
      → AllGenuine packets
      → (l' : LinkState) × (receive_all l packets ≡ ok l') × IsReceived l packets l'
  unfolding receive_all
  receive_all-IsReceived fits l [] v dr g = (
    l,
    refl,
    record { sound = v; drained = dr; kept = λ s i h. h; got = λ s i h. absurd (false≢true h) },
  )
  receive_all-IsReceived fits l (d ∷ packets) v dr ((m, at, count, frag), g) =
      let (l₁, e₁, a) =
        accept_data-IsAccepted messages size size_pos l d.seq d.frag_index d.frag_count d.payload v
          dr (m, at, count, frag) in
      let (acks, e₂) =
        handle_data_genuine l l₁ d.seq d.frag_index d.frag_count d.payload
          (omega (arith, get_elem?-lt messages d.seq m at, fits.few_messages))
          (omega (arith, fits.few_fragments d.seq m at, count))
          (omega (arith, get_elem?-lt (fragments size m) d.frag_index d.payload frag, count)) e₁ in
      let (l₂, e₃, r) = receive_all-IsReceived fits l₁ packets a.sound a.drained g in
      (
        l₂,
        rw (e₂, e₃),
        record {
          sound = r.sound;
          drained = r.drained;
          kept = λ s i h. r.kept s i (a.kept s i h);
          got = λ s i h. arrived_now l₁ l₂ d packets s i a.got r.kept r.got h;
        },
      )

  opened-IsSound : (retries : ℕ) → IsSound messages size size_pos (opened size retries)
  unfolding lookup
  opened-IsSound retries = record {
    ordered = refl;
    bounded = omega arith;
    finished = λ s m h. absurd (none-ne-some _ h);
    partial = λ s c d h. absurd (none-ne-some _ h);
  }

  opened-IsDrained : (retries : ℕ) → IsDrained messages size size_pos (opened size retries)
  unfolding lookup
  opened-IsDrained retries = refl

  -- A drained receiver never has every fragment of the message it waits for.
  waiting_lacks :
      (l : LinkState) (m : Bytes)
      → IsSound messages size size_pos l
      → IsDrained messages size size_pos l
      → get_elem? messages l.next_rx_seq ≡ some m
      → ¬ ((i : ℕ) → i < length (fragments size m) → has_got l l.next_rx_seq i ≡ true)
  waiting_lacks l m v dr at all = elim (Option-cases (lookup l.next_rx_seq l.assemblies)) [
    | inl e ↦ absurd (ground (arith, dr, e, all 0 (length-fragments size m)))
    | inr ((c, d), e) ↦
        let (m', at', count, part, short) = v.partial l.next_rx_seq c d e in
        let same : m' ≡ m = some-injective m' m (sym at' ∙ at) in
        let full =
          full_filled d (length (fragments size m)) (λ i lt. ground (arith, dr, e, all i lt)) in
        omega (
          arith,
          full,
          part.counted,
          short,
          count,
          ap (λ t. length (fragments size t)) same,
          ap (λ t. filled d (length (fragments size t))) same,
        )
  ]

  waiting_past :
      (l : LinkState) (k : ℕ)
      → IsSound messages size size_pos l
      → IsDrained messages size size_pos l
      → k ≤ length messages
      → ((s i : ℕ) (m : Bytes)
          → s < k
          → get_elem? messages s ≡ some m
          → i < length (fragments size m)
          → has_got l s i ≡ true)
      → k ≤ l.next_rx_seq
  waiting_past l k v dr bound all = elim (Bool-cases (ltb l.next_rx_seq k)) [
    | inr e ↦ ground arith
    | inl e ↦
        let (m, at) = get_elem?-some messages l.next_rx_seq (ground arith) in
        absurd (waiting_lacks l m v dr at (λ i lt. all l.next_rx_seq i m (ground arith) at lt))
  ]

  -- On a freshly opened link, for messages that fit the header: whatever genuine data packets
  -- arrive, in any order and with any repetition, the receiver handles them all without an error,
  -- and what it has delivered is a prefix of the messages sent, in order and each once.
  pub receive_all-prefix :
      FitsLink
      → (retries : ℕ) (packets : List DataPacket) → AllGenuine packets
      → (l : LinkState) × (receive_all (opened size retries) packets ≡ ok l)
        × (l.deliveries ≡ take l.next_rx_seq messages)
  receive_all-prefix fits retries packets g =
      let (l, e, r) =
        receive_all-IsReceived fits (opened size retries) packets (opened-IsSound retries)
          (opened-IsDrained retries) g in
      (l, e, r.sound.ordered)

  -- On a freshly opened link, for messages that fit the header: once every fragment of every
  -- message is among the genuine data packets that arrived, in any order and with any repetition,
  -- the receiver has delivered exactly the messages sent.
  pub receive_all_complete :
      FitsLink
      → (retries : ℕ) (packets : List DataPacket) → AllGenuine packets
      → ((s i : ℕ) (m : Bytes)
          → get_elem? messages s ≡ some m
          → i < length (fragments size m)
          → arrived s i packets ≡ true)
      → (l : LinkState) × (receive_all (opened size retries) packets ≡ ok l)
        × (l.deliveries ≡ messages)
  receive_all_complete fits retries packets g all =
      let (l, e, r) =
        receive_all-IsReceived fits (opened size retries) packets (opened-IsSound retries)
          (opened-IsDrained retries) g in
      let past =
        waiting_past l (length messages) r.sound r.drained (omega arith)
          (λ s i m lt at fr. r.got s i (all s i m at fr)) in
      (l, e, r.sound.ordered ∙ take_all l.next_rx_seq messages past)
