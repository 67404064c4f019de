-- ===== src/ReliableLink.antt =====
-- qne-sequence/qne_sequence/l2_link.py: ReliableLink, a reliable in-order message link over datagrams.
-- The link's threads are functions on its state: one for an arriving packet, one for a send with the
-- acknowledgements that reach it. A dict is a list of its entries; a datagram is a list of bytes.
pub mod Dispatch
pub mod Fragments
pub mod Packet
pub mod Assembly
pub mod Receive
pub mod Accept
pub mod Arrival
pub mod Send
pub mod Rounds
pub mod Delivered
pub mod Gathered
pub mod Outcome
mod Tests
use qfabric.Prelude.{
  ℕ, zero, suc, ◌+◌, ◌-◌, Bool, true, false, not, ◌&&◌, ◌||◌, Option, none, some, List, [], ◌∷◌,
  ◌++◌, map, length, take, drop, ltb, leb, ◌==◌, if◌then◌else◌,
}
use qfabric.Prelude.Slices.{slices}
use qfabric.Prelude.Maps.{has, lookup, insert, remove}
use qfabric.Prelude.Result.{
  Result, ok, err, value_error, key_error, connection_error, timeout_error, require, ◌>>=◌, ◌>>◌,
}
use qfabric.Bytes.{Bytes, uint, read}

abbrev pub magic : ℕ
magic = 0x514c

abbrev pub version : ℕ
version = 2

abbrev pub type_data : ℕ
type_data = 1

abbrev pub type_ack : ℕ
type_ack = 2

abbrev pub type_hello : ℕ
type_hello = 3

abbrev pub type_hello_ack : ℕ
type_hello_ack = 4

abbrev pub header_size : ℕ
header_size = 20

abbrev or_empty : List Bytes → List Bytes
or_empty [] = [] ∷ []
or_empty (f ∷ frags) = f ∷ frags

-- `[message[o:o + size] for o in range(0, len(message), size)] or [b""]`
pub fragments : ℕ → Bytes → List Bytes
fragments size message = or_empty (slices (length message) message size 0 (length message))

-- (frag_count, fragments) of a message that is being put together
abbrev pub Assembly : Type 0
Assembly = ℕ × List (ℕ × Bytes)

pub record LinkState : Type 0 where
  pub connected : Bool
  pub running : Bool
  pub next_tx_seq : ℕ
  pub next_rx_seq : ℕ
  pub assemblies : List (ℕ × Assembly)
  pub completed : List (ℕ × Bytes)
  pub deliveries : List Bytes
  pub acked : List (ℕ × ℕ)
  pub tx_count : ℕ
  pub fragment_size : ℕ
  pub max_retries : ℕ
  pub short_frames : ℕ

-- `_packet`: the header `!2sBBQHHI` and the payload
unfoldable pub packet : ℕ → ℕ → ℕ → ℕ → Bytes → Result Bytes
packet packet_type seq frag_index frag_count payload = do
  m ← uint 2 magic
  v ← uint 1 version
  t ← uint 1 packet_type
  s ← uint 8 seq
  i ← uint 2 frag_index
  c ← uint 2 frag_count
  n ← uint 4 (length payload)
  ok (m ++ (v ++ (t ++ (s ++ (i ++ (c ++ (n ++ payload)))))))

-- `b"".join(fragments[index] for index in range(count))`, from one index on
pub join : List (ℕ × Bytes) → ℕ → ℕ → Result Bytes
join fragments index zero = ok []
join fragments index (suc count) = elim (lookup index fragments) [
  | none ↦ err key_error
  | some p ↦ do rest ← join fragments (suc index) count; ok (p ++ rest)
]

-- `while self._next_rx_seq in self._completed`, with an iteration for each completed message
pub release : ℕ → LinkState → LinkState
release zero l = l
release (suc fuel) l = elim (lookup l.next_rx_seq l.completed) [
  | none ↦ l
  | some m ↦ release fuel (record l {
    next_rx_seq = suc l.next_rx_seq;
    completed = remove l.next_rx_seq l.completed;
    deliveries = l.deliveries ++ m ∷ [];
  })
]

-- `fragments.setdefault(frag_index, payload)`
pub set_default : ℕ → Bytes → List (ℕ × Bytes) → List (ℕ × Bytes)
set_default i payload fragments = elim (lookup i fragments) [
  | none ↦ insert i payload fragments
  | some _ ↦ fragments
]

-- The fragment goes into an assembly of the same count; a full assembly is completed and released.
pub put_fragment : LinkState → ℕ → ℕ → ℕ → Bytes → ℕ → List (ℕ × Bytes) → Result LinkState
unfolding set_default
put_fragment l seq frag_index frag_count payload expected fragments =
    if not (expected == frag_count)
    then ok l
    else (let fragments' = set_default frag_index payload fragments in
        if length fragments' == frag_count
        then (do
          message ← join fragments' 0 frag_count
          let done = insert seq message l.completed
          ok (
              release (length done)
                (record l { completed = done; assemblies = remove seq l.assemblies })))
        else ok (record l { assemblies = insert seq (expected, fragments') l.assemblies }))

-- The part of `_handle_data` under the lock.
pub accept_data : LinkState → ℕ → ℕ → ℕ → Bytes → Result LinkState
unfolding put_fragment
accept_data l seq frag_index frag_count payload =
    if ltb seq l.next_rx_seq || has seq l.completed then ok l else elim (lookup seq l.assemblies) [
      | none ↦ put_fragment l seq frag_index frag_count payload frag_count []
      | some (expected, fragments) ↦
          put_fragment l seq frag_index frag_count payload expected fragments
    ]

-- `_handle_data`: the new state and the datagrams sent
pub handle_data : LinkState → ℕ → ℕ → ℕ → Bytes → Result (LinkState × List Bytes)
handle_data l seq frag_index frag_count payload =
    if frag_count == 0 || leb frag_count frag_index then ok (l, []) else do
      ack ← packet type_ack seq frag_index 0 []
      l' ← accept_data l seq frag_index frag_count payload
      ok (l', ack ∷ [])

pub record DataPacket : Type 0 where
  pub seq : ℕ
  pub frag_index : ℕ
  pub frag_count : ℕ
  pub payload : Bytes

-- `_io_loop` on data packets, in the order in which they arrive
pub receive_all : LinkState → List DataPacket → Result LinkState
receive_all l [] = ok l
receive_all l (d ∷ packets) = do
  (l', acks) ← handle_data l d.seq d.frag_index d.frag_count d.payload
  receive_all l' packets

-- A link that has just been opened.
abbrev pub opened : ℕ → ℕ → LinkState
opened fragment_size max_retries = record {
  connected = false;
  running = true;
  next_tx_seq = 0;
  next_rx_seq = 0;
  assemblies = [];
  completed = [];
  deliveries = [];
  acked = [];
  tx_count = 0;
  fragment_size = fragment_size;
  max_retries = max_retries;
  short_frames = 0;
}
