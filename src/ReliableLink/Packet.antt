-- ===== src/ReliableLink/Packet.antt =====
-- Packets as bytes: what `_packet` builds, `_handle_packet` reads back, also when the Ethernet frame
-- is padded; a packet that carries less than it declares is dropped and counted.
use qfabric.Prelude.{
  ℕ, ◌+◌, ◌^◌, ◌<◌, ◌≡◌, false, [], ◌++◌, append_assoc, length, length-append, take,
  take-append_length, arith, if◌then◌else◌, ltb,
}
use qfabric.Prelude.Result.{ok}
use qfabric.Bytes.{Bytes, be}
use qfabric.Bytes.Laws.{uint_lem, read-be}
use qfabric.ReliableLink.{LinkState, packet, magic, version}
use qfabric.ReliableLink.Dispatch.{Header, unpack_header, dispatch, handle_packet}

-- The fields fit their places in the header.
pub record FitsHeader (t s i c n : ℕ) : Type 0 where
  pub packet_type : t < 256 ^ 1
  pub seq : s < 256 ^ 8
  pub frag_index : i < 256 ^ 2
  pub frag_count : c < 256 ^ 2
  pub plen : n < 256 ^ 4

abbrev pub raw : ℕ → ℕ → ℕ → ℕ → ℕ → Bytes → Bytes
raw t s i c n payload =
    be 2 magic
    ++ (be 1 version ++ (be 1 t ++ (be 8 s ++ (be 2 i ++ (be 2 c ++ (be 4 n ++ payload))))))

pub packet_lem :
    (t s i c : ℕ) (payload : Bytes)
    → FitsHeader t s i c (length payload)
    → packet t s i c payload ≡ ok (raw t s i c (length payload) payload)
unfolding packet
packet_lem t s i c payload f = rw (
  uint_lem 2 magic (omega arith),
  uint_lem 1 version (omega arith),
  uint_lem 1 t f.packet_type,
  uint_lem 8 s f.seq,
  uint_lem 2 i f.frag_index,
  uint_lem 2 c f.frag_count,
  uint_lem 4 (length payload) f.plen,
)

abbrev pub header : ℕ → ℕ → ℕ → ℕ → ℕ → Header
header t s i c n = record {
  magic_field = magic;
  version_field = version;
  packet_type = t;
  seq = s;
  frag_index = i;
  frag_count = c;
  plen = n;
}

module _ (t s i c n : ℕ) (body : Bytes) (f : FitsHeader t s i c n) where
  unpack_header_lem : unpack_header (raw t s i c n body) ≡ ok (header t s i c n, body)
  unfolding unpack_header
  unpack_header_lem = rw (
    read-be 2 magic _ (omega arith),
    read-be 1 version _ (omega arith),
    read-be 1 t _ f.packet_type,
    read-be 8 s _ f.seq,
    read-be 2 i _ f.frag_index,
    read-be 2 c _ f.frag_count,
    read-be 4 n body f.plen,
  )

  length-raw : length (raw t s i c n body) ≡ 20 + length body
  unfolding be
  length-raw = omega arith

  -- A packet of the protocol acts on the link if it carries the bytes that it declares, and else only
  -- counts as a short frame.
  pub handle_packet-raw :
      (l : LinkState)
      → handle_packet l (raw t s i c n body) ≡ (
          if ltb (length body) n
          then ok (record l { short_frames = l.short_frames + 1 }, [])
          else dispatch l (header t s i c n) (take n body))
  unfolding handle_packet
  handle_packet-raw l = rw (long, unpack_header_lem, short_test)
    where
      long : ltb (length (raw t s i c n body)) 20 ≡ false
      long = ground (arith, length-raw)

      short_test : ltb (length (raw t s i c n body)) (20 + n) ≡ ltb (length body) n
      short_test = ground (arith, length-raw)

raw-append :
    (t s i c n : ℕ) (payload padding : Bytes)
    → raw t s i c n payload ++ padding ≡ raw t s i c n (payload ++ padding)
raw-append t s i c n payload padding = simp append_assoc

-- A packet whose fields fit the header is built, and the receiver handles it by its type with exactly
-- the payload it was built from, whatever padding follows it on the wire.
pub handle_packet-packet :
    (l : LinkState) (t s i c : ℕ) (payload padding : Bytes)
    → FitsHeader t s i c (length payload)
    → (sent : Bytes) × (packet t s i c payload ≡ ok sent)
      × (handle_packet l (sent ++ padding) ≡ dispatch l (header t s i c (length payload)) payload)
handle_packet-packet l t s i c payload padding f =
    let n = length payload in
    (
      raw t s i c n payload,
      packet_lem t s i c payload f,
      rw (
        raw-append t s i c n payload padding,
        handle_packet-raw t s i c n (payload ++ padding) f l,
        whole,
        take-append_length payload padding,
      ),
    )
  where
    whole : ltb (length (payload ++ padding)) (length payload) ≡ false
    whole = ground (arith, length-append payload padding)
