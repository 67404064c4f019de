-- ===== src/ReliableLink/Dispatch.antt =====
-- qne-sequence/qne_sequence/l2_link.py: the header of a packet, and what `_handle_packet` does by its type.
use qfabric.Prelude.{ℕ, ◌+◌, true, not, ◌||◌, List, [], ◌∷◌, length, take, ltb, ◌==◌, if◌then◌else◌}
use qfabric.Prelude.Result.{Result, ok, ◌>>=◌}
use qfabric.Bytes.{Bytes, read}
use qfabric.ReliableLink.{
  magic, version, type_data, type_ack, type_hello, type_hello_ack, header_size, LinkState, packet,
  handle_data,
}

pub record Header : Type 0 where
  pub magic_field : ℕ
  pub version_field : ℕ
  pub packet_type : ℕ
  pub seq : ℕ
  pub frag_index : ℕ
  pub frag_count : ℕ
  pub plen : ℕ

-- `_HEADER.unpack_from(packet)`, and the bytes behind the header
unfoldable pub unpack_header : Bytes → Result (Header × Bytes)
unpack_header b₀ = do
  (m, b₁) ← read 2 b₀
  (v, b₂) ← read 1 b₁
  (t, b₃) ← read 1 b₂
  (s, b₄) ← read 8 b₃
  (i, b₅) ← read 2 b₄
  (c, b₆) ← read 2 b₅
  (n, b₇) ← read 4 b₆
  ok (
    record {
      magic_field = m;
      version_field = v;
      packet_type = t;
      seq = s;
      frag_index = i;
      frag_count = c;
      plen = n;
    },
    b₇,
  )

-- What a packet of our protocol with a whole payload does.
pub dispatch : LinkState → Header → Bytes → Result (LinkState × List Bytes)
dispatch l h payload =
    if h.packet_type == type_hello
    then (do reply ← packet type_hello_ack 0 0 0 []; ok (record l { connected = true }, reply ∷ []))
    else if h.packet_type == type_hello_ack
    then ok (record l { connected = true }, [])
    else if h.packet_type == type_ack
    then ok (record l { acked = (h.seq, h.frag_index) ∷ l.acked }, [])
    else if h.packet_type == type_data
    then handle_data l h.seq h.frag_index h.frag_count payload
    else ok (l, [])

-- `_handle_packet`
unfoldable pub handle_packet : LinkState → Bytes → Result (LinkState × List Bytes)
handle_packet l raw = if ltb (length raw) header_size then ok (l, []) else do
  (h, body) ← unpack_header raw
  if not (h.magic_field == magic) || not (h.version_field == version)
      then ok (l, [])
      else if ltb (length raw) (header_size + h.plen)
      then ok (record l { short_frames = l.short_frames + 1 }, [])
      else dispatch l h (take h.plen body)
