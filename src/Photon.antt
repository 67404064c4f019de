-- ===== src/Photon.antt =====
-- qne/photon.py: the 17-byte photon header `!4B3IB` and the Ethernet frame around it.
pub mod RoundTrip
mod Tests
use qfabric.Prelude.{
  ℕ, zero, suc, ◌-◌, ◌*◌, ◌+◌, ◌^◌, min, max, List, [], ◌∷◌, ◌++◌, take, drop, length, replicate,
  ltb, ◌==◌, not, if◌then◌else◌,
}
use qfabric.Prelude.Result.{Result, ok, err, value_error, require, ◌>>=◌, ◌>>◌}
use qfabric.Bytes.{Bytes, uint, read}

abbrev pub ethertype_photon : ℕ
ethertype_photon = 0x7101

abbrev pub ethernet_hdr_len : ℕ
ethernet_hdr_len = 14

abbrev pub photon_hdr_len : ℕ
photon_hdr_len = 17

abbrev pub max_photon_count : ℕ
max_photon_count = 8

pub record PhotonPacket : Type 0 where
  pub basis : ℕ
  pub state : ℕ
  pub sequence_num : ℕ
  pub wavelength : ℕ
  pub timestamp_hi : ℕ
  pub timestamp_lo : ℕ
  pub photon_count : ℕ
  pub version : ℕ

-- The count on the wire: at least 1 and at most MAX_PHOTON_COUNT.
unfoldable pub clamped_count : ℕ → ℕ
clamped_count n = max 1 (min n max_photon_count)

unfoldable pub to_bytes : PhotonPacket → Result Bytes
unfolding clamped_count
to_bytes p = do
  version ← uint 1 p.version
  basis ← uint 1 p.basis
  state ← uint 1 p.state
  wavelength ← uint 1 p.wavelength
  seq ← uint 4 p.sequence_num
  hi ← uint 4 p.timestamp_hi
  lo ← uint 4 p.timestamp_lo
  count ← uint 1 (clamped_count p.photon_count)
  ok (version ++ (basis ++ (state ++ (wavelength ++ (seq ++ (hi ++ (lo ++ count)))))))

-- `struct.unpack("!4B3IB", data)`, and the packet from its fields
unfoldable pub unpack_header : Bytes → Result PhotonPacket
unpack_header data₀ = do
  (version, data₁) ← read 1 data₀
  (basis, data₂) ← read 1 data₁
  (state, data₃) ← read 1 data₂
  (wavelength, data₄) ← read 1 data₃
  (seq, data₅) ← read 4 data₄
  (hi, data₆) ← read 4 data₅
  (lo, data₇) ← read 4 data₆
  (count, data₈) ← read 1 data₇
  ok (record {
    basis = basis;
    state = state;
    sequence_num = seq;
    wavelength = wavelength;
    timestamp_hi = hi;
    timestamp_lo = lo;
    photon_count = if ltb 0 count then count else 1;
    version = version;
  })

unfoldable pub from_bytes : Bytes → Result PhotonPacket
unfolding unpack_header
from_bytes raw =
    if ltb (length raw) photon_hdr_len
    then err value_error
    else unpack_header (take photon_hdr_len raw)

-- Zeros up to the minimum frame size of 60 bytes.
unfoldable pub padded : Bytes → Bytes
padded frame = if ltb (length frame) 60 then frame ++ replicate (60 - length frame) 0 else frame

unfoldable pub to_ethernet_frame : Bytes → Bytes → PhotonPacket → Result Bytes
unfolding to_bytes padded
to_ethernet_frame dst_mac src_mac p = do
  ethertype ← uint 2 ethertype_photon
  header ← to_bytes p
  ok (padded ((dst_mac ++ (src_mac ++ ethertype)) ++ header))

unfoldable pub from_ethernet_frame : Bytes → Result PhotonPacket
unfolding from_bytes
from_ethernet_frame frame =
    if ltb (length frame) (ethernet_hdr_len + photon_hdr_len) then err value_error else do
      (ethertype, _) ← read 2 (take 2 (drop 12 frame))
      require (ethertype == ethertype_photon) value_error
      from_bytes (drop ethernet_hdr_len frame)
