-- ===== src/Photon/RoundTrip.antt =====
-- A photon packet survives the trip through its Ethernet frame.
use qfabric.Prelude.{
  ℕ, ◌-◌, ◌^◌, ◌≤◌, ◌<◌, ◌≡◌, refl, sym, ap, ◌∙◌, inl, inr, [], ◌++◌, append_assoc, append-nil,
  take, drop, length, length-append, length-replicate, take-append_length, drop-append_length,
  drop-drop, replicate, ltb, ltb→lt, ◌==◌, Bool-cases, false, arith, if◌then◌else◌,
}
use qfabric.Prelude.Result.{ok, err, value_error}
use qfabric.Bytes.{Bytes, be}
use qfabric.Bytes.Laws.{length-be, uint_lem, read-be, read-be_end}
use qfabric.Photon.{
  PhotonPacket, clamped_count, to_bytes, unpack_header, from_bytes, padded, to_ethernet_frame,
  from_ethernet_frame, ethertype_photon,
}

-- Each field fits its place in the header.
pub record Fits (p : PhotonPacket) : Type 0 where
  pub version : p.version < 256 ^ 1
  pub basis : p.basis < 256 ^ 1
  pub state : p.state < 256 ^ 1
  pub wavelength : p.wavelength < 256 ^ 1
  pub sequence_num : p.sequence_num < 256 ^ 4
  pub timestamp_hi : p.timestamp_hi < 256 ^ 4
  pub timestamp_lo : p.timestamp_lo < 256 ^ 4

abbrev header : PhotonPacket → Bytes
header p =
    be 1 p.version
    ++ (be 1 p.basis
        ++ (be 1 p.state
            ++ (be 1 p.wavelength
                ++ (be 4 p.sequence_num
                    ++ (be 4 p.timestamp_hi
                        ++ (be 4 p.timestamp_lo ++ be 1 (clamped_count p.photon_count)))))))

abbrev pub with_clamped_count : PhotonPacket → PhotonPacket
with_clamped_count p = record p { photon_count = clamped_count p.photon_count }

clamped_count_bounds : (n : ℕ) → (1 ≤ clamped_count n) × (clamped_count n ≤ 8)
unfolding clamped_count
clamped_count_bounds n = omega arith

to_bytes_lem : (p : PhotonPacket) → Fits p → to_bytes p ≡ ok (header p)
unfolding to_bytes
to_bytes_lem p f =
    let c : clamped_count p.photon_count < 256 ^ 1 =
      omega (arith, clamped_count_bounds p.photon_count) in
    rw (
      uint_lem 1 p.version f.version,
      uint_lem 1 p.basis f.basis,
      uint_lem 1 p.state f.state,
      uint_lem 1 p.wavelength f.wavelength,
      uint_lem 4 p.sequence_num f.sequence_num,
      uint_lem 4 p.timestamp_hi f.timestamp_hi,
      uint_lem 4 p.timestamp_lo f.timestamp_lo,
      uint_lem 1 (clamped_count p.photon_count) c,
    )

unpack_header_lem :
    (p : PhotonPacket) → Fits p → unpack_header (header p) ≡ ok (with_clamped_count p)
unfolding unpack_header
unpack_header_lem p f =
    let c : clamped_count p.photon_count < 256 ^ 1 =
      omega (arith, clamped_count_bounds p.photon_count) in
    rw
      (
        read-be 1 p.version _ f.version,
        read-be 1 p.basis _ f.basis,
        read-be 1 p.state _ f.state,
        read-be 1 p.wavelength _ f.wavelength,
        read-be 4 p.sequence_num _ f.sequence_num,
        read-be 4 p.timestamp_hi _ f.timestamp_hi,
        read-be 4 p.timestamp_lo _ f.timestamp_lo,
        read-be_end 1 (clamped_count p.photon_count) c,
      )
      (ground (arith, clamped_count_bounds p.photon_count))

length-header : (p : PhotonPacket) → length (header p) ≡ 17
unfolding be
length-header p = refl

-- The padding, if any, is behind the frame.
padded-tail :
    (frame : Bytes) → (tail : Bytes) × (padded frame ≡ frame ++ tail) × (60 ≤ length (padded frame))
unfolding padded
padded-tail frame = elim (Bool-cases (ltb (length frame) 60)) [
  | inl e ↦ (
    replicate (60 - length frame) 0,
    rw e,
    rw e (
        omega (
          arith,
          length-append frame (replicate (60 - length frame) 0),
          length-replicate {A = ℕ} (60 - length frame) 0,
          ltb→lt (length frame) 60 e,
        )),
  )
  | inr e ↦ ([], rw e (sym (append-nil frame)), rw e (ground arith))
]

-- Reading a header that other bytes follow.
from_bytes_lem :
    (p : PhotonPacket) (tail : Bytes)
    → Fits p
    → from_bytes (header p ++ tail) ≡ ok (with_clamped_count p)
unfolding from_bytes
from_bytes_lem p tail f = rw (long, taken) (unpack_header_lem p f)
  where
    long : ltb (length (header p ++ tail)) 17 ≡ false
    long = ground (arith, length-append (header p) tail, length-header p)

    taken : take 17 (header p ++ tail) ≡ header p
    taken = rw (← length-header p) (take-append_length (header p) tail)

abbrev pub ethernet : Bytes → Bytes → ℕ → Bytes → Bytes
ethernet dst_mac src_mac ethertype payload = (dst_mac ++ (src_mac ++ be 2 ethertype)) ++ payload

module _ (dst_mac src_mac payload : Bytes) (ethertype : ℕ) (dst : length dst_mac ≡ 6)
    (src : length src_mac ≡ 6) (fits : ethertype < 256 ^ 2) (full : 17 ≤ length payload) where
  macs : Bytes
  macs = dst_mac ++ src_mac

  regroup : ethernet dst_mac src_mac ethertype payload ≡ macs ++ (be 2 ethertype ++ payload)
  unfolding macs
  regroup = simp append_assoc

  length-macs : length macs ≡ 12
  unfolding macs
  length-macs = omega (arith, length-append dst_mac src_mac)

  type_field : drop 12 (ethernet dst_mac src_mac ethertype payload) ≡ be 2 ethertype ++ payload
  type_field = rw (regroup, ← length-macs) (drop-append_length macs (be 2 ethertype ++ payload))

  payload_field : drop 14 (ethernet dst_mac src_mac ethertype payload) ≡ payload
  payload_field =
      sym (drop-drop 2 12 (ethernet dst_mac src_mac ethertype payload))
      ∙ ap (drop 2) type_field
      ∙ ap (λ (k : ℕ). drop k (be 2 ethertype ++ payload)) (sym (length-be 2 ethertype))
      ∙ drop-append_length (be 2 ethertype) payload

  type_bytes : take 2 (drop 12 (ethernet dst_mac src_mac ethertype payload)) ≡ be 2 ethertype
  type_bytes = rw type_field (
      ap (λ (k : ℕ). take k (be 2 ethertype ++ payload)) (sym (length-be 2 ethertype))
      ∙ take-append_length (be 2 ethertype) payload)

  long_enough : ltb (length (ethernet dst_mac src_mac ethertype payload)) 31 ≡ false
  long_enough = ground (
    arith,
    ap length regroup,
    length-append macs (be 2 ethertype ++ payload),
    length-append (be 2 ethertype) payload,
    length-macs,
    length-be 2 ethertype,
  )

  -- With 6-byte addresses, an EtherType of two bytes and a payload that is long enough for the header,
  -- a frame is read as a photon if its EtherType is 0x7101, and else refused.
  from_ethernet_frame_lem :
      from_ethernet_frame (ethernet dst_mac src_mac ethertype payload)
      ≡ (if ethertype == ethertype_photon then from_bytes payload else err value_error)
  unfolding from_ethernet_frame
  from_ethernet_frame_lem =
      rw (long_enough, type_bytes, read-be_end 2 ethertype fits, payload_field)
        (elim (Bool-cases (ethertype == ethertype_photon)) [
          | inl e ↦ rw e refl
          | inr e ↦ rw e refl
        ])

-- For every packet whose fields fit and every pair of 6-byte addresses the frame is built, has at
-- least 60 bytes, and is read back as the packet with its photon count clamped to 1..8.
pub from_ethernet_frame-to_ethernet_frame :
    (dst_mac src_mac : Bytes) (p : PhotonPacket)
    → length dst_mac ≡ 6
    → length src_mac ≡ 6
    → Fits p
    → (frame : Bytes) × (to_ethernet_frame dst_mac src_mac p ≡ ok frame)
      × (60 ≤ length frame)
      × (from_ethernet_frame frame ≡ ok (with_clamped_count p))
unfolding to_ethernet_frame
from_ethernet_frame-to_ethernet_frame dst_mac src_mac p dst src f =
    let raw : Bytes = (dst_mac ++ (src_mac ++ be 2 ethertype_photon)) ++ header p in
    let (tail, e, long) = padded-tail raw in
    (
      padded raw,
      rw (uint_lem 2 ethertype_photon (omega arith), to_bytes_lem p f),
      long,
      rw
          (
            e,
            append_assoc (dst_mac ++ (src_mac ++ be 2 ethertype_photon)) (header p) tail,
            from_ethernet_frame_lem dst_mac src_mac (header p ++ tail) ethertype_photon dst src
                (omega arith) (omega (arith, length-append (header p) tail, length-header p)),
          )
          (from_bytes_lem p tail f),
    )
