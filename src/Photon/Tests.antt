-- ===== src/Photon/Tests.antt =====
-- A photon with a count that is too large, framed between two addresses.
use qfabric.Prelude.{◌≡◌, refl, ◌≤◌, length, replicate, arith}
use qfabric.Prelude.Result.{ok}
use qfabric.Bytes.{Bytes}
use qfabric.Photon.{PhotonPacket, clamped_count, to_ethernet_frame, from_ethernet_frame}
use qfabric.Photon.RoundTrip.{Fits, with_clamped_count, from_ethernet_frame-to_ethernet_frame}

abbrev photon : PhotonPacket
photon = record {
  basis = 1;
  state = 2;
  sequence_num = 70000;
  wavelength = 3;
  timestamp_hi = 4;
  timestamp_lo = 5;
  photon_count = 9;
  version = 1;
}

abbrev mac : Bytes
mac = replicate 6 2

counts : (clamped_count 0 ≡ 1) × (clamped_count 5 ≡ 5) × (clamped_count 300 ≡ 8)
unfolding clamped_count
counts = (refl, refl, refl)

photon-Fits : Fits photon
photon-Fits = record {
  version = omega arith;
  basis = omega arith;
  state = omega arith;
  wavelength = omega arith;
  sequence_num = omega arith;
  timestamp_hi = omega arith;
  timestamp_lo = omega arith;
}

from_ethernet_frame-to_ethernet_frame_example :
    (frame : Bytes) × (to_ethernet_frame mac mac photon ≡ ok frame)
    × (60 ≤ length frame)
    × (from_ethernet_frame frame ≡ ok (with_clamped_count photon))
from_ethernet_frame-to_ethernet_frame_example =
    from_ethernet_frame-to_ethernet_frame mac mac photon refl refl photon-Fits
