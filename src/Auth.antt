-- ===== src/Auth.antt =====
-- qne/auth.py: frames with a sequence number and a truncated MAC. `hmac.new(key, m, sha256).digest()`
-- is the parameter `digest`; a key is the bytes that the constructor makes of its argument.
pub mod Order
pub mod Attack
mod Tests
use qfabric.Prelude.{
  ℕ, suc, ◌+◌, Bool, true, false, ◌&&◌, List, [], ◌∷◌, ◌++◌, take, drop, length, ltb, ◌==◌, not,
  if◌then◌else◌,
}
use qfabric.Prelude.Result.{
  Result, ok, err, value_error, auth_too_short, auth_bad_mac, auth_sequence_break, require, ◌>>=◌,
  ◌>>◌,
}
use qfabric.Bytes.{Bytes, uint, read}

abbrev pub tag_len : ℕ
tag_len = 16

abbrev pub header_len : ℕ
header_len = 24

-- `hmac.compare_digest`, as the equality test that it is
pub bytes_eq : Bytes → Bytes → Bool
bytes_eq [] [] = true
bytes_eq [] (c ∷ cs) = false
bytes_eq (b ∷ bs) [] = false
bytes_eq (b ∷ bs) (c ∷ cs) = b == c && bytes_eq bs cs

pub record FrameAuthenticator : Type 0 where
  pub key : Bytes
  pub tx_seq : ℕ
  pub rx_seq : ℕ

-- The constructor.
pub authenticator : Bytes → Result FrameAuthenticator
authenticator [] = err value_error
authenticator (b ∷ bs) = ok (record { key = b ∷ bs; tx_seq = 0; rx_seq = 0 })

module _ (digest : Bytes → Bytes → Bytes) where
  unfoldable pub tag : Bytes → Bytes → Bytes → Bytes
  tag key seq_hdr payload = take tag_len (digest key (seq_hdr ++ payload))

  unfoldable pub seal : FrameAuthenticator → Bytes → Result (FrameAuthenticator × Bytes)
  seal a payload = do
    hdr ← uint 8 a.tx_seq
    ok (record a { tx_seq = a.tx_seq + 1 }, hdr ++ (tag a.key hdr payload ++ payload))

  -- `frame[:8]`, `frame[8:24]` and `frame[24:]`
  abbrev pub hdr_of : Bytes → Bytes
  hdr_of frame = take 8 frame

  abbrev pub tag_of : Bytes → Bytes
  tag_of frame = take tag_len (drop 8 frame)

  abbrev pub payload_of : Bytes → Bytes
  payload_of frame = drop header_len frame

  unfoldable pub open_frame : FrameAuthenticator → Bytes → Result (FrameAuthenticator × Bytes)
  unfolding bytes_eq
  open_frame a frame = do
    require (not (ltb (length frame) header_len)) auth_too_short
    require (bytes_eq (tag_of frame) (tag a.key (hdr_of frame) (payload_of frame))) auth_bad_mac
    (seq, _) ← read 8 (hdr_of frame)
    require (seq == a.rx_seq) auth_sequence_break
    ok (record a { rx_seq = a.rx_seq + 1 }, payload_of frame)

  -- A sender's frames for a list of payloads.
  pub seal_all : FrameAuthenticator → List Bytes → Result (List Bytes)
  seal_all a [] = ok []
  seal_all a (payload ∷ payloads) = do
    (a', frame) ← seal a payload
    frames ← seal_all a' payloads
    ok (frame ∷ frames)

  -- The payloads that a receiver accepts of the frames that arrive: the first that fails to
  -- authenticate closes the link.
  pub accepted : FrameAuthenticator → List Bytes → List Bytes
  accepted a [] = []
  accepted a (frame ∷ frames) = elim (open_frame a frame) [
    | err e ↦ []
    | ok (a', payload) ↦ payload ∷ accepted a' frames
  ]
