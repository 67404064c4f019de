-- ===== src/Exchange/Alice.antt =====
-- qne/alice.py: what `_send_photons` records, and the steps of Alice's `_run_sifting`.
use qfabric.Prelude.{ℕ, zero, suc, Option, none, some, List, [], ◌∷◌, if◌then◌else◌}
use qfabric.Prelude.Result.{Result, ok, err, protocol_error, ◌>>=◌}
use qfabric.Prelude.Maps.{insert}
use qfabric.Floats.{Floats}
use qfabric.Random.{Generator}
use qfabric.Sifting.{Record, by_seq}
use qfabric.Exchange.{
  Message, QberResult, alice_bases, sifting_result, request_sample, alice_sample_bits, qber_result,
  other_message, bits_at,
}

-- The loop of `_send_photons` from photon `seq` on, with `left` photons to go: the log of what is sent.
pub send_photons : (f : Floats) (g : Generator f) → f.F → ℕ → ℕ → g.Rng → List Record × g.Rng
send_photons f g bias seq zero rng = ([], rng)
send_photons f g bias seq (suc left) rng =
    let (x, rng₁) = g.random rng in
    let basis = if f.lt x bias then 0 else 1 in
    let (state, rng₂) = g.integers 0 2 rng₁ in
    let (log, rng₃) = send_photons f g bias (suc seq) left rng₂ in
    (record { sequence_num = seq; basis = basis; bit_value = state } ∷ log, rng₃)

-- `{rec.sequence_num: rec.basis for rec in self.sent_log}`, added to a dict
unfoldable pub basis_list : List Record → List (ℕ × ℕ) → List (ℕ × ℕ)
basis_list [] dict = dict
basis_list (r ∷ log) dict = basis_list log (insert r.sequence_num r.basis dict)

-- `{rec.sequence_num: rec for rec in self.sent_log}`
abbrev pub sent_by_seq : List Record → List (ℕ × Record)
sent_by_seq log = by_seq log []

module _ (f : Floats) where
  -- The matching positions, and the detected ones.
  abbrev pub hear_sifting : Message f → Result (List ℕ × List ℕ)
  hear_sifting (sifting_result matching detected) = ok (matching, detected)
  hear_sifting (alice_bases bases) = err protocol_error
  hear_sifting (request_sample sample) = err protocol_error
  hear_sifting (alice_sample_bits bits) = err protocol_error
  hear_sifting (qber_result result) = err protocol_error
  hear_sifting other_message = err protocol_error

  -- The sample that Alice notes, and what she sends: nothing if it was not a request.
  abbrev pub answer_sample : List (ℕ × Record) → Message f → Result (List ℕ × Option (Message f))
  answer_sample sent (request_sample sample) =
      bits_at sent sample >>= λ bits. ok (sample, some (alice_sample_bits bits))
  answer_sample sent (alice_bases bases) = ok ([], none)
  answer_sample sent (sifting_result matching detected) = ok ([], none)
  answer_sample sent (alice_sample_bits bits) = ok ([], none)
  answer_sample sent (qber_result result) = ok ([], none)
  answer_sample sent other_message = ok ([], none)

  abbrev pub hear_qber : Message f → Result (QberResult f)
  hear_qber (qber_result result) = ok result
  hear_qber (alice_bases bases) = err protocol_error
  hear_qber (sifting_result matching detected) = err protocol_error
  hear_qber (request_sample sample) = err protocol_error
  hear_qber (alice_sample_bits bits) = err protocol_error
  hear_qber other_message = err protocol_error
