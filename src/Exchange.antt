-- ===== src/Exchange.antt =====
-- qne/alice.py and qne/bob.py: the messages of the sifting exchange, which both sides send and read.
pub mod Alice
pub mod Matching
pub mod Bob
pub mod Run
pub mod Shared
pub mod Sample
pub mod Keys
pub mod Agree
pub mod Clean
pub mod Ideal
mod Tests
use qfabric.Prelude.{
  ℕ, zero, suc, Bool, true, false, Option, none, some, List, [], ◌∷◌, ◌==◌, ◌*◌, ◌+◌, if◌then◌else◌,
}
use qfabric.Prelude.Result.{Result, ok, err, key_error, ◌>>=◌}
use qfabric.Prelude.Maps.{lookup, insert}
use qfabric.Floats.{Floats}
use qfabric.Sifting.{Record}
use qfabric.Sifting.Rates.{QberEstimate}

-- The body of `qber_result`.
pub record QberResult (f : Floats) : Type 0 where
  pub qber : f.F
  pub num_sampled : ℕ
  pub num_errors : ℕ
  pub confidence_interval : f.F × f.F
  pub raw_key_rate : f.F
  pub secure_key_rate : f.F
  pub final_key_bits : ℕ
  pub reconcile : Bool

pub data Message (f : Floats) : Type 0 where
  alice_bases : List (ℕ × ℕ) → Message f
  sifting_result : List ℕ → List ℕ → Message f
  request_sample : List ℕ → Message f
  alice_sample_bits : List ℕ → Message f
  qber_result : QberResult f → Message f
  other_message : Message f

-- `[by_seq[s].bit_value for s in seqs]`
unfoldable pub bits_at : List (ℕ × Record) → List ℕ → Result (List ℕ)
bits_at dict [] = ok []
bits_at dict (s ∷ seqs) =
    let rest = bits_at dict seqs in
    elim (lookup s dict) [
      | none ↦ err key_error
      | some r ↦ rest >>= λ bits. ok (r.bit_value ∷ bits)
    ]

-- The bits as Cascade takes them, and `bits_to_int`, which reads them as a binary number.
abbrev pub to_bools : List ℕ → List Bool
to_bools [] = []
to_bools (b ∷ bits) = (b == 1) ∷ to_bools bits

pub binary : List ℕ → ℕ → ℕ
binary [] value = value
binary (b ∷ bits) value = binary bits (2 * value + b)

pub bits_to_int : List ℕ → Option ℕ
bits_to_int [] = none
bits_to_int (b ∷ bits) = some (binary (b ∷ bits) 0)
