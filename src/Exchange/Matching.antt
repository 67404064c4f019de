-- ===== src/Exchange/Matching.antt =====
-- qne/bob.py: Bob's dict of detections, the matching positions, and the choice of bits by basis.
use qfabric.Prelude.{ℕ, Bool, true, false, Option, none, some, List, [], ◌∷◌, ◌==◌, if◌then◌else◌}
use qfabric.Prelude.Result.{Result, ok, err, key_error, index_error, ◌>>=◌}
use qfabric.Prelude.Maps.{lookup, has, insert}
use qfabric.Sifting.{Record}

-- Bob's dict of detections: a later record of a photon that is there is skipped.
unfoldable pub index_detections : List Record → List (ℕ × Record) → List (ℕ × Record)
index_detections [] dict = dict
index_detections (r ∷ log) dict =
    if has r.sequence_num dict
    then index_detections log dict
    else index_detections log (insert r.sequence_num r dict)

-- `detected_sequences`, the keys in their order
unfoldable pub sequences : List (ℕ × Record) → List ℕ
sequences [] = []
sequences (entry ∷ dict) = entry.0 ∷ sequences dict

-- `alice_bases.get(seq) == basis`
unfoldable pub is_basis : ℕ → Option ℕ → Bool
is_basis basis none = false
is_basis basis (some b) = b == basis

-- The detected photons whose basis is the announced one, before they are sorted.
unfoldable pub matching_of : List (ℕ × ℕ) → List (ℕ × Record) → List ℕ
matching_of bases [] = []
matching_of bases (entry ∷ dict) =
    if is_basis (entry.1).basis (lookup (entry.0) bases)
    then entry.0 ∷ matching_of bases dict
    else matching_of bases dict

-- `[s for s in matching if bob_by_seq[s].basis == basis]`. Every s is a key of the dict.
unfoldable pub has_basis : ℕ → Option Record → Bool
has_basis basis none = false
has_basis basis (some r) = r.basis == basis

unfoldable pub with_basis : ℕ → List (ℕ × Record) → List ℕ → List ℕ
with_basis basis dict [] = []
with_basis basis dict (s ∷ seqs) =
    if has_basis basis (lookup s dict)
    then s ∷ with_basis basis dict seqs
    else with_basis basis dict seqs

abbrev head_of : List ℕ → Result ℕ
head_of [] = err index_error
head_of (x ∷ xs) = ok x

abbrev tail_of : List ℕ → List ℕ
tail_of [] = []
tail_of (x ∷ xs) = xs

abbrev pub picked : Bool → List ℕ → Result (List ℕ) → Result (List ℕ)
picked true bits rest = do x ← head_of bits; xs ← rest; ok (x ∷ xs)
picked false bits rest = rest

-- `[bits[i] for i, s in enumerate(sample) if alice_bases[s] == basis]`
unfoldable pub pick : ℕ → List (ℕ × ℕ) → List ℕ → List ℕ → Result (List ℕ)
pick basis bases [] bits = ok []
pick basis bases (s ∷ sample) bits =
    let rest = pick basis bases sample (tail_of bits) in
    elim (lookup s bases) [ none ↦ err key_error | some b ↦ picked (b == basis) bits rest ]
