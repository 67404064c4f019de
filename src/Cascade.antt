-- ===== src/Cascade.antt =====
-- qne/cascade.py: interactive error reconciliation. Bits are Booleans (the source's 0 and 1), and a
-- read outside a list gives 0 or the empty list; the theorems are about blocks inside the key. The
-- parity oracle is a function from the index lists of one call to the parities that it returns.
pub mod Parity
pub mod Bisect
pub mod Blocks
pub mod Corrected
pub mod Work
pub mod FirstWork
pub mod Pass
pub mod Whole
mod Tests
use mathlib.Core.List.{foldl}
use qfabric.Floats.{Floats}
use qfabric.Prelude.Slices.{slices}
use qfabric.Prelude.{
  ℕ, zero, suc, ◌+◌, ◌*◌, ◌/◌, ◌%◌, ◌^◌, min, max, Bool, true, false, not, Option, none, some, List,
  [], ◌∷◌, ◌++◌, map, length, get_or, set, take, drop, replicate, ltb, if◌then◌else◌, xor,
}

abbrev pub Oracle : Type 0
Oracle = List (List ℕ) → List Bool

-- `reduce(xor, (key[i] for i in block), 0)`
unfoldable pub parity : List Bool → List ℕ → Bool
parity key block = foldl xor false (map (λ i. get_or key i false) block)

-- `key[i] ^= 1`
unfoldable pub flip : List Bool → ℕ → List Bool
flip key i = set key i (not (get_or key i false))

-- `alice_parities([half])[0]`
unfoldable pub ask : Oracle → List ℕ → Bool
ask oracle block = get_or (oracle (block ∷ [])) 0 false

-- `b[0]` raises on an empty block
abbrev first : List ℕ → ℕ → Option (ℕ × ℕ)
first [] leaked = none
first (i ∷ _) leaked = some (i, leaked)

-- `_binary_correct` up to the flip: the position that its loop ends at, and the count of leaked
-- parities. `none` also if the fuel runs out; the length of the block is enough.
unfoldable pub bisect : ℕ → Oracle → List Bool → List ℕ → ℕ → Option (ℕ × ℕ)
unfolding ask parity
bisect zero oracle key b leaked = none
bisect (suc fuel) oracle key b leaked =
    let half = take (length b / 2) b in
    let lower = bisect fuel oracle key half (leaked + 1) in
    let upper = bisect fuel oracle key (drop (length b / 2) b) (leaked + 1) in
    if ltb 1 (length b)
    then if xor (ask oracle half) (parity key half) then lower else upper
    else first b leaked

-- The variables of `reconcile` that its loops change.
pub record Run : Type 0 where
  pub key : List Bool
  pub leaked : ℕ
  pub corrections : ℕ
  pub pass_blocks : List (List (List ℕ))
  pub pos_block : List (List ℕ)
  pub alice_pp : List (List Bool)

abbrev pub block_at : Run → ℕ → ℕ → List ℕ
block_at r q bid = get_or (get_or r.pass_blocks q []) bid []

-- `alice_pp[q][bid] != _parity(key, pass_blocks[q][bid])`
unfoldable pub is_odd : Run → ℕ → ℕ → Bool
unfolding parity
is_odd r q bid = xor (get_or (get_or r.alice_pp q []) bid false) (parity r.key (block_at r q bid))

-- `for qq in range(p + 1)`: the blocks with position i that are odd, from pass qq on
unfoldable pub reopened : Run → ℕ → ℕ → ℕ → List (ℕ × ℕ)
unfolding is_odd
reopened r i qq zero = []
reopened r i qq (suc count) =
    let b2 = get_or (get_or r.pos_block qq []) i 0 in
    if is_odd r qq b2 then (qq, b2) ∷ reopened r i (suc qq) count else reopened r i (suc qq) count

-- After the search: flip the bit and count the correction.
unfoldable pub corrected : Run → ℕ → ℕ → Run
unfolding flip
corrected r i leaked = record r {
  key = flip r.key i;
  leaked = leaked;
  corrections = r.corrections + 1;
}

-- `while work`, in pass p. `none` if the fuel runs out or `_binary_correct` raises.
unfoldable pub drain : ℕ → Oracle → ℕ → List (ℕ × ℕ) → Run → Option Run
unfolding bisect is_odd reopened corrected
drain zero oracle p work r = none
drain (suc fuel) oracle p [] r = some r
drain (suc fuel) oracle p ((q, bid) ∷ rest) r = elim (is_odd r q bid) [
  | false ↦ drain fuel oracle p rest r
  | true ↦
      elim (bisect (suc (length (block_at r q bid))) oracle r.key (block_at r q bid) r.leaked) [
        | none ↦ none
        | some (i, leaked) ↦
            drain fuel oracle p (rest ++ reopened (corrected r i leaked) i 0 (p + 1))
              (corrected r i leaked)
      ]
]

-- `list(range(start, start + count))`
unfoldable pub range_from : ℕ → ℕ → List ℕ
range_from start zero = []
range_from start (suc count) = start ∷ range_from (suc start) count

-- `for i in blk: pb[i] = bid`
unfoldable pub mark : ℕ → List ℕ → List ℕ → List ℕ
mark bid [] pb = pb
mark bid (i ∷ blk) pb = mark bid blk (set pb i bid)

-- `for bid, blk in enumerate(blocks)`, from block number bid on
unfoldable pub mark_all : ℕ → List (List ℕ) → List ℕ → List ℕ
unfolding mark
mark_all bid [] pb = pb
mark_all bid (blk ∷ blocks) pb = mark_all (suc bid) blocks (mark bid blk pb)

-- `for bid, blk in enumerate(blocks)`: the odd blocks of pass p, from block number bid on
unfoldable pub first_work : Run → ℕ → ℕ → ℕ → List (ℕ × ℕ)
unfolding is_odd
first_work r p bid zero = []
first_work r p bid (suc count) =
    if is_odd r p bid
    then (p, bid) ∷ first_work r p (suc bid) count
    else first_work r p (suc bid) count

unfoldable pub pass_block_size : ℕ → ℕ → ℕ → ℕ
pass_block_size n k1 p = min (max 1 (n / 2)) (k1 * 2 ^ (p % 2))

-- The start of a pass: its blocks, the index of positions, and one batched call of the oracle.
unfoldable pub open_pass : Oracle → ℕ → ℕ → List ℕ → Run → Run
unfolding mark_all pass_block_size
open_pass oracle k1 p perm r =
    let n = length r.key in
    let blocks = slices n perm (pass_block_size n k1 p) 0 n in
    record r {
      leaked = r.leaked + length blocks;
      pass_blocks = r.pass_blocks ++ blocks ∷ [];
      pos_block = r.pos_block ++ mark_all 0 blocks (replicate n 0) ∷ [];
      alice_pp = r.alice_pp ++ oracle blocks ∷ [];
    }

-- One pass, with fuel for each bit of the key to be corrected once.
unfoldable pub run_pass : Oracle → ℕ → ℕ → List ℕ → Run → Option Run
run_pass oracle k1 p perm r =
    let r' = open_pass oracle k1 p perm r in
    let count = length (get_or r'.pass_blocks p []) in
    drain (length r.key * (p + 2) + count + 1) oracle p (first_work r' p 0 count) r'

-- `for p in range(passes)`, from pass p on. `perms p` is what the p-th pass's `rng.permutation(n)`
-- returns; pass 0 has the identity.
unfoldable pub run_passes : Oracle → (ℕ → List ℕ) → ℕ → ℕ → ℕ → Run → Option Run
unfolding range_from
run_passes oracle perms k1 p zero r = some r
run_passes oracle perms k1 zero (suc count) r =
    elim (run_pass oracle k1 0 (range_from 0 (length r.key)) r) [
      | none ↦ none
      | some r' ↦ run_passes oracle perms k1 1 count r'
    ]
run_passes oracle perms k1 (suc p) (suc count) r =
    elim (run_pass oracle k1 (suc p) (perms (suc p)) r) [
      | none ↦ none
      | some r' ↦ run_passes oracle perms k1 (suc (suc p)) count r'
    ]

module _ (f : Floats) where
  open f use {F, ratio, le, div, round_of}

  unfoldable pub initial_block_size : F → ℕ → ℕ
  initial_block_size qber n =
      if le qber (ratio 0 1) then max 1 n else max 1 (min n (round_of (div (ratio 73 100) qber)))

pub record CascadeResult : Type 0 where
  pub corrected_key : List Bool
  pub corrections : ℕ
  pub bits_leaked : ℕ
  pub passes : ℕ
  pub block_size : ℕ

abbrev pub start : List Bool → Run
start key = record {
  key = key;
  leaked = 0;
  corrections = 0;
  pass_blocks = [];
  pos_block = [];
  alice_pp = [];
}

abbrev pub finish : ℕ → ℕ → Run → CascadeResult
finish passes k1 r = record {
  corrected_key = r.key;
  corrections = r.corrections;
  bits_leaked = r.leaked;
  passes = passes;
  block_size = k1;
}

-- `reconcile`, with `initial_block_size(qber, n)` for k1
unfoldable pub reconcile : Oracle → (ℕ → List ℕ) → ℕ → ℕ → List Bool → Option CascadeResult
unfolding run_passes
reconcile oracle perms passes k1 [] = some (finish passes k1 (start []))
reconcile oracle perms passes k1 (b ∷ key) =
    elim (run_passes oracle perms k1 0 passes (start (b ∷ key))) [
      | none ↦ none
      | some r ↦ some (finish passes k1 r)
    ]
