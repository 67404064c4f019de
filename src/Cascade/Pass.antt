-- ===== src/Cascade/Pass.antt =====
-- A whole pass: the tables that it adds are right, its first queue holds every odd block, and the run
-- ends.
use mathlib.Core.List.{flatten}
use qfabric.Prelude.{
  ℕ, ◌+◌, ◌*◌, ◌^◌, ◌≤◌, ◌<◌, ◌≡◌, refl, ap, ◌∙◌, inl, inr, Bool, true, false, List, [], some,
  arith, length, length-append, length-replicate, get_or, get_or-snoc, get_or_past, get_or-map, xor,
  ◌==◌, Bool-cases, if◌then◌else◌, replicate,
}
use qfabric.Prelude.Elem.{elem}
use qfabric.Prelude.Slices.{slices, flatten-slices, length-slice, length-slices}
use qfabric.Cascade.{
  Oracle, Run, parity, block_at, is_odd, drain, range_from, mark_all, first_work, pass_block_size,
  open_pass, run_pass,
}
use qfabric.Cascade.Parity.{errors, errors-le-length}
use qfabric.Cascade.Bisect.{IsHonest}
use qfabric.Cascade.Work.{drain-Drains}
use qfabric.Cascade.Corrected.{IsLaid, Pending, Settled}
use qfabric.Cascade.Blocks.{IsPermutation, get_or-mark_all}
use qfabric.Cascade.FirstWork.{
  mul-le, pass_block_size_bounds, first_work-holds, length-first_work, Settled-IsLaid, IsReady,
}

module _ (alice : List Bool) (oracle : Oracle) (honest : IsHonest alice oracle) (m k1 : ℕ)
    (key : List Bool) (k1_pos : 1 ≤ k1) (k1_small : 2 * k1 ≤ 2 ^ m) (p : ℕ) (perm : List ℕ)
    (r : Run) where
  new_blocks : List (List ℕ)
  new_blocks = slices (length r.key) perm (pass_block_size (length r.key) k1 p) 0 (length r.key)

  -- The blocks of earlier passes stay, and the new ones follow.
  block_at-open :
      IsReady alice m key p r
      → (q bid : ℕ)
      → block_at (open_pass oracle k1 p perm r) q bid
        ≡ (if q == p then get_or new_blocks bid [] else block_at r q bid)
  unfolding open_pass new_blocks
  block_at-open ready q bid =
      rw (get_or-snoc r.pass_blocks new_blocks q [], ready.blocks_size) (ground arith)

  cached-open :
      IsReady alice m key p r
      → (q bid : ℕ)
      → get_or (get_or (open_pass oracle k1 p perm r).alice_pp q []) bid false ≡ (
          if q == p
          then parity alice (get_or new_blocks bid [])
          else get_or (get_or r.alice_pp q []) bid false)
  unfolding open_pass new_blocks parity
  cached-open ready q bid =
      rw
        (
          get_or-snoc r.alice_pp (oracle new_blocks) q [],
          ready.parity_size,
          honest.answers new_blocks,
        )
        (ground (arith, get_or-map (parity alice) new_blocks bid []))

  indexed-open :
      IsReady alice m key p r
      → (q i : ℕ)
      → get_or (get_or (open_pass oracle k1 p perm r).pos_block q []) i 0 ≡ (
          if q == p
          then get_or (mark_all 0 new_blocks (replicate (length r.key) 0)) i 0
          else get_or (get_or r.pos_block q []) i 0)
  unfolding open_pass new_blocks
  indexed-open ready q i =
      rw
        (
          get_or-snoc r.pos_block (mark_all 0 new_blocks (replicate (length r.key) 0)) q [],
          ready.index_size,
        )
        (ground arith)

  bs_bounds :
      (1 ≤ pass_block_size (length r.key) k1 p) × (pass_block_size (length r.key) k1 p ≤ 2 ^ m)
  bs_bounds = let b = pass_block_size_bounds (length r.key) k1 p k1_pos in (b.0, omega (arith, b.1))

  flatten_new : IsPermutation (length r.key) perm → flatten new_blocks ≡ perm
  unfolding new_blocks
  flatten_new good =
      flatten-slices (length r.key) perm (pass_block_size (length r.key) k1 p) 0 (length r.key)
        good.size bs_bounds.0 (omega arith)

  short_new : (bid : ℕ) → length (get_or new_blocks bid []) ≤ pass_block_size (length r.key) k1 p
  unfolding new_blocks
  short_new bid =
      length-slice (length r.key) perm (pass_block_size (length r.key) k1 p) 0 (length r.key) bid

  marked :
      IsPermutation (length r.key) perm
      → (bid i : ℕ) → elem i (get_or new_blocks bid []) ≡ true
      → get_or (mark_all 0 new_blocks (replicate (length r.key) 0)) i 0 ≡ bid
  marked good bid i e =
      get_or-mark_all 0 i bid new_blocks (replicate (length r.key) 0)
        (rw (flatten_new good, length-replicate {A = ℕ} (length r.key) 0) good.below)
        (rw (flatten_new good) good.distinct) e
      ∙ omega arith

  block_at-new :
      IsReady alice m key p r
      → (bid : ℕ) → block_at (open_pass oracle k1 p perm r) p bid ≡ get_or new_blocks bid []
  block_at-new ready bid = rw (block_at-open ready p bid) (ground arith)

  open_pass-IsLaid :
      IsReady alice m key p r
      → IsPermutation (length r.key) perm
      → IsLaid alice m (p + 1) (open_pass oracle k1 p perm r)
  open_pass-IsLaid ready good = record {
    same_length = unfold open_pass in ready.laid.same_length;
    cached = λ q bid.
        rw (cached-open ready q bid, block_at-open ready q bid)
          (ground (arith, ready.laid.cached q bid));
    indexed = λ q bid i e. ground (
      arith,
      e,
      block_at-open ready q bid,
      indexed-open ready q i,
      marked good bid i,
      ready.laid.indexed q bid i,
    );
    opened = λ q bid i e. ground (arith, e, block_at-open ready q bid, ready.laid.opened q bid i);
    short = λ q bid.
        rw (block_at-open ready q bid)
          (ground (arith, short_new bid, bs_bounds, ready.laid.short q bid));
  }

  key-open : (open_pass oracle k1 p perm r).key ≡ r.key
  unfolding open_pass
  key-open = refl

  is_odd-open :
      IsReady alice m key p r
      → (q bid : ℕ)
      → is_odd (open_pass oracle k1 p perm r) q bid ≡ (
          if q == p
          then xor
              (parity alice (get_or new_blocks bid []))
              (parity r.key (get_or new_blocks bid []))
          else is_odd r q bid)
  unfolding is_odd
  is_odd-open ready q bid =
      rw (cached-open ready q bid, block_at-open ready q bid, key-open) (ground arith)

  odd_is_new :
      IsReady alice m key p r
      → (q bid : ℕ) → is_odd (open_pass oracle k1 p perm r) q bid ≡ true
      → (q ≡ p) × (bid < length new_blocks)
  unfolding parity
  odd_is_new ready q bid odd =
      ground (arith, is_odd-open ready q bid, ready.even q bid, get_or_past new_blocks bid [])

  new_table :
      IsReady alice m key p r → get_or (open_pass oracle k1 p perm r).pass_blocks p [] ≡ new_blocks
  unfolding open_pass new_blocks
  new_table ready = rw (get_or-snoc r.pass_blocks new_blocks p [], ready.blocks_size) (ground arith)

  table_zero :
      IsReady alice m key p r
      → get_or (open_pass oracle k1 p perm r).pass_blocks 0 []
        ≡ (if 0 == p then new_blocks else get_or r.pass_blocks 0 [])
  unfolding open_pass new_blocks
  table_zero ready = rw (get_or-snoc r.pass_blocks new_blocks 0 [], ready.blocks_size)

  first_work-Pending :
      IsReady alice m key p r
      → Pending
          (first_work (open_pass oracle k1 p perm r) p 0 (length new_blocks))
          (open_pass oracle k1 p perm r)
  first_work-Pending ready q bid odd =
      let (e, h) = odd_is_new ready q bid odd in
      rw e (
        first_work-holds (open_pass oracle k1 p perm r) p bid 0 (length new_blocks) (omega arith)
          (omega arith) (rw e at odd))

  run_pass-eq :
      IsReady alice m key p r
      → run_pass oracle k1 p perm r
        ≡ drain
            (length r.key * (p + 2) + length new_blocks + 1)
            oracle
            p
            (first_work (open_pass oracle k1 p perm r) p 0 (length new_blocks))
            (open_pass oracle k1 p perm r)
  unfolding run_pass
  run_pass-eq ready = rw (new_table ready)

  enough_fuel :
      errors alice (open_pass oracle k1 p perm r).key * (p + 2)
        + length (first_work (open_pass oracle k1 p perm r) p 0 (length new_blocks))
      < length r.key * (p + 2) + length new_blocks + 1
  enough_fuel = omega (
    arith,
    ap (λ (t : List Bool). errors alice t * (p + 2)) key-open,
    mul-le _ _ (p + 2) (errors-le-length alice r.key),
    length-first_work (open_pass oracle k1 p perm r) p 0 (length new_blocks),
  )

  open_sizes :
      IsReady alice m key p r
      → (length (open_pass oracle k1 p perm r).pass_blocks ≡ p + 1)
        × (length (open_pass oracle k1 p perm r).pos_block ≡ p + 1)
        × (length (open_pass oracle k1 p perm r).alice_pp ≡ p + 1)
  unfolding open_pass
  open_sizes ready = (
    length-append r.pass_blocks _ ∙ ap (λ (t : ℕ). t + 1) ready.blocks_size,
    length-append r.pos_block _ ∙ ap (λ (t : ℕ). t + 1) ready.index_size,
    length-append r.alice_pp _ ∙ ap (λ (t : ℕ). t + 1) ready.parity_size,
  )

  open_counts :
      ((open_pass oracle k1 p perm r).leaked ≤ r.leaked + length r.key)
      × ((open_pass oracle k1 p perm r).corrections ≡ r.corrections)
  unfolding open_pass
  open_counts = (
    omega (
      arith,
      length-slices (length r.key) perm (pass_block_size (length r.key) k1 p) 0 (length r.key),
    ),
    refl,
  )

  covered-open :
      IsReady alice m key p r
      → IsPermutation (length r.key) perm
      → (p ≡ 0 → perm ≡ range_from 0 (length r.key))
      → (r' : Run) → Settled alice m (open_pass oracle k1 p perm r) r'
      → flatten (get_or r'.pass_blocks 0 []) ≡ range_from 0 (length r'.key)
  covered-open ready good first r' s =
      rw (s.pass_blocks, s.key_length, key-open, table_zero ready)
        (elim (Bool-cases (0 == p)) [
          | inl e ↦ rw e (flatten_new good ∙ first (ground arith))
          | inr e ↦ rw e (ready.covered (ground arith))
        ])

  Settled-IsReady :
      IsReady alice m key p r
      → IsPermutation (length r.key) perm
      → (p ≡ 0 → perm ≡ range_from 0 (length r.key))
      → (r' : Run) → Settled alice m (open_pass oracle k1 p perm r) r'
      → IsReady alice m key (p + 1) r'
  Settled-IsReady ready good first r' s =
      let l = open_pass-IsLaid ready good in
      record {
        laid = Settled-IsLaid alice m (p + 1) (open_pass oracle k1 p perm r) r' s l;
        blocks_size = ap length s.pass_blocks ∙ (open_sizes ready).0;
        index_size = ap length s.pos_block ∙ (open_sizes ready).1;
        parity_size = ap length s.alice_pp ∙ (open_sizes ready).2;
        even = s.even;
        covered = λ _. covered-open ready good first r' s;
        key_length = s.key_length ∙ ap length key-open ∙ ready.key_length;
        counted = omega (arith, s.counted, ap (errors alice) key-open, open_counts, ready.counted);
        leak = omega (
          arith,
          s.leak,
          open_counts,
          ready.leak,
          ready.key_length,
          ap (λ (t : ℕ). t * m) open_counts.1,
        );
      }

  -- A pass ends, and leaves the run ready for the next one.
  pub run_pass-IsReady :
      IsReady alice m key p r
      → IsPermutation (length r.key) perm
      → (p ≡ 0 → perm ≡ range_from 0 (length r.key))
      → (r' : Run) × (run_pass oracle k1 p perm r ≡ some r') × IsReady alice m key (p + 1) r'
  run_pass-IsReady ready good first =
      let (r', e, s) =
        drain-Drains alice oracle honest m p (length r.key * (p + 2) + length new_blocks + 1)
          (first_work (open_pass oracle k1 p perm r) p 0 (length new_blocks))
          (open_pass oracle k1 p perm r) (open_pass-IsLaid ready good) (first_work-Pending ready)
          enough_fuel in
      (r', run_pass-eq ready ∙ e, Settled-IsReady ready good first r' s)
