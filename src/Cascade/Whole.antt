-- ===== src/Cascade/Whole.antt =====
-- `reconcile` as a whole: it returns, every correction removes one error, the leak is bounded, and
-- the errors that are left are even in number.
use mathlib.Core.Bool.{false≢true}
use mathlib.Core.List.{flatten}
use qfabric.Prelude.{
  ℕ, zero, suc, ◌+◌, ◌*◌, ◌%◌, ◌^◌, ◌≤◌, ◌<◌, ◌≡◌, refl, ap, subst, ◌∙◌, Bool, false, List, [], ◌∷◌,
  some, arith, length, get_or, xor, if◌then◌else◌,
}
use qfabric.Cascade.{
  Oracle, Run, CascadeResult, parity, is_odd, range_from, run_passes, reconcile, start, finish,
}
use qfabric.Cascade.Parity.{errors, parity-append, parity-cons}
use qfabric.Cascade.Bisect.{IsHonest}
use qfabric.Cascade.Blocks.{IsPermutation, range_from-IsPermutation}
use qfabric.Cascade.FirstWork.{IsReady}
use qfabric.Cascade.Pass.{run_pass-IsReady}

parity_same_flatten :
    (a b : List Bool) (blocks : List (List ℕ))
    → ((bid : ℕ) → parity a (get_or blocks bid []) ≡ parity b (get_or blocks bid []))
    → parity a (flatten blocks) ≡ parity b (flatten blocks)
unfolding flatten
parity_same_flatten a b [] h = h 0
parity_same_flatten a b (blk ∷ blocks) h = rw (
  parity-append a blk (flatten blocks),
  parity-append b blk (flatten blocks),
  h 0,
  parity_same_flatten a b blocks (λ bid. h (suc bid)),
)

parity_shift :
    (x : Bool) (xs : List Bool) (from count : ℕ)
    → parity (x ∷ xs) (range_from (suc from) count) ≡ parity xs (range_from from count)
unfolding range_from
parity_shift x xs from zero = unfold parity in refl
parity_shift x xs from (suc count) = rw (
  parity-cons (x ∷ xs) (suc from) (range_from (suc (suc from)) count),
  parity-cons xs from (range_from (suc from) count),
  parity_shift x xs (suc from) count,
)

-- Keys of equal length with the same parity differ at an even number of positions.
errors-parity :
    (a b : List Bool)
    → length a ≡ length b
    → errors a b % 2 ≡ (
        if xor (parity a (range_from 0 (length b))) (parity b (range_from 0 (length b)))
        then 1
        else 0)
unfolding errors range_from
errors-parity [] [] h = unfold parity in refl
errors-parity [] (y ∷ b) h = absurd (omega arith)
errors-parity (x ∷ a) [] h = absurd (omega arith)
errors-parity (x ∷ a) (y ∷ b) h = ground (
  arith,
  parity-cons (x ∷ a) 0 (range_from 1 (length b)),
  parity-cons (y ∷ b) 0 (range_from 1 (length b)),
  parity_shift x a 0 (length b),
  parity_shift y b 0 (length b),
  errors-parity a b (omega arith),
)

-- What `reconcile` promises of its result, for a key with Alice's bits in `alice`.
pub record IsReconciled (alice key : List Bool) (passes m : ℕ) (res : CascadeResult) : Type 0 where
  pub key_length : length res.corrected_key ≡ length key
  pub counted : errors alice res.corrected_key + res.corrections ≡ errors alice key
  pub leak : res.bits_leaked ≤ passes * length key + res.corrections * m
  pub residual : 0 < passes → errors alice res.corrected_key % 2 ≡ 0
  pub reported : res.passes ≡ passes

module _ (alice : List Bool) (oracle : Oracle) (honest : IsHonest alice oracle) (m k1 : ℕ)
    (key : List Bool) (k1_pos : 1 ≤ k1) (k1_small : 2 * k1 ≤ 2 ^ m) (perms : ℕ → List ℕ)
    (shuffled : (p : ℕ) → IsPermutation (length key) (perms p)) where
  run_passes-IsReady :
      (p count : ℕ) (r : Run)
      → IsReady alice m key p r
      → (r' : Run) × (run_passes oracle perms k1 p count r ≡ some r')
        × IsReady alice m key (p + count) r'
  unfolding run_passes
  run_passes-IsReady p zero r ready =
      (r, refl, subst (λ t. IsReady alice m key t r) (omega arith) ready)
  run_passes-IsReady zero (suc count) r ready =
      let (r', e, next) =
        run_pass-IsReady alice oracle honest m k1 key k1_pos k1_small 0
          (range_from 0 (length r.key)) r ready (range_from-IsPermutation (length r.key))
          (λ _. refl) in
      let (r'', e', done) = run_passes-IsReady 1 count r' next in
      (r'', rw (e, run_passes) e', subst (λ t. IsReady alice m key t r'') (omega arith) done)
  run_passes-IsReady (suc p) (suc count) r ready =
      let (r', e, next) =
        run_pass-IsReady alice oracle honest m k1 key k1_pos k1_small (suc p) (perms (suc p)) r
          ready (rw ready.key_length (shuffled (suc p))) (λ z. absurd (omega arith)) in
      let (r'', e', done) =
        run_passes-IsReady (suc (suc p)) count r'
          (subst (λ t. IsReady alice m key t r') (omega arith) next) in
      (r'', rw (e, run_passes) e', subst (λ t. IsReady alice m key t r'') (omega arith) done)

even-agree : (a b : Bool) → xor a b ≡ false → a ≡ b
even-agree a b h = ground arith

-- After at least one pass the keys differ at an even number of positions.
IsReady-residual :
    (alice key : List Bool) (m p : ℕ) (r : Run)
    → IsReady alice m key p r
    → 0 < p
    → errors alice r.key % 2 ≡ 0
IsReady-residual alice key m p r ready pos =
    ground (arith, errors-parity alice r.key ready.laid.same_length, whole)
  where
    blocks_agree :
        (bid : ℕ)
        → parity alice (get_or (get_or r.pass_blocks 0 []) bid [])
          ≡ parity r.key (get_or (get_or r.pass_blocks 0 []) bid [])
    blocks_agree bid =
        even-agree _ _ (rw (← ready.laid.cached 0 bid) (unfold is_odd in ready.even 0 bid))

    whole : parity alice (range_from 0 (length r.key)) ≡ parity r.key (range_from 0 (length r.key))
    whole =
        rw (← ready.covered pos)
          (parity_same_flatten alice r.key (get_or r.pass_blocks 0 []) blocks_agree)

start-IsReady :
    (alice key : List Bool) (m : ℕ) → length alice ≡ length key → IsReady alice m key 0 (start key)
unfolding is_odd parity
start-IsReady alice key m e = record {
  laid = record {
    same_length = e;
    cached = λ q bid. refl;
    indexed = λ q bid i h. absurd (false≢true h);
    opened = λ q bid i h. absurd (false≢true h);
    short = λ q bid. omega arith;
  };
  blocks_size = refl;
  index_size = refl;
  parity_size = refl;
  even = λ q bid. refl;
  covered = λ pos. absurd (omega arith);
  key_length = refl;
  counted = omega arith;
  leak = omega arith;
}

reconciled :
    (alice key : List Bool) (passes m : ℕ) (r : Run) (res : CascadeResult)
    → IsReady alice m key passes r
    → res.corrected_key ≡ r.key
    → res.corrections ≡ r.corrections
    → res.bits_leaked ≡ r.leaked
    → res.passes ≡ passes
    → IsReconciled alice key passes m res
reconciled alice key passes m r res ready k c l n = record {
  key_length = ap length k ∙ ready.key_length;
  counted = rw (k, c) ready.counted;
  leak = rw (l, c) ready.leak;
  residual = λ pos. rw k (IsReady-residual alice key m passes r ready pos);
  reported = n;
}

-- For keys of one length, an honest oracle, true permutations and a first block size k1 with
-- 1 ≤ k1 and 2 * k1 ≤ 2 ^ m, `reconcile` returns: the key has its length, each correction removed
-- exactly one error, at most one parity for each position in each pass and m for each correction
-- were leaked, after a pass or more the number of errors left is even, and the number of passes is
-- the one asked for.
pub reconcile-IsReconciled :
    (alice : List Bool) (oracle : Oracle) (perms : ℕ → List ℕ) (passes k1 m : ℕ) (key : List Bool)
    → IsHonest alice oracle
    → ((p : ℕ) → IsPermutation (length key) (perms p))
    → 1 ≤ k1
    → 2 * k1 ≤ 2 ^ m
    → length alice ≡ length key
    → (res : CascadeResult) × (reconcile oracle perms passes k1 key ≡ some res)
      × IsReconciled alice key passes m res
unfolding reconcile errors
reconcile-IsReconciled [] oracle perms passes k1 m [] honest shuffled pos small e = (
  finish passes k1 (start []),
  refl,
  record {
    key_length = refl;
    counted = refl;
    leak = omega arith;
    residual = λ _. refl;
    reported = refl;
  },
)
reconcile-IsReconciled (x ∷ alice) oracle perms passes k1 m [] honest shuffled pos small e =
    absurd (omega arith)
reconcile-IsReconciled alice oracle perms passes k1 m (b ∷ key) honest shuffled pos small e =
    let (r, ran, ready) =
      run_passes-IsReady alice oracle honest m k1 (b ∷ key) pos small perms shuffled 0 passes
        (start (b ∷ key)) (start-IsReady alice (b ∷ key) m e) in
    (
      finish passes k1 r,
      rw (ran, reconcile),
      reconciled alice (b ∷ key) passes m r (finish passes k1 r)
          (subst (λ t. IsReady alice m (b ∷ key) t r) (omega arith) ready) refl refl refl refl,
    )
