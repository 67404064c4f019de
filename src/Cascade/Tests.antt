-- ===== src/Cascade/Tests.antt =====
-- Runs of qne/cascade.py's functions on small keys, and the theorems at those keys.
use qfabric.Prelude.{ℕ, ◌≡◌, refl, Bool, true, false, List, [], ◌∷◌, some, map, arith}
use qfabric.Prelude.Slices.{slices}
use qfabric.Cascade.{
  Oracle, CascadeResult, parity, flip, ask, bisect, reconcile, run_pass, open_pass, drain,
  first_work, is_odd, range_from,
}
use qfabric.Cascade.Bisect.{IsHonest, Finds, bisect-Finds}
use qfabric.Cascade.Blocks.{range_from-IsPermutation}
use qfabric.Cascade.Whole.{IsReconciled, reconcile-IsReconciled}

abbrev alice_key : List Bool
alice_key = true ∷ false ∷ true ∷ true ∷ false ∷ false ∷ true ∷ false ∷ []

abbrev bob_key : List Bool
bob_key = true ∷ true ∷ true ∷ true ∷ false ∷ true ∷ true ∷ false ∷ []

abbrev oracle : Oracle
oracle = λ blocks. map (parity alice_key) blocks

honest : IsHonest alice_key oracle
honest = record { answers = λ blocks. refl }

abbrev perms : ℕ → List ℕ
perms p = range_from 0 8

-- Two errors in blocks of two positions are found and corrected.
two_errors :
    reconcile oracle perms 2 2 bob_key
    ≡ some (record {
      corrected_key = alice_key;
      corrections = 2;
      bits_leaked = 8;
      passes = 2;
      block_size = 2;
    })
unfolding reconcile slices run_pass open_pass drain first_work parity is_odd flip ask bisect
two_errors = refl

search_ends : bisect 5 oracle bob_key (0 ∷ 1 ∷ 2 ∷ 3 ∷ []) 0 ≡ some (1, 2)
unfolding bisect
search_ends = refl

bisect-Finds_example :
    Finds alice_key bob_key
      (0 ∷ 1 ∷ 2 ∷ 3 ∷ [])
      0
      2
      (bisect 5 oracle bob_key (0 ∷ 1 ∷ 2 ∷ 3 ∷ []) 0)
bisect-Finds_example =
    bisect-Finds alice_key oracle honest bob_key 5 (0 ∷ 1 ∷ 2 ∷ 3 ∷ []) 0 2 (omega arith)
      (unfold parity in refl) (omega arith)

reconcile-IsReconciled_example :
    (res : CascadeResult) × (reconcile oracle perms 2 2 bob_key ≡ some res)
    × IsReconciled alice_key bob_key 2 2 res
reconcile-IsReconciled_example =
    reconcile-IsReconciled alice_key oracle perms 2 2 2 bob_key honest
      (λ p. range_from-IsPermutation 8) (omega arith) (omega arith) refl
