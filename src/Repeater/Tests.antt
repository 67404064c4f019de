-- ===== src/Repeater/Tests.antt =====
-- A chain of three links, one of them in the state Ψ+, and a session with a lost attempt.
use qfabric.Prelude.{ℕ, ◌≡◌, refl, true, false, not, ◌&&◌, none, List, [], ◌∷◌, xor, ◌==◌}
use qfabric.Prelude.Result.{ok}
use qfabric.Amplitudes.Seven.{Seven, n0, n1, n5, n6, seven, seven-IsExact}
use qfabric.QState.Swap.{IsPair}
use qfabric.QuantumService.{QuantumStateService}
use qfabric.Repeater.{Swapping, attempt, Round, Outcome, run_rounds, is_lost, any_below}
use qfabric.Repeater.Links.{bits_of, bits_drawn}
use qfabric.Repeater.Chain.{total_x, total_z, attempt-IsPair}
use qfabric.Repeater.Session.{Follows, run_rounds-Follows}

abbrev samples : ℕ → Seven
samples k = n0

abbrev service : QuantumStateService seven samples
service = record {
  register = record {
    owner = λ j. none;
    group = λ k. record { ids = []; amp = λ bits. n0 };
    fresh = 0;
    next_id = 0;
  };
  drawn = 0;
}

abbrev others : List (Seven × ℕ)
others = (n5, 1) ∷ (n0, 0) ∷ []

attempt-IsPair_example :
    (a : ℕ) × (done : Swapping seven samples) × (attempt seven samples true
        (n0, 0)
        others
        n1
        service
      ≡ ok (a, done))
    × (done.swaps ≡ 2)
    × IsPair seven seven-IsExact done.svc.register a done.end_b
        (xor
          (total_x
            (bits_of seven seven-IsExact samples n1 (n0, 0)).0
            (bits_drawn seven seven-IsExact samples n1 others))
          (not true && done.x))
        (xor
          (total_z
            (bits_of seven seven-IsExact samples n1 (n0, 0)).1
            (bits_drawn seven seven-IsExact samples n1 others))
          (not true && done.z))
    × ((a == done.end_b) ≡ false)
attempt-IsPair_example = attempt-IsPair seven seven-IsExact samples true (n0, 0) others n1 service

-- The losses of the second attempt are below the probability 5.
abbrev good : Round seven samples
good = record {
  losses = n6 ∷ n6 ∷ n6 ∷ [];
  first = (n0, 0);
  draws = others;
  a_code = 0;
  b_code = 0;
}

abbrev bad : Round seven samples
bad = record { losses = n6 ∷ n1 ∷ n6 ∷ []; first = (n0, 0); draws = others; a_code = 2; b_code = 2 }

lost : (is_lost seven samples n5 good ≡ false) × (is_lost seven samples n5 bad ≡ true)
unfolding is_lost any_below
lost = (refl, refl)

run_rounds-Follows_example :
    (svc' : QuantumStateService seven samples) × (swaps : ℕ) × (outcomes : List
      (Outcome seven samples))
    × (run_rounds seven samples n5 true n1 (good ∷ bad ∷ good ∷ []) service
        ≡ ok (svc', swaps, outcomes))
    × Follows seven seven-IsExact samples n5 n1 (good ∷ bad ∷ good ∷ []) swaps outcomes
run_rounds-Follows_example =
    run_rounds-Follows seven seven-IsExact samples (λ k. refl) (λ k. refl) n1 n5
      (good ∷ bad ∷ good ∷ []) service
