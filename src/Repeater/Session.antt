-- ===== src/Repeater/Session.antt =====
-- A session of attempts: what the ends read is what the links' states say.
use qfabric.Prelude.{
  ℕ, suc, ◌+◌, ◌≡◌, ◌⊎◌, refl, sym, ap, ◌∙◌, inl, inr, Bool, true, false, ◌&&◌, ◌||◌, Bool-cases,
  List, [], ◌∷◌, length, xor, arith, ◌==◌, if◌then◌else◌,
}
use qfabric.Prelude.Result.{ok}
use qfabric.Amplitudes.{Amplitudes, IsExact}
use qfabric.QState.Paulis.{xor_zero}
use qfabric.QState.Readout.{measure-ends}
use qfabric.QuantumService.{QuantumStateService, measure}
use qfabric.Repeater.{Round, Outcome, angle_of, is_lost, deliver, run_rounds}
use qfabric.Repeater.Links.{bits_of, bits_drawn}
use qfabric.Repeater.Chain.{total_x, total_z, attempt-IsPair}

module _ (q : Amplitudes) (e : IsExact q) (samp : ℕ → q.F) where
  -- The bit that tells whether the ends' bits differ in the basis of a code.
  abbrev pub error_bit : q.F → Round q samp → Bool
  error_bit fidelity r =
      let first = bits_of q e samp fidelity r.first in
      let others = bits_drawn q e samp fidelity r.draws in
      if r.a_code == 0 then total_x first.0 others else total_z first.1 others

  -- Both ends measured in the same one of the two key bases.
  abbrev pub in_key_basis : Round q samp → Bool
  in_key_basis r = r.a_code == r.b_code && (r.a_code == 0 || r.a_code == 2)

  -- An outcome has the codes of its round, and in one of the key bases its bits differ exactly by the
  -- error of the round's links.
  pub record IsOutcome (fidelity : q.F) (r : Round q samp) (o : Outcome q samp) : Type 0 where
    pub same_a : o.a_code ≡ r.a_code
    pub same_b : o.b_code ≡ r.b_code
    pub differ : o.b_bit ≡ (if in_key_basis r then xor o.a_bit (error_bit fidelity r) else o.b_bit)

  -- The outcomes are those of the rounds without a loss, in order; the number counts their swaps.
  pub data Follows (loss fidelity : q.F)
      : List (Round q samp) → ℕ → List (Outcome q samp) → Type 0 where
    ended : Follows loss fidelity [] 0 []
    skipped :
        {rounds : List (Round q samp)} {n : ℕ} {outcomes : List (Outcome q samp)} (r : Round q samp)
        → is_lost q samp loss r ≡ true
        → Follows loss fidelity rounds n outcomes
        → Follows loss fidelity (r ∷ rounds) n outcomes
    delivered :
        {rounds : List (Round q samp)} {n m : ℕ} {outcomes : List (Outcome q samp)}
        (r : Round q samp) (o : Outcome q samp)
        → is_lost q samp loss r ≡ false
        → IsOutcome fidelity r o
        → m ≡ length r.draws + n
        → Follows loss fidelity rounds n outcomes
        → Follows loss fidelity (r ∷ rounds) m (o ∷ outcomes)

  module _ (below : (k : ℕ) → q.lt (samp k) q.one ≡ true)
      (above : (k : ℕ) → q.lt (samp k) q.zero ≡ false) (fidelity : q.F) where
    differs :
        (r : Round q samp) (m1 m2 : Bool)
        → r.a_code ≡ r.b_code
        → (r.a_code ≡ 0) ⊎ (r.a_code ≡ 2)
        → (angle_of q samp r.a_code ≡ q.z_basis
            → angle_of q samp r.b_code ≡ q.z_basis
            → m2
              ≡ xor m1 (
                  total_x
                    (bits_of q e samp fidelity r.first).0
                    (bits_drawn q e samp fidelity r.draws)))
        → (angle_of q samp r.a_code ≡ q.x_basis
            → angle_of q samp r.b_code ≡ q.x_basis
            → m2
              ≡ xor m1 (
                  total_z
                    (bits_of q e samp fidelity r.first).1
                    (bits_drawn q e samp fidelity r.draws)))
        → m2 ≡ xor m1 (error_bit fidelity r)
    unfolding angle_of
    differs r m1 m2 same (inl z) in_z in_x =
        rw z (in_z (ap (angle_of q samp) z) (ap (angle_of q samp) (sym same ∙ z)))
    differs r m1 m2 same (inr x) in_z in_x =
        rw x (in_x (ap (angle_of q samp) x) (ap (angle_of q samp) (sym same ∙ x)))

    key_code : (r : Round q samp) → in_key_basis r ≡ true → (r.a_code ≡ 0) ⊎ (r.a_code ≡ 2)
    key_code r key = elim (Bool-cases (r.a_code == 0)) [
      | inl z ↦ inl (ground (arith, z))
      | inr x ↦ inr (ground (arith, x, key))
    ]

    deliver-IsOutcome :
        (r : Round q samp) (svc : QuantumStateService q samp)
        → (svc' : QuantumStateService q samp) × (o : Outcome q samp) × (deliver q samp true fidelity
              r svc
            ≡ ok (svc', length r.draws, o))
          × IsOutcome fidelity r o
    unfolding deliver measure
    deliver-IsOutcome r svc =
        let (a, done, run, count, pair, apart) =
          attempt-IsPair q e samp true r.first r.draws fidelity svc in
        let (r1, r2, m1, m2, first, second, in_z, in_x) =
          measure-ends q e done.svc.register a done.end_b (angle_of q samp r.a_code)
            (angle_of q samp r.b_code) (samp done.svc.drawn) (samp (suc done.svc.drawn)) _ _ apart
            (below (suc done.svc.drawn)) (above (suc done.svc.drawn)) pair in
        (
          record { register = r2; drawn = suc (suc done.svc.drawn) },
          record { a_code = r.a_code; b_code = r.b_code; a_bit = m1; b_bit = m2 },
          rw run (rw first (rw second (rw count refl))),
          record {
            same_a = refl;
            same_b = refl;
            differ = elim (Bool-cases (in_key_basis r)) [
              | inl key ↦
                  let same : r.a_code ≡ r.b_code = ground (arith, key) in
                  let code : (r.a_code ≡ 0) ⊎ (r.a_code ≡ 2) = key_code r key in
                  rw key (
                    differs r m1 m2 same code (λ z1 z2. in_z z1 z2 ∙ ap (xor m1) (xor_zero q e _))
                      (λ x1 x2. in_x x1 x2 ∙ ap (xor m1) (xor_zero q e _)))
              | inr other ↦ rw other refl
            ];
          },
        )

    -- With exact arithmetic, the correction, and samples in [0, 1), a session ends whatever is drawn.
    -- Its outcomes are those of the attempts without a lost link, in order, with their codes and one swap
    -- for each link after the first; in a key basis the ends' bits differ exactly if the sum of the
    -- links' errors in that basis is odd.
    pub run_rounds-Follows :
        (loss : q.F) (rounds : List (Round q samp)) (svc : QuantumStateService q samp)
        → (svc' : QuantumStateService q samp) × (swaps : ℕ) × (outcomes : List (Outcome q samp))
          × (run_rounds q samp loss true fidelity rounds svc ≡ ok (svc', swaps, outcomes))
          × Follows loss fidelity rounds swaps outcomes
    unfolding run_rounds
    run_rounds-Follows loss [] svc = (svc, 0, [], refl, ended)
    run_rounds-Follows loss (r ∷ rounds) svc = elim (Bool-cases (is_lost q samp loss r)) [
      | inl lost ↦
          let (svc', swaps, outcomes, run, follows) = run_rounds-Follows loss rounds svc in
          (svc', swaps, outcomes, rw (lost, run_rounds) run, skipped r lost follows)
      | inr alive ↦
          let (svc1, o, once, is_outcome) = deliver-IsOutcome r svc in
          let (svc', swaps, outcomes, run, follows) = run_rounds-Follows loss rounds svc1 in
          (
            svc',
            length r.draws + swaps,
            o ∷ outcomes,
            rw (alive, run_rounds) (rw once (rw run refl)),
            delivered r o alive is_outcome refl follows,
          )
    ]
