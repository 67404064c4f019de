-- ===== src/Repeater/Chain.antt =====
-- The chain: after all swaps the two end qubits are a pair, and the heralded correction at the end of
-- the chain undoes what the outcomes of all swaps have done to it.
use qfabric.Prelude.{
  ℕ, suc, ◌+◌, ◌≡◌, refl, sym, subst, inl, inr, Bool, true, false, not, ◌&&◌, ◌||◌, Bool-cases,
  List, [], ◌∷◌, length, xor, arith, ◌==◌,
}
use qfabric.Prelude.Elem.{Distinct}
use qfabric.Prelude.Result.{ok}
use qfabric.Amplitudes.{Amplitudes, IsExact}
use qfabric.QState.{create_bell_pair}
use qfabric.QState.Swap.{IsPair, Leaves-IsPair, bell_measure-IsPair}
use qfabric.QState.Paulis.{apply_pauli-IsPair, create_bell_pair-IsPair, xor_zero}
use qfabric.QuantumService.{QuantumStateService, bell_measure, apply_correction}
use qfabric.Repeater.{Swapping, swap_all, corrected, attempt}
use qfabric.Repeater.Links.{
  ids_of, Links, bits_of, bits_drawn, Leaves-Links, links_below, links-Distinct, links-Leaves,
  created-Links, created, length-links,
}

-- The sums of the bits of all links.
abbrev pub total_x : Bool → List (Bool × Bool) → Bool
total_x x [] = x
total_x x ((x', z') ∷ bits) = total_x (xor x x') bits

abbrev pub total_z : Bool → List (Bool × Bool) → Bool
total_z z [] = z
total_z z ((x', z') ∷ bits) = total_z (xor z z') bits

regroup : (x s x' m : Bool) → xor (xor (xor x s) x') m ≡ xor (xor x x') (xor s m)
regroup x s x' m = ground arith

undone : (t s : Bool) → xor (xor t s) s ≡ xor t false
undone t s = ground arith

module _ (q : Amplitudes) (e : IsExact q) (samp : ℕ → q.F) where
  -- The chain so far is a pair, whose bits are those of its links and of the heralds.
  abbrev Joined : ℕ → Bool → Bool → Swapping q samp → Type 0
  Joined a x z s = IsPair q e s.svc.register a s.end_b (xor x s.x) (xor z s.z)

  swap_all-Joined :
      (pairs : List (ℕ × ℕ)) (bits : List (Bool × Bool)) (a : ℕ) (x z : Bool) (s : Swapping q samp)
      → Distinct (a ∷ s.end_b ∷ ids_of pairs)
      → Joined a x z s
      → Links q e samp s.svc.register pairs bits
      → (s' : Swapping q samp) × (swap_all q samp pairs s ≡ ok s')
        × Joined a (total_x x bits) (total_z z bits) s'
        × ((a == s'.end_b) ≡ false)
        × (s'.swaps ≡ s.swaps + length pairs)
  unfolding swap_all bell_measure
  swap_all-Joined [] [] a x z s apart h links = (s, refl, h, ground (arith, apart), omega arith)
  swap_all-Joined [] (b ∷ bits) a x z s apart h links = elim links [ ]
  swap_all-Joined (p ∷ pairs) [] a x z s apart h links = elim links [ ]
  swap_all-Joined ((c, d) ∷ pairs) ((x', z') ∷ bits) a x z s apart h (link, links) =
      let (r', m1, m2, run, joined, leaves) =
        bell_measure-IsPair q e s.svc.register a s.end_b c d (samp s.svc.drawn)
          (samp (suc s.svc.drawn)) (xor x s.x) (xor z s.z) x' z' (ground (arith, apart)) h link in
      let s1 : Swapping q samp = record {
        svc = record { register = r'; drawn = suc (suc s.svc.drawn) };
        end_b = d;
        x = xor s.x m2;
        z = xor s.z m1;
        swaps = suc s.swaps;
      } in
      let once : bell_measure q samp s.end_b c s.svc ≡ ok (s1.svc, m1, m2) = rw run refl in
      let (s', all, whole, ends, count) =
        swap_all-Joined pairs bits a (xor x x') (xor z z') s1 (ground (arith, apart))
          (subst (λ t. IsPair q e r' a d t (xor (xor z z') s1.z)) (regroup x s.x x' m2)
            (subst (λ t. IsPair q e r' a d (xor (xor (xor x s.x) x') m2) t) (regroup z s.z z' m1)
              joined))
          (Leaves-Links q e samp (a ∷ s.end_b ∷ c ∷ d ∷ []) s.svc.register r' pairs bits leaves
            (λ j here. ground (arith, apart, here)) links) in
      (s', rw once all, whole, ends, omega (arith, count))

  -- The Pauli correction at the end takes the heralds away.
  corrected-Joined :
      (apply : Bool) (a : ℕ) (x z : Bool) (s : Swapping q samp)
      → (a == s.end_b) ≡ false
      → Joined a x z s
      → (s' : Swapping q samp) × (corrected q samp apply s ≡ ok s')
        × IsPair q e s'.svc.register a s'.end_b
            (xor x (not apply && s'.x))
            (xor z (not apply && s'.z))
        × (s'.swaps ≡ s.swaps)
        × (s'.end_b ≡ s.end_b)
  unfolding corrected apply_correction
  corrected-Joined false a x z s apart h = (s, refl, h, refl, refl)
  corrected-Joined true a x z s apart h = elim (Bool-cases (s.x || s.z)) [
    | inl some_herald ↦
        let (r', run, k) =
          apply_pauli-IsPair q e s.svc.register a s.end_b (xor x s.x) (xor z s.z) s.x s.z apart h in
        (
          record s { svc = record s.svc { register = r' } },
          rw some_herald (rw run refl),
          subst (λ t. IsPair q e r' a s.end_b t (xor z false)) (undone x s.x)
              (subst (λ t. IsPair q e r' a s.end_b (xor (xor x s.x) s.x) t) (undone z s.z) k),
          refl,
          refl,
        )
    | inr no_herald ↦
        let no_x : s.x ≡ false = ground (arith, no_herald) in
        let no_z : s.z ≡ false = ground (arith, no_herald) in
        (
          s,
          rw no_herald refl,
          subst (λ t. IsPair q e s.svc.register a s.end_b (xor x t) (xor z false)) no_x
              (subst (λ t. IsPair q e s.svc.register a s.end_b (xor x s.x) (xor z t)) no_z h),
          refl,
          refl,
        )
  ]

  -- With exact arithmetic an attempt of any length ends, whatever is drawn, with one swap for each link
  -- after the first, and its two end qubits are a pair in the Bell state whose bits are the sums of
  -- those of the links; without the correction the sums of the heralds are added.
  pub attempt-IsPair :
      (apply : Bool) (first : q.F × ℕ) (draws : List (q.F × ℕ)) (fidelity : q.F)
      (svc : QuantumStateService q samp)
      → (a : ℕ) × (done : Swapping q samp) × (attempt q samp apply first draws fidelity svc
          ≡ ok (a, done))
        × (done.swaps ≡ length draws)
        × IsPair q e done.svc.register a done.end_b
            (xor
              (total_x (bits_of q e samp fidelity first).0 (bits_drawn q e samp fidelity draws))
              (not apply && done.x))
            (xor
              (total_z (bits_of q e samp fidelity first).1 (bits_drawn q e samp fidelity draws))
              (not apply && done.z))
        × ((a == done.end_b) ≡ false)
  unfolding attempt create_bell_pair
  attempt-IsPair apply (draw, other) draws fidelity svc =
      let r1 = (create_bell_pair q fidelity draw other svc.register).0 in
      let n = svc.register.next_id in
      let bits = bits_of q e samp fidelity (draw, other) in
      let start : Swapping q samp = record {
        svc = record svc { register = (created q e samp fidelity draws r1).0 };
        end_b = n + 1;
        x = false;
        z = false;
        swaps = 0;
      } in
      let pair : IsPair q e start.svc.register n (n + 1) bits.0 bits.1 =
        Leaves-IsPair q e _ r1 start.svc.register n (n + 1) bits.0 bits.1
          (links-Leaves q e samp fidelity draws r1)
          (links_below q e samp fidelity draws r1 n (omega arith))
          (links_below q e samp fidelity draws r1 (n + 1) (omega arith))
          (create_bell_pair-IsPair q e fidelity draw other svc.register) in
      let (s, run, joined, ends, count) =
        swap_all-Joined (created q e samp fidelity draws r1).1 (bits_drawn q e samp fidelity draws)
          n bits.0 bits.1 start
          (
            ground (arith, links_below q e samp fidelity draws r1 n (omega arith)),
            (
              links_below q e samp fidelity draws r1 (n + 1) (omega arith),
              links-Distinct q e samp fidelity draws r1,
            ),
          )
          (subst (λ t. IsPair q e start.svc.register n (n + 1) t (xor bits.1 false))
            (sym (xor_zero q e bits.0))
            (subst (λ t. IsPair q e start.svc.register n (n + 1) bits.0 t)
              (sym (xor_zero q e bits.1)) pair))
          (created-Links q e samp fidelity draws r1) in
      let (done, fixed, whole, same, same_end) = corrected-Joined apply n _ _ s ends joined in
      (
        n,
        done,
        rw run (rw fixed refl),
        omega (arith, same, count, length-links q e samp fidelity draws r1),
        whole,
        rw same_end ends,
      )
