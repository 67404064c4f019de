-- ===== src/QState/Swap.antt =====
-- Entanglement swapping: a Bell-state measurement of one qubit of each of two pairs leaves the other
-- two in the Bell state that the outcome heralds.
use qfabric.Prelude.{
  ℕ, ◌≡◌, ◌≢◌, refl, sym, ap, ◌∙◌, Bool, true, false, not, ◌&&◌, some, List, [], ◌∷◌, xor, arith,
  ◌==◌,
}
use qfabric.Prelude.Elem.{elem, Distinct}
use qfabric.Prelude.Result.{ok}
use qfabric.Amplitudes.{Amplitudes, IsExact}
use qfabric.Tensors.{Tensor, apply_1q, apply_2q, kron, hadamard, cnot}
use qfabric.QState.{Group, QStateRegister, set_amp, index, measure, analyzed, merge, bell_measure}
use qfabric.QState.Groups.{Has, Leaves, turned, left, measure-Has, Leaves-trans, merge-Has}
use qfabric.QState.Entries.{
  signed, pick, mul-pick, mul-signed, hadamard-entry, cnot_lem, rotated, Entries4, Entries2,
  collapse4, collapse3,
}

module _ (q : Amplitudes) (e : IsExact q) where
  open q use {F, add, mul, neg, inv_sqrt2}

  -- A pair in the Bell state of the bits `x` and `z`, up to a sign.
  abbrev pub Pair : Tensor q → Bool → Bool → Bool → Type 0
  Pair amp x z s = Entries2 q e amp (λ p. xor p x) (λ p d. xor s (z && p))

  superposed :
      (u b t : Bool) (v : Bool → F)
      → add
          (mul
            (signed q e (b && false) inv_sqrt2)
            (mul (pick q e (not (xor u false)) (signed q e t inv_sqrt2)) (v false)))
          (mul
            (signed q e (b && true) inv_sqrt2)
            (mul (pick q e (not (xor u true)) (signed q e t inv_sqrt2)) (v true)))
        ≡ mul (signed q e (b && u) inv_sqrt2) (mul (signed q e t inv_sqrt2) (v u))
  superposed true b t v = simp (e.zero-mul, e.mul-zero, e.zero-add)
  superposed false b t v = simp (e.zero-mul, e.mul-zero, e.add-zero)

  -- The sign of an entry after CNOT and H.
  abbrev sign : Bool → Bool → Bool → Bool → Bool → Bool → Bool → Bool → Bool
  sign x1 z1 s1 z2 s2 a b c =
      xor (b && xor a x1) (xor (xor s1 (z1 && a)) (xor s2 (z2 && xor c (xor a x1))))

  analyzed-Entries4 :
      (amp1 amp2 : Tensor q) (x1 z1 s1 x2 z2 s2 : Bool)
      → Pair amp1 x1 z1 s1
      → Pair amp2 x2 z2 s2
      → Entries4 q e
          (apply_1q q (apply_2q q (kron q 2 amp1 amp2) (cnot q) 1 2) (hadamard q) 1)
          (λ a c. xor (xor c (xor a x1)) x2)
          (λ a b c d. sign x1 z1 s1 z2 s2 a b c)
  unfolding apply_1q kron
  analyzed-Entries4 amp1 amp2 x1 z1 s1 x2 z2 s2 h1 h2 a b c d =
      simp (apply_1q, cnot_lem q e, kron, h1, hadamard-entry q e)
        (superposed (xor a x1) b (xor s1 (z1 && a)) (λ u. amp2 (xor c u ∷ d ∷ []))
          ∙ simp (h2, mul-pick q e, mul-signed q e))

  parity_lem : (x1 x2 m2 a : Bool) → xor (xor m2 (xor a x1)) x2 ≡ xor a (xor (xor x1 x2) m2)
  parity_lem x1 x2 m2 a = ground arith

  -- The sign after both outcomes, as that of a pair.
  sign_lem :
      (x1 z1 s1 x2 z2 s2 m1 m2 a : Bool)
      → sign x1 z1 s1 z2 s2 a m1 m2
        ≡ xor (xor (xor s1 s2) (xor (m1 && x1) (z2 && xor m2 x1))) (xor (xor z1 z2) m1 && a)
  sign_lem x1 z1 s1 x2 z2 s2 m1 m2 a = ground arith

  -- The Bell-state measurement, with the state that it has before its two readings.
  bell_measure_lem :
      (r r1 r2 : QStateRegister q) (b c ref1 ref2 ref : ℕ) (samp1 samp2 : F) (m1 m2 : Bool)
      (next : Tensor q)
      → (b == c) ≡ false
      → r.owner b ≡ some ref1
      → r.owner c ≡ some ref2
      → (merge q ref1 ref2 r).owner b ≡ some ref
      → analyzed q ((merge q ref1 ref2 r).group ref) b c ≡ next
      → measure q b q.z_basis samp1 (set_amp q ref next (merge q ref1 ref2 r)) ≡ ok (r1, m1)
      → measure q c q.z_basis samp2 r1 ≡ ok (r2, m2)
      → bell_measure q b c samp1 samp2 r ≡ ok (r2, m1, m2)
  unfolding bell_measure
  bell_measure_lem r r1 r2 b c ref1 ref2 ref samp1 samp2 m1 m2 next t o1 o2 o n e1 e2 =
      rw t (rw o1 (rw o2 (rw o (rw n (rw e1 (rw e2 refl))))))

  -- The two readings of four qubits in an analysed state leave the outer two in a Bell state.
  read_twice :
      (amp : Tensor q) (x1 z1 s1 x2 z2 s2 m1 m2 : Bool)
      → Entries4 q e amp (λ a c. xor (xor c (xor a x1)) x2) (λ a b c d. sign x1 z1 s1 z2 s2 a b c)
      → Pair
          (left q q.z_basis (left q q.z_basis amp 1 4 m1) 1 3 m2)
          (xor (xor x1 x2) m2)
          (xor (xor z1 z2) m1)
          (xor (xor s1 s2) (xor (m1 && x1) (z2 && xor m2 x1)))
  read_twice amp x1 z1 s1 x2 z2 s2 m1 m2 h a d =
      let sign4 = λ (a b c d : Bool). sign x1 z1 s1 z2 s2 a b c in
      let first =
        collapse4 q e (turned q q.z_basis amp 1) (λ a c. xor (xor c (xor a x1)) x2) sign4 m1
          (λ a b c d. rotated q e amp 1 (a ∷ b ∷ c ∷ d ∷ []) refl ∙ h a b c d) in
      let second =
        collapse3 q e (turned q q.z_basis (left q q.z_basis amp 1 4 m1) 1)
          (λ a c. xor (xor c (xor a x1)) x2) (λ a c d. sign4 a m1 c d) m2
          (λ a c d.
            rotated q e (left q q.z_basis amp 1 4 m1) 1 (a ∷ c ∷ d ∷ []) refl ∙ first a c d) in
      second a d ∙ simp (parity_lem, sign_lem)

  analyzed_lem :
      (g : Group q) (a b c d : ℕ) (amp : Tensor q)
      → Distinct (a ∷ b ∷ c ∷ d ∷ [])
      → g ≡ record { ids = a ∷ b ∷ c ∷ d ∷ []; amp = amp }
      → analyzed q g b c ≡ apply_1q q (apply_2q q amp (cnot q) 1 2) (hadamard q) 1
  unfolding analyzed
  analyzed_lem g a b c d amp apart e =
      let i : index b (a ∷ b ∷ c ∷ d ∷ []) ≡ 1 = ground (arith, apart) in
      let j : index c (a ∷ b ∷ c ∷ d ∷ []) ≡ 2 = ground (arith, apart) in rw e (rw i (rw j refl))

  -- Two qubits are a group of their own, in the Bell state of the bits `x` and `z` up to a sign.
  pub record IsPair (r : QStateRegister q) (a b : ℕ) (x z : Bool) : Type 0 where
    pub amp : Tensor q
    pub ref : ℕ
    pub sign_bit : Bool
    pub has : Has q r (a ∷ b ∷ []) amp ref
    pub entries : Pair amp x z sign_bit

  -- Pairs with different qubits are different objects.
  apart_refs :
      (r : QStateRegister q) (a b c d : ℕ) (x1 z1 x2 z2 : Bool)
      → (a == c) ≡ false
      → (h1 : IsPair r a b x1 z1) → (h2 : IsPair r c d x2 z2) → h1.ref ≢ h2.ref
  apart_refs r a b c d x1 z1 x2 z2 apart h1 h2 e =
      let same : ◌≡◌ {A = List ℕ} (a ∷ b ∷ []) (c ∷ d ∷ []) =
        ap (λ g. g.ids) (sym h1.has.is_group ∙ ap r.group e ∙ h2.has.is_group) in
      ground (arith, apart, same)

  pub Leaves-IsPair :
      (ids : List ℕ) (r r' : QStateRegister q) (a b : ℕ) (x z : Bool)
      → Leaves q ids r r'
      → elem a ids ≡ false
      → elem b ids ≡ false
      → IsPair r a b x z
      → IsPair r' a b x z
  Leaves-IsPair ids r r' a b x z leaves out_a out_b h = record {
    amp = h.amp;
    ref = h.ref;
    sign_bit = h.sign_bit;
    has = record {
      owned = λ j here.
          let out : elem j ids ≡ false = ground (arith, here, out_a, out_b) in
          leaves.others j out ∙ h.has.owned j here;
      is_group = leaves.objects h.ref h.has.older ∙ h.has.is_group;
      older = omega (arith, h.has.older, leaves.newer);
    };
    entries = h.entries;
  }

  -- With exact arithmetic a Bell-state measurement of one qubit of each of two pairs, whatever the
  -- samples, returns two bits and leaves the other two qubits in a Bell state whose bits are the
  -- sums of those of the pairs and of the outcome; no other qubit is touched.
  pub bell_measure-IsPair :
      (r : QStateRegister q) (a b c d : ℕ) (samp1 samp2 : F) (x1 z1 x2 z2 : Bool)
      → Distinct (a ∷ b ∷ c ∷ d ∷ [])
      → IsPair r a b x1 z1
      → IsPair r c d x2 z2
      → (r' : QStateRegister q) × (m1 : Bool) × (m2 : Bool) × (bell_measure q b c samp1 samp2 r
          ≡ ok (r', m1, m2))
        × IsPair r' a d (xor (xor x1 x2) m2) (xor (xor z1 z2) m1)
        × Leaves q (a ∷ b ∷ c ∷ d ∷ []) r r'
  bell_measure-IsPair r a b c d samp1 samp2 x1 z1 x2 z2 apart h1 h2 =
      let other = apart_refs r a b c d x1 z1 x2 z2 (ground (arith, apart)) h1 h2 in
      let state : Tensor q =
        apply_1q q (apply_2q q (kron q 2 h1.amp h2.amp) (cnot q) 1 2) (hadamard q) 1 in
      let merged = merge q h1.ref h2.ref r in
      let mid = set_amp q r.fresh state merged in
      let (has, leaves, joined, owned) =
        merge-Has q r (a ∷ b ∷ []) (c ∷ d ∷ []) h1.amp h2.amp state h1.ref h2.ref h1.has h2.has
          other in
      let (r1, m1, e1, has1, leaves1) =
        measure-Has q q.z_basis mid (a ∷ b ∷ c ∷ d ∷ []) (c ∷ d ∷ []) state r.fresh b a 1 4 samp1
          has (ground (arith, apart)) (ground (arith, apart)) (ground (arith, apart)) refl in
      let (r2, m2, e2, has2, leaves2) =
        measure-Has q q.z_basis r1 (a ∷ c ∷ d ∷ []) (d ∷ []) (left q q.z_basis state 1 4 m1)
          mid.fresh c a 1 3 samp2 has1 (ground (arith, apart)) (ground (arith, apart))
          (ground (arith, apart)) refl in
      let start =
        analyzed-Entries4 h1.amp h2.amp x1 z1 h1.sign_bit x2 z2 h2.sign_bit h1.entries h2.entries in
      (
        r2,
        m1,
        m2,
        bell_measure_lem r r1 r2 b c h1.ref h2.ref r.fresh samp1 samp2 m1 m2 state
            (ground (arith, apart)) (h1.has.owned b (ground arith)) (h2.has.owned c (ground arith))
            (owned b (ground arith)) (analyzed_lem (merged.group r.fresh) a b c d _ apart joined) e1
            e2,
        record {
          amp = left q q.z_basis (left q q.z_basis state 1 4 m1) 1 3 m2;
          ref = r1.fresh;
          sign_bit = xor (xor h1.sign_bit h2.sign_bit) (xor (m1 && x1) (z2 && xor m2 x1));
          has = has2;
          entries = read_twice state x1 z1 h1.sign_bit x2 z2 h2.sign_bit m1 m2 start;
        },
        Leaves-trans q (a ∷ b ∷ c ∷ d ∷ []) (a ∷ b ∷ c ∷ d ∷ []) r mid r2 (λ j out. out) leaves
            (Leaves-trans q (a ∷ b ∷ c ∷ d ∷ []) (a ∷ c ∷ d ∷ []) mid r1 r2
              (λ j out. ground (arith, out)) leaves1 leaves2),
      )
