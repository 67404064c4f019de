-- ===== src/Repeater/Links.antt =====
-- The links of an attempt: fresh qubits, in pairs, each in the Bell state that was drawn for it.
use qfabric.Prelude.{
  ℕ, suc, ◌+◌, ◌<◌, ◌≡◌, refl, ap, Bool, true, false, length, List, [], ◌∷◌, arith,
}
use qfabric.Prelude.Elem.{elem, Distinct}
use qfabric.Amplitudes.{Amplitudes, IsExact}
use qfabric.QState.{QStateRegister, drawn_state, create_bell_pair}
use qfabric.QState.Groups.{Leaves, Leaves-trans, Leaves-more}
use qfabric.QState.Entries.{x_of, z_of}
use qfabric.QState.Swap.{IsPair, Leaves-IsPair}
use qfabric.QState.Paulis.{create_bell_pair-IsPair, create_bell_pair-Leaves}
use qfabric.Repeater.{create_links}

abbrev pub ids_of : List (ℕ × ℕ) → List ℕ
ids_of [] = []
ids_of ((a, b) ∷ pairs) = a ∷ b ∷ ids_of pairs

module _ (q : Amplitudes) (e : IsExact q) (samp : ℕ → q.F) where
  open q use {F}

  -- Each pair in the Bell state of its bits.
  abbrev pub Links : QStateRegister q → List (ℕ × ℕ) → List (Bool × Bool) → Type 0
  Links r [] [] = Unit
  Links r ((a, b) ∷ pairs) ((x, z) ∷ bits) = IsPair q e r a b x z × Links r pairs bits
  Links r _ _ = ⊥

  abbrev pub bits_of : F → F × ℕ → Bool × Bool
  bits_of fidelity (draw, other) =
      (x_of (drawn_state q fidelity draw other), z_of (drawn_state q fidelity draw other))

  abbrev pub bits_drawn : F → List (F × ℕ) → List (Bool × Bool)
  bits_drawn fidelity [] = []
  bits_drawn fidelity (d ∷ draws) = bits_of fidelity d ∷ bits_drawn fidelity draws

  pub Leaves-Links :
      (ids : List ℕ) (r r' : QStateRegister q) (pairs : List (ℕ × ℕ)) (bits : List (Bool × Bool))
      → Leaves q ids r r'
      → ((j : ℕ) → elem j (ids_of pairs) ≡ true → elem j ids ≡ false)
      → Links r pairs bits
      → Links r' pairs bits
  Leaves-Links ids r r' [] [] leaves apart h = tt
  Leaves-Links ids r r' [] (b ∷ bits) leaves apart h = elim h [ ]
  Leaves-Links ids r r' (p ∷ pairs) [] leaves apart h = elim h [ ]
  Leaves-Links ids r r' ((a, b) ∷ pairs) ((x, z) ∷ bits) leaves apart (h, rest) = (
    Leaves-IsPair q e ids r r' a b x z leaves (apart a (ground arith)) (apart b (ground arith)) h,
    Leaves-Links ids r r' pairs bits leaves (λ j here. apart j (ground (arith, here))) rest,
  )

  module _ (fidelity : F) where
    abbrev pub created : List (F × ℕ) → QStateRegister q → QStateRegister q × List (ℕ × ℕ)
    created draws r = create_links q samp fidelity draws r

    pub links_below :
        (draws : List (F × ℕ)) (r : QStateRegister q) (j : ℕ)
        → j < r.next_id
        → elem j (ids_of (created draws r).1) ≡ false
    unfolding create_links create_bell_pair
    links_below [] r j lt = refl
    links_below ((draw, other) ∷ draws) r j lt =
        ground
          (arith, links_below draws (create_bell_pair q fidelity draw other r).0 j (omega arith))

    pub links-Distinct :
        (draws : List (F × ℕ)) (r : QStateRegister q) → Distinct (ids_of (created draws r).1)
    unfolding create_links create_bell_pair
    links-Distinct [] r = tt
    links-Distinct ((draw, other) ∷ draws) r =
        let r' = (create_bell_pair q fidelity draw other r).0 in
        (
          ground (arith, links_below draws r' r.next_id (omega arith)),
          (links_below draws r' (r.next_id + 1) (omega arith), links-Distinct draws r'),
        )

    pub links-Leaves :
        (draws : List (F × ℕ)) (r : QStateRegister q)
        → Leaves q (ids_of (created draws r).1) r (created draws r).0
    unfolding create_links create_bell_pair
    links-Leaves [] r = record {
      others = λ j out. refl;
      objects = λ k lt. refl;
      newer = omega arith;
    }
    links-Leaves ((draw, other) ∷ draws) r =
        let r' = (create_bell_pair q fidelity draw other r).0 in
        let ids = r.next_id ∷ (r.next_id + 1) ∷ ids_of (created draws r').1 in
        Leaves-trans q ids (ids_of (created draws r').1) r r' (created draws r').0
          (λ j out. ground (arith, out))
          (Leaves-more q ids (r.next_id ∷ (r.next_id + 1) ∷ []) r r' (λ j out. ground (arith, out))
            (create_bell_pair-Leaves q e fidelity draw other r))
          (links-Leaves draws r')

    pub created-Links :
        (draws : List (F × ℕ)) (r : QStateRegister q)
        → Links (created draws r).0 (created draws r).1 (bits_drawn fidelity draws)
    unfolding create_links create_bell_pair
    created-Links [] r = tt
    created-Links ((draw, other) ∷ draws) r =
        let r' = (create_bell_pair q fidelity draw other r).0 in
        (
          Leaves-IsPair q e (ids_of (created draws r').1) r' (created draws r').0 r.next_id
              (r.next_id + 1) _ _ (links-Leaves draws r')
              (links_below draws r' r.next_id (omega arith))
              (links_below draws r' (r.next_id + 1) (omega arith))
              (create_bell_pair-IsPair q e fidelity draw other r),
          created-Links draws r',
        )

    pub length-links :
        (draws : List (F × ℕ)) (r : QStateRegister q) → length (created draws r).1 ≡ length draws
    unfolding create_links
    length-links [] r = refl
    length-links ((draw, other) ∷ draws) r =
        ap suc (length-links draws (create_bell_pair q fidelity draw other r).0)
