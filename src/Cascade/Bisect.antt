-- ===== src/Cascade/Bisect.antt =====
-- `_binary_correct`: the search ends at a wrong bit of the block, and asks for few parities.
use native.Mathlib.Nat.{pow-suc}
use qfabric.Prelude.{
  ℕ, zero, suc, ◌+◌, ◌*◌, ◌/◌, ◌^◌, ◌≤◌, ◌<◌, ◌≡◌, refl, sym, ap, ◌∙◌, inl, inr, Bool, true, false,
  ◌||◌, List, [], ◌∷◌, ◌++◌, Option, some, arith, length, length-take, length-drop,
  take-append-drop, take, drop, get_or, xor, ltb, lt→ltb, Bool-cases, if◌then◌else◌,
}
use qfabric.Prelude.Elem.{elem, elem-append}
use qfabric.Cascade.{Oracle, parity, ask, bisect}
use qfabric.Cascade.Parity.{parity-append, differs}

-- The oracle answers every question with the parities of Alice's key.
pub record IsHonest (alice : List Bool) (oracle : Oracle) : Type 0 where
  pub answers : (blocks : List (List ℕ)) → oracle blocks ≡ qfabric.Prelude.map (parity alice) blocks

pub ask-IsHonest :
    (alice : List Bool) (oracle : Oracle) (b : List ℕ)
    → IsHonest alice oracle
    → ask oracle b ≡ parity alice b
unfolding ask
ask-IsHonest alice oracle b h = rw (h.answers (b ∷ []))

-- Alice and Bob disagree on the parity of the block.
abbrev pub disagree : List Bool → List Bool → List ℕ → Bool
disagree alice key b = xor (parity alice b) (parity key b)

-- A disagreement lies in the lower half, or else in the upper one.
disagree-half :
    (alice key : List Bool) (b : List ℕ) (k : ℕ)
    → disagree alice key b ≡ true
    → disagree alice key (take k b) ≡ false
    → disagree alice key (drop k b) ≡ true
disagree-half alice key b k h g = ground (
  arith,
  ap (parity alice) (take-append-drop k b),
  ap (parity key) (take-append-drop k b),
  parity-append alice (take k b) (drop k b),
  parity-append key (take k b) (drop k b),
)

disagree_singleton :
    (alice key : List Bool) (i : ℕ)
    → disagree alice key (i ∷ []) ≡ true
    → differs alice key i ≡ true
disagree_singleton alice key i h = unfold parity in h

elem-take : (i k : ℕ) (b : List ℕ) → elem i (take k b) ≡ true → elem i b ≡ true
elem-take i k b h =
    ground (arith, ap (elem i) (take-append-drop k b), elem-append i (take k b) (drop k b))

elem-drop : (i k : ℕ) (b : List ℕ) → elem i (drop k b) ≡ true → elem i b ≡ true
elem-drop i k b h =
    ground (arith, ap (elem i) (take-append-drop k b), elem-append i (take k b) (drop k b))

-- What the search returns: a position of the block where the keys differ.
pub record IsFound (alice key : List Bool) (b : List ℕ) (i : ℕ) : Type 0 where
  pub inside : elem i b ≡ true
  pub wrong : differs alice key i ≡ true

IsFound-half :
    (alice key : List Bool) (b half : List ℕ) (i : ℕ)
    → (elem i half ≡ true → elem i b ≡ true)
    → IsFound alice key half i
    → IsFound alice key b i
IsFound-half alice key b half i up f = record { inside = up f.inside; wrong = f.wrong }

bisect_step :
    (fuel : ℕ) (oracle : Oracle) (key : List Bool) (b : List ℕ) (leaked : ℕ)
    → 1 < length b
    → bisect (suc fuel) oracle key b leaked ≡ (
        if xor (ask oracle (take (length b / 2) b)) (parity key (take (length b / 2) b))
        then bisect fuel oracle key (take (length b / 2) b) (leaked + 1)
        else bisect fuel oracle key (drop (length b / 2) b) (leaked + 1))
unfolding bisect
bisect_step fuel oracle key b leaked h = rw (lt→ltb 1 (length b) h)

-- The result is a wrong bit of the block, for at most m parities more.
abbrev pub Finds : List Bool → List Bool → List ℕ → ℕ → ℕ → Option (ℕ × ℕ) → Type 0
Finds alice key b leaked m r =
    (i : ℕ) × (k : ℕ) × (r ≡ some (i, k)) × IsFound alice key b i × (leaked ≤ k) × (k ≤ leaked + m)

Finds-half :
    (alice key : List Bool) (b half : List ℕ) (leaked m : ℕ) (r : Option (ℕ × ℕ))
    → ((i : ℕ) → elem i half ≡ true → elem i b ≡ true)
    → Finds alice key half (leaked + 1) m r
    → Finds alice key b leaked (suc m) r
Finds-half alice key b half leaked m r up (i, k, e, f, lo, hi) =
    (i, k, e, IsFound-half alice key b half i (up i) f, omega arith, omega arith)

module _ (alice : List Bool) (oracle : Oracle) (honest : IsHonest alice oracle)
    (key : List Bool) where
  -- With an honest oracle, fuel above the block's length and a block on which the parities disagree,
  -- the search ends at a wrong bit of the block; if the block has at most 2 ^ m positions it costs at
  -- most m parities.
  pub bisect-Finds :
      (fuel : ℕ) (b : List ℕ) (leaked m : ℕ)
      → length b < fuel
      → disagree alice key b ≡ true
      → length b ≤ 2 ^ m
      → Finds alice key b leaked m (bisect fuel oracle key b leaked)
  bisect-Finds zero b leaked m f h s = elim f [ ]
  bisect-Finds (suc fuel) [] leaked m f h s = absurd (unfold parity in cc)
  bisect-Finds (suc fuel) (j ∷ []) leaked m f h s = (
    j,
    leaked,
    unfold bisect in ground arith,
    record { inside = ground arith; wrong = disagree_singleton alice key j h },
    omega arith,
    omega arith,
  )
  bisect-Finds (suc fuel) (j ∷ j' ∷ b) leaked zero f h s = absurd (omega arith)
  bisect-Finds (suc fuel) (j ∷ j' ∷ b) leaked (suc m) f h s =
      let w : List ℕ = j ∷ j' ∷ b in
      let k = length w / 2 in
      let short : length w ≤ 2 * 2 ^ m = omega (arith, s, pow-suc 2 m) in
      rw
        (
          bisect_step fuel oracle key w leaked (omega arith),
          ask-IsHonest alice oracle (take k w) honest,
        )
        (elim (Bool-cases (disagree alice key (take k w))) [
          | inl e ↦ rw e (
              Finds-half alice key w (take k w) leaked m _ (λ i. elem-take i k w)
                (bisect-Finds fuel (take k w) (leaked + 1) m (omega (arith, length-take k w)) e
                  (omega (arith, length-take k w))))
          | inr e ↦ rw e (
              Finds-half alice key w (drop k w) leaked m _ (λ i. elem-drop i k w)
                (bisect-Finds fuel (drop k w) (leaked + 1) m (omega (arith, length-drop k w))
                  (disagree-half alice key w k h e) (omega (arith, length-drop k w))))
        ])
