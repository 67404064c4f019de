-- ===== src/Cascade/Parity.antt =====
-- Parities of blocks, and the positions where two keys differ.
use mathlib.Core.List.{foldl}
use qfabric.Prelude.{
  ℕ, zero, suc, ◌+◌, ◌≤◌, ◌≡◌, refl, Bool, true, false, not, ◌&&◌, List, [], ◌∷◌, ◌++◌, map, arith,
  length, length-set, get_or, get_or-set, ltb, ◌==◌, if◌then◌else◌, xor,
}
use qfabric.Prelude.Elem.{elem}
use qfabric.Cascade.{parity, flip}

pub xor_assoc : (a b c : Bool) → xor (xor a b) c ≡ xor a (xor b c)
xor_assoc a b c = ground arith

foldl-xor : (acc : Bool) (bits : List Bool) → foldl xor acc bits ≡ xor acc (foldl xor false bits)
foldl-xor acc [] = ground arith
foldl-xor acc (b ∷ bits) = ground (arith, foldl-xor (xor acc b) bits, foldl-xor b bits)

pub parity-cons :
    (key : List Bool) (i : ℕ) (block : List ℕ)
    → parity key (i ∷ block) ≡ xor (get_or key i false) (parity key block)
unfolding parity
parity-cons key i block = foldl-xor (get_or key i false) (map (λ k. get_or key k false) block)

pub parity-append :
    (key : List Bool) (xs ys : List ℕ) → parity key (xs ++ ys) ≡ xor (parity key xs) (parity key ys)
parity-append key [] ys = unfold parity in refl
parity-append key (i ∷ xs) ys =
    ground (arith, parity-cons key i xs, parity-cons key i (xs ++ ys), parity-append key xs ys)

pub length-flip : (key : List Bool) (i : ℕ) → length (flip key i) ≡ length key
unfolding flip
length-flip key i = length-set key i _

get_or-flip :
    (key : List Bool) (i j : ℕ)
    → get_or (flip key i) j false
      ≡ (if i == j && ltb i (length key) then not (get_or key i false) else get_or key j false)
unfolding flip
get_or-flip key i j = get_or-set key i j _ false

-- A block without position i keeps its parity when bit i is flipped.
pub parity-flip :
    (key : List Bool) (i : ℕ) (block : List ℕ)
    → elem i block ≡ false
    → parity (flip key i) block ≡ parity key block
parity-flip key i [] h = unfold parity in refl
parity-flip key i (j ∷ block) h = ground (
  arith,
  parity-cons (flip key i) j block,
  parity-cons key j block,
  get_or-flip key i j,
  parity-flip key i block,
)

-- The keys differ at position i.
abbrev pub differs : List Bool → List Bool → ℕ → Bool
differs a b i = xor (get_or a i false) (get_or b i false)

-- The number of positions at which the keys differ.
unfoldable pub errors : List Bool → List Bool → ℕ
errors [] ys = 0
errors (x ∷ xs) [] = 0
errors (x ∷ xs) (y ∷ ys) = (if xor x y then 1 else 0) + errors xs ys

pub errors-le-length : (a b : List Bool) → errors a b ≤ length b
unfolding errors
errors-le-length [] ys = omega arith
errors-le-length (x ∷ xs) [] = omega arith
errors-le-length (x ∷ xs) (y ∷ ys) = ground (arith, errors-le-length xs ys)

-- Flipping a wrong bit removes one error.
pub errors-flip :
    (a b : List Bool) (i : ℕ)
    → length a ≡ length b
    → differs a b i ≡ true
    → errors a (flip b i) + 1 ≡ errors a b
unfolding errors flip
errors-flip [] [] i n h = absurd (cc)
errors-flip [] (y ∷ ys) i n h = absurd (omega arith)
errors-flip (x ∷ xs) [] i n h = absurd (omega arith)
errors-flip (x ∷ xs) (y ∷ ys) zero n h = ground arith
errors-flip (x ∷ xs) (y ∷ ys) (suc i) n h = ground (arith, errors-flip xs ys i (omega arith) h)
