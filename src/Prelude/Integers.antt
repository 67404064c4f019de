-- ===== src/Prelude/Integers.antt =====
-- Integers over the native naturals, and the distance of two of them.
use qfabric.Prelude.{
  ℕ, suc, ◌+◌, ◌-◌, ◌/◌, ◌≤◌, ◌<◌, ◌≡◌, ◌⊎◌, Bool-cases, ◌∙◌, inl, inr, arith, leb, if◌then◌else◌,
}

-- `negsuc n` is `-(n + 1)`.
pub data ℤ : Type 0 where
  pos : ℕ → ℤ
  negsuc : ℕ → ℤ

-- `a - b`
unfoldable pub diff : ℕ → ℕ → ℤ
diff a b = if leb b a then pos (a - b) else negsuc (b - suc a)

infixl 20 ◌+ℤ◌
unfoldable pub ◌+ℤ◌ : ℤ → ℤ → ℤ
unfolding diff
◌+ℤ◌ (pos a) (pos b) = pos (a + b)
◌+ℤ◌ (pos a) (negsuc b) = diff a (suc b)
◌+ℤ◌ (negsuc a) (pos b) = diff b (suc a)
◌+ℤ◌ (negsuc a) (negsuc b) = negsuc (suc (a + b))

infixl 25 -ℤ◌
unfoldable pub -ℤ◌ : ℤ → ℤ
unfolding diff
-ℤ◌ (pos a) = diff 0 a
-ℤ◌ (negsuc a) = pos (suc a)

-- Python's `x // 2`, which rounds down
unfoldable pub halved : ℤ → ℤ
halved (pos a) = pos (a / 2)
halved (negsuc a) = negsuc (a / 2)

unfoldable pub abs : ℤ → ℕ
abs (pos a) = a
abs (negsuc a) = suc a

pub diff-same : (a b c d : ℕ) → a + d ≡ c + b → diff a b ≡ diff c d
unfolding diff
diff-same a b c d e = ground (arith, e)

pub pos-diff : (k : ℕ) → pos k ≡ diff k 0
unfolding diff
pos-diff k = ground arith

negsuc-diff : (k : ℕ) → negsuc k ≡ diff 0 (suc k)
unfolding diff
negsuc-diff k = ground arith

diff-cases :
    (a b : ℕ) → ((diff a b ≡ pos (a - b)) × (b ≤ a)) ⊎ ((diff a b ≡ negsuc (b - suc a)) × (a < b))
unfolding diff
diff-cases a b = elim (Bool-cases (leb b a)) [
  | inl e ↦ inl (ground (arith, e), ground (arith, e))
  | inr e ↦ inr (ground (arith, e), ground (arith, e))
]

pub diff-pos : (a b : ℕ) → b ≤ a → diff a b ≡ pos (a - b)
unfolding diff
diff-pos a b h = ground arith

pub add-diff : (a b c d : ℕ) → (diff a b +ℤ diff c d) ≡ diff (a + c) (b + d)
unfolding ◌+ℤ◌
add-diff a b c d = elim (diff-cases a b) [
  | inl (p, h) ↦ elim (diff-cases c d) [
    | inl (q, k) ↦ rw p (rw q (pos-diff _ ∙ diff-same _ _ _ _ (omega arith)))
    | inr (q, k) ↦ rw p (rw q (diff-same _ _ _ _ (omega arith)))
  ]
  | inr (p, h) ↦ elim (diff-cases c d) [
    | inl (q, k) ↦ rw p (rw q (diff-same _ _ _ _ (omega arith)))
    | inr (q, k) ↦ rw p (rw q (negsuc-diff _ ∙ diff-same _ _ _ _ (omega arith)))
  ]
]

pub neg-diff : (a b : ℕ) → (-ℤ diff a b) ≡ diff b a
unfolding -ℤ◌
neg-diff a b = elim (diff-cases a b) [
  | inl (p, h) ↦ rw p (diff-same _ _ _ _ (omega arith))
  | inr (p, h) ↦ rw p (pos-diff _ ∙ diff-same _ _ _ _ (omega arith))
]

-- How far the integer `a - b` is from 0.
pub abs-diff-le : (a b d : ℕ) → a ≤ b + d → b ≤ a + d → abs (diff a b) ≤ d
unfolding abs
abs-diff-le a b d h k = elim (diff-cases a b) [
  | inl (p, i) ↦ rw p (omega arith)
  | inr (p, i) ↦ rw p (omega arith)
]
