-- ===== src/Cascade/FirstWork.antt =====
-- The state between two passes, the sizes of a pass, and the blocks that it starts with.
use mathlib.Core.List.{flatten}
use qfabric.Prelude.{
  ◌⊎◌, ℕ, zero, suc, ◌+◌, ◌*◌, ◌%◌, ◌^◌, ◌≤◌, ◌<◌, ◌≡◌, sym, ◌∙◌, inl, inr, Bool, true, false, List,
  [], arith, length, get_or, ◌==◌, Bool-cases,
}
use qfabric.Cascade.{Run, is_odd, range_from, first_work, pass_block_size}
use qfabric.Cascade.Parity.{errors}
use qfabric.Cascade.Corrected.{IsLaid, Settled, holds}

pub mul-le : (a b c : ℕ) → a ≤ b → a * c ≤ b * c
mul-le a b c h = grind arith

two_sizes : (x : ℕ) → x < 2 → (2 ^ x ≡ 1) ⊎ (2 ^ x ≡ 2)
two_sizes zero h = inl (omega arith)
two_sizes (suc zero) h = inr (omega arith)
two_sizes (suc (suc x)) h = absurd (omega arith)

pub pass_block_size_bounds :
    (n k1 p : ℕ) → 1 ≤ k1 → (1 ≤ pass_block_size n k1 p) × (pass_block_size n k1 p ≤ 2 * k1)
unfolding pass_block_size
pass_block_size_bounds n k1 p h = elim (two_sizes (p % 2) (omega arith)) [
  | inl e ↦ rw e (omega arith)
  | inr e ↦ rw e (omega arith)
]

-- Before pass p of a run that began with `key`.
pub record IsReady (alice : List Bool) (m : ℕ) (key : List Bool) (p : ℕ) (r : Run) : Type 0 where
  pub laid : IsLaid alice m p r
  pub blocks_size : length r.pass_blocks ≡ p
  pub index_size : length r.pos_block ≡ p
  pub parity_size : length r.alice_pp ≡ p
  pub even : (q bid : ℕ) → is_odd r q bid ≡ false
  pub covered : 0 < p → flatten (get_or r.pass_blocks 0 []) ≡ range_from 0 (length r.key)
  pub key_length : length r.key ≡ length key
  pub counted : errors alice r.key + r.corrections ≡ errors alice key
  pub leak : r.leaked ≤ p * length key + r.corrections * m

pub first_work-holds :
    (r : Run) (p bid from count : ℕ)
    → from ≤ bid
    → bid < from + count
    → is_odd r p bid ≡ true
    → holds p bid (first_work r p from count) ≡ true
unfolding first_work
first_work-holds r p bid from zero lo hi h = absurd (omega arith)
first_work-holds r p bid from (suc count) lo hi h = elim (Bool-cases (from == bid)) [
  | inl e ↦ rw (same e, h) (ground arith)
  | inr e ↦ ground (arith, first_work-holds r p bid (suc from) count (ground arith) (omega arith) h)
]
  where
    same : (from == bid) ≡ true → from ≡ bid
    same e = ground arith

pub length-first_work : (r : Run) (p from count : ℕ) → length (first_work r p from count) ≤ count
unfolding first_work
length-first_work r p from zero = omega arith
length-first_work r p from (suc count) = ground (arith, length-first_work r p (suc from) count)

pub Settled-IsLaid :
    (alice : List Bool) (m p : ℕ) (r r' : Run)
    → Settled alice m r r'
    → IsLaid alice m p r
    → IsLaid alice m p r'
Settled-IsLaid alice m p r r' s l = record {
  same_length = l.same_length ∙ sym s.key_length;
  cached = λ q bid. rw (s.alice_pp, s.pass_blocks) (l.cached q bid);
  indexed = λ q bid i. rw (s.pos_block, s.pass_blocks) (l.indexed q bid i);
  opened = λ q bid i. rw s.pass_blocks (l.opened q bid i);
  short = λ q bid. rw s.pass_blocks (l.short q bid);
}
