-- ===== src/Cascade/Corrected.antt =====
-- What stays true while a pass corrects: the tables, the queue of odd blocks, and one correction.
use qfabric.Prelude.{
  ℕ, zero, suc, ◌+◌, ◌*◌, ◌^◌, ◌≤◌, ◌<◌, ◌≡◌, refl, sym, subst, ◌∙◌, inl, inr, Bool, true, false,
  ◌&&◌, ◌||◌, List, [], ◌∷◌, ◌++◌, arith, length, get_or, ◌==◌, Bool-cases,
}
use qfabric.Prelude.Elem.{elem}
use qfabric.Cascade.{Run, parity, block_at, is_odd, reopened, corrected}
use qfabric.Cascade.Parity.{parity-flip, length-flip, errors}

abbrev pub holds : ℕ → ℕ → List (ℕ × ℕ) → Bool
holds q bid [] = false
holds q bid ((a, b) ∷ work) = (a == q && b == bid) || holds q bid work

pub holds-append :
    (q bid : ℕ) (xs ys : List (ℕ × ℕ)) → holds q bid (xs ++ ys) ≡ (holds q bid xs || holds q bid ys)
holds-append q bid [] ys = refl
holds-append q bid ((a, b) ∷ xs) ys = ground (arith, holds-append q bid xs ys)

or-true : (b : Bool) → (b || true) ≡ true
or-true b = ground arith

-- What stays true of the tables while a pass runs: Alice's cached parities are right, and the index
-- of a pass names the block that a position stands in. Blocks have at most 2 ^ m positions.
pub record IsLaid (alice : List Bool) (m p : ℕ) (r : Run) : Type 0 where
  pub same_length : length alice ≡ length r.key
  pub cached :
      (q bid : ℕ) → get_or (get_or r.alice_pp q []) bid false ≡ parity alice (block_at r q bid)
  pub indexed :
      (q bid i : ℕ) → elem i (block_at r q bid) ≡ true → get_or (get_or r.pos_block q []) i 0 ≡ bid
  pub opened : (q bid i : ℕ) → elem i (block_at r q bid) ≡ true → q < p
  pub short : (q bid : ℕ) → length (block_at r q bid) ≤ 2 ^ m

-- Every odd block waits in the queue.
abbrev pub Pending : List (ℕ × ℕ) → Run → Type 0
Pending work r = (q bid : ℕ) → is_odd r q bid ≡ true → holds q bid work ≡ true

-- What a pass's corrections have done, from r to r'.
pub record Settled (alice : List Bool) (m : ℕ) (r r' : Run) : Type 0 where
  pub pass_blocks : r'.pass_blocks ≡ r.pass_blocks
  pub pos_block : r'.pos_block ≡ r.pos_block
  pub alice_pp : r'.alice_pp ≡ r.alice_pp
  pub key_length : length r'.key ≡ length r.key
  pub counted : errors alice r'.key + r'.corrections ≡ errors alice r.key + r.corrections
  pub more : r.leaked ≤ r'.leaked
  pub leak : r'.leaked + r.corrections * m ≤ r.leaked + r'.corrections * m
  pub even : (q bid : ℕ) → is_odd r' q bid ≡ false

pub length-reopened : (r : Run) (i qq count : ℕ) → length (reopened r i qq count) ≤ count
unfolding reopened
length-reopened r i qq zero = omega arith
length-reopened r i qq (suc count) = ground (arith, length-reopened r i (suc qq) count)

reopened-holds :
    (r : Run) (i q qq count : ℕ)
    → qq ≤ q
    → q < qq + count
    → is_odd r q (get_or (get_or r.pos_block q []) i 0) ≡ true
    → holds q (get_or (get_or r.pos_block q []) i 0) (reopened r i qq count) ≡ true
unfolding reopened
reopened-holds r i q qq zero lo hi h = absurd (omega arith)
reopened-holds r i q qq (suc count) lo hi h = elim (Bool-cases (qq == q)) [
  | inl e ↦ rw (same e, h) (ground arith)
  | inr e ↦ ground (arith, reopened-holds r i q (suc qq) count (ground arith) (omega arith) h)
]
  where
    same : (qq == q) ≡ true → qq ≡ q
    same e = ground arith

is_odd-corrected :
    (r : Run) (i k q bid : ℕ)
    → elem i (block_at r q bid) ≡ false
    → is_odd (corrected r i k) q bid ≡ is_odd r q bid
unfolding is_odd corrected
is_odd-corrected r i k q bid h = rw (parity-flip r.key i (block_at r q bid) h)

pub corrected-IsLaid :
    (alice : List Bool) (m p : ℕ) (r : Run) (i k : ℕ)
    → IsLaid alice m p r
    → IsLaid alice m p (corrected r i k)
unfolding corrected
corrected-IsLaid alice m p r i k l = record {
  same_length = omega (arith, l.same_length, length-flip r.key i);
  cached = l.cached;
  indexed = l.indexed;
  opened = l.opened;
  short = l.short;
}

-- After a correction at position i of block (q₀, bid₀), which was odd, every odd block waits among
-- those that waited before or those that the correction adds.
pub corrected-Pending :
    (alice : List Bool) (m p : ℕ) (r : Run) (q₀ bid₀ i k : ℕ) (rest : List (ℕ × ℕ))
    → IsLaid alice m p r
    → elem i (block_at r q₀ bid₀) ≡ true
    → Pending ((q₀, bid₀) ∷ rest) r
    → Pending (rest ++ reopened (corrected r i k) i 0 p) (corrected r i k)
unfolding corrected
corrected-Pending alice m p r q₀ bid₀ i k rest l at_i pending q bid odd =
    rw holds-append (elim (Bool-cases (elem i (block_at r q bid))) [
      | inl e ↦ rw (again e) (or-true (holds q bid rest))
      | inr e ↦ rw (waited e (sym (is_odd-corrected r i k q bid e) ∙ odd)) refl
    ])
  where
    again : elem i (block_at r q bid) ≡ true → holds q bid (reopened (corrected r i k) i 0 p) ≡ true
    again e =
        let idx = l.indexed q bid i e in
        subst (λ b. holds q b (reopened (corrected r i k) i 0 p) ≡ true) idx
          (reopened-holds (corrected r i k) i q 0 p (omega arith)
            (omega (arith, l.opened q bid i e)) (rw idx odd))

    waited : elem i (block_at r q bid) ≡ false → is_odd r q bid ≡ true → holds q bid rest ≡ true
    waited e o = ground (arith, pending q bid o)

-- A popped block that is even was waiting for nothing.
pub skipped-Pending :
    (r : Run) (q₀ bid₀ : ℕ) (rest : List (ℕ × ℕ))
    → is_odd r q₀ bid₀ ≡ false
    → Pending ((q₀, bid₀) ∷ rest) r
    → Pending rest r
skipped-Pending r q₀ bid₀ rest even pending q bid odd = ground (arith, pending q bid odd)

-- The queue's measure: each error may reopen one block in every pass.
