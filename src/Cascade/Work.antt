-- ===== src/Cascade/Work.antt =====
-- The work queue of a pass: it empties, each correction removes an error, and when it is empty every
-- block of every pass so far has Alice's parity.
use mathlib.Core.Bool.{false≢true}
use qfabric.Prelude.{
  ℕ, zero, suc, ◌+◌, ◌*◌, ◌≤◌, ◌<◌, ◌≡◌, refl, ap, ◌∙◌, inl, inr, Bool, true, false, List, [], ◌∷◌,
  ◌++◌, Option, some, arith, length, length-append, xor, Bool-cases,
}
use qfabric.Cascade.{Oracle, Run, parity, bisect, block_at, is_odd, reopened, corrected, drain}
use qfabric.Cascade.Parity.{length-flip, errors, errors-flip}
use qfabric.Cascade.Bisect.{IsHonest, IsFound, bisect-Finds}
use qfabric.Cascade.Corrected.{
  Pending, length-reopened, corrected-IsLaid, corrected-Pending, skipped-Pending, IsLaid, Settled,
}

abbrev measure : List Bool → ℕ → List (ℕ × ℕ) → Run → ℕ
measure alice p work r = errors alice r.key * (p + 2) + length work

corrected-counted :
    (alice : List Bool) (m p : ℕ) (r : Run) (b : List ℕ) (i k : ℕ)
    → IsLaid alice m p r
    → IsFound alice r.key b i
    → errors alice (corrected r i k).key + 1 ≡ errors alice r.key
unfolding corrected
corrected-counted alice m p r b i k l f = errors-flip alice r.key i l.same_length f.wrong

corrected-measure :
    (alice : List Bool) (p : ℕ) (r : Run) (i k q bid : ℕ) (rest : List (ℕ × ℕ))
    → errors alice (corrected r i k).key + 1 ≡ errors alice r.key
    → measure alice p (rest ++ reopened (corrected r i k) i 0 (p + 1)) (corrected r i k)
      < measure alice p ((q, bid) ∷ rest) r
corrected-measure alice p r i k q bid rest e = omega (
  arith,
  ap (λ (t : ℕ). t * (p + 2)) e,
  length-append rest (reopened (corrected r i k) i 0 (p + 1)),
  length-reopened (corrected r i k) i 0 (p + 1),
)

-- The tables of a corrected run are those of the run.
Settled-after :
    (alice : List Bool) (m : ℕ) (r r' : Run) (i k : ℕ)
    → errors alice (corrected r i k).key + 1 ≡ errors alice r.key
    → r.leaked ≤ k
    → k ≤ r.leaked + m
    → Settled alice m (corrected r i k) r'
    → Settled alice m r r'
unfolding corrected
Settled-after alice m r r' i k e lo hi s = record {
  pass_blocks = s.pass_blocks;
  pos_block = s.pos_block;
  alice_pp = s.alice_pp;
  key_length = s.key_length ∙ length-flip r.key i;
  counted = omega (arith, s.counted);
  more = omega (arith, s.more);
  leak = omega (arith, s.leak);
  even = s.even;
}

drain_skip :
    (fuel : ℕ) (oracle : Oracle) (p q bid : ℕ) (rest : List (ℕ × ℕ)) (r : Run)
    → is_odd r q bid ≡ false
    → drain (suc fuel) oracle p ((q, bid) ∷ rest) r ≡ drain fuel oracle p rest r
unfolding drain
drain_skip fuel oracle p q bid rest r e = rw (e, drain)

drain_correct :
    (fuel : ℕ) (oracle : Oracle) (p q bid : ℕ) (rest : List (ℕ × ℕ)) (r : Run) (i k : ℕ)
    → is_odd r q bid ≡ true
    → bisect (suc (length (block_at r q bid))) oracle r.key (block_at r q bid) r.leaked
      ≡ some (i, k)
    → drain (suc fuel) oracle p ((q, bid) ∷ rest) r
      ≡ drain fuel oracle p (rest ++ reopened (corrected r i k) i 0 (p + 1)) (corrected r i k)
unfolding drain
drain_correct fuel oracle p q bid rest r i k e found = rw (e, found, drain)

-- The queue empties, with a run in which every block is even.
abbrev Drains : List Bool → ℕ → Run → Option Run → Type 0
Drains alice m r o = (r' : Run) × (o ≡ some r') × Settled alice m r r'

module _ (alice : List Bool) (oracle : Oracle) (honest : IsHonest alice oracle) (m p : ℕ) where
  odd-disagrees :
      (r : Run) (q bid : ℕ)
      → IsLaid alice m (p + 1) r
      → is_odd r q bid ≡ true
      → xor (parity alice (block_at r q bid)) (parity r.key (block_at r q bid)) ≡ true
  unfolding is_odd
  odd-disagrees r q bid l odd = rw (l.cached q bid) at odd

  pub drain-Drains :
      (fuel : ℕ) (work : List (ℕ × ℕ)) (r : Run)
      → IsLaid alice m (p + 1) r
      → Pending work r
      → measure alice p work r < fuel
      → Drains alice m r (drain fuel oracle p work r)
  unfolding drain
  drain-Drains zero work r l pending enough = elim enough [ ]
  drain-Drains (suc fuel) [] r l pending enough = (
    r,
    refl,
    record {
      pass_blocks = refl;
      pos_block = refl;
      alice_pp = refl;
      key_length = refl;
      counted = refl;
      more = omega arith;
      leak = omega arith;
      even = λ q bid. elim (Bool-cases (is_odd r q bid)) [
        | inl e ↦ absurd (false≢true (pending q bid e))
        | inr e ↦ e
      ];
    },
  )
  drain-Drains (suc fuel) ((q, bid) ∷ rest) r l pending enough =
      elim (Bool-cases (is_odd r q bid)) [
        | inr e ↦
            rw (drain_skip fuel oracle p q bid rest r e)
              (drain-Drains fuel rest r l (skipped-Pending r q bid rest e pending) (omega arith))
        | inl e ↦
            let (i, k, found, f, lo, hi) =
              bisect-Finds alice oracle honest r.key (suc (length (block_at r q bid)))
                (block_at r q bid) r.leaked m (omega arith) (odd-disagrees r q bid l e)
                (l.short q bid) in
            let less = corrected-counted alice m (p + 1) r (block_at r q bid) i k l f in
            let (r', e', s) =
              drain-Drains fuel (rest ++ reopened (corrected r i k) i 0 (p + 1)) (corrected r i k)
                (corrected-IsLaid alice m (p + 1) r i k l)
                (corrected-Pending alice m (p + 1) r q bid i k rest l f.inside pending)
                (omega (arith, corrected-measure alice p r i k q bid rest less)) in
            (
              r',
              drain_correct fuel oracle p q bid rest r i k e found ∙ e',
              Settled-after alice m r r' i k less lo hi s,
            )
      ]
