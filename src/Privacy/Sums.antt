-- ===== src/Privacy/Sums.antt =====
-- Finite sums: reordering, padding with zeros, and the product of two lists as a sum.
use qfabric.Prelude.{
  ℕ, zero, suc, ◌+◌, ◌-◌, ◌*◌, ◌≤◌, ◌<◌, ◌≡◌, refl, ◌∙◌, ap, List, [], ◌∷◌, map, length, take, drop,
  get_or, arith, inl, inr, Bool-cases, leb,
}
use qfabric.Privacy.{table, sum_to, dot}

pub sum_to-eq : (g h : ℕ → ℕ) (n : ℕ) → ((i : ℕ) → i < n → g i ≡ h i) → sum_to g n ≡ sum_to h n
unfolding sum_to
sum_to-eq g h zero same = refl
sum_to-eq g h (suc n) same =
    omega (arith, sum_to-eq g h n (λ i lt. same i (omega arith)), same n (omega arith))

pub sum_to_front : (g : ℕ → ℕ) (n : ℕ) → sum_to g (suc n) ≡ g 0 + sum_to (λ i. g (suc i)) n
unfolding sum_to
sum_to_front g zero = omega arith
sum_to_front g (suc n) = omega (arith, sum_to_front g n)

-- The same summands, the last one first.
pub sum_to_reverse : (g : ℕ → ℕ) (n : ℕ) → sum_to g (suc n) ≡ sum_to (λ i. g (n - i)) (suc n)
unfolding sum_to
sum_to_reverse g zero = ap (λ (t : ℕ). 0 + g t) (omega arith)
sum_to_reverse g (suc n) = omega (
  arith,
  sum_to_reverse g n,
  sum_to_front (λ i. g (suc n - i)) (suc n),
  sum_to-eq (λ i. g (suc n - suc i)) (λ i. g (n - i)) (suc n) (λ i lt. ap g (omega arith)),
  ap g (the_last n),
)
  where
    the_last : (n : ℕ) → suc n - 0 ≡ suc n
    the_last n = omega arith

-- Zeros at the end do not count.
pub sum_to_padded :
    (g : ℕ → ℕ) (n total : ℕ)
    → n ≤ total
    → ((i : ℕ) → n ≤ i → g i ≡ 0)
    → sum_to g total ≡ sum_to g n
unfolding sum_to
sum_to_padded g n zero le zeros = ap (sum_to g) {x = 0} {y = n} (omega arith)
sum_to_padded g n (suc total) le zeros = elim (Bool-cases (leb n total)) [
  | inl e ↦ omega (arith, sum_to_padded g n total (ground arith) zeros, zeros total (ground arith))
  | inr e ↦ ap (sum_to g) {x = suc total} {y = n} (ground arith)
]

pub dot-table :
    (g : ℕ → ℕ) (start n : ℕ) (ys : List ℕ)
    → length ys ≡ n
    → dot (table g start n) ys ≡ sum_to (λ j. g (start + j) * get_or ys j 0) n
unfolding dot table
dot-table g start zero [] e = unfold sum_to in refl
dot-table g start zero (y ∷ ys) e = absurd (omega arith)
dot-table g start (suc n) [] e = absurd (omega arith)
dot-table g start (suc n) (y ∷ ys) e =
    let front = sum_to_front (λ j. g (start + j) * get_or (y ∷ ys) j 0) n in
    let rest =
      sum_to-eq (λ j. g (suc start + j) * get_or ys j 0) (λ j. g (start + suc j) * get_or ys j 0) n
        (λ j lt. ap (λ (t : ℕ). g t * get_or ys j 0) (omega arith)) in
    omega (
      arith,
      front,
      rest,
      dot-table g (suc start) n ys (omega arith),
      ap (λ (t : ℕ). g t * y) {x = start} {y = start + 0} (omega arith),
    )

module _ {A : Type 0} (g : ℕ → A) where
  pub drop-table :
      (start k count total : ℕ)
      → total ≡ k + count
      → drop k (table g start total) ≡ table g (start + k) count
  unfolding table
  drop-table start zero count total e =
      ap (table g start) {x = total} {y = count} (omega arith)
      ∙ ap (λ (t : ℕ). table g t count) (omega arith)
  drop-table start (suc k) count zero e = absurd (omega arith)
  drop-table start (suc k) count (suc total) e =
      drop-table (suc start) k count total (omega arith)
      ∙ ap (λ (t : ℕ). table g t count) (omega arith)

  pub take-table : (start k total : ℕ) → k ≤ total → take k (table g start total) ≡ table g start k
  unfolding table
  take-table start zero total le = refl
  take-table start (suc k) zero le = absurd (omega arith)
  take-table start (suc k) (suc total) le =
      ap (g start ∷◌) (take-table (suc start) k total (omega arith))

  pub map-table :
      {B : Type 0} (f : A → B) (h : ℕ → B) (start start' count : ℕ)
      → ((i : ℕ) → i < count → f (g (start + i)) ≡ h (start' + i))
      → map f (table g start count) ≡ table h start' count
  unfolding table
  map-table f h start start' zero same = refl
  map-table {B = B} f h start start' (suc count) same =
      let first : f (g start) ≡ h start' =
        ap (λ (t : ℕ). f (g t)) {x = start} {y = start + 0} (omega arith)
        ∙ same 0 (omega arith)
        ∙ ap h {x = start' + 0} {y = start'} (omega arith) in
      let rest = map-table f h (suc start) (suc start') count (λ i lt.
        ap (λ (t : ℕ). f (g t)) {x = suc start + i} {y = start + suc i} (omega arith)
        ∙ same (suc i) (omega arith)
        ∙ ap h {x = start' + suc i} {y = suc start' + i} (omega arith)) in
      cc (first, rest)
