-- ===== src/Privacy/Dense.antt =====
-- The FFT product is the dense product, bit for bit.
use qfabric.Prelude.{
  ℕ, suc, ◌+◌, ◌-◌, ◌*◌, ◌<◌, ◌≡◌, refl, sym, ◌∙◌, ap, min, inl, inr, ◌||◌, Bool-cases, List, map,
  length, length-map, get_or, get_or_past, arith, ◌==◌,
}
use qfabric.Privacy.{
  Numpy, IsNumpy, convolution, low_bit, convolved, toeplitz_amplify, dot, toeplitz_row, dense,
  toeplitz_amplify_dense,
}
use qfabric.Privacy.Sums.{
  sum_to-eq, sum_to_reverse, sum_to_padded, dot-table, drop-table, take-table, map-table,
}

-- The convolution at n - 1 + i is row i of the Toeplitz matrix, times the key.
convolution-dot :
    (diag key : List ℕ) (n i : ℕ)
    → length key ≡ n
    → 0 < n
    → convolution diag key (0 + (n - 1) + i) ≡ dot (toeplitz_row diag n (0 + i)) key
convolution-dot diag key n i size pos =
    let k = 0 + (n - 1) + i in
    sum_to_reverse (λ a. get_or diag a 0 * get_or key (k - a) 0) k
    ∙ sum_to-eq (λ j. get_or diag (k - j) 0 * get_or key (k - (k - j)) 0)
        (λ j. get_or diag (k - j) 0 * get_or key j 0) (suc k)
        (λ j lt.
          ap (λ (t : ℕ). get_or diag (k - j) 0 * get_or key t 0) {x = k - (k - j)} {y = j}
            (omega arith))
    ∙ sum_to_padded (λ j. get_or diag (k - j) 0 * get_or key j 0) n (suc k) (omega arith)
        (λ j le.
          omega
            (arith, ap (λ (t : ℕ). get_or diag (k - j) 0 * t) (get_or_past key j 0 (omega arith))))
    ∙ sum_to-eq (λ j. get_or diag (k - j) 0 * get_or key j 0)
        (λ j. get_or diag (0 + i + (n - 1) - (0 + j)) 0 * get_or key j 0) n
        (λ j lt.
          ap (λ (t : ℕ). get_or diag t 0 * get_or key j 0) {x = k - j}
            {y = 0 + i + (n - 1) - (0 + j)} (omega arith))
    ∙ sym (dot-table (λ j. get_or diag (0 + i + (n - 1) - j) 0) 0 n key size)

module _ (np : Numpy) (numpy : IsNumpy np) where
  convolved-dense :
      (diag key : List ℕ) (n m : ℕ)
      → length key ≡ n
      → 0 < n
      → length diag ≡ m + n - 1
      → convolved np diag key n m ≡ dense diag key n m
  convolved-dense diag key n m size pos wide =
      let l = np.fft_length (length diag + n - 1) in
      let enough = numpy.enough (length diag + n - 1) in
      rw
        (
          numpy.product diag key l (omega arith),
          drop-table (convolution diag key) 0 (n - 1) (l - (n - 1)) l (omega arith),
          take-table (convolution diag key) (0 + (n - 1)) m (l - (n - 1)) (omega arith),
        )
        (map-table (convolution diag key) low_bit (λ i. low_bit (dot (toeplitz_row diag n i) key))
          (0 + (n - 1)) 0 m (λ i lt. ap low_bit (convolution-dot diag key n i size pos)))

  -- With numpy as documented, for every key, output length and seed `toeplitz_amplify` returns the
  -- same bits as the dense product `toeplitz_amplify_dense`.
  pub toeplitz_amplify-eq-dense :
      (key_bits : List ℕ) (out_len seed : ℕ)
      → toeplitz_amplify np key_bits out_len seed ≡ toeplitz_amplify_dense np key_bits out_len seed
  unfolding toeplitz_amplify toeplitz_amplify_dense
  toeplitz_amplify-eq-dense key_bits out_len seed =
      let n = length key_bits in
      let m = min out_len n in
      elim (Bool-cases (m == 0 || n == 0)) [
        | inl e ↦ rw e refl
        | inr e ↦ rw e (
            convolved-dense (np.integers seed (m + n - 1)) (map low_bit key_bits) n m
              (length-map low_bit key_bits) (ground (arith, e)) (numpy.size seed (m + n - 1)))
      ]
