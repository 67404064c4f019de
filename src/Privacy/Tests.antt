-- ===== src/Privacy/Tests.antt =====
-- A key of three bits, with a stand-in for numpy that computes the convolution directly.
use qfabric.Prelude.{◌≡◌, refl, [], ◌∷◌, length-replicate, replicate, arith}
use qfabric.Privacy.{
  Numpy, IsNumpy, table, sum_to, convolution, toeplitz_amplify, toeplitz_amplify_dense,
}
use qfabric.Privacy.Dense.{toeplitz_amplify-eq-dense}

abbrev numpy : Numpy
numpy = record {
  integers = λ seed n. replicate n 1;
  fft_length = λ m. m;
  fft_product = λ xs ys n. table (convolution xs ys) 0 n;
}

numpy-IsNumpy : IsNumpy numpy
numpy-IsNumpy = record {
  size = λ seed n. length-replicate n 1;
  enough = λ m. omega arith;
  product = λ xs ys n h. refl;
}

-- With a matrix of ones each output bit is the parity of the key.
all_ones : toeplitz_amplify numpy (1 ∷ 0 ∷ 0 ∷ []) 2 7 ≡ 1 ∷ 1 ∷ []
unfolding toeplitz_amplify table sum_to
all_ones = refl

toeplitz_amplify-eq-dense_example :
    toeplitz_amplify numpy (1 ∷ 1 ∷ 0 ∷ []) 2 7 ≡ toeplitz_amplify_dense numpy (1 ∷ 1 ∷ 0 ∷ []) 2 7
toeplitz_amplify-eq-dense_example =
    toeplitz_amplify-eq-dense numpy numpy-IsNumpy (1 ∷ 1 ∷ 0 ∷ []) 2 7
