-- ===== src/Privacy.antt =====
-- qne/privacy.py: privacy amplification by a Toeplitz matrix over GF(2), as a convolution and as the
-- dense product that it stands for. numpy's generator and its FFT are the parameter `np`.
pub mod Sums
pub mod Dense
mod Tests
use qfabric.Prelude.{
  ℕ, zero, suc, ◌+◌, ◌-◌, ◌*◌, ◌%◌, ◌≤◌, ◌≡◌, min, ◌||◌, List, [], ◌∷◌, map, length, get_or, take,
  drop, ◌==◌, if◌then◌else◌,
}

-- `table g start count` is `[g(i) for i in range(start, start + count)]`.
unfoldable pub table {ℓ} : {A : Type ℓ} → (ℕ → A) → ℕ → ℕ → List A
table g start zero = []
table g start (suc count) = g start ∷ table g (suc start) count

-- `sum(g(i) for i in range(n))`
unfoldable pub sum_to : (ℕ → ℕ) → ℕ → ℕ
sum_to g zero = 0
sum_to g (suc n) = sum_to g n + g n

-- What is used of numpy: `integers seed size` is `default_rng(seed).integers(0, 2, size)`,
-- `fft_length m` is `int(2 ** np.ceil(np.log2(m)))`, and `fft_product xs ys length` is the rounded
-- `irfft(rfft(xs, length) * rfft(ys, length), length)`.
pub record Numpy : Type 0 where
  pub integers : ℕ → ℕ → List ℕ
  pub fft_length : ℕ → ℕ
  pub fft_product : List ℕ → List ℕ → ℕ → List ℕ

-- The discrete convolution at k: the sum of the products of entries whose indices add up to k.
abbrev pub convolution : List ℕ → List ℕ → ℕ → ℕ
convolution xs ys k = sum_to (λ a. get_or xs a 0 * get_or ys (k - a) 0) (suc k)

-- What numpy documents: the generator returns as many bits as asked for, the length is a power of two
-- that is not below its argument, and by the convolution theorem a product of that length, padded
-- with zeros, is the discrete convolution.
pub record IsNumpy (np : Numpy) : Type 0 where
  pub size : (seed n : ℕ) → length (np.integers seed n) ≡ n
  pub enough : (m : ℕ) → m ≤ np.fft_length m
  pub product :
      (xs ys : List ℕ) (n : ℕ)
      → length xs + length ys ≤ n + 1
      → np.fft_product xs ys n ≡ table (convolution xs ys) 0 n

abbrev pub low_bit : ℕ → ℕ
low_bit n = n % 2

abbrev pub convolved : Numpy → List ℕ → List ℕ → ℕ → ℕ → List ℕ
convolved np diag key n m =
    map low_bit
      (take m (drop (n - 1) (np.fft_product diag key (np.fft_length (length diag + n - 1)))))

-- `toeplitz_amplify`
unfoldable pub toeplitz_amplify : Numpy → List ℕ → ℕ → ℕ → List ℕ
toeplitz_amplify np key_bits out_len seed =
    let n = length key_bits in
    let m = min out_len n in
    if m == 0 || n == 0
    then []
    else convolved np (np.integers seed (m + n - 1)) (map low_bit key_bits) n m

pub dot : List ℕ → List ℕ → ℕ
dot [] ys = 0
dot (x ∷ xs) [] = 0
dot (x ∷ xs) (y ∷ ys) = x * y + dot xs ys

-- Row i of `T = diag[idx]`: the entry in column j is `diag[i - j + (n - 1)]`.
abbrev pub toeplitz_row : List ℕ → ℕ → ℕ → List ℕ
toeplitz_row diag n i = table (λ j. get_or diag (i + (n - 1) - j) 0) 0 n

abbrev pub dense : List ℕ → List ℕ → ℕ → ℕ → List ℕ
dense diag key n m = table (λ i. low_bit (dot (toeplitz_row diag n i) key)) 0 m

-- `toeplitz_amplify_dense`
pub toeplitz_amplify_dense : Numpy → List ℕ → ℕ → ℕ → List ℕ
toeplitz_amplify_dense np key_bits out_len seed =
    let n = length key_bits in
    let m = min out_len n in
    if m == 0 || n == 0 then [] else dense (np.integers seed (m + n - 1)) (map low_bit key_bits) n m
