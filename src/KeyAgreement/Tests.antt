-- ===== src/KeyAgreement/Tests.antt =====
-- Keys of four bits with an error, and stand-ins for numpy and the floats.
use mathlib.Core.Option.{some-injective}
use qfabric.Prelude.{
  ◌≡◌, ◌≢◌, refl, ◌∙◌, ◌⊎◌, Bool, true, false, none, some, List, [], ◌∷◌, ◌==◌, if◌then◌else◌, ap,
  sym,
}
use qfabric.Prelude.Slices.{slices}
use qfabric.Prelude.Result.{ok, err, key_verification_error}
use qfabric.Floats.Hundredths.{floats}
use qfabric.Cascade.{
  CascadeResult, initial_block_size, parity, flip, ask, bisect, reconcile, run_pass, open_pass,
  drain, first_work, is_odd, range_from,
}
use qfabric.Cascade.Blocks.{range_from-IsPermutation}
use qfabric.Privacy.{Numpy, table, sum_to, convolution, toeplitz_amplify}
use qfabric.KeyAgreement.{
  KeyMaterial, Settings, session, serve, verification_tag, cascade_sizing_qber, verification_bits,
}
use qfabric.KeyAgreement.Agree.{session_agrees, cascade}

abbrev numpy : Numpy
numpy = record {
  integers = λ seed n. table (λ i. if i == 1 then 1 else 0) 0 n;
  fft_length = λ m. m;
  fft_product = λ xs ys n. table (convolution xs ys) 0 n;
}

abbrev alice_key : List Bool
alice_key = true ∷ false ∷ true ∷ true ∷ []

abbrev bob_key : List Bool
bob_key = true ∷ true ∷ true ∷ true ∷ []

abbrev settings : Settings floats numpy
settings = record {
  qber = 25;
  passes = 2;
  qber_pa = none;
  max_out_len = some 3;
  qber_upper = none;
  default_eps_cor = 100;
  perms = λ p. range_from 0 4;
  pa_seed = 1;
  verify_seed = 2;
}

abbrev result : CascadeResult
result = record {
  corrected_key = alice_key;
  corrections = 1;
  bits_leaked = 5;
  passes = 2;
  block_size = 2;
}

runs : cascade floats numpy settings alice_key bob_key ≡ some result
unfolding reconcile slices run_pass open_pass drain first_work parity is_odd flip ask bisect serve
    initial_block_size cascade_sizing_qber
runs = refl

result-only :
    (res : CascadeResult)
    → cascade floats numpy settings alice_key bob_key ≡ some res
    → alice_key ≡ res.corrected_key
result-only res e =
    ap (λ (r : CascadeResult). r.corrected_key) (some-injective result res (sym runs ∙ e))

-- The tag is shorter than the keys, so that other keys have the tag of Alice's.
collides :
    verification_tag floats numpy alice_key 2 100
    ≡ verification_tag floats numpy (false ∷ false ∷ true ∷ true ∷ []) 2 100
unfolding verification_tag verification_bits toeplitz_amplify table sum_to
collides = refl

session_agrees_example :
    (res : CascadeResult) × (cascade floats numpy settings alice_key bob_key ≡ some res)
    × (((alice_key ≢ res.corrected_key)
          × (session floats numpy settings alice_key bob_key
              ≡ some (some (err key_verification_error), err key_verification_error)))
        ⊎ ((alice_key ≡ res.corrected_key)
            × (k : KeyMaterial) × (session floats numpy settings alice_key bob_key
                ≡ some (some (ok k), ok k))))
session_agrees_example =
    session_agrees floats numpy settings alice_key bob_key refl (λ p. range_from-IsPermutation 4)
      (λ res e same. result-only res e)
