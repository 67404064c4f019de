-- ===== src/Bytes/Laws.antt =====
-- Fields come back as they were packed.
use native.Mathlib.Nat.{pow-suc}
use qfabric.Prelude.{
  ℕ, zero, suc, ◌*◌, ◌+◌, ◌/◌, ◌%◌, ◌^◌, ◌<◌, ◌≡◌, refl, ap, ◌∙◌, [], ◌∷◌, ◌++◌, take, drop, length,
  length-append, take-append_length, drop-append_length, append-nil, ltb, lt→ltb, arith, false, sym,
}
use qfabric.Prelude.Result.{ok}
use qfabric.Bytes.{Bytes, be, unbe_from, uint, read}

pub length-be : (w n : ℕ) → length (be w n) ≡ w
unfolding be
length-be zero n = refl
length-be (suc w) n =
    omega (arith, length-append (be w (n / 256)) (n % 256 ∷ []), length-be w (n / 256))

unbe_from-append :
    (acc : ℕ) (bs : Bytes) (b : ℕ) → unbe_from acc (bs ++ b ∷ []) ≡ unbe_from acc bs * 256 + b
unfolding unbe_from
unbe_from-append acc [] b = refl
unbe_from-append acc (c ∷ bs) b = unbe_from-append (acc * 256 + c) bs b

pub unbe_from-be : (w n : ℕ) → n < 256 ^ w → unbe_from 0 (be w n) ≡ n
unfolding be unbe_from
unbe_from-be zero n h = omega arith
unbe_from-be (suc w) n h = omega (
  arith,
  unbe_from-append 0 (be w (n / 256)) (n % 256),
  unbe_from-be w (n / 256) (omega (arith, h, pow-suc 256 w)),
)

pub uint_lem : (w n : ℕ) → n < 256 ^ w → uint w n ≡ ok (be w n)
unfolding uint
uint_lem w n h = rw (lt→ltb n (256 ^ w) h)

-- A packed field is read back, and the rest is left.
pub read-be : (w n : ℕ) (rest : Bytes) → n < 256 ^ w → read w (be w n ++ rest) ≡ ok (n, rest)
unfolding read
read-be w n rest h = rw (long, taken, dropped, unbe_from-be w n h)
  where
    long : ltb (length (be w n ++ rest)) w ≡ false
    long = ground (arith, length-append (be w n) rest, length-be w n)

    taken : take w (be w n ++ rest) ≡ be w n
    taken =
        ap (λ (k : ℕ). take k (be w n ++ rest)) (sym (length-be w n))
        ∙ take-append_length (be w n) rest

    dropped : drop w (be w n ++ rest) ≡ rest
    dropped =
        ap (λ (k : ℕ). drop k (be w n ++ rest)) (sym (length-be w n))
        ∙ drop-append_length (be w n) rest

pub read-be_end : (w n : ℕ) → n < 256 ^ w → read w (be w n) ≡ ok (n, [])
read-be_end w n h = rw (← append-nil (be w n)) (read-be w n [] h)
