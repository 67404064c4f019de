-- ===== src/Amplitudes/Seven.antt =====
-- The smallest exact arithmetic for the register: the integers modulo 7, in which 2 is 1/√2.
use qfabric.Prelude.{
  ℕ, zero, suc, ◌+◌, ◌*◌, ◌-◌, ◌%◌, ◌≡◌, refl, sym, ap, ◌∙◌, Bool, true, ◌&&◌, ltb, ◌==◌, arith,
}
use qfabric.Amplitudes.{Amplitudes, IsExact}

pub data Seven : Type 0 where
  n0 n1 n2 n3 n4 n5 n6 : Seven

abbrev number : Seven → ℕ
number n0 = 0
number n1 = 1
number n2 = 2
number n3 = 3
number n4 = 4
number n5 = 5
number n6 = 6

abbrev small : ℕ → Seven
small zero = n0
small (suc zero) = n1
small (suc (suc zero)) = n2
small (suc (suc (suc zero))) = n3
small (suc (suc (suc (suc zero)))) = n4
small (suc (suc (suc (suc (suc zero))))) = n5
small (suc (suc (suc (suc (suc (suc n)))))) = n6

abbrev modulo : ℕ → Seven
modulo n = small (n % 7)

abbrev plus : Seven → Seven → Seven
plus x y = modulo (number x + number y)

abbrev times : Seven → Seven → Seven
times x y = modulo (number x * number y)

abbrev minus_of : Seven → Seven
minus_of x = modulo (7 - number x)

-- The inverse is the fifth power.
abbrev inverse : Seven → Seven
inverse x = times x (times (times x x) (times x x))

abbrev root : Seven → Seven
root n1 = n1
root n2 = n3
root n4 = n2
root x = n0

abbrev cosine : ℕ → Seven
cosine zero = n1
cosine (suc n) = n2

abbrev sine : ℕ → Seven
sine zero = n0
sine (suc n) = n2

abbrev pub seven : Amplitudes
seven = record {
  F = Seven;
  Angle = ℕ;
  zero = n0;
  one = n1;
  four = n4;
  inv_sqrt2 = n2;
  add = plus;
  mul = times;
  div = λ x y. times x (inverse y);
  neg = minus_of;
  abs2 = λ x. times x x;
  sqrt = root;
  lt = λ x y. ltb (number x) (number y);
  z_basis = 0;
  quarter = 1;
  x_basis = 2;
  three_quarters = 3;
  cos_half = cosine;
  sin_half = sine;
}

-- An equation holds if it holds at each of the seven numbers.
abbrev each : (Seven → Bool) → Bool
each p = p n0 && p n1 && p n2 && p n3 && p n4 && p n5 && p n6

abbrev same : Seven → Seven → Bool
same x y = number x == number y

small-number : (x : Seven) → small (number x) ≡ x
small-number n0 = refl
small-number n1 = refl
small-number n2 = refl
small-number n3 = refl
small-number n4 = refl
small-number n5 = refl
small-number n6 = refl

same_sound : (x y : Seven) → same x y ≡ true → x ≡ y
same_sound x y h =
    let e : number x ≡ number y = ground (arith, h) in
    sym (small-number x) ∙ ap small e ∙ small-number y

each_sound : (p : Seven → Bool) → each p ≡ true → (x : Seven) → p x ≡ true
each_sound p h n0 = ground (arith, h)
each_sound p h n1 = ground (arith, h)
each_sound p h n2 = ground (arith, h)
each_sound p h n3 = ground (arith, h)
each_sound p h n4 = ground (arith, h)
each_sound p h n5 = ground (arith, h)
each_sound p h n6 = ground (arith, h)

law : (f g : Seven → Seven) → each (λ x. same (f x) (g x)) ≡ true → (x : Seven) → f x ≡ g x
law f g h x = same_sound (f x) (g x) (each_sound (λ x. same (f x) (g x)) h x)

law2 :
    (f g : Seven → Seven → Seven)
    → each (λ x. each (λ y. same (f x y) (g x y))) ≡ true
    → (x y : Seven) → f x y ≡ g x y
law2 f g h x = law (f x) (g x) (each_sound (λ x. each (λ y. same (f x y) (g x y))) h x)

pub seven-IsExact : IsExact seven
seven-IsExact = record {
  zero-add = law (λ x. plus n0 x) (λ x. x) refl;
  add-zero = law (λ x. plus x n0) (λ x. x) refl;
  zero-mul = law (λ x. times n0 x) (λ x. n0) refl;
  mul-zero = law (λ x. times x n0) (λ x. n0) refl;
  one-mul = law (λ x. times n1 x) (λ x. x) refl;
  neg-mul = law2 (λ x y. times (minus_of x) y) (λ x y. minus_of (times x y)) refl;
  mul-neg = law2 (λ x y. times x (minus_of y)) (λ x y. minus_of (times x y)) refl;
  neg-neg = law (λ x. minus_of (minus_of x)) (λ x. x) refl;
  neg-zero = refl;
  halves = law (λ x. plus (times n2 (times n2 x)) (times n2 (times n2 x))) (λ x. x) refl;
  abs2-zero = refl;
  abs2-neg = law (λ x. times (minus_of x) (minus_of x)) (λ x. times x x) refl;
  abs2-mul = law (λ x. times (times n2 x) (times n2 x)) (λ x. times n2 (times n2 (times x x))) refl;
  abs2-inv_sqrt2 = refl;
  sqrt-half = refl;
  div-mul = law (λ x. times (times n2 x) (inverse n2)) (λ x. x) refl;
  neg-div =
      law2 (λ x y. times (minus_of x) (inverse y)) (λ x y. minus_of (times x (inverse y))) refl;
  zero-div = refl;
  positive = refl;
  cos_z = refl;
  sin_z = refl;
  cos_x = refl;
  sin_x = refl;
  add-neg = law (λ x. plus x (minus_of x)) (λ x. n0) refl;
  neg-add = law (λ x. plus (minus_of x) x) (λ x. n0) refl;
  neg_add = law2 (λ x y. plus (minus_of x) (minus_of y)) (λ x y. minus_of (plus x y)) refl;
  two_halves = refl;
  div-self = refl;
  abs2-one = refl;
}
