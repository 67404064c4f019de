-- ===== src/Amplitudes.antt =====
-- numpy's complex and real numbers and its functions on them, as a parameter of the quantum register,
-- and the arithmetic that exact numbers have. The source computes with floats, which keep the laws
-- of `IsExact` up to rounding.
pub mod Seven
use qfabric.Prelude.{◌≡◌, Bool, true}

pub record Amplitudes : Type 1 where
  pub F : Type 0
  pub Angle : Type 0
  pub zero : F
  pub one : F
  pub four : F
  pub inv_sqrt2 : F
  pub add : F → F → F
  pub mul : F → F → F
  pub div : F → F → F
  pub neg : F → F
  pub abs2 : F → F
  pub sqrt : F → F
  pub lt : F → F → Bool
  -- 0, pi / 4, pi / 2 and 3 * pi / 4, and the cosine and sine of half an angle
  pub z_basis : Angle
  pub quarter : Angle
  pub x_basis : Angle
  pub three_quarters : Angle
  pub cos_half : Angle → F
  pub sin_half : Angle → F

-- The laws that the register relies on: 0, 1 and -, and 1/√2 with its square, 1/2.
pub record IsExact (q : Amplitudes) : Type 0 where
  pub zero-add : (x : q.F) → q.add q.zero x ≡ x
  pub add-zero : (x : q.F) → q.add x q.zero ≡ x
  pub zero-mul : (x : q.F) → q.mul q.zero x ≡ q.zero
  pub mul-zero : (x : q.F) → q.mul x q.zero ≡ q.zero
  pub one-mul : (x : q.F) → q.mul q.one x ≡ x
  pub neg-mul : (x y : q.F) → q.mul (q.neg x) y ≡ q.neg (q.mul x y)
  pub mul-neg : (x y : q.F) → q.mul x (q.neg y) ≡ q.neg (q.mul x y)
  pub neg-neg : (x : q.F) → q.neg (q.neg x) ≡ x
  pub neg-zero : q.neg q.zero ≡ q.zero
  pub halves :
      (x : q.F)
      → q.add (q.mul q.inv_sqrt2 (q.mul q.inv_sqrt2 x)) (q.mul q.inv_sqrt2 (q.mul q.inv_sqrt2 x))
        ≡ x
  pub abs2-zero : q.abs2 q.zero ≡ q.zero
  pub abs2-neg : (x : q.F) → q.abs2 (q.neg x) ≡ q.abs2 x
  pub abs2-mul :
      (x : q.F) → q.abs2 (q.mul q.inv_sqrt2 x) ≡ q.mul q.inv_sqrt2 (q.mul q.inv_sqrt2 (q.abs2 x))
  pub abs2-inv_sqrt2 : q.abs2 q.inv_sqrt2 ≡ q.mul q.inv_sqrt2 q.inv_sqrt2
  pub sqrt-half : q.sqrt (q.mul q.inv_sqrt2 q.inv_sqrt2) ≡ q.inv_sqrt2
  pub div-mul : (x : q.F) → q.div (q.mul q.inv_sqrt2 x) q.inv_sqrt2 ≡ x
  pub neg-div : (x y : q.F) → q.div (q.neg x) y ≡ q.neg (q.div x y)
  pub zero-div : q.div q.zero q.inv_sqrt2 ≡ q.zero
  pub positive : q.lt q.zero q.inv_sqrt2 ≡ true
  pub cos_z : q.cos_half q.z_basis ≡ q.one
  pub sin_z : q.sin_half q.z_basis ≡ q.zero
  pub cos_x : q.cos_half q.x_basis ≡ q.inv_sqrt2
  pub sin_x : q.sin_half q.x_basis ≡ q.inv_sqrt2
  pub add-neg : (x : q.F) → q.add x (q.neg x) ≡ q.zero
  pub neg-add : (x : q.F) → q.add (q.neg x) x ≡ q.zero
  pub neg_add : (x y : q.F) → q.add (q.neg x) (q.neg y) ≡ q.neg (q.add x y)
  pub two_halves : q.add (q.mul q.inv_sqrt2 q.inv_sqrt2) (q.mul q.inv_sqrt2 q.inv_sqrt2) ≡ q.one
  pub div-self : q.div q.inv_sqrt2 q.inv_sqrt2 ≡ q.one
  pub abs2-one : q.abs2 q.one ≡ q.one
