-- ===== src/Prelude/Result.antt =====
-- Code that may raise: a value, or the exception.
use mathlib.Core.Path.{◌≡◌, refl, ap}
use mathlib.Core.Logic.{◌⊎◌, inl, inr}
use mathlib.Core.Bool.{Bool, true, false}

-- The exceptions that the modelled code raises.
pub data Error : Type 0 where
  value_error struct_error key_error index_error : Error
  auth_too_short auth_bad_mac auth_sequence_break : Error
  protocol_error connection_error timeout_error : Error
  key_verification_error : Error

pub data Result {ℓ} (Value : Type ℓ) : Type ℓ where
  err : (raised : Error) → Result Value
  ok : (returned : Value) → Result Value

module _ {ℓ} {Value : Type ℓ} where
  abbrev value_or : Value → Result Value → Value
  value_or d (err raised) = d
  value_or d (ok returned) = returned

  pub Result-cases : (r : Result Value) → ((e : Error) × (r ≡ err e)) ⊎ ((a : Value) × (r ≡ ok a))
  Result-cases (err e) = inl (e, refl)
  Result-cases (ok a) = inr (a, refl)

  pub ok-injective : (a b : Value) → ok a ≡ ok b → a ≡ b
  ok-injective a b e = ap (value_or a) e

-- `if not test: raise e`
abbrev pub require : Bool → Error → Result (Unit {0})
require test e = elim test [ false ↦ err e | true ↦ ok tt ]

-- The statement, and then the rest of the code unless it raised.
module _ {ℓ κ} {Value : Type ℓ} {Next : Type κ} where
  infixl 5 ◌>>=◌
  abbrev pub ◌>>=◌ : Result Value → (Value → Result Next) → Result Next
  ◌>>=◌ (err raised) rest = err raised
  ◌>>=◌ (ok returned) rest = rest returned

  -- Code that returns has returned at its first statement.
  pub >>=-eq-ok :
      (code : Result Value) (rest : Value → Result Next) {result : Next}
      → (code >>= rest) ≡ ok result
      → (x : Value) × (code ≡ ok x) × (rest x ≡ ok result)
  >>=-eq-ok (err raised) rest e = absurd (cc)
  >>=-eq-ok (ok x) rest e = (x, refl, e)

module _ {κ} {Next : Type κ} where
  infixl 5 ◌>>◌
  abbrev pub ◌>>◌ : Result (Unit {0}) → Result Next → Result Next
  ◌>>◌ (err raised) rest = err raised
  ◌>>◌ (ok returned) rest = rest
