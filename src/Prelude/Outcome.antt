-- ===== src/Prelude/Outcome.antt =====
-- The outcome of code that may throw, or of a loop that is given fuel.
use mathlib.Core.Path.{◌≡◌, refl}

-- `throws` is a C++ exception or a failed assertion; `out_of_fuel` has no counterpart in the code.
pub data Result {ℓ} (Value : Type ℓ) : Type ℓ where
  throws : Result Value
  out_of_fuel : Result Value
  ok : Value → Result Value

module _ {ℓ κ} {Value : Type ℓ} {Next : Type κ} where
  infixl 5 ◌>>=◌ ◌>>◌
  -- Statements in sequence: the second one sees the value of the first.
  abbrev pub ◌>>=◌ : Result Value → (Value → Result Next) → Result Next
  throws >>= next = throws
  out_of_fuel >>= next = out_of_fuel
  ok v >>= next = next v

  abbrev pub ◌>>◌ : Result Value → Result Next → Result Next
  first >> second = first >>= λ v. second

  -- If a sequence returns, its first statement did.
  pub returned_first :
      (first : Result Value) (next : Value → Result Next) {n : Next}
      → (first >>= next) ≡ ok n
      → (v : Value) × (first ≡ ok v) × (next v ≡ ok n)
  returned_first throws next e = cc
  returned_first out_of_fuel next e = cc
  returned_first (ok v) next e = (v, refl, e)

pub ok-injective {ℓ} : {Value : Type ℓ} {v w : Value} → ok v ≡ ok w → v ≡ w
ok-injective e = cc
