-- ===== src/Base/Outcome.antt =====
-- What a call of the C++ code does: it returns, throws, stops at a contract check of gsl-lite
-- (`Expects`, `Ensures`), or has undefined behaviour.
use mathlib.Core.Path.{◌≡◌}
use mathlib.Core.Bool.{Bool, true, false}

-- The exceptions that the modelled code throws.
pub data Error : Type 0 where
  invalid_argument system_error logic_error out_of_range runtime_error parse_error bad_access
        bad_optional_access :
      Error

pub data Run {ℓ} (A : Type ℓ) : Type ℓ where
  ok : A → Run A
  throws : Error → Run A
  violation : Run A
  undefined : Run A

-- The call, and if it returns what comes behind it.
infixl 5 ◌>>=◌ ◌>>◌
abbrev pub ◌>>=◌ {ℓ κ} : {A : Type ℓ} {B : Type κ} → Run A → (A → Run B) → Run B
undefined >>= next = undefined
violation >>= next = violation
throws e >>= next = throws e
ok v >>= next = next v

abbrev pub ◌>>◌ {ℓ} : {B : Type ℓ} → Run (Unit {0}) → Run B → Run B
check >> next = check >>= λ done. next

-- `Expects(b)` and `Ensures(b)`.
abbrev pub expects : Bool → Run (Unit {0})
expects false = violation
expects true = ok tt

pub ok-injective {ℓ} : {A : Type ℓ} {v w : A} → ok v ≡ ok w → v ≡ w
ok-injective same = cc
