-- ===== src/Base/Outcome.antt =====
-- What a call ends in. Exceptions are values; the text of a message, which is only printed, is
-- left out. `undefined` is behaviour that C++ leaves undefined; `no_fuel` is a loop cut short.
use mathlib.Core.Path.{◌≡◌, refl}
use mathlib.Core.Bool.{Bool, true, false}

pub data Exception : Type 0 where
  http_request_parse_error connection_closed connection_error : Exception
  listener_error runtime_error out_of_range invalid_argument : Exception

-- The classes of `catch (runtime_error&)`: `std::out_of_range` and `std::invalid_argument` are
-- logic errors.
abbrev pub is_runtime_error : Exception → Bool
is_runtime_error out_of_range = false
is_runtime_error invalid_argument = false
is_runtime_error _ = true

pub data Result {ℓ} (A : Type ℓ) : Type ℓ where
  ok : A → Result A
  throw : Exception → Result A
  undefined : Result A
  no_fuel : Result A

infixl 5 ◌>>=◌ ◌>>◌
abbrev pub ◌>>=◌ {ℓ κ} : {A : Type ℓ} {B : Type κ} → Result A → (A → Result B) → Result B
undefined >>= rest = undefined
no_fuel >>= rest = no_fuel
throw exception >>= rest = throw exception
ok x >>= rest = rest x

abbrev pub ◌>>◌ {ℓ} : {B : Type ℓ} → Result (Unit {0}) → Result B → Result B
first >> rest = first >>= λ _. rest

-- Goes on, or throws.
abbrev pub check : Bool → Exception → Result (Unit {0})
check true e = ok tt
check false e = throw e

-- A chain of calls that returns is one whose first call returned.
pub >>=-eq-ok {ℓ κ} :
    {A : Type ℓ} {B : Type κ} (first : Result A) (rest : A → Result B) {y : B}
    → (first >>= rest) ≡ ok y
    → (x : A) × (first ≡ ok x) × (rest x ≡ ok y)
>>=-eq-ok undefined rest e = cc
>>=-eq-ok no_fuel rest e = cc
>>=-eq-ok (throw exception) rest e = cc
>>=-eq-ok (ok x) rest e = (x, refl, e)
