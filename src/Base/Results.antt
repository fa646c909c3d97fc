-- ===== src/Base/Results.antt =====
-- Exceptions as values. A constructor of `Error` is the class of the exception thrown.
-- `undefined` stands for what the language leaves undefined: `std::unreachable()`, `front()` of an
-- empty container, or an access outside a span.
use mathlib.Core.Bool.{Bool, true, false}

pub data Error : Type 0 where
  out_of_range invalid_argument logic_error undefined : Error

pub data Result {ℓ} (A : Type ℓ) : Type ℓ where
  err : Error → Result A
  ok : A → Result A

-- `if (!test) throw e;`
abbrev pub require : Bool → Error → Result (Unit {0})
require false e = err e
require true e = ok tt

-- What follows a call that may throw, with the value that the call returned.
infixl 5 ◌>>=◌
abbrev pub ◌>>=◌ {ℓ κ} : {T : Type ℓ} {U : Type κ} → Result T → (T → Result U) → Result U
err e >>= next = err e
ok t >>= next = next t

-- What follows a call that returns nothing.
infixl 5 ◌>>◌
abbrev pub ◌>>◌ {κ} : {U : Type κ} → Result (Unit {0}) → Result U → Result U
first >> second = first >>= λ done. second
