-- ===== src/Common/Errors.antt =====
-- Go's errors, and a value with an error.
use Prim.Native.Nat.{ℕ}
use pre_scaling_operator.Common.Strings.{Text}

-- The error types that the program tells apart by `switch err.(type)`; any other error is `plain`.
pub data Error : Type 0 where
  not_found : Text → Error
  too_many : Text → ℕ → Error
  plain : Text → Error

-- err.Error()
unfoldable pub message : Error → Text
message (not_found msg) = msg
message (too_many msg count) = msg
message (plain msg) = msg

-- A value with a nil error, or an error.
pub data Result {ℓ} (A : Type ℓ) : Type ℓ where
  ok : A → Result A
  err : Error → Result A

infixl 5 ◌>>=◌
abbrev pub ◌>>=◌ {ℓ κ} : {A : Type ℓ} {B : Type κ} → Result A → (A → Result B) → Result B
ok a >>= f = f a
err e >>= f = err e
