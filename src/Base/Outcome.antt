-- ===== src/Base/Outcome.antt =====
-- The result of a Go call: a value, an error value (with the message that the source formats), or a
-- run-time panic (an index out of range, a failed type assertion, an explicit `panic`).
use Prim.Native.String.{String}
use mathlib.Core.Option.{Option, none, some}

pub data Result {ℓ} (A : Type ℓ) : Type ℓ where
  ok : A → Result A
  err : String → Result A
  panic : Result A

-- Go's `if err != nil { return err }` after a call.
infixl 5 ◌>>=◌
abbrev pub ◌>>=◌ {ℓ κ} : {A : Type ℓ} {B : Type κ} → Result A → (A → Result B) → Result B
panic >>= next = panic
err message >>= next = err message
ok value >>= next = next value

-- An access that panics where there is nothing.
abbrev pub or_panic {ℓ} : {A : Type ℓ} → Option A → Result A
or_panic none = panic
or_panic (some a) = ok a
