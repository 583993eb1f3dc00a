-- ===== src/Machine/Balanced.antt =====
-- vm/vm.go, executeBinaryOperation: the stack before and behind an operator.
use sydney.Base.{
  ℕ, suc, ◌<◌, ◌≡◌, refl, some, length, get_elem?, set, ◌==◌, if_intro, Bool-cases, inl, inr,
  String, Result, ok, err, panic, ◌>>=◌, arith, ap,
}
use sydney.Code.{Opcode}
use sydney.Scheduler.{Fiber, stack_size}
use sydney.Machine.{
  Object, FloatOps, kind, integer, float, string, byte_value, push, pop, binary_integer,
  binary_float, binary_string, binary_byte, binary, execute_binary_operation,
}

module _ {V : Type 0} where
  pub pop-eq :
      (f : Fiber V) (n : ℕ) (v : V)
      → f.sp ≡ suc n
      → get_elem? f.stack n ≡ some v
      → pop f ≡ ok (v, record f { sp = n })
  unfolding pop
  pop-eq f n v at top = ground (arith, at, top)

  pub push-eq :
      (f : Fiber V) (v : V)
      → f.sp < stack_size
      → length f.stack ≡ stack_size
      → push v f ≡ ok (record f { stack = set f.stack f.sp v; sp = suc f.sp })
  unfolding push
  push-eq f v room full = ground arith

module _ {F : Type 0} where
  -- The outcome of an operator on two objects: an object of their type, or an error, or, of `%` by
  -- the integer 0 alone, a panic.
  abbrev Kept : Opcode → Object F → Object F → Result (Object F) → Type 0
  Kept op l r (ok v) = (kind v ≡ kind l) × (kind l ≡ kind r)
  Kept op l r (err e) = Unit
  Kept op l r panic = (op ≡ Opcode.op_modulo) × (r ≡ integer 0)

  binary_integer-Kept :
      (fl : FloatOps F) (op : Opcode) (a b : ℕ)
      → Kept op (integer a) (integer b) (binary_integer op a b)
  unfolding binary_integer
  binary_integer-Kept fl Opcode.op_div a b =
      if_intro (Kept Opcode.op_div (integer a) (integer b)) (b == 0) tt (refl, refl)
  binary_integer-Kept fl Opcode.op_modulo a b = elim (Bool-cases (b == 0)) [
    | inl e ↦ rw e (refl, ap integer (ground arith))
    | inr e ↦ rw e (refl, refl)
  ]
  binary_integer-Kept fl Opcode.op_add a b = (refl, refl)
  binary_integer-Kept fl Opcode.op_sub a b = (refl, refl)
  binary_integer-Kept fl Opcode.op_mul a b = (refl, refl)
  binary_integer-Kept fl _ a b = tt

  binary_float-Kept :
      (fl : FloatOps F) (op : Opcode) (a b : F)
      → Kept op (float a) (float b) (binary_float fl op a b)
  unfolding binary_float
  binary_float-Kept fl Opcode.op_div a b =
      if_intro (Kept Opcode.op_div (float a) (float b)) (fl.is_zero b) tt (refl, refl)
  binary_float-Kept fl Opcode.op_add a b = (refl, refl)
  binary_float-Kept fl Opcode.op_sub a b = (refl, refl)
  binary_float-Kept fl Opcode.op_mul a b = (refl, refl)
  binary_float-Kept fl _ a b = tt

  binary_string-Kept :
      (fl : FloatOps F) (op : Opcode) (a b : String)
      → Kept op (string a) (string b) (binary_string op a b)
  unfolding binary_string
  binary_string-Kept fl Opcode.op_add a b = (refl, refl)
  binary_string-Kept fl _ a b = tt

  binary_byte-Kept :
      (fl : FloatOps F) (op : Opcode) (a b : ℕ)
      → Kept op (byte_value a) (byte_value b) (binary_byte op a b)
  unfolding binary_byte
  binary_byte-Kept fl Opcode.op_add a b = (refl, refl)
  binary_byte-Kept fl Opcode.op_sub a b = (refl, refl)
  binary_byte-Kept fl _ a b = tt

  binary-Kept : (fl : FloatOps F) (op : Opcode) (l r : Object F) → Kept op l r (binary fl op l r)
  unfolding binary
  binary-Kept fl op (integer a) (integer b) = binary_integer-Kept fl op a b
  binary-Kept fl op (float a) (float b) = binary_float-Kept fl op a b
  binary-Kept fl op (string a) (string b) = binary_string-Kept fl op a b
  binary-Kept fl op (byte_value a) (byte_value b) = binary_byte-Kept fl op a b
  binary-Kept fl op _ _ = tt

  pub execute_binary_operation-eq :
      (fl : FloatOps F) (op : Opcode) (f : Fiber (Object F)) (n : ℕ) (l r : Object F)
      → f.sp ≡ suc (suc n)
      → get_elem? f.stack n ≡ some l
      → get_elem? f.stack (suc n) ≡ some r
      → execute_binary_operation fl op f ≡ (binary fl op l r >>= λ v. push v (record f { sp = n }))
  unfolding execute_binary_operation
  execute_binary_operation-eq fl op f n l r at under top =
      rw (pop-eq f (suc n) r at top, pop-eq (record f { sp = suc n }) n l refl under)

  -- What `executeBinaryOperation` gives on a stack whose two top objects are `l` and `r`.
  abbrev pub Balanced :
      Opcode → Fiber (Object F) → ℕ → Object F → Object F → Result (Fiber (Object F)) → Type 0
  Balanced op f n l r (ok f') =
      (v : Object F) × (f' ≡ record f { stack = set f.stack n v; sp = suc n })
      × (kind v ≡ kind l)
      × (kind l ≡ kind r)
  Balanced op f n l r (err e) = Unit
  Balanced op f n l r panic = (op ≡ Opcode.op_modulo) × (r ≡ integer 0)

  push-Balanced :
      (op : Opcode) (f : Fiber (Object F)) (n : ℕ) (l r : Object F) (m : Result (Object F))
      → n < stack_size
      → length f.stack ≡ stack_size
      → Kept op l r m
      → Balanced op f n l r (m >>= λ v. push v (record f { sp = n }))
  push-Balanced op f n l r (ok v) room full (same, alike) =
      rw (push-eq (record f { sp = n }) v room full) (v, refl, same, alike)
  push-Balanced op f n l r (err e) room full k = tt
  push-Balanced op f n l r panic room full k = k

  -- On a stack with two objects on top, `executeBinaryOperation` puts one object in their place, of
  -- the type that both have, and leaves the rest of the stack; or it gives an error; or it panics,
  -- and this for `%` by the integer 0 alone.
  pub execute_binary_operation-Balanced :
      (fl : FloatOps F) (op : Opcode) (f : Fiber (Object F)) (n : ℕ) (l r : Object F)
      → f.sp ≡ suc (suc n)
      → f.sp < suc stack_size
      → length f.stack ≡ stack_size
      → get_elem? f.stack n ≡ some l
      → get_elem? f.stack (suc n) ≡ some r
      → Balanced op f n l r (execute_binary_operation fl op f)
  execute_binary_operation-Balanced fl op f n l r at room full under top =
      rw (execute_binary_operation-eq fl op f n l r at under top) (
        push-Balanced op f n l r (binary fl op l r) (omega (arith, at, room)) full
          (binary-Kept fl op l r))
