-- ===== src/Machine.antt =====
-- vm/vm.go: the stack of the running fiber, and the operators that runFiber applies to the values
-- on top of it. An `int64` is its 64-bit word, a number below 2 ^ 64; the operations on floats are a
-- parameter, as the language gives them. A boolean has a pointer, for `==` on objects compares
-- pointers; every other object is its type's name and its pointer. Maps and arrays are not here.
pub mod Word
pub mod Balanced
pub mod Order
pub mod Division
pub mod Range
use Prim.Native.String.{◌++◌ as ◌<>◌}
use sydney.Base.{
  ℕ, zero, suc, ◌+◌, ◌-◌, ◌%◌, ◌*◌, ◌^◌, String, Bool, true, false, ◌&&◌, ◌||◌, not, length,
  get_elem?, set, ltb, ◌==◌, str_eq, if◌then◌else◌, Result, ok, err, panic, ◌>>=◌, or_panic,
}
use sydney.Code.{Opcode}
use sydney.Scheduler.{Fiber, stack_size}
use sydney.Machine.Word.{add, sub, mul, neg, quotient, remainder, greater}

pub data Kind : Type 0 where
  integer_obj float_obj string_obj boolean_obj byte_obj : Kind
  other_obj : String → Kind

pub data Object (F : Type 0) : Type 0 where
  integer : ℕ → Object F
  float : F → Object F
  string : String → Object F
  boolean : ℕ → Bool → Object F
  byte_value : ℕ → Object F
  other : String → ℕ → Object F

-- What the language does on floats.
pub record FloatOps (F : Type 0) : Type 0 where
  pub plus : F → F → F
  pub minus : F → F → F
  pub times : F → F → F
  pub over : F → F → F
  pub negate : F → F
  pub equal : F → F → Bool
  pub above : F → F → Bool
  pub at_least : F → F → Bool
  pub is_zero : F → Bool

module _ {V : Type 0} where
  -- `push`
  unfoldable pub push : V → Fiber V → Result (Fiber V)
  push o f =
      if ltb f.sp stack_size
      then if ltb f.sp (length f.stack)
        then ok (record f { stack = set f.stack f.sp o; sp = suc f.sp })
        else panic
      else err "stack overflow"

  -- `pop`
  unfoldable pub pop : Fiber V → Result (V × Fiber V)
  pop f =
      if ltb 0 f.sp
      then (do o ← or_panic (get_elem? f.stack (f.sp - 1)); ok (o, record f { sp = f.sp - 1 }))
      else panic

abbrev same_kind : Kind → Kind → Bool
same_kind Kind.integer_obj Kind.integer_obj = true
same_kind Kind.float_obj Kind.float_obj = true
same_kind Kind.string_obj Kind.string_obj = true
same_kind Kind.boolean_obj Kind.boolean_obj = true
same_kind Kind.byte_obj Kind.byte_obj = true
same_kind (Kind.other_obj a) (Kind.other_obj b) = str_eq a b
same_kind _ _ = false

-- `executeIntegerComparison` and `executeByteComparision`, by the order of their numbers.
unfoldable pub ordered_comparison : (ℕ → ℕ → Bool) → Opcode → ℕ → ℕ → Result Bool
ordered_comparison above Opcode.op_equal a b = ok (a == b)
ordered_comparison above Opcode.op_not_equal a b = ok (not (a == b))
ordered_comparison above Opcode.op_gt a b = ok (above a b)
ordered_comparison above Opcode.op_gte a b = ok (not (above b a))
ordered_comparison above _ a b = err "unknown operator"

-- `executeStringComparison`
unfoldable pub string_comparison : Opcode → String → String → Result Bool
string_comparison Opcode.op_equal a b = ok (str_eq a b)
string_comparison Opcode.op_not_equal a b = ok (not (str_eq a b))
string_comparison _ a b = err "unknown string operator"

module _ {F : Type 0} where
  -- `Type`
  abbrev pub kind : Object F → Kind
  kind (integer n) = Kind.integer_obj
  kind (float x) = Kind.float_obj
  kind (string s) = Kind.string_obj
  kind (boolean p b) = Kind.boolean_obj
  kind (byte_value n) = Kind.byte_obj
  kind (other name p) = Kind.other_obj name

  -- The objects `True` and `False` of the machine.
  abbrev pub native_bool : Bool → Object F
  native_bool true = boolean 1 true
  native_bool false = boolean 0 false

  abbrev pub is_truthy : Object F → Bool
  is_truthy (boolean p b) = b
  is_truthy _ = true

  -- `executeBinaryIntegerOperation`, up to its push.
  unfoldable pub binary_integer : Opcode → ℕ → ℕ → Result (Object F)
  binary_integer Opcode.op_add a b = ok (integer (add a b))
  binary_integer Opcode.op_sub a b = ok (integer (sub a b))
  binary_integer Opcode.op_mul a b = ok (integer (mul a b))
  binary_integer Opcode.op_div a b =
      if b == 0 then err "division by zero" else ok (integer (quotient a b))
  binary_integer Opcode.op_modulo a b = if b == 0 then panic else ok (integer (remainder a b))
  binary_integer _ a b = err "unknown integer operator"

  -- `executeBinaryFloatOperation`
  unfoldable pub binary_float : FloatOps F → Opcode → F → F → Result (Object F)
  binary_float fl Opcode.op_add a b = ok (float (fl.plus a b))
  binary_float fl Opcode.op_sub a b = ok (float (fl.minus a b))
  binary_float fl Opcode.op_mul a b = ok (float (fl.times a b))
  binary_float fl Opcode.op_div a b =
      if fl.is_zero b then err "division by zero" else ok (float (fl.over a b))
  binary_float fl _ a b = err "unknown float operator"

  -- `executeBinaryStringOperation`
  unfoldable pub binary_string : Opcode → String → String → Result (Object F)
  binary_string Opcode.op_add a b = ok (string (a <> b))
  binary_string _ a b = err "unknown string operator"

  -- `executeBinaryByteOperation`: a byte wraps at 256.
  unfoldable pub binary_byte : Opcode → ℕ → ℕ → Result (Object F)
  binary_byte Opcode.op_add a b = ok (byte_value ((a + b) % 256))
  binary_byte Opcode.op_sub a b = ok (byte_value ((a + (256 - b)) % 256))
  binary_byte _ a b = err "unknown byte operator"

  unfoldable pub binary : FloatOps F → Opcode → Object F → Object F → Result (Object F)
  binary fl op (integer a) (integer b) = binary_integer op a b
  binary fl op (float a) (float b) = binary_float fl op a b
  binary fl op (string a) (string b) = binary_string op a b
  binary fl op (byte_value a) (byte_value b) = binary_byte op a b
  binary fl op _ _ = err "unsupported types for binary operation"

  -- `executeBinaryOperation`
  unfoldable pub execute_binary_operation :
      FloatOps F → Opcode → Fiber (Object F) → Result (Fiber (Object F))
  execute_binary_operation fl op f = do
    (right, f1) ← pop f
    (left, f2) ← pop f1
    v ← binary fl op left right
    push v f2

  -- `left == right` on objects of which at most booleans have one type: the pointers are compared.
  abbrev same_object : Object F → Object F → Bool
  same_object (boolean p a) (boolean q b) = p == q
  same_object _ _ = false

  abbrev is_boolean : Object F → Bool
  is_boolean (boolean p b) = true
  is_boolean _ = false

  -- `executeFloatComparison`
  unfoldable pub float_comparison : FloatOps F → Opcode → F → F → Result Bool
  float_comparison fl Opcode.op_equal a b = ok (fl.equal a b)
  float_comparison fl Opcode.op_not_equal a b = ok (not (fl.equal a b))
  float_comparison fl Opcode.op_gt a b = ok (fl.above a b)
  float_comparison fl Opcode.op_gte a b = ok (fl.at_least a b)
  float_comparison fl _ a b = err "unknown float operator"

  -- The last part of `executeComparison`.
  unfoldable pub object_comparison : Opcode → Object F → Object F → Result Bool
  object_comparison Opcode.op_equal l r = ok (same_object l r)
  object_comparison Opcode.op_not_equal l r = ok (not (same_object l r))
  object_comparison Opcode.op_and l r = ok (is_truthy l && is_truthy r)
  object_comparison Opcode.op_or l r = ok (is_truthy l || is_truthy r)
  object_comparison _ l r = err "unknown operator"

  unfoldable pub comparison : FloatOps F → Opcode → Object F → Object F → Result Bool
  comparison fl op (integer a) (integer b) = ordered_comparison greater op a b
  comparison fl op (float a) (float b) = float_comparison fl op a b
  comparison fl op (string a) (string b) = string_comparison op a b
  comparison fl op (byte_value a) (byte_value b) = ordered_comparison (λ x y. ltb y x) op a b
  comparison fl op l r =
      if same_kind (kind l) (kind r) && not (is_boolean l)
      then err "unknown operation"
      else object_comparison op l r

  -- `executeComparison`
  unfoldable pub execute_comparison :
      FloatOps F → Opcode → Fiber (Object F) → Result (Fiber (Object F))
  execute_comparison fl op f = do
    (right, f1) ← pop f
    (left, f2) ← pop f1
    b ← comparison fl op left right
    push (native_bool b) f2

  -- `executeBangOperator`; the first two cases compare pointers.
  unfoldable pub bang : FloatOps F → Object F → Bool
  bang fl (boolean p b) = p == 0
  bang fl (integer a) = a == 0
  bang fl (float x) = fl.is_zero x
  bang fl _ = false

  unfoldable pub execute_bang_operator : FloatOps F → Fiber (Object F) → Result (Fiber (Object F))
  execute_bang_operator fl f = do (operand, f1) ← pop f; push (native_bool (bang fl operand)) f1

  -- `executeMinusOperator`
  unfoldable pub minus : FloatOps F → Object F → Result (Object F)
  minus fl (integer a) = ok (integer (neg a))
  minus fl (float x) = ok (float (fl.negate x))
  minus fl _ = err "unsupported type for negation"

  unfoldable pub execute_minus_operator : FloatOps F → Fiber (Object F) → Result (Fiber (Object F))
  execute_minus_operator fl f = do (operand, f1) ← pop f; v ← minus fl operand; push v f1
