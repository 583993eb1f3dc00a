-- ===== src/Tests/Operators.antt =====
-- Tests of the modules on the operators of vm/vm.go.
use sydney.Base.{
  ℕ, suc, ◌+◌, ◌-◌, ◌*◌, ◌≡◌, refl, ◌∷◌, false, not, ltb, ◌==◌, replicate, length-replicate, ok,
  panic, ◌>>=◌, arith, ap,
}
use sydney.Code.{Opcode}
use sydney.Scheduler.{Fiber, FiberState}
use sydney.Machine.{
  byte_value, Object, FloatOps, integer, boolean, native_bool, binary, binary_integer,
  execute_binary_operation, comparison, object_comparison, bang, minus,
}
use sydney.Machine.Word.{modulus, quotient, remainder}
use sydney.Machine.Balanced.{Balanced, execute_binary_operation-Balanced}
use sydney.Machine.Order.{signed, below, comparison-signed}
use sydney.Machine.Range.{Congruent, Gives, binary-Gives}
use sydney.Machine.Division.{binary-division}

-- Whole numbers for the floats.
abbrev whole : FloatOps ℕ
whole = record {
  plus = λ a b. a + b;
  minus = λ a b. a - b;
  times = λ a b. a;
  over = λ a b. a;
  negate = λ a. a;
  equal = λ a b. a == b;
  above = λ a b. ltb b a;
  at_least = λ a b. not (ltb a b);
  is_zero = λ a. a == 0;
}

-- The words of -7 and -2.
abbrev minus_seven : ℕ
minus_seven = 18446744073709551609

abbrev minus_two : ℕ
minus_two = 18446744073709551614

quotient-cut : quotient minus_seven 2 ≡ 18446744073709551613
unfolding quotient
quotient-cut = refl

remainder-sign : remainder minus_seven 2 ≡ 18446744073709551615
unfolding remainder
remainder-sign = refl

-- The least number over -1 is itself.
least_number : quotient 9223372036854775808 18446744073709551615 ≡ 9223372036854775808
unfolding quotient
least_number = refl

modulo_zero : binary whole Opcode.op_modulo (integer 1) (integer 0) ≡ panic
unfolding binary binary_integer
modulo_zero = refl

-- A boolean that is not one of the machine's two objects equals neither of them, and is not turned.
strange_boolean : comparison whole Opcode.op_equal (boolean 2 false) (native_bool false) ≡ ok false
unfolding comparison object_comparison
strange_boolean = refl

strange_bang : bang whole (boolean 2 false) ≡ false
unfolding bang
strange_bang = refl

abbrev two_on_top : Fiber (Object ℕ)
two_on_top = record {
  stack = integer 7 ∷ integer 2 ∷ replicate 2046 (integer 0);
  sp = 2;
  state = FiberState.running;
}

execute_binary_operation-Balanced_example :
    Balanced Opcode.op_sub two_on_top 0
      (integer 7)
      (integer 2)
      (execute_binary_operation whole Opcode.op_sub two_on_top)
execute_binary_operation-Balanced_example =
    execute_binary_operation-Balanced whole Opcode.op_sub two_on_top 0 (integer 7) (integer 2) refl
      (omega arith) (ap (λ n. suc (suc n)) (length-replicate {A = Object ℕ} 2046 (integer 0))) refl
      refl

comparison-signed_example :
    (comparison whole Opcode.op_gt (integer 2) (integer minus_seven)
      ≡ ok (below (signed minus_seven) (signed 2)))
    × (comparison whole Opcode.op_gte (integer 2) (integer minus_seven)
        ≡ ok (not (below (signed 2) (signed minus_seven))))
comparison-signed_example = comparison-signed whole 2 minus_seven (omega arith) (omega arith)

binary-division_example :
    (do
      q ← binary whole Opcode.op_div (integer minus_seven) (integer minus_two)
      p ← binary whole Opcode.op_mul q (integer minus_two)
      r ← binary whole Opcode.op_modulo (integer minus_seven) (integer minus_two)
      binary whole Opcode.op_add p r)
    ≡ ok (integer minus_seven)
binary-division_example =
    binary-division whole minus_seven minus_two (omega arith) (omega arith) (omega arith)

binary-Gives_example :
    Gives
      (binary whole Opcode.op_add (integer minus_seven) (integer minus_two))
      integer
      modulus
      (λ c. Congruent modulus c (minus_seven + minus_two))
    × Gives
        (binary whole Opcode.op_sub (integer minus_seven) (integer minus_two))
        integer
        modulus
        (λ c. Congruent modulus (c + minus_two) minus_seven)
    × Gives
        (binary whole Opcode.op_mul (integer minus_seven) (integer minus_two))
        integer
        modulus
        (λ c. Congruent modulus c (minus_seven * minus_two))
    × Gives
        (minus whole (integer minus_seven))
        integer
        modulus
        (λ c. Congruent modulus (c + minus_seven) 0)
    × Gives
        (binary whole Opcode.op_add (byte_value 200) (byte_value 100))
        byte_value
        256
        (λ c. Congruent 256 c (200 + 100))
    × Gives
        (binary whole Opcode.op_sub (byte_value 200) (byte_value 100))
        byte_value
        256
        (λ c. Congruent 256 (c + 100) 200)
binary-Gives_example =
    binary-Gives whole minus_seven minus_two 200 100 (omega arith) (omega arith) (omega arith)
      (omega arith)
