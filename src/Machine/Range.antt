-- ===== src/Machine/Range.antt =====
-- vm/vm.go, executeBinaryOperation and executeMinusOperator: the numbers that the operators on integers
-- and on bytes give.
use sydney.Base.{ℕ, ◌+◌, ◌-◌, ◌*◌, ◌/◌, ◌<◌, ◌≡◌, refl, Result, ok, arith}
use sydney.Code.{Opcode}
use sydney.Machine.{
  Object, FloatOps, integer, byte_value, binary_integer, binary_byte, binary, minus,
}
use sydney.Machine.Word.{modulus, add, sub, mul, neg}

-- Two numbers that differ by a multiple of a width.
abbrev pub Congruent : ℕ → ℕ → ℕ → Type 0
Congruent w m n = (p : ℕ) × (q : ℕ) × (m + p * w ≡ n + q * w)

module _ {F : Type 0} where
  -- The result is a number below a width, of which a property holds.
  abbrev pub Gives : Result (Object F) → (ℕ → Object F) → ℕ → (ℕ → Type 0) → Type 0
  Gives r make w P = (c : ℕ) × (r ≡ ok (make c)) × (c < w) × P c

  -- Of two words and of two bytes: their sum, their difference (which is the number that with the
  -- second gives the first), for words their product, and the opposite of a word.
  pub binary-Gives :
      (fl : FloatOps F) (a b x y : ℕ)
      → a < modulus
      → b < modulus
      → x < 256
      → y < 256
      → Gives
          (binary fl Opcode.op_add (integer a) (integer b))
          integer
          modulus
          (λ c. Congruent modulus c (a + b))
        × Gives
            (binary fl Opcode.op_sub (integer a) (integer b))
            integer
            modulus
            (λ c. Congruent modulus (c + b) a)
        × Gives
            (binary fl Opcode.op_mul (integer a) (integer b))
            integer
            modulus
            (λ c. Congruent modulus c (a * b))
        × Gives (minus fl (integer a)) integer modulus (λ c. Congruent modulus (c + a) 0)
        × Gives
            (binary fl Opcode.op_add (byte_value x) (byte_value y))
            byte_value
            256
            (λ c. Congruent 256 c (x + y))
        × Gives
            (binary fl Opcode.op_sub (byte_value x) (byte_value y))
            byte_value
            256
            (λ c. Congruent 256 (c + y) x)
  unfolding binary binary_integer binary_byte minus add sub mul neg
  binary-Gives fl a b x y word_a word_b byte_x byte_y = (
    (_, refl, omega arith, ((a + b) / modulus, 0, omega arith)),
    (_, refl, omega arith, ((a + (modulus - b)) / modulus, 1, omega (arith, word_b))),
    (_, refl, omega arith, (a * b / modulus, 0, omega arith)),
    (_, refl, omega arith, ((modulus - a) / modulus, 1, omega (arith, word_a))),
    (_, refl, omega arith, ((x + y) / 256, 0, omega arith)),
    (_, refl, omega arith, ((x + (256 - y)) / 256, 1, omega (arith, byte_y))),
  )
