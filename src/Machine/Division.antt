-- ===== src/Machine/Division.antt =====
-- The quotient and the remainder of integers (vm/vm.go, executeBinaryIntegerOperation).
use sydney.Base.{
  ℕ, ◌+◌, ◌-◌, ◌*◌, ◌/◌, ◌%◌, ◌<◌, ◌≤◌, ◌≡◌, ◌≢◌, Bool, false, ◌==◌, if◌then◌else◌, Bool-cases, inl,
  inr, ok, ◌>>=◌, arith, ap, ◌∙◌, sym,
}
use native.Mathlib.Nat.{div-add-mod, div-le_self}
use sydney.Code.{Opcode}
use sydney.Machine.{FloatOps, integer, binary, binary_integer}
use sydney.Machine.Word.{
  modulus, half, add, mul, neg, is_negative, magnitude, quotient, remainder, signs_differ,
}

distrib : (u x y : ℕ) → (u + x) * y ≡ u * y + x * y
distrib u x y = omega arith

mul_comm : (x y : ℕ) → x * y ≡ y * x
mul_comm x y = omega arith

neg-neg : (s : ℕ) → neg (neg (s % modulus)) ≡ s % modulus
unfolding neg
neg-neg s = omega arith

mod_of : (t w k : ℕ) → t ≡ modulus * k + w → w % modulus ≡ t % modulus
mod_of t w k e = omega (arith, e)

split : (u : ℕ) → u ≡ modulus * (u / modulus) + u % modulus
split u = omega arith

-- A factor may be taken modulo the modulus.
mod-mul : (u y : ℕ) → ((u % modulus) * y) % modulus ≡ (u * y) % modulus
mod-mul u y =
    mod_of (u * y) ((u % modulus) * y) ((u / modulus) * y)
      (ap (λ z. z * y) (split u) ∙ distrib (modulus * (u / modulus)) (u % modulus) y ∙ omega arith)

complement : (w p y : ℕ) → w + p ≡ modulus * y → w % modulus ≡ neg (p % modulus)
unfolding neg
complement w p y e = omega (arith, e)

-- The complement of a number times another is the complement of the product.
mul-complement : (x y : ℕ) → x ≤ modulus → ((modulus - x) * y) % modulus ≡ neg ((x * y) % modulus)
mul-complement x y hx =
    complement ((modulus - x) * y) (x * y) y
      (sym (distrib (modulus - x) x y) ∙ ap (λ z. z * y) (omega (arith, hx)))

-- Both complements: the signs cancel.
mul-complements :
    (x y : ℕ)
    → x ≤ modulus
    → y ≤ modulus
    → ((modulus - x) * (modulus - y)) % modulus ≡ (x * y) % modulus
mul-complements x y hx hy =
    mul-complement x (modulus - y) hx
    ∙ ap (λ z. neg (z % modulus)) (mul_comm x (modulus - y))
    ∙ ap neg (mul-complement y x hy)
    ∙ ap (λ z. neg (neg (z % modulus))) (mul_comm y x)
    ∙ neg-neg (x * y)

-- The parts of a division of magnitudes.
quotient_at :
    (a b : ℕ) {s : Bool}
    → signs_differ (is_negative a) (is_negative b) ≡ s
    → quotient a b
      ≡ (if s then neg (magnitude a / magnitude b) else (magnitude a / magnitude b) % modulus)
unfolding quotient
quotient_at a b e = rw e

div-mul : (a b : ℕ) → (a / b) * b + a % b ≡ a
div-mul a b = omega (arith, div-add-mod a b)

-- The same for a divisor that is itself the complement of its magnitude.
mul-magnitude : (x b : ℕ) → b ≤ modulus → (x * b) % modulus ≡ neg ((x * (modulus - b)) % modulus)
mul-magnitude x b hb =
    ap (λ z. (x * z) % modulus) (omega (arith, hb))
    ∙ ap (λ z. z % modulus) (mul_comm x (modulus - (modulus - b)))
    ∙ mul-complement (modulus - b) x (omega arith)
    ∙ ap (λ z. neg (z % modulus)) (mul_comm (modulus - b) x)

mul-magnitudes :
    (x b : ℕ)
    → x ≤ modulus
    → b ≤ modulus
    → ((modulus - x) * b) % modulus ≡ (x * (modulus - b)) % modulus
mul-magnitudes x b hx hb =
    ap (λ z. ((modulus - x) * z) % modulus) (omega (arith, hb))
    ∙ mul-complements x (modulus - b) hx (omega arith)

-- The four ways in which a product and a remainder add up to the dividend.
add_up : (p r a : ℕ) → p + r ≡ a → a < modulus → (p % modulus + r) % modulus ≡ a
add_up p r a e h = omega (arith, e, h)

add_up_neg :
    (p r a : ℕ)
    → p + r ≡ modulus - a
    → a < modulus
    → half ≤ a
    → (neg (p % modulus) + neg r) % modulus ≡ a
unfolding neg
add_up_neg p r a e h hn = omega (arith, e, h, hn)

-- With the remainder added, the quotient times the divisor is the dividend.
pub add-mul-quotient :
    (a b : ℕ) → a < modulus → b < modulus → add (mul (quotient a b) b) (remainder a b) ≡ a
unfolding add mul quotient remainder
add-mul-quotient a b ha hb = elim (Bool-cases (is_negative a)) [
  | inl na ↦ elim (Bool-cases (is_negative b)) [
    | inl nb ↦
        rw
          (
            na,
            nb,
            mod-mul ((modulus - a) / (modulus - b)) b,
            mul-magnitude ((modulus - a) / (modulus - b)) b (omega (arith, hb)),
          )
          (add_up_neg _ _ a (div-mul (modulus - a) (modulus - b)) ha (ground arith))
    | inr nb ↦
        rw
          (
            na,
            nb,
            mod-mul (modulus - (modulus - a) / b) b,
            mul-complement ((modulus - a) / b) b (omega (arith, div-le_self (modulus - a) b)),
          )
          (add_up_neg _ _ a (div-mul (modulus - a) b) ha (ground arith))
  ]
  | inr na ↦ elim (Bool-cases (is_negative b)) [
    | inl nb ↦
        rw
          (
            na,
            nb,
            mod-mul (modulus - a / (modulus - b)) b,
            mul-magnitudes (a / (modulus - b)) b (omega (arith, div-le_self a (modulus - b), ha))
                (omega (arith, hb)),
          )
          (add_up _ _ a (div-mul a (modulus - b)) ha)
    | inr nb ↦ rw (na, nb, mod-mul (a / b) b) (add_up _ _ a (div-mul a b) ha)
  ]
]

not_zero : (b : ℕ) → b ≢ 0 → (b == 0) ≡ false
not_zero b h = ground arith

-- For two words of which the second is not 0, `/`, `*`, `%` and `+` as the machine computes them give
-- the dividend back: the quotient times the divisor, plus the remainder.
pub binary-division :
    {F : Type 0} (fl : FloatOps F) (a b : ℕ)
    → a < modulus
    → b < modulus
    → b ≢ 0
    → (do
      q ← binary fl Opcode.op_div (integer a) (integer b)
      p ← binary fl Opcode.op_mul q (integer b)
      r ← binary fl Opcode.op_modulo (integer a) (integer b)
      binary fl Opcode.op_add p r)
      ≡ ok (integer a)
unfolding binary binary_integer
binary-division fl a b ha hb h =
    rw (not_zero b h) (ap (λ z. ok (integer z)) (add-mul-quotient a b ha hb))
