-- ===== src/Machine/Order.antt =====
-- vm/vm.go, executeComparison: the order of integers.
use sydney.Base.{
  ℕ, ◌-◌, ◌<◌, ◌≡◌, Bool, true, false, not, ltb, if◌then◌else◌, ok, arith, ap, ℤ, pos, negsuc,
}
use sydney.Code.{Opcode}
use sydney.Machine.Word.{modulus, is_negative, greater}
use sydney.Machine.{FloatOps, integer, comparison, ordered_comparison}

-- The number that a word stands for.
abbrev pub signed : ℕ → ℤ
signed a = if is_negative a then negsuc (modulus - 1 - a) else pos a

-- `<` on signed numbers
abbrev pub below : ℤ → ℤ → Bool
below (pos a) (pos b) = ltb a b
below (pos a) (negsuc b) = false
below (negsuc a) (pos b) = true
below (negsuc a) (negsuc b) = ltb b a

greater-signed : (a b : ℕ) → a < modulus → b < modulus → greater a b ≡ below (signed b) (signed a)
unfolding greater
greater-signed a b ha hb = ground arith

-- On two words, `>` and `>=` of `executeComparison` are those of the signed numbers that the words
-- stand for.
pub comparison-signed :
    {F : Type 0} (fl : FloatOps F) (a b : ℕ)
    → a < modulus
    → b < modulus
    → (comparison fl Opcode.op_gt (integer a) (integer b) ≡ ok (below (signed b) (signed a)))
      × (comparison fl Opcode.op_gte (integer a) (integer b)
          ≡ ok (not (below (signed a) (signed b))))
unfolding comparison ordered_comparison
comparison-signed fl a b ha hb =
    (ap ok (greater-signed a b ha hb), ap (λ x. ok (not x)) (greater-signed b a hb ha))
