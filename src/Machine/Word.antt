-- ===== src/Machine/Word.antt =====
-- Go's `int64` as a 64-bit word, in two's complement (the arithmetic of vm/vm.go).
use sydney.Base.{ℕ, ◌+◌, ◌-◌, ◌*◌, ◌/◌, ◌%◌, Bool, true, false, ltb, leb, if◌then◌else◌}

abbrev pub modulus : ℕ
modulus = 18446744073709551616

-- The words from here on are negative.
abbrev pub half : ℕ
half = 9223372036854775808

unfoldable pub add : ℕ → ℕ → ℕ
add a b = (a + b) % modulus

unfoldable pub neg : ℕ → ℕ
neg a = (modulus - a) % modulus

unfoldable pub sub : ℕ → ℕ → ℕ
sub a b = (a + (modulus - b)) % modulus

unfoldable pub mul : ℕ → ℕ → ℕ
mul a b = (a * b) % modulus

abbrev pub is_negative : ℕ → Bool
is_negative a = leb half a

abbrev pub magnitude : ℕ → ℕ
magnitude a = if is_negative a then modulus - a else a

-- The sign of a quotient is negative where the signs differ.
abbrev pub signs_differ : Bool → Bool → Bool
signs_differ true true = false
signs_differ false false = false
signs_differ _ _ = true

-- `/` and `%` cut towards zero; the remainder has the sign of the dividend.
unfoldable pub quotient : ℕ → ℕ → ℕ
unfolding neg
quotient a b =
    if signs_differ (is_negative a) (is_negative b)
    then neg (magnitude a / magnitude b)
    else (magnitude a / magnitude b) % modulus

unfoldable pub remainder : ℕ → ℕ → ℕ
unfolding neg
remainder a b = if is_negative a then neg (magnitude a % magnitude b) else magnitude a % magnitude b

-- `>`: with the sign bit turned over the words are in order.
abbrev pub flip : ℕ → ℕ
flip a = (a + half) % modulus

unfoldable pub greater : ℕ → ℕ → Bool
greater a b = ltb (flip b) (flip a)
