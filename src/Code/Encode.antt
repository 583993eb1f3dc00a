-- ===== src/Code/Encode.antt =====
-- code/code.go: `Lookup`, `Make`, `ReadOperands`, `ReadUint16` and `ReadUint8`. An `Instructions`
-- is a list of bytes; a slice or an index out of range is a panic.
use mathlib.Core.Option
use sydney.Base.{
  ℕ, ◌+◌, ◌*◌, ◌/◌, ◌%◌, List, [], ◌∷◌, Option, none, some, length, set, drop, replicate, ◌==◌, ltb,
  if◌then◌else◌, ℤ, to_word, Result, ok, panic, ◌>>=◌,
}
use sydney.Code.{Definition, definition, of_byte}

-- `Lookup`: the definition of a byte, if it is an opcode.
unfoldable pub lookup : ℕ → Option Definition
lookup b = Option.map definition (of_byte b)

abbrev pub sum : List ℕ → ℕ
sum [] = 0
sum (w ∷ ws) = w + sum ws

-- One operand of the loop of `Make`, written at `offset`; other widths write nothing.
unfoldable pub put_operand : ℕ → ℤ → ℕ → List ℕ → List ℕ
put_operand width o offset ins =
    if width == 1
    then set ins offset (to_word 8 o)
    else if width == 2
    then set (set ins offset (to_word 16 o / 256)) (offset + 1) (to_word 16 o % 256)
    else ins

-- The loop of `Make`: an operand with no width left is an index out of range.
unfoldable pub write_operands : List ℕ → List ℤ → ℕ → List ℕ → Result (List ℕ)
write_operands ws [] offset ins = ok ins
write_operands [] (o ∷ os) offset ins = panic
write_operands (w ∷ ws) (o ∷ os) offset ins =
    write_operands ws os (offset + w) (put_operand w o offset ins)

make_with : ℕ → Option Definition → List ℤ → Result (List ℕ)
make_with op none os = ok []
make_with op (some def) os =
    write_operands def.operand_widths os 1 (set (replicate (1 + sum def.operand_widths) 0) 0 op)

-- `Make`
unfoldable pub make : ℕ → List ℤ → Result (List ℕ)
unfolding make_with
make op os = make_with op (lookup op) os

-- `ins[offset:]`, which panics past the end.
unfoldable pub slice_from : List ℕ → ℕ → Result (List ℕ)
slice_from ins offset = if ltb (length ins) offset then panic else ok (drop offset ins)

unfoldable pub read_uint8 : List ℕ → Result ℕ
read_uint8 [] = panic
read_uint8 (b ∷ bs) = ok b

unfoldable pub read_uint16 : List ℕ → Result ℕ
read_uint16 [] = panic
read_uint16 (b ∷ []) = panic
read_uint16 (b ∷ c ∷ bs) = ok (b * 256 + c)

-- One operand of `ReadOperands`; another width leaves 0.
unfoldable pub read_operand : ℕ → List ℕ → ℕ → Result ℕ
read_operand width ins offset =
    if width == 1
    then slice_from ins offset >>= read_uint8
    else if width == 2
    then slice_from ins offset >>= read_uint16
    else ok 0

-- The loop of `ReadOperands`: the operands, and the offset after them.
unfoldable pub read_operands : List ℕ → List ℕ → ℕ → Result (List ℕ × ℕ)
unfolding read_operand
read_operands [] ins offset = ok ([], offset)
read_operands (w ∷ ws) ins offset = do
  o ← read_operand w ins offset
  (os, end) ← read_operands ws ins (offset + w)
  ok (o ∷ os, end)
