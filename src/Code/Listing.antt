-- ===== src/Code/Listing.antt =====
-- code/code.go: the listing of bytecode, `Instructions.String` and `fmtInstruction`. The text that
-- `fmt` makes of a line is kept as data; the loop runs on fuel, and `running` is a loop cut short.
pub mod Laws
use sydney.Base.{
  ℕ, zero, suc, ◌+◌, ◌<◌, ◌≡◌, refl, ap, String, List, [], ◌∷◌, ◌++◌, map, append_assoc, Bool, true,
  false, Option, none, some, length, length-append, drop, get_or, replicate, drop-append, ◌==◌, ltb,
  if◌then◌else◌, arith, pos, Result, ok, err, panic, ◌>>=◌,
}
use sydney.Code.{Opcode, Definition, definition, byte}
use sydney.Code.Encode.{lookup, sum, make, read_operands}

-- What the formats of `fmtInstruction` print.
pub data Text : Type 0 where
  plain : String → Text
  with_one : String → ℕ → Text
  with_two : String → ℕ → ℕ → Text
  mismatch : ℕ → ℕ → Text
  unhandled : String → Text

-- The switch on the number of operands.
abbrev format : String → List ℕ → Text
format name [] = plain name
format name (a ∷ []) = with_one name a
format name (a ∷ b ∷ []) = with_two name a b
format name _ = unhandled name

-- `fmtInstruction`
unfoldable pub fmt_instruction : Definition → List ℕ → Text
fmt_instruction def os =
    if length os == length def.operand_widths
    then format def.name os
    else mismatch (length os) (length def.operand_widths)

-- A line of the listing: an instruction at its offset, or the error for a byte that is no opcode.
pub data Line : Type 0 where
  instruction : ℕ → Text → Line
  undefined : ℕ → Line

pub data Run : Type 0 where
  finished : List Line → Run
  running : List Line → Run
  crashed : Run

-- The loop of `String`, at the offset `i`, with the lines written so far.
unfoldable pub listing : ℕ → List ℕ → ℕ → List Line → Run
listing zero ins i out = running out
listing (suc fuel) ins i out = elim (ltb i (length ins)) [
  | false ↦ finished out
  | true ↦ elim (lookup (get_or ins i 0)) [
    | none ↦ listing fuel ins i (out ++ undefined (get_or ins i 0) ∷ [])
    | some def ↦ elim (read_operands def.operand_widths (drop (i + 1) ins) 0) [
      | ok (os, read) ↦
          listing fuel ins (i + (1 + read)) (out ++ instruction i (fmt_instruction def os) ∷ [])
      | err e ↦ crashed
      | panic ↦ crashed
    ]
  ]
]
