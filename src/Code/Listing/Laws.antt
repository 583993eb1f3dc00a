-- ===== src/Code/Listing/Laws.antt =====
-- code/code.go: `Instructions.String` on assembled code and on other bytes.
use Prim.Native.Nat.add
use mathlib.Core.Path.{◌≡⟨◌⟩◌, ◌∎}
use sydney.Base.{
  ℕ, zero, suc, ◌+◌, ◌<◌, ◌≤◌, ◌≡◌, refl, ap, List, [], ◌∷◌, ◌++◌, map, append_assoc, append-nil,
  none, some, Option, true, String, ◌==◌, length, length-append, drop, get_or, replicate, arith,
  pos, Result, ok, ◌>>=◌,
}
use sydney.Code.{Opcode, Definition, definition, byte}
use sydney.Code.Encode.{lookup, sum, make, read_operands}
use sydney.Code.RoundTrip.{
  of_byte-byte, big_endian, length-big_endian, encode, Fits, definition-Known, make-encode,
  read_operands-encode,
}
use sydney.Code.Listing.{
  format, plain, with_one, with_two, Line, instruction, undefined, finished, running,
  fmt_instruction, listing,
}

-- Instructions with their operands, each of which fits.
abbrev pub Fit : List (Opcode × List ℕ) → Type 0
Fit [] = Unit
Fit ((op, os) ∷ p) = Fits (definition op).operand_widths os × Fit p

-- The code of a sequence of instructions, each made by `Make`.
unfoldable pub assemble : List (Opcode × List ℕ) → Result (List ℕ)
assemble [] = ok []
assemble ((op, os) ∷ p) = do ins ← make (byte op) (map pos os); rest ← assemble p; ok (ins ++ rest)

-- The lines of a sequence of instructions that begins at an offset.
abbrev lines : ℕ → List (Opcode × List ℕ) → List Line
lines i [] = []
lines i ((op, os) ∷ p) =
    instruction i (fmt_instruction (definition op) os)
    ∷ lines (i + (1 + sum (definition op).operand_widths)) p

bytes : List (Opcode × List ℕ) → List ℕ
bytes [] = []
bytes ((op, os) ∷ p) = byte op ∷ (encode (definition op).operand_widths os ++ bytes p)

assemble-bytes : (p : List (Opcode × List ℕ)) → Fit p → assemble p ≡ ok (bytes p)
unfolding assemble bytes
assemble-bytes [] f = refl
assemble-bytes ((op, os) ∷ p) (f, g) = rw (make-encode op os f, assemble-bytes p g)

get_or-append : (pre rest : List ℕ) (b : ℕ) → get_or (pre ++ b ∷ rest) (length pre) 0 ≡ b
get_or-append [] rest b = refl
get_or-append (x ∷ pre) rest b = get_or-append pre rest b

drop-append_suc : (pre rest : List ℕ) (b : ℕ) → drop (length pre + 1) (pre ++ b ∷ rest) ≡ rest
drop-append_suc [] rest b = refl
drop-append_suc (x ∷ pre) rest b = rw add.suc (drop-append_suc pre rest b)

length-encode : (ws os : List ℕ) → Fits ws os → length (encode ws os) ≡ sum ws
length-encode [] [] f = refl
length-encode [] (o ∷ os) f = absurd f
length-encode (w ∷ ws) [] f = absurd f
length-encode (w ∷ ws) (o ∷ os) (h, f) = omega (
  arith,
  length-append (big_endian w o) (encode ws os),
  length-big_endian w o,
  length-encode ws os f,
)

lookup-byte : (op : Opcode) → lookup (byte op) ≡ some (definition op)
unfolding lookup
lookup-byte op = rw (of_byte-byte op)

listing-step :
    (fuel : ℕ) (ins : List ℕ) (i : ℕ) (out : List Line) (def : Definition) (os : List ℕ) (n : ℕ)
    → i < length ins
    → lookup (get_or ins i 0) ≡ some def
    → read_operands def.operand_widths (drop (i + 1) ins) 0 ≡ ok (os, n)
    → listing (suc fuel) ins i out
      ≡ listing fuel ins (i + (1 + n)) (out ++ instruction i (fmt_instruction def os) ∷ [])
unfolding listing
listing-step fuel ins i out def os n h e r = ground arith

listing-end :
    (fuel : ℕ) (ins : List ℕ) (i : ℕ) (out : List Line)
    → length ins ≤ i
    → listing (suc fuel) ins i out ≡ finished out
unfolding listing
listing-end fuel ins i out h = ground arith

-- One round of the loop at an instruction.
listing-instruction :
    (fuel : ℕ) (op : Opcode) (os pre rest : List ℕ) (out : List Line)
    → let ws = (definition op).operand_widths in
      let ins = pre ++ byte op ∷ (encode ws os ++ rest) in
      Fits ws os
      → listing (suc fuel) ins (length pre) out
        ≡ listing fuel ins
            (length pre + (1 + sum ws))
            (out ++ instruction (length pre) (fmt_instruction (definition op) os) ∷ [])
listing-instruction fuel op os pre rest out f =
    let ws = (definition op).operand_widths in
    let ins = pre ++ byte op ∷ (encode ws os ++ rest) in
    listing-step fuel ins (length pre) out (definition op) os (sum ws)
      (omega (arith, length-append pre (byte op ∷ (encode ws os ++ rest))))
      (rw get_or-append (lookup-byte op))
      (rw drop-append_suc
        (rw add.zero at (read_operands-encode ws os [] rest (definition-Known op) f)))

listing-bytes :
    (p : List (Opcode × List ℕ)) (pre : List ℕ) (out : List Line)
    → Fit p
    → listing (suc (length p)) (pre ++ bytes p) (length pre) out
      ≡ finished (out ++ lines (length pre) p)
unfolding bytes
listing-bytes [] pre out f =
    rw (append-nil {A = ℕ}, append-nil {A = Line})
      (listing-end 0 pre (length pre) out (omega arith))
listing-bytes ((op, os) ∷ p) pre out (f, g) =
    listing (suc (suc (length p))) ins (length pre) out
    ≡⟨ listing-instruction (suc (length p)) op os pre (bytes p) out f ⟩
      listing (suc (length p)) ins (length pre + (1 + sum ws)) (out ++ line ∷ [])
    ≡⟨ rw (← end, append_assoc pre) refl ⟩
      listing (suc (length p)) ((pre ++ code) ++ bytes p) (length (pre ++ code)) (out ++ line ∷ [])
    ≡⟨ listing-bytes p (pre ++ code) (out ++ line ∷ []) g ⟩
      finished ((out ++ line ∷ []) ++ lines (length (pre ++ code)) p)
    ≡⟨ rw (end, append_assoc out) refl ⟩
      finished (out ++ line ∷ lines (length pre + (1 + sum ws)) p) ∎
  where
    ws : List ℕ
    ws = (definition op).operand_widths

    code : List ℕ
    code = byte op ∷ encode ws os

    ins : List ℕ
    ins = pre ++ byte op ∷ (encode ws os ++ bytes p)

    line : Line
    line = instruction (length pre) (fmt_instruction (definition op) os)

    end : length (pre ++ code) ≡ length pre + (1 + sum ws)
    end = omega (arith, length-append pre code, length-encode ws os f)

-- What a printed line says: its offset, the name, and the operands in the order in which they stand.
abbrev pub entry_of : Line → Option (ℕ × String × List ℕ)
entry_of (instruction i (plain name)) = some (i, name, [])
entry_of (instruction i (with_one name a)) = some (i, name, a ∷ [])
entry_of (instruction i (with_two name a b)) = some (i, name, a ∷ b ∷ [])
entry_of _ = none

-- What the lines of a sequence of instructions are to say, from an offset on.
abbrev pub entries : ℕ → List (Opcode × List ℕ) → List (Option (ℕ × String × List ℕ))
entries i [] = []
entries i ((op, os) ∷ p) =
    some (i, (definition op).name, os) ∷ entries (i + (1 + sum (definition op).operand_widths)) p

operand_count : (op : Opcode) → length (definition op).operand_widths ≤ 2
unfolding definition
operand_count Opcode.op_constant = omega arith
operand_count _ = omega arith

length-Fits : (ws os : List ℕ) → Fits ws os → length os ≡ length ws
length-Fits [] [] f = refl
length-Fits [] (o ∷ os) f = absurd f
length-Fits (w ∷ ws) [] f = absurd f
length-Fits (w ∷ ws) (o ∷ os) (h, f) = ap suc (length-Fits ws os f)

entry_of-format :
    (i : ℕ) (name : String) (os : List ℕ)
    → length os ≤ 2
    → entry_of (instruction i (format name os)) ≡ some (i, name, os)
entry_of-format i name [] h = refl
entry_of-format i name (a ∷ []) h = refl
entry_of-format i name (a ∷ b ∷ []) h = refl
entry_of-format i name (a ∷ b ∷ c ∷ os) h = absurd (omega (arith, h))

entry_of-fmt_instruction :
    (i : ℕ) (op : Opcode) (os : List ℕ)
    → Fits (definition op).operand_widths os
    → entry_of (instruction i (fmt_instruction (definition op) os))
      ≡ some (i, (definition op).name, os)
unfolding fmt_instruction
entry_of-fmt_instruction i op os f =
    let same = length-Fits (definition op).operand_widths os f in
    let counted : (length os == length (definition op).operand_widths) ≡ true =
      ground (arith, same) in
    rw (counted) (entry_of-format i (definition op).name os (omega (arith, same, operand_count op)))

entry_of-lines :
    (i : ℕ) (p : List (Opcode × List ℕ)) → Fit p → map entry_of (lines i p) ≡ entries i p
entry_of-lines i [] f = refl
entry_of-lines i ((op, os) ∷ p) (f, g) =
    rw
      (
        entry_of-fmt_instruction i op os f,
        entry_of-lines (i + (1 + sum (definition op).operand_widths)) p g,
      )
      refl

-- If the operands of every instruction fit, the listing of the assembled code ends, within one round
-- for each instruction and one more, and has one line for each instruction, which says its offset, its
-- name and its operands in their order.
pub listing-assemble :
    (p : List (Opcode × List ℕ))
    → Fit p
    → (out : List Line) × ((assemble p >>= λ ins. ok (listing (suc (length p)) ins 0 []))
        ≡ ok (finished out))
      × (map entry_of out ≡ entries 0 p)
listing-assemble p f =
    (lines 0 p, rw (assemble-bytes p f) (ap ok (listing-bytes p [] [] f)), entry_of-lines 0 p f)

-- A byte that is no opcode holds the loop: it prints the error in every round and never ends.
pub listing_stuck :
    (fuel : ℕ) (ins : List ℕ) (i : ℕ) (out : List Line)
    → i < length ins
    → lookup (get_or ins i 0) ≡ none
    → listing fuel ins i out ≡ running (out ++ replicate fuel (undefined (get_or ins i 0)))
unfolding listing
listing_stuck zero ins i out h u = rw append-nil
listing_stuck (suc fuel) ins i out h u = ground (
  arith,
  append_assoc out (undefined (get_or ins i 0) ∷ []) (replicate fuel (undefined (get_or ins i 0))),
  listing_stuck fuel ins i (out ++ undefined (get_or ins i 0) ∷ []) h u,
)
