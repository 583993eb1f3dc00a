-- ===== src/Tests/Bytecode.antt =====
-- Tests of the modules on code/code.go.
use sydney.Base.{
  ℕ, ◌≡◌, refl, List, [], ◌∷◌, ◌++◌, map, drop, replicate, arith, pos, ok, panic, ◌>>=◌,
}
use sydney.Code.{Opcode, definition, byte, of_byte}
use sydney.Code.Encode.{make, read_operands, write_operands, lookup, put_operand, sum}
use sydney.Code.RoundTrip.{encode, make-encode, read_operands-make}
use sydney.Code.Listing.{Line, undefined, finished, running, listing}
use sydney.Code.Listing.Laws.{assemble, entry_of, entries, listing-assemble, listing_stuck}

make_closure :
    make (byte Opcode.op_closure) (pos 65534 ∷ pos 255 ∷ []) ≡ ok (32 ∷ 255 ∷ 254 ∷ 255 ∷ [])
unfolding make lookup of_byte byte definition write_operands put_operand
make_closure = refl

make_too_many : make (byte Opcode.op_pop) (pos 1 ∷ []) ≡ panic
unfolding make lookup of_byte byte definition write_operands put_operand
make_too_many = refl

make_undefined : make 200 [] ≡ ok []
unfolding make lookup of_byte
make_undefined = refl

make-encode_example :
    make (byte Opcode.op_closure) (map pos (65534 ∷ 255 ∷ []))
    ≡ ok (
        byte Opcode.op_closure
        ∷ encode (definition Opcode.op_closure).operand_widths (65534 ∷ 255 ∷ []))
unfolding definition
make-encode_example = make-encode Opcode.op_closure (65534 ∷ 255 ∷ []) (omega arith)

read_operands-make_example :
    (make (byte Opcode.op_closure) (map pos (65534 ∷ 255 ∷ [])) >>= λ ins.
    read_operands (definition Opcode.op_closure).operand_widths (drop 1 (ins ++ 7 ∷ [])) 0)
    ≡ ok (65534 ∷ 255 ∷ [], sum (definition Opcode.op_closure).operand_widths)
unfolding definition
read_operands-make_example =
    read_operands-make Opcode.op_closure (65534 ∷ 255 ∷ []) (7 ∷ []) (omega arith)

abbrev program : List (Opcode × List ℕ)
program = (Opcode.op_constant, 1 ∷ []) ∷ (Opcode.op_jump, 600 ∷ []) ∷ (Opcode.op_pop, []) ∷ []

listing-assemble_example :
    (out : List Line) × ((assemble program >>= λ ins. ok (listing 4 ins 0 [])) ≡ ok (finished out))
    × (map entry_of out ≡ entries 0 program)
unfolding definition
listing-assemble_example = listing-assemble program (omega arith)

listing_stuck_example : listing 3 (1 ∷ 255 ∷ []) 1 [] ≡ running (replicate 3 (undefined 255))
unfolding lookup of_byte
listing_stuck_example = listing_stuck 3 (1 ∷ 255 ∷ []) 1 [] (omega arith) refl
