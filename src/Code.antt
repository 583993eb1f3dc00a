-- ===== src/Code.antt =====
-- code/code.go: the opcodes of the bytecode, in the order of the source's `iota`, and the table of
-- their names and operand widths.
pub mod Encode
pub mod RoundTrip
pub mod Listing
use sydney.Base.{ℕ, String, List, [], ◌∷◌, Option, get_elem?}

pub data Opcode : Type 0 where
  op_constant op_pop op_add op_sub op_mul op_div op_true op_false op_equal op_not_equal : Opcode
  op_gt op_gte op_and op_or op_minus op_bang op_jump_not_truthy op_jump op_null : Opcode
  op_set_mutable_global op_set_immutable_global op_get_global op_array op_hash op_index : Opcode
  op_call op_return_value op_return op_set_immutable_local op_set_mutable_local op_get_local :
      Opcode
  op_get_builtin op_closure op_get_free op_current_closure op_index_set op_struct : Opcode
  op_get_field op_set_field op_box op_call_interface op_result_tag op_result_value op_modulo :
      Opcode
  op_slice op_spawn op_make_channel op_send op_receive op_match_type op_unbox_interface : Opcode

-- `byte(op)`
unfoldable pub byte : Opcode → ℕ
byte op_constant = 0
byte op_pop = 1
byte op_add = 2
byte op_sub = 3
byte op_mul = 4
byte op_div = 5
byte op_true = 6
byte op_false = 7
byte op_equal = 8
byte op_not_equal = 9
byte op_gt = 10
byte op_gte = 11
byte op_and = 12
byte op_or = 13
byte op_minus = 14
byte op_bang = 15
byte op_jump_not_truthy = 16
byte op_jump = 17
byte op_null = 18
byte op_set_mutable_global = 19
byte op_set_immutable_global = 20
byte op_get_global = 21
byte op_array = 22
byte op_hash = 23
byte op_index = 24
byte op_call = 25
byte op_return_value = 26
byte op_return = 27
byte op_set_immutable_local = 28
byte op_set_mutable_local = 29
byte op_get_local = 30
byte op_get_builtin = 31
byte op_closure = 32
byte op_get_free = 33
byte op_current_closure = 34
byte op_index_set = 35
byte op_struct = 36
byte op_get_field = 37
byte op_set_field = 38
byte op_box = 39
byte op_call_interface = 40
byte op_result_tag = 41
byte op_result_value = 42
byte op_modulo = 43
byte op_slice = 44
byte op_spawn = 45
byte op_make_channel = 46
byte op_send = 47
byte op_receive = 48
byte op_match_type = 49
byte op_unbox_interface = 50

-- The opcodes by their byte.
abbrev opcodes : List Opcode
opcodes =
    op_constant ∷ op_pop ∷ op_add ∷ op_sub ∷ op_mul ∷ op_div ∷ op_true ∷ op_false ∷ op_equal
    ∷ op_not_equal ∷ op_gt ∷ op_gte ∷ op_and ∷ op_or ∷ op_minus ∷ op_bang ∷ op_jump_not_truthy
    ∷ op_jump ∷ op_null ∷ op_set_mutable_global ∷ op_set_immutable_global ∷ op_get_global ∷ op_array
    ∷ op_hash ∷ op_index ∷ op_call ∷ op_return_value ∷ op_return ∷ op_set_immutable_local
    ∷ op_set_mutable_local ∷ op_get_local ∷ op_get_builtin ∷ op_closure ∷ op_get_free
    ∷ op_current_closure ∷ op_index_set ∷ op_struct ∷ op_get_field ∷ op_set_field ∷ op_box
    ∷ op_call_interface ∷ op_result_tag ∷ op_result_value ∷ op_modulo ∷ op_slice ∷ op_spawn
    ∷ op_make_channel ∷ op_send ∷ op_receive ∷ op_match_type ∷ op_unbox_interface ∷ []

-- `Opcode(b)`, where it is one of the constants.
unfoldable pub of_byte : ℕ → Option Opcode
of_byte b = get_elem? opcodes b

pub record Definition : Type 0 where
  pub name : String
  pub operand_widths : List ℕ

-- The entries of the map `definitions`.
unfoldable pub definition : Opcode → Definition
definition op_constant = record { name = "OpConstant"; operand_widths = 2 ∷ [] }
definition op_pop = record { name = "OpPop"; operand_widths = [] }
definition op_add = record { name = "OpAdd"; operand_widths = [] }
definition op_sub = record { name = "OpSub"; operand_widths = [] }
definition op_mul = record { name = "OpMul"; operand_widths = [] }
definition op_div = record { name = "OpDiv"; operand_widths = [] }
definition op_true = record { name = "OpTrue"; operand_widths = [] }
definition op_false = record { name = "OpFalse"; operand_widths = [] }
definition op_equal = record { name = "OpEqual"; operand_widths = [] }
definition op_not_equal = record { name = "OpNotEqual"; operand_widths = [] }
definition op_gt = record { name = "OpGt"; operand_widths = [] }
definition op_gte = record { name = "OpGte"; operand_widths = [] }
definition op_and = record { name = "OpAnd"; operand_widths = [] }
definition op_or = record { name = "OpOr"; operand_widths = [] }
definition op_minus = record { name = "OpMinus"; operand_widths = [] }
definition op_bang = record { name = "OpBang"; operand_widths = [] }
definition op_jump_not_truthy = record { name = "OpJumpNotTruthy"; operand_widths = 2 ∷ [] }
definition op_jump = record { name = "OpJump"; operand_widths = 2 ∷ [] }
definition op_null = record { name = "OpNull"; operand_widths = [] }
definition op_set_mutable_global = record { name = "OpSetMutableGlobal"; operand_widths = 2 ∷ [] }
definition op_set_immutable_global = record {
  name = "OpSetImmutableGlobal";
  operand_widths = 2 ∷ [];
}
definition op_get_global = record { name = "OpGetGlobal"; operand_widths = 2 ∷ [] }
definition op_array = record { name = "OpArray"; operand_widths = 2 ∷ [] }
definition op_hash = record { name = "OpHash"; operand_widths = 2 ∷ [] }
definition op_index = record { name = "OpIndex"; operand_widths = [] }
definition op_call = record { name = "OpCall"; operand_widths = 1 ∷ [] }
definition op_return_value = record { name = "OpReturnValue"; operand_widths = [] }
definition op_return = record { name = "OpReturn"; operand_widths = [] }
definition op_set_immutable_local = record { name = "OpSetImmutableLocal"; operand_widths = 1 ∷ [] }
definition op_set_mutable_local = record { name = "OpSetMutableLocal"; operand_widths = 1 ∷ [] }
definition op_get_local = record { name = "OpGetLocal"; operand_widths = 1 ∷ [] }
definition op_get_builtin = record { name = "OpGetBuiltIn"; operand_widths = 1 ∷ [] }
definition op_closure = record { name = "OpClosure"; operand_widths = 2 ∷ 1 ∷ [] }
definition op_get_free = record { name = "OpGetFree"; operand_widths = 1 ∷ [] }
definition op_current_closure = record { name = "OpCurrentClosure"; operand_widths = [] }
definition op_index_set = record { name = "OpIndexSet"; operand_widths = [] }
definition op_struct = record { name = "OpStruct"; operand_widths = 2 ∷ 1 ∷ [] }
definition op_get_field = record { name = "OpGetField"; operand_widths = 1 ∷ [] }
definition op_set_field = record { name = "OpSetField"; operand_widths = 1 ∷ [] }
definition op_box = record { name = "OpBox"; operand_widths = 2 ∷ [] }
definition op_call_interface = record { name = "OpCallInterface"; operand_widths = 2 ∷ 1 ∷ [] }
definition op_result_tag = record { name = "OpResultTag"; operand_widths = [] }
definition op_result_value = record { name = "OpResultValue"; operand_widths = [] }
definition op_modulo = record { name = "OpModulo"; operand_widths = [] }
definition op_slice = record { name = "OpSlice"; operand_widths = [] }
definition op_spawn = record { name = "OpSpawn"; operand_widths = 1 ∷ [] }
definition op_make_channel = record { name = "OpMakeChannel"; operand_widths = [] }
definition op_send = record { name = "OpSend"; operand_widths = [] }
definition op_receive = record { name = "OpReceive"; operand_widths = [] }
definition op_match_type = record { name = "OpMatchType"; operand_widths = 2 ∷ [] }
definition op_unbox_interface = record { name = "OpUnboxInterface"; operand_widths = [] }
