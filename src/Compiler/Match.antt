-- ===== src/Compiler/Match.antt =====
-- compiler/compiler.go: `compileResultMatch`, `compileOptionMatch` and `compileTypeMatch`, over what the
-- compiler does on the subject and the arms.
use sydney.Base.{ℕ, String, List, true, Option, none, some, if◌then◌else◌, Result, ok, ◌>>=◌}
use sydney.Code.{Opcode}
use sydney.Types.{Ty, signature, struct}
use sydney.Compiler.State.{
  Compiler, Action, Const, position, emit, emit_one, emit_jump, drop_last_pop, change_operand,
  change_operands, add_constant,
}
use sydney.Compiler.Scopes.{push_block_scope, pop_block_scope, bind}
use sydney.Compiler.Control.{is_unit}

-- A jump that waits for its target, if there is one.
unfoldable pub change_pending : Option ℕ → ℕ → Action
change_pending none operand c = ok c
change_pending (some at) operand c = change_operand at operand c

-- The end of an arm of a match: the last pop goes, and a match without a value pushes null.
unfoldable pub end_match_arm : Option Ty → Action
end_match_arm typ c = do c' ← drop_last_pop c; if is_unit typ then emit Opcode.op_null c' else ok c'

unfoldable pub compile_default : Option Action → Option Ty → Action
compile_default none typ c = ok c
compile_default (some default_arm) typ c = default_arm c >>= end_match_arm typ

-- The start of a match on the tag, and an arm that binds what the tag stands before: the subject is
-- compiled once more.
unfoldable pub compile_tag : Action → Compiler → Result (ℕ × Compiler)
compile_tag subject c = do
  c1 ← subject c
  c2 ← emit Opcode.op_result_tag c1
  emit_jump Opcode.op_jump_not_truthy c2

unfoldable pub compile_binding_arm : Action → String → Action → Option Ty → Action
unfolding end_match_arm
compile_binding_arm subject binding body typ c = do
  c1 ← push_block_scope c
  c2 ← subject c1
  c3 ← emit Opcode.op_result_value c2
  c4 ← bind true binding typ c3
  c5 ← body c4
  c6 ← end_match_arm typ c5
  ok (pop_block_scope c6)

-- `compileResultMatch`, and `compileOptionMatch`, whose second arm binds nothing.
unfoldable pub compile_match : Action → Action → Action → Action
unfolding compile_tag
compile_match subject first second c = do
  (not_truthy_pos, c1) ← compile_tag subject c
  c2 ← first c1
  (jump_pos, c3) ← emit_jump Opcode.op_jump c2
  c4 ← change_operand not_truthy_pos (position c3) c3
  c5 ← second c4
  change_operand jump_pos (position c5) c5

unfoldable pub compile_result_match :
    Action → String → Action → String → Action → Option Ty → Action
unfolding compile_match compile_binding_arm
compile_result_match subject ok_binding ok_body err_binding err_body typ =
    compile_match subject (compile_binding_arm subject ok_binding ok_body typ)
      (compile_binding_arm subject err_binding err_body typ)

unfoldable pub compile_option_match : Action → String → Action → Action → Option Ty → Action
unfolding compile_match compile_binding_arm end_match_arm
compile_option_match subject binding some_body none_body typ =
    compile_match subject (compile_binding_arm subject binding some_body typ)
      (λ c. none_body c >>= end_match_arm typ)

-- The name that a type match compares with.
abbrev type_name : Ty → String
type_name (struct name mod_name fs ts is satisfied tps tas) = name
type_name t = signature t

-- An arm of `compileTypeMatch`, with the jump of the arm before it, if there is one: the jumps that
-- the next arm and the end of the match write.
unfoldable pub compile_type_arm :
    Action → Option ℕ → Ty → String → Action → Option Ty → Compiler → Result (ℕ × ℕ × Compiler)
unfolding end_match_arm
compile_type_arm subject previous arm_type binding body typ c = do
  c1 ← subject c
  let (at, c2) = add_constant (Const.string (type_name arm_type)) c1
  c3 ← emit_one Opcode.op_match_type at c2
  (jump, c4) ← emit_jump Opcode.op_jump_not_truthy c3
  c5 ← change_pending previous (position c) c4
  c6 ← subject c5
  c7 ← emit Opcode.op_unbox_interface c6
  c8 ← push_block_scope c7
  c9 ← bind true binding (some arm_type) c8
  c10 ← body c9
  c11 ← end_match_arm typ c10
  (jump_end, c12) ← emit_jump Opcode.op_jump c11
  ok (jump, jump_end, pop_block_scope c12)

-- The end of `compileTypeMatch`, after its arms.
unfoldable pub end_type_match : Option ℕ → List ℕ → Option Action → Option Ty → Action
unfolding end_match_arm
end_type_match previous jump_ends default_arm typ c = do
  c1 ← change_pending previous (position c) c
  c2 ← compile_default default_arm typ c1
  change_operands jump_ends (position c2) c2
