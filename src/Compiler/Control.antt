-- ===== src/Compiler/Control.antt =====
-- compiler/compiler.go: the nodes that jump, over what the compiler does on their parts: `IfExpr`,
-- `ForStmt`, `ForInStmt`, the matches, `BreakStmt` and `ContinueStmt`.
use sydney.Base.{ℕ, [], ◌∷◌, ◌++◌, Bool, true, false, Option, none, some, if◌then◌else◌, ok, ◌>>=◌}
use text.Mathlib.Text.{◌==◌}
use sydney.Code.{Opcode}
use sydney.Types.{Ty, basic}
use sydney.Compiler.State.{
  Action, LoopContext, position, emit, emit_one, emit_jump, drop_last_pop, change_operand,
  change_operands,
}
use sydney.Compiler.Scopes.{push_block_scope, pop_block_scope, enter_loop, leave_loop}

-- `node.GetResolvedType() == types.Unit`
abbrev pub is_unit : Option Ty → Bool
is_unit (some (basic name)) = name == "unit"
is_unit _ = false

-- The end of an arm: an `IfExpr` keeps the arm's value or pushes null for it.
unfoldable pub end_if_arm : Option Ty → Action
end_if_arm typ c = if is_unit typ then emit Opcode.op_null c else drop_last_pop c

unfoldable pub compile_alternative : Option Action → Option Ty → Action
unfolding end_if_arm
compile_alternative none typ c = emit Opcode.op_null c
compile_alternative (some alternative) typ c = do c' ← alternative c; end_if_arm typ c'

-- `IfExpr`; `alternative` is what the compiler does on the alternative, if there is one.
unfoldable pub compile_if : Action → Action → Option Action → Option Ty → Action
unfolding end_if_arm compile_alternative
compile_if condition consequence alternative typ c = do
  c1 ← condition c
  (jump_not_truthy_pos, c2) ← emit_jump Opcode.op_jump_not_truthy c1
  c3 ← consequence c2
  c4 ← end_if_arm typ c3
  (jump_pos, c5) ← emit_jump Opcode.op_jump c4
  c6 ← change_operand jump_not_truthy_pos (position c5) c5
  c7 ← compile_alternative alternative typ c6
  change_operand jump_pos (position c7) c7

abbrev pub is_some {ℓ} : {A : Type ℓ} → Option A → Bool
is_some none = false
is_some (some a) = true

-- The jumps of `continue` to the place of the compiler.
unfoldable pub patch_continues : Action
patch_continues c = elim c.loop_contexts [
  | [] ↦ ok c
  | l ∷ ls ↦ change_operands l.continue_positions (position c) c
]

unfoldable pub compile_post : Option Action → Action
compile_post none c = ok c
compile_post (some post) c = patch_continues c >>= post

-- The end of every loop: the jumps out of it, and a null that is dropped.
unfoldable pub end_loop : ℕ → Action
unfolding leave_loop
end_loop jump_not_truthy_pos c = do
  let escape_pos = position c
  c1 ← change_operand jump_not_truthy_pos escape_pos c
  (l, c2) ← leave_loop c1
  c3 ← change_operands l.break_positions escape_pos c2
  c4 ← emit Opcode.op_null (pop_block_scope c3)
  emit Opcode.op_pop c4

-- `ForStmt`, where `init` does nothing if there is none.
unfoldable pub compile_for : Action → Action → Option Action → Action → Action
unfolding enter_loop leave_loop
compile_for init condition post body c = do
  c1 ← push_block_scope c
  c2 ← init c1
  let condition_pos = position c2
  let c3 = enter_loop condition_pos (is_some post) c2
  c4 ← condition c3
  (jump_not_truthy_pos, c5) ← emit_jump Opcode.op_jump_not_truthy c4
  c6 ← body c5
  c7 ← compile_post post c6
  c8 ← emit_one Opcode.op_jump condition_pos c7
  end_loop jump_not_truthy_pos c8

-- `BreakStmt`, and `ContinueStmt`: outside of a loop both read a nil pointer.
unfoldable pub compile_break : Action
compile_break c = do
  (l, c1) ← leave_loop c
  (at, c2) ← emit_jump Opcode.op_jump c1
  ok (record c2 {
    loop_contexts = record l { break_positions = l.break_positions ++ at ∷ [] } ∷ c2.loop_contexts;
  })

-- A jump to the step of the loop, written later.
unfoldable pub jump_to_post : LoopContext → Action
jump_to_post l c = do
  (at, c1) ← emit_jump Opcode.op_jump c
  ok (record c1 {
    loop_contexts =
        record l { continue_positions = l.continue_positions ++ at ∷ [] } ∷ c1.loop_contexts;
  })

unfoldable pub compile_continue : Action
unfolding jump_to_post
compile_continue c = do
  (l, c1) ← leave_loop c
  if l.has_post then jump_to_post l c1 else emit_one Opcode.op_jump l.condition_pos c
