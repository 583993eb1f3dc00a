-- ===== src/Compiler/ForIn.antt =====
-- compiler/compiler.go: `compileForInStmtArr` and `compileForInStmtMap`, over what the compiler does on
-- the iterable and the body.
use Prim.Native.String.{◌++◌ as ◌<>◌}
use sydney.Base.{
  ℕ, zero, suc, ◌/◌, ◌%◌, String, [], ◌∷◌, true, false, Option, none, some, length, get_or, ltb,
  if◌then◌else◌, Result, ok, ◌>>=◌,
}
use sydney.Code.{Opcode}
use sydney.Types.{Ty, basic, array}
use sydney.SymbolTable.{Symbol}
use sydney.Compiler.State.{
  Compiler, Action, Const, position, emit, emit_one, emit_constant, emit_jump,
}
use sydney.Compiler.Scopes.{push_block_scope, define_as, emit_set, emit_get, bind, enter_loop}
use sydney.Compiler.Control.{patch_continues, end_loop}

-- A number in decimal, on fuel for its digits.
abbrev digit : ℕ → String
digit n = get_or ("0" ∷ "1" ∷ "2" ∷ "3" ∷ "4" ∷ "5" ∷ "6" ∷ "7" ∷ "8" ∷ "9" ∷ []) n ""

unfoldable pub decimal : ℕ → ℕ → String
decimal zero n = digit (n % 10)
decimal (suc fuel) n =
    let more = decimal fuel (n / 10) <> digit (n % 10) in if ltb n 10 then digit n else more

-- `getLoopHiddenVar`: outside of every loop the number is -1.
unfoldable pub hidden_var : String → Compiler → String
unfolding decimal
hidden_var name c = elim (length c.loop_contexts) [
  | zero ↦ "__" <> name <> "__-1__"
  | suc n ↦ "__" <> name <> "__" <> decimal n n <> "__"
]

-- `len` of the variable, in a hidden variable; and a hidden index that starts at 0.
unfoldable pub length_of :
    Symbol (Option Ty) → String → Compiler → Result (Symbol (Option Ty) × Compiler)
unfolding define_as
length_of of_sym name c = do
  c1 ← emit_one Opcode.op_get_builtin 0 c
  c2 ← emit_get of_sym c1
  c3 ← emit_one Opcode.op_call 1 c2
  (len_sym, c4) ← define_as false name (some (basic "int")) c3
  c5 ← emit_set false len_sym c4
  ok (len_sym, c5)

unfoldable pub start_index : String → Compiler → Result (Symbol (Option Ty) × Compiler)
unfolding define_as
start_index name c = do
  c1 ← emit_constant (Const.integer 0) c
  (idx_sym, c2) ← define_as false name (some (basic "int")) c1
  c3 ← emit_set false idx_sym c2
  ok (idx_sym, c3)

-- The test that the index is below the length, and the jump out of the loop.
unfoldable pub loop_test :
    Symbol (Option Ty) → Symbol (Option Ty) → Compiler → Result (ℕ × Compiler)
loop_test len_sym idx_sym c = do
  c1 ← emit_get len_sym c
  c2 ← emit_get idx_sym c1
  c3 ← emit Opcode.op_gt c2
  emit_jump Opcode.op_jump_not_truthy c3

-- `c.emitGet(from); c.emitGet(at); c.emit(code.OpIndex)`
unfoldable pub element_of : Symbol (Option Ty) → Symbol (Option Ty) → Action
element_of from at c = do c1 ← emit_get from c; c2 ← emit_get at c1; emit Opcode.op_index c2

unfoldable pub bind_key : Option String → Symbol (Option Ty) → Action
bind_key none idx_sym c = ok c
bind_key (some key) idx_sym c = do c1 ← emit_get idx_sym c; bind false key (some (basic "int")) c1

-- The step of a loop over elements, and its end.
unfoldable pub next_index : Symbol (Option Ty) → ℕ → ℕ → Action
unfolding end_loop patch_continues
next_index idx_sym condition_pos jump_not_truthy_pos c = do
  c1 ← patch_continues c
  c2 ← emit_get idx_sym c1
  c3 ← emit_constant (Const.integer 1) c2
  c4 ← emit Opcode.op_add c3
  c5 ← emit_set false idx_sym c4
  c6 ← emit_one Opcode.op_jump condition_pos c5
  end_loop jump_not_truthy_pos c6

-- A loop over the elements of an array. The name of the key may be missing.
unfoldable pub compile_for_in_array :
    Option String → String → Option Ty → Action → Option Ty → Action → Action
unfolding define_as
compile_for_in_array key value value_type iterable typ body c = do
  let iter = hidden_var "forin_iter" c
  let leng = hidden_var "forin_len" c
  let idx = hidden_var "forin_idx" c
  c1 ← push_block_scope c
  c2 ← iterable c1
  (iter_sym, c3) ← define_as false iter typ c2
  c4 ← emit_set false iter_sym c3
  (len_sym, c5) ← length_of iter_sym leng c4
  (idx_sym, c6) ← start_index idx c5
  let condition_pos = position c6
  (jump_not_truthy_pos, c7) ← loop_test len_sym idx_sym (enter_loop condition_pos true c6)
  c8 ← bind_key key idx_sym c7
  c9 ← element_of iter_sym idx_sym c8
  c10 ← bind false value value_type c9
  c11 ← body c10
  next_index idx_sym condition_pos jump_not_truthy_pos c11

-- The type of the keys; an array of no type is taken for no type.
abbrev keys_type : Option Ty → Option Ty
keys_type none = none
keys_type (some t) = some (array t false)

-- A loop over the keys of a map, and what it has at each.
unfoldable pub compile_for_in_map :
    String → Option Ty → String → Option Ty → Action → Option Ty → Action → Action
unfolding define_as
compile_for_in_map key key_type value value_type iterable typ body c = do
  c1 ← push_block_scope c
  let iter = hidden_var "forin_iter" c1
  let leng = hidden_var "forin_len" c1
  let idx = hidden_var "forin_idx" c1
  let keys = hidden_var "forin_keys" c1
  c2 ← iterable c1
  (iter_sym, c3) ← define_as false iter typ c2
  c4 ← emit_set false iter_sym c3
  c5 ← emit_one Opcode.op_get_builtin 3 c4
  c6 ← emit_get iter_sym c5
  c7 ← emit_one Opcode.op_call 1 c6
  (keys_sym, c8) ← define_as false keys (keys_type key_type) c7
  c9 ← emit_set false keys_sym c8
  (len_sym, c10) ← length_of keys_sym leng c9
  (idx_sym, c11) ← start_index idx c10
  let condition_pos = position c11
  (jump_not_truthy_pos, c12) ← loop_test len_sym idx_sym (enter_loop condition_pos true c11)
  c13 ← element_of keys_sym idx_sym c12
  (key_sym, c14) ← define_as false key key_type c13
  c15 ← emit_set false key_sym c14
  c16 ← element_of iter_sym key_sym c15
  c17 ← emit Opcode.op_result_value c16
  c18 ← bind false value value_type c17
  c19 ← body c18
  next_index idx_sym condition_pos jump_not_truthy_pos c19
