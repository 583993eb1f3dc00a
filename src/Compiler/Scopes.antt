-- ===== src/Compiler/Scopes.antt =====
-- compiler/compiler.go: the scopes of the compiler: functions, blocks, names and loops.
use sydney.Base.{
  ℕ, String, List, [], ◌∷◌, Bool, true, false, Option, if◌then◌else◌, Result, ok, panic, ◌>>=◌,
}
use sydney.Code.{Opcode}
use sydney.Types.{Ty}
use sydney.SymbolTable.{
  SymbolScope, Symbol, Table, define, annotate_type, resolve, new_enclosed, new_block_scoped,
}
use sydney.Compiler.State.{
  Compiler, LoopContext, Action, empty_scope, current_instructions, emit, emit_one,
}

-- `AnnotateType`, of the current table.
abbrev pub annotate_first : String → Option Ty → List (Table (Option Ty)) → List (Table (Option Ty))
annotate_first name typ [] = []
annotate_first name typ (t ∷ os) = annotate_type name typ t ∷ os

-- `enterScope`
unfoldable pub enter_scope : Compiler → Compiler
unfolding new_enclosed
enter_scope c = record c {
  scope = empty_scope;
  outer_scopes = c.scope ∷ c.outer_scopes;
  symbol_table = new_enclosed c.symbol_table;
}

abbrev outer_tables : List (Table (Option Ty)) → List (Table (Option Ty))
outer_tables [] = []
outer_tables (t ∷ os) = os

-- `leaveScope`: the instructions, and the compiler outside.
unfoldable pub leave_scope : Compiler → Result (List ℕ × Compiler)
leave_scope c = elim c.outer_scopes [
  | [] ↦ panic
  | outer ∷ outers ↦ ok (
    current_instructions c,
    record c { scope = outer; outer_scopes = outers; symbol_table = outer_tables c.symbol_table },
  )
]

-- `pushBlockScope` and `popBlockScope`
unfoldable pub push_block_scope : Action
unfolding new_block_scoped
push_block_scope c = elim c.symbol_table [
  | [] ↦ panic
  | t ∷ os ↦ ok (record c { symbol_table = new_block_scoped t os })
]

unfoldable pub pop_block_scope : Compiler → Compiler
pop_block_scope c = record c { symbol_table = outer_tables c.symbol_table }

-- `DefineMutable` and `DefineImmutable`, and the annotation that follows them.
unfoldable pub define_as :
    Bool → String → Option Ty → Compiler → Result (Symbol (Option Ty) × Compiler)
define_as constant name typ c = elim c.symbol_table [
  | [] ↦ panic
  | t ∷ os ↦
      let (symbol, tables) = define constant name t os in
      ok (symbol, record c { symbol_table = annotate_first name typ tables })
]

-- `Resolve`
unfoldable pub resolve_symbol : String → Compiler → Option (Symbol (Option Ty) × Bool) × Compiler
resolve_symbol name c =
    let (found, tables) = resolve name c.symbol_table in (found, record c { symbol_table = tables })

-- `loadSymbol`; the zero symbol's scope is none of the cases.
unfoldable pub load_symbol : Symbol (Option Ty) → Action
unfolding emit_one emit
load_symbol s = elim s.scope [
  | SymbolScope.global ↦ emit_one Opcode.op_get_global s.index
  | SymbolScope.local ↦ emit_one Opcode.op_get_local s.index
  | SymbolScope.builtin ↦ emit_one Opcode.op_get_builtin s.index
  | SymbolScope.free ↦ emit_one Opcode.op_get_free s.index
  | SymbolScope.function ↦ emit Opcode.op_current_closure
  | SymbolScope.unset ↦ ok
]

unfoldable pub load_symbols : List (Symbol (Option Ty)) → Action
load_symbols [] c = ok c
load_symbols (s ∷ ss) c = load_symbol s c >>= load_symbols ss

abbrev pub is_global : SymbolScope → Bool
is_global SymbolScope.global = true
is_global _ = false

-- The store to a new variable: `emitSet`, and its form for a constant.
unfoldable pub emit_set : Bool → Symbol (Option Ty) → Action
emit_set constant s =
    if is_global s.scope
    then emit_one
        (if constant then Opcode.op_set_immutable_global else Opcode.op_set_mutable_global) s.index
    else emit_one (if constant then Opcode.op_set_immutable_local else Opcode.op_set_mutable_local)
        s.index

-- `emitGet`
unfoldable pub emit_get : Symbol (Option Ty) → Action
emit_get s =
    if is_global s.scope
    then emit_one Opcode.op_get_global s.index
    else emit_one Opcode.op_get_local s.index

-- A definition and the store to it.
unfoldable pub bind : Bool → String → Option Ty → Action
unfolding define_as emit_set
bind constant name typ c = do
  (symbol, c') ← define_as constant name typ c
  emit_set constant symbol c'

-- `enterLoop`, `leaveLoop`
unfoldable pub enter_loop : ℕ → Bool → Compiler → Compiler
enter_loop condition_pos has_post c = record c {
  loop_contexts =
      (record {
        condition_pos = condition_pos;
        has_post = has_post;
        break_positions = [];
        continue_positions = [];
      })
      ∷ c.loop_contexts;
}

unfoldable pub leave_loop : Compiler → Result (LoopContext × Compiler)
leave_loop c = elim c.loop_contexts [
  | [] ↦ panic
  | l ∷ ls ↦ ok (l, record c { loop_contexts = ls })
]
