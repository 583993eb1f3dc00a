-- ===== src/Compiler/Functions.antt =====
-- compiler/compiler.go: functions, calls, and the declarations that a program or a block hoists.
use text.Mathlib.Text.{◌==◌}
use sydney.Base.{
  ℕ, String, List, [], ◌∷◌, Bool, true, false, Option, none, some, length, if◌then◌else◌, pos, ok,
  err, ◌>>=◌,
}
use sydney.Code.{Opcode}
use sydney.Types.{Ty}
use sydney.SymbolTable.{Symbol, define_function_name, define_alias}
use sydney.Compiler.State.{
  Compiler, Action, Const, add_constant, emit, emit_one, emit_all, last_instruction_is,
  replace_last_pop_with_return,
}
use sydney.Compiler.Scopes.{
  enter_scope, leave_scope, resolve_symbol, load_symbols, emit_set, define_as,
}
use sydney.Compiler.Names.{mangle_module, in_module, load_name}

abbrev Symbols : Type 0
Symbols = List (Symbol (Option Ty))

-- What the current table counts: its free symbols and its definitions.
abbrev free_symbols : Compiler → Symbols
free_symbols c = elim c.symbol_table [ [] ↦ [] | t ∷ os ↦ t.free_symbols ]

abbrev num_definitions : Compiler → ℕ
num_definitions c = elim c.symbol_table [ [] ↦ 0 | t ∷ os ↦ t.num_definitions ]

-- `DefineFunctionName` and `DefineAlias`, on the current table.
unfoldable pub name_function : String → Compiler → Compiler
unfolding define_function_name
name_function name c = elim c.symbol_table [
  | [] ↦ c
  | t ∷ os ↦ record c { symbol_table = (define_function_name name t).1 ∷ os }
]

unfoldable pub alias : String → Symbol (Option Ty) → Compiler → Compiler
unfolding define_alias
alias name symbol c = elim c.symbol_table [
  | [] ↦ c
  | t ∷ os ↦ record c { symbol_table = define_alias name symbol t ∷ os }
]

-- The parameters of a function, in order.
unfoldable pub define_parameters : Bool → List (String × Option Ty) → Action
unfolding define_as
define_parameters constant [] c = ok c
define_parameters constant ((name, typ) ∷ ps) c = do
  (symbol, c1) ← define_as constant name typ c
  define_parameters constant ps c1

-- The end of a body: a last pop becomes a return of its value, and without a return of the kind
-- that is asked for there is a return of nothing.
unfoldable pub end_body : Opcode → Action
unfolding last_instruction_is replace_last_pop_with_return emit
end_body op c = do
  c1 ← (if last_instruction_is Opcode.op_pop c then replace_last_pop_with_return c else ok c)
  if last_instruction_is op c1 then ok c1 else emit Opcode.op_return c1

-- The function that was compiled in the inner scope, as a closure over its free variables.
unfoldable pub close_function : ℕ → Action
unfolding leave_scope load_symbols
close_function num_parameters c = do
  (instructions, c1) ← leave_scope c
  c2 ← load_symbols (free_symbols c) c1
  let (at, c3) =
      add_constant (Const.compiled_function instructions (num_definitions c) num_parameters) c2
  emit_all Opcode.op_closure (pos at ∷ pos (length (free_symbols c)) ∷ []) c3

-- `FunctionLiteral`, over its body.
unfoldable pub compile_function_literal : String → List (String × Option Ty) → Action → Action
unfolding enter_scope name_function define_parameters end_body close_function
compile_function_literal name parameters body c = do
  let c1 = enter_scope c
  c2 ← define_parameters true parameters (if name == "" then c1 else name_function name c1)
  c3 ← body c2
  c4 ← end_body Opcode.op_return_value c3
  close_function (length parameters) c4

abbrev typed : Ty → List String → List (String × Option Ty)
typed t [] = []
typed t (p ∷ ps) = (p, some t) ∷ typed t ps

-- The name of a function declaration in its module.
abbrev function_name : Compiler → String → String → String
function_name c name mangled = in_module c (if mangled == "" then name else mangled)

unfoldable pub declare_function :
    Option (Symbol (Option Ty) × Bool) → String → List String → Ty → Action → Action
unfolding enter_scope name_function define_parameters end_body close_function
declare_function none name params typ body c = err "undefined function"
declare_function (some (symbol, from_outer)) name params typ body c = do
  c1 ← define_parameters false (typed typ params) (name_function name (enter_scope c))
  c2 ← body c1
  c3 ← end_body Opcode.op_return c2
  c4 ← close_function (length params) c3
  emit_set true symbol c4

-- `FunctionDeclarationStmt`, over its body.
unfoldable pub compile_function_declaration : String → String → List String → Ty → Action → Action
unfolding declare_function
compile_function_declaration name mangled params typ body c =
    let (found, c0) = resolve_symbol (function_name c name mangled) c in
    declare_function found name params typ body c0

-- The other names of a function with a mangled name.
unfoldable pub add_aliases : Bool → String → String → Symbol (Option Ty) → Compiler → Compiler
unfolding alias
add_aliases false name mangled symbol c = alias name symbol c
add_aliases true name mangled symbol c =
    let c' = alias mangled symbol (alias name symbol c) in
    if c.current_module == "" then c' else alias (mangle_module c.current_module name) symbol c'

-- The declaration of a function ahead of its block or its program: its symbol, and its other names.
unfoldable pub hoist : Bool → String → String → Ty → Action
unfolding define_as add_aliases
hoist top name mangled typ c = do
  (symbol, c1) ← define_as true (function_name c name mangled) (some typ) c
  ok (if mangled == "" then c1 else add_aliases top name mangled symbol c1)

-- `CallExpr`, over the function or its mangled name, and the arguments.
unfoldable pub compile_call : String → ℕ → Action → Action → Action
unfolding load_name
compile_call mangled count function arguments c = do
  c1 ← (if mangled == "" then function c else load_name mangled none c)
  c2 ← arguments c1
  emit_one Opcode.op_call count c2

abbrev emit_method : Option ℕ → ℕ → Action
emit_method none count c = err "method not found in interface type"
emit_method (some method) count c =
    emit_all Opcode.op_call_interface (pos method ∷ pos count ∷ []) c

-- `compileInterfaceMethodCall`, over the arguments and the object.
unfoldable pub compile_method_call : Option ℕ → ℕ → Action → Action → Action
compile_method_call method count arguments object c = do
  c1 ← arguments c
  c2 ← object c1
  emit_method method count c2
