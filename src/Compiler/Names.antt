-- ===== src/Compiler/Names.antt =====
-- compiler/compiler.go: the nodes that name something, over what the compiler does on their parts:
-- operators, identifiers, declarations, assignments, fields and casts.
use Prim.Native.String.{◌++◌ as ◌<>◌}
use text.Mathlib.Text.{◌==◌}
use sydney.Base.{
  ℕ, suc, String, List, [], ◌∷◌, Bool, true, false, Option, none, some, not, ◌&&◌, ◌||◌, lookup,
  if◌then◌else◌, ℤ, pos, negsuc, Result, err, ◌>>=◌,
}
use sydney.Code.{Opcode}
use sydney.Types.{Ty, basic}
use sydney.SymbolTable.{Symbol, SymbolScope}
use sydney.Compiler.State.{Compiler, Action, Const, emit, emit_one, emit_constant}
use sydney.Compiler.Scopes.{resolve_symbol, load_symbol, emit_set, bind}

-- `mangleModule`, and the name that a declaration has in its module.
abbrev pub mangle_module : String → String → String
mangle_module module_name name = module_name <> "__" <> name

abbrev pub in_module : Compiler → String → String
in_module c name = if c.current_module == "" then name else mangle_module c.current_module name

-- The operators of `InfixExpr` but `<` and `<=`, and those of `PrefixExpr`.
abbrev pub infix_opcode : String → Option Opcode
infix_opcode op =
    if op == "+"
    then some Opcode.op_add
    else if op == "-"
    then some Opcode.op_sub
    else if op == "*"
    then some Opcode.op_mul
    else if op == "/"
    then some Opcode.op_div
    else if op == "=="
    then some Opcode.op_equal
    else if op == "!="
    then some Opcode.op_not_equal
    else if op == ">"
    then some Opcode.op_gt
    else if op == ">="
    then some Opcode.op_gte
    else if op == "&&"
    then some Opcode.op_and
    else if op == "||"
    then some Opcode.op_or
    else if op == "%"
    then some Opcode.op_modulo
    else none

abbrev pub prefix_opcode : String → Option Opcode
prefix_opcode op =
    if op == "!" then some Opcode.op_bang else if op == "-" then some Opcode.op_minus else none

abbrev pub emit_operator : Option Opcode → Action
emit_operator none c = err "unknown operator"
emit_operator (some op) c = emit op c

-- `InfixExpr`, over its operands: `<` and `<=` are `>` and `>=` with the operands turned round.
unfoldable pub compile_infix : String → Action → Action → Action
compile_infix op left right c =
    if op == "<" || op == "<="
    then right c >>= left >>= emit (if op == "<" then Opcode.op_gt else Opcode.op_gte)
    else left c >>= right >>= emit_operator (infix_opcode op)

-- A name that is resolved and loaded: in the table, or behind it under a second name.
unfoldable pub resolve_second :
    Option String
    → Option (Symbol (Option Ty) × Bool) × Compiler
    → Option (Symbol (Option Ty) × Bool) × Compiler
resolve_second second (some found, c) = (some found, c)
resolve_second none (none, c) = (none, c)
resolve_second (some name) (none, c) = resolve_symbol name c

unfoldable pub load_found : Option (Symbol (Option Ty) × Bool) × Compiler → Result Compiler
load_found (none, c) = err "undefined variable"
load_found (some (symbol, from_outer), c) = load_symbol symbol c

unfoldable pub load_name : String → Option String → Action
unfolding resolve_second load_found
load_name name second c = load_found (resolve_second second (resolve_symbol name c))

-- `Identifier`
unfoldable pub compile_identifier : String → Action
unfolding load_name
compile_identifier name c =
    load_name name
      (if c.current_module == "" then none else some (mangle_module c.current_module name)) c

-- `VarDeclarationStmt`, over its value. A missing value is a zero value or null.
unfoldable pub zero_value : Option Ty → Action
zero_value (some (basic name)) c =
    if name == "bool"
    then emit Opcode.op_false c
    else if name == "int"
    then emit_constant (Const.integer 0) c
    else if name == "float"
    then emit_constant (Const.float 0) c
    else if name == "string"
    then emit_constant (Const.string "") c
    else if name == "byte"
    then emit_constant (Const.byte_value 0) c
    else emit Opcode.op_null c
zero_value _ c = emit Opcode.op_null c

abbrev is_function : SymbolScope → Bool
is_function SymbolScope.function = true
is_function _ = false

abbrev is_redeclared : Option (Symbol (Option Ty) × Bool) → Bool
is_redeclared none = false
is_redeclared (some (symbol, from_outer)) = not from_outer && not (is_function symbol.scope)

-- The name of a declaration: mangled where it stands at the top of a module.
abbrev declared_name : Compiler → String → String
declared_name c name = elim c.outer_scopes [ [] ↦ in_module c name | _ ∷ _ ↦ name ]

unfoldable pub compile_declaration : String → Bool → Option Ty → Action → Action
compile_declaration name constant typ value c =
    let name' = declared_name c name in
    let (found, c1) = resolve_symbol name' c in
    if is_redeclared found
    then err "variable already declared"
    else value c1 >>= bind constant name' typ

-- `VarAssignmentStmt`, over its value; a variable that is no global is stored as a local, also a
-- captured one.
unfoldable pub store_to : Option (Symbol (Option Ty) × Bool) → Action
store_to none c = err "undefined variable"
store_to (some (symbol, from_outer)) c =
    if symbol.is_constant then err "cannot assign to constant" else emit_set false symbol c

unfoldable pub compile_assignment : String → Action → Action
unfolding store_to
compile_assignment name value c = do
  c1 ← value c
  let (found, c2) = resolve_symbol name c1
  store_to found c2

-- The operands of a field: its index among the fields, or -1.
unfoldable pub index_of : String → List String → ℤ
index_of name [] = negsuc 0
index_of name (f ∷ fs) =
    if f == name
    then pos 0
    else elim (index_of name fs) [ pos n ↦ pos (suc n) | negsuc n ↦ negsuc n ]

-- `OpBox` for a cast of an expression with the type `concrete`.
unfoldable pub emit_box : Option ℕ → Action
emit_box none c = err "struct does not implement the interface"
emit_box (some at) c = emit_one Opcode.op_box at c

abbrev pub or_second {ℓ} : {A : Type ℓ} → Option A → Option A → Option A
or_second none o = o
or_second (some a) o = some a

-- The cast at the end of `Compile`: the table for the type and the interface in its module, or
-- the one for the interface's own name.
unfoldable pub compile_cast : Option String → String → String → Action
compile_cast none name mod_name c = err "expression has no concrete type"
compile_cast (some concrete) name mod_name c =
    let full = if mod_name == "" then name else mangle_module mod_name name in
    emit_box
      (or_second (lookup (concrete <> ":" <> full) c.itab_mapping)
        (lookup (concrete <> ":" <> name) c.itab_mapping))
      c
