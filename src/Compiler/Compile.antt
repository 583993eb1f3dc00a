-- ===== src/Compiler/Compile.antt =====
-- compiler/compiler.go: `Compile`, a function for each sort of node. A call through an interface and the
-- operators `<` and `<=` return early, so that a cast on them is passed over.
use text.Mathlib.Text.{◌==◌}
use mathlib.Core.Option
use sydney.Base.{
  ℕ, zero, suc, ◌++◌, ◌*◌, String, List, [], ◌∷◌, Bool, true, false, Option, none, some, ◌||◌,
  lookup, if◌then◌else◌, ℤ, pos, negsuc, Result, ok, err, panic, ◌>>=◌,
}
use sydney.Code.{Opcode}
use sydney.Types.{Ty, interface, array, map_type, signature}
use sydney.Ast.{Expr, Exprs, Pairs, OptExpr, Else, Arms, Stmt, OptStmt, Stmts}
use sydney.Compiler.State.{
  Compiler, Action, Const, emit, emit_one, emit_all, emit_constant, add_constant,
}
use sydney.Compiler.Scopes.{push_block_scope, pop_block_scope}
use sydney.Compiler.Control.{compile_if, compile_for, compile_break, compile_continue}
use sydney.Compiler.ForIn.{compile_for_in_array, compile_for_in_map}
use sydney.Compiler.Match.{
  compile_result_match, compile_option_match, compile_type_arm, end_type_match,
}
use sydney.Compiler.Names.{
  compile_infix, prefix_opcode, emit_operator, compile_identifier, load_name, zero_value,
  compile_declaration, compile_assignment, index_of, compile_cast, mangle_module, or_second,
}
use sydney.Compiler.Functions.{
  compile_function_literal, compile_function_declaration, compile_call, compile_method_call, hoist,
}

-- `getConcreteType`
abbrev concrete_of : Option Ty → Option String
concrete_of none = none
concrete_of (some t) = some (signature t)

unfoldable pub concrete_type : Expr → Option String
concrete_type (Expr.struct_literal t fields names values) = some (signature t)
concrete_type (Expr.identifier name t) = concrete_of t
concrete_type (Expr.call function arguments mangled t) = concrete_of t
concrete_type (Expr.scope_access mod_name member t) = concrete_of t
concrete_type _ = none

-- The type of an expression whose type `isInterfaceType` reads.
unfoldable pub read_type : Expr → Option Ty
read_type (Expr.identifier name t) = t
read_type (Expr.call function arguments mangled t) = t
read_type (Expr.selector left fields name t) = t
read_type (Expr.index_expr left index t) = t
read_type _ = none

-- The index of a method in an interface's type, by the authoritative type if the compiler has it.
abbrev method_index : String → Option Ty → Option ℕ
method_index name (some (interface n m methods indices ts)) = lookup name indices
method_index name _ = none

abbrev interface_name : Ty → String
interface_name (interface name mod_name ms is ts) =
    if mod_name == "" then name else mangle_module mod_name name
interface_name _ = ""

-- A call of a method through an interface, if the call is one: the index of the method.
abbrev pub is_interface : Option Ty → Bool
is_interface (some (interface n m ms is ts)) = true
is_interface _ = false

abbrev called_interface : Option Ty → Compiler → Option Ty
called_interface none c = none
called_interface (some t) c = or_second (lookup (interface_name t) c.interface_types) (some t)

unfoldable pub is_method_call : Expr → Bool
unfolding read_type
is_method_call (Expr.selector left fields name t) = is_interface (read_type left)
is_method_call _ = false

abbrev count : Exprs → ℕ
count Exprs.nil = 0
count (Exprs.cons e es) = suc (count es)

abbrev count_pairs : Pairs → ℕ
count_pairs Pairs.no_pairs = 0
count_pairs (Pairs.pair k v ps) = suc (count_pairs ps)

-- Whether `Compile` returns before the cast.
unfoldable pub returns_early : Expr → Bool
unfolding is_method_call
returns_early (Expr.infix_expr op l r) = op == "<" || op == "<="
returns_early (Expr.call function arguments mangled t) = is_method_call function
returns_early _ = false

-- The values of a struct literal in the order of the type's fields; a field that the literal lacks
-- is an index out of range.
abbrev value_at : ℤ → List Action → Action
value_at (negsuc n) actions c = panic
value_at (pos n) [] c = panic
value_at (pos zero) (a ∷ rest) c = a c
value_at (pos (suc n)) (a ∷ rest) c = value_at (pos n) rest c

unfoldable pub compile_fields : List String → List String → List Action → Action
unfolding index_of
compile_fields [] names values c = ok c
compile_fields (f ∷ fs) names values c =
    value_at (index_of f names) values c >>= compile_fields fs names values

abbrev pub field_count : List String → ℕ
field_count [] = 0
field_count (f ∷ fs) = suc (field_count fs)

-- The functions that a block declares, and those of a program, ahead of it.
unfoldable pub hoist_block : Stmts → Action
unfolding hoist
hoist_block Stmts.done c = ok c
hoist_block (Stmts.then_stmt (Stmt.function_declaration name mangled params typ body extern) ss) c =
    hoist false name mangled typ c >>= hoist_block ss
hoist_block (Stmts.then_stmt s ss) c = hoist_block ss c

-- `BlockStmt`, over what the compiler does on its statements.
unfoldable pub in_block : Stmts → Action → Action
unfolding hoist_block push_block_scope
in_block ss body c = do
  c1 ← hoist_block ss c
  c2 ← push_block_scope c1
  c3 ← body c2
  ok (pop_block_scope c3)

-- The cast at the end of `Compile`.
unfoldable pub cast_after : Expr → String → String → Action
unfolding returns_early compile_cast concrete_type
cast_after e name mod_name c =
    if returns_early e then ok c else compile_cast (concrete_type e) name mod_name c

-- `c.emit(code.OpStruct, c.addConstant(typeObj), len(t.Fields))`
unfoldable pub emit_struct : Ty → ℕ → Action
unfolding add_constant
emit_struct t fields c =
    let (at, c') = add_constant (Const.type_object t) c in
    emit_all Opcode.op_struct (pos at ∷ pos fields ∷ []) c'

abbrev or_nothing : Option Action → Action
or_nothing none = ok
or_nothing (some a) = a

abbrev name_of : String × Option Ty → String
name_of (name, t) = name

-- `compileForInStmt`; a loop over a map that names no key reads a nil pointer.
unfoldable pub compile_for_in :
    Option (String × Option Ty) → String → Option Ty → Option Ty → Action → Action → Action
compile_for_in (some (key, key_type)) value value_type (some (map_type k v e)) iterable body =
    compile_for_in_map key key_type value value_type iterable (some (map_type k v e)) body
compile_for_in none value value_type (some (map_type k v e)) iterable body = λ c. panic
compile_for_in key value value_type (some (array t e)) iterable body =
    compile_for_in_array (Option.map name_of key) value value_type iterable (some (array t e)) body
compile_for_in key value value_type t iterable body =
    λ c. err "for-in statement iterable is neither array nor map"

unfoldable mutual
  pub compile : Expr → Action
  compile (Expr.integer_literal n) = emit_constant (Const.integer n)
  compile (Expr.float_literal n) = emit_constant (Const.float n)
  compile (Expr.byte_literal n) = emit_constant (Const.byte_value n)
  compile (Expr.string_literal s) = emit_constant (Const.string s)
  compile (Expr.boolean_literal b) = emit (if b then Opcode.op_true else Opcode.op_false)
  compile Expr.null_literal = emit Opcode.op_null
  compile (Expr.identifier name t) = compile_identifier name
  compile (Expr.prefix op right) = λ c. compile right c >>= emit_operator (prefix_opcode op)
  compile (Expr.infix_expr op left right) = compile_infix op (compile left) (compile right)
  compile (Expr.if_expr condition consequence alternative t) =
      compile_if (compile condition) (in_block consequence (compile_stmts consequence))
        (compile_else alternative) t
  compile (Expr.index_expr left index t) =
      λ c. compile left c >>= compile index >>= emit Opcode.op_index
  compile (Expr.call (Expr.selector left fields name t) arguments mangled t') = λ c.
      if is_interface (read_type left)
      then compile_method_call (method_index name (called_interface (read_type left) c))
          (count arguments) (compile_all arguments) (compile left) c
      else compile_call mangled (count arguments)
          (λ c'. compile left c' >>= emit_all Opcode.op_get_field (index_of name fields ∷ []))
          (compile_all arguments) c
  compile (Expr.call function arguments mangled t) =
      compile_call mangled (count arguments) (compile function) (compile_all arguments)
  compile (Expr.array_literal elements) =
      λ c. compile_all elements c >>= emit_one Opcode.op_array (count elements)
  compile (Expr.hash_literal pairs) =
      λ c. compile_pairs pairs c >>= emit_one Opcode.op_hash (count_pairs pairs * 2)
  compile (Expr.function_literal name parameters body) =
      compile_function_literal name parameters (in_block body (compile_stmts body))
  compile (Expr.struct_literal t fields names values) =
      λ c. compile_fields fields names (actions values) c >>= emit_struct t (field_count fields)
  compile (Expr.selector left fields name t) =
      λ c. compile left c >>= emit_all Opcode.op_get_field (index_of name fields ∷ [])
  compile (Expr.scope_access mod_name member t) =
      load_name (mangle_module mod_name member) (some member)
  compile (Expr.match_result subject ok_binding ok_body err_binding err_body t) =
      compile_result_match (compile subject) ok_binding (in_block ok_body (compile_stmts ok_body))
        err_binding (in_block err_body (compile_stmts err_body)) t
  compile (Expr.match_option subject binding some_body none_body t) =
      compile_option_match (compile subject) binding (in_block some_body (compile_stmts some_body))
        (in_block none_body (compile_stmts none_body)) t
  compile (Expr.match_type subject arms default_arm t) = λ c.
      compile_arms (compile subject) none [] t arms c >>= λ (previous, jump_ends, c').
      end_type_match previous jump_ends (compile_else default_arm) t c'
  compile (Expr.slice left start end) = λ c.
      compile_or (emit_constant (Const.integer 0)) start c
      >>= compile_or (emit_constant (Const.integer 18446744073709551615)) end
      >>= compile left
      >>= emit Opcode.op_slice
  compile (Expr.channel_constructor capacity) =
      λ c. compile_or (emit_constant (Const.integer 0)) capacity c >>= emit Opcode.op_make_channel
  compile (Expr.receive chan) = λ c. compile chan c >>= emit Opcode.op_receive
  compile (Expr.cast e name mod_name) = λ c. compile e c >>= cast_after e name mod_name

  pub compile_all : Exprs → Action
  compile_all Exprs.nil = ok
  compile_all (Exprs.cons e es) = λ c. compile e c >>= compile_all es

  pub actions : Exprs → List Action
  actions Exprs.nil = []
  actions (Exprs.cons e es) = compile e ∷ actions es

  pub compile_pairs : Pairs → Action
  compile_pairs Pairs.no_pairs = ok
  compile_pairs (Pairs.pair key value ps) =
      λ c. compile key c >>= compile value >>= compile_pairs ps

  pub compile_or : Action → OptExpr → Action
  compile_or otherwise OptExpr.absent = otherwise
  compile_or otherwise (OptExpr.present e) = compile e

  pub compile_else : Else → Option Action
  compile_else Else.no_else = none
  compile_else (Else.else_block ss) = some (in_block ss (compile_stmts ss))

  pub compile_arms :
      Action
      → Option ℕ
      → List ℕ
      → Option Ty
      → Arms
      → Compiler
      → Result (Option ℕ × List ℕ × Compiler)
  compile_arms subject previous jump_ends t Arms.no_arms c = ok (previous, jump_ends, c)
  compile_arms subject previous jump_ends t (Arms.arm arm_type binding body arms) c =
      compile_type_arm subject previous arm_type binding (in_block body (compile_stmts body)) t c
      >>= λ (jump, jump_end, c').
          compile_arms subject (some jump) (jump_ends ++ jump_end ∷ []) t arms c'

  pub compile_stmts : Stmts → Action
  compile_stmts Stmts.done = ok
  compile_stmts (Stmts.then_stmt s ss) = λ c. compile_stmt s c >>= compile_stmts ss

  pub compile_stmt : Stmt → Action
  compile_stmt (Stmt.expression_stmt e) = λ c. compile e c >>= emit Opcode.op_pop
  compile_stmt (Stmt.block_stmt ss) = in_block ss (compile_stmts ss)
  compile_stmt (Stmt.var_declaration name constant t value) =
      compile_declaration name constant t (compile_or (zero_value t) value)
  compile_stmt (Stmt.var_assignment name value) = compile_assignment name (compile value)
  compile_stmt (Stmt.index_assignment left index value) =
      λ c. compile left c >>= compile index >>= compile value >>= emit Opcode.op_index_set
  compile_stmt (Stmt.selector_assignment left fields name value) = λ c.
      compile left c >>= compile value >>= emit_all Opcode.op_set_field (index_of name fields ∷ [])
  compile_stmt (Stmt.return_stmt value) = λ c. compile_or ok value c >>= emit Opcode.op_return_value
  compile_stmt (Stmt.for_stmt init condition post body) =
      compile_for (or_nothing (compile_opt init)) (compile condition) (compile_opt post)
        (in_block body (compile_stmts body))
  compile_stmt (Stmt.for_in_stmt key value value_type iterable t body) =
      compile_for_in key value value_type t (compile iterable) (in_block body (compile_stmts body))
  compile_stmt (Stmt.function_declaration name mangled params t body extern) =
      if extern
      then ok
      else compile_function_declaration name mangled params t (in_block body (compile_stmts body))
  compile_stmt Stmt.break_stmt = compile_break
  compile_stmt Stmt.continue_stmt = compile_continue
  compile_stmt (Stmt.spawn_stmt function arguments) = λ c.
      compile function c >>= compile_all arguments >>= emit_one Opcode.op_spawn (count arguments)
  compile_stmt (Stmt.send_stmt chan value) =
      λ c. compile chan c >>= compile value >>= emit Opcode.op_send
  compile_stmt (Stmt.pub_statement s) = compile_stmt s
  compile_stmt (Stmt.interface_definition name t) = ok
  compile_stmt (Stmt.struct_definition name t) = ok

  pub compile_opt : OptStmt → Option Action
  compile_opt OptStmt.no_stmt = none
  compile_opt (OptStmt.some_stmt s) = some (compile_stmt s)
