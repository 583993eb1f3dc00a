-- ===== src/Compiler/Program.antt =====
-- compiler/compiler.go: `New`, and `Compile` of a whole program: the types and the functions that it
-- declares come first, then the method tables, then the statements.
use Prim.Native.String.{◌++◌ as ◌<>◌, compare}
use text.Mathlib.Text.{◌==◌, is_le}
use sydney.Base.{
  ℕ, suc, String, List, [], ◌∷◌, true, Option, none, some, length, lookup, insert, replicate, set,
  ltb, if◌then◌else◌, Result, ok, panic, ◌>>=◌,
}
use sydney.Types.{Ty, Tys, nil, cons, interface, struct}
use sydney.SymbolTable.{Table, define_builtin, new_symbol_table}
use sydney.Ast.{Stmt, Stmts}
use sydney.Compiler.State.{Compiler, Action, Const, empty_scope, add_constant}
use sydney.Compiler.Scopes.{resolve_symbol}
use sydney.Compiler.Names.{mangle_module, in_module, or_second}
use sydney.Compiler.Functions.{hoist}
use sydney.Compiler.Compile.{compile_stmts}

-- The built-in functions, by their names, in the table.
unfoldable pub define_builtins : ℕ → List String → Table (Option Ty) → Table (Option Ty)
unfolding define_builtin
define_builtins i [] t = t
define_builtins i (b ∷ bs) t = define_builtins (suc i) bs (define_builtin i b t).1

-- `New`, with the names of `object.Builtins`.
unfoldable pub new_compiler : List String → Compiler
unfolding define_builtins
new_compiler builtins = record {
  constants = [];
  symbol_table = define_builtins 0 builtins new_symbol_table ∷ [];
  scope = empty_scope;
  outer_scopes = [];
  itab_mapping = [];
  struct_types = [];
  interface_types = [];
  current_module = "";
  loop_contexts = [];
}

unfoldable pub indexed : ℕ → List String → List (String × ℕ)
indexed i [] = []
indexed i (m ∷ ms) = (m, i) ∷ indexed (suc i) ms

-- `setInterface`: the indices of the methods are filled in where there are none.
unfoldable pub fill_indices : Ty → Ty
unfolding indexed
fill_indices (interface name mod_name methods [] ts) =
    interface name mod_name methods (indexed 0 methods) ts
fill_indices t = t

unfoldable pub set_interface : String → Ty → Compiler → Compiler
unfolding fill_indices
set_interface name t c = record c {
  interface_types = insert name (fill_indices t) c.interface_types;
}

-- `setStruct`
unfoldable pub set_struct : String → Ty → Compiler → Compiler
set_struct name t c = record c { struct_types = insert name t c.struct_types }

abbrev unwrap_pub : Stmt → Stmt
unwrap_pub (Stmt.pub_statement s) = s
unwrap_pub s = s

-- What one statement of a program declares ahead of it.
unfoldable pub declare_ahead : Stmt → Action
unfolding set_interface set_struct hoist
declare_ahead (Stmt.interface_definition name t) c = ok (set_interface (in_module c name) t c)
declare_ahead (Stmt.struct_definition name t) c = ok (set_struct (in_module c name) t c)
declare_ahead (Stmt.function_declaration name mangled params t body extern) c =
    if extern then ok c else hoist true name mangled t c
declare_ahead _ c = ok c

unfoldable pub declare_all : Stmts → Action
unfolding declare_ahead
declare_all Stmts.done c = ok c
declare_all (Stmts.then_stmt s ss) c = declare_ahead (unwrap_pub s) c >>= declare_all ss

-- `fetchInterfaceType` by the name, the name in this module, and the name in the interface's module.
unfoldable pub fetch_interface : String → String → Compiler → Option Ty
fetch_interface name mod_name c = or_second (lookup name c.interface_types) (
    or_second
      (if c.current_module == ""
        then none
        else lookup (mangle_module c.current_module name) c.interface_types)
      (if mod_name == "" then none else lookup (mangle_module mod_name name) c.interface_types))

-- `mangle`
abbrev mangle : String → String → String
mangle struct_name method = struct_name <> "." <> method

-- The method table's entries: the global of each method, at the method's index.
unfoldable pub fill_itab :
    String → List (String × ℕ) → List ℕ → Compiler → Result (List ℕ × Compiler)
fill_itab struct_name [] entries c = ok (entries, c)
fill_itab struct_name ((method, at) ∷ ms) entries c =
    let (found, c1) = resolve_symbol (mangle struct_name method) c in
    elim found [
      | none ↦ panic
      | some found' ↦
          let (symbol, from_outer) = found' in
          let rest = fill_itab struct_name ms (set entries at symbol.index) c1 in
          if ltb at (length entries) then rest else panic
    ]

-- One method table of `buildItabsFromTypes`, of a type and an interface.
unfoldable pub build_itab : String → Ty → String → Option Ty → Action
unfolding fill_itab add_constant
build_itab key (struct name m fs ts is satisfied tps tas) iface
      (some (interface n m' methods indices ts')) c =
    do
      (entries, c1) ← fill_itab key indices (replicate (length methods) 0) c
      let (at, c2) = add_constant (Const.itab iface key entries) c1
      ok (record c2 { itab_mapping = insert (name <> ":" <> iface) at c2.itab_mapping })
build_itab key t iface found c = ok c

unfoldable pub build_for : String → Ty → Tys → Action
unfolding fetch_interface build_itab
build_for key t nil c = ok c
build_for key t (cons (interface name mod_name ms indices ts) is) c =
    build_itab key t name (fetch_interface name mod_name c) c >>= build_for key t is
build_for key t (cons _ is) c = build_for key t is c

abbrev interfaces_of : Ty → Tys
interfaces_of (struct name m fs ts is satisfied tps tas) = is
interfaces_of t = nil

unfoldable pub build_all : List (String × Ty) → Action
unfolding build_for
build_all [] c = ok c
build_all ((key, t) ∷ rest) c = build_for key t (interfaces_of t) c >>= build_all rest

-- `sort.Strings` on the names of the types.
unfoldable pub insert_sorted : String × Ty → List (String × Ty) → List (String × Ty)
insert_sorted e [] = e ∷ []
insert_sorted (key, t) ((key', t') ∷ rest) =
    if is_le (compare key key')
    then (key, t) ∷ (key', t') ∷ rest
    else (key', t') ∷ insert_sorted (key, t) rest

unfoldable pub sorted : List (String × Ty) → List (String × Ty)
unfolding insert_sorted
sorted [] = []
sorted (e ∷ es) = insert_sorted e (sorted es)

-- `buildItabsFromTypes`
unfoldable pub build_itabs : Action
unfolding sorted build_all
build_itabs c = build_all (sorted c.struct_types) c

-- `Compile` of an `ast.Program`.
unfoldable pub compile_program : Stmts → Action
unfolding declare_all build_itabs
compile_program ss c = do c1 ← declare_all ss c; c2 ← build_itabs c1; compile_stmts ss c2

-- `CompilePackages`, of the packages' names and merged statements.
unfoldable pub compile_packages : List (String × Stmts) → Action
unfolding compile_program
compile_packages [] c = ok c
compile_packages ((name, ss) ∷ ps) c = do
  c1 ← compile_program ss (record c { current_module = name })
  compile_packages ps (record c1 { current_module = "" })
