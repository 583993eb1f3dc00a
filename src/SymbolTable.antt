-- ===== src/SymbolTable.antt =====
-- compiler/symbol_table.go: the scopes of the compiler.
-- The chain of tables is a list, the innermost first: `Outer` is the rest of the list. The compiler
-- holds one chain at a time, and an operation that writes to an outer table returns the new chain.
pub mod Wellformed
pub mod Preserves
pub mod Resolve
pub mod Fresh
use sydney.Base.{
  ℕ, suc, String, List, [], ◌∷◌, ◌++◌, Bool, true, false, Option, none, some, length, ◌&&◌, ◌||◌,
  if◌then◌else◌, lookup, insert,
}

-- `unset` is the scope of a zero `Symbol`.
pub data SymbolScope : Type 0 where
  global local builtin free function unset : SymbolScope

module _ (T : Type 0) where
  pub record Symbol : Type 0 where
    pub name : String
    pub scope : SymbolScope
    pub index : ℕ
    pub is_constant : Bool
    pub typ : Option T

  pub record Table : Type 0 where
    pub store : List (String × Symbol)
    pub num_definitions : ℕ
    pub free_symbols : List Symbol
    pub is_block_scoped : Bool

  -- What `Resolve` gives: the symbol and whether it came from an outer table (`none` where the
  -- source's last result is `false`), and the chain afterwards.
  abbrev pub Resolved : Type 0
  Resolved = Option (Symbol × Bool) × List Table

-- The scopes whose symbols every table uses as they are.
abbrev pub is_shared : SymbolScope → Bool
is_shared global = true
is_shared builtin = true
is_shared _ = false

module _ {T : Type 0} where
  -- `NewSymbolTable`
  abbrev pub new_symbol_table : Table T
  new_symbol_table = record {
    store = [];
    num_definitions = 0;
    free_symbols = [];
    is_block_scoped = false;
  }

  -- `isGlobalScope`, of the table at the head of a chain.
  unfoldable pub is_global_scope : Table T → List (Table T) → Bool
  is_global_scope t [] = true
  is_global_scope t (o ∷ os) = t.is_block_scoped && is_global_scope o os

  -- The loop of `DefineMutable` and `DefineImmutable`: a block's count goes to its outer table.
  unfoldable pub raise_count : Table T → List (Table T) → List (Table T)
  raise_count t [] = []
  raise_count t (o ∷ os) =
      let o' = record o { num_definitions = t.num_definitions } in
      if t.is_block_scoped then o' ∷ raise_count o' os else o ∷ os

  -- `DefineMutable` (with `false`) and `DefineImmutable` (with `true`): the symbol and the chain.
  unfoldable pub define : Bool → String → Table T → List (Table T) → Symbol T × List (Table T)
  define constant name t os =
      let scope = if is_global_scope t os then global else local in
      let symbol : Symbol T = record {
        name = name;
        scope = scope;
        index = t.num_definitions;
        is_constant = constant;
        typ = none;
      } in
      let t' = record t {
        store = insert name symbol t.store;
        num_definitions = suc t.num_definitions;
      } in
      (symbol, t' ∷ raise_count t' os)

  -- `DefineBuiltin`
  unfoldable pub define_builtin : ℕ → String → Table T → Symbol T × Table T
  define_builtin index name t =
      let symbol : Symbol T = record {
        name = name;
        scope = builtin;
        index = index;
        is_constant = true;
        typ = none;
      } in
      (symbol, record t { store = insert name symbol t.store })

  -- `defineFree`
  unfoldable pub define_free : Symbol T → Table T → Symbol T × Table T
  define_free original t =
      let symbol : Symbol T = record {
        name = original.name;
        scope = free;
        index = length t.free_symbols;
        is_constant = original.is_constant;
        typ = none;
      } in
      (
        symbol,
        record t {
          free_symbols = t.free_symbols ++ original ∷ [];
          store = insert original.name symbol t.store;
        },
      )

  -- The zero `Symbol`, which a Go map gives for a missing key.
  abbrev zero_symbol : Symbol T
  zero_symbol = record { name = ""; scope = unset; index = 0; is_constant = false; typ = none }

  abbrev or_zero : Option (Symbol T) → Symbol T
  or_zero none = zero_symbol
  or_zero (some s) = s

  -- `AnnotateType`
  unfoldable pub annotate_type : String → T → Table T → Table T
  annotate_type name typ t =
      let s = or_zero (lookup name t.store) in
      record t { store = insert name (record s { typ = some typ }) t.store }

  -- The rest of `Resolve` once the outer chain has answered.
  unfoldable pub import_symbol : Table T → Resolved T → Resolved T
  import_symbol t (none, os) = (none, t ∷ os)
  import_symbol t (some (symbol, _), os) =
      if is_shared symbol.scope || t.is_block_scoped
      then (some (symbol, true), t ∷ os)
      else let (own, t') = define_free symbol t in (some (own, true), t' ∷ os)

  unfoldable pub resolve : String → List (Table T) → Resolved T
  resolve name [] = (none, [])
  resolve name (t ∷ os) = elim (lookup name t.store) [
    | some symbol ↦ (some (symbol, false), t ∷ os)
    | none ↦ import_symbol t (resolve name os)
  ]

  -- `NewEnclosedSymbolTable` and `NewBlockScopedSymbolTable`, in front of the chain.
  unfoldable pub new_enclosed : List (Table T) → List (Table T)
  new_enclosed os = new_symbol_table ∷ os

  unfoldable pub new_block_scoped : Table T → List (Table T) → List (Table T)
  new_block_scoped o os =
      record new_symbol_table { is_block_scoped = true; num_definitions = o.num_definitions }
      ∷ o
      ∷ os

  -- `DefineFunctionName`
  unfoldable pub define_function_name : String → Table T → Symbol T × Table T
  define_function_name name t =
      let symbol : Symbol T = record {
        name = name;
        scope = function;
        index = 0;
        is_constant = false;
        typ = none;
      } in
      (symbol, record t { store = insert name symbol t.store })

  -- `DefineAlias`
  unfoldable pub define_alias : String → Symbol T → Table T → Table T
  define_alias name original t = record t { store = insert name original t.store }
