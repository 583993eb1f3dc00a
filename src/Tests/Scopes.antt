-- ===== src/Tests/Scopes.antt =====
-- Tests of the modules on compiler/symbol_table.go.
use sydney.Base.{
  ℕ, ◌≡◌, refl, List, [], ◌∷◌, true, false, none, some, lookup, insert, str_eq, if◌then◌else◌,
}
use sydney.SymbolTable.{
  SymbolScope, Table, new_symbol_table, define, raise_count, is_global_scope, resolve,
  import_symbol, define_free, new_enclosed,
}
use sydney.SymbolTable.Wellformed.{Wellformed}
use sydney.SymbolTable.Preserves.{define-Wellformed, new_enclosed-Wellformed}
use sydney.SymbolTable.Resolve.{Answers, resolve-Answers}
use sydney.SymbolTable.Fresh.{OwnBelow, define-OwnBelow, resolve-define_cases, Again, resolve-Again}

abbrev root : List (Table ℕ)
root = new_enclosed []

abbrev with_a : List (Table ℕ)
with_a = (define false "a" new_symbol_table []).1

-- A function around a function: the outer one has the local `b`.
abbrev outer : List (Table ℕ)
outer = (define false "b" new_symbol_table with_a).1

abbrev inner : List (Table ℕ)
inner = new_enclosed outer

inner-Wellformed : Wellformed inner
unfolding new_enclosed
inner-Wellformed = new_enclosed-Wellformed outer (
    define-Wellformed false "b" new_symbol_table with_a (
      new_enclosed-Wellformed with_a
        (define-Wellformed false "a" new_symbol_table [] (new_enclosed-Wellformed [] tt))))

-- `b` is captured from the inner function.
capture_b :
    (resolve "b" inner).0
    ≡ some (
      record { name = "b"; scope = SymbolScope.free; index = 0; is_constant = false; typ = none },
      true,
    )
unfolding resolve import_symbol define_free define raise_count is_global_scope lookup insert
    new_enclosed
capture_b = refl

define-Wellformed_example : Wellformed (define true "c" new_symbol_table outer).1
unfolding new_enclosed
define-Wellformed_example = define-Wellformed true "c" new_symbol_table outer inner-Wellformed

resolve-Answers_example : Answers (resolve "b" inner)
resolve-Answers_example = resolve-Answers "b" inner inner-Wellformed

define-OwnBelow_example :
    let s = (define {T = ℕ} true "c" new_symbol_table outer).0 in
    OwnBelow s.scope s.index new_symbol_table outer
unfolding new_enclosed
define-OwnBelow_example = define-OwnBelow true "c" new_symbol_table outer inner-Wellformed

resolve-define_cases_example : (resolve "b" (define true "c" new_symbol_table outer).1).0 ≡ (
    if str_eq "c" "b"
    then some ((define true "c" new_symbol_table outer).0, false)
    else (resolve "b" (new_symbol_table ∷ outer)).0)
resolve-define_cases_example = resolve-define_cases true "c" "b" new_symbol_table outer

resolve-Again_example : Again "b" (resolve "b" inner)
resolve-Again_example = resolve-Again "b" inner
