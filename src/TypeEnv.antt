-- ===== src/TypeEnv.antt =====
-- typechecker/type_env.go: the type checker's environments. An environment with its outer ones is
-- a list, the innermost first. `MethodsOf` walks a Go map, whose order the language leaves open, and
-- is left out.
pub mod Laws
use text.Mathlib.Text.{◌==◌}
use sydney.Base.{
  String, List, [], ◌∷◌, Bool, true, false, not, ◌||◌, Option, none, some, lookup, insert,
  if◌then◌else◌, Result, ok, panic,
}
use sydney.Types.{
  Ty, func, basic, array, map_type, struct, interface, result, option, scope, type_param,
  type_param_ref, channel, signature, contains_type_param_ref, any_ref,
}

pub record Env : Type 0 where
  pub store : List (String × Ty)
  pub constants : List (String × Bool)

-- `NewTypeEnv`, in front of the chain.
unfoldable pub new_type_env : List Env → List Env
new_type_env os = record { store = []; constants = [] } ∷ os

-- The first guard of `Set`: a function type with a type parameter left.
unfoldable pub has_open_function : Ty → Bool
has_open_function (func ps r variadic tps) = any_ref ps || contains_type_param_ref r
has_open_function _ = false

-- The second: the name stands in this environment with another signature.
unfoldable pub conflicts : Option Ty → Ty → Bool
conflicts none t = false
conflicts (some existing) t = not (signature existing == signature t)

-- `Set`, on the innermost environment.
unfoldable pub set_type : String → Ty → Env → Result Env
set_type name t e =
    if has_open_function t || conflicts (lookup name e.store) t
    then panic
    else ok (record e { store = insert name t e.store })

-- `Get`: the type, if there is one, and whether the search went to an outer environment.
unfoldable pub get_type : String → List Env → Option Ty × Bool
get_type name [] = (none, false)
get_type name (e ∷ os) = elim (lookup name e.store) [
  | some t ↦ (some t, false)
  | none ↦ elim os [ [] ↦ (none, false) | _ ∷ _ ↦ ((get_type name os).0, true) ]
]

-- `SetConst`
unfoldable pub set_const : String → Env → Env
set_const name e = record e { constants = insert name true e.constants }

-- `IsConst`
unfoldable pub is_const : String → List Env → Bool
is_const name [] = false
is_const name (e ∷ os) = elim (lookup name e.constants) [ some c ↦ c | none ↦ is_const name os ]
