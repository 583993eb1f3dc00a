-- ===== src/TypeChecker.antt =====
-- typechecker/typechecker.go: `unifyType`, with which a call of a generic function finds the types of
-- its parameters.
use sydney.Base.{String, List, [], ◌∷◌, Option, none, some, lookup, insert}
use sydney.Types.{Ty}
pub mod Inference
pub mod Paths

-- `if _, ok := subs[name]; !ok { subs[name] = arg }`
unfoldable pub bind_missing : String → Ty → List (String × Ty) → List (String × Ty)
bind_missing name arg subs = elim (lookup name subs) [ none ↦ insert name arg subs | some t ↦ subs ]

-- `unifyType`: the type of a parameter, and the type of its argument.
unfoldable pub unify_type : Ty → Ty → List (String × Ty) → List (String × Ty)
unfolding bind_missing
unify_type (Ty.type_param_ref name) arg subs = bind_missing name arg subs
unify_type (Ty.array t empty) (Ty.array a e) subs = unify_type t a subs
unify_type (Ty.map_type k v empty) (Ty.map_type k' v' e) subs =
    unify_type v v' (unify_type k k' subs)
unify_type (Ty.result t) (Ty.result a) subs = unify_type t a subs
unify_type _ _ subs = subs
