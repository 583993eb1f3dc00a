-- ===== src/Tests/Environments.antt =====
-- Tests of the modules on types/type.go, typechecker/type_env.go and object/scope.go.
use sydney.Base.{
  ℕ, ◌≡◌, refl, String, List, [], ◌∷◌, true, false, some, lookup, insert, str_eq, if◌then◌else◌, ok,
  err,
}
use sydney.Types.{
  Ty, basic, array, func, map_type, option, type_param_ref, channel, nil, cons, signature,
  substitute_type_params, contains_type_param_ref,
}
use sydney.Types.Printed.{printed, signature-substitute}
use sydney.Types.Substitution.{Covered, contains-substitute}
use sydney.TypeEnv.{Env, conflicts, has_open_function, set_type, get_type, set_const, is_const}
use sydney.TypeEnv.Laws.{get_type-set_type, set_type-keeps_signatures, is_const-shadowed}
use sydney.Scope.{Store, get, set_var, declare_var, assign_var}
use sydney.Scope.Laws.{assign_var-constant, assign_var-written, get-declare_var}

abbrev int : Ty
int = basic "int"

-- `map<K, func<(array<K>) -> option<V>>>`
abbrev generic : Ty
generic =
    map_type (type_param_ref "K")
      (func (cons (array (type_param_ref "K") true) nil) (option (type_param_ref "V")) false nil)
      false

abbrev subs : List (String × Ty)
subs = ("K", int) ∷ ("V", basic "string") ∷ []

generic-signature : signature generic ≡ "map<K, func<(array<K>) -> option<V>>>"
unfolding signature
generic-signature = refl

substituted :
    signature (substitute_type_params generic subs)
    ≡ "map<int, func<(array<int>) -> option<string>>>"
unfolding signature substitute_type_params lookup
substituted = refl

-- A channel keeps its parameter, and the test does not see it.
channel_kept :
    substitute_type_params (channel (type_param_ref "K")) subs ≡ channel (type_param_ref "K")
unfolding substitute_type_params
channel_kept = refl

channel_unseen : contains_type_param_ref (channel (type_param_ref "K")) ≡ false
unfolding contains_type_param_ref
channel_unseen = refl

generic-Covered : Covered generic subs
unfolding Covered contains_type_param_ref lookup
generic-Covered = ((int, refl, refl), (((int, refl, refl), tt), (basic "string", refl, refl)))

contains-substitute_example : contains_type_param_ref (substitute_type_params generic subs) ≡ false
contains-substitute_example = contains-substitute generic subs generic-Covered

signature-substitute_example :
    signature (substitute_type_params generic subs) ≡ printed generic subs
signature-substitute_example = signature-substitute generic subs

abbrev empty : Env
empty = record { store = []; constants = [] }

abbrev with_x : Env
with_x = record { store = ("x", int) ∷ []; constants = ("x", true) ∷ [] }

abbrev inner_x : Env
inner_x = record { store = ("x", int) ∷ []; constants = [] }

declared : set_type "x" int empty ≡ ok inner_x
unfolding set_type has_open_function conflicts lookup insert
declared = refl

get_type-set_type_example :
    get_type "x" (inner_x ∷ with_x ∷ [])
    ≡ (if str_eq "x" "x" then (some int, false) else get_type "x" (empty ∷ with_x ∷ []))
get_type-set_type_example = get_type-set_type "x" "x" int empty inner_x (with_x ∷ []) declared

again : set_type "x" int inner_x ≡ ok inner_x
unfolding set_type has_open_function conflicts lookup insert signature
again = refl

set_type-keeps_signatures_example :
    (u : Ty) × (lookup "x" inner_x.store ≡ some u) × (signature u ≡ signature int)
unfolding lookup
set_type-keeps_signatures_example =
    set_type-keeps_signatures "x" "x" int int inner_x inner_x again refl

-- The outer `x` is a constant, the inner one is not, and the inner one counts as constant.
is_const-shadowed_example :
    (get_type "x" (inner_x ∷ with_x ∷ []) ≡ (some int, false))
    × (is_const "x" (inner_x ∷ with_x ∷ []) ≡ is_const "x" (with_x ∷ []))
    × (get_type "x" (set_const "x" inner_x ∷ with_x ∷ []) ≡ (some int, false))
    × (is_const "x" (set_const "x" inner_x ∷ with_x ∷ [])
        ≡ (if str_eq "x" "x" then true else is_const "x" (with_x ∷ [])))
is_const-shadowed_example = is_const-shadowed "x" "x" int inner_x (with_x ∷ []) declared

outer_const : is_const "x" (inner_x ∷ with_x ∷ []) ≡ true
unfolding is_const lookup
outer_const = refl

abbrev scopes : List (Store ℕ)
scopes =
    (("a", record { value = 1; constant = false }) ∷ [])
    ∷ (("b", record { value = 2; constant = true })
        ∷ ("c", record { value = 3; constant = false })
        ∷ [])
    ∷ []

assign_var-constant_example : assign_var "b" 5 scopes ≡ err "cannot assign value to constant"
unfolding get lookup
assign_var-constant_example =
    assign_var-constant "b" 5 scopes (record { value = 2; constant = true }) refl refl

assign_var-written_example :
    (ss : List (Store ℕ)) × (assign_var "c" 5 scopes ≡ ok ss)
    × ((other : String)
        → (get other ss).0 ≡ (
            if str_eq "c" other
            then some (record { value = 5; constant = false })
            else (get other scopes).0))
unfolding get lookup
assign_var-written_example =
    assign_var-written "c" 5 scopes (record { value = 3; constant = false }) refl refl

abbrev declared_b : List (Store ℕ)
declared_b = (("b", record { value = 7; constant = true }) ∷ []) ∷ scopes

declares : declare_var (λ _. false) "b" 7 true [] scopes ≡ ok declared_b
unfolding declare_var get set_var lookup insert
declares = refl

get-declare_var_example : get "b" declared_b ≡ (
    if str_eq "b" "b"
    then (some (record { value = 7; constant = true }), false)
    else get "b" ([] ∷ scopes))
get-declare_var_example = get-declare_var (λ _. false) "b" "b" 7 true [] scopes declared_b declares
