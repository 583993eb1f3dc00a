-- ===== src/Types.antt =====
-- types/type.go: the types of the language, and the substitution of type parameters; and
-- `containsTypeParamRef` of typechecker/typechecker.go, the test that a type has none left.
-- A slice of types is `Tys`, where an absent slice is an empty one; an absent constraint is `none`.
pub mod Substitution
pub mod Printed
use Prim.Native.String.{◌++◌ as ◌<>◌}
use sydney.Base.{ℕ, String, List, [], ◌∷◌, Bool, true, false, ◌||◌, Option, none, some, lookup}

mutual
  pub data Ty : Type 0 where
    basic : String → Ty
    -- ElemType, IsEmpty
    array : Ty → Bool → Ty
    -- Params, Return, Variadic, TypeParams
    func : Tys → Ty → Bool → Tys → Ty
    -- KeyType, ValueType, IsEmpty
    map_type : Ty → Ty → Bool → Ty
    -- Name, Module, Fields, Types, Interfaces, SatisfiedInterfaces, TypeParams, TypeArgs
    struct : String → String → List String → Tys → Tys → List String → Tys → Tys → Ty
    -- Name, Module, Methods, MethodIndices, Types
    interface : String → String → List String → List (String × ℕ) → Tys → Ty
    result : Ty → Ty
    option : Ty → Ty
    -- Module, Name
    scope : String → String → Ty
    -- Constraint, Name
    type_param : Constraint → String → Ty
    type_param_ref : String → Ty
    channel : Ty → Ty

  pub data Tys : Type 0 where
    nil : Tys
    cons : Ty → Tys → Tys

  pub data Constraint : Type 0 where
    unconstrained : Constraint
    constrained : Ty → Constraint

-- `Signature`, of every kind of type.
unfoldable mutual
  pub signature : Ty → String
  signature (basic b) = b
  signature (array t empty) = "array<" <> signature t <> ">"
  signature (func ps r variadic tps) = "func<(" <> signatures ps <> ") -> " <> signature r <> ">"
  signature (map_type k v empty) = "map<" <> signature k <> ", " <> signature v <> ">"
  signature (struct name mod_name fs ts is satisfied tps tas) = name
  signature (interface name mod_name ms indices ts) = name
  signature (result t) = "result<" <> signature t <> ">"
  signature (option t) = "option<" <> signature t <> ">"
  signature (scope mod_name name) = mod_name <> ":" <> name
  signature (type_param c name) = name <> signature_constraint c
  signature (type_param_ref name) = name
  signature (channel t) = "chan<" <> signature t <> ">"

  -- The parameters of a function, with `, ` between them.
  pub signatures : Tys → String
  signatures nil = ""
  signatures (cons t ts) = signature t <> signatures_rest ts

  pub signatures_rest : Tys → String
  signatures_rest nil = ""
  signatures_rest (cons t ts) = ", " <> signature t <> signatures_rest ts

  pub signature_constraint : Constraint → String
  signature_constraint unconstrained = ""
  signature_constraint (constrained t) = ":" <> signature t

abbrev pub or_self : Option Ty → Ty → Ty
or_self none t = t
or_self (some sub) t = sub

-- `SubstituteTypeParams`. A composite literal of the source that leaves `CollectionType` out sets
-- `IsEmpty` to false; channels and interfaces stand under no case and are given back.
unfoldable mutual
  pub substitute_type_params : Ty → List (String × Ty) → Ty
  substitute_type_params (type_param_ref name) subs =
      or_self (lookup name subs) (type_param_ref name)
  substitute_type_params (map_type k v empty) subs =
      map_type (substitute_type_params k subs) (substitute_type_params v subs) false
  substitute_type_params (array t empty) subs = array (substitute_type_params t subs) false
  substitute_type_params (result t) subs = result (substitute_type_params t subs)
  substitute_type_params (option t) subs = option (substitute_type_params t subs)
  substitute_type_params (func ps r variadic tps) subs =
      func (substitute_all ps subs) (substitute_type_params r subs) variadic tps
  substitute_type_params (struct name mod_name fs ts is satisfied tps tas) subs =
      struct name mod_name fs (substitute_all ts subs) is satisfied tps (substitute_all tas subs)
  substitute_type_params (basic b) subs = basic b
  substitute_type_params (interface name mod_name ms indices ts) subs =
      interface name mod_name ms indices ts
  substitute_type_params (scope mod_name name) subs = scope mod_name name
  substitute_type_params (type_param c name) subs = type_param c name
  substitute_type_params (channel t) subs = channel t

  pub substitute_all : Tys → List (String × Ty) → Tys
  substitute_all nil subs = nil
  substitute_all (cons t ts) subs = cons (substitute_type_params t subs) (substitute_all ts subs)

-- `containsTypeParamRef`; of a struct, its fields' types alone.
unfoldable mutual
  pub contains_type_param_ref : Ty → Bool
  contains_type_param_ref (type_param_ref name) = true
  contains_type_param_ref (array t empty) = contains_type_param_ref t
  contains_type_param_ref (map_type k v empty) =
      contains_type_param_ref k || contains_type_param_ref v
  contains_type_param_ref (func ps r variadic tps) = any_ref ps || contains_type_param_ref r
  contains_type_param_ref (struct name mod_name fs ts is satisfied tps tas) = any_ref ts
  contains_type_param_ref (result t) = contains_type_param_ref t
  contains_type_param_ref (option t) = contains_type_param_ref t
  contains_type_param_ref (basic b) = false
  contains_type_param_ref (interface name mod_name ms indices ts) = false
  contains_type_param_ref (scope mod_name name) = false
  contains_type_param_ref (type_param c name) = false
  contains_type_param_ref (channel t) = false

  pub any_ref : Tys → Bool
  any_ref nil = false
  any_ref (cons t ts) = contains_type_param_ref t || any_ref ts
