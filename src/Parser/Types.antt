-- ===== src/Parser/Types.antt =====
-- parser/parser.go: types, type parameters and type arguments. A nil type is `nil_type`.
use sydney.Base.{
  ℕ, ◌==◌, String, List, [], ◌∷◌, Bool, true, false, not, ◌&&◌, ◌||◌, Option, none, some, lookup,
  insert, if◌then◌else◌, ok, length,
}
use sydney.Token.{TokenType, same_type}
use sydney.Types.{Ty, Tys, substitute_type_params}
use sydney.Parser.State.{
  P, pure, ◌>>=◌, ◌>>◌, Rec, text, next_token, peek_token_is, curr_type, literal, complain,
  expecting_or, gather,
}

abbrev pub nil_type : Ty
nil_type = Ty.basic ""

abbrev pub unit_type : Ty
unit_type = Ty.basic "unit"

-- Go slices of types.
unfoldable pub tys : List Ty → Tys
tys [] = Tys.nil
tys (t ∷ ts) = Tys.cons t (tys ts)

unfoldable pub list_of : Tys → List Ty
list_of Tys.nil = []
list_of (Tys.cons t ts) = t ∷ list_of ts

-- `typeMap`
unfoldable pub type_map : TokenType → Option Ty
type_map TokenType.int_type = some (Ty.basic "int")
type_map TokenType.float_type = some (Ty.basic "float")
type_map TokenType.string_type = some (Ty.basic "string")
type_map TokenType.null = some (Ty.basic "null")
type_map TokenType.bool_type = some (Ty.basic "bool")
type_map TokenType.byte_type = some (Ty.basic "byte")
type_map TokenType.any_type = some (Ty.basic "any")
type_map _ = none

abbrev pub is_compound_type : TokenType → Bool
is_compound_type TokenType.function_type = true
is_compound_type TokenType.map_type = true
is_compound_type TokenType.result_type = true
is_compound_type TokenType.option_type = true
is_compound_type TokenType.channel_type = true
is_compound_type TokenType.array_type = true
is_compound_type _ = false

abbrev pub is_there {ℓ} : {A : Type ℓ} → Option A → Bool
is_there none = false
is_there (some a) = true

abbrev pub same : TokenType → TokenType → Bool
same a b = same_type a b

-- `isPeekTokenType`
unfoldable pub is_peek_token_type : P Bool
is_peek_token_type p =
    let t = p.peek_token.typ in
    let name = text p.peek_token.literal in
    ok (
      is_there (type_map t)
          || is_compound_type t
          || (same t TokenType.identifier && same p.peek_peek_token.typ TokenType.colon)
          || is_there (lookup name p.defined_structs)
          || is_there (lookup name p.type_parameters),
      p,
    )

-- The names in the parser's tables.
abbrev pub struct_named : List ℕ → P (Option Ty)
struct_named name p = ok (lookup (text name) p.defined_structs, p)

abbrev pub interface_named : List ℕ → P (Option Ty)
interface_named name p = ok (lookup (text name) p.defined_interfaces, p)

abbrev pub is_generic : List ℕ → P Bool
is_generic name p = ok (is_there (lookup (text name) p.generic_names), p)

abbrev pub is_type_parameter : List ℕ → P Bool
is_type_parameter name p = ok (is_there (lookup (text name) p.type_parameters), p)

-- `TypeParams` of a struct type, and the type with its arguments in their place.
abbrev pub type_params_of : Ty → Tys
type_params_of (Ty.struct name m fs ts is sat tps tas) = tps
type_params_of _ = Tys.nil

abbrev pub param_name : Ty → String
param_name (Ty.type_param c name) = name
param_name _ = ""

abbrev pub with_type_args : List Ty → Ty → Ty
with_type_args args (Ty.struct name m fs ts is sat tps tas) =
    Ty.struct name m fs ts is sat Tys.nil (tys args)
with_type_args args t = t

unfoldable pub bindings : List Ty → List Ty → List (String × Ty) → List (String × Ty)
bindings [] args subs = subs
bindings (tp ∷ tps) [] subs = subs
bindings (tp ∷ tps) (a ∷ args) subs = bindings tps args (insert (param_name tp) a subs)

-- The composite literal of a generic struct.
unfoldable pub instantiate : Ty → List Ty → Ty
unfolding list_of bindings tys
instantiate template args =
    with_type_args args
      (substitute_type_params template (bindings (list_of (type_params_of template)) args []))

module _ (r : Rec) where
  -- `parseTypeArgs`: the current token is the first type's.
  unfoldable pub parse_type_args : P (List Ty)
  unfolding peek_token_is next_token expecting_or gather
  parse_type_args = do
    t ← r.typ
    found ←
        gather r.rounds (peek_token_is TokenType.comma)
          (do next_token; next_token; u ← r.typ; pure (some u)) (t ∷ [])
    expecting_or TokenType.greater_than "expected < after type arg list" []
        (pure (elim found [ none ↦ [] | some ts ↦ ts ]))

  -- `array`, `result`, `option` and `chan` types: one type in angle brackets.
  unfoldable pub parse_one : String → (Ty → Ty) → P Ty
  unfolding expecting_or next_token
  parse_one message make =
      expecting_or TokenType.less_than message nil_type do
        next_token
        t ← r.typ
        expecting_or TokenType.greater_than message nil_type (pure (make t))

  -- `parseMapType`
  unfoldable pub parse_map_type : P Ty
  unfolding expecting_or next_token
  parse_map_type =
      let message : String = "for map type annotation" in
      expecting_or TokenType.less_than message nil_type do
        next_token
        k ← r.typ
        expecting_or TokenType.comma message nil_type do
          next_token
          v ← r.typ
          expecting_or TokenType.greater_than message nil_type (pure (Ty.map_type k v false))

  -- `parseFunctionType`. The last `>` is complained of, and the type is made all the same.
  unfoldable pub param_type : P (Option Ty)
  unfolding next_token peek_token_is expecting_or
  param_type = do
    next_token
    t ← r.typ
    closed ← peek_token_is TokenType.right_paren
    if closed
        then pure (some t)
        else expecting_or TokenType.comma "for function type annotation" none (pure (some t))

  unfoldable pub end_function_type : List Ty → P Ty
  unfolding expecting_or next_token
  end_function_type params =
      let message : String = "for function type annotation" in
      expecting_or TokenType.right_paren message nil_type (
        expecting_or TokenType.arrow message nil_type do
          next_token
          t ← r.typ
          let made = Ty.func (tys params) t false Tys.nil
          expecting_or TokenType.greater_than message made (pure made))

  unfoldable pub parse_function_type : P Ty
  unfolding expecting_or gather peek_token_is param_type end_function_type
  parse_function_type =
      let message : String = "for function type annotation" in
      expecting_or TokenType.less_than message nil_type (
        expecting_or TokenType.left_paren message nil_type do
          found ←
              gather r.rounds (peek_token_is TokenType.right_paren >>= λ b. pure (not b)) param_type
                []
          elim found [ none ↦ pure nil_type | some ts ↦ end_function_type ts ])

  -- A name as a type: a parameter, a generic struct with its arguments, a name of a module, a struct
  -- or an interface.
  unfoldable pub unknown_type : P Ty
  unfolding complain
  unknown_type = complain "unknown type" >> pure nil_type

  unfoldable pub plain_named : List ℕ → P Ty
  unfolding unknown_type
  plain_named name = do
    s ← struct_named name
    i ← interface_named name
    elim s [ some t ↦ pure t | none ↦ elim i [ some t ↦ pure t | none ↦ unknown_type ] ]

  unfoldable pub generic_struct : List ℕ → P Ty
  unfolding complain next_token parse_type_args instantiate list_of
  generic_struct name = do
    template ← struct_named name
    elim template [
      | none ↦ complain "unknown generic struct" >> pure nil_type
      | some t ↦ (do
        next_token
        next_token
        args ← parse_type_args
        if length args == length (list_of (type_params_of t))
            then pure (instantiate t args)
            else (complain "expects exactly another number of type arguments" >> pure nil_type))
    ]

  unfoldable pub scope_or_named : List ℕ → P Ty
  unfolding peek_token_is next_token plain_named
  scope_or_named name = do
    scoped ← peek_token_is TokenType.colon
    if scoped
        then (do
          next_token
          next_token
          member ← literal
          pure (Ty.scope (text name) (text member)))
        else plain_named name

  unfoldable pub parse_named_type : P Ty
  unfolding peek_token_is generic_struct scope_or_named
  parse_named_type = do
    name ← literal
    parameter ← is_type_parameter name
    generic ← is_generic name
    angle ← peek_token_is TokenType.less_than
    if parameter
        then pure (Ty.type_param_ref (text name))
        else if generic && angle
        then generic_struct name
        else scope_or_named name

  unfoldable pub compound_type : TokenType → P Ty
  unfolding parse_one parse_map_type parse_function_type parse_named_type unknown_type
  compound_type TokenType.map_type = parse_map_type
  compound_type TokenType.array_type = parse_one "for array type annotation" (λ t. Ty.array t false)
  compound_type TokenType.function_type = parse_function_type
  compound_type TokenType.result_type = parse_one "for result type annotation" Ty.result
  compound_type TokenType.option_type = parse_one "for option type annotation" Ty.option
  compound_type TokenType.channel_type = parse_one "for chan type annotation" Ty.channel
  compound_type TokenType.identifier = parse_named_type
  compound_type _ = unknown_type

  -- `parseType`
  unfoldable pub parse_type : P Ty
  unfolding type_map compound_type
  parse_type = do
    t ← curr_type
    elim (type_map t) [ some found ↦ pure found | none ↦ compound_type t ]
