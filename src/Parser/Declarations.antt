-- ===== src/Parser/Declarations.antt =====
-- parser/parser.go: declarations of functions, structs and interfaces, with their type parameters.
use sydney.Base.{
  ℕ, suc, String, List, [], ◌∷◌, map, Bool, true, false, not, Option, none, some, insert,
  if◌then◌else◌, ok,
}
use sydney.Token.{TokenType}
use sydney.Types.{Ty, Tys, Constraint}
use sydney.Parser.Tree.{Block, Statement}
use sydney.Parser.State.{
  P, pure, crash, ◌>>=◌, ◌>>◌, Done, Rec, text, next_token, curr_token_is, peek_token_is, literal,
  complain, expecting, expecting_or, gather, skip,
}
use sydney.Parser.Types.{tys}
use sydney.Parser.Lists.{
  or_empty, comma_names, as_identifier, parse_identifier, parse_function_parameters, return_type,
  parse_block_stmt,
}

-- The parser's tables, written.
abbrev pub set_generic : List ℕ → P Done
set_generic name p = ok (tt, record p { generic_names = insert (text name) tt p.generic_names })

abbrev pub define_struct : List ℕ → Ty → P Done
define_struct name t p =
    ok (tt, record p { defined_structs = insert (text name) t p.defined_structs })

abbrev pub define_interface : List ℕ → Ty → P Done
define_interface name t p =
    ok (tt, record p { defined_interfaces = insert (text name) t p.defined_interfaces })

abbrev pub forget_type_parameters : P Done
forget_type_parameters p = ok (tt, record p { type_parameters = [] })

abbrev pub add_type_parameter : String → P Done
add_type_parameter name p = ok (tt, record p { type_parameters = insert name tt p.type_parameters })

-- `p.typeParameters[tp.Name] = true` for each parameter; a nil one is a nil pointer.
unfoldable pub mark_each : List (Option Ty) → P (List Ty)
mark_each [] = pure []
mark_each (some (Ty.type_param c name) ∷ tps) = do
  add_type_parameter name
  ts ← mark_each tps
  pure (Ty.type_param c name ∷ ts)
mark_each (_ ∷ tps) = crash

unfoldable pub mark_parameters : List (Option Ty) → P (List Ty)
unfolding mark_each
mark_parameters tps = forget_type_parameters >> mark_each tps

-- `MethodIndices`
unfoldable pub method_indices : ℕ → List (List ℕ) → List (String × ℕ) → List (String × ℕ)
method_indices i [] found = found
method_indices i (m ∷ ms) found = method_indices (suc i) ms (insert (text m) i found)

unfoldable pub texts : List (List ℕ) → List String
texts [] = []
texts (n ∷ ns) = text n ∷ texts ns

module _ (r : Rec) where
  -- `parseGenericType` and `parseTypeParamList`: the current token stands before the first name.
  unfoldable pub constraint : P Constraint
  unfolding peek_token_is next_token
  constraint = do
    found ← peek_token_is TokenType.colon
    let parse : P Constraint = do next_token; next_token; t ← r.typ; pure (Constraint.constrained t)
    if found then parse else pure Constraint.unconstrained

  unfoldable pub parse_generic_type : P (Option Ty)
  unfolding expecting_or parse_identifier as_identifier constraint
  parse_generic_type = expecting_or TokenType.identifier "expected ident" none do
    e ← parse_identifier r
    name ← as_identifier e
    c ← constraint
    pure (some (Ty.type_param c (text name)))

  abbrev pub present : List (Option Ty) → List (Option Ty)
  present [] = []
  present (none ∷ ts) = present ts
  present (some t ∷ ts) = some t ∷ present ts

  unfoldable pub parse_type_param_list : P (List (Option Ty))
  unfolding parse_generic_type gather peek_token_is next_token expecting_or
  parse_type_param_list = do
    first ← parse_generic_type
    found ←
        gather r.rounds (peek_token_is TokenType.comma)
          (do next_token; t ← parse_generic_type; pure (some t)) []
    expecting_or TokenType.greater_than "expected >" [] (pure (first ∷ present (or_empty found)))

  -- The parameters of a declaration, if there are any.
  unfoldable pub type_parameters_of : List ℕ → P (List Ty)
  unfolding peek_token_is next_token parse_type_param_list mark_parameters
  type_parameters_of name = do
    found ← peek_token_is TokenType.less_than
    let parse : P (List Ty) = do
      next_token
      tps ← parse_type_param_list
      set_generic name
      mark_parameters tps
    if found then parse else pure []

  -- `parseFunctionDeclarationStmt`
  unfoldable pub function_body : List ℕ → List Ty → List (List ℕ) → Ty → P Statement
  unfolding expecting_or parse_block_stmt skip
  function_body name tps names t =
      expecting_or TokenType.left_curly_bracket "expected body for function declaration"
        Statement.no_stmt
        do
          body ← parse_block_stmt r
          forget_type_parameters
          skip TokenType.semicolon
          pure (Statement.function_declaration name tps names t body false)

  unfoldable pub function_signature : Bool → List ℕ → List Ty → P Statement
  unfolding expecting_or parse_function_parameters return_type skip function_body tys
  function_signature extern name tps =
      expecting_or TokenType.left_paren "missing opening parenthesis for function declaration"
        Statement.no_stmt
        do
          ps ← parse_function_parameters r
          t ← return_type r
          let names = map (λ q. q.1) ps
          let typ = Ty.func (tys (map (λ q. q.0) ps)) t false Tys.nil
          if extern
              then (do
                skip TokenType.semicolon
                pure (Statement.function_declaration name tps names typ Block.no_block true))
              else function_body name tps names typ

  unfoldable pub parse_function_declaration_stmt : Bool → P Statement
  unfolding expecting type_parameters_of function_signature
  parse_function_declaration_stmt extern =
      expecting TokenType.identifier Statement.no_stmt
        do name ← literal; tps ← type_parameters_of name; function_signature extern name tps

  -- The members of a struct or an interface: a name, and what `parse` reads behind it.
  unfoldable pub member : P Ty → P (Option (List ℕ × Ty))
  unfolding next_token curr_token_is complain peek_token_is expecting_or
  member parse = do
    next_token
    named ← curr_token_is TokenType.identifier
    name ← literal
    let rest : P (Option (List ℕ × Ty)) = do
      next_token
      t ← parse
      closed ← peek_token_is TokenType.right_curly_bracket
      if closed
          then pure (some (name, t))
          else expecting_or TokenType.comma "expected , or }" none (pure (some (name, t)))
    if named then rest else (complain "expected identifier" >> pure none)

  unfoldable pub members : P Ty → P (Option (List (List ℕ × Ty)))
  unfolding gather peek_token_is member expecting_or
  members parse = do
    found ←
        gather r.rounds (peek_token_is TokenType.right_curly_bracket >>= λ b. pure (not b))
          (member parse) []
    elim found [
      | none ↦ pure none
      | some ms ↦ expecting_or TokenType.right_curly_bracket "expected }" none (pure (some ms))
    ]

  -- `parseStructDefinitionStmt`
  unfoldable pub defined_struct : List ℕ → List Ty → Option (List (List ℕ × Ty)) → P Statement
  unfolding texts tys
  defined_struct name tps none = pure Statement.no_stmt
  defined_struct name tps (some ms) =
      let t =
        Ty.struct (text name) "" (texts (map (λ m. m.0) ms)) (tys (map (λ m. m.1) ms)) Tys.nil []
          (tys tps) Tys.nil in
      define_struct name t
      >> forget_type_parameters
      >> pure (Statement.struct_definition name t none)

  unfoldable pub parse_struct_definition_stmt : P Statement
  unfolding expecting_or type_parameters_of members defined_struct
  parse_struct_definition_stmt =
      expecting_or TokenType.identifier "expected identifier" Statement.no_stmt do
        name ← literal
        tps ← type_parameters_of name
        expecting_or TokenType.left_curly_bracket "expected {" Statement.no_stmt
            (members r.typ >>= defined_struct name tps)

  -- `parseInterfaceDefinitionStmt`: the name is defined before its methods are read.
  unfoldable pub parse_interface_method : P Ty
  unfolding parse_function_parameters return_type tys
  parse_interface_method = do
    ps ← parse_function_parameters r
    t ← return_type r
    pure (Ty.func (tys (map (λ q. q.0) ps)) t false Tys.nil)

  unfoldable pub defined_as : List ℕ → Option (List (List ℕ × Ty)) → P Statement
  unfolding texts tys method_indices
  defined_as name none = pure Statement.no_stmt
  defined_as name (some ms) =
      let names = map (λ m. m.0) ms in
      let t =
        Ty.interface (text name) "" (texts names) (method_indices 0 names [])
          (tys (map (λ m. m.1) ms)) in
      define_interface name t >> pure (Statement.interface_definition name t)

  unfoldable pub parse_interface_definition_stmt : P Statement
  unfolding expecting_or members parse_interface_method defined_as
  parse_interface_definition_stmt =
      expecting_or TokenType.identifier "expected identifier" Statement.no_stmt do
        name ← literal
        define_interface name (Ty.interface (text name) "" [] [] Tys.nil)
        expecting_or TokenType.left_curly_bracket "expected {" Statement.no_stmt
            (members parse_interface_method >>= defined_as name)

  -- `parseAnnotation`: the name and the arguments; behind it the current token is the statement's.
  unfoldable pub identifier_name : P (List ℕ)
  unfolding parse_identifier as_identifier
  identifier_name = parse_identifier r >>= as_identifier

  unfoldable pub parse_annotation : P (Option (List ℕ × List (List ℕ)))
  unfolding next_token identifier_name expecting comma_names
  parse_annotation = do
    next_token
    name ← identifier_name
    expecting TokenType.left_paren none do
      next_token
      args ← comma_names r.rounds identifier_name
      expecting TokenType.right_paren none
          (expecting TokenType.right_square_bracket none (next_token >> pure (some (name, args))))
