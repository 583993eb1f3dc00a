-- ===== src/Parser/Lists.antt =====
-- parser/parser.go: the parts that several kinds of expressions share: blocks, lists of expressions,
-- parameters, identifiers and struct literals.
use sydney.Base.{ℕ, List, [], ◌∷◌, map, Bool, not, ◌&&◌, Option, none, some, if◌then◌else◌}
use sydney.Token.{TokenType}
use sydney.Types.{Ty}
use sydney.Parser.Tree.{Node, Block, Statement, nodes, statements}
use sydney.Parser.State.{
  P, pure, crash, ◌>>=◌, ◌>>◌, Rec, next_token, curr_token_is, peek_token_is, literal, complain,
  expecting, expecting_or, gather,
}
use sydney.Parser.Types.{unit_type, is_generic, parse_type_args}

-- The lowest precedence, `LOWEST`.
abbrev pub lowest : ℕ
lowest = 1

abbrev pub or_empty {ℓ} : {A : Type ℓ} → Option (List A) → List A
or_empty none = []
or_empty (some xs) = xs

-- `if stmt != nil` of the loops over statements.
unfoldable pub without_nil : List Statement → List Statement
without_nil [] = []
without_nil (Statement.no_stmt ∷ ss) = without_nil ss
without_nil (s ∷ ss) = s ∷ without_nil ss

-- The assertion `.(*ast.Identifier)`.
unfoldable pub as_identifier : Node → P (List ℕ)
as_identifier (Node.identifier name) = pure name
as_identifier _ = crash

-- `parseMacroParameters`, and the names of an annotation: the current token is the first one's.
unfoldable pub comma_names : ℕ → P (List ℕ) → P (List (List ℕ))
unfolding gather peek_token_is next_token
comma_names rounds name = do
  first ← name
  found ←
      gather rounds (peek_token_is TokenType.comma)
        (do next_token; next_token; n ← name; pure (some n)) (first ∷ [])
  pure (or_empty found)

unfoldable pub parse_macro_parameters : ℕ → P (List (List ℕ))
unfolding peek_token_is next_token comma_names expecting_or
parse_macro_parameters rounds = do
  closed ← peek_token_is TokenType.right_paren
  if closed then (next_token >> pure []) else (do
    next_token
    names ← comma_names rounds literal
    expecting_or TokenType.right_paren "missing closing parenthesis" [] (pure names))

module _ (r : Rec) where
  -- `parseBlockStmt`: the current token is the opening bracket, and in the end the closing one.
  unfoldable pub in_block : P Bool
  unfolding curr_token_is
  in_block = do
    closed ← curr_token_is TokenType.right_curly_bracket
    over ← curr_token_is TokenType.eof
    pure (not closed && not over)

  unfoldable pub parse_statements : P Bool → P (List Statement)
  unfolding gather next_token without_nil
  parse_statements more = do
    found ← gather r.rounds more (do s ← r.statement; next_token; pure (some s)) []
    pure (without_nil (or_empty found))

  unfoldable pub parse_block_stmt : P Block
  unfolding next_token parse_statements in_block
  parse_block_stmt = do
    next_token
    ss ← parse_statements in_block
    pure (Block.block (statements ss))

  -- `parseExpressionList`
  unfoldable pub next_expression : P (Option Node)
  unfolding next_token
  next_expression = do next_token; next_token; e ← r.expression lowest; pure (some e)

  unfoldable pub parse_expression_list : TokenType → P (List Node)
  unfolding peek_token_is next_token gather next_expression expecting
  parse_expression_list end_type = do
    closed ← peek_token_is end_type
    if closed then (next_token >> pure []) else (do
      next_token
      e ← r.expression lowest
      found ← gather r.rounds (peek_token_is TokenType.comma) next_expression (e ∷ [])
      expecting end_type [] (pure (or_empty found)))

  -- `parseFunctionParameters`: a type and a name each.
  unfoldable pub parameter : P (Option (Ty × List ℕ))
  unfolding next_token
  parameter = do next_token; t ← r.typ; next_token; name ← literal; pure (some (t, name))

  abbrev pub next_parameter : P (Option (Ty × List ℕ))
  next_parameter = next_token >> parameter

  unfoldable pub parse_function_parameters : P (List (Ty × List ℕ))
  unfolding peek_token_is next_token gather parameter expecting_or
  parse_function_parameters = do
    closed ← peek_token_is TokenType.right_paren
    if closed then (next_token >> pure []) else (do
      first ← parameter
      found ←
          gather r.rounds (peek_token_is TokenType.comma) next_parameter
            (elim first [ none ↦ [] | some q ↦ q ∷ [] ])
      expecting_or TokenType.right_paren "missing closing parenthesis" [] (pure (or_empty found)))

  -- The return type behind an arrow, or unit.
  unfoldable pub return_type : P Ty
  unfolding peek_token_is next_token
  return_type = do
    arrow ← peek_token_is TokenType.arrow
    if arrow then (next_token >> next_token >> r.typ) else pure unit_type

  -- `parseStructLiteral`, of a name with its module and type arguments.
  unfoldable pub field_value : P (Option (List ℕ × Node))
  unfolding next_token curr_token_is complain peek_token_is expecting_or
  field_value = do
    next_token
    named ← curr_token_is TokenType.identifier
    name ← literal
    let value : P (Option (List ℕ × Node)) = expecting_or TokenType.colon "expected :" none do
      next_token
      v ← r.expression lowest
      closed ← peek_token_is TokenType.right_curly_bracket
      if closed
          then pure (some (name, v))
          else expecting_or TokenType.comma "expected , or }" none (pure (some (name, v)))
    if named then value else (complain "expected identifier" >> pure none)

  unfoldable pub made_literal : List ℕ → List ℕ → List Ty → Option (List (List ℕ × Node)) → P Node
  unfolding expecting_or nodes
  made_literal name mod_name args none = pure Node.no_expr
  made_literal name mod_name args (some fs) =
      expecting_or TokenType.right_curly_bracket "expected }" Node.no_expr (
        pure
          (Node.struct_literal name (map (λ f. f.0) fs) (nodes (map (λ f. f.1) fs)) mod_name args))

  unfoldable pub parse_struct_literal : List ℕ → List ℕ → List Ty → P Node
  unfolding expecting_or gather peek_token_is field_value made_literal
  parse_struct_literal name mod_name args =
      expecting_or TokenType.left_curly_bracket "expected {" Node.no_expr do
        found ←
            gather r.rounds (peek_token_is TokenType.right_curly_bracket >>= λ b. pure (not b))
              field_value []
        made_literal name mod_name args found

  -- Type arguments behind a generic name, and what they may be for: a call or a struct literal.
  unfoldable pub generic_use : List ℕ → List ℕ → Node → P Node
  unfolding next_token parse_type_args peek_token_is parse_expression_list parse_struct_literal
  generic_use name mod_name plain = do
    next_token
    next_token
    args ← parse_type_args r
    called ← peek_token_is TokenType.left_paren
    made ← peek_token_is TokenType.left_curly_bracket
    let call : P Node = do
      next_token
      es ← parse_expression_list TokenType.right_paren
      pure (Node.call_expr plain (nodes es) args)
    if called then call else if made then parse_struct_literal name mod_name args else pure plain

  -- `parseIdentifier` and `parseIdentifierOrStructLiteral`
  unfoldable pub parse_identifier : P Node
  unfolding peek_token_is generic_use
  parse_identifier = do
    name ← literal
    generic ← is_generic name
    angle ← peek_token_is TokenType.less_than
    if generic && angle
        then generic_use name [] (Node.identifier name)
        else pure (Node.identifier name)

  unfoldable pub parse_identifier_or_struct_literal : P Node
  unfolding peek_token_is parse_struct_literal parse_identifier
  parse_identifier_or_struct_literal = do
    name ← literal
    made ← peek_token_is TokenType.left_curly_bracket
    if made then parse_struct_literal name [] [] else parse_identifier
