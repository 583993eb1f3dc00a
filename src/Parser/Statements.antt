-- ===== src/Parser/Statements.antt =====
-- parser/parser.go: the statements but the declarations of functions, structs and interfaces.
use sydney.Base.{ℕ, List, Bool, true, false, ◌||◌, Option, none, some, if◌then◌else◌}
use sydney.Token.{TokenType}
use sydney.Types.{Ty}
use sydney.Parser.Tree.{Node, Statement}
use sydney.Parser.State.{
  P, pure, ◌>>=◌, ◌>>◌, Rec, next_token, curr_token_is, peek_token_is, literal, complain,
  expect_peek, expecting, expecting_or, skip,
}
use sydney.Parser.Types.{is_peek_token_type}
use sydney.Parser.Lists.{lowest, as_identifier, parse_identifier, parse_block_stmt}

-- `fl.Name = stmt.Name.Value`
unfoldable pub with_name : List ℕ → Node → Node
with_name name (Node.function_literal old ps t body) = Node.function_literal name ps t body
with_name name e = e

-- What an assignment to an expression is; to another expression it is none.
unfoldable pub assignment : Node → Node → Option Statement
assignment (Node.index_expr left index) value = some (Statement.index_assignment left index value)
assignment (Node.selector_expr left field) value =
    some (Statement.selector_assignment left field value)
assignment (Node.identifier name) value = some (Statement.var_assignment name value)
assignment e value = none

-- `SetAnnotations` of a struct definition, under `pub` or not.
unfoldable pub annotated : Option (List ℕ × List (List ℕ)) → Statement → Option Statement
annotated a (Statement.struct_definition name t old) = some (Statement.struct_definition name t a)
annotated a (Statement.pub_statement (Statement.struct_definition name t old)) =
    some (Statement.pub_statement (Statement.struct_definition name t a))
annotated a s = none

module _ (r : Rec) where
  -- `parseVarDeclarationStmt`, from the type on.
  unfoldable pub initial_value : List ℕ → Bool → Option Ty → P Statement
  unfolding expecting next_token skip with_name
  initial_value name constant t = expecting TokenType.assign Statement.nil_pointer do
    next_token
    e ← r.expression lowest
    skip TokenType.semicolon
    pure (Statement.var_declaration name constant t (with_name name e))

  unfoldable pub uninitialized : List ℕ → Bool → Option Ty → P Statement
  unfolding complain next_token
  uninitialized name true t =
      complain "const variable must be initialized" >> pure Statement.nil_pointer
  uninitialized name false none =
      complain "uninitialized mut variable must have a type" >> pure Statement.nil_pointer
  uninitialized name false (some t) =
      next_token >> pure (Statement.var_declaration name false (some t) Node.no_expr)

  unfoldable pub declared_type : P (Option Ty)
  unfolding is_peek_token_type next_token
  declared_type = do
    typed ← is_peek_token_type
    if typed then (do next_token; t ← r.typ; pure (some t)) else pure none

  unfoldable pub parse_var_declaration_stmt : P Statement
  unfolding curr_token_is declared_type expecting peek_token_is uninitialized initial_value
  parse_var_declaration_stmt = do
    constant ← curr_token_is TokenType.const_kw
    t ← declared_type
    expecting TokenType.identifier Statement.nil_pointer do
      name ← literal
      ended ← peek_token_is TokenType.semicolon
      if ended then uninitialized name constant t else initial_value name constant t

  -- `parseReturnStmt`
  unfoldable pub parse_return_stmt : P Statement
  unfolding next_token curr_token_is skip
  parse_return_stmt = do
    next_token
    absent ← curr_token_is TokenType.semicolon
    e ← (if absent then pure Node.no_expr else r.expression lowest)
    skip TokenType.semicolon
    pure (Statement.return_stmt e)

  -- `parseSendStmt`
  unfoldable pub parse_send_stmt : Node → P Statement
  unfolding next_token expecting
  parse_send_stmt channel = do
    next_token
    next_token
    e ← r.expression lowest
    expecting TokenType.semicolon Statement.no_stmt (pure (Statement.send_stmt channel e))

  -- `parseExpressionOrAssignmentStmt`: a value that is assigned to no variable, element or field is
  -- dropped.
  unfoldable pub end_expression_stmt : Node → P Statement
  unfolding peek_token_is parse_send_stmt skip
  end_expression_stmt e = do
    sent ← peek_token_is TokenType.inv_arrow
    if sent
        then parse_send_stmt e
        else (skip TokenType.semicolon >> pure (Statement.expression_stmt e))

  unfoldable pub assigned : Node → P Statement
  unfolding next_token skip assignment end_expression_stmt
  assigned e = do
    next_token
    next_token
    value ← r.expression lowest
    skip TokenType.semicolon
    elim (assignment e value) [ some s ↦ pure s | none ↦ end_expression_stmt e ]

  unfoldable pub parse_expression_or_assignment_stmt : P Statement
  unfolding peek_token_is assigned end_expression_stmt
  parse_expression_or_assignment_stmt = do
    e ← r.expression lowest
    found ← peek_token_is TokenType.assign
    if found then assigned e else end_expression_stmt e

  -- The end of `parseDeclaredThreePartForStmt` and of `parseAssignedThreePartForStmt`: the condition and
  -- the step.
  unfoldable pub condition_and_post : P (Node × Statement)
  unfolding next_token expect_peek complain parse_expression_or_assignment_stmt
  condition_and_post = do
    next_token
    condition ← r.expression lowest
    ended ← expect_peek TokenType.semicolon
    let post : P (Node × Statement) = do
      next_token
      s ← parse_expression_or_assignment_stmt
      closed ← expect_peek TokenType.right_paren
      (if closed then pure tt else complain "expected ) after post")
      pure (condition, s)
    if ended
        then post
        else (complain "expected ; after condition" >> pure (condition, Statement.no_stmt))

  -- `parseAssignedThreePartForStmt`
  unfoldable pub assigned_init : Node → Node → Statement
  assigned_init (Node.identifier name) value = Statement.var_assignment name value
  assigned_init e value = Statement.no_stmt

  unfoldable pub assigned_parts : Node → P (Statement × Node × Statement)
  unfolding next_token expect_peek complain condition_and_post assigned_init
  assigned_parts e = do
    next_token
    next_token
    value ← r.expression lowest
    ended ← expect_peek TokenType.semicolon
    let rest : P (Statement × Node × Statement) =
        (condition_and_post >>= λ (c, s). pure (assigned_init e value, c, s))
    if ended
        then rest
        else (complain "expected ; after init"
            >> pure (assigned_init e value, Node.no_expr, Statement.no_stmt))

  -- The body of a `for`.
  unfoldable pub for_body : Statement × Node × Statement → P Statement
  unfolding expecting parse_block_stmt
  for_body (init, condition, post) =
      expecting TokenType.left_curly_bracket Statement.no_stmt
        do body ← parse_block_stmt r; pure (Statement.for_stmt init condition post body)

  -- `parseForInStmt`: the current token is the first name.
  unfoldable pub for_in_names : P (Option (List ℕ) × List ℕ)
  unfolding parse_identifier as_identifier peek_token_is next_token
  for_in_names = do
    two ← peek_token_is TokenType.comma
    first ← parse_identifier r
    name ← as_identifier first
    let keyed : P (Option (List ℕ) × List ℕ) = do
      next_token
      next_token
      second ← parse_identifier r
      value ← as_identifier second
      pure (some name, value)
    if two then keyed else pure (none, name)

  unfoldable pub parse_for_in_stmt : P Statement
  unfolding for_in_names expecting next_token parse_block_stmt
  parse_for_in_stmt = do
    (key, value) ← for_in_names
    expecting TokenType.in_kw Statement.no_stmt do
      next_token
      iterable ← r.expression lowest
      expecting TokenType.right_paren Statement.no_stmt (
          expecting TokenType.left_curly_bracket Statement.no_stmt
            do body ← parse_block_stmt r; pure (Statement.for_in_stmt key value iterable body))

  -- `parseForStmt`
  unfoldable pub for_expression : P Statement
  unfolding peek_token_is assigned_parts for_body parse_for_in_stmt expecting_or
  for_expression = do
    e ← r.expression lowest
    three ← peek_token_is TokenType.assign
    one ← peek_token_is TokenType.in_kw
    two ← peek_token_is TokenType.comma
    let while_loop : P Statement =
        expecting_or TokenType.right_paren "expected ) after condition" Statement.no_stmt
          (for_body (Statement.no_stmt, e, Statement.no_stmt))
    if three
        then assigned_parts e >>= for_body
        else if one || two
        then parse_for_in_stmt
        else while_loop

  unfoldable pub for_declaration : P Statement
  unfolding parse_var_declaration_stmt condition_and_post for_body
  for_declaration = do
    init ← parse_var_declaration_stmt
    (c, s) ← condition_and_post
    for_body (init, c, s)

  unfoldable pub parse_for_stmt : P Statement
  unfolding expecting next_token curr_token_is for_declaration for_expression
  parse_for_stmt = expecting TokenType.left_paren Statement.no_stmt do
    next_token
    m ← curr_token_is TokenType.mut_kw
    c ← curr_token_is TokenType.const_kw
    if m || c then for_declaration else for_expression
