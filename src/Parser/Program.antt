-- ===== src/Parser/Program.antt =====
-- parser/parser.go: `parseStatement`, the functions that call one another tied together, and
-- `ParseProgram` and `ParseDefinitions`.
use sydney.Base.{
  ℕ, zero, suc, ◌+◌, ◌*◌, List, [], ◌∷◌, ◌++◌, Bool, true, false, not, ◌&&◌, Option, none, some,
  if◌then◌else◌, Result, ok, length,
}
use sydney.Token.{Token, TokenType}
use sydney.Parser.Tree.{Statement}
use sydney.Parser.State.{
  Parser, P, pure, spent, ◌>>=◌, ◌>>◌, Done, Rec, Step, again, leave, loop, gather, next_token,
  curr_token_is, peek_token_is, curr_type, literal, complain, expect_peek, skip, fresh_parser,
}
use sydney.Parser.Types.{parse_type}
use sydney.Parser.Lists.{lowest, without_nil, or_empty}
use sydney.Parser.Declarations.{
  parse_function_declaration_stmt, parse_struct_definition_stmt, parse_interface_definition_stmt,
  parse_annotation,
}
use sydney.Parser.Statements.{
  parse_var_declaration_stmt, parse_return_stmt, parse_for_stmt,
  parse_expression_or_assignment_stmt, annotated,
}
use sydney.Parser.Pratt.{parse_expression}

module _ (r : Rec) where
  -- `define struct` and `define interface`; another word is complained of without `pub` alone.
  unfoldable pub definition_after : P Statement → P Statement
  unfolding next_token parse_struct_definition_stmt parse_interface_definition_stmt
  definition_after other = do
    next_token
    t ← curr_type
    elim t [
      | TokenType.struct_kw ↦ parse_struct_definition_stmt r
      | TokenType.interface_kw ↦ parse_interface_definition_stmt r
      | _ ↦ other
    ]

  -- The statement behind `pub`, if it may stand there.
  unfoldable pub extern_function : P (Option Statement)
  unfolding expect_peek complain parse_function_declaration_stmt
  extern_function = do
    found ← expect_peek TokenType.func_kw
    (if found then pure tt else complain "expected function declaration")
    s ← parse_function_declaration_stmt r true
    pure (some s)

  abbrev pub found_statement : P Statement → P (Option Statement)
  found_statement parse = parse >>= λ s. pure (some s)

  unfoldable pub pub_inner : TokenType → P (Option Statement)
  unfolding extern_function parse_var_declaration_stmt parse_function_declaration_stmt
      definition_after complain
  pub_inner TokenType.mut_kw = found_statement (parse_var_declaration_stmt r)
  pub_inner TokenType.const_kw = found_statement (parse_var_declaration_stmt r)
  pub_inner TokenType.func_kw = found_statement (parse_function_declaration_stmt r false)
  pub_inner TokenType.extern_kw = extern_function
  pub_inner TokenType.define_kw = found_statement (definition_after (pure Statement.no_stmt))
  pub_inner _ = complain "cannot define pub for token" >> pure none

  unfoldable pub parse_pub_statement : P Statement
  unfolding next_token pub_inner
  parse_pub_statement = do
    next_token
    t ← curr_type
    inner ← pub_inner t
    pure (elim inner [ none ↦ Statement.no_stmt | some s ↦ Statement.pub_statement s ])

  -- An annotation and its statement.
  unfoldable pub annotated_statement : P Statement
  unfolding parse_annotation annotated complain
  annotated_statement = do
    a ← parse_annotation r
    s ← r.statement
    elim (annotated a s) [
      | some s' ↦ pure s'
      | none ↦
          complain "can only provide annotations for struct definitions" >> pure Statement.no_stmt
    ]

  -- A word alone, `import` and `module` with their name, and `spawn`.
  abbrev pub word : Statement → P Statement
  word s = skip TokenType.semicolon >> pure s

  abbrev pub with_next : (List ℕ → Statement) → P Statement
  with_next make = next_token >> (literal >>= λ name. pure (make name))

  unfoldable pub parse_spawn : P Statement
  unfolding next_token skip
  parse_spawn = do
    next_token
    e ← r.expression lowest
    skip TokenType.semicolon
    pure (Statement.spawn_stmt e)

  unfoldable pub func_statement : P Statement
  unfolding peek_token_is parse_function_declaration_stmt parse_expression_or_assignment_stmt
  func_statement = do
    named ← peek_token_is TokenType.identifier
    if named then parse_function_declaration_stmt r false else parse_expression_or_assignment_stmt r

  -- `parseStatement`
  unfoldable pub statement_at : TokenType → P Statement
  unfolding annotated_statement parse_var_declaration_stmt parse_pub_statement parse_return_stmt
      parse_for_stmt complain func_statement definition_after next_token skip parse_spawn
      parse_expression_or_assignment_stmt
  statement_at TokenType.annotation_start = annotated_statement
  statement_at TokenType.mut_kw = parse_var_declaration_stmt r
  statement_at TokenType.const_kw = parse_var_declaration_stmt r
  statement_at TokenType.public_kw = parse_pub_statement
  statement_at TokenType.return_kw = parse_return_stmt r
  statement_at TokenType.for_kw = parse_for_stmt r
  statement_at TokenType.extern_kw = complain "cannot extern for token" >> pure Statement.no_stmt
  statement_at TokenType.func_kw = func_statement
  statement_at TokenType.define_kw =
      definition_after (complain "expected interface or struct" >> pure Statement.no_stmt)
  statement_at TokenType.import_kw = with_next Statement.import_statement
  statement_at TokenType.module_kw = with_next Statement.module_declaration
  statement_at TokenType.break_kw = word Statement.break_stmt
  statement_at TokenType.continue_kw = word Statement.continue_stmt
  statement_at TokenType.spawn_kw = parse_spawn
  statement_at _ = parse_expression_or_assignment_stmt r

  unfoldable pub parse_statement : P Statement
  unfolding statement_at
  parse_statement = curr_type >>= statement_at

  -- The marks that `ParseProgram` makes for an import and for what is neither import nor module.
  abbrev pub is_import : Statement → Bool
  is_import (Statement.import_statement name) = true
  is_import s = false

  abbrev pub is_module : Statement → Bool
  is_module (Statement.module_declaration name) = true
  is_module s = false

  unfoldable pub check_imports : Statement → P Done
  check_imports Statement.no_stmt p = ok (tt, p)
  check_imports s p = ok (
    tt,
    record p {
      errors =
          p.errors
          ++ (if is_import s && p.done_imports
              then "import statements must be top level" ∷ []
              else []);
      done_imports =
          if is_import s then p.done_imports else if is_module s then p.done_imports else true;
    },
  )

-- The functions that call one another, with a bound on the depth of the calls and on the rounds.
unfoldable pub parsing : (List ℕ → Option ℕ) → (List ℕ → Option ℕ) → ℕ → Rec
unfolding parse_expression parse_statement parse_type
parsing parse_int parse_float zero = record {
  rounds = 0;
  expression = λ level. spent;
  statement = spent;
  typ = spent;
}
parsing parse_int parse_float (suc n) =
    let r = parsing parse_int parse_float n in
    record {
      rounds = suc n;
      expression = parse_expression parse_int parse_float r;
      statement = parse_statement r;
      typ = parse_type r;
    }

module _ (r : Rec) where
  -- `ParseProgram` and `ParseDefinitions`
  unfoldable pub going_on : P Bool
  unfolding curr_token_is
  going_on = curr_token_is TokenType.eof >>= λ b. pure (not b)

  unfoldable pub next_statement : P (Option Statement)
  unfolding check_imports next_token
  next_statement = do s ← r.statement; check_imports r s; next_token; pure (some s)

  unfoldable pub parse_program : P (List Statement)
  unfolding gather going_on next_statement without_nil
  parse_program = do
    found ← gather r.rounds going_on next_statement []
    pure (without_nil (or_empty found))

  unfoldable pub definition_step : Done → P (Step Done)
  unfolding curr_token_is peek_token_is next_token parse_struct_definition_stmt
      parse_interface_definition_stmt
  definition_step d = do
    over ← curr_token_is TokenType.eof
    public ← curr_token_is TokenType.public_kw
    before ← peek_token_is TokenType.define_kw
    let step : P (Step Done) = do
      (if public && before then next_token else pure tt)
      defines ← curr_token_is TokenType.define_kw
      of_struct ← peek_token_is TokenType.struct_kw
      of_interface ← peek_token_is TokenType.interface_kw
      (if defines && of_struct
          then (next_token >> (parse_struct_definition_stmt r >> pure tt))
          else if defines && of_interface
          then (next_token >> (parse_interface_definition_stmt r >> pure tt))
          else next_token)
      pure (again tt)
    if over then pure (leave tt) else step

  unfoldable pub parse_definitions : P Done
  unfolding loop definition_step
  parse_definitions = loop r.rounds definition_step tt

-- `New` and `ParseProgram` on the tokens of a file: the statements and the parser with its errors.
unfoldable pub parse_tokens :
    (List ℕ → Option ℕ) → (List ℕ → Option ℕ) → List Token → Result (List Statement × Parser)
unfolding next_token fresh_parser parse_program
parse_tokens parse_int parse_float ts =
    let r = parsing parse_int parse_float (4 + 2 * length ts) in
    (next_token >> (next_token >> (next_token >> parse_program r))) (fresh_parser ts)
