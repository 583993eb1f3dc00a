-- ===== src/Parser/Pratt.antt =====
-- parser/parser.go: `parseExpression`, with the tables of the functions for a token. What the library
-- of the language makes of the text of a number, `strconv.ParseInt` and `strconv.ParseFloat`, are
-- parameters.
use sydney.Base.{
  ℕ, zero, suc, List, [], ◌∷◌, true, false, not, ◌&&◌, Option, none, some, ltb, if◌then◌else◌,
}
use sydney.Token.{TokenType}
use sydney.Parser.Tree.{Node}
use sydney.Parser.State.{
  P, pure, crash, spent, ◌>>=◌, ◌>>◌, Rec, next_token, peek_token_is, curr_type, peek_type, literal,
  complain,
}
use sydney.Parser.Lists.{parse_identifier_or_struct_literal}
use sydney.Parser.Matches.{parse_match_expr}
use sydney.Parser.Levels.{peek_precedence}
use sydney.Parser.Expressions.{
  parse_prefix_expr, parse_infix_expr, parse_grouped_expr, parse_if_expr, parse_function_literal,
  parse_macro_literal, parse_array_literal, parse_call_expr, parse_index_expr, parse_hash_literal,
  parse_selector_expr, parse_scope_access_expr, parse_receive_expr, parse_channel_constructor,
}

module _ (r : Rec) where
  -- `infixParseFns`
  unfoldable pub infix_parse_fn : TokenType → Option (Node → P Node)
  unfolding parse_infix_expr parse_call_expr parse_index_expr parse_selector_expr
      parse_scope_access_expr
  infix_parse_fn TokenType.plus = some (parse_infix_expr r)
  infix_parse_fn TokenType.minus = some (parse_infix_expr r)
  infix_parse_fn TokenType.slash = some (parse_infix_expr r)
  infix_parse_fn TokenType.star = some (parse_infix_expr r)
  infix_parse_fn TokenType.modulo = some (parse_infix_expr r)
  infix_parse_fn TokenType.equal_to = some (parse_infix_expr r)
  infix_parse_fn TokenType.not_equal_to = some (parse_infix_expr r)
  infix_parse_fn TokenType.greater_than_equal_to = some (parse_infix_expr r)
  infix_parse_fn TokenType.less_than_equal_to = some (parse_infix_expr r)
  infix_parse_fn TokenType.greater_than = some (parse_infix_expr r)
  infix_parse_fn TokenType.less_than = some (parse_infix_expr r)
  infix_parse_fn TokenType.and = some (parse_infix_expr r)
  infix_parse_fn TokenType.or = some (parse_infix_expr r)
  infix_parse_fn TokenType.left_paren = some (parse_call_expr r)
  infix_parse_fn TokenType.left_square_bracket = some (parse_index_expr r)
  infix_parse_fn TokenType.dot = some (parse_selector_expr r)
  infix_parse_fn TokenType.colon = some (parse_scope_access_expr r)
  infix_parse_fn _ = none

  -- The loop of `parseExpression`, with what was parsed so far on the left.
  unfoldable pub infix_loop : ℕ → ℕ → Node → P Node
  unfolding peek_token_is peek_precedence infix_parse_fn next_token
  infix_loop zero level left = spent
  infix_loop (suc n) level left = do
    ended ← peek_token_is TokenType.semicolon
    next_level ← peek_precedence
    t ← peek_type
    let go_on : (Node → P Node) → P Node =
        λ parse. (next_token >> (parse left >>= λ e. infix_loop n level e))
    if not ended && ltb level next_level
        then elim (infix_parse_fn t) [ none ↦ pure left | some f ↦ go_on f ]
        else pure left

module _ (parse_int parse_float : List ℕ → Option ℕ) (r : Rec) where
  -- `parseIntegerLiteral`, `parseFloatLiteral` and `parseByteLiteral`
  unfoldable pub parse_integer_literal : P Node
  unfolding complain
  parse_integer_literal = do
    digits ← literal
    elim (parse_int digits) [
      | none ↦ complain "could not parse as integer" >> pure Node.no_expr
      | some n ↦ pure (Node.integer_literal n)
    ]

  unfoldable pub parse_float_literal : P Node
  unfolding complain
  parse_float_literal = do
    digits ← literal
    elim (parse_float digits) [
      | none ↦ complain "could not parse as float" >> pure Node.no_expr
      | some n ↦ pure (Node.float_literal n)
    ]

  unfoldable pub parse_byte_literal : P Node
  parse_byte_literal = do
    bytes ← literal
    elim bytes [ [] ↦ crash | b ∷ bs ↦ pure (Node.byte_literal b) ]

  -- `prefixParseFns`; another type has none.
  unfoldable pub prefix_parse_fn : TokenType → Option (P Node)
  prefix_parse_fn TokenType.identifier = some (parse_identifier_or_struct_literal r)
  prefix_parse_fn TokenType.integer = some (parse_integer_literal)
  prefix_parse_fn TokenType.bang = some (parse_prefix_expr r)
  prefix_parse_fn TokenType.minus = some (parse_prefix_expr r)
  prefix_parse_fn TokenType.true_kw = some (pure (Node.boolean_literal true))
  prefix_parse_fn TokenType.false_kw = some (pure (Node.boolean_literal false))
  prefix_parse_fn TokenType.left_paren = some (parse_grouped_expr r)
  prefix_parse_fn TokenType.if_kw = some (parse_if_expr r)
  prefix_parse_fn TokenType.func_kw = some (parse_function_literal r)
  prefix_parse_fn TokenType.string = some (literal >>= λ s. pure (Node.string_literal s))
  prefix_parse_fn TokenType.left_square_bracket = some (parse_array_literal r)
  prefix_parse_fn TokenType.null = some (pure Node.null_literal)
  prefix_parse_fn TokenType.left_curly_bracket = some (parse_hash_literal r)
  prefix_parse_fn TokenType.float = some (parse_float_literal)
  prefix_parse_fn TokenType.macro_kw = some (parse_macro_literal r)
  prefix_parse_fn TokenType.match_kw =
      some (parse_match_expr r (parse_call_expr r) (parse_index_expr r) (parse_selector_expr r))
  prefix_parse_fn TokenType.byte = some (parse_byte_literal)
  prefix_parse_fn TokenType.inv_arrow = some (parse_receive_expr r)
  prefix_parse_fn TokenType.channel_type = some (parse_channel_constructor r)
  prefix_parse_fn TokenType.int_type = some (literal >>= λ s. pure (Node.identifier s))
  prefix_parse_fn TokenType.byte_type = some (literal >>= λ s. pure (Node.identifier s))
  prefix_parse_fn TokenType.float_type = some (literal >>= λ s. pure (Node.identifier s))
  prefix_parse_fn _ = none

  -- `parseExpression`
  unfoldable pub parse_expression : ℕ → P Node
  unfolding prefix_parse_fn infix_loop complain
  parse_expression level = do
    t ← curr_type
    elim (prefix_parse_fn t) [
      | none ↦ complain "no prefix parse function found" >> pure Node.no_expr
      | some parse ↦ parse >>= infix_loop r r.rounds level
    ]
