-- ===== src/Parser/Expressions.antt =====
-- parser/parser.go: expressions by their first token or by the operator behind their first part.
use sydney.Base.{[], map, Bool, true, false, not, ◌||◌, Option, none, some, if◌then◌else◌, ok}
use sydney.Token.{TokenType}
use sydney.Types.{Ty, Tys}
use sydney.Parser.Tree.{Node, Block, nodes, pairs}
use sydney.Parser.State.{
  P, pure, ◌>>=◌, ◌>>◌, Done, Rec, next_token, peek_token_is, peek_peek_token_is, literal, complain,
  expecting, gather, skip,
}
use sydney.Parser.Types.{tys, parse_one}
use sydney.Parser.Lists.{
  lowest, parse_macro_parameters, parse_block_stmt, parse_expression_list,
  parse_function_parameters, return_type, parse_struct_literal, generic_use, parse_identifier,
}
use sydney.Parser.Levels.{prefix_precedence, curr_precedence}

abbrev pub set_suppress : Bool → P Done
set_suppress b p = ok (tt, record p { suppress_colon = b })

module _ (r : Rec) where
  -- `parsePrefixExpr`, `parseInfixExpr` and `parseGroupedExpr`
  unfoldable pub parse_prefix_expr : P Node
  unfolding next_token
  parse_prefix_expr = do
    op ← literal
    next_token
    right ← r.expression prefix_precedence
    pure (Node.prefix_expr op right)

  unfoldable pub parse_infix_expr : Node → P Node
  unfolding curr_precedence next_token
  parse_infix_expr left = do
    op ← literal
    level ← curr_precedence
    next_token
    right ← r.expression level
    pure (Node.infix_expr op left right)

  unfoldable pub parse_grouped_expr : P Node
  unfolding next_token expecting
  parse_grouped_expr = do
    next_token
    e ← r.expression lowest
    expecting TokenType.right_paren Node.no_expr (pure e)

  -- `parseIfExpr`
  unfoldable pub alternative : P (Option Block)
  unfolding peek_token_is next_token expecting parse_block_stmt
  alternative = do
    found ← peek_token_is TokenType.else_kw
    let parse : P (Option Block) = do
      next_token
      expecting TokenType.left_curly_bracket none do b ← parse_block_stmt r; pure (some b)
    if found then parse else pure (some Block.no_block)

  unfoldable pub parse_if_expr : P Node
  unfolding expecting next_token parse_block_stmt alternative
  parse_if_expr = expecting TokenType.left_paren Node.no_expr do
    next_token
    condition ← r.expression lowest
    expecting TokenType.right_paren Node.no_expr (
        expecting TokenType.left_curly_bracket Node.no_expr do
          consequence ← parse_block_stmt r
          other ← alternative
          pure (elim other [ none ↦ Node.no_expr | some b ↦ Node.if_expr condition consequence b ]))

  -- `parseFunctionLiteral` and `parseMacroLiteral`
  unfoldable pub parse_function_literal : P Node
  unfolding expecting parse_function_parameters return_type parse_block_stmt tys
  parse_function_literal = expecting TokenType.left_paren Node.no_expr do
    ps ← parse_function_parameters r
    t ← return_type r
    expecting TokenType.left_curly_bracket Node.no_expr do
      body ← parse_block_stmt r
      pure (
          Node.function_literal [] (map (λ q. q.1) ps)
            (Ty.func (tys (map (λ q. q.0) ps)) t false Tys.nil) body)

  unfoldable pub parse_macro_literal : P Node
  unfolding expecting parse_macro_parameters parse_block_stmt
  parse_macro_literal = expecting TokenType.left_paren Node.no_expr do
    ps ← parse_macro_parameters r.rounds
    expecting TokenType.left_curly_bracket Node.no_expr
        do body ← parse_block_stmt r; pure (Node.macro_literal ps body)

  -- `parseArrayLiteral`, `parseCallExpr`
  unfoldable pub parse_array_literal : P Node
  unfolding parse_expression_list nodes
  parse_array_literal = do
    es ← parse_expression_list r TokenType.right_square_bracket
    pure (Node.array_literal (nodes es))

  unfoldable pub parse_call_expr : Node → P Node
  unfolding peek_token_is sydney.Parser.Types.parse_type_args parse_expression_list nodes
  parse_call_expr function = do
    angle ← peek_token_is TokenType.less_than
    args ← (if angle then sydney.Parser.Types.parse_type_args r else pure [])
    es ← parse_expression_list r TokenType.right_paren
    pure (Node.call_expr function (nodes es) args)

  -- `parseIndexExpr` and `parseSliceExpr`
  unfoldable pub slice_start : P Node
  unfolding peek_token_is next_token
  slice_start = do
    absent ← peek_token_is TokenType.colon
    let start : P Node = do
      next_token
      set_suppress true
      e ← r.expression lowest
      set_suppress false
      pure e
    if absent then pure Node.no_expr else start

  unfoldable pub slice_end : P Node
  unfolding peek_token_is next_token
  slice_end = do
    absent ← peek_token_is TokenType.right_square_bracket
    if absent then pure Node.no_expr else (next_token >> r.expression lowest)

  unfoldable pub parse_slice_expr : Node → P Node
  unfolding slice_start expecting slice_end
  parse_slice_expr left = do
    start ← slice_start
    expecting TokenType.colon Node.no_expr do
      end_node ← slice_end
      expecting TokenType.right_square_bracket Node.no_expr
          (pure (Node.slice_expr left start end_node))

  unfoldable pub parse_index_expr : Node → P Node
  unfolding peek_peek_token_is peek_token_is parse_slice_expr next_token expecting
  parse_index_expr left = do
    second ← peek_peek_token_is TokenType.colon
    first ← peek_token_is TokenType.colon
    let index : P Node = do
      next_token
      e ← r.expression lowest
      expecting TokenType.right_square_bracket Node.no_expr (pure (Node.index_expr left e))
    if second || first then parse_slice_expr left else index

  -- `parseHashLiteral`
  unfoldable pub hash_pair : P (Option (Node × Node))
  unfolding next_token expecting peek_token_is
  hash_pair = do
    next_token
    set_suppress true
    key ← r.expression lowest
    set_suppress false
    expecting TokenType.colon none do
      next_token
      value ← r.expression lowest
      closed ← peek_token_is TokenType.right_curly_bracket
      if closed
          then pure (some (key, value))
          else expecting TokenType.comma none (pure (some (key, value)))

  unfoldable pub parse_hash_literal : P Node
  unfolding gather peek_token_is hash_pair expecting pairs
  parse_hash_literal = do
    found ←
        gather r.rounds (peek_token_is TokenType.right_curly_bracket >>= λ b. pure (not b))
          hash_pair []
    elim found [
      | none ↦ pure Node.no_expr
      | some ps ↦
          expecting TokenType.right_curly_bracket Node.no_expr (pure (Node.hash_literal (pairs ps)))
    ]

  -- `parseSelectorExpr` and `parseScopeAccessExpr`
  unfoldable pub parse_selector_expr : Node → P Node
  unfolding expecting parse_identifier
  parse_selector_expr left =
      expecting TokenType.identifier Node.no_expr
        do value ← parse_identifier r; pure (Node.selector_expr left value)

  unfoldable pub parse_scope_access_expr : Node → P Node
  unfolding next_token peek_token_is parse_struct_literal generic_use complain
  parse_scope_access_expr (Node.identifier mod_name) = do
    next_token
    member ← literal
    made ← peek_token_is TokenType.left_curly_bracket
    angle ← peek_token_is TokenType.less_than
    let plain = Node.scope_access_expr mod_name member
    if made
        then parse_struct_literal r member mod_name []
        else if angle
        then generic_use r member mod_name plain
        else pure plain
  parse_scope_access_expr left = complain "expected identifier" >> pure Node.no_expr

  -- `parseReceiveExpr` and `parseChannelConstructor`
  unfoldable pub parse_receive_expr : P Node
  unfolding next_token skip
  parse_receive_expr = do
    next_token
    e ← r.expression lowest
    skip TokenType.semicolon
    pure (Node.receive_expr e)

  unfoldable pub parse_channel_constructor : P Node
  unfolding parse_one expecting peek_token_is next_token
  parse_channel_constructor = do
    t ← parse_one r "for chan type annotation" Ty.channel
    expecting TokenType.left_paren Node.no_expr do
      absent ← peek_token_is TokenType.right_paren
      capacity ← (if absent then pure Node.no_expr else (next_token >> r.expression lowest))
      expecting TokenType.right_paren Node.no_expr (pure (Node.channel_constructor t capacity))
