-- ===== src/Parser/Matches.antt =====
-- parser/parser.go: `match` expressions, over results, options and types.
use sydney.Base.{
  ℕ, List, [], ◌∷◌, ◌++◌, Bool, Option, none, some, str_eq, ◌||◌, if◌then◌else◌, String,
}
use sydney.Token.{TokenType}
use sydney.Types.{Ty}
use sydney.Parser.Tree.{Node, Block, type_arms}
use sydney.Parser.State.{
  P, pure, ◌>>=◌, ◌>>◌, Rec, Step, again, leave, loop, text, next_token, curr_token_is,
  peek_token_is, literal, complain, expecting, expecting_or,
}
use sydney.Parser.Lists.{parse_block_stmt, parse_identifier, as_identifier}

abbrev pub Arm : Type 0
Arm = List ℕ × Block

-- The test of the current token's text.
abbrev pub reads : String → P Bool
reads word = literal >>= λ name. pure (str_eq (text name) word)

abbrev pub swapped : {A B : Type 0} → Option (A × B) → Option (B × A)
swapped none = none
swapped (some (a, b)) = some (b, a)

module _ (r : Rec) (parse_call_expr parse_index_expr parse_selector_expr : Node → P Node) where
  -- The subject: a name, or one of a module, with calls, indices and selectors behind it.
  unfoldable pub subject_name : P Node
  unfolding parse_identifier peek_token_is next_token as_identifier
  subject_name = do
    e ← parse_identifier r
    scoped ← peek_token_is TokenType.colon
    if scoped
        then (do
          next_token
          name ← as_identifier e
          next_token
          member ← literal
          pure (Node.scope_access_expr name member))
        else pure e

  unfoldable pub subject_part : Node → P (Step Node)
  unfolding peek_token_is next_token
  subject_part e = do
    called ← peek_token_is TokenType.left_paren
    indexed ← peek_token_is TokenType.left_square_bracket
    selected ← peek_token_is TokenType.dot
    let on : (Node → P Node) → P (Step Node) = λ parse. do next_token; e' ← parse e; pure (again e')
    if called
        then on parse_call_expr
        else if indexed
        then on parse_index_expr
        else if selected
        then on parse_selector_expr
        else pure (leave e)

  unfoldable pub parse_subject : P Node
  unfolding subject_name loop subject_part
  parse_subject = subject_name >>= loop r.rounds subject_part

  -- `parseMatchArmWithBinding` and `parseMatchArmNone`
  unfoldable pub arm_body : P (Option Block)
  unfolding expecting_or next_token parse_block_stmt
  arm_body = expecting_or TokenType.arrow "expected ->" none do
    next_token
    body ← parse_block_stmt r
    expecting_or TokenType.comma "expected ," none (pure (some body))

  unfoldable pub parse_match_arm_with_binding : P (Option Arm)
  unfolding expecting_or parse_identifier as_identifier arm_body
  parse_match_arm_with_binding = expecting_or TokenType.left_paren "expected (" none (
      expecting_or TokenType.identifier "expected identifier" none do
        e ← parse_identifier r
        binding ← as_identifier e
        expecting_or TokenType.right_paren "expected )" none
            do body ← arm_body; pure (elim body [ none ↦ none | some b ↦ some (binding, b) ]))

  -- An arm, a word and a second arm.
  unfoldable pub arm_pair :
      {A B : Type 0} → P (Option A) → String → P (Option B) → P (Option (A × B))
  unfolding expecting_or complain
  arm_pair {A} {B} first word second = do
    a ← first
    let rest : A → P (Option (A × B)) = λ x.
        expecting_or TokenType.identifier "expected another arm" none do
          found ← reads word
          let other : P (Option (A × B)) = do
            b ← second
            pure (elim b [ none ↦ none | some y ↦ some (x, y) ])
          if found then other else (complain "expected another arm" >> pure none)
    elim a [ none ↦ pure none | some x ↦ rest x ]

  -- `parseResultMatch` with `parseResultArmPair`, and `parseOptionMatch`; the current token is the
  -- first arm's word.
  unfoldable pub parse_result_match : Node → P Node
  unfolding arm_pair parse_match_arm_with_binding
  parse_result_match subject = do
    first_ok ← reads "ok"
    let arm = parse_match_arm_with_binding
    arms ←
        (if first_ok
          then arm_pair arm "err" arm
          else (do found ← arm_pair arm "ok" arm; pure (swapped found)))
    pure (elim arms [
      | none ↦ Node.no_expr
      | some (x, y) ↦ Node.match_result subject x.0 x.1 y.0 y.1
    ])

  unfoldable pub parse_option_match : Node → P Node
  unfolding arm_pair parse_match_arm_with_binding arm_body
  parse_option_match subject = do
    first_some ← reads "some"
    let arm = parse_match_arm_with_binding
    arms ←
        (if first_some
          then arm_pair arm "none" arm_body
          else (do found ← arm_pair arm_body "some" arm; pure (swapped found)))
    pure (elim arms [
      | none ↦ Node.no_expr
      | some (x, body) ↦ Node.match_option subject x.0 x.1 body
    ])

  -- `parseMatchExpr`, but for the type match.
  unfoldable pub closed_match : Node → P Node
  unfolding expecting_or
  closed_match Node.no_expr = pure Node.no_expr
  closed_match e = expecting_or TokenType.right_curly_bracket "expected }" Node.no_expr (pure e)

  unfoldable pub match_arms : Node → P Node
  unfolding parse_result_match parse_option_match closed_match complain
  match_arms subject = do
    is_ok ← reads "ok"
    is_err ← reads "err"
    is_some ← reads "some"
    is_none ← reads "none"
    if is_ok || is_err
        then parse_result_match subject >>= closed_match
        else if is_some || is_none
        then parse_option_match subject >>= closed_match
        else (complain "expected ok, err, some, or none" >> pure Node.no_expr)

  unfoldable pub parse_value_match : P Node
  unfolding expecting_or parse_subject match_arms
  parse_value_match = expecting_or TokenType.identifier "expected identifier" Node.no_expr do
    subject ← parse_subject
    expecting_or TokenType.left_curly_bracket "expected {" Node.no_expr (
        expecting_or TokenType.identifier "expected ok, err, some, or none" Node.no_expr
          (match_arms subject))

  -- `parseTypeMatchExpr`: its arms, the last default arm that was read, and nothing after a mistake.
  abbrev pub TypeMatch : Type 0
  TypeMatch = Option (List (Ty × List ℕ × Block) × Block)

  unfoldable pub default_arm : List (Ty × List ℕ × Block) → P (Step TypeMatch)
  unfolding expecting next_token parse_block_stmt
  default_arm arms = expecting TokenType.arrow (leave none) do
    next_token
    body ← parse_block_stmt r
    expecting TokenType.comma (leave none) (next_token >> pure (again (some (arms, body))))

  unfoldable pub type_arm : List (Ty × List ℕ × Block) → Block → P (Step TypeMatch)
  unfolding expecting next_token parse_identifier as_identifier parse_block_stmt
  type_arm arms default = do
    t ← r.typ
    expecting TokenType.left_paren (leave none) do
      next_token
      e ← parse_identifier r
      binding ← as_identifier e
      expecting TokenType.right_paren (leave none) (
          expecting TokenType.arrow (leave none) (
            expecting TokenType.left_curly_bracket (leave none) do
              body ← parse_block_stmt r
              expecting TokenType.comma (leave none)
                  (next_token >> pure (again (some (arms ++ (t, binding, body) ∷ [], default))))))

  unfoldable pub type_match_arm : TypeMatch → P (Step TypeMatch)
  unfolding curr_token_is default_arm type_arm
  type_match_arm none = pure (leave none)
  type_match_arm (some (arms, default)) = do
    closed ← curr_token_is TokenType.right_curly_bracket
    is_default ← reads "_"
    if closed
        then pure (leave (some (arms, default)))
        else if is_default
        then default_arm arms
        else type_arm arms default

  unfoldable pub parse_type_match_expr : P Node
  unfolding next_token expecting parse_subject loop type_match_arm type_arms
  parse_type_match_expr = do
    next_token
    expecting TokenType.identifier Node.no_expr do
      subject ← parse_subject
      expecting TokenType.left_curly_bracket Node.no_expr do
        next_token
        found ← loop r.rounds type_match_arm (some ([], Block.no_block))
        elim found [
          | none ↦ pure Node.no_expr
          | some (arms, default) ↦
              next_token >> pure (Node.match_type_expr subject (type_arms arms) default)
        ]

  unfoldable pub parse_match_expr : P Node
  unfolding peek_token_is parse_type_match_expr parse_value_match
  parse_match_expr = do
    typed ← peek_token_is TokenType.type_of_kw
    if typed then parse_type_match_expr else parse_value_match
