-- ===== src/Parser/Levels.antt =====
-- parser/parser.go: the precedences of the operators.
use sydney.Base.{ℕ, ◌&&◌, if◌then◌else◌, ok}
use sydney.Token.{TokenType, same_type}
use sydney.Parser.State.{P}
use sydney.Parser.Lists.{lowest}

-- `precedences`; of a prefix it is 9.
unfoldable pub precedence : TokenType → ℕ
precedence TokenType.and = 2
precedence TokenType.or = 2
precedence TokenType.equal_to = 3
precedence TokenType.not_equal_to = 3
precedence TokenType.greater_than_equal_to = 4
precedence TokenType.less_than_equal_to = 4
precedence TokenType.less_than = 5
precedence TokenType.greater_than = 5
precedence TokenType.plus = 6
precedence TokenType.minus = 6
precedence TokenType.slash = 7
precedence TokenType.star = 7
precedence TokenType.modulo = 7
precedence TokenType.colon = 8
precedence TokenType.left_paren = 10
precedence TokenType.left_square_bracket = 11
precedence TokenType.dot = 12
precedence _ = 1

abbrev pub prefix_precedence : ℕ
prefix_precedence = 9

-- `peekPrecedence` and `currPrecedence`
unfoldable pub peek_precedence : P ℕ
unfolding precedence
peek_precedence p = ok (
  if p.suppress_colon && same_type p.peek_token.typ TokenType.colon
      then lowest
      else precedence p.peek_token.typ,
  p,
)

unfoldable pub curr_precedence : P ℕ
unfolding precedence
curr_precedence p = ok (precedence p.curr_token.typ, p)
