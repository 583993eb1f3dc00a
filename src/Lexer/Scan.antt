-- ===== src/Lexer/Scan.antt =====
-- lexer/lexer.go: `NextToken`, `makeToken` and `makeTokenStr`. A line comment makes `NextToken` call
-- itself, so it runs on fuel.
use mathlib.Core.Option
use sydney.Base.{
  ℕ, zero, suc, ◌+◌, ◌/◌, ◌%◌, List, [], ◌∷◌, ◌++◌, true, false, ◌&&◌, Option, none, some, ◌==◌,
  ltb, if◌then◌else◌,
}
use sydney.Token.{TokenType, Token}
use sydney.Lexer.{
  Lexer, read_char, peek_char, is_alpha, is_numeric, is_comment, skip_while, fuel_for,
  skip_whitespace, read_identifier, read_number, read_string,
}
use sydney.Lexer.Keywords.{lookup_ident}

-- `string(char)` of a byte: the UTF-8 text of the code point.
abbrev pub text_of : ℕ → List ℕ
text_of c = if ltb c 128 then c ∷ [] else (192 + c / 64) ∷ (128 + c % 64) ∷ []

-- The tokens of one byte: grouping, punctuation, and the operators that begin no longer one.
unfoldable pub single : ℕ → Option TokenType
single c =
    if c == b'('
    then some TokenType.left_paren
    else if c == b')'
    then some TokenType.right_paren
    else if c == b'{'
    then some TokenType.left_curly_bracket
    else if c == b'}'
    then some TokenType.right_curly_bracket
    else if c == b'['
    then some TokenType.left_square_bracket
    else if c == b']'
    then some TokenType.right_square_bracket
    else if c == b';'
    then some TokenType.semicolon
    else if c == b','
    then some TokenType.comma
    else if c == b':'
    then some TokenType.colon
    else if c == b'.'
    then some TokenType.dot
    else if c == b'+'
    then some TokenType.plus
    else if c == b'*'
    then some TokenType.star
    else if c == b'%'
    then some TokenType.modulo
    else none

-- The tokens of two bytes, by the current one and the next.
unfoldable pub double : ℕ → ℕ → Option TokenType
double c next =
    if c == b'='
    then if next == b'=' then some TokenType.equal_to else none
    else if c == b'-'
    then if next == b'>' then some TokenType.arrow else none
    else if c == b'>'
    then if next == b'=' then some TokenType.greater_than_equal_to else none
    else if c == b'<'
    then if next == b'='
      then some TokenType.less_than_equal_to
      else if next == b'-'
      then some TokenType.inv_arrow
      else none
    else if c == b'!'
    then if next == b'=' then some TokenType.not_equal_to else none
    else if c == b'&'
    then if next == b'&' then some TokenType.and else none
    else if c == b'|'
    then if next == b'|' then some TokenType.or else none
    else if c == b'#'
    then if next == b'[' then some TokenType.annotation_start else none
    else none

-- The type of the current byte alone, where the next one does not belong to it.
unfoldable pub lone : ℕ → TokenType
lone c =
    if c == b'='
    then TokenType.assign
    else if c == b'-'
    then TokenType.minus
    else if c == b'/'
    then TokenType.slash
    else if c == b'>'
    then TokenType.greater_than
    else if c == b'<'
    then TokenType.less_than
    else if c == b'!'
    then TokenType.bang
    else TokenType.illegal

-- The value of a byte literal behind a backslash.
unfoldable pub byte_escape : ℕ → ℕ
byte_escape c = if c == b'n' then 10 else if c == b't' then 9 else if c == b'r' then 13 else c

-- A token that begins where `l` stands, and the lexer behind it.
abbrev pub emit : Lexer → List ℕ → TokenType → Lexer → Token × Lexer
emit l literal typ end =
    (record { literal = literal; typ = typ; line = l.line; column = l.column }, read_char end)

-- The case of a single quote: the byte, and then whatever stands where the closing quote should.
unfoldable pub scan_byte : Lexer → Token × Lexer
scan_byte l =
    let first = read_char l in
    if first.char == 92
    then (let second = read_char first in
        emit l (text_of (byte_escape second.char)) TokenType.byte (read_char second))
    else emit l (text_of first.char) TokenType.byte (read_char first)

-- The operators, and what is illegal.
unfoldable pub scan_operator : Lexer → Token × Lexer
scan_operator l = elim (double l.char (peek_char l)) [
  | some typ ↦ emit l (text_of l.char ++ text_of (peek_char l)) typ (read_char l)
  | none ↦ emit l (text_of l.char) (lone l.char) l
]

-- The default case. The position of a number is the one behind it.
unfoldable pub scan_word : Lexer → Option (Token × Lexer)
scan_word l =
    if is_alpha l.char
    then Option.map
        (λ (text, end). (
          record { literal = text; typ = lookup_ident text; line = l.line; column = l.column },
          end,
        ))
        (read_identifier l)
    else if is_numeric l.char
    then Option.map
        (λ (text, decimal, end). (
          record {
            literal = text;
            typ = if decimal then TokenType.float else TokenType.integer;
            line = end.line;
            column = end.column;
          },
          end,
        ))
        (read_number l)
    else some (scan_operator l)

-- The switch of `NextToken`, but for comments.
unfoldable pub scan : Lexer → Option (Token × Lexer)
scan l = elim (single l.char) [
  | some typ ↦ some (emit l (text_of l.char) typ l)
  | none ↦
      if l.char == 34
      then Option.map (λ (text, end). emit l text TokenType.string end) (read_string l)
      else if l.char == 39
      then some (scan_byte l)
      else if l.char == 0
      then some (emit l [] TokenType.eof l)
      else scan_word l
]

-- `for l.char != '\n' && l.char != 0`, from the second slash.
unfoldable pub skip_comment : Lexer → Option Lexer
unfolding skip_while
skip_comment l = skip_while is_comment (fuel_for l) (read_char l)

-- `NextToken`
unfoldable pub next_token : ℕ → Lexer → Option (Token × Lexer)
next_token zero l = none
next_token (suc fuel) l = elim (skip_whitespace l) [
  | none ↦ none
  | some start ↦ elim (start.char == b'/' && peek_char start == b'/') [
    | true ↦ elim (skip_comment start) [ none ↦ none | some l' ↦ next_token fuel l' ]
    | false ↦ scan start
  ]
]
