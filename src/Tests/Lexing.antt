-- ===== src/Tests/Lexing.antt =====
-- Tests of the modules on lexer/lexer.go.
use sydney.Base.{ℕ, zero, suc, ◌≡◌, refl, List, [], ◌∷◌, some, none, arith}
use sydney.Token.{TokenType, Token}
use sydney.Lexer.{
  Lexer, new, read_char, peek_char, skip_whitespace, read_identifier, read_number, parse_hex,
  read_string,
}
use sydney.Lexer.Keywords.{codes, lookup_ident}
use sydney.Lexer.Scan.{
  single, double, lone, byte_escape, scan_byte, scan_operator, scan_word, scan, skip_comment,
  next_token,
}
use sydney.Lexer.Progress.{new-Valid}
use sydney.Lexer.Total.{Moves, next_token_total}

-- The token types of a text, with fuel for as many tokens and comments.
tokens : ℕ → Lexer → List TokenType
unfolding next_token scan scan_word scan_operator scan_byte skip_comment single double lone
    byte_escape read_char peek_char skip_whitespace read_identifier read_number read_string
    parse_hex lookup_ident new
tokens zero l = []
tokens (suc fuel) l = elim (next_token 9 l) [ none ↦ [] | some (t, l') ↦ t.typ ∷ tokens fuel l' ]

abbrev sample : List ℕ
sample = codes "mut x1 = 3.5; // c"

tokens-sample :
    tokens 6 (new sample)
    ≡ TokenType.mut_kw ∷ TokenType.identifier ∷ TokenType.assign ∷ TokenType.float
      ∷ TokenType.semicolon ∷ TokenType.eof ∷ []
unfolding tokens
tokens-sample = refl

next_token_total_example :
    (r : Token × Lexer) × (next_token 19 (new sample) ≡ some r) × Moves (new sample) r
unfolding new
next_token_total_example = next_token_total 18 (new sample) (new-Valid sample) (omega arith)
