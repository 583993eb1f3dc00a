-- ===== src/Lexer.antt =====
-- lexer/lexer.go: the lexer's state and the loops that read a lexeme. The source is a list of bytes;
-- each loop runs on fuel, and has no result where the fuel runs out before the loop ends.
pub mod Keywords
pub mod Scan
pub mod Progress
pub mod Total
use mathlib.Core.Option
use sydney.Base.{
  ℕ, zero, suc, ◌+◌, ◌-◌, ◌*◌, ◌/◌, ◌%◌, List, [], ◌∷◌, ◌++◌, Bool, true, false, ◌&&◌, ◌||◌, not,
  Option, none, some, length, get_or, take, drop, ◌==◌, ltb, leb, if◌then◌else◌,
}

pub record Lexer : Type 0 where
  pub source : List ℕ
  pub position : ℕ
  pub read_position : ℕ
  pub char : ℕ
  pub line : ℕ
  pub column : ℕ

-- `readChar`
unfoldable pub read_char : Lexer → Lexer
read_char l =
    let c =
      if leb (length l.source) l.read_position then 0 else get_or l.source l.read_position 0 in
    record l {
      position = l.read_position;
      read_position = l.read_position + 1;
      char = c;
      line = if c == 10 then l.line + 1 else l.line;
      column = if c == 10 then 0 else l.column + 1;
    }

-- `New`
unfoldable pub new : List ℕ → Lexer
unfolding read_char
new source =
    read_char
      (record { source = source; position = 0; read_position = 0; char = 0; line = 1; column = 0 })

-- `peekChar`
unfoldable pub peek_char : Lexer → ℕ
peek_char l = if leb (length l.source) l.read_position then 0 else get_or l.source l.read_position 0

-- `IsAlpha`, `IsNumeric` of utils/utils.go, on the text of one byte.
abbrev pub is_alpha : ℕ → Bool
is_alpha c = leb b'a' c && leb c b'z' || leb b'A' c && leb c b'Z' || c == b'_'

abbrev pub is_numeric : ℕ → Bool
is_numeric c = leb b'0' c && leb c b'9'

abbrev pub is_space : ℕ → Bool
is_space c = c == b' ' || c == 9 || c == 10 || c == 13

abbrev pub is_ident : ℕ → Bool
is_ident c = is_alpha c || is_numeric c

abbrev pub is_comment : ℕ → Bool
is_comment c = not (c == 10) && not (c == 0)

-- `for test(l.char) { l.readChar() }`
unfoldable pub skip_while : (ℕ → Bool) → ℕ → Lexer → Option Lexer
skip_while test zero l = none
skip_while test (suc fuel) l = elim (test l.char) [
  | true ↦ skip_while test fuel (read_char l)
  | false ↦ some l
]

-- The fuel of a loop: the bytes of the source and one more.
abbrev pub fuel_for : Lexer → ℕ
fuel_for l = suc (length l.source)

-- `l.source[from:l.position]`
abbrev pub text_from : ℕ → Lexer → List ℕ
text_from from l = take (l.position - from) (drop from l.source)

-- `skipWhitespace`
unfoldable pub skip_whitespace : Lexer → Option Lexer
unfolding skip_while
skip_whitespace l = skip_while is_space (fuel_for l) l

-- `readIdentifer`
unfoldable pub read_identifier : Lexer → Option (List ℕ × Lexer)
unfolding skip_while
read_identifier l =
    Option.map (λ l'. (text_from l.position l', l')) (skip_while is_ident (fuel_for l) l)

-- The loop of `readNumber`, with `encounteredDecimal`.
unfoldable pub number_loop : ℕ → Bool → Lexer → Option (Bool × Lexer)
number_loop zero decimal l = none
number_loop (suc fuel) decimal l = elim (is_numeric l.char || not decimal && l.char == b'.') [
  | true ↦ number_loop fuel (decimal || l.char == b'.') (read_char l)
  | false ↦ some (decimal, l)
]

-- `readNumber`: the text, and whether a point was met.
unfoldable pub read_number : Lexer → Option (List ℕ × Bool × Lexer)
unfolding number_loop
read_number l =
    Option.map (λ (decimal, l'). (text_from l.position l', decimal, l'))
      (number_loop (fuel_for l) false l)

abbrev pub is_hex : ℕ → Bool
is_hex c = is_numeric c || leb b'a' c && leb c b'f' || leb b'A' c && leb c b'F'

-- `readHex(n)`: the digit that is read last stays the current character.
unfoldable pub read_hex : ℕ → Lexer → List ℕ × Lexer
read_hex zero l = ([], l)
read_hex (suc n) l =
    let l' = if is_hex l.char && ltb 0 n then read_char l else l in
    let (rest, end) = read_hex n l' in (if is_hex l.char then (l.char ∷ rest, end) else (rest, end))

abbrev pub hex_value : ℕ → ℕ
hex_value c = if is_numeric c then c - b'0' else if leb b'a' c then c - b'a' + 10 else c - b'A' + 10

-- The value of `strconv.ParseUint(hex, 16, 8)` on at most two digits; no digit is an error, with 0.
unfoldable pub parse_hex : List ℕ → ℕ
parse_hex [] = 0
parse_hex (a ∷ []) = hex_value a
parse_hex (a ∷ b ∷ _) = hex_value a * 16 + hex_value b

-- The switch of `readString` behind a backslash: the bytes that it appends.
unfoldable pub read_escape : Lexer → List ℕ × Lexer
unfolding read_hex parse_hex
read_escape l =
    if l.char == b'n'
    then (10 ∷ [], l)
    else if l.char == b't'
    then (9 ∷ [], l)
    else if l.char == b'r'
    then (13 ∷ [], l)
    else if l.char == 92
    then (92 ∷ [], l)
    else if l.char == 34
    then (34 ∷ [], l)
    else if l.char == b'0'
    then (0 ∷ [], l)
    else if l.char == b'x'
    then (let (hex, l') = read_hex 2 (read_char l) in (parse_hex hex ∷ [], l'))
    else (92 ∷ l.char ∷ [], l)

-- The loop of `readString`, with the bytes read so far.
unfoldable pub string_loop : ℕ → List ℕ → Lexer → Option (List ℕ × Lexer)
string_loop zero result l = none
string_loop (suc fuel) result l =
    let l' = read_char l in
    elim (l'.char == 34 || l'.char == 0) [
      | true ↦ some (result, l')
      | false ↦ elim (l'.char == 92) [
        | true ↦
            let (bytes, l'') = read_escape (read_char l') in string_loop fuel (result ++ bytes) l''
        | false ↦ string_loop fuel (result ++ l'.char ∷ []) l'
      ]
    ]

-- `readString`
unfoldable pub read_string : Lexer → Option (List ℕ × Lexer)
unfolding string_loop
read_string l = string_loop (fuel_for l) [] l
