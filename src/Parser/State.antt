-- ===== src/Parser/State.antt =====
-- parser/parser.go: the parser's state and what its functions do to it. The lexer is the list of the
-- tokens that it still gives; it gives the end of the file after them.
use Prim.Native.Char.{char, IsScalar}
use sydney.Base.{
  ℕ, zero, suc, ◌%◌, String, List, [], ◌∷◌, ◌++◌, Bool, true, false, Option, none, some, insert,
  if◌then◌else◌, Result, ok, err, panic, arith,
}
use sydney.Token.{Token, TokenType, same_type}
use sydney.Types.{Ty}
use sydney.Parser.Tree.{Node, Statement}

pub byte-IsScalar : (b : ℕ) → IsScalar (b % 256)
byte-IsScalar b = ground arith

-- A text of the source as a string: a byte is a character.
unfoldable pub text : List ℕ → String
text [] = ""
text (b ∷ bs) = String.◌∷◌ (char (b % 256) (byte-IsScalar b)) (text bs)

-- `genericNames`, `typeParameters`: the names that are true; `suppressColon`. A message is its
-- fixed text, without the place and the tokens in it.
pub record Parser : Type 0 where
  pub lexer : List Token
  pub curr_token : Token
  pub peek_token : Token
  pub peek_peek_token : Token
  pub errors : List String
  pub defined_structs : List (String × Ty)
  pub defined_interfaces : List (String × Ty)
  pub done_imports : Bool
  pub generic_names : List (String × Unit {0})
  pub type_parameters : List (String × Unit {0})
  pub suppress_colon : Bool

-- A function of the parser: it gives its result and changes the parser, or panics. An `err` is fuel
-- that ran out.
abbrev pub P : Type 0 → Type 0
P A = Parser → Result (A × Parser)

module _ {A : Type 0} where
  abbrev pub pure : A → P A
  pure a p = ok (a, p)

  abbrev pub crash : P A
  crash p = panic

  abbrev pub spent : P A
  spent p = err "out of fuel"

module _ {A B : Type 0} where
  abbrev pub after : (A × Parser → Result (B × Parser)) → Result (A × Parser) → Result (B × Parser)
  after next (ok r) = next r
  after next (err e) = err e
  after next panic = panic

  infixl 1 ◌>>=◌ ◌>>◌
  abbrev pub ◌>>=◌ : P A → (A → P B) → P B
  m >>= f = λ p. after (λ (a, q). f a q) (m p)

  abbrev pub ◌>>◌ : P A → P B → P B
  m >> k = m >>= λ _. k

abbrev pub Done : Type 0
Done = Unit {0}

-- The token after all tokens.
abbrev pub end_token : Token
end_token = record { literal = []; typ = TokenType.eof; line = 0; column = 0 }

-- `nextToken`
unfoldable pub next_token : P Done
next_token p = elim p.lexer [
  | [] ↦ ok (
    tt,
    record p {
      curr_token = p.peek_token;
      peek_token = p.peek_peek_token;
      peek_peek_token = end_token;
    },
  )
  | t ∷ ts ↦ ok (
    tt,
    record p {
      lexer = ts;
      curr_token = p.peek_token;
      peek_token = p.peek_peek_token;
      peek_peek_token = t;
    },
  )
]

-- `New`: three tokens are read.
unfoldable pub fresh_parser : List Token → Parser
fresh_parser ts = record {
  lexer = ts;
  curr_token = end_token;
  peek_token = end_token;
  peek_peek_token = end_token;
  errors = [];
  defined_structs = [];
  defined_interfaces = [];
  done_imports = false;
  generic_names = [];
  type_parameters = [];
  suppress_colon = false;
}

-- `NewWithGenericNames` after `New`, and `SetDefinedTypes`: the entries replace those of their names.
unfoldable pub with_generic_names : List (String × Unit {0}) → Parser → Parser
with_generic_names names p = record p { generic_names = names }

unfoldable pub put_each : List (String × Ty) → List (String × Ty) → List (String × Ty)
put_each [] table = table
put_each ((k, t) ∷ more) table = put_each more (insert k t table)

unfoldable pub set_defined_types : List (String × Ty) → List (String × Ty) → P Done
unfolding put_each
set_defined_types structs interfaces p = ok (
  tt,
  record p {
    defined_structs = put_each structs p.defined_structs;
    defined_interfaces = put_each interfaces p.defined_interfaces;
  },
)

-- `currTokenIs`, `peekTokenIs` and `peekPeekTokenIs`, and the text of the current token.
unfoldable pub curr_token_is : TokenType → P Bool
curr_token_is t p = ok (same_type p.curr_token.typ t, p)

unfoldable pub peek_token_is : TokenType → P Bool
peek_token_is t p = ok (same_type p.peek_token.typ t, p)

unfoldable pub peek_peek_token_is : TokenType → P Bool
peek_peek_token_is t p = ok (same_type p.peek_peek_token.typ t, p)

abbrev pub curr_type : P TokenType
curr_type p = ok (p.curr_token.typ, p)

abbrev pub peek_type : P TokenType
peek_type p = ok (p.peek_token.typ, p)

abbrev pub literal : P (List ℕ)
literal p = ok (p.curr_token.literal, p)

-- `p.errors = append(p.errors, ...)`
unfoldable pub complain : String → P Done
complain message p = ok (tt, record p { errors = p.errors ++ message ∷ [] })

-- `expectPeek`
unfoldable pub expect_peek : TokenType → P Bool
unfolding next_token complain
expect_peek t p =
    if same_type p.peek_token.typ t
    then (next_token >> pure true) p
    else (complain "expected next token to be another" >> pure false) p

module _ {A : Type 0} where
  -- `if !p.expectPeek(t) { return a }`, where the second form has a message more.
  unfoldable pub expecting : TokenType → A → P A → P A
  unfolding expect_peek
  expecting t a k = expect_peek t >>= λ found. if found then k else pure a

  unfoldable pub expecting_or : TokenType → String → A → P A → P A
  unfolding expect_peek complain
  expecting_or t message a k =
      expect_peek t >>= λ found. if found then k else (complain message >> pure a)

-- `if p.peekTokenIs(t) { p.nextToken() }`
unfoldable pub skip : TokenType → P Done
unfolding peek_token_is next_token
skip t = peek_token_is t >>= λ found. if found then next_token else pure tt

-- A loop: it goes on or ends with a value.
pub data Step (A : Type 0) : Type 0 where
  again leave : A → Step A

module _ {A : Type 0} where
  unfoldable pub loop : ℕ → (A → P (Step A)) → A → P A
  loop zero body a = spent
  loop (suc n) body a = body a >>= λ s. elim s [ again b ↦ loop n body b | leave b ↦ pure b ]

  -- A loop over list elements that ends where `more` says; an element may be refused.
  unfoldable pub gather : ℕ → P Bool → P (Option A) → List A → P (Option (List A))
  gather zero more element found = spent
  gather (suc n) more element found = more >>= λ on.
      let one_more : P (Option (List A)) = element >>= λ e. elim e [
        | none ↦ pure none
        | some a ↦ gather n more element (found ++ a ∷ [])
      ] in
      if on then one_more else pure (some found)

-- The functions of the parser that call one another, and a bound on the rounds of their loops.
pub record Rec : Type 0 where
  pub rounds : ℕ
  pub expression : ℕ → P Node
  pub statement : P Statement
  pub typ : P Ty
