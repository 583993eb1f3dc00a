-- ===== src/Parser/Standing.antt =====
-- parser/parser.go: a parser at a list of tokens, and what its functions do there.
use sydney.Base.{
  ap, ◌∙◌, ℕ, zero, suc, ◌≤◌, ◌<◌, ◌≡◌, refl, List, [], ◌∷◌, drop, Bool, true, false, not, ◌&&◌,
  some, ltb, if◌then◌else◌, ok, arith,
}
use sydney.Token.{Token, TokenType, same_type}
use sydney.Parser.Tree.{Node}
use sydney.Parser.State.{Parser, after, Rec, end_token, next_token, peek_token_is}
use sydney.Parser.Levels.{precedence, peek_precedence, curr_precedence}
use sydney.Parser.Expressions.{parse_infix_expr}
use sydney.Parser.Pratt.{infix_parse_fn, infix_loop}
use sydney.Parser.Printer.{Infix, type_of, level}

-- A token of the list, or the end of the file.
abbrev pub token_at : ℕ → List Token → Token
token_at i [] = end_token
token_at zero (t ∷ ts) = t
token_at (suc i) (t ∷ ts) = token_at i ts

-- The parser with the first token of the list as the current one.
abbrev pub stand : Parser → List Token → Parser
stand p ts = record p {
  curr_token = token_at 0 ts;
  peek_token = token_at 1 ts;
  peek_peek_token = token_at 2 ts;
  lexer = drop 3 ts;
}

pub next_token-stand :
    (p : Parser) (t : Token) (ts : List Token) → next_token (stand p (t ∷ ts)) ≡ ok (tt, stand p ts)
unfolding next_token
next_token-stand p t [] = refl
next_token-stand p t (a ∷ []) = refl
next_token-stand p t (a ∷ b ∷ []) = refl
next_token-stand p t (a ∷ b ∷ c ∷ ts) = refl

-- The precedence of what comes next.
abbrev pub next_level : Parser → List Token → ℕ
next_level p rest =
    if p.suppress_colon && same_type (token_at 0 rest).typ TokenType.colon
    then 1
    else precedence (token_at 0 rest).typ

pub and_false : (b : Bool) → (b && false) ≡ false
and_false true = refl
and_false false = refl

-- The loop ends where nothing binds tighter than its level.
pub infix_loop_ends :
    (r : Rec) (n m : ℕ) (e : Node) (p : Parser) (t : Token) (rest : List Token)
    → next_level p rest ≤ m
    → infix_loop r (suc n) m e (stand p (t ∷ rest)) ≡ ok (e, stand p (t ∷ rest))
unfolding infix_loop peek_token_is peek_precedence
infix_loop_ends r n m e p t rest low =
    let stops : ltb m (next_level p rest) ≡ false = ground (arith, low) in
    rw (stops, and_false (not (same_type (token_at 0 rest).typ TokenType.semicolon))) refl

pub infix_parse_fn-type_of :
    (r : Rec) (o : Infix) → infix_parse_fn r (type_of o) ≡ some (parse_infix_expr r)
unfolding infix_parse_fn
infix_parse_fn-type_of r Infix.plus = refl
infix_parse_fn-type_of r _ = refl

pub not_colon : (o : Infix) → same_type (type_of o) TokenType.colon ≡ false
not_colon Infix.plus = refl
not_colon _ = refl

not_semicolon : (o : Infix) → same_type (type_of o) TokenType.semicolon ≡ false
not_semicolon Infix.plus = refl
not_semicolon _ = refl

-- The table of the parser has the precedences of the language.
pub precedence-type_of : (o : Infix) → precedence (type_of o) ≡ level o
unfolding precedence
precedence-type_of Infix.plus = refl
precedence-type_of _ = refl

-- An operator that binds tighter than the level of the loop is taken.
pub infix_loop-operator :
    (r : Rec) (n m : ℕ) (e : Node) (p : Parser) (t : Token) (o : Infix) (word : List ℕ)
    (rest : List Token)
    → m < level o
    → let op : Token = record { literal = word; typ = type_of o; line = 0; column = 0 } in
      infix_loop r (suc n) m e (stand p (t ∷ op ∷ rest))
      ≡ after (λ (e', q). infix_loop r n m e' q) (parse_infix_expr r e (stand p (op ∷ rest)))
unfolding infix_loop peek_token_is peek_precedence
infix_loop-operator r n m e p t o word rest high =
    let low : ltb m (level o) ≡ true = ground (arith, high) in
    let tighter : ltb m (precedence (type_of o)) ≡ true = ap (ltb m) (precedence-type_of o) ∙ low in
    let op : Token = record { literal = word; typ = type_of o; line = 0; column = 0 } in
    rw
      (
        not_colon o,
        not_semicolon o,
        and_false p.suppress_colon,
        tighter,
        infix_parse_fn-type_of r o,
        next_token-stand p t (op ∷ rest),
      )
      refl

pub parse_infix_expr-operator :
    (r : Rec) (e e' : Node) (p : Parser) (t : Token) (o : Infix) (word : List ℕ)
    (ts rest : List Token)
    → r.expression (level o) (stand p ts) ≡ ok (e', stand p (t ∷ rest))
    → parse_infix_expr r e
        (stand p ((record { literal = word; typ = type_of o; line = 0; column = 0 }) ∷ ts))
      ≡ ok (Node.infix_expr word e e', stand p (t ∷ rest))
unfolding parse_infix_expr curr_precedence
parse_infix_expr-operator r e e' p t o word ts rest right =
    let op : Token = record { literal = word; typ = type_of o; line = 0; column = 0 } in
    rw (precedence-type_of o, next_token-stand p op ts, right) refl
