-- ===== src/Parser/RoundTrip.antt =====
-- parser/parser.go: parsing what the printer printed.
use sydney.Base.{
  ℕ, zero, suc, ◌+◌, ◌-◌, ◌≤◌, ◌<◌, ◌≡◌, refl, List, ◌∷◌, ◌++◌, Bool, true, false, Option, ltb, ok,
  arith,
}
use sydney.Token.{Token, TokenType, same_type}
use sydney.Parser.Tree.{Node}
use sydney.Parser.State.{Parser}
use sydney.Parser.Lists.{lowest}
use sydney.Parser.Pratt.{parse_expression}
use sydney.Parser.Program.{parsing}
use sydney.Parser.Levels.{precedence}
use sydney.Parser.Printer.{
  Infix, Prefix, Term, type_of, prefix_type, prefix_level, truth_type, level, enclosed, print,
  node_of, Plain, wrapped, cost, unless_wrapped, steps, mark,
}
use sydney.Parser.Standing.{stand, token_at, next_level, precedence-type_of, not_colon, and_false}
use sydney.Parser.Reading.{
  Reads, Ends, Reads-Ends, parse_identifier-Reads, string_literal-Reads,
  parse_integer_literal-Reads, boolean_literal-Reads, null_literal-Reads, parse_prefix_expr-Reads,
  parse_grouped_expr-Reads, parse_infix_expr-Reads,
}

-- An operator binds tighter than the end of an expression, and is no brace.
level_low : (o : Infix) → 2 ≤ level o
unfolding precedence
level_low Infix.plus = omega arith
level_low _ = omega arith

operator_brace : (o : Infix) → same_type (type_of o) TokenType.left_curly_bracket ≡ false
operator_brace Infix.plus = refl
operator_brace _ = refl

next_level-operator :
    (p : Parser) (o : Infix) (s : List ℕ) (rest : List Token)
    → next_level p (record { literal = s; typ = type_of o; line = 0; column = 0 } ∷ rest) ≡ level o
next_level-operator p o s rest = rw (not_colon o, and_false p.suppress_colon) (precedence-type_of o)

closing_level :
    (p : Parser) (s : List ℕ) (rest : List Token)
    → next_level p
        (record { literal = s; typ = TokenType.right_paren; line = 0; column = 0 } ∷ rest)
      ≡ 1
unfolding precedence
closing_level p s rest = rw (and_false p.suppress_colon) refl

unless_wrapped_low : (b : Bool) (n m : ℕ) → n ≤ m → unless_wrapped b n ≤ wrapped b m
unless_wrapped_low true n m h = h
unless_wrapped_low false n m h = omega arith

steps-cost : (k : ℕ) (e : Term) → steps k e ≤ cost k e
unfolding steps cost
steps-cost k (Term.joined o l d) =
    unless_wrapped_low (ltb k (level o)) (suc (steps (level o - 1) l))
      (suc (cost (level o - 1) l + cost (level o) d)) (ground (arith, steps-cost (level o - 1) l))
steps-cost k (Term.prefixed s e) = omega arith
steps-cost k (Term.name n) = omega arith
steps-cost k (Term.text_literal s) = omega arith
steps-cost k (Term.number n) = omega arith
steps-cost k (Term.truth b) = omega arith
steps-cost k Term.nothing = omega arith

same_rounds : (n f : ℕ) → n + 0 ≡ suc f → n ≡ suc f
same_rounds n f h = omega (arith, h)

module _ (word : TokenType → List ℕ) (digits : ℕ → List ℕ)
    (parse_int parse_float : List ℕ → Option ℕ) where
  -- A term at a place: the parser reads it with fuel for its operators and parentheses.
  abbrev Readable : ℕ → Term → Type 0
  Readable k e =
      (m n f : ℕ) (p : Parser) (rest : List Token)
      → Plain word digits parse_int p.generic_names e
      → m ≤ k
      → cost k e ≤ f
      → n + steps k e ≡ suc f
      → next_level p rest ≤ suc k
      → same_type (token_at 0 rest).typ TokenType.left_curly_bracket ≡ false
      → Reads parse_int parse_float (suc f) m n p (print word digits k e) (node_of word digits e)
          rest

  Readable-Ends :
      (k : ℕ) (e : Term)
      → Readable k e
      → (f : ℕ) (p : Parser) (rest : List Token) → Plain word digits parse_int p.generic_names e
      → cost k e ≤ f
      → next_level p rest ≤ k
      → same_type (token_at 0 rest).typ TokenType.left_curly_bracket ≡ false
      → Ends parse_int parse_float (suc f) k p (print word digits k e) (node_of word digits e) rest
  Readable-Ends k e reads f p rest plain enough low brace =
      Reads-Ends parse_int parse_float (suc f) k (f - steps k e) p (print word digits k e)
        (node_of word digits e) rest
        (reads k (suc (f - steps k e)) f p rest plain (omega arith) enough
          (ground (arith, steps-cost k e, enough)) (omega (arith, low)) brace)
        low

  joined_open :
      (o : Infix) (l d : Term)
      → Readable (level o - 1) l
      → Readable (level o) d
      → (m n f : ℕ) (p : Parser) (rest : List Token) → Plain word digits parse_int p.generic_names l
      → Plain word digits parse_int p.generic_names d
      → m < level o
      → suc (cost (level o - 1) l + cost (level o) d) ≤ f
      → n + suc (steps (level o - 1) l) ≡ suc f
      → next_level p rest ≤ level o
      → same_type (token_at 0 rest).typ TokenType.left_curly_bracket ≡ false
      → Reads parse_int parse_float
          (suc f)
          m
          n
          p
          (print word digits (level o - 1) l
            ++ mark word digits (type_of o) ∷ print word digits (level o) d)
          (Node.infix_expr (word (type_of o)) (node_of word digits l) (node_of word digits d))
          rest
  joined_open o l d left right m n zero p rest pl pd high enough rounds low brace =
      absurd (omega (arith, enough))
  joined_open o l d left right m n (suc f) p rest pl pd high enough rounds low brace =
      parse_infix_expr-Reads parse_int parse_float (suc f) m n p o (word (type_of o))
        (print word digits (level o - 1) l) (print word digits (level o) d) (node_of word digits l)
        (node_of word digits d) rest high
        (left m (suc n) (suc f) p
          (mark word digits (type_of o) ∷ print word digits (level o) d ++ rest) pl
          (omega (arith, high)) (omega (arith, enough)) (omega (arith, rounds))
          (rw (next_level-operator p o (word (type_of o)) (print word digits (level o) d ++ rest))
            (omega (arith, level_low o)))
          (operator_brace o))
        (Readable-Ends (level o) d right f p rest pd (omega (arith, enough)) low brace)

  joined_at :
      (o : Infix) (l d : Term)
      → Readable (level o - 1) l
      → Readable (level o) d
      → (k : ℕ) (b : Bool) → ltb k (level o) ≡ b
      → (m n f : ℕ) (p : Parser) (rest : List Token) → Plain word digits parse_int p.generic_names l
      → Plain word digits parse_int p.generic_names d
      → m ≤ k
      → wrapped b (suc (cost (level o - 1) l + cost (level o) d)) ≤ f
      → n + unless_wrapped b (suc (steps (level o - 1) l)) ≡ suc f
      → next_level p rest ≤ suc k
      → same_type (token_at 0 rest).typ TokenType.left_curly_bracket ≡ false
      → Reads parse_int parse_float
          (suc f)
          m
          n
          p
          (enclosed word digits b (
            print word digits (level o - 1) l
            ++ mark word digits (type_of o) ∷ print word digits (level o) d))
          (Node.infix_expr (word (type_of o)) (node_of word digits l) (node_of word digits d))
          rest
  joined_at o l d left right k true high m n f p rest pl pd below enough rounds low brace =
      joined_open o l d left right m n f p rest pl pd (ground (arith, high, below)) enough rounds
        (ground (arith, high, low)) brace
  joined_at o l d left right k false high m n zero p rest pl pd below enough rounds low brace =
      absurd (omega (arith, enough))
  joined_at o l d left right k false high m n (suc f) p rest pl pd below enough rounds low brace =
      let all_read : n ≡ suc (suc f) = omega (arith, rounds) in
      let s = steps (level o - 1) l in
      let closes = closing_level p (word TokenType.right_paren) rest in
      rw (all_read) (
        parse_grouped_expr-Reads parse_int parse_float (suc f) m p (word TokenType.left_paren)
          (word TokenType.right_paren) _ _ rest
          (Reads-Ends parse_int parse_float (suc f) lowest (f - suc s) p _ _
            (mark word digits TokenType.right_paren ∷ rest)
            (joined_open o l d left right lowest (suc (f - suc s)) f p
              (mark word digits TokenType.right_paren ∷ rest) pl pd (omega (arith, level_low o))
              (omega (arith, enough)) (omega (arith, enough, steps-cost (level o - 1) l))
              (omega (arith, closes, level_low o)) refl)
            (omega (arith, closes))))

  prefixed_at :
      (o : Prefix) (e : Term)
      → Readable prefix_level e
      → (k : ℕ) (b : Bool) → ltb k prefix_level ≡ b
      → (m n f : ℕ) (p : Parser) (rest : List Token) → Plain word digits parse_int p.generic_names e
      → wrapped b (suc (cost prefix_level e)) ≤ f
      → n ≡ suc f
      → next_level p rest ≤ suc k
      → same_type (token_at 0 rest).typ TokenType.left_curly_bracket ≡ false
      → Reads parse_int parse_float
          (suc f)
          m
          n
          p
          (enclosed word digits b
            (mark word digits (prefix_type o) ∷ print word digits prefix_level e))
          (Node.prefix_expr (word (prefix_type o)) (node_of word digits e))
          rest
  prefixed_at o e reads k true high m n (suc f) p rest pe enough rounds low brace = rw (rounds) (
      parse_prefix_expr-Reads parse_int parse_float (suc f) m p o (word (prefix_type o))
        (print word digits prefix_level e) (node_of word digits e) rest
        (Readable-Ends prefix_level e reads f p rest pe (omega (arith, enough))
          (ground (arith, high, low)) brace))
  prefixed_at o e reads k false high m n (suc (suc f)) p rest pe enough rounds low brace =
      let inner : List Token =
        mark word digits (prefix_type o) ∷ print word digits prefix_level e in
      let made : Node = Node.prefix_expr (word (prefix_type o)) (node_of word digits e) in
      let closes = closing_level p (word TokenType.right_paren) rest in
      rw (rounds) (
        parse_grouped_expr-Reads parse_int parse_float (suc (suc f)) m p (word TokenType.left_paren)
          (word TokenType.right_paren) inner made rest
          (Reads-Ends parse_int parse_float (suc (suc f)) lowest (suc f) p inner made
            (mark word digits TokenType.right_paren ∷ rest)
            (parse_prefix_expr-Reads parse_int parse_float (suc f) lowest p o (word (prefix_type o))
              (print word digits prefix_level e) (node_of word digits e)
              (mark word digits TokenType.right_paren ∷ rest)
              (Readable-Ends prefix_level e reads f p
                (mark word digits TokenType.right_paren ∷ rest) pe (omega (arith, enough))
                (omega (arith, closes)) refl))
            (omega (arith, closes))))
  prefixed_at o e reads k true high m n zero p rest pe enough rounds low brace =
      absurd (omega (arith, enough))
  prefixed_at o e reads k false high m n zero p rest pe enough rounds low brace =
      absurd (omega (arith, enough))
  prefixed_at o e reads k false high m n (suc zero) p rest pe enough rounds low brace =
      absurd (omega (arith, enough))

  print-Readable : (e : Term) (k : ℕ) → Readable k e
  unfolding print node_of cost steps
  print-Readable (Term.joined o l d) k m n f p rest (pl, pd) below enough rounds low brace =
      joined_at o l d (print-Readable l (level o - 1)) (print-Readable d (level o)) k
        (ltb k (level o)) refl m n f p rest pl pd below enough rounds low brace
  print-Readable (Term.prefixed o e) k m n f p rest pe below enough rounds low brace =
      prefixed_at o e (print-Readable e prefix_level) k (ltb k prefix_level) refl m n f p rest pe
        enough (omega (arith, rounds)) low brace
  print-Readable (Term.name s) k m n f p rest plain below enough rounds low brace =
      rw (same_rounds n f rounds)
        (parse_identifier-Reads parse_int parse_float f m p s rest plain brace)
  print-Readable (Term.text_literal s) k m n f p rest plain below enough rounds low brace =
      rw (same_rounds n f rounds) (string_literal-Reads parse_int parse_float f m p s rest)
  print-Readable (Term.number s) k m n f p rest plain below enough rounds low brace =
      rw (same_rounds n f rounds)
        (parse_integer_literal-Reads parse_int parse_float f m p s (digits s) rest plain)
  print-Readable (Term.truth b) k m n f p rest plain below enough rounds low brace =
      rw (same_rounds n f rounds)
        (boolean_literal-Reads parse_int parse_float f m p (word (truth_type b)) b rest)
  print-Readable Term.nothing k m n f p rest plain below enough rounds low brace =
      rw (same_rounds n f rounds)
        (null_literal-Reads parse_int parse_float f m p (word TokenType.null) rest)

  -- An expression as it is printed, in the lowest place, is read back by `parseExpression`: the
  -- result is its tree and the parser stands at the last token of it, with no error added.
  pub parse_expression-print :
      (e : Term) (f : ℕ) (p : Parser) (rest : List Token)
      → Plain word digits parse_int p.generic_names e
      → cost lowest e ≤ f
      → next_level p rest ≤ lowest
      → same_type (token_at 0 rest).typ TokenType.left_curly_bracket ≡ false
      → (t : Token) × parse_expression parse_int parse_float
            (parsing parse_int parse_float (suc f))
            lowest
            (stand p (print word digits lowest e ++ rest))
          ≡ ok (node_of word digits e, stand p (t ∷ rest))
  parse_expression-print e f p rest = Readable-Ends lowest e (print-Readable e lowest) f p rest
