-- ===== src/Parser/Reading.antt =====
-- parser/parser.go: what `parseExpression` makes of the tokens of an expression, by its form.
use sydney.Base.{
  ℕ, suc, ◌≤◌, ◌<◌, ◌≡◌, refl, ap, ◌∙◌, List, [], ◌∷◌, ◌++◌, append_assoc, Bool, true, false,
  Option, none, some, ok, lookup,
}
use sydney.Token.{Token, TokenType, same_type}
use sydney.Parser.Tree.{Node}
use sydney.Parser.State.{Parser, after, Rec, text, peek_token_is, expecting, expect_peek}
use sydney.Parser.Lists.{lowest, parse_identifier, parse_identifier_or_struct_literal}
use sydney.Parser.Levels.{prefix_precedence}
use sydney.Parser.Expressions.{parse_prefix_expr, parse_grouped_expr}
use sydney.Parser.Pratt.{infix_loop, prefix_parse_fn, parse_integer_literal, parse_expression}
use sydney.Parser.Program.{parsing}
use sydney.Parser.Printer.{Infix, Prefix, type_of, truth_type, prefix_type, level}
use sydney.Parser.Standing.{
  stand, token_at, next_token-stand, next_level, infix_loop_ends, infix_loop-operator,
  parse_infix_expr-operator,
}

module _ (parse_int parse_float : List ℕ → Option ℕ) where
  abbrev pub rec_at : ℕ → Rec
  rec_at f = parsing parse_int parse_float f

  -- At these tokens and a rest, `parseExpression` has read the tokens when its loop has `n` rounds.
  abbrev pub Reads : ℕ → ℕ → ℕ → Parser → List Token → Node → List Token → Type 0
  Reads f m n p ts e rest =
      (t : Token) × parse_expression parse_int parse_float (rec_at f) m (stand p (ts ++ rest))
        ≡ infix_loop (rec_at f) n m e (stand p (t ∷ rest))

  -- The same for a call of it that has come to its end.
  abbrev pub Ends : ℕ → ℕ → Parser → List Token → Node → List Token → Type 0
  Ends f m p ts e rest =
      (t : Token) × parse_expression parse_int parse_float (rec_at f) m (stand p (ts ++ rest))
        ≡ ok (e, stand p (t ∷ rest))

  pub Reads-Ends :
      (f m n : ℕ) (p : Parser) (ts : List Token) (e : Node) (rest : List Token)
      → Reads f m (suc n) p ts e rest
      → next_level p rest ≤ m
      → Ends f m p ts e rest
  Reads-Ends f m n p ts e rest (t, eq) low = (t, eq ∙ infix_loop_ends (rec_at f) n m e p t rest low)

  -- A name that is not generic, before anything but a brace.
  pub parse_identifier-Reads :
      (f m : ℕ) (p : Parser) (n : List ℕ) (rest : List Token)
      → lookup (text n) p.generic_names ≡ none
      → same_type (token_at 0 rest).typ TokenType.left_curly_bracket ≡ false
      → Reads
          (suc f)
          m
          (suc f)
          p
          (record { literal = n; typ = TokenType.identifier; line = 0; column = 0 } ∷ [])
          (Node.identifier n)
          rest
  unfolding parse_expression prefix_parse_fn parse_identifier_or_struct_literal parse_identifier
      peek_token_is parsing
  parse_identifier-Reads f m p n rest plain no_brace = (
    record { literal = n; typ = TokenType.identifier; line = 0; column = 0 },
    rw (no_brace, plain) refl,
  )

  -- A text, a number, a truth value and nothing.
  pub string_literal-Reads :
      (f m : ℕ) (p : Parser) (n : List ℕ) (rest : List Token)
      → Reads
          (suc f)
          m
          (suc f)
          p
          (record { literal = n; typ = TokenType.string; line = 0; column = 0 } ∷ [])
          (Node.string_literal n)
          rest
  unfolding parse_expression prefix_parse_fn parsing
  string_literal-Reads f m p n rest =
      (record { literal = n; typ = TokenType.string; line = 0; column = 0 }, refl)

  pub parse_integer_literal-Reads :
      (f m : ℕ) (p : Parser) (n : ℕ) (ds : List ℕ) (rest : List Token)
      → parse_int ds ≡ some n
      → Reads
          (suc f)
          m
          (suc f)
          p
          (record { literal = ds; typ = TokenType.integer; line = 0; column = 0 } ∷ [])
          (Node.integer_literal n)
          rest
  unfolding parse_expression prefix_parse_fn parse_integer_literal parsing
  parse_integer_literal-Reads f m p n ds rest parsed =
      (record { literal = ds; typ = TokenType.integer; line = 0; column = 0 }, rw (parsed) refl)

  pub boolean_literal-Reads :
      (f m : ℕ) (p : Parser) (s : List ℕ) (b : Bool) (rest : List Token)
      → Reads
          (suc f)
          m
          (suc f)
          p
          (record { literal = s; typ = truth_type b; line = 0; column = 0 } ∷ [])
          (Node.boolean_literal b)
          rest
  unfolding parse_expression prefix_parse_fn parsing
  boolean_literal-Reads f m p s true rest =
      (record { literal = s; typ = TokenType.true_kw; line = 0; column = 0 }, refl)
  boolean_literal-Reads f m p s false rest =
      (record { literal = s; typ = TokenType.false_kw; line = 0; column = 0 }, refl)

  pub null_literal-Reads :
      (f m : ℕ) (p : Parser) (s : List ℕ) (rest : List Token)
      → Reads
          (suc f)
          m
          (suc f)
          p
          (record { literal = s; typ = TokenType.null; line = 0; column = 0 } ∷ [])
          Node.null_literal
          rest
  unfolding parse_expression prefix_parse_fn parsing
  null_literal-Reads f m p s rest =
      (record { literal = s; typ = TokenType.null; line = 0; column = 0 }, refl)

  -- A prefix operator and its operand.
  pub parse_prefix_expr-Reads :
      (f m : ℕ) (p : Parser) (o : Prefix) (s : List ℕ) (ts : List Token) (e : Node)
      (rest : List Token)
      → Ends f prefix_precedence p ts e rest
      → Reads
          (suc f)
          m
          (suc f)
          p
          (record { literal = s; typ = prefix_type o; line = 0; column = 0 } ∷ ts)
          (Node.prefix_expr s e)
          rest
  unfolding parse_expression prefix_parse_fn parse_prefix_expr parsing
  parse_prefix_expr-Reads f m p Prefix.bang s ts e rest (t, eq) = (
    t,
    rw
        (
          next_token-stand p (record { literal = s; typ = TokenType.bang; line = 0; column = 0 })
              (ts ++ rest),
          eq,
        )
        refl,
  )
  parse_prefix_expr-Reads f m p Prefix.negative s ts e rest (t, eq) = (
    t,
    rw
        (
          next_token-stand p (record { literal = s; typ = TokenType.minus; line = 0; column = 0 })
              (ts ++ rest),
          eq,
        )
        refl,
  )

  -- Parentheses.
  pub parse_grouped_expr-Reads :
      (f m : ℕ) (p : Parser) (a b : List ℕ) (ts : List Token) (e : Node) (rest : List Token)
      → let closing : Token = record {
        literal = b;
        typ = TokenType.right_paren;
        line = 0;
        column = 0;
      } in
        Ends f lowest p ts e (closing ∷ rest)
        → Reads
            (suc f)
            m
            (suc f)
            p
            (record { literal = a; typ = TokenType.left_paren; line = 0; column = 0 }
              ∷ (ts ++ closing ∷ []))
            e
            rest
  unfolding parse_expression prefix_parse_fn parse_grouped_expr parsing expecting expect_peek
  parse_grouped_expr-Reads f m p a b ts e rest (t, eq) =
      let closing : Token = record {
        literal = b;
        typ = TokenType.right_paren;
        line = 0;
        column = 0;
      } in
      let opening : Token = record {
        literal = a;
        typ = TokenType.left_paren;
        line = 0;
        column = 0;
      } in
      (
        closing,
        rw
            (
              append_assoc ts (closing ∷ []) rest,
              next_token-stand p opening (ts ++ closing ∷ rest),
              eq,
              next_token-stand p t (closing ∷ rest),
            )
            refl,
      )

  -- An infix operator between two operands that have been read.
  pub parse_infix_expr-Reads :
      (f m n : ℕ) (p : Parser) (o : Infix) (s : List ℕ) (ts us : List Token) (e d : Node)
      (rest : List Token)
      → let op : Token = record { literal = s; typ = type_of o; line = 0; column = 0 } in
        m < level o
        → Reads (suc f) m (suc n) p ts e (op ∷ us ++ rest)
        → Ends f (level o) p us d rest
        → Reads (suc f) m n p (ts ++ op ∷ us) (Node.infix_expr s e d) rest
  unfolding parsing
  parse_infix_expr-Reads f m n p o s ts us e d rest high (t, left) (u, right) =
      let op : Token = record { literal = s; typ = type_of o; line = 0; column = 0 } in
      let r : Rec = rec_at (suc f) in
      (
        u,
        rw (append_assoc ts (op ∷ us) rest) (
            left
            ∙ infix_loop-operator r n m e p t o s (us ++ rest) high
            ∙ ap (after (λ (e', q). infix_loop r n m e' q))
                (parse_infix_expr-operator r e d p u o s (us ++ rest) rest right)),
      )
