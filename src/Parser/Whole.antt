-- ===== src/Parser/Whole.antt =====
-- parser/parser.go: `ParseProgram` on a printed sequence of expressions, as a whole.
use sydney.Base.{
  ℕ, zero, suc, ◌+◌, ◌*◌, ◌≤◌, ◌<◌, ◌≡◌, refl, ap, ◌∙◌, List, [], ◌∷◌, ◌++◌, map, length,
  length-append, append_assoc, append-nil, true, Option, some, ok, arith, String,
}
use sydney.Token.{Token, TokenType}
use sydney.Parser.Tree.{Statement}
use sydney.Parser.State.{
  Parser, P, after, ◌>>◌, Rec, gather, next_token, curr_token_is, peek_token_is, skip, fresh_parser,
}
use sydney.Parser.Lists.{lowest, or_empty, without_nil}
use sydney.Parser.Levels.{precedence}
use sydney.Parser.Statements.{end_expression_stmt, parse_expression_or_assignment_stmt}
use sydney.Parser.Program.{
  parsing, parse_statement, check_imports, going_on, next_statement, parse_program, parse_tokens,
}
use sydney.Parser.Printer.{Term, print, Plain, cost, mark}
use sydney.Parser.Standing.{stand, next_token-stand, next_level, and_false}
use sydney.Parser.RoundTrip.{parse_expression-print}
use sydney.Parser.Sequence.{print_program, statement_of, without_nil-statements, begins, cost-print}

module _ (word : TokenType → List ℕ) (digits : ℕ → List ℕ)
    (parse_int parse_float : List ℕ → Option ℕ) where
  semicolon_level :
      (p : Parser) (rest : List Token)
      → next_level p (mark word digits TokenType.semicolon ∷ rest) ≤ lowest
  unfolding precedence
  semicolon_level p rest = rw (and_false p.suppress_colon) (omega arith)

  statement-print :
      (e : Term) (f : ℕ) (p : Parser) (rest : List Token)
      → Plain word digits parse_int p.generic_names e
      → cost lowest e ≤ f
      → let more : List Token = mark word digits TokenType.semicolon ∷ rest in
        parse_statement
          (parsing parse_int parse_float (suc (suc f)))
          (stand p (print word digits lowest e ++ more))
        ≡ ok (statement_of word digits e, stand p more)
  unfolding parse_statement parse_expression_or_assignment_stmt end_expression_stmt peek_token_is
      skip parsing
  statement-print e f p rest plain enough =
      let more : List Token = mark word digits TokenType.semicolon ∷ rest in
      let r : Rec = parsing parse_int parse_float (suc (suc f)) in
      let (t, read) =
        parse_expression-print word digits parse_int parse_float e f p more plain enough
          (semicolon_level p rest) refl in
      rw ((begins word digits r e lowest more).0, read, next_token-stand p t more) refl

  -- The parser after a statement that is no import.
  abbrev passed : Parser → Parser
  passed p = record p { errors = p.errors ++ []; done_imports = true }

  next_statement-print :
      (e : Term) (f : ℕ) (p : Parser) (rest : List Token)
      → Plain word digits parse_int p.generic_names e
      → cost lowest e ≤ f
      → next_statement
          (parsing parse_int parse_float (suc (suc (suc f))))
          (stand p (print word digits lowest e ++ mark word digits TokenType.semicolon ∷ rest))
        ≡ ok (some (statement_of word digits e), stand (passed p) rest)
  unfolding next_statement check_imports parsing
  next_statement-print e f p rest plain enough =
      rw
        (
          statement-print e f p rest plain enough,
          next_token-stand (passed p) (mark word digits TokenType.semicolon) rest,
        )
        refl

  -- Each of the expressions is plain for the names.
  abbrev pub EachPlain : List (String × Unit {0}) → List Term → Type 0
  EachPlain names [] = Unit
  EachPlain names (e ∷ es) = Plain word digits parse_int names e × EachPlain names es

  gather-print_program :
      (es : List Term) (n f : ℕ) (p : Parser) (found : List Statement)
      → EachPlain p.generic_names es
      → length (print_program word digits es) ≤ f
      → length es < n
      → let r : Rec = parsing parse_int parse_float (suc (suc (suc f))) in
        (q : Parser) × (gather n
            (going_on r)
            (next_statement r)
            found
            (stand p (print_program word digits es))
          ≡ ok (some (found ++ map (statement_of word digits) es), q))
        × (q.errors ≡ p.errors)
  unfolding gather going_on curr_token_is print_program
  gather-print_program [] (suc n) f p found plain enough rounds =
      (stand p [], rw (append-nil found) refl, refl)
  gather-print_program (e ∷ es) (suc n) f p found (one, others) enough rounds =
      let r : Rec = parsing parse_int parse_float (suc (suc (suc f))) in
      let rest : List Token = print_program word digits es in
      let more : List Token = mark word digits TokenType.semicolon ∷ rest in
      let split = length-append (print word digits lowest e) more in
      let (q, others_read, same) =
        gather-print_program es n f (passed p) (found ++ statement_of word digits e ∷ []) others
          (omega (arith, enough, split)) (omega (arith, rounds)) in
      (
        q,
        rw
            (
              (begins word digits r e lowest more).1,
              next_statement-print e f p rest one
                  (omega (arith, enough, split, cost-print word digits e lowest)),
              others_read,
              append_assoc found (statement_of word digits e ∷ [])
                  (map (statement_of word digits) es),
            )
            refl,
        same ∙ append-nil p.errors,
      )
  gather-print_program es zero f p found plain enough rounds = absurd (omega (arith, rounds))

  fresh-next :
      (ts : List Token) (k : P (List Statement))
      → (next_token >> (next_token >> (next_token >> k))) (fresh_parser ts)
        ≡ k (stand (fresh_parser ts) ts)
  unfolding next_token fresh_parser
  fresh-next [] k = refl
  fresh-next (a ∷ []) k = refl
  fresh-next (a ∷ b ∷ []) k = refl
  fresh-next (a ∷ b ∷ c ∷ ts) k = refl

  length-print_program : (es : List Term) → length es ≤ length (print_program word digits es)
  unfolding print_program
  length-print_program [] = omega arith
  length-print_program (e ∷ es) = omega (
    arith,
    length-append (print word digits lowest e)
        (mark word digits TokenType.semicolon ∷ print_program word digits es),
    length-print_program es,
  )

  parse_program-print_program :
      (es : List Term) (f : ℕ) (p : Parser)
      → EachPlain p.generic_names es
      → length (print_program word digits es) ≤ f
      → let r : Rec = parsing parse_int parse_float (suc (suc (suc f))) in
        (q : Parser) × (parse_program r (stand p (print_program word digits es))
          ≡ ok (map (statement_of word digits) es, q))
        × (q.errors ≡ p.errors)
  unfolding parse_program parsing
  parse_program-print_program es f p plain enough =
      let (q, read, same) =
        gather-print_program es (suc (suc (suc f))) f p [] plain enough
          (omega (arith, enough, length-print_program es)) in
      (
        q,
        ap (after (λ (found, q'). ok (without_nil (or_empty found), q'))) read
            ∙ ap (λ ss. ok (ss, q)) (without_nil-statements word digits es),
        same,
      )

  -- A file of expressions, printed with a semicolon behind each, parses to the statements of these
  -- expressions, in their order, and with no error, where the numbers in them are read as they are
  -- written.
  pub parse_tokens-print_program :
      (es : List Term)
      → EachPlain [] es
      → (q : Parser) × (parse_tokens parse_int parse_float (print_program word digits es)
          ≡ ok (map (statement_of word digits) es, q))
        × (q.errors ≡ [])
  unfolding parse_tokens fresh_parser
  parse_tokens-print_program es plain =
      let ts : List Token = print_program word digits es in
      let fuel : 4 + 2 * length ts ≡ suc (suc (suc (suc (2 * length ts)))) = omega arith in
      let (q, read, same) =
        parse_program-print_program es (suc (2 * length ts)) (fresh_parser ts) plain
          (omega arith) in
      (
        q,
        fresh-next ts (parse_program (parsing parse_int parse_float (4 + 2 * length ts)))
            ∙ ap (λ n. parse_program (parsing parse_int parse_float n) (stand (fresh_parser ts) ts))
                fuel
            ∙ read,
        same,
      )
