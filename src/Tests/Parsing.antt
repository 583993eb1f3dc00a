-- ===== src/Tests/Parsing.antt =====
-- Tests of the modules on parser/parser.go.
use sydney.Base.{
  lookup, ℕ, zero, suc, List, [], ◌∷◌, ◌++◌, ◌≡◌, refl, arith, Bool, true, Option, some, none,
  Result, ok, map, String,
}
use sydney.Token.{Token, TokenType}
use sydney.Parser.Tree.{Node, Statement}
use sydney.Parser.State.{Parser}
use sydney.Parser.Program.{parse_tokens, parsing}
use sydney.Parser.Lists.{parse_identifier_or_struct_literal}
use sydney.Parser.Expressions.{parse_prefix_expr}
use sydney.Parser.Pratt.{parse_integer_literal, parse_expression}
use sydney.Parser.State.{fresh_parser}
use sydney.Parser.Printer.{Infix, Prefix, Term, print, node_of}
use sydney.Parser.Standing.{stand}
use sydney.Parser.RoundTrip.{parse_expression-print}
use sydney.Parser.Sequence.{print_program, statement_of}
use sydney.Parser.Whole.{parse_tokens-print_program}

abbrev tok : TokenType → List ℕ → Token
tok t s = record { literal = s; typ = t; line = 1; column = 1 }

-- A number is the length of its text.
abbrev measure : List ℕ → Option ℕ
measure ds = some (sydney.Base.length ds)

abbrev outcome : Result (List Statement × Parser) → Result (List Statement × List String)
outcome (ok (ss, p)) = ok (ss, p.errors)
outcome (sydney.Base.err e) = sydney.Base.err e
outcome sydney.Base.panic = sydney.Base.panic

-- a - b * - 1 < c ;
abbrev source : List Token
source =
    tok TokenType.identifier (97 ∷ [])
    ∷ tok TokenType.minus (45 ∷ [])
    ∷ tok TokenType.identifier (98 ∷ [])
    ∷ tok TokenType.star (42 ∷ [])
    ∷ tok TokenType.minus (45 ∷ [])
    ∷ tok TokenType.integer (49 ∷ [])
    ∷ tok TokenType.less_than (60 ∷ [])
    ∷ tok TokenType.identifier (99 ∷ [])
    ∷ tok TokenType.semicolon []
    ∷ []

parse-source :
    outcome (parse_tokens measure measure source)
    ≡ ok (
      Statement.expression_stmt (
            Node.infix_expr
              (60 ∷ [])
              (Node.infix_expr (45 ∷ []) (Node.identifier (97 ∷ [])) (
                Node.infix_expr
                  (42 ∷ [])
                  (Node.identifier (98 ∷ []))
                  (Node.prefix_expr (45 ∷ []) (Node.integer_literal 1))))
              (Node.identifier (99 ∷ [])))
          ∷ [],
      [],
    )
unfolding parse_tokens parsing parse_identifier_or_struct_literal lookup parse_prefix_expr
    parse_integer_literal
parse-source = refl

-- A number in print is as many ones.
abbrev ones : ℕ → List ℕ
ones zero = []
ones (suc n) = 49 ∷ ones n

abbrev symbol : TokenType → List ℕ
symbol TokenType.minus = 45 ∷ []
symbol TokenType.bang = 33 ∷ []
symbol _ = []

-- a - (b - 2) ; !true ;
abbrev difference : Term
difference =
    Term.joined Infix.minus (Term.name (97 ∷ []))
      (Term.joined Infix.minus (Term.name (98 ∷ [])) (Term.number 2))

abbrev terms : List Term
terms = difference ∷ Term.prefixed Prefix.bang (Term.truth true) ∷ []

parse_tokens-print_program_example :
    (q : Parser) × (parse_tokens measure measure (print_program symbol ones terms)
      ≡ ok (map (statement_of symbol ones) terms, q))
    × (q.errors ≡ [])
unfolding lookup
parse_tokens-print_program_example =
    parse_tokens-print_program symbol ones measure measure terms ((refl, (refl, refl)), (tt, tt))

parse_expression-print_example :
    (t : Token) × parse_expression measure measure (parsing measure measure 5) 1 (
        stand (fresh_parser []) (print symbol ones 1 difference ++ tok TokenType.semicolon [] ∷ []))
      ≡ ok (
        node_of symbol ones difference,
        stand (fresh_parser []) (t ∷ tok TokenType.semicolon [] ∷ []),
      )
unfolding lookup print sydney.Parser.Printer.cost sydney.Parser.Levels.precedence fresh_parser
parse_expression-print_example =
    parse_expression-print symbol ones measure measure difference 4 (fresh_parser [])
      (tok TokenType.semicolon [] ∷ []) (refl, (refl, refl)) (omega arith) (omega arith) refl
