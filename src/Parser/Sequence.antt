-- ===== src/Parser/Sequence.antt =====
-- parser/parser.go: `ParseProgram` on a sequence of printed expressions.
use sydney.Base.{
  ℕ, suc, ◌+◌, ◌-◌, ◌≤◌, ◌≡◌, refl, ap, List, [], ◌∷◌, ◌++◌, map, length, length-append,
  append_assoc, Bool, true, false, ltb, arith,
}
use sydney.Token.{Token, TokenType, same_type}
use sydney.Parser.Tree.{Statement}
use sydney.Parser.State.{Rec}
use sydney.Parser.Lists.{lowest, without_nil}
use sydney.Parser.Statements.{parse_expression_or_assignment_stmt}
use sydney.Parser.Program.{statement_at}
use sydney.Parser.Printer.{
  Prefix, Term, type_of, prefix_type, prefix_level, truth_type, level, enclosed, print, node_of,
  wrapped, cost, mark,
}
use sydney.Parser.Standing.{token_at}

module _ (word : TokenType → List ℕ) (digits : ℕ → List ℕ) where
  -- Expressions as statements: a semicolon behind each.
  unfoldable pub print_program : List Term → List Token
  print_program [] = []
  print_program (e ∷ es) =
      print word digits lowest e ++ mark word digits TokenType.semicolon ∷ print_program es

  abbrev pub statement_of : Term → Statement
  statement_of e = Statement.expression_stmt (node_of word digits e)

  pub without_nil-statements :
      (es : List Term) → without_nil (map statement_of es) ≡ map statement_of es
  unfolding without_nil
  without_nil-statements [] = refl
  without_nil-statements (e ∷ es) = ap (λ ss. statement_of e ∷ ss) (without_nil-statements es)

  -- An expression begins with a token at which a statement is an expression or an assignment.
  abbrev pub Begins : Rec → TokenType → Type 0
  Begins r t =
      (statement_at r t ≡ parse_expression_or_assignment_stmt r)
      × (same_type t TokenType.eof ≡ false)

  begins_prefix : (r : Rec) (o : Prefix) → Begins r (prefix_type o)
  unfolding statement_at
  begins_prefix r Prefix.bang = (refl, refl)
  begins_prefix r Prefix.negative = (refl, refl)

  begins_truth : (r : Rec) (b : Bool) → Begins r (truth_type b)
  unfolding statement_at
  begins_truth r true = (refl, refl)
  begins_truth r false = (refl, refl)

  begins_enclosed :
      (r : Rec) (b : Bool) (ts rest : List Token)
      → Begins r (token_at 0 (ts ++ rest)).typ
      → Begins r (token_at 0 (enclosed word digits b ts ++ rest)).typ
  unfolding statement_at
  begins_enclosed r true ts rest h = h
  begins_enclosed r false ts rest h = (refl, refl)

  pub begins :
      (r : Rec) (e : Term) (k : ℕ) (rest : List Token)
      → Begins r (token_at 0 (print word digits k e ++ rest)).typ
  unfolding statement_at print
  begins r (Term.name n) k rest = (refl, refl)
  begins r (Term.text_literal n) k rest = (refl, refl)
  begins r (Term.number n) k rest = (refl, refl)
  begins r (Term.truth b) k rest = begins_truth r b
  begins r Term.nothing k rest = (refl, refl)
  begins r (Term.prefixed o e) k rest =
      begins_enclosed r (ltb k prefix_level)
        (mark word digits (prefix_type o) ∷ print word digits prefix_level e) rest
        (begins_prefix r o)
  begins r (Term.joined o l d) k rest =
      let tail : List Token = mark word digits (type_of o) ∷ print word digits (level o) d in
      begins_enclosed r (ltb k (level o)) (print word digits (level o - 1) l ++ tail) rest (
        rw (append_assoc (print word digits (level o - 1) l) tail rest)
          (begins r l (level o - 1) (tail ++ rest)))

  -- The operators and parentheses are not more than the tokens.
  cost_enclosed :
      (b : Bool) (ts : List Token) (n : ℕ)
      → n ≤ length ts
      → wrapped b n ≤ length (enclosed word digits b ts)
  cost_enclosed true ts n h = h
  cost_enclosed false ts n h =
      omega (arith, h, length-append ts (mark word digits TokenType.right_paren ∷ []))

  pub cost-print : (e : Term) (k : ℕ) → cost k e ≤ length (print word digits k e)
  unfolding cost print
  cost-print (Term.joined o l d) k =
      cost_enclosed (ltb k (level o))
        (print word digits (level o - 1) l
          ++ mark word digits (type_of o) ∷ print word digits (level o) d)
        (suc (cost (level o - 1) l + cost (level o) d))
        (omega (
          arith,
          cost-print l (level o - 1),
          cost-print d (level o),
          length-append (print word digits (level o - 1) l)
              (mark word digits (type_of o) ∷ print word digits (level o) d),
        ))
  cost-print (Term.prefixed o e) k =
      cost_enclosed (ltb k prefix_level)
        (mark word digits (prefix_type o) ∷ print word digits prefix_level e)
        (suc (cost prefix_level e)) (omega (arith, cost-print e prefix_level))
  cost-print (Term.name n) k = omega arith
  cost-print (Term.text_literal n) k = omega arith
  cost-print (Term.number n) k = omega arith
  cost-print (Term.truth n) k = omega arith
  cost-print Term.nothing k = omega arith
