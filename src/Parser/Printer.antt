-- ===== src/Parser/Printer.antt =====
-- An independent printer of expressions, for parser/parser.go: names, literals, prefix and infix
-- operators, with parentheses where the place of an expression needs them.
use sydney.Base.{
  ℕ, suc, ◌+◌, ◌-◌, List, [], ◌∷◌, ◌++◌, Bool, true, false, Option, none, some, String, ltb, lookup,
  ◌≡◌,
}
use sydney.Token.{Token, TokenType}
use sydney.Parser.Tree.{Node}
use sydney.Parser.State.{text}

pub data Infix : Type 0 where
  plus minus slash star modulo equal_to not_equal_to : Infix
  at_least at_most greater less and or : Infix

pub data Prefix : Type 0 where
  bang negative : Prefix

pub data Term : Type 0 where
  name text_literal : List ℕ → Term
  number : ℕ → Term
  truth : Bool → Term
  nothing : Term
  prefixed : Prefix → Term → Term
  joined : Infix → Term → Term → Term

abbrev pub type_of : Infix → TokenType
type_of Infix.plus = TokenType.plus
type_of Infix.minus = TokenType.minus
type_of Infix.slash = TokenType.slash
type_of Infix.star = TokenType.star
type_of Infix.modulo = TokenType.modulo
type_of Infix.equal_to = TokenType.equal_to
type_of Infix.not_equal_to = TokenType.not_equal_to
type_of Infix.at_least = TokenType.greater_than_equal_to
type_of Infix.at_most = TokenType.less_than_equal_to
type_of Infix.greater = TokenType.greater_than
type_of Infix.less = TokenType.less_than
type_of Infix.and = TokenType.and
type_of Infix.or = TokenType.or

abbrev pub prefix_type : Prefix → TokenType
prefix_type Prefix.bang = TokenType.bang
prefix_type Prefix.negative = TokenType.minus

abbrev pub truth_type : Bool → TokenType
truth_type true = TokenType.true_kw
truth_type false = TokenType.false_kw

-- How tightly an infix operator binds, above the places where it stands without parentheses.
abbrev pub level : Infix → ℕ
level Infix.and = 2
level Infix.or = 2
level Infix.equal_to = 3
level Infix.not_equal_to = 3
level Infix.at_least = 4
level Infix.at_most = 4
level Infix.greater = 5
level Infix.less = 5
level Infix.plus = 6
level Infix.minus = 6
level Infix.slash = 7
level Infix.star = 7
level Infix.modulo = 7

-- How tightly a prefix operator binds.
abbrev pub prefix_level : ℕ
prefix_level = 9

module _ (word : TokenType → List ℕ) (digits : ℕ → List ℕ) where
  -- A token of a type, with its text.
  abbrev pub mark : TokenType → Token
  mark t = record { literal = word t; typ = t; line = 0; column = 0 }

  abbrev pub carrying : TokenType → List ℕ → Token
  carrying t s = record { literal = s; typ = t; line = 0; column = 0 }

  abbrev pub enclosed : Bool → List Token → List Token
  enclosed true ts = ts
  enclosed false ts = mark TokenType.left_paren ∷ (ts ++ mark TokenType.right_paren ∷ [])

  -- The tokens of a term at a place that takes operators of a higher precedence than a number.
  unfoldable pub print : ℕ → Term → List Token
  print k (Term.name n) = carrying TokenType.identifier n ∷ []
  print k (Term.text_literal s) = carrying TokenType.string s ∷ []
  print k (Term.number n) = carrying TokenType.integer (digits n) ∷ []
  print k (Term.truth b) = mark (truth_type b) ∷ []
  print k Term.nothing = mark TokenType.null ∷ []
  print k (Term.prefixed s e) =
      enclosed (ltb k prefix_level) (mark (prefix_type s) ∷ print prefix_level e)
  print k (Term.joined o l r) =
      enclosed (ltb k (level o)) (print (level o - 1) l ++ mark (type_of o) ∷ print (level o) r)

  -- The node of a term.
  unfoldable pub node_of : Term → Node
  node_of (Term.name n) = Node.identifier n
  node_of (Term.text_literal s) = Node.string_literal s
  node_of (Term.number n) = Node.integer_literal n
  node_of (Term.truth b) = Node.boolean_literal b
  node_of Term.nothing = Node.null_literal
  node_of (Term.prefixed s e) = Node.prefix_expr (word (prefix_type s)) (node_of e)
  node_of (Term.joined o l r) = Node.infix_expr (word (type_of o)) (node_of l) (node_of r)

  -- The parser takes the names for variables, and reads the numbers as they are written.
  abbrev pub Plain : (List ℕ → Option ℕ) → List (String × Unit {0}) → Term → Type 0
  Plain parse_int names (Term.name n) = lookup (text n) names ≡ none
  Plain parse_int names (Term.number n) = parse_int (digits n) ≡ some n
  Plain parse_int names (Term.prefixed s e) = Plain parse_int names e
  Plain parse_int names (Term.joined o l r) = Plain parse_int names l × Plain parse_int names r
  Plain parse_int names _ = Unit

-- The operators and the parentheses of a term in print, and those that the loop of its place meets.
abbrev pub wrapped : Bool → ℕ → ℕ
wrapped true n = n
wrapped false n = suc n

unfoldable pub cost : ℕ → Term → ℕ
cost k (Term.prefixed s e) = wrapped (ltb k prefix_level) (suc (cost prefix_level e))
cost k (Term.joined o l r) =
    wrapped (ltb k (level o)) (suc (cost (level o - 1) l + cost (level o) r))
cost k _ = 0

abbrev pub unless_wrapped : Bool → ℕ → ℕ
unless_wrapped true n = n
unless_wrapped false n = 0

unfoldable pub steps : ℕ → Term → ℕ
steps k (Term.joined o l r) = unless_wrapped (ltb k (level o)) (suc (steps (level o - 1) l))
steps k _ = 0
