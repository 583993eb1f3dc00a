-- ===== src/TypeChecker/Paths.antt =====
-- typechecker/typechecker.go: `allPathsReturn`, and the ways through a block.
use sydney.Base.{
  ℕ, List, ◌≡◌, refl, sym, ◌∙◌, Option, none, some, Bool, true, false, Result, ok, err, panic,
}
use sydney.Parser.Tree.{Node, Block, Statement, Statements}

-- `a && b`, where each may panic.
abbrev pub both : Result Bool → Result Bool → Result Bool
both (ok true) r = r
both (ok false) r = ok false
both (err e) r = err e
both panic r = panic

-- `allPathsReturn`. A nil block is a nil pointer, and so is the ok arm of a match on an option.
unfoldable mutual
  pub all_paths_return : Block → Result Bool
  all_paths_return Block.no_block = panic
  all_paths_return (Block.block ss) = last_returns ss

  pub last_returns : Statements → Result Bool
  last_returns Statements.done = ok false
  last_returns (Statements.then_stmt s Statements.done) = statement_returns s
  last_returns (Statements.then_stmt s (Statements.then_stmt t ss)) =
      last_returns (Statements.then_stmt t ss)

  pub statement_returns : Statement → Result Bool
  statement_returns (Statement.return_stmt e) = ok true
  statement_returns (Statement.expression_stmt e) = value_returns e
  statement_returns _ = ok false

  pub value_returns : Node → Result Bool
  value_returns (Node.if_expr c t Block.no_block) = ok false
  value_returns (Node.if_expr c t (Block.block ss)) = both (all_paths_return t) (last_returns ss)
  value_returns (Node.match_result e a t b u) = both (all_paths_return t) (all_paths_return u)
  value_returns (Node.match_option e a t u) = panic
  value_returns _ = ok true

-- The last statement.
abbrev pub last_of : Statements → Option Statement
last_of Statements.done = none
last_of (Statements.then_stmt s Statements.done) = some s
last_of (Statements.then_stmt s (Statements.then_stmt t ss)) = last_of (Statements.then_stmt t ss)

-- An if or a match on a result or an option.
abbrev pub branches : Statement → Bool
branches (Statement.expression_stmt (Node.if_expr c t a)) = true
branches (Statement.expression_stmt (Node.match_result n x t y u)) = true
branches (Statement.expression_stmt (Node.match_option n x t u)) = true
branches _ = false

-- The ends of the ways through a block: its last statement, or, where that is an if or a match on a
-- result, the ends of the ways through its blocks. An empty block and an if without an else have a
-- way with no statement at its end.
pub data WayOut : Block → Option Statement → Type 0 where
  at_nothing : (ss : Statements) → last_of ss ≡ none → WayOut (Block.block ss) none
  at_last :
      (ss : Statements) (s : Statement)
      → last_of ss ≡ some s
      → branches s ≡ false
      → WayOut (Block.block ss) (some s)
  around :
      (ss : Statements) (c : Node) (t : Block)
      → last_of ss ≡ some (Statement.expression_stmt (Node.if_expr c t Block.no_block))
      → WayOut (Block.block ss) none
  through_consequence :
      (ss : Statements) (c : Node) (t a : Block) (e : Option Statement)
      → last_of ss ≡ some (Statement.expression_stmt (Node.if_expr c t a))
      → WayOut t e
      → WayOut (Block.block ss) e
  through_alternative :
      (ss : Statements) (c : Node) (t a : Block) (e : Option Statement)
      → last_of ss ≡ some (Statement.expression_stmt (Node.if_expr c t a))
      → WayOut a e
      → WayOut (Block.block ss) e
  through_ok :
      (ss : Statements) (n : Node) (x y : List ℕ) (t u : Block) (e : Option Statement)
      → last_of ss ≡ some (Statement.expression_stmt (Node.match_result n x t y u))
      → WayOut t e
      → WayOut (Block.block ss) e
  through_err :
      (ss : Statements) (n : Node) (x y : List ℕ) (t u : Block) (e : Option Statement)
      → last_of ss ≡ some (Statement.expression_stmt (Node.match_result n x t y u))
      → WayOut u e
      → WayOut (Block.block ss) e

-- A return or an expression, whose value is returned.
abbrev pub GivesValue : Option Statement → Type 0
GivesValue (some (Statement.return_stmt e)) = Unit
GivesValue (some (Statement.expression_stmt e)) = Unit
GivesValue _ = ⊥

last_returns-last_of :
    (ss : Statements) (s : Statement) → last_of ss ≡ some s → last_returns ss ≡ statement_returns s
unfolding all_paths_return
last_returns-last_of Statements.done s h = absurd (cc)
last_returns-last_of (Statements.then_stmt t Statements.done) s h = cc
last_returns-last_of (Statements.then_stmt t (Statements.then_stmt u ss)) s h =
    last_returns-last_of (Statements.then_stmt u ss) s h

both-first : (a b : Result Bool) → both a b ≡ ok true → a ≡ ok true
both-first (ok true) b h = refl
both-first (ok false) b h = absurd (cc)
both-first (err e) b h = absurd (cc)
both-first panic b h = absurd (cc)

both-second : (a b : Result Bool) → both a b ≡ ok true → b ≡ ok true
both-second (ok true) b h = h
both-second (ok false) b h = absurd (cc)
both-second (err e) b h = absurd (cc)
both-second panic b h = absurd (cc)

statement_gives : (s : Statement) → statement_returns s ≡ ok true → GivesValue (some s)
unfolding all_paths_return
statement_gives (Statement.return_stmt e) h = tt
statement_gives (Statement.expression_stmt e) h = tt
statement_gives _ h = absurd (cc)

of_last :
    (ss : Statements) (s : Statement)
    → all_paths_return (Block.block ss) ≡ ok true
    → last_of ss ≡ some s
    → statement_returns s ≡ ok true
unfolding all_paths_return
of_last ss s returns is_last = sym (last_returns-last_of ss s is_last) ∙ returns

if_returns :
    (c : Node) (t a : Block)
    → value_returns (Node.if_expr c t a) ≡ ok true
    → (all_paths_return t ≡ ok true) × (all_paths_return a ≡ ok true)
unfolding all_paths_return
if_returns c t Block.no_block h = absurd (cc)
if_returns c t (Block.block ss) h = (
  both-first (all_paths_return t) (last_returns ss) h,
  both-second (all_paths_return t) (last_returns ss) h,
)

empty_returns : (ss : Statements) → last_of ss ≡ none → last_returns ss ≡ ok false
unfolding all_paths_return
empty_returns Statements.done h = refl
empty_returns (Statements.then_stmt t Statements.done) h = absurd (cc)
empty_returns (Statements.then_stmt t (Statements.then_stmt u ss)) h =
    empty_returns (Statements.then_stmt u ss) h

-- Where `allPathsReturn` says so of a block, every way through it ends at a return or at an
-- expression.
pub all_paths_return-GivesValue :
    (b : Block) (e : Option Statement) → all_paths_return b ≡ ok true → WayOut b e → GivesValue e
unfolding all_paths_return
all_paths_return-GivesValue b e returns (at_nothing ss empty) =
    absurd (let stops = empty_returns ss empty in cc)
all_paths_return-GivesValue b e returns (at_last ss s is_last simple) =
    statement_gives s (of_last ss s returns is_last)
all_paths_return-GivesValue b e returns (around ss c t is_last) = absurd (
    let stops =
      of_last ss (Statement.expression_stmt (Node.if_expr c t Block.no_block)) returns is_last in
    cc)
all_paths_return-GivesValue b e returns (through_consequence ss c t a e' is_last way) =
    all_paths_return-GivesValue t e'
      ((if_returns c t a
        (of_last ss (Statement.expression_stmt (Node.if_expr c t a)) returns is_last)).0)
      way
all_paths_return-GivesValue b e returns (through_alternative ss c t a e' is_last way) =
    all_paths_return-GivesValue a e'
      ((if_returns c t a
        (of_last ss (Statement.expression_stmt (Node.if_expr c t a)) returns is_last)).1)
      way
all_paths_return-GivesValue b e returns (through_ok ss n x y t u e' is_last way) =
    all_paths_return-GivesValue t e'
      (both-first (all_paths_return t) (all_paths_return u)
        (of_last ss (Statement.expression_stmt (Node.match_result n x t y u)) returns is_last))
      way
all_paths_return-GivesValue b e returns (through_err ss n x y t u e' is_last way) =
    all_paths_return-GivesValue u e'
      (both-second (all_paths_return t) (all_paths_return u)
        (of_last ss (Statement.expression_stmt (Node.match_result n x t y u)) returns is_last))
      way
