-- ===== src/Correct/Emitted.antt =====
-- What the compiler adds for a formula (compiler/compiler.go, the cases of `Compile`).
use mathlib.Core.Path.{subst}
use sydney.Base.{
  ℕ, suc, ◌+◌, ◌<◌, ◌≤◌, ◌≡◌, refl, sym, ap, ◌∙◌, List, [], ◌∷◌, ◌++◌, true, false, length,
  length-append, append_assoc, append-nil, map, pos, ok, ◌>>=◌, arith,
}
use sydney.Code.{Opcode, byte, definition}
use sydney.Code.RoundTrip.{encode, Fits, make-encode}
use sydney.Compiler.State.{
  Compiler, Action, Const, emit_all, emit, emit_one, emit_pos, emit_constant, add_constant,
  add_instruction, set_last_instruction,
}
use sydney.Compiler.Names.{compile_infix}
use sydney.Compiler.Compile.{compile}
use sydney.Correct.Formula.{
  Operator, Turned, Atom, Formula, symbol, turned_symbol, expr_of, instruction, plain, opcode_of,
  converse, const_of, atoms, code_of,
}

-- The compiler wrote the code and added the constants, and changed no table, scope or loop.
pub record Emits (c : Compiler) (code : List ℕ) (ks : List Const) (c' : Compiler) : Type 0 where
  pub written : c'.scope.instructions ≡ c.scope.instructions ++ code
  pub added : c'.constants ≡ c.constants ++ ks
  pub tables : c'.symbol_table ≡ c.symbol_table

-- An action does this.
abbrev pub Does : Action → Compiler → List ℕ → List Const → Type 0
Does act c code ks = (c' : Compiler) × (act c ≡ ok c') × Emits c code ks c'

pub Does-Emits :
    (act : Action) (c c' : Compiler) (code : List ℕ) (ks : List Const)
    → act c ≡ ok c'
    → Does act c code ks
    → Emits c code ks c'
Does-Emits act c c' code ks e (c1, e1, m) =
    let same : c1 ≡ c' = cc in subst (Emits c code ks) same m

Emits-trans :
    (c c1 c2 : Compiler) (xs ys : List ℕ) (ks ls : List Const)
    → Emits c xs ks c1
    → Emits c1 ys ls c2
    → Emits c (xs ++ ys) (ks ++ ls) c2
Emits-trans c c1 c2 xs ys ks ls m n = record {
  written = n.written ∙ ap (λ is. is ++ ys) m.written ∙ append_assoc c.scope.instructions xs ys;
  added = n.added ∙ ap (λ ds. ds ++ ls) m.added ∙ append_assoc c.constants ks ls;
  tables = n.tables ∙ m.tables;
}

Does-then :
    (first second : Action) (c : Compiler) (xs ys : List ℕ) (ks ls : List Const)
    → Does first c xs ks
    → ((c' : Compiler) → c'.constants ≡ c.constants ++ ks → Does second c' ys ls)
    → Does (λ d. first d >>= second) c (xs ++ ys) (ks ++ ls)
Does-then first second c xs ys ks ls (c1, e1, m1) next =
    let (c2, e2, m2) = next c1 m1.added in
    (c2, ap (λ r. r >>= second) e1 ∙ e2, Emits-trans c c1 c2 xs ys ks ls m1 m2)

emit_all-Does :
    (op : Opcode) (os : List ℕ) (c : Compiler)
    → Fits (definition op).operand_widths os
    → Does (emit_all op (map pos os)) c (instruction op os) []
unfolding emit_all emit_pos add_instruction set_last_instruction
emit_all-Does op os c f =
    let (at, c') = add_instruction (instruction op os) c in
    (
      set_last_instruction op at c',
      rw (make-encode op os f) refl,
      record { written = refl; added = sym (append-nil c.constants); tables = refl },
    )

-- An instruction without operands.
Plain : Opcode → Type 0
Plain op = (definition op).operand_widths ≡ []

emit-Does : (op : Opcode) (c : Compiler) → Plain op → Does (emit op) c (plain op) []
unfolding emit Plain
emit-Does op c is_plain =
    let bytes : instruction op [] ≡ plain op = ap (λ ws. byte op ∷ encode ws []) is_plain in
    subst (λ code. Does (emit op) c code []) bytes (emit_all-Does op [] c (rw is_plain tt))

-- An operand and an operator behind it, and two operands and an operator.
Does-operator :
    (operand : Action) (op : Opcode) (c : Compiler) (xs : List ℕ) (ks : List Const)
    → Plain op
    → Does operand c xs ks
    → Does (λ d. operand d >>= emit op) c (xs ++ plain op) ks
Does-operator operand op c xs ks is_plain d =
    rw append-nil at
      (Does-then operand (emit op) c xs (plain op) ks [] d (λ c' e. emit-Does op c' is_plain))

Does-operands :
    (first second : Action) (op : Opcode) (c : Compiler) (xs ys : List ℕ) (ks ls : List Const)
    → Plain op
    → Does first c xs ks
    → ((c' : Compiler) → c'.constants ≡ c.constants ++ ks → Does second c' ys ls)
    → Does (λ d. first d >>= second >>= emit op) c (xs ++ ys ++ plain op) (ks ++ ls)
Does-operands first second op c xs ys ks ls is_plain d next =
    Does-operator (λ d. first d >>= second) op c (xs ++ ys) (ks ++ ls) is_plain
      (Does-then first second c xs ys ks ls d next)

opcode_of-Plain : (o : Operator) → Plain (opcode_of o)
unfolding Plain definition
opcode_of-Plain Operator.plus = refl
opcode_of-Plain _ = refl

emit_constant-Does :
    (k : Const) (c : Compiler)
    → length c.constants < 65536
    → Does (emit_constant k) c (instruction Opcode.op_constant (length c.constants ∷ [])) (k ∷ [])
unfolding emit_constant add_constant emit_one definition
emit_constant-Does k c room =
    let (at, c1) = add_constant k c in
    let (c2, e, m) = emit_all-Does Opcode.op_constant (length c.constants ∷ []) c1 (room, tt) in
    (
      c2,
      e,
      record {
        written = m.written;
        added = m.added ∙ append-nil (c.constants ++ k ∷ []);
        tables = m.tables;
      },
    )

pub map_append {ℓ} :
    {A B : Type ℓ} (f : A → B) (xs ys : List A) → map f (xs ++ ys) ≡ map f xs ++ map f ys
map_append f [] ys = refl
map_append f (x ∷ xs) ys = ap (◌∷◌ (f x)) (map_append f xs ys)

pub length-map {ℓ} : {A B : Type ℓ} (f : A → B) (xs : List A) → length (map f xs) ≡ length xs
length-map f [] = refl
length-map f (x ∷ xs) = ap suc (length-map f xs)

compile_infix-symbol :
    (o : Operator) (left right : Action)
    → compile_infix (symbol o) left right ≡ (λ c. left c >>= right >>= emit (opcode_of o))
unfolding compile_infix
compile_infix-symbol Operator.plus left right = refl
compile_infix-symbol _ left right = refl

compile_infix-turned :
    (t : Turned) (left right : Action)
    → compile_infix (turned_symbol t) left right
      ≡ (λ c. right c >>= left >>= emit (opcode_of (converse t)))
unfolding compile_infix
compile_infix-turned Turned.below left right = refl
compile_infix-turned Turned.at_most left right = refl

-- What two formulas do, one after the other, with an operator behind them.
abbrev Done : Formula → Type 0
Done e =
    (c : Compiler)
    → length c.constants + length (atoms e) ≤ 65536
    → Does (compile (expr_of e)) c (code_of (length c.constants) e) (map const_of (atoms e))

Does-formulas :
    (e e' : Formula) (op : Opcode) (c : Compiler)
    → Plain op
    → Done e
    → Done e'
    → length c.constants + length (atoms e ++ atoms e') ≤ 65536
    → Does
        (λ d. compile (expr_of e) d >>= compile (expr_of e') >>= emit op)
        c
        (code_of (length c.constants) e
          ++ code_of (length c.constants + length (atoms e)) e'
          ++ plain op)
        (map const_of (atoms e ++ atoms e'))
Does-formulas e e' op c is_plain d d' room = rw (map_append const_of (atoms e) (atoms e')) (
    Does-operands (compile (expr_of e)) (compile (expr_of e')) op c (code_of (length c.constants) e)
      (code_of (length c.constants + length (atoms e)) e') (map const_of (atoms e))
      (map const_of (atoms e')) is_plain
      (d c (omega (arith, room, length-append (atoms e) (atoms e'))))
      (λ c' added.
        let grown : length c'.constants ≡ length c.constants + length (atoms e) =
          ap length added
          ∙ length-append c.constants (map const_of (atoms e))
          ∙ ap (λ n. length c.constants + n) (length-map const_of (atoms e)) in
        rw grown at (d' c' (omega (arith, room, grown, length-append (atoms e) (atoms e'))))))

-- The compiler succeeds on a formula whose constants get numbers that fit two bytes: it adds the
-- formula's code and its constants, and leaves the symbol tables.
pub compile-Does :
    (e : Formula) (c : Compiler)
    → length c.constants + length (atoms e) ≤ 65536
    → Does (compile (expr_of e)) c (code_of (length c.constants) e) (map const_of (atoms e))
unfolding compile expr_of code_of atoms definition Plain
compile-Does (Formula.literal (Atom.number n)) c room =
    emit_constant-Does (Const.integer n) c (omega (arith, room))
compile-Does (Formula.literal (Atom.real n)) c room =
    emit_constant-Does (Const.float n) c (omega (arith, room))
compile-Does (Formula.literal (Atom.byte_of n)) c room =
    emit_constant-Does (Const.byte_value n) c (omega (arith, room))
compile-Does (Formula.literal (Atom.text s)) c room =
    emit_constant-Does (Const.string s) c (omega (arith, room))
compile-Does (Formula.truth true) c room = emit-Does Opcode.op_true c refl
compile-Does (Formula.truth false) c room = emit-Does Opcode.op_false c refl
compile-Does Formula.nothing c room = emit-Does Opcode.op_null c refl
compile-Does (Formula.opposite e) c room =
    Does-operator (compile (expr_of e)) Opcode.op_bang c (code_of (length c.constants) e)
      (map const_of (atoms e)) refl (compile-Does e c room)
compile-Does (Formula.negative e) c room =
    Does-operator (compile (expr_of e)) Opcode.op_minus c (code_of (length c.constants) e)
      (map const_of (atoms e)) refl (compile-Does e c room)
compile-Does (Formula.binary o l r) c room =
    rw (compile_infix-symbol o (compile (expr_of l)) (compile (expr_of r)))
      (Does-formulas l r (opcode_of o) c (opcode_of-Plain o) (compile-Does l) (compile-Does r) room)
compile-Does (Formula.turned t l r) c room =
    rw (compile_infix-turned t (compile (expr_of l)) (compile (expr_of r))) (
      Does-formulas r l (opcode_of (converse t)) c (opcode_of-Plain (converse t)) (compile-Does r)
        (compile-Does l) room)
