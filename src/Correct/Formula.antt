-- ===== src/Correct/Formula.antt =====
-- The expressions without names (ast/ast.go), what they mean, and the code that the compiler is to
-- make of them (compiler/compiler.go): the literals, `PrefixExpr` and `InfixExpr`.
use sydney.Base.{
  ℕ, suc, ◌+◌, String, List, [], ◌∷◌, ◌++◌, Bool, true, false, length, ltb, if◌then◌else◌, Result,
  ok, ◌>>=◌,
}
use sydney.Code.{Opcode, byte, definition}
use sydney.Code.RoundTrip.{encode}
use sydney.Ast.{Expr}
use sydney.Compiler.State.{Const}
use sydney.Machine.{
  Object, FloatOps, integer, float, string, byte_value, native_bool, binary as apply, comparison,
  bang, minus,
}
use sydney.Vm.State.{null}

-- The operators whose left operand is evaluated first, and the two whose right operand is.
pub data Operator : Type 0 where
  plus sub times over modulo equal not_equal above at_least both either : Operator

pub data Turned : Type 0 where
  below at_most : Turned

pub data Atom : Type 0 where
  number real byte_of : ℕ → Atom
  text : String → Atom

pub data Formula : Type 0 where
  literal : Atom → Formula
  truth : Bool → Formula
  nothing : Formula
  opposite negative : Formula → Formula
  binary : Operator → Formula → Formula → Formula
  turned : Turned → Formula → Formula → Formula

-- The syntax tree of a formula.
abbrev pub symbol : Operator → String
symbol Operator.plus = "+"
symbol Operator.sub = "-"
symbol Operator.times = "*"
symbol Operator.over = "/"
symbol Operator.modulo = "%"
symbol Operator.equal = "=="
symbol Operator.not_equal = "!="
symbol Operator.above = ">"
symbol Operator.at_least = ">="
symbol Operator.both = "&&"
symbol Operator.either = "||"

abbrev pub turned_symbol : Turned → String
turned_symbol Turned.below = "<"
turned_symbol Turned.at_most = "<="

abbrev pub atom_of : Atom → Expr
atom_of (Atom.number n) = Expr.integer_literal n
atom_of (Atom.real n) = Expr.float_literal n
atom_of (Atom.byte_of n) = Expr.byte_literal n
atom_of (Atom.text s) = Expr.string_literal s

unfoldable pub expr_of : Formula → Expr
expr_of (Formula.literal a) = atom_of a
expr_of (Formula.truth b) = Expr.boolean_literal b
expr_of Formula.nothing = Expr.null_literal
expr_of (Formula.opposite e) = Expr.prefix "!" (expr_of e)
expr_of (Formula.negative e) = Expr.prefix "-" (expr_of e)
expr_of (Formula.binary o l r) = Expr.infix_expr (symbol o) (expr_of l) (expr_of r)
expr_of (Formula.turned t l r) = Expr.infix_expr (turned_symbol t) (expr_of l) (expr_of r)

abbrev pub larger : ℕ → ℕ → ℕ
larger m n = if ltb m n then n else m

-- The code: an instruction, and the instructions of a formula whose first constant gets a number.
abbrev pub instruction : Opcode → List ℕ → List ℕ
instruction op operands = byte op ∷ encode (definition op).operand_widths operands

abbrev pub plain : Opcode → List ℕ
plain op = byte op ∷ []

abbrev pub opcode_of : Operator → Opcode
opcode_of Operator.plus = Opcode.op_add
opcode_of Operator.sub = Opcode.op_sub
opcode_of Operator.times = Opcode.op_mul
opcode_of Operator.over = Opcode.op_div
opcode_of Operator.modulo = Opcode.op_modulo
opcode_of Operator.equal = Opcode.op_equal
opcode_of Operator.not_equal = Opcode.op_not_equal
opcode_of Operator.above = Opcode.op_gt
opcode_of Operator.at_least = Opcode.op_gte
opcode_of Operator.both = Opcode.op_and
opcode_of Operator.either = Opcode.op_or

abbrev pub truth_opcode : Bool → Opcode
truth_opcode true = Opcode.op_true
truth_opcode false = Opcode.op_false

-- `a < b` is `b > a`.
abbrev pub converse : Turned → Operator
converse Turned.below = Operator.above
converse Turned.at_most = Operator.at_least

abbrev pub const_of : Atom → Const
const_of (Atom.number n) = Const.integer n
const_of (Atom.real n) = Const.float n
const_of (Atom.byte_of n) = Const.byte_value n
const_of (Atom.text s) = Const.string s

unfoldable pub atoms : Formula → List Atom
atoms (Formula.literal a) = a ∷ []
atoms (Formula.truth b) = []
atoms Formula.nothing = []
atoms (Formula.opposite e) = atoms e
atoms (Formula.negative e) = atoms e
atoms (Formula.binary o l r) = atoms l ++ atoms r
atoms (Formula.turned t l r) = atoms r ++ atoms l

unfoldable pub code_of : ℕ → Formula → List ℕ
unfolding atoms
code_of n (Formula.literal a) = instruction Opcode.op_constant (n ∷ [])
code_of n (Formula.truth b) = plain (truth_opcode b)
code_of n Formula.nothing = plain Opcode.op_null
code_of n (Formula.opposite e) = code_of n e ++ plain Opcode.op_bang
code_of n (Formula.negative e) = code_of n e ++ plain Opcode.op_minus
code_of n (Formula.binary o l r) =
    code_of n l ++ code_of (n + length (atoms l)) r ++ plain (opcode_of o)
code_of n (Formula.turned t l r) =
    code_of n r ++ code_of (n + length (atoms r)) l ++ plain (opcode_of (converse t))

-- The objects that stand on the stack at once.
unfoldable pub depth : Formula → ℕ
depth (Formula.opposite e) = depth e
depth (Formula.negative e) = depth e
depth (Formula.binary o l r) = larger (depth l) (suc (depth r))
depth (Formula.turned t l r) = larger (depth r) (suc (depth l))
depth _ = 1

module _ {F : Type 0} (fl : FloatOps F) where
  -- The meaning of the operators.
  abbrev pub compared : Opcode → Object F → Object F → Result (Object F)
  compared op l r = comparison fl op l r >>= λ b. ok (native_bool b)

  abbrev pub meaning : Operator → Object F → Object F → Result (Object F)
  meaning Operator.plus = apply fl Opcode.op_add
  meaning Operator.sub = apply fl Opcode.op_sub
  meaning Operator.times = apply fl Opcode.op_mul
  meaning Operator.over = apply fl Opcode.op_div
  meaning Operator.modulo = apply fl Opcode.op_modulo
  meaning Operator.equal = compared Opcode.op_equal
  meaning Operator.not_equal = compared Opcode.op_not_equal
  meaning Operator.above = compared Opcode.op_gt
  meaning Operator.at_least = compared Opcode.op_gte
  meaning Operator.both = compared Opcode.op_and
  meaning Operator.either = compared Opcode.op_or

module _ {F : Type 0} (fl : FloatOps F) (of_bits : ℕ → F) where
  -- The meaning of a formula; a float literal is 64 bits, `of_bits` its number.
  abbrev pub value_of : Atom → Object F
  value_of (Atom.number n) = integer n
  value_of (Atom.real n) = float (of_bits n)
  value_of (Atom.byte_of n) = byte_value n
  value_of (Atom.text s) = string s

  unfoldable pub eval : Formula → Result (Object F)
  eval (Formula.literal a) = ok (value_of a)
  eval (Formula.truth b) = ok (native_bool b)
  eval Formula.nothing = ok null
  eval (Formula.opposite e) = eval e >>= λ v. ok (native_bool (bang fl v))
  eval (Formula.negative e) = eval e >>= minus fl
  eval (Formula.binary o l r) = eval l >>= λ a. eval r >>= λ b. meaning fl o a b
  eval (Formula.turned t l r) = eval r >>= λ b. eval l >>= λ a. meaning fl (converse t) b a
