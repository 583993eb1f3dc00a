-- ===== src/Compiler/State.antt =====
-- compiler/compiler.go: the compiler's state, and the functions that emit and patch instructions.
-- Source positions and debug symbols do not reach the instructions and are left out. The scopes and
-- the loops are lists, the innermost first. A float is its 64 bits.
use sydney.Base.{
  ℕ, suc, String, List, [], ◌∷◌, ◌++◌, Bool, false, Option, length, get_elem?, set, take, ltb, ◌==◌,
  if◌then◌else◌, ℤ, pos, Result, ok, panic, ◌>>=◌, or_panic,
}
use sydney.Code.{Opcode, byte}
use sydney.Code.Encode.{make}
use sydney.Types.{Ty}
use sydney.SymbolTable.{Table}

-- The objects that the compiler makes.
pub data Const : Type 0 where
  integer float byte_value : ℕ → Const
  string : String → Const
  -- Instructions, NumLocals, NumParameters
  compiled_function : List ℕ → ℕ → ℕ → Const
  type_object : Ty → Const
  -- InterfaceName, ConcreteName, MethodsIndices
  itab : String → String → List ℕ → Const

pub record EmittedInstruction : Type 0 where
  pub opcode : Opcode
  pub position : ℕ

pub record CompilationScope : Type 0 where
  pub instructions : List ℕ
  pub last_instruction : EmittedInstruction
  pub previous_instruction : EmittedInstruction

pub record LoopContext : Type 0 where
  pub condition_pos : ℕ
  pub has_post : Bool
  pub break_positions : List ℕ
  pub continue_positions : List ℕ

pub record Compiler : Type 0 where
  pub constants : List Const
  pub symbol_table : List (Table (Option Ty))
  pub scope : CompilationScope
  pub outer_scopes : List CompilationScope
  pub itab_mapping : List (String × ℕ)
  pub struct_types : List (String × Ty)
  pub interface_types : List (String × Ty)
  pub current_module : String
  pub loop_contexts : List LoopContext

-- What a function of the compiler does to it.
abbrev pub Action : Type 0
Action = Compiler → Result Compiler

-- The zero `EmittedInstruction`, and the scope that `New` and `enterScope` make.
abbrev pub no_instruction : EmittedInstruction
no_instruction = record { opcode = Opcode.op_constant; position = 0 }

abbrev pub empty_scope : CompilationScope
empty_scope = record {
  instructions = [];
  last_instruction = no_instruction;
  previous_instruction = no_instruction;
}

-- `currentInstructions`
abbrev pub current_instructions : Compiler → List ℕ
current_instructions c = c.scope.instructions

abbrev pub position : Compiler → ℕ
position c = length (current_instructions c)

abbrev pub with_instructions : List ℕ → Compiler → Compiler
with_instructions ins c = record c { scope = record (c.scope) { instructions = ins } }

-- `addConstant`
unfoldable pub add_constant : Const → Compiler → ℕ × Compiler
add_constant obj c = (length c.constants, record c { constants = c.constants ++ obj ∷ [] })

-- `addInstruction`
unfoldable pub add_instruction : List ℕ → Compiler → ℕ × Compiler
add_instruction ins c = (position c, with_instructions (current_instructions c ++ ins) c)

-- `setLastInstruction`
unfoldable pub set_last_instruction : Opcode → ℕ → Compiler → Compiler
set_last_instruction op at c = record c {
  scope = record (c.scope) {
    previous_instruction = c.scope.last_instruction;
    last_instruction = record { opcode = op; position = at };
  };
}

-- `emit`, which gives the position of the instruction as well; `emitAt` differs in the source map.
unfoldable pub emit_pos : Opcode → List ℤ → Compiler → Result (ℕ × Compiler)
unfolding add_instruction set_last_instruction
emit_pos op operands c = do
  ins ← make (byte op) operands
  let (at, c') = add_instruction ins c
  ok (at, set_last_instruction op at c')

-- `emit` where the position is not used: of any operands, of none and of one.
unfoldable pub emit_all : Opcode → List ℤ → Action
emit_all op operands c = do (at, c') ← emit_pos op operands c; ok c'

unfoldable pub emit : Opcode → Action
unfolding emit_all
emit op = emit_all op []

unfoldable pub emit_one : Opcode → ℕ → Action
unfolding emit_all
emit_one op operand = emit_all op (pos operand ∷ [])

-- `c.emit(code.OpConstant, c.addConstant(obj))`
unfoldable pub emit_constant : Const → Action
unfolding add_constant emit_one
emit_constant obj c = let (at, c') = add_constant obj c in emit_one Opcode.op_constant at c'

-- A jump whose operand is written later.
unfoldable pub emit_jump : Opcode → Compiler → Result (ℕ × Compiler)
emit_jump op = emit_pos op (pos 9999 ∷ [])

-- `lastInstructionIs`
unfoldable pub last_instruction_is : Opcode → Compiler → Bool
last_instruction_is op c =
    if ltb 0 (position c) then byte c.scope.last_instruction.opcode == byte op else false

-- `removeLastPop`; a position past the end is a slice out of range.
unfoldable pub remove_last_pop : Action
remove_last_pop c =
    let last = c.scope.last_instruction in
    if ltb (position c) last.position
    then panic
    else ok (record c {
      scope = record (c.scope) {
        instructions = take last.position (current_instructions c);
        last_instruction = c.scope.previous_instruction;
      };
    })

-- `if c.lastInstructionIs(code.OpPop) { c.removeLastPop() }`
unfoldable pub drop_last_pop : Action
unfolding remove_last_pop last_instruction_is
drop_last_pop c = if last_instruction_is Opcode.op_pop c then remove_last_pop c else ok c

-- `replaceInstruction`, byte by byte; a byte past the end is an index out of range.
unfoldable pub write_bytes : ℕ → List ℕ → List ℕ → Result (List ℕ)
write_bytes at [] ins = ok ins
write_bytes at (b ∷ bs) ins =
    let rest = write_bytes (suc at) bs (set ins at b) in if ltb at (length ins) then rest else panic

unfoldable pub replace_instruction : ℕ → List ℕ → Action
unfolding write_bytes
replace_instruction at new c = do
  ins ← write_bytes at new (current_instructions c)
  ok (with_instructions ins c)

-- `changeOperand`
unfoldable pub change_operand : ℕ → ℕ → Action
unfolding replace_instruction
change_operand at operand c = do
  op ← or_panic (get_elem? (current_instructions c) at)
  new ← make op (pos operand ∷ [])
  replace_instruction at new c

-- The same at every position of a list.
unfoldable pub change_operands : List ℕ → ℕ → Action
change_operands [] operand c = ok c
change_operands (at ∷ ats) operand c = change_operand at operand c >>= change_operands ats operand

-- `replaceLastPopWithReturn`
unfoldable pub replace_last_pop_with_return : Action
unfolding replace_instruction
replace_last_pop_with_return c = do
  new ← make (byte Opcode.op_return_value) []
  c' ← replace_instruction c.scope.last_instruction.position new c
  ok (record c' {
    scope = record (c'.scope) {
      last_instruction = record (c'.scope.last_instruction) { opcode = Opcode.op_return_value };
    };
  })
