-- ===== src/Tests/Compiling.antt =====
-- Tests of the modules on compiler/compiler.go and on the loop of vm/vm.go.
use sydney.Base.{
  if◌then◌else◌, ℕ, ◌+◌, ◌-◌, ◌≡◌, refl, List, [], ◌∷◌, true, not, ltb, ◌==◌, map, length-replicate,
  ok, arith, set,
}
use sydney.Code.{Opcode, byte, of_byte, definition}
use sydney.Scheduler.{Fiber, new_fiber, new_scheduler, stack_size}
use sydney.Machine.{
  other, ordered_comparison, Object, FloatOps, integer, float, string, byte_value, native_bool,
  binary_integer, comparison,
}
use sydney.Machine.Word.{greater, add}
use sydney.Compiler.State.{Compiler, Const, emit, emit_constant, emit_pos}
use sydney.Compiler.Names.{compile_infix}
use sydney.Code.Encode.{make, write_operands, put_operand}
use sydney.Compiler.Compile.{compile}
use sydney.Compiler.Program.{new_compiler}
use sydney.Vm.State.{array_cell, elements_cell, push_value, Vm, Frame, null, closure_cell}
use sydney.Vm.Collections.{elements_of, execute_index_expression, execute_index_assignment}
use sydney.Vm.Elements.{index_expression-assignment}
use sydney.Vm.Calls.{Built, failed}
use sydney.Vm.Calls.{call_closure}
use sydney.Vm.Execute.{return_with}
use sydney.Vm.Returns.{call_closure-return_with}
use sydney.Vm.Shows.{Context, Shows}
use sydney.Correct.Formula.{Formula, Operator, Turned, Atom, atoms, code_of, expr_of, depth, eval}
use sydney.Correct.Emitted.{Does, compile-Does}
use sydney.Correct.Runs.{Reaches}
use sydney.Correct.Refines.{Loads, compile-Reaches}

-- Whole numbers for the floats.
abbrev whole : FloatOps ℕ
whole = record {
  plus = λ a b. a + b;
  minus = λ a b. a - b;
  times = λ a b. a;
  over = λ a b. a;
  negate = λ a. a;
  equal = λ a b. a == b;
  above = λ a b. ltb b a;
  at_least = λ a b. not (ltb a b);
  is_zero = λ a. a == 0;
}

abbrev no_builtin : ℕ → List (Object ℕ) → Vm ℕ → Built ℕ
no_builtin b arguments vm = failed "unknown"

-- `2 < 1 + 4`, compiled behind another constant and another instruction.
abbrev sum_above : Formula
sum_above = Formula.turned Turned.below (Formula.literal (Atom.number 2)) (
    Formula.binary Operator.plus (Formula.literal (Atom.number 1))
      (Formula.literal (Atom.number 4)))

abbrev begun : Compiler
begun = record (new_compiler []) {
  constants = Const.string "first" ∷ [];
  scope = record ((new_compiler []).scope) { instructions = 2 ∷ [] };
}

sum_above-value : eval whole (λ n. n) sum_above ≡ ok (native_bool true)
unfolding eval comparison binary_integer sydney.Machine.binary ordered_comparison greater add
sum_above-value = refl

abbrev sum_above_code : List ℕ
sum_above_code = 0 ∷ 0 ∷ 1 ∷ 0 ∷ 0 ∷ 2 ∷ 2 ∷ 0 ∷ 0 ∷ 3 ∷ 10 ∷ []

compile-Does_example :
    Does
      (compile (expr_of sum_above))
      begun
      (code_of 1 sum_above)
      (Const.integer 1 ∷ Const.integer 4 ∷ Const.integer 2 ∷ [])
unfolding atoms new_compiler
compile-Does_example = compile-Does sum_above begun (omega arith)

code-sum_above : code_of 1 sum_above ≡ sum_above_code
unfolding code_of atoms definition byte
code-sum_above = refl

abbrev compiled : Compiler
compiled = record begun {
  constants = Const.string "first" ∷ Const.integer 1 ∷ Const.integer 4 ∷ Const.integer 2 ∷ [];
  scope = record {
    instructions = 2 ∷ sum_above_code;
    last_instruction = record { opcode = Opcode.op_gt; position = 11 };
    previous_instruction = record { opcode = Opcode.op_constant; position = 8 };
  };
}

compile-sum_above : compile (expr_of sum_above) begun ≡ ok compiled
unfolding compile expr_of compile_infix emit_constant emit_pos make sydney.Code.Encode.lookup
    of_byte byte write_operands definition emit put_operand
compile-sum_above = refl

abbrev load : Const → Object ℕ
load (Const.integer n) = integer n
load (Const.float n) = float n
load (Const.byte_value n) = byte_value n
load (Const.string s) = string s
load _ = null

load-Loads : Loads whole (λ n. n) no_builtin load
load-Loads (Atom.number n) = refl
load-Loads (Atom.real n) = refl
load-Loads (Atom.byte_of n) = refl
load-Loads (Atom.text s) = refl

-- A machine at the code of the sum, behind its first instruction.
abbrev context : Context ℕ
context = record {
  constants = map load compiled.constants;
  globals = [];
  cells = λ _. closure_cell (2 ∷ sum_above_code) 0 0 [];
}

abbrev at_sum : Frame
at_sum = record { cl = 0; next = 1; base_pointer = 0 }

abbrev machine : Vm ℕ
machine = record {
  constants = context.constants;
  scheduler = new_scheduler null;
  frames = λ _. at_sum ∷ [];
  globals = [];
  cells = context.cells;
  next_cell = 3;
  builtins = [];
}

machine-Shows : Shows machine context (at_sum ∷ []) (new_fiber null)
unfolding new_scheduler
machine-Shows = record {
  frames = refl;
  fiber = refl;
  constants = refl;
  globals = refl;
  cells = refl;
}

compile-Reaches_example :
    Reaches whole no_builtin machine context
      (record at_sum { next = 12 })
      []
      (new_fiber null)
      (eval whole (λ n. n) sum_above)
unfolding depth new_fiber atoms
compile-Reaches_example =
    compile-Reaches whole (λ n. n) no_builtin sum_above begun compiled load [] [] 0 0 [] machine
      context at_sum [] (new_fiber null) (omega arith) compile-sum_above load-Loads refl refl refl
      (omega arith) (length-replicate stack_size (null {F = ℕ})) machine-Shows

-- A call of the closure at the pointer 7 with one argument, from a frame of the main program, and its
-- return after 4 bytes.
abbrev callee : ℕ → Frame
callee next = record { cl = 7; next = next; base_pointer = 1 }

abbrev called : Fiber (Object ℕ)
called = record (new_fiber null) { sp = 2 }

abbrev caller : Vm ℕ
caller = record machine { scheduler = record (machine.scheduler) { heap = λ _. called } }

abbrev inside_call : Vm ℕ
inside_call = record caller { frames = λ _. callee 4 ∷ at_sum ∷ [] }

caller-Shows : Shows caller context (at_sum ∷ []) called
caller-Shows = record {
  frames = refl;
  fiber = refl;
  constants = refl;
  globals = refl;
  cells = refl;
}

inside_call-Shows : Shows inside_call context (callee 4 ∷ at_sum ∷ []) called
inside_call-Shows = record {
  frames = refl;
  fiber = refl;
  constants = refl;
  globals = refl;
  cells = refl;
}

call_closure-return_with_example :
    ((vm1 : Vm ℕ) × (call_closure 7 3 1 1 caller ≡ ok vm1)
      × Shows vm1 context (callee 0 ∷ at_sum ∷ []) (record called { sp = 4 }))
    × ((vm3 : Vm ℕ) × (return_with (integer 5) inside_call ≡ ok (true, vm3))
        × Shows vm3 context
            (at_sum ∷ [])
            (record called { stack = set called.stack 0 (integer 5); sp = 1 }))
unfolding new_fiber
call_closure-return_with_example =
    call_closure-return_with 7 3 1 4 (integer 5) caller inside_call context context (at_sum ∷ [])
      called called (omega arith) (omega arith) (omega arith) caller-Shows
      (length-replicate stack_size (null {F = ℕ})) inside_call-Shows

-- An array of three elements at the pointer 5, and a slice of its last two at 6.
abbrev shared : Vm ℕ
shared = record machine {
  cells = λ p.
      if p == 5
      then array_cell 4 0 3
      else if p == 6
      then array_cell 4 1 2
      else elements_cell (integer 10 ∷ integer 20 ∷ integer 30 ∷ []);
}

index_expression-assignment_example :
    (vm' : Vm ℕ) × (execute_index_assignment (other "Array" 5) (integer 2) (integer 7) shared
      ≡ ok vm')
    × (execute_index_expression (other "Array" 6) (integer 1) vm' ≡ push_value (integer 7) vm')
unfolding elements_of
index_expression-assignment_example =
    index_expression-assignment "Array" "Array" 5 6 4 0 1 3 2 2 1 (integer 7) shared refl refl
      (omega arith) (omega arith) (omega arith) refl (omega arith)
