-- ===== src/Vm/Run.antt =====
-- vm/vm.go: the switch of `runFiber`, and its loop: a turn ends after `fiberQuantum` rounds. Without a
-- debugger, a round takes one from the budget before it does an instruction.
use sydney.Base.{
  ℕ, zero, suc, ◌+◌, ◌-◌, List, [], ◌∷◌, true, false, Option, none, some, length, get_elem?, drop,
  ltb, if◌then◌else◌, Result, ok, err, panic, ◌>>=◌, or_panic,
}
use sydney.Code.{Opcode, of_byte}
use sydney.Scheduler.{FiberState, set_state}
use sydney.Machine.{
  Object, FloatOps, other, native_bool, execute_binary_operation, execute_comparison,
  execute_bang_operator, execute_minus_operator,
}
use sydney.Vm.State.{
  Vm, Frame, null, current_frames, on_fiber, push_value, pop_value, current_frame, jump_to, advance,
  cell_of, instructions_of,
}
use sydney.Vm.Collections.{execute_index_expression}
use sydney.Vm.Calls.{Built, Stepped, go_on, push_closure, execute_call}
use sydney.Vm.Execute.{
  one, two, three, jump_not_truthy, set_global, return_with, set_local, get_local, push_free,
  make_struct, get_field, set_field, box, push_tag, push_content, unboxed, make_channel,
}
use sydney.Vm.Instructions.{
  gather_array, gather_hash, slice, match_type, send_value, receive_value, spawn_fiber, with_two,
  index_set, call_interface,
}

module _ {F : Type 0} (fl : FloatOps F) (built_in : ℕ → List (Object F) → Vm F → Built F) where
  -- The switch: an opcode, the bytes behind it, and the machine with `ip` on the opcode.
  unfoldable pub execute : Opcode → List ℕ → Vm F → Stepped F
  execute Opcode.op_constant bytes vm =
      two bytes vm λ at vm'. go_on (or_panic (get_elem? vm'.constants at) >>= λ v. push_value v vm')
  execute Opcode.op_add bytes vm = go_on (on_fiber (execute_binary_operation fl Opcode.op_add) vm)
  execute Opcode.op_sub bytes vm = go_on (on_fiber (execute_binary_operation fl Opcode.op_sub) vm)
  execute Opcode.op_mul bytes vm = go_on (on_fiber (execute_binary_operation fl Opcode.op_mul) vm)
  execute Opcode.op_div bytes vm = go_on (on_fiber (execute_binary_operation fl Opcode.op_div) vm)
  execute Opcode.op_modulo bytes vm =
      go_on (on_fiber (execute_binary_operation fl Opcode.op_modulo) vm)
  execute Opcode.op_pop bytes vm = pop_value vm >>= λ (v, vm'). ok (true, vm')
  execute Opcode.op_true bytes vm = go_on (push_value (native_bool true) vm)
  execute Opcode.op_false bytes vm = go_on (push_value (native_bool false) vm)
  execute Opcode.op_equal bytes vm = go_on (on_fiber (execute_comparison fl Opcode.op_equal) vm)
  execute Opcode.op_not_equal bytes vm =
      go_on (on_fiber (execute_comparison fl Opcode.op_not_equal) vm)
  execute Opcode.op_gt bytes vm = go_on (on_fiber (execute_comparison fl Opcode.op_gt) vm)
  execute Opcode.op_gte bytes vm = go_on (on_fiber (execute_comparison fl Opcode.op_gte) vm)
  execute Opcode.op_and bytes vm = go_on (on_fiber (execute_comparison fl Opcode.op_and) vm)
  execute Opcode.op_or bytes vm = go_on (on_fiber (execute_comparison fl Opcode.op_or) vm)
  execute Opcode.op_bang bytes vm = go_on (on_fiber (execute_bang_operator fl) vm)
  execute Opcode.op_minus bytes vm = go_on (on_fiber (execute_minus_operator fl) vm)
  execute Opcode.op_jump bytes vm = two bytes vm λ target vm'. go_on (jump_to target vm')
  execute Opcode.op_jump_not_truthy bytes vm = two bytes vm jump_not_truthy
  execute Opcode.op_null bytes vm = go_on (push_value null vm)
  execute Opcode.op_set_immutable_global bytes vm = two bytes vm λ at vm'. go_on (set_global at vm')
  execute Opcode.op_set_mutable_global bytes vm = two bytes vm λ at vm'. go_on (set_global at vm')
  execute Opcode.op_get_global bytes vm =
      two bytes vm λ at vm'. go_on (or_panic (get_elem? vm'.globals at) >>= λ v. push_value v vm')
  execute Opcode.op_array bytes vm = two bytes vm λ count vm'. go_on (gather_array count vm')
  execute Opcode.op_hash bytes vm = two bytes vm λ count vm'. go_on (gather_hash count vm')
  execute Opcode.op_index bytes vm = go_on (with_two execute_index_expression vm)
  execute Opcode.op_call bytes vm = one bytes vm (execute_call built_in)
  execute Opcode.op_return_value bytes vm = pop_value vm >>= λ (v, vm'). return_with v vm'
  execute Opcode.op_return bytes vm = return_with null vm
  execute Opcode.op_set_immutable_local bytes vm = one bytes vm λ at vm'. go_on (set_local at vm')
  execute Opcode.op_set_mutable_local bytes vm = one bytes vm λ at vm'. go_on (set_local at vm')
  execute Opcode.op_get_local bytes vm = one bytes vm λ at vm'. go_on (get_local at vm')
  execute Opcode.op_get_builtin bytes vm = one bytes vm λ at vm'.
      go_on (or_panic (get_elem? vm'.builtins at) >>= λ p. push_value (other "BuiltIn" p) vm')
  execute Opcode.op_closure bytes vm =
      three bytes vm λ at count vm'. go_on (push_closure at count vm')
  execute Opcode.op_get_free bytes vm =
      one bytes vm λ at vm'. current_frame vm' >>= λ f. go_on (push_free (vm'.cells f.cl) at vm')
  execute Opcode.op_current_closure bytes vm =
      current_frame vm >>= λ f. go_on (push_value (Object.other "Closure" f.cl) vm)
  execute Opcode.op_index_set bytes vm = go_on (index_set vm)
  execute Opcode.op_struct bytes vm = three bytes vm λ at count vm'.
      or_panic (get_elem? vm'.constants at) >>= λ t. go_on (make_struct (cell_of t vm') count vm')
  execute Opcode.op_get_field bytes vm =
      one bytes vm
        λ at vm'. pop_value vm' >>= λ (left, vm''). go_on (get_field (cell_of left vm'') at vm'')
  execute Opcode.op_set_field bytes vm = one bytes vm λ at vm'.
      go_on (with_two (λ left value vm''. set_field (cell_of left vm'') left at value vm'') vm')
  execute Opcode.op_box bytes vm = two bytes vm λ at vm'. pop_value vm' >>= λ (v, vm'').
      or_panic (get_elem? vm''.constants at) >>= λ t. go_on (box (cell_of t vm'') v vm'')
  execute Opcode.op_call_interface bytes vm = three bytes vm (call_interface built_in)
  execute Opcode.op_result_tag bytes vm =
      pop_value vm >>= λ (obj, vm'). go_on (push_tag (cell_of obj vm') vm')
  execute Opcode.op_result_value bytes vm =
      pop_value vm >>= λ (obj, vm'). go_on (push_content (cell_of obj vm') vm')
  execute Opcode.op_slice bytes vm = go_on (slice vm)
  execute Opcode.op_spawn bytes vm = one bytes vm λ count vm'. go_on (spawn_fiber count vm')
  execute Opcode.op_make_channel bytes vm =
      pop_value vm >>= λ (capacity, vm'). go_on (make_channel capacity vm')
  execute Opcode.op_send bytes vm = send_value vm
  execute Opcode.op_receive bytes vm = receive_value vm
  execute Opcode.op_match_type bytes vm = two bytes vm λ at vm'. go_on (match_type at vm')
  execute Opcode.op_unbox_interface bytes vm =
      pop_value vm >>= λ (obj, vm'). go_on (push_value (unboxed (cell_of obj vm') obj) vm')

  -- A byte that is no opcode does nothing.
  unfoldable pub execute_byte : Option Opcode → List ℕ → Vm F → Stepped F
  unfolding execute
  execute_byte none bytes vm = ok (true, vm)
  execute_byte (some op) bytes vm = execute op bytes vm

  -- One round of the loop: `none` where its condition fails.
  unfoldable pub round_at : List ℕ → Frame → Vm F → Option (Stepped F)
  unfolding execute_byte
  round_at ins f vm =
      if ltb f.next (length ins)
      then some (do
        vm1 ← advance 1 vm
        b ← or_panic (get_elem? ins f.next)
        execute_byte (of_byte b) (drop (f.next + 1) ins) vm1)
      else none

  unfoldable pub round_of : List Frame → Vm F → Option (Stepped F)
  unfolding round_at
  round_of [] vm = none
  round_of (f ∷ fs) vm = elim (instructions_of (vm.cells f.cl)) [
    | ok ins ↦ round_at ins f vm
    | err e ↦ some (err e)
    | panic ↦ some panic
  ]

  -- The end of the loop by its condition.
  abbrev pub finished : Vm F → Vm F
  finished vm = record vm {
    scheduler = set_state vm.scheduler.current FiberState.done vm.scheduler;
  }

  -- The loop, on the rounds that the budget leaves: the condition is tested first, then the budget.
  unfoldable pub after_round : (Vm F → Result (Vm F)) → Option (Stepped F) → Vm F → Result (Vm F)
  after_round go none vm = ok (finished vm)
  after_round go (some stepped) vm = do (on, vm') ← stepped; (if on then go vm' else ok vm')

  unfoldable pub before_round : Option (Stepped F) → Vm F → Result (Vm F)
  before_round none vm = ok (finished vm)
  before_round (some stepped) vm = ok vm

  unfoldable pub rounds : ℕ → Vm F → Result (Vm F)
  unfolding after_round before_round
  rounds zero vm = before_round (round_of (current_frames vm) vm) vm
  rounds (suc budget) vm = after_round (rounds budget) (round_of (current_frames vm) vm) vm

  -- `runFiber`: 1024 taken down by one before each instruction, and stopped at 0.
  abbrev pub fiber_quantum : ℕ
  fiber_quantum = 1024

  unfoldable pub run_fiber : Vm F → Result (Vm F)
  unfolding rounds
  run_fiber = rounds (fiber_quantum - 1)
