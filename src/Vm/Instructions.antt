-- ===== src/Vm/Instructions.antt =====
-- vm/vm.go: the instructions of `runFiber` that gather, match, send and call.
use sydney.Base.{
  ℕ, suc, ◌-◌, String, List, [], false, length, get_elem?, Result, ok, err, panic, ◌>>=◌, or_panic,
}
use sydney.Scheduler.{send, receive}
use sydney.Machine.{Object, integer, string, native_bool}
use sydney.Vm.State.{Vm, Cell, current_fiber, push_value, pop_value, set_sp, allocate, cell_of}
use sydney.Vm.Collections.{
  top_objects, new_array, build_pairs, execute_index_assignment, slice_object,
}
use sydney.Vm.Calls.{Built, Stepped, execute_call, push_all, pop_all}
use sydney.Vm.Execute.{matches_type, spawn, channel_id}

module _ {F : Type 0} where
  -- `OpArray` and `OpHash`, of the objects on top of the stack.
  unfoldable pub gather_array : ℕ → Vm F → Result (Vm F)
  gather_array count vm = do
    xs ← top_objects count vm
    let (made, vm') = new_array xs (set_sp ((current_fiber vm).sp - count) vm)
    push_value made vm'

  unfoldable pub gather_hash : ℕ → Vm F → Result (Vm F)
  gather_hash count vm = do
    xs ← top_objects count vm
    ps ← build_pairs xs []
    let (made, vm') =
        allocate "Hash" (Cell.hash_cell ps) (set_sp ((current_fiber vm).sp - count) vm)
    push_value made vm'

  -- A type assertion to an integer and to a string.
  abbrev as_integer : Object F → Result ℕ
  as_integer (integer n) = ok n
  as_integer _ = panic

  abbrev as_text : Object F → Result String
  as_text (string s) = ok s
  as_text _ = panic

  -- `OpSlice`: the object, the end and the start.
  unfoldable pub slice : Vm F → Result (Vm F)
  slice vm = do
    (obj, vm1) ← pop_value vm
    (end, vm2) ← pop_value vm1
    last ← as_integer end
    (start, vm3) ← pop_value vm2
    first ← as_integer start
    slice_object (cell_of obj vm) obj first last vm3

  -- `OpMatchType`
  unfoldable pub match_type : ℕ → Vm F → Result (Vm F)
  match_type at vm = do
    constant ← or_panic (get_elem? vm.constants at)
    name ← as_text constant
    (obj, vm') ← pop_value vm
    push_value (native_bool (matches_type name (cell_of obj vm') obj)) vm'

  -- `OpSend` and `OpReceive`, after which the fiber's turn is over.
  unfoldable pub send_value : Vm F → Stepped F
  send_value vm = do
    (val, vm1) ← pop_value vm
    (chan, vm2) ← pop_value vm1
    id ← channel_id (cell_of chan vm2)
    s ← send id val vm2.scheduler
    ok (false, record vm2 { scheduler = s })

  unfoldable pub receive_value : Vm F → Stepped F
  receive_value vm = do
    (chan, vm1) ← pop_value vm
    id ← channel_id (cell_of chan vm1)
    s ← receive id vm1.scheduler
    ok (false, record vm1 { scheduler = s })

  -- `OpSpawn`: the arguments and the closure below them.
  unfoldable pub spawn_fiber : ℕ → Vm F → Result (Vm F)
  spawn_fiber num_args vm = do
    (arguments, vm1) ← pop_all num_args [] vm
    (callee, vm2) ← pop_value vm1
    spawn (suc (length vm2.scheduler.fibers)) (cell_of callee vm2) callee arguments vm2

  -- Two and three objects popped for an operation.
  unfoldable pub with_two : (Object F → Object F → Vm F → Result (Vm F)) → Vm F → Result (Vm F)
  with_two act vm = do (b, vm1) ← pop_value vm; (a, vm2) ← pop_value vm1; act a b vm2

  unfoldable pub index_set : Vm F → Result (Vm F)
  index_set vm = do
    (value, vm1) ← pop_value vm
    with_two (λ left index. execute_index_assignment left index value) vm1

  -- The global of a method, by the object's method table, and a call of it with the object ahead of
  -- the arguments.
  abbrev method_global : Cell F → ℕ → Result (Object F × ℕ)
  method_global (Cell.interface_cell value name methods) at =
      or_panic (get_elem? methods at) >>= λ g. ok (value, g)
  method_global _ at = err "expected interface"

  abbrev as_closure : Cell F → Object F → Result (Object F)
  as_closure (Cell.closure_cell ins locals parameters free) obj = ok obj
  as_closure _ obj = panic

  module _ (built_in : ℕ → List (Object F) → Vm F → Built F) where
    unfoldable pub call_interface : ℕ → ℕ → Vm F → Stepped F
    call_interface method num_args vm = do
      (obj, vm1) ← pop_value vm
      (value, global) ← method_global (cell_of obj vm1) method
      called ← or_panic (get_elem? vm1.globals global)
      closure ← as_closure (cell_of called vm1) called
      (arguments, vm2) ← pop_all num_args [] vm1
      vm3 ← push_value closure vm2
      vm4 ← push_value value vm3
      vm5 ← push_all arguments vm4
      execute_call built_in (suc num_args) vm5
