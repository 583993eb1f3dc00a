-- ===== src/Vm/Calls.antt =====
-- vm/vm.go: calls, closures, returns and the objects of interfaces, results and options. A built-in
-- function is a parameter: what it does with its arguments and the objects.
use sydney.Base.{
  ℕ, zero, suc, ◌+◌, ◌-◌, String, List, [], ◌∷◌, Bool, true, false, Option, none, some, get_elem?,
  ltb, ◌==◌, if◌then◌else◌, plus_one, Result, ok, err, panic, ◌>>=◌, or_panic,
}
use sydney.Scheduler.{FiberState, set_state}
use sydney.Machine.{Object, other}
use sydney.Vm.State.{
  Vm, Cell, null, current_fiber, push_value, pop_value, set_sp, stack_at, push_frame, allocate,
  cell_of, closure_cell, builtin_cell, function_cell,
}
use sydney.Vm.Collections.{top_objects}

-- What a built-in function gives: its result (`none` for nil), an error object's message, or, of an
-- asynchronous one, nothing yet.
pub data Built (F : Type 0) : Type 0 where
  returned : Option (Object F) → Vm F → Built F
  failed : String → Built F
  started : Vm F → Built F

-- `true` where the loop of `runFiber` goes on, `false` where it returns.
abbrev pub Stepped : Type 0 → Type 0
Stepped F = Result (Bool × Vm F)

module _ {F : Type 0} where
  -- Go on with what an operation gives.
  abbrev pub go_on : Result (Vm F) → Stepped F
  go_on r = r >>= λ vm. ok (true, vm)

  -- `pushClosure`
  unfoldable pub close_over : Cell F → List (Object F) → Vm F → Result (Vm F)
  unfolding allocate
  close_over (function_cell ins locals parameters) free vm =
      let (closure, vm') = allocate "Closure" (closure_cell ins locals parameters free) vm in
      push_value closure vm'
  close_over _ free vm = err "not a function"

  unfoldable pub push_closure : ℕ → ℕ → Vm F → Result (Vm F)
  unfolding close_over
  push_closure const_idx num_free vm = do
    constant ← or_panic (get_elem? vm.constants const_idx)
    free ← top_objects num_free vm
    close_over (cell_of constant vm) free (set_sp ((current_fiber vm).sp - num_free) vm)

  -- `callClosure`, of the closure at a pointer: its frame starts at its first argument, and its locals
  -- are above the base.
  unfoldable pub call_closure : ℕ → ℕ → ℕ → ℕ → Vm F → Result (Vm F)
  call_closure p locals parameters num_args vm =
      if num_args == parameters
      then (let base = (current_fiber vm).sp - num_args in
          do
            vm' ← push_frame (record { cl = p; next = 0; base_pointer = base }) vm
            ok (set_sp (base + locals) vm'))
      else err "wrong number of arguments"

  -- The rest of `callBuiltIn`, after the function; the error of its `push` is not looked at.
  abbrev or_null : Option (Object F) → Object F
  or_null none = null
  or_null (some v) = v

  unfoldable pub finish_builtin : ℕ → Built F → Stepped F
  finish_builtin num_args (returned v vm) =
      go_on (push_value (or_null v) (set_sp ((current_fiber vm).sp - num_args - 1) vm))
  finish_builtin num_args (failed message) = err message
  finish_builtin num_args (started vm) =
      let s = vm.scheduler in
      let vm' = set_sp ((current_fiber vm).sp - num_args - 1) vm in
      ok (
        false,
        record vm' {
          scheduler = record (set_state s.current FiberState.blocked vm'.scheduler) {
            io_blocked_count = plus_one s.io_blocked_count;
          };
        },
      )

  -- Objects pushed one after the other.
  unfoldable pub push_all : List (Object F) → Vm F → Result (Vm F)
  push_all [] vm = ok vm
  push_all (v ∷ vs) vm = push_value v vm >>= push_all vs

  -- `numArgs` pops, of which the last gives the first object.
  unfoldable pub pop_all : ℕ → List (Object F) → Vm F → Result (List (Object F) × Vm F)
  pop_all zero vs vm = ok (vs, vm)
  pop_all (suc n) vs vm = do (v, vm') ← pop_value vm; pop_all n (v ∷ vs) vm'

  module _ (built_in : ℕ → List (Object F) → Vm F → Built F) where
    unfoldable pub call_cell : Cell F → Object F → ℕ → Vm F → Stepped F
    unfolding call_closure finish_builtin
    call_cell (closure_cell ins locals parameters free) (other name p) num_args vm =
        go_on (call_closure p locals parameters num_args vm)
    call_cell (builtin_cell b) callee num_args vm = do
      arguments ← top_objects num_args vm
      finish_builtin num_args (built_in b arguments vm)
    call_cell _ callee num_args vm = err "calling non-function"

    -- `executeCall`: the function stands below its arguments.
    unfoldable pub execute_call : ℕ → Vm F → Stepped F
    unfolding call_cell
    execute_call num_args vm =
        let sp = (current_fiber vm).sp in
        let called : Stepped F =
          (stack_at (sp - 1 - num_args) vm
            >>= (λ callee. call_cell (cell_of callee vm) callee num_args vm)) in
        if ltb num_args sp then called else panic
