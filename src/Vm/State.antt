-- ===== src/Vm/State.antt =====
-- vm/vm.go, vm/frame.go, vm/fiber.go: the state of the machine and the accesses to it. Objects with
-- parts are cells behind pointers, as in the source; an object `other name p` points at the cell `p`.
-- The debugger is left out.
use sydney.Base.{
  ℕ, suc, ◌+◌, String, List, [], ◌∷◌, Bool, length, get_elem?, set, ltb, if◌then◌else◌, Result, ok,
  panic, ◌>>=◌, or_panic,
}
use sydney.Scheduler.{Fiber, Scheduler, update}
use sydney.Machine.{Object, other, push, pop}

-- What an object with parts holds.
pub data Cell (F : Type 0) : Type 0 where
  null_cell : Cell F
  -- An array is a slice: the cell of its elements, where it starts there, and its length.
  array_cell : ℕ → ℕ → ℕ → Cell F
  elements_cell : List (Object F) → Cell F
  -- The keys with their values.
  hash_cell : List (Object F × Object F) → Cell F
  -- Instructions, NumLocals, NumParameters
  function_cell : List ℕ → ℕ → ℕ → Cell F
  -- The same of Fn, and Free
  closure_cell : List ℕ → ℕ → ℕ → List (Object F) → Cell F
  builtin_cell : ℕ → Cell F
  type_cell : String → Cell F
  -- The type's name, Fields
  struct_cell : String → List (Object F) → Cell F
  -- ConcreteName, MethodsIndices
  itab_cell : String → List ℕ → Cell F
  -- Value, and Itab's ConcreteName and MethodsIndices
  interface_cell : Object F → String → List ℕ → Cell F
  -- IsOk, and Value or Error
  result_cell : Bool → Object F → Cell F
  -- IsSome and Value
  option_cell : Bool → Object F → Cell F
  channel_cell : ℕ → Cell F

-- `ip` is one less than `next`: the position of the instruction that comes next. `cl` is the pointer
-- of the closure.
pub record Frame : Type 0 where
  pub cl : ℕ
  pub next : ℕ
  pub base_pointer : ℕ

abbrev pub max_frames : ℕ
max_frames = 1024

-- The frames of a fiber are a list, the current one first; `frameIdx` is its length.
pub record Vm (F : Type 0) : Type 0 where
  pub constants : List (Object F)
  pub scheduler : Scheduler (Object F)
  pub frames : ℕ → List Frame
  pub globals : List (Object F)
  pub cells : ℕ → Cell F
  pub next_cell : ℕ
  -- Where the functions of `object.Builtins` stand.
  pub builtins : List ℕ

module _ {F : Type 0} where
  -- `Null`, at the pointer 2: the booleans have 0 and 1.
  abbrev pub null : Object F
  null = other "Null" 2

  abbrev pub current_fiber : Vm F → Fiber (Object F)
  current_fiber vm = vm.scheduler.heap vm.scheduler.current

  unfoldable pub set_fiber : Fiber (Object F) → Vm F → Vm F
  set_fiber f vm = record vm {
    scheduler = record (vm.scheduler) { heap = update vm.scheduler.heap vm.scheduler.current f };
  }

  abbrev pub current_frames : Vm F → List Frame
  current_frames vm = vm.frames vm.scheduler.current

  unfoldable pub set_frames : List Frame → Vm F → Vm F
  set_frames fs vm = record vm { frames = update vm.frames vm.scheduler.current fs }

  -- What an operator does to the fiber that runs.
  unfoldable pub on_fiber : (Fiber (Object F) → Result (Fiber (Object F))) → Vm F → Result (Vm F)
  unfolding set_fiber
  on_fiber operate vm = do f ← operate (current_fiber vm); ok (set_fiber f vm)

  unfoldable pub push_value : Object F → Vm F → Result (Vm F)
  unfolding on_fiber
  push_value v = on_fiber (push v)

  unfoldable pub pop_value : Vm F → Result (Object F × Vm F)
  unfolding set_fiber
  pop_value vm = do (v, f) ← pop (current_fiber vm); ok (v, set_fiber f vm)

  -- `setSp`
  unfoldable pub set_sp : ℕ → Vm F → Vm F
  unfolding set_fiber
  set_sp sp vm = set_fiber (record (current_fiber vm) { sp = sp }) vm

  -- `stack()[at]`, read and written.
  unfoldable pub stack_at : ℕ → Vm F → Result (Object F)
  stack_at at vm = or_panic (get_elem? (current_fiber vm).stack at)

  unfoldable pub write_stack : ℕ → Object F → Vm F → Result (Vm F)
  unfolding set_fiber
  write_stack at v vm =
      let f = current_fiber vm in
      if ltb at (length f.stack)
      then ok (set_fiber (record f { stack = set f.stack at v }) vm)
      else panic

  -- `currentFrame`, and a change of it.
  unfoldable pub current_frame : Vm F → Result Frame
  current_frame vm = elim (current_frames vm) [ [] ↦ panic | f ∷ fs ↦ ok f ]

  -- `ip = target - 1`
  unfoldable pub jump_to : ℕ → Vm F → Result (Vm F)
  unfolding set_frames
  jump_to target vm = elim (current_frames vm) [
    | [] ↦ panic
    | f ∷ fs ↦ ok (set_frames (record f { next = target } ∷ fs) vm)
  ]

  -- `ip += amount`
  unfoldable pub advance : ℕ → Vm F → Result (Vm F)
  unfolding set_frames
  advance amount vm = elim (current_frames vm) [
    | [] ↦ panic
    | f ∷ fs ↦ ok (set_frames (record f { next = f.next + amount } ∷ fs) vm)
  ]

  -- `pushFrame` and `popFrame`
  unfoldable pub push_frame : Frame → Vm F → Result (Vm F)
  unfolding set_frames
  push_frame f vm =
      if ltb (length (current_frames vm)) max_frames
      then ok (set_frames (f ∷ current_frames vm) vm)
      else panic

  unfoldable pub pop_frame : Vm F → Result (Frame × Vm F)
  unfolding set_frames
  pop_frame vm = elim (current_frames vm) [ [] ↦ panic | f ∷ fs ↦ ok (f, set_frames fs vm) ]

  -- A new object with parts.
  unfoldable pub allocate : String → Cell F → Vm F → Object F × Vm F
  allocate name cell vm = (
    other name vm.next_cell,
    record vm { cells = update vm.cells vm.next_cell cell; next_cell = suc vm.next_cell },
  )

  -- The cell of an object; an object without parts has none.
  unfoldable pub cell_of : Object F → Vm F → Cell F
  cell_of (other name p) vm = vm.cells p
  cell_of _ vm = null_cell

  -- The instructions of the closure that a frame runs.
  unfoldable pub instructions_of : Cell F → Result (List ℕ)
  instructions_of (closure_cell ins locals parameters free) = ok ins
  instructions_of _ = panic
