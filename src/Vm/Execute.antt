-- ===== src/Vm/Execute.antt =====
-- vm/vm.go: `runFiber`, the loop over the instructions of the fiber that runs, and what each
-- instruction does.
use sydney.Base.{
  ℕ, suc, ◌+◌, ◌-◌, String, List, [], ◌∷◌, Bool, false, length, get_elem?, set, drop, ltb, str_eq,
  if◌then◌else◌, Result, ok, err, panic, ◌>>=◌, or_panic,
}
use sydney.Code.Encode.{read_uint8, read_uint16}
use sydney.Scheduler.{Fiber, new_fiber, add, register_channel, next_channel_id, update}
use sydney.Machine.{
  Object, integer, string, float, boolean, byte_value, other, native_bool, is_truthy,
}
use sydney.Machine.Word.{is_negative}
use sydney.Vm.State.{
  Vm, Cell, null, current_frames, push_value, pop_value, set_sp, stack_at, write_stack,
  current_frame, jump_to, advance, pop_frame, allocate, closure_cell, interface_cell, itab_cell,
  result_cell, option_cell, struct_cell, type_cell, channel_cell,
}
use sydney.Vm.Collections.{set_cell}
use sydney.Vm.Calls.{Stepped, go_on, pop_all}

module _ {F : Type 0} where
  -- The operand bytes behind the opcode, and a step over them.
  abbrev pub one : List ℕ → Vm F → (ℕ → Vm F → Stepped F) → Stepped F
  one bytes vm act = read_uint8 bytes >>= λ n. advance 1 vm >>= act n

  abbrev pub two : List ℕ → Vm F → (ℕ → Vm F → Stepped F) → Stepped F
  two bytes vm act = read_uint16 bytes >>= λ n. advance 2 vm >>= act n

  -- An operand of two bytes and one of one byte.
  abbrev pub three : List ℕ → Vm F → (ℕ → ℕ → Vm F → Stepped F) → Stepped F
  three bytes vm act =
      read_uint16 bytes >>= λ n. read_uint8 (drop 2 bytes) >>= λ k. advance 3 vm >>= act n k

  -- `OpJumpNotTruthy`, once its operand is read.
  unfoldable pub jump_not_truthy : ℕ → Vm F → Stepped F
  jump_not_truthy target vm = do
    (condition, vm') ← pop_value vm
    go_on (if is_truthy condition then ok vm' else jump_to target vm')

  -- `OpSetImmutableGlobal` and `OpSetMutableGlobal`; the globals are as many as an operand can name.
  unfoldable pub set_global : ℕ → Vm F → Result (Vm F)
  set_global at vm = do
    (v, vm') ← pop_value vm
    if ltb at (length vm'.globals)
        then ok (record vm' { globals = set vm'.globals at v })
        else panic

  -- The result of a return: the frame goes, its function, arguments and locals leave the stack, and
  -- the value takes their place. Below the main program there is no place.
  unfoldable pub return_with : Object F → Vm F → Stepped F
  return_with v vm = do
    (frame, vm1) ← pop_frame vm
    vm2 ←
        (if ltb 0 frame.base_pointer
          then push_value v (set_sp (frame.base_pointer - 1) vm1)
          else panic)
    ok (ltb 0 (length (current_frames vm2)), vm2)

  unfoldable pub set_local : ℕ → Vm F → Result (Vm F)
  set_local at vm = do
    frame ← current_frame vm
    (v, vm') ← pop_value vm
    write_stack (frame.base_pointer + at) v vm'

  unfoldable pub get_local : ℕ → Vm F → Result (Vm F)
  get_local at vm = do
    frame ← current_frame vm
    v ← stack_at (frame.base_pointer + at) vm
    push_value v vm

  -- `OpGetFree`
  unfoldable pub push_free : Cell F → ℕ → Vm F → Result (Vm F)
  push_free (closure_cell ins locals parameters free) at vm =
      or_panic (get_elem? free at) >>= λ v. push_value v vm
  push_free _ at vm = panic

  -- `OpStruct`
  unfoldable pub make_struct : Cell F → ℕ → Vm F → Result (Vm F)
  make_struct (type_cell name) count vm = do
    (fields, vm1) ← pop_all count [] vm
    let (made, vm2) = allocate "Struct" (struct_cell name fields) vm1
    push_value made vm2
  make_struct _ count vm = panic

  -- `OpGetField` and `OpSetField`, of what they popped.
  unfoldable pub get_field : Cell F → ℕ → Vm F → Result (Vm F)
  get_field (struct_cell name fields) at vm =
      or_panic (get_elem? fields at) >>= λ v. push_value v vm
  get_field _ at vm = err "expected struct"

  unfoldable pub set_field : Cell F → Object F → ℕ → Object F → Vm F → Result (Vm F)
  set_field (struct_cell name fields) (other kind p) at value vm =
      if ltb at (length fields)
      then ok (set_cell p (struct_cell name (set fields at value)) vm)
      else panic
  set_field _ left at value vm = err "expected struct"

  -- `OpBox`
  unfoldable pub box : Cell F → Object F → Vm F → Result (Vm F)
  box (itab_cell name methods) value vm =
      let (boxed, vm') = allocate "Interface" (interface_cell value name methods) vm in
      push_value boxed vm'
  box _ value vm = panic

  -- `OpResultTag` and `OpResultValue`: nothing is pushed for another object.
  unfoldable pub push_tag : Cell F → Vm F → Result (Vm F)
  push_tag (result_cell is_ok v) vm = push_value (native_bool is_ok) vm
  push_tag (option_cell is_some v) vm = push_value (native_bool is_some) vm
  push_tag _ vm = ok vm

  unfoldable pub push_content : Cell F → Vm F → Result (Vm F)
  push_content (result_cell is_ok v) vm = push_value v vm
  push_content (option_cell is_some v) vm = push_value v vm
  push_content _ vm = ok vm

  -- `OpMatchType`
  abbrev matches_basic : String → Object F → Bool
  matches_basic name (integer n) = str_eq name "int"
  matches_basic name (float x) = str_eq name "float"
  matches_basic name (string s) = str_eq name "string"
  matches_basic name (boolean p b) = str_eq name "bool"
  matches_basic name (byte_value n) = str_eq name "byte"
  matches_basic name (other kind p) = false

  unfoldable pub matches_type : String → Cell F → Object F → Bool
  matches_type name (interface_cell value concrete methods) obj = str_eq concrete name
  matches_type name _ obj = matches_basic name obj

  abbrev pub unboxed : Cell F → Object F → Object F
  unboxed (interface_cell value concrete methods) obj = value
  unboxed _ obj = obj

  -- Objects written from a place on.
  unfoldable pub put_from : ℕ → List (Object F) → List (Object F) → List (Object F)
  put_from at [] stack = stack
  put_from at (v ∷ vs) stack = put_from (suc at) vs (set stack at v)

  -- `OpSpawn`, of the closure with its locals: a fiber with the closure and the arguments on its stack.
  unfoldable pub spawn : ℕ → Cell F → Object F → List (Object F) → Vm F → Result (Vm F)
  unfolding new_fiber add put_from
  spawn id (closure_cell ins locals parameters free) (other kind p) arguments vm =
      let fresh = new_fiber null in
      let fiber : Fiber (Object F) = record fresh {
        stack = put_from 0 (other kind p ∷ arguments) fresh.stack;
        sp = 1 + locals;
      } in
      ok (record vm {
        scheduler = add id (record (vm.scheduler) { heap = update vm.scheduler.heap id fiber });
        frames = update vm.frames id ((record { cl = p; next = 0; base_pointer = 1 }) ∷ []);
      })
  spawn id _ callee arguments vm = panic

  -- `OpMakeChannel`, `OpSend` and `OpReceive`, of what they popped. A negative capacity makes Go's
  -- `make` panic.
  unfoldable pub make_channel : Object F → Vm F → Result (Vm F)
  make_channel (integer capacity) vm =
      let (id, s) = next_channel_id vm.scheduler in
      let (made, vm') =
        allocate "Channel" (channel_cell id)
          (record vm { scheduler = register_channel null id capacity s }) in
      if is_negative capacity then panic else push_value made vm'
  make_channel _ vm = panic

  abbrev pub channel_id : Cell F → Result ℕ
  channel_id (channel_cell id) = ok id
  channel_id _ = panic
