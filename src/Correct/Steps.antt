-- ===== src/Correct/Steps.antt =====
-- What an instruction of a formula does to the machine (vm/vm.go, the loop of `runFiber`).
use sydney.Base.{
  ℕ, ◌+◌, ◌≡◌, refl, ap, ◌∙◌, List, ◌∷◌, Bool, true, false, some, get_elem?, Result, ok, err, panic,
  ◌>>=◌,
}
use sydney.Code.{Opcode, byte}
use sydney.Code.Encode.{read_uint16}
use sydney.Scheduler.{Fiber}
use sydney.Machine.{
  Object, FloatOps, push, native_bool, execute_binary_operation, execute_comparison,
  execute_bang_operator, execute_minus_operator,
}
use sydney.Vm.State.{
  Vm, Frame, null, current_frames, set_fiber, set_frames, on_fiber, advance, push_value,
}
use sydney.Vm.Calls.{Built, go_on}
use sydney.Vm.Run.{execute, round_of}
use sydney.Vm.Shows.{Context, Shows, set_fiber-Shows, on_fiber-err, advance-Shows}
use sydney.Vm.Leads.{Continues, Leads, Stops, Leads-one, Stops-err, Stops-panic, round_of-fetch}
use sydney.Correct.Formula.{Operator, opcode_of, truth_opcode}

module _ {F : Type 0} (fl : FloatOps F) where
  -- The operators, on the fiber.
  abbrev pub operator : Operator → Fiber (Object F) → Result (Fiber (Object F))
  operator Operator.plus = execute_binary_operation fl Opcode.op_add
  operator Operator.sub = execute_binary_operation fl Opcode.op_sub
  operator Operator.times = execute_binary_operation fl Opcode.op_mul
  operator Operator.over = execute_binary_operation fl Opcode.op_div
  operator Operator.modulo = execute_binary_operation fl Opcode.op_modulo
  operator Operator.equal = execute_comparison fl Opcode.op_equal
  operator Operator.not_equal = execute_comparison fl Opcode.op_not_equal
  operator Operator.above = execute_comparison fl Opcode.op_gt
  operator Operator.at_least = execute_comparison fl Opcode.op_gte
  operator Operator.both = execute_comparison fl Opcode.op_and
  operator Operator.either = execute_comparison fl Opcode.op_or

module _ {F : Type 0} (fl : FloatOps F) (built_in : ℕ → List (Object F) → Vm F → Built F) where
  -- The machine comes to the fiber with the frame, or stops with the error or the panic.
  abbrev pub Landed : Vm F → Context F → Frame → List Frame → Result (Fiber (Object F)) → Type 0
  Landed vm g fr fs (ok f) = (vm' : Vm F) × Leads fl built_in vm vm' × Shows vm' g (fr ∷ fs) f
  Landed vm g fr fs (err e) = Stops fl built_in vm (err e)
  Landed vm g fr fs panic = Stops fl built_in vm panic

  landed :
      (vm vm1 : Vm F) (g : Context F) (fr : Frame) (fs : List Frame) (f : Fiber (Object F))
      (m : Result (Fiber (Object F)))
      → Shows vm1 g (fr ∷ fs) f
      → round_of fl built_in (current_frames vm) vm ≡ some (go_on (m >>= λ y. ok (set_fiber y vm1)))
      → Landed vm g fr fs m
  landed vm vm1 g fr fs f (ok f') s e = (
    set_fiber f' vm1,
    Leads-one fl built_in vm (set_fiber f' vm1) e,
    set_fiber-Shows vm1 g (fr ∷ fs) f f' s,
  )
  landed vm vm1 g fr fs f (err x) s e = Stops-err fl built_in vm x e
  landed vm vm1 g fr fs f panic s e = Stops-panic fl built_in vm e

  -- An instruction that works on the fiber alone.
  pub operate-Landed :
      (op : Opcode) (rest : List ℕ) (operate : Fiber (Object F) → Result (Fiber (Object F)))
      → ((vm1 : Vm F) → execute fl built_in op rest vm1 ≡ go_on (on_fiber operate vm1))
      → (vm : Vm F) (g : Context F) (fr : Frame) (fs : List Frame) (f : Fiber (Object F))
      → Shows vm g (fr ∷ fs) f
      → Continues g fr (byte op ∷ rest)
      → Landed vm g (record fr { next = fr.next + 1 }) fs (operate f)
  operate-Landed op rest operate does vm g fr fs f s h =
      let fr' : Frame = record fr { next = fr.next + 1 } in
      let vm1 = set_frames (fr' ∷ fs) vm in
      let (round, shown) = round_of-fetch fl built_in vm g fr fs f op rest s h in
      landed vm vm1 g fr' fs f (operate f) shown
        (round ∙ ap some (does vm1 ∙ ap go_on (on_fiber-err operate vm1 g (fr' ∷ fs) f shown)))

  execute-constant :
      (n : ℕ) (rest : List ℕ) (v : Object F) (vm1 vm2 : Vm F)
      → read_uint16 rest ≡ ok n
      → advance 2 vm1 ≡ ok vm2
      → get_elem? vm2.constants n ≡ some v
      → execute fl built_in Opcode.op_constant rest vm1 ≡ go_on (on_fiber (push v) vm2)
  unfolding execute push_value
  execute-constant n rest v vm1 vm2 operand moved there = rw (operand, moved, there)

  pub constant-Landed :
      (n : ℕ) (rest : List ℕ) (v : Object F) (vm : Vm F) (g : Context F) (fr : Frame)
      (fs : List Frame) (f : Fiber (Object F))
      → read_uint16 rest ≡ ok n
      → get_elem? g.constants n ≡ some v
      → Shows vm g (fr ∷ fs) f
      → Continues g fr (byte Opcode.op_constant ∷ rest)
      → Landed vm g (record fr { next = fr.next + 1 + 2 }) fs (push v f)
  constant-Landed n rest v vm g fr fs f operand there s h =
      let fr' : Frame = record fr { next = fr.next + 1 } in
      let fr'' : Frame = record fr { next = fr.next + 1 + 2 } in
      let vm1 = set_frames (fr' ∷ fs) vm in
      let vm2 = set_frames (fr'' ∷ fs) vm1 in
      let (round, shown) = round_of-fetch fl built_in vm g fr fs f Opcode.op_constant rest s h in
      let (moved, shown') = advance-Shows 2 vm1 g fr' fs f shown in
      landed vm vm2 g fr'' fs f (push v f) shown' (
        round
        ∙ ap some (
            execute-constant n rest v vm1 vm2 operand moved
              (ap (λ cs. get_elem? cs n) shown'.constants ∙ there)
            ∙ ap go_on (on_fiber-err (push v) vm2 g (fr'' ∷ fs) f shown')))

  pub execute-operator :
      (o : Operator) (rest : List ℕ) (vm : Vm F)
      → execute fl built_in (opcode_of o) rest vm ≡ go_on (on_fiber (operator fl o) vm)
  unfolding execute
  execute-operator Operator.plus rest vm = refl
  execute-operator _ rest vm = refl

  pub execute-truth :
      (b : Bool) (rest : List ℕ) (vm : Vm F)
      → execute fl built_in (truth_opcode b) rest vm ≡ go_on (on_fiber (push (native_bool b)) vm)
  unfolding execute push_value
  execute-truth true rest vm = refl
  execute-truth false rest vm = refl

  pub execute-null :
      (rest : List ℕ) (vm : Vm F)
      → execute fl built_in Opcode.op_null rest vm ≡ go_on (on_fiber (push null) vm)
  unfolding execute push_value
  execute-null rest vm = refl

  pub execute-bang :
      (rest : List ℕ) (vm : Vm F)
      → execute fl built_in Opcode.op_bang rest vm ≡ go_on (on_fiber (execute_bang_operator fl) vm)
  unfolding execute
  execute-bang rest vm = refl

  pub execute-minus :
      (rest : List ℕ) (vm : Vm F)
      → execute fl built_in Opcode.op_minus rest vm
        ≡ go_on (on_fiber (execute_minus_operator fl) vm)
  unfolding execute
  execute-minus rest vm = refl
