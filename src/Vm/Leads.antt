-- ===== src/Vm/Leads.antt =====
-- The loop of runFiber round by round: which state a number of rounds leads to (vm/vm.go).
use sydney.Base.{
  ℕ, suc, ◌+◌, ◌≡◌, ap, ◌∙◌, List, ◌∷◌, true, some, length, get_elem?, drop, drop-cons, drop_part,
  ◌++◌, ltb, ◌<◌, String, Result, ok, err, panic, arith,
}
use sydney.Code.{Opcode, byte}
use sydney.Code.RoundTrip.{of_byte-byte}
use sydney.Scheduler.{Fiber}
use sydney.Machine.{Object, FloatOps}
use sydney.Vm.State.{Vm, Frame, current_frames, advance, set_frames, instructions_of, closure_cell}
use sydney.Vm.Calls.{Built}
use sydney.Vm.Run.{execute, execute_byte, round_at, round_of, rounds, after_round}
use sydney.Vm.Shows.{Context, Shows, advance-Shows}

one_add : (b : ℕ) → 1 + b ≡ suc b
one_add b = omega arith

module _ {F : Type 0} where
  -- The frame runs code that goes on with the bytes at its position.
  pub record Continues (g : Context F) (fr : Frame) (bytes : List ℕ) : Type 0 where
    pub ins : List ℕ
    pub locals : ℕ
    pub parameters : ℕ
    pub free : List (Object F)
    pub cell : g.cells fr.cl ≡ closure_cell ins locals parameters free
    pub here : drop fr.next ins ≡ bytes

  pub Continues-after :
      (g : Context F) (fr : Frame) (part rest : List ℕ)
      → Continues g fr (part ++ rest)
      → Continues g (record fr { next = fr.next + length part }) rest
  Continues-after g fr part rest h = record {
    ins = h.ins;
    locals = h.locals;
    parameters = h.parameters;
    free = h.free;
    cell = h.cell;
    here = drop_part fr.next h.ins part rest h.here;
  }

module _ {F : Type 0} (fl : FloatOps F) (built_in : ℕ → List (Object F) → Vm F → Built F) where
  -- A number of rounds takes the one state to the other, whatever budget is left.
  abbrev pub Leads : Vm F → Vm F → Type 0
  Leads vm vm' = (n : ℕ) × ((b : ℕ) → rounds fl built_in (n + b) vm ≡ rounds fl built_in b vm')

  -- A number of rounds ends the loop with a result.
  abbrev pub Stops : Vm F → Result (Vm F) → Type 0
  Stops vm r = (n : ℕ) × ((b : ℕ) → rounds fl built_in (n + b) vm ≡ r)

  pub Leads-refl : (vm : Vm F) → Leads vm vm
  Leads-refl vm = (0, λ b. ap (λ n. rounds fl built_in n vm) (omega arith))

  pub Leads-trans : (vm vm1 vm2 : Vm F) → Leads vm vm1 → Leads vm1 vm2 → Leads vm vm2
  Leads-trans vm vm1 vm2 (n, p) (m, q) =
      (n + m, λ b. ap (λ k. rounds fl built_in k vm) (omega arith) ∙ p (m + b) ∙ q b)

  pub Leads-Stops : (vm vm1 : Vm F) (r : Result (Vm F)) → Leads vm vm1 → Stops vm1 r → Stops vm r
  Leads-Stops vm vm1 r (n, p) (m, q) =
      (n + m, λ b. ap (λ k. rounds fl built_in k vm) (omega arith) ∙ p (m + b) ∙ q b)

  pub Leads-one :
      (vm vm' : Vm F)
      → round_of fl built_in (current_frames vm) vm ≡ some (ok (true, vm'))
      → Leads vm vm'
  unfolding rounds after_round
  Leads-one vm vm' e = (
    1,
    λ b.
        ap (λ k. rounds fl built_in k vm) (one_add b)
        ∙ ap (λ s. after_round fl built_in (rounds fl built_in b) s vm) e,
  )

  pub Stops-err :
      (vm : Vm F) (e : String)
      → round_of fl built_in (current_frames vm) vm ≡ some (err e)
      → Stops vm (err e)
  unfolding rounds after_round
  Stops-err vm m e = (
    1,
    λ b.
        ap (λ k. rounds fl built_in k vm) (one_add b)
        ∙ ap (λ s. after_round fl built_in (rounds fl built_in b) s vm) e,
  )

  pub Stops-panic :
      (vm : Vm F) → round_of fl built_in (current_frames vm) vm ≡ some panic → Stops vm panic
  unfolding rounds after_round
  Stops-panic vm e = (
    1,
    λ b.
        ap (λ k. rounds fl built_in k vm) (one_add b)
        ∙ ap (λ s. after_round fl built_in (rounds fl built_in b) s vm) e,
  )

  round_of_closure :
      (vm : Vm F) (fr : Frame) (fs : List Frame) (ins : List ℕ) (locals parameters : ℕ)
      (free : List (Object F))
      → vm.cells fr.cl ≡ closure_cell ins locals parameters free
      → round_of fl built_in (fr ∷ fs) vm ≡ round_at fl built_in ins fr vm
  unfolding round_of instructions_of
  round_of_closure vm fr fs ins locals parameters free e = rw (e, instructions_of, round_of)

  round_at-eq :
      (vm : Vm F) (fr : Frame) (ins : List ℕ) (op : Opcode) (rest : List ℕ) (vm1 : Vm F)
      → fr.next < length ins
      → get_elem? ins fr.next ≡ some (byte op)
      → drop (fr.next + 1) ins ≡ rest
      → advance 1 vm ≡ ok vm1
      → round_at fl built_in ins fr vm ≡ some (execute fl built_in op rest vm1)
  unfolding round_at execute_byte
  round_at-eq vm fr ins op rest vm1 inside found after moved =
      let test : ltb fr.next (length ins) ≡ true = ground (arith) in
      rw (test, moved, found, of_byte-byte op, after)

  -- A round at an instruction does what the instruction does, one step on.
  pub round_of-fetch :
      (vm : Vm F) (g : Context F) (fr : Frame) (fs : List Frame) (f : Fiber (Object F))
      (op : Opcode) (rest : List ℕ)
      → Shows vm g (fr ∷ fs) f
      → Continues g fr (byte op ∷ rest)
      → let fs' = record fr { next = fr.next + 1 } ∷ fs in
        (round_of fl built_in (current_frames vm) vm
          ≡ some (execute fl built_in op rest (set_frames fs' vm)))
        × Shows (set_frames fs' vm) g fs' f
  round_of-fetch vm g fr fs f op rest s h =
      let (inside, found, after) = drop-cons fr.next h.ins (byte op) rest h.here in
      let (moved, shown) = advance-Shows 1 vm g fr fs f s in
      let cell : vm.cells fr.cl ≡ closure_cell h.ins h.locals h.parameters h.free =
        ap (λ cs. cs fr.cl) s.cells ∙ h.cell in
      (
        ap (λ fs'. round_of fl built_in fs' vm) s.frames
            ∙ round_of_closure vm fr fs h.ins h.locals h.parameters h.free cell
            ∙ round_at-eq vm fr h.ins op rest
                (set_frames (record fr { next = fr.next + 1 } ∷ fs) vm) inside found after moved,
        shown,
      )
