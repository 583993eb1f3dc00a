-- ===== src/Correct/Refines.antt =====
-- compiler/compiler.go, `Compile`, and vm/vm.go, `runFiber`: a formula, compiled and run.
use sydney.Base.{
  ℕ, ◌+◌, ◌<◌, ◌≤◌, ◌≡◌, refl, sym, ap, ◌∙◌, List, [], ◌∷◌, ◌++◌, length, length-append, map, drop,
  drop-cons, drop-append, ok, append_assoc, arith,
}
use sydney.Code.{Opcode, definition}
use sydney.Scheduler.{Fiber, stack_size}
use sydney.Machine.{
  Object, FloatOps, push, native_bool, bang, minus, execute_bang_operator, execute_minus_operator,
}
use sydney.Vm.State.{Vm, Frame, null, closure_cell}
use sydney.Vm.Calls.{Built}
use sydney.Vm.Shows.{Context, Shows}
use sydney.Vm.Leads.{Continues}
use sydney.Compiler.State.{Compiler, Const}
use sydney.Compiler.Compile.{compile}
use sydney.Correct.Formula.{
  Atom, instruction, Formula, atoms, code_of, const_of, expr_of, converse, depth, value_of, eval,
  truth_opcode,
}
use sydney.Correct.Emitted.{Does-Emits, compile-Does, map_append, length-map}
use sydney.Correct.Steps.{
  operate-Landed, constant-Landed, execute-truth, execute-null, execute-bang, execute-minus,
}
use sydney.Correct.Stack.{bang-meaning, minus-meaning}
use sydney.Correct.Runs.{Reaches, Room, push-Reaches}
use sydney.Correct.Values.{Correct, Loaded, two_bytes, at_place, run-operand, run-operands}

placed_part :
    (at : ℕ) (before after code post : List ℕ)
    → at ≡ length before
    → after ≡ before ++ code
    → drop at (after ++ post) ≡ code ++ post
placed_part at before after code post here written =
    ap (λ k. drop k (after ++ post)) here
    ∙ ap (λ is. drop (length before) (is ++ post)) written
    ∙ ap (drop (length before)) (append_assoc before code post)
    ∙ drop-append before (code ++ post)

module _ {F : Type 0} (fl : FloatOps F) (of_bits : ℕ → F)
    (built_in : ℕ → List (Object F) → Vm F → Built F) where
  run-constant :
      (n : ℕ) (v : Object F) (more : List (Object F)) (post : List ℕ) (vm : Vm F) (g : Context F)
      (fr : Frame) (fs : List Frame) (f : Fiber (Object F))
      → n < 65536
      → drop n g.constants ≡ v ∷ more
      → Room fl built_in f 1
      → Shows vm g (fr ∷ fs) f
      → Continues g fr (instruction Opcode.op_constant (n ∷ []) ++ post)
      → Reaches fl built_in vm g (record fr { next = fr.next + 3 }) fs f (ok v)
  unfolding definition
  run-constant n v more post vm g fr fs f small loaded room s h =
      let (inside, there, after) = drop-cons n g.constants v more loaded in
      at_place fl of_bits built_in vm g fr fs f (ok v) (fr.next + 1 + 2) (fr.next + 3) (omega arith)
        (push-Reaches fl built_in vm g (record fr { next = fr.next + 1 + 2 }) fs f v room
          (constant-Landed fl built_in n _ v vm g fr fs f (two_bytes n post small) there s h))

  -- From any machine whose fiber is at the code of a formula, whose constants are the formula's and
  -- whose stack has room, the loop of `runFiber` comes to the end of the code with the formula's value
  -- on top of an otherwise unchanged stack, or it stops with the formula's error or panic.
  pub run-code : (e : Formula) → Correct fl of_bits built_in e
  unfolding code_of atoms eval depth definition
  run-code (Formula.literal a) n more post vm g fr fs f small loaded room s h =
      run-constant n (value_of fl of_bits a) more post vm g fr fs f (omega (arith, small)) loaded
        room s h
  run-code (Formula.truth b) n more post vm g fr fs f small loaded room s h =
      push-Reaches fl built_in vm g (record fr { next = fr.next + 1 }) fs f (native_bool b) room
        (operate-Landed fl built_in (truth_opcode b) post (push (native_bool b))
          (execute-truth fl built_in b post) vm g fr fs f s h)
  run-code Formula.nothing n more post vm g fr fs f small loaded room s h =
      push-Reaches fl built_in vm g (record fr { next = fr.next + 1 }) fs f null room
        (operate-Landed fl built_in Opcode.op_null post (push null) (execute-null fl built_in post)
          vm g fr fs f s h)
  run-code (Formula.opposite e) n more post vm g fr fs f small loaded room s h =
      run-operand fl of_bits built_in e Opcode.op_bang (execute_bang_operator fl)
        (λ v. ok (native_bool (bang fl v))) (execute-bang fl built_in) (bang-meaning fl)
        (run-code e) n more post vm g fr fs f small loaded room s h
  run-code (Formula.negative e) n more post vm g fr fs f small loaded room s h =
      run-operand fl of_bits built_in e Opcode.op_minus (execute_minus_operator fl) (minus fl)
        (execute-minus fl built_in) (minus-meaning fl) (run-code e) n more post vm g fr fs f small
        loaded room s h
  run-code (Formula.binary o l r) n more post vm g fr fs f small loaded room s h =
      run-operands fl of_bits built_in l r o (run-code l) (run-code r) n more post vm g fr fs f
        small loaded room s h
  run-code (Formula.turned t l r) n more post vm g fr fs f small loaded room s h =
      run-operands fl of_bits built_in r l (converse t) (run-code r) (run-code l) n more post vm g
        fr fs f small loaded room s h

  -- What the machine makes of the compiler's constants.
  abbrev pub Loads : (Const → Object F) → Type 0
  Loads load = (a : Atom) → load (const_of a) ≡ value_of fl of_bits a

  load_atoms :
      (load : Const → Object F)
      → Loads load
      → (xs : List Atom) → map load (map const_of xs) ≡ map (value_of fl of_bits) xs
  load_atoms load l [] = refl
  load_atoms load l (a ∷ xs) = rw (l a, load_atoms load l xs) refl

  -- The constants that a part of a compilation added, and the code that it wrote.
  loaded_part :
      (load : Const → Object F) (l : Loads load) (c c' : Compiler) (xs : List Atom)
      (constants more : List (Object F))
      → c'.constants ≡ c.constants ++ map const_of xs
      → constants ≡ map load c'.constants ++ more
      → drop (length c.constants) constants ≡ map (value_of fl of_bits) xs ++ more
  loaded_part load l c c' xs constants more added whole =
      let old = map load c.constants in
      let new = map load (map const_of xs) ++ more in
      let split : constants ≡ old ++ new =
        whole
        ∙ ap (λ ds. map load ds ++ more) added
        ∙ ap (λ vs. vs ++ more) (map_append load c.constants (map const_of xs))
        ∙ append_assoc old (map load (map const_of xs)) more in
      ap (drop (length c.constants)) split
      ∙ ap (λ k. drop k (old ++ new)) (sym (length-map load c.constants))
      ∙ drop-append old new
      ∙ ap (λ vs. vs ++ more) (load_atoms load l xs)

  -- If the compiler makes code of a formula whose constants get numbers that fit two bytes, and a
  -- machine stands at this code, with the compiler's constants loaded and room on its stack, then the
  -- loop of `runFiber` comes to the end of the code with the formula's value on top of the stack, which
  -- is unchanged below, or stops with the formula's error or panic.
  pub compile-Reaches :
      (e : Formula) (c c' : Compiler) (load : Const → Object F) (more : List (Object F))
      (post : List ℕ) (locals parameters : ℕ) (free : List (Object F)) (vm : Vm F) (g : Context F)
      (fr : Frame) (fs : List Frame) (f : Fiber (Object F))
      → length c.constants + length (atoms e) ≤ 65536
      → compile (expr_of e) c ≡ ok c'
      → Loads load
      → g.constants ≡ map load c'.constants ++ more
      → g.cells fr.cl ≡ closure_cell (c'.scope.instructions ++ post) locals parameters free
      → fr.next ≡ length c.scope.instructions
      → f.sp + depth e ≤ stack_size
      → length f.stack ≡ stack_size
      → Shows vm g (fr ∷ fs) f
      → Reaches fl built_in vm g
          (record fr { next = length c'.scope.instructions })
          fs
          f
          (eval fl of_bits e)
  compile-Reaches e c c' load more post locals parameters free vm g fr fs f small compiled loads
        constants cell at room full s =
      let n = length c.constants in
      let code = code_of n e in
      let m =
        Does-Emits (compile (expr_of e)) c c' code (map const_of (atoms e)) compiled
          (compile-Does e c small) in
      let loaded : Loaded fl of_bits built_in g n e more =
        loaded_part load loads c c' (atoms e) g.constants more m.added constants in
      let h : Continues g fr (code ++ post) = record {
        ins = c'.scope.instructions ++ post;
        locals = locals;
        parameters = parameters;
        free = free;
        cell = cell;
        here =
            placed_part fr.next c.scope.instructions c'.scope.instructions code post at m.written;
      } in
      at_place fl of_bits built_in vm g fr fs f (eval fl of_bits e) (fr.next + length code)
        (length c'.scope.instructions)
        (omega (arith, at, ap length m.written, length-append c.scope.instructions code))
        (run-code e n more post vm g fr fs f small loaded (room, full) s h)
