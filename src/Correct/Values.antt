-- ===== src/Correct/Values.antt =====
-- compiler/compiler.go and vm/vm.go: the code of a formula in the machine, by induction on the
-- formula.
use mathlib.Core.Path.{subst}
use sydney.Base.{
  ℕ, suc, ◌+◌, ◌/◌, ◌%◌, ◌<◌, ◌≤◌, ◌≡◌, ap, ◌∙◌, List, ◌∷◌, ◌++◌, length, length-append, get_elem?,
  some, drop, drop_part, append_assoc, map, Result, ok, ◌>>=◌, arith,
}
use sydney.Code.{Opcode}
use sydney.Code.Encode.{read_uint16}
use sydney.Scheduler.{Fiber}
use sydney.Machine.{Object, FloatOps, push}
use sydney.Vm.State.{Vm, Frame, on_fiber}
use sydney.Vm.Calls.{Built, go_on}
use sydney.Vm.Run.{execute}
use sydney.Vm.Shows.{Context, Shows}
use sydney.Vm.Leads.{Continues, Continues-after}
use sydney.Correct.Formula.{
  Formula, Operator, plain, opcode_of, atoms, code_of, depth, larger, meaning, value_of, eval,
}
use sydney.Correct.Emitted.{map_append, length-map}
use sydney.Correct.Runs.{Reaches, Reaches-then, Room, operand-Reaches, operands-Reaches}

larger_left : (m n : ℕ) → m ≤ larger m n
larger_left m n = ground arith

larger_right : (m n : ℕ) → n ≤ larger m n
larger_right m n = ground arith

pub two_bytes :
    (n : ℕ) (rest : List ℕ) → n < 65536 → read_uint16 ((n / 256 % 256) ∷ (n % 256) ∷ rest) ≡ ok n
unfolding read_uint16
two_bytes n rest small = ap ok (ground arith)

depth_positive : (e : Formula) → 1 ≤ depth e
unfolding depth
depth_positive (Formula.opposite e) = depth_positive e
depth_positive (Formula.negative e) = depth_positive e
depth_positive (Formula.binary o l r) = omega (arith, larger_right (depth l) (suc (depth r)))
depth_positive (Formula.turned o l r) = omega (arith, larger_right (depth r) (suc (depth l)))
depth_positive _ = omega arith

module _ {F : Type 0} (fl : FloatOps F) (of_bits : ℕ → F)
    (built_in : ℕ → List (Object F) → Vm F → Built F) where
  -- The constants from a number on are those of the formula.
  abbrev pub Loaded : Context F → ℕ → Formula → List (Object F) → Type 0
  Loaded g n e more = drop n g.constants ≡ map (value_of fl of_bits) (atoms e) ++ more

  abbrev pub Correct : Formula → Type 0
  Correct e =
      (n : ℕ) (more : List (Object F)) (post : List ℕ) (vm : Vm F) (g : Context F) (fr : Frame)
      (fs : List Frame) (f : Fiber (Object F))
      → n + length (atoms e) ≤ 65536
      → Loaded g n e more
      → Room fl built_in f (depth e)
      → Shows vm g (fr ∷ fs) f
      → Continues g fr (code_of n e ++ post)
      → Reaches fl built_in vm g (record fr { next = fr.next + length (code_of n e) }) fs f
          (eval fl of_bits e)

  pub at_place :
      (vm : Vm F) (g : Context F) (fr : Frame) (fs : List Frame) (f : Fiber (Object F))
      (m : Result (Object F)) (k k' : ℕ)
      → k ≡ k'
      → Reaches fl built_in vm g (record fr { next = k }) fs f m
      → Reaches fl built_in vm g (record fr { next = k' }) fs f m
  at_place vm g fr fs f m k k' e =
      subst (λ n. Reaches fl built_in vm g (record fr { next = n }) fs f m) e

  one-Room :
      (f : Fiber (Object F)) (e : Formula) → Room fl built_in f (depth e) → Room fl built_in f 1
  one-Room f e (room, full) = (omega (arith, room, depth_positive e), full)

  pub run-operand :
      (e : Formula) (op : Opcode) (operate : Fiber (Object F) → Result (Fiber (Object F)))
      (give : Object F → Result (Object F))
      → ((rest : List ℕ) (vm : Vm F) → execute fl built_in op rest vm ≡ go_on (on_fiber operate vm))
      → ((f : Fiber (Object F)) (n : ℕ) (v : Object F)
          → f.sp ≡ suc n
          → get_elem? f.stack n ≡ some v
          → operate f ≡ (give v >>= λ w. push w (record f { sp = n })))
      → Correct e
      → (n : ℕ) (more : List (Object F)) (post : List ℕ) (vm : Vm F) (g : Context F) (fr : Frame)
        (fs : List Frame) (f : Fiber (Object F))
      → n + length (atoms e) ≤ 65536
      → Loaded g n e more
      → Room fl built_in f (depth e)
      → Shows vm g (fr ∷ fs) f
      → Continues g fr (code_of n e ++ plain op ++ post)
      → Reaches fl built_in vm g
          (record fr { next = fr.next + length (code_of n e ++ plain op) })
          fs
          f
          (eval fl of_bits e >>= give)
  run-operand e op operate give runs gives correct n more post vm g fr fs f small loaded room s h =
      let code = code_of n e in
      let fr1 : Frame = record fr { next = fr.next + length code } in
      let h1 : Continues g fr (code ++ (plain op ++ post)) =
        subst (Continues g fr) (append_assoc code (plain op) post) h in
      at_place vm g fr fs f (eval fl of_bits e >>= give) (fr.next + length code + 1)
        (fr.next + length (code ++ plain op)) (omega (arith, length-append code (plain op)))
        (Reaches-then fl built_in vm g fr1 (record fr1 { next = fr1.next + 1 }) fs f f
          (eval fl of_bits e) give
          (correct n more (plain op ++ post) vm g fr fs f small loaded room s h1)
          (λ v w f' s' p.
            operand-Reaches fl built_in op operate give runs gives w g fr1 fs f f' v post
              (one-Room f e room) p s' (Continues-after g fr code (plain op ++ post) h1)))

  pub run-operands :
      (e e' : Formula) (o : Operator)
      → Correct e
      → Correct e'
      → (n : ℕ) (more : List (Object F)) (post : List ℕ) (vm : Vm F) (g : Context F) (fr : Frame)
        (fs : List Frame) (f : Fiber (Object F))
      → n + length (atoms e ++ atoms e') ≤ 65536
      → drop n g.constants ≡ map (value_of fl of_bits) (atoms e ++ atoms e') ++ more
      → Room fl built_in f (larger (depth e) (suc (depth e')))
      → Shows vm g (fr ∷ fs) f
      → Continues g fr
          (code_of n e ++ code_of (n + length (atoms e)) e' ++ plain (opcode_of o) ++ post)
      → Reaches fl built_in vm g
          (record fr {
            next =
                fr.next
                + length (code_of n e ++ code_of (n + length (atoms e)) e' ++ plain (opcode_of o));
          })
          fs
          f
          (eval fl of_bits e >>= λ a. eval fl of_bits e' >>= λ b. meaning fl o a b)
  run-operands e e' o correct correct' n more post vm g fr fs f small loaded (room, full) s h =
      let xs = code_of n e in
      let ys = code_of (n + length (atoms e)) e' in
      let op = plain (opcode_of o) in
      let value = value_of fl of_bits in
      let fr1 : Frame = record fr { next = fr.next + length xs } in
      let fr2 : Frame = record fr { next = fr.next + length xs + length ys } in
      let h0 : Continues g fr (xs ++ (ys ++ op ++ post)) =
        subst (Continues g fr)
          (ap (λ zs. zs ++ post) (append_assoc xs ys op) ∙ append_assoc xs (ys ++ op) post) h in
      let h1 : Continues g fr1 (ys ++ (op ++ post)) =
        subst (Continues g fr1) (append_assoc ys op post)
          (Continues-after g fr xs (ys ++ op ++ post) h0) in
      let loaded1 : drop n g.constants ≡ map value (atoms e) ++ (map value (atoms e') ++ more) =
        loaded
        ∙ ap (λ vs. vs ++ more) (map_append value (atoms e) (atoms e'))
        ∙ append_assoc (map value (atoms e)) (map value (atoms e')) more in
      let loaded2 : drop (n + length (atoms e)) g.constants ≡ map value (atoms e') ++ more =
        subst (λ k. drop (n + k) g.constants ≡ map value (atoms e') ++ more)
          (length-map value (atoms e))
          (drop_part n g.constants (map value (atoms e)) (map value (atoms e') ++ more) loaded1) in
      at_place vm g fr fs f
        (eval fl of_bits e >>= λ a. eval fl of_bits e' >>= λ b. meaning fl o a b)
        (fr.next + length xs + length ys + 1) (fr.next + length (xs ++ ys ++ op))
        (omega (arith, length-append (xs ++ ys) op, length-append xs ys))
        (Reaches-then fl built_in vm g fr1 (record fr2 { next = fr2.next + 1 }) fs f f
          (eval fl of_bits e) (λ a. eval fl of_bits e' >>= λ b. meaning fl o a b)
          (correct n (map value (atoms e') ++ more) (ys ++ op ++ post) vm g fr fs f
            (omega (arith, small, length-append (atoms e) (atoms e'))) loaded1
            (omega (arith, room, larger_left (depth e) (suc (depth e'))), full) s h0)
          (λ a w f1 s1 p1.
            Reaches-then fl built_in w g fr2 (record fr2 { next = fr2.next + 1 }) fs f1 f
              (eval fl of_bits e') (meaning fl o a)
              (correct' (n + length (atoms e)) more (op ++ post) w g fr1 fs f1
                (omega (arith, small, length-append (atoms e) (atoms e'))) loaded2
                (
                  omega (arith, room, p1.above, larger_right (depth e) (suc (depth e'))),
                  p1.size ∙ full,
                )
                s1 h1)
              (λ b w2 f2 s2 p2.
                operands-Reaches fl built_in o w2 g fr2 fs f f1 f2 a b post
                  (omega (arith, room, larger_right (depth e) (suc (depth e'))), full) p1 p2 s2
                  (Continues-after g fr1 ys (op ++ post) h1))))
