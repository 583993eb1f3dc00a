-- ===== src/Correct/Runs.antt =====
-- compiler/compiler.go and vm/vm.go: the code of a formula in the machine.
use mathlib.Core.Path.{subst}
use sydney.Base.{
  ℕ, suc, ◌+◌, ◌≤◌, ◌≡◌, refl, ◌∙◌, List, ◌∷◌, some, length, get_elem?, Result, ok, err, panic,
  ◌>>=◌, arith,
}
use sydney.Code.{Opcode, byte}
use sydney.Scheduler.{Fiber, stack_size}
use sydney.Machine.{Object, FloatOps, push}
use sydney.Vm.State.{Vm, Frame, on_fiber}
use sydney.Vm.Calls.{Built, go_on}
use sydney.Vm.Run.{execute}
use sydney.Vm.Shows.{Context, Shows}
use sydney.Vm.Leads.{Continues, Leads, Stops, Leads-trans, Leads-Stops}
use sydney.Correct.Formula.{Operator, opcode_of, meaning}
use sydney.Correct.Steps.{Landed, operator, operate-Landed, execute-operator}
use sydney.Correct.Stack.{Pushed, Pushed-over, under_two, operator-meaning}

module _ {F : Type 0} (fl : FloatOps F) (built_in : ℕ → List (Object F) → Vm F → Built F) where
  -- The machine comes to the frame with the value on top of the fiber's stack, or stops with the error
  -- or the panic.
  abbrev pub Reaches :
      Vm F → Context F → Frame → List Frame → Fiber (Object F) → Result (Object F) → Type 0
  Reaches vm g fr fs f (ok v) =
      (f' : Fiber (Object F)) × Pushed f v f' × Landed fl built_in vm g fr fs (ok f')
  Reaches vm g fr fs f (err e) = Stops fl built_in vm (err e)
  Reaches vm g fr fs f panic = Stops fl built_in vm panic

  Leads-Reaches :
      (vm vm' : Vm F) (g : Context F) (fr : Frame) (fs : List Frame) (f : Fiber (Object F))
      (m : Result (Object F))
      → Leads fl built_in vm vm'
      → Reaches vm' g fr fs f m
      → Reaches vm g fr fs f m
  Leads-Reaches vm vm' g fr fs f (ok v) l (f', p, (w, l', s)) =
      (f', p, (w, Leads-trans fl built_in vm vm' w l l', s))
  Leads-Reaches vm vm' g fr fs f (err e) l r = Leads-Stops fl built_in vm vm' (err e) l r
  Leads-Reaches vm vm' g fr fs f panic l r = Leads-Stops fl built_in vm vm' panic l r

  pub Reaches-then :
      (vm : Vm F) (g : Context F) (fr fr' : Frame) (fs : List Frame) (f h : Fiber (Object F))
      (m : Result (Object F)) (k : Object F → Result (Object F))
      → Reaches vm g fr fs f m
      → ((v : Object F) (w : Vm F) (f' : Fiber (Object F))
          → Shows w g (fr ∷ fs) f'
          → Pushed f v f'
          → Reaches w g fr' fs h (k v))
      → Reaches vm g fr' fs h (m >>= k)
  Reaches-then vm g fr fr' fs f h (ok v) k (f', p, (w, l, s)) next =
      Leads-Reaches vm w g fr' fs h (k v) l (next v w f' s p)
  Reaches-then vm g fr fr' fs f h (err e) k r next = r
  Reaches-then vm g fr fr' fs f h panic k r next = r

  -- An operator that pushes what it gives.
  Landed-Reaches :
      (vm : Vm F) (g : Context F) (fr : Frame) (fs : List Frame) (f h : Fiber (Object F))
      (m : Result (Object F))
      → ((v : Object F) → (f' : Fiber (Object F)) × (push v h ≡ ok f') × Pushed f v f')
      → Landed fl built_in vm g fr fs (m >>= λ v. push v h)
      → Reaches vm g fr fs f m
  Landed-Reaches vm g fr fs f h (ok v) room l =
      let (f', e, p) = room v in (f', p, subst (Landed fl built_in vm g fr fs) e l)
  Landed-Reaches vm g fr fs f h (err e) room l = l
  Landed-Reaches vm g fr fs f h panic room l = l

  abbrev pub Room : Fiber (Object F) → ℕ → Type 0
  Room f n = (f.sp + n ≤ stack_size) × (length f.stack ≡ stack_size)

  pub push-Reaches :
      (vm : Vm F) (g : Context F) (fr : Frame) (fs : List Frame) (f : Fiber (Object F))
      (v : Object F)
      → Room f 1
      → Landed fl built_in vm g fr fs (push v f)
      → Reaches vm g fr fs f (ok v)
  push-Reaches vm g fr fs f v (room, full) =
      Landed-Reaches vm g fr fs f f (ok v)
        (λ w. Pushed-over f f w (omega (arith, room)) full refl (λ i lt. refl) refl)

  -- The two operators of one operand, and those of two.
  pub operand-Reaches :
      (op : Opcode) (operate : Fiber (Object F) → Result (Fiber (Object F)))
      (give : Object F → Result (Object F))
      → ((rest : List ℕ) (vm : Vm F) → execute fl built_in op rest vm ≡ go_on (on_fiber operate vm))
      → ((f : Fiber (Object F)) (n : ℕ) (v : Object F)
          → f.sp ≡ suc n
          → get_elem? f.stack n ≡ some v
          → operate f ≡ (give v >>= λ w. push w (record f { sp = n })))
      → (vm : Vm F) (g : Context F) (fr : Frame) (fs : List Frame) (f f' : Fiber (Object F))
        (v : Object F) (rest : List ℕ)
      → Room f 1
      → Pushed f v f'
      → Shows vm g (fr ∷ fs) f'
      → Continues g fr (byte op ∷ rest)
      → Reaches vm g (record fr { next = fr.next + 1 }) fs f (give v)
  operand-Reaches op operate give runs gives vm g fr fs f f' v rest (room, full) p s h =
      Landed-Reaches vm g (record fr { next = fr.next + 1 }) fs f (record f' { sp = f.sp }) (give v)
        (λ w. Pushed-over f f' w (omega (arith, room)) full p.size p.below p.state)
        (subst (Landed fl built_in vm g (record fr { next = fr.next + 1 }) fs)
          (gives f' f.sp v p.above p.top)
          (operate-Landed fl built_in op rest operate (runs rest) vm g fr fs f' s h))

  pub operands-Reaches :
      (o : Operator) (vm : Vm F) (g : Context F) (fr : Frame) (fs : List Frame)
      (f f1 f2 : Fiber (Object F)) (a b : Object F) (rest : List ℕ)
      → Room f 1
      → Pushed f a f1
      → Pushed f1 b f2
      → Shows vm g (fr ∷ fs) f2
      → Continues g fr (byte (opcode_of o) ∷ rest)
      → Reaches vm g (record fr { next = fr.next + 1 }) fs f (meaning fl o a b)
  operands-Reaches o vm g fr fs f f1 f2 a b rest (room, full) p q s h =
      let (at, under, top) = under_two f f1 f2 a b p q in
      Landed-Reaches vm g (record fr { next = fr.next + 1 }) fs f (record f2 { sp = f.sp })
        (meaning fl o a b)
        (λ w.
          Pushed-over f f2 w (omega (arith, room)) full (q.size ∙ p.size)
            (λ i lt. q.below i (omega (arith, lt, p.above)) ∙ p.below i lt) (q.state ∙ p.state))
        (subst (Landed fl built_in vm g (record fr { next = fr.next + 1 }) fs)
          (operator-meaning fl o f2 f.sp a b at under top)
          (operate-Landed fl built_in (opcode_of o) rest (operator fl o)
            (execute-operator fl built_in o rest) vm g fr fs f2 s h))
