-- ===== src/Correct/Stack.antt =====
-- The stack of a fiber while a formula is evaluated (vm/vm.go, the operators).
use sydney.Base.{
  ℕ, suc, ◌<◌, ◌≡◌, refl, sym, ap, ◌∙◌, some, length, length-set, get_elem?, set,
  get_elem?-set_self, get_elem?-set_ne, Result, ok, err, panic, ◌>>=◌, arith,
}
use sydney.Code.{Opcode}
use sydney.Scheduler.{Fiber, stack_size}
use sydney.Machine.{
  Object, FloatOps, push, native_bool, comparison, bang, minus, execute_comparison,
  execute_bang_operator, execute_minus_operator,
}
use sydney.Machine.Balanced.{pop-eq, push-eq, execute_binary_operation-eq}
use sydney.Correct.Formula.{Operator, meaning, compared}
use sydney.Correct.Steps.{operator}

bind-ok :
    {A B C : Type 0} (m : Result A) (g : A → B) (k : B → Result C)
    → (m >>= λ x. k (g x)) ≡ (m >>= (λ x. ok (g x)) >>= k)
bind-ok (ok x) g k = refl
bind-ok (err e) g k = refl
bind-ok panic g k = refl

module _ {F : Type 0} where
  -- The second fiber has one object more: below it the stack is that of the first.
  pub record Pushed (f : Fiber (Object F)) (v : Object F) (f' : Fiber (Object F)) : Type 0 where
    pub above : f'.sp ≡ suc f.sp
    pub size : length f'.stack ≡ length f.stack
    pub top : get_elem? f'.stack f.sp ≡ some v
    pub below : (i : ℕ) → i < f.sp → get_elem? f'.stack i ≡ get_elem? f.stack i
    pub state : f'.state ≡ f.state

  -- An object put over the stack of a fiber, whatever was written above it meanwhile.
  pub Pushed-over :
      (f h : Fiber (Object F)) (v : Object F)
      → f.sp < stack_size
      → length f.stack ≡ stack_size
      → length h.stack ≡ length f.stack
      → ((i : ℕ) → i < f.sp → get_elem? h.stack i ≡ get_elem? f.stack i)
      → h.state ≡ f.state
      → (f' : Fiber (Object F)) × (push v (record h { sp = f.sp }) ≡ ok f') × Pushed f v f'
  Pushed-over f h v room full same below state = (
    record h { stack = set h.stack f.sp v; sp = suc f.sp },
    push-eq (record h { sp = f.sp }) v room (same ∙ full),
    record {
      above = refl;
      size = length-set h.stack f.sp v ∙ same;
      top = get_elem?-set_self h.stack f.sp v (omega (arith, room, full, same));
      below = λ i lt. get_elem?-set_ne h.stack f.sp i v (omega (arith, lt)) ∙ below i lt;
      state = state;
    },
  )

  -- What is under two pushed objects.
  pub under_two :
      (f f1 f2 : Fiber (Object F)) (a b : Object F)
      → Pushed f a f1
      → Pushed f1 b f2
      → (f2.sp ≡ suc (suc f.sp))
        × (get_elem? f2.stack f.sp ≡ some a)
        × (get_elem? f2.stack (suc f.sp) ≡ some b)
  under_two f f1 f2 a b p q = (
    omega (arith, p.above, q.above),
    q.below f.sp (omega (arith, p.above)) ∙ p.top,
    ap (get_elem? f2.stack) (sym p.above) ∙ q.top,
  )

  module _ (fl : FloatOps F) where
    execute_comparison-eq :
        (op : Opcode) (f : Fiber (Object F)) (n : ℕ) (l r : Object F)
        → f.sp ≡ suc (suc n)
        → get_elem? f.stack n ≡ some l
        → get_elem? f.stack (suc n) ≡ some r
        → execute_comparison fl op f ≡ (compared fl op l r >>= λ v. push v (record f { sp = n }))
    unfolding execute_comparison
    execute_comparison-eq op f n l r at under top =
        rw (pop-eq f (suc n) r at top, pop-eq (record f { sp = suc n }) n l refl under)
          (bind-ok (comparison fl op l r) native_bool (λ v. push v (record f { sp = n })))

    pub operator-meaning :
        (o : Operator) (f : Fiber (Object F)) (n : ℕ) (l r : Object F)
        → f.sp ≡ suc (suc n)
        → get_elem? f.stack n ≡ some l
        → get_elem? f.stack (suc n) ≡ some r
        → operator fl o f ≡ (meaning fl o l r >>= λ v. push v (record f { sp = n }))
    operator-meaning Operator.plus = execute_binary_operation-eq fl Opcode.op_add
    operator-meaning Operator.sub = execute_binary_operation-eq fl Opcode.op_sub
    operator-meaning Operator.times = execute_binary_operation-eq fl Opcode.op_mul
    operator-meaning Operator.over = execute_binary_operation-eq fl Opcode.op_div
    operator-meaning Operator.modulo = execute_binary_operation-eq fl Opcode.op_modulo
    operator-meaning Operator.equal = execute_comparison-eq Opcode.op_equal
    operator-meaning Operator.not_equal = execute_comparison-eq Opcode.op_not_equal
    operator-meaning Operator.above = execute_comparison-eq Opcode.op_gt
    operator-meaning Operator.at_least = execute_comparison-eq Opcode.op_gte
    operator-meaning Operator.both = execute_comparison-eq Opcode.op_and
    operator-meaning Operator.either = execute_comparison-eq Opcode.op_or

    pub bang-meaning :
        (f : Fiber (Object F)) (n : ℕ) (v : Object F)
        → f.sp ≡ suc n
        → get_elem? f.stack n ≡ some v
        → execute_bang_operator fl f ≡ push (native_bool (bang fl v)) (record f { sp = n })
    unfolding execute_bang_operator
    bang-meaning f n v at top = rw (pop-eq f n v at top)

    pub minus-meaning :
        (f : Fiber (Object F)) (n : ℕ) (v : Object F)
        → f.sp ≡ suc n
        → get_elem? f.stack n ≡ some v
        → execute_minus_operator fl f ≡ (minus fl v >>= λ w. push w (record f { sp = n }))
    unfolding execute_minus_operator
    minus-meaning f n v at top = rw (pop-eq f n v at top)
