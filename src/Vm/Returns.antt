-- ===== src/Vm/Returns.antt =====
-- Calls and returns (vm/vm.go, `callClosure`, `OpReturnValue` and `OpReturn`).
use sydney.Base.{
  ℕ, suc, ◌+◌, ◌-◌, ◌<◌, ◌≤◌, ◌≡◌, refl, List, ◌∷◌, true, length, set, ltb, ◌==◌, ok, arith,
}
use sydney.Scheduler.{Fiber, stack_size}
use sydney.Machine.{Object, push}
use sydney.Machine.Balanced.{push-eq}
use sydney.Vm.State.{
  Vm, Frame, set_fiber, set_frames, set_sp, push_frame, pop_frame, push_value, max_frames,
}
use sydney.Vm.Calls.{call_closure}
use sydney.Vm.Execute.{return_with}
use sydney.Vm.Shows.{Context, Shows, set_fiber-Shows, set_frames-Shows, on_fiber-Shows}

module _ {F : Type 0} where
  set_sp-Shows :
      (n : ℕ) (vm : Vm F) (g : Context F) (fs : List Frame) (f : Fiber (Object F))
      → Shows vm g fs f
      → Shows (set_sp n vm) g fs (record f { sp = n })
  unfolding set_sp
  set_sp-Shows n vm g fs f s = rw s.fiber (set_fiber-Shows vm g fs f (record f { sp = n }) s)

  call-Shows :
      (p locals n : ℕ) (vm : Vm F) (g : Context F) (fs : List Frame) (f : Fiber (Object F))
      → length fs < max_frames
      → Shows vm g fs f
      → (vm1 : Vm F) × (call_closure p locals n n vm ≡ ok vm1)
        × Shows vm1 g
            ((record { cl = p; next = 0; base_pointer = f.sp - n }) ∷ fs)
            (record f { sp = f.sp - n + locals })
  unfolding call_closure push_frame
  call-Shows p locals n vm g fs f few s =
      let called : Frame = record { cl = p; next = 0; base_pointer = f.sp - n } in
      let vm1 = set_frames (called ∷ fs) vm in
      let same : (n == n) ≡ true = ground arith in
      let room : ltb (length fs) max_frames ≡ true = ground (arith, few) in
      (
        set_sp (f.sp - n + locals) vm1,
        rw (same, s.frames, s.fiber, room) refl,
        set_sp-Shows (f.sp - n + locals) vm1 g (called ∷ fs) f
            (set_frames-Shows vm g fs (called ∷ fs) f s),
      )

  pop_frame-eq :
      (vm : Vm F) (g : Context F) (fr : Frame) (fs : List Frame) (f : Fiber (Object F))
      → Shows vm g (fr ∷ fs) f
      → pop_frame vm ≡ ok (fr, set_frames fs vm)
  unfolding pop_frame
  pop_frame-eq vm g fr fs f s = rw (s.frames, pop_frame)

  return-Shows :
      (v : Object F) (vm : Vm F) (g : Context F) (fr : Frame) (fs : List Frame)
      (f : Fiber (Object F))
      → 0 < fr.base_pointer
      → fr.base_pointer ≤ stack_size
      → length f.stack ≡ stack_size
      → Shows vm g (fr ∷ fs) f
      → (vm1 : Vm F) × (return_with v vm ≡ ok (ltb 0 (length fs), vm1))
        × Shows vm1 g fs (record f {
          stack = set f.stack (fr.base_pointer - 1) v;
          sp = suc (fr.base_pointer - 1);
        })
  unfolding return_with push_value
  return-Shows v vm g fr fs f above under full s =
      let at = fr.base_pointer - 1 in
      let f1 = record f { sp = at } in
      let f2 = record f1 { stack = set f.stack at v; sp = suc at } in
      let vm1 = set_frames fs vm in
      let s1 = set_sp-Shows at vm1 g fs f (set_frames-Shows vm g (fr ∷ fs) fs f s) in
      let popped : pop_frame vm ≡ ok (fr, vm1) = pop_frame-eq vm g fr fs f s in
      let test : ltb 0 fr.base_pointer ≡ true = ground (arith, above) in
      let (pushed, s2) =
        on_fiber-Shows (push v) (set_sp at vm1) g fs f1 f2 s1
          (push-eq f1 v (omega (arith, above, under)) full) in
      (set_fiber f2 (set_sp at vm1), rw (popped, test, pushed, s2.frames) refl, s2)

  -- Where the function and its arguments, as many as it has parameters, are on the stack and a frame is
  -- free, a call gives a frame that starts at the first argument, with the locals above. From any machine
  -- that is in this frame, a return leaves the caller's frames, with the value in the place of the
  -- function and its arguments; it goes on if a frame is left.
  pub call_closure-return_with :
      (p locals n k : ℕ) (v : Object F) (vm vm2 : Vm F) (g g2 : Context F) (fs : List Frame)
      (f f2 : Fiber (Object F))
      → n < f.sp
      → f.sp ≤ stack_size
      → length fs < max_frames
      → Shows vm g fs f
      → length f2.stack ≡ stack_size
      → Shows vm2 g2 ((record { cl = p; next = k; base_pointer = f.sp - n }) ∷ fs) f2
      → ((vm1 : Vm F) × (call_closure p locals n n vm ≡ ok vm1)
          × Shows vm1 g
              ((record { cl = p; next = 0; base_pointer = f.sp - n }) ∷ fs)
              (record f { sp = f.sp - n + locals }))
        × ((vm3 : Vm F) × (return_with v vm2 ≡ ok (ltb 0 (length fs), vm3))
            × Shows vm3 g2 fs
                (record f2 { stack = set f2.stack (f.sp - n - 1) v; sp = suc (f.sp - n - 1) }))
  call_closure-return_with p locals n k v vm vm2 g g2 fs f f2 inside under few s full s2 = (
    call-Shows p locals n vm g fs f few s,
    return-Shows v vm2 g2 (record { cl = p; next = k; base_pointer = f.sp - n }) fs f2
        (omega (arith, inside)) (omega (arith, under)) full s2,
  )
