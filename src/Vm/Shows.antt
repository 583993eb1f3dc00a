-- ===== src/Vm/Shows.antt =====
-- What the machine shows of the fiber that runs, and how the accesses to it change that (vm/vm.go).
use sydney.Base.{ℕ, ◌+◌, ◌≡◌, ap, ◌∙◌, List, ◌∷◌, Result, ok, ◌>>=◌, arith}
use sydney.Scheduler.{Fiber, update}
use sydney.Machine.{Object, pop}
use sydney.Vm.State.{
  Vm, Frame, Cell, current_fiber, current_frames, set_fiber, set_frames, on_fiber, pop_value,
  jump_to, advance,
}

pub update_self {ℓ} : {A : Type ℓ} (f : ℕ → A) (p : ℕ) (a : A) → update f p a p ≡ a
update_self f p a = ground arith

-- What stays the same while an expression is evaluated.
pub record Context (F : Type 0) : Type 0 where
  pub constants : List (Object F)
  pub globals : List (Object F)
  pub cells : ℕ → Cell F

module _ {F : Type 0} where
  -- The machine has the context, and its fiber the frames and the stack.
  pub record Shows (vm : Vm F) (g : Context F) (fs : List Frame) (f : Fiber (Object F))
      : Type 0 where
    pub frames : current_frames vm ≡ fs
    pub fiber : current_fiber vm ≡ f
    pub constants : vm.constants ≡ g.constants
    pub globals : vm.globals ≡ g.globals
    pub cells : vm.cells ≡ g.cells

  pub set_fiber-Shows :
      (vm : Vm F) (g : Context F) (fs : List Frame) (f f' : Fiber (Object F))
      → Shows vm g fs f
      → Shows (set_fiber f' vm) g fs f'
  unfolding set_fiber
  set_fiber-Shows vm g fs f f' s = record {
    frames = s.frames;
    fiber = update_self vm.scheduler.heap vm.scheduler.current f';
    constants = s.constants;
    globals = s.globals;
    cells = s.cells;
  }

  pub set_frames-Shows :
      (vm : Vm F) (g : Context F) (fs fs' : List Frame) (f : Fiber (Object F))
      → Shows vm g fs f
      → Shows (set_frames fs' vm) g fs' f
  unfolding set_frames
  set_frames-Shows vm g fs fs' f s = record {
    frames = update_self vm.frames vm.scheduler.current fs';
    fiber = s.fiber;
    constants = s.constants;
    globals = s.globals;
    cells = s.cells;
  }

  pub on_fiber-Shows :
      (operate : Fiber (Object F) → Result (Fiber (Object F))) (vm : Vm F) (g : Context F)
      (fs : List Frame) (f f' : Fiber (Object F))
      → Shows vm g fs f
      → operate f ≡ ok f'
      → (on_fiber operate vm ≡ ok (set_fiber f' vm)) × Shows (set_fiber f' vm) g fs f'
  unfolding on_fiber
  on_fiber-Shows operate vm g fs f f' s e = (
    ap (λ x. operate x >>= λ y. ok (set_fiber y vm)) s.fiber
        ∙ ap (λ r. r >>= λ y. ok (set_fiber y vm)) e,
    set_fiber-Shows vm g fs f f' s,
  )

  pub on_fiber-err :
      (operate : Fiber (Object F) → Result (Fiber (Object F))) (vm : Vm F) (g : Context F)
      (fs : List Frame) (f : Fiber (Object F))
      → Shows vm g fs f
      → on_fiber operate vm ≡ (operate f >>= λ y. ok (set_fiber y vm))
  unfolding on_fiber
  on_fiber-err operate vm g fs f s = ap (λ x. operate x >>= λ y. ok (set_fiber y vm)) s.fiber

  pub pop_value-Shows :
      (vm : Vm F) (g : Context F) (fs : List Frame) (f f' : Fiber (Object F)) (v : Object F)
      → Shows vm g fs f
      → pop f ≡ ok (v, f')
      → (pop_value vm ≡ ok (v, set_fiber f' vm)) × Shows (set_fiber f' vm) g fs f'
  unfolding pop_value
  pop_value-Shows vm g fs f f' v s e = (
    ap (λ x. pop x >>= λ (w, y). ok (w, set_fiber y vm)) s.fiber
        ∙ ap (λ (r : Result (Object F × Fiber (Object F))). r >>= λ (w, y). ok (w, set_fiber y vm))
            e,
    set_fiber-Shows vm g fs f f' s,
  )

  pub advance-Shows :
      (k : ℕ) (vm : Vm F) (g : Context F) (fr : Frame) (fs : List Frame) (f : Fiber (Object F))
      → Shows vm g (fr ∷ fs) f
      → let fs' = record fr { next = fr.next + k } ∷ fs in
        (advance k vm ≡ ok (set_frames fs' vm)) × Shows (set_frames fs' vm) g fs' f
  unfolding advance
  advance-Shows k vm g fr fs f s = (
    rw (s.frames, advance),
    set_frames-Shows vm g (fr ∷ fs) (record fr { next = fr.next + k } ∷ fs) f s,
  )

  pub jump_to-Shows :
      (target : ℕ) (vm : Vm F) (g : Context F) (fr : Frame) (fs : List Frame) (f : Fiber (Object F))
      → Shows vm g (fr ∷ fs) f
      → let fs' = record fr { next = target } ∷ fs in
        (jump_to target vm ≡ ok (set_frames fs' vm)) × Shows (set_frames fs' vm) g fs' f
  unfolding jump_to
  jump_to-Shows target vm g fr fs f s = (
    rw (s.frames, jump_to),
    set_frames-Shows vm g (fr ∷ fs) (record fr { next = target } ∷ fs) f s,
  )
