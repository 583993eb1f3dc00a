-- ===== src/Scheduler/Run.antt =====
-- vm/vm.go, `Run`: the loop that runs the fibers of the queue. What a fiber does in its turn,
-- `runFiber`, is a parameter here; the loop runs on fuel. A wakeup that is awaited comes from
-- outside, so the loop stops as `waiting` where none is there.
use sydney.Base.{
  ℕ, zero, suc, ◌≡◌, ◌≢◌, refl, sym, ◌∙◌, ◌⊎◌, inl, inr, String, List, [], ◌∷◌, true, false, none,
  some, if◌then◌else◌, is_positive, Result, ok, err, panic, arith, Bool-cases,
}
use sydney.Scheduler.{
  FiberState, running, blocked, is_blocked, is_running, Scheduler, next, set_state, enqueue,
  has_blocked_fibers, any_blocked, wake, drain, drain_wakeups,
}

pub data Ended (V : Type 0) : Type 0 where
  finished : Scheduler V → Ended V
  failed : String → Ended V
  crashed : Ended V
  waiting : Scheduler V → Ended V
  unfinished : Scheduler V → Ended V

is_blocked-ne : (st : FiberState) → is_blocked st ≡ false → st ≢ blocked
is_blocked-ne blocked e = cc
is_blocked-ne _ e = λ p. cc

blocked_of : (st : FiberState) → is_blocked st ≡ true → st ≡ blocked
blocked_of blocked e = refl
blocked_of _ e = cc

module _ {V : Type 0} where
  -- Every fiber of a list is not blocked.
  abbrev pub NoneBlocked : List ℕ → Scheduler V → Type 0
  NoneBlocked [] s = Unit
  NoneBlocked (f ∷ fs) s = ((s.heap f).state ≢ blocked) × NoneBlocked fs s

  -- No fiber is ready, no wakeup is there, and none is awaited.
  pub record IsIdle (s : Scheduler V) : Type 0 where
    pub no_wakeups : s.pending_wakeups ≡ []
    pub no_ready : s.run_queue ≡ []
    pub no_awaited : is_positive s.io_blocked_count ≡ false

  any_blocked_iff :
      (fs : List ℕ) (s : Scheduler V)
      → ((any_blocked fs s.heap ≡ false) × NoneBlocked fs s)
        ⊎ ((any_blocked fs s.heap ≡ true) × ¬ NoneBlocked fs s)
  unfolding any_blocked
  any_blocked_iff [] s = inl (refl, tt)
  any_blocked_iff (f ∷ fs) s = elim (Bool-cases (is_blocked (s.heap f).state)) [
    | inl b ↦ inr (rw b refl, λ n. n.0 (blocked_of (s.heap f).state b))
    | inr b ↦ elim (any_blocked_iff fs s) [
      | inl (e, n) ↦ inl (rw (b, e), (is_blocked-ne _ b, n))
      | inr (e, n) ↦ inr (rw (b, e), λ m. n m.1)
    ]
  ]

  drain_wakeups-none : (s : Scheduler V) → s.pending_wakeups ≡ [] → drain_wakeups s ≡ ok s
  unfolding drain_wakeups drain
  drain_wakeups-none s e = λ i. drain (e i) (record s { pending_wakeups = sym e i })

module _ {V : Type 0} (run_fiber : Scheduler V → Result (Scheduler V)) where
  -- The end of a turn: a fiber that still runs was preempted, and goes back to the queue.
  unfoldable pub end_turn : ℕ → Scheduler V → Scheduler V
  end_turn f s = if is_running (s.heap f).state then enqueue f s else s

  -- The loop, where no fiber is ready: it takes an awaited wakeup, or ends.
  unfoldable pub no_fiber : (Scheduler V → Ended V) → Scheduler V → Ended V
  no_fiber loop s = elim (is_positive s.io_blocked_count) [
    | true ↦ elim s.pending_wakeups [
      | [] ↦ waiting s
      | w ∷ ws ↦ elim (wake w (record s { pending_wakeups = ws })) [
        | ok s' ↦ loop s'
        | err e ↦ failed e
        | panic ↦ crashed
      ]
    ]
    | false ↦ if has_blocked_fibers s then failed "deadlock: all fibers blocked" else finished s
  ]

  -- The loop, with the fiber whose turn it is.
  unfoldable pub turn : (Scheduler V → Ended V) → ℕ → Scheduler V → Ended V
  unfolding end_turn set_state
  turn loop f s = elim (run_fiber (set_state f running (record s { current = f }))) [
    | ok s' ↦ loop (end_turn f s')
    | err e ↦ failed e
    | panic ↦ crashed
  ]

  -- `Run`
  unfoldable pub run : ℕ → Scheduler V → Ended V
  run zero s = unfinished s
  run (suc fuel) s = elim (drain_wakeups s) [
    | ok s' ↦ elim (next s') [
      | none ↦ no_fiber (run fuel) s'
      | some (f, s'') ↦ turn (run fuel) f s''
    ]
    | err e ↦ failed e
    | panic ↦ crashed
  ]

  next-none : (s : Scheduler V) → s.run_queue ≡ [] → next s ≡ none
  unfolding next
  next-none s e = ground arith

  no_fiber-none :
      (loop : Scheduler V → Ended V) (s : Scheduler V)
      → is_positive s.io_blocked_count ≡ false
      → no_fiber loop s
        ≡ (if has_blocked_fibers s then failed "deadlock: all fibers blocked" else finished s)
  unfolding no_fiber
  no_fiber-none loop s e = rw (e, no_fiber)

  run_idle-eq :
      (fuel : ℕ) (s : Scheduler V)
      → IsIdle s
      → run (suc fuel) s
        ≡ (if has_blocked_fibers s then failed "deadlock: all fibers blocked" else finished s)
  unfolding run
  run_idle-eq fuel s i =
      rw (drain_wakeups-none s i.no_wakeups, run, next-none s i.no_ready)
        (no_fiber-none (run fuel) s i.no_awaited)

  -- The run ends in success and no spawned fiber is blocked, or in the deadlock error and one is.
  abbrev pub EndsIdle : ℕ → Scheduler V → Type 0
  EndsIdle fuel s =
      ((run (suc fuel) s ≡ finished s) × NoneBlocked s.fibers s)
      ⊎ ((run (suc fuel) s ≡ failed "deadlock: all fibers blocked") × ¬ NoneBlocked s.fibers s)

  -- An idle machine ends its run in success exactly if no spawned fiber is blocked, whatever the
  -- state of the main fiber, and otherwise in the deadlock error.
  pub run_idle : (fuel : ℕ) (s : Scheduler V) → IsIdle s → EndsIdle fuel s
  run_idle fuel s i = elim (any_blocked_iff s.fibers s) [
    | inl (e, n) ↦ inl (run_idle-eq fuel s i ∙ unfold has_blocked_fibers in rw e, n)
    | inr (e, n) ↦ inr (run_idle-eq fuel s i ∙ unfold has_blocked_fibers in rw e, n)
  ]
