-- ===== src/Scheduler.antt =====
-- vm/scheduler.go and vm/fiber.go: fibers, their run queue, and sends and receives on channels.
-- A fiber is named by its pointer, a number, and the heap maps pointers to fibers. The frames of a
-- fiber belong to the machine that runs it and are not here; `blockCause` is never read.
pub mod Carries
pub mod Send
pub mod Run
pub mod Receive
use sydney.Base.{
  ℕ, suc, List, [], ◌∷◌, ◌++◌, Bool, true, false, ◌&&◌, ◌||◌, Option, none, some, length, set,
  replicate, ltb, ◌==◌, if◌then◌else◌, ℤ, pos, minus_one, Result, ok, panic, ◌>>=◌, or_panic,
}
use sydney.Channel.{SenderWait, Channel, new_channel, ring_put, ring_take}

pub data FiberState : Type 0 where
  ready running blocked done : FiberState

abbrev pub is_blocked : FiberState → Bool
is_blocked blocked = true
is_blocked _ = false

abbrev pub is_running : FiberState → Bool
is_running running = true
is_running _ = false

-- A map from numbers, changed at one.
abbrev pub update {ℓ} : {A : Type ℓ} → (ℕ → A) → ℕ → A → ℕ → A
update f p a q = if p == q then a else f q

abbrev pub stack_size : ℕ
stack_size = 2048

module _ (V : Type 0) where
  pub record Fiber : Type 0 where
    pub stack : List V
    pub sp : ℕ
    pub state : FiberState

  pub record Wakeup : Type 0 where
    pub fiber : ℕ
    pub result : V

  -- `fibers` holds the spawned fibers; the main fiber is not among them.
  pub record Scheduler : Type 0 where
    pub heap : ℕ → Fiber
    pub fibers : List ℕ
    pub run_queue : List ℕ
    pub current : ℕ
    pub main_fiber : ℕ
    pub channels : ℕ → Option (Channel V)
    pub next_chan_id : ℕ
    pub pending_wakeups : List Wakeup
    pub io_blocked_count : ℤ

module _ {V : Type 0} where
  -- `NewFiber`; `nil` fills the stack.
  unfoldable pub new_fiber : V → Fiber V
  new_fiber nil = record { stack = replicate stack_size nil; sp = 0; state = ready }

  -- `NewScheduler`: the main fiber has the pointer 0.
  unfoldable pub new_scheduler : V → Scheduler V
  new_scheduler nil = record {
    heap = λ _. new_fiber nil;
    fibers = [];
    run_queue = [];
    current = 0;
    main_fiber = 0;
    channels = λ _. none;
    next_chan_id = 0;
    pending_wakeups = [];
    io_blocked_count = pos 0;
  }

  -- `Add`
  unfoldable pub add : ℕ → Scheduler V → Scheduler V
  add f s = record s { fibers = s.fibers ++ f ∷ []; run_queue = s.run_queue ++ f ∷ [] }

  -- `next`
  unfoldable pub next : Scheduler V → Option (ℕ × Scheduler V)
  next s = elim s.run_queue [ [] ↦ none | f ∷ rest ↦ some (f, record s { run_queue = rest }) ]

  -- `f.state = state`
  unfoldable pub set_state : ℕ → FiberState → Scheduler V → Scheduler V
  set_state f state s = record s { heap = update s.heap f (record (s.heap f) { state = state }) }

  -- `enqueue`
  unfoldable pub enqueue : ℕ → Scheduler V → Scheduler V
  unfolding set_state
  enqueue f s = record (set_state f ready s) { run_queue = s.run_queue ++ f ∷ [] }

  -- `pushToFiberStack`, of the fiber at a pointer: a full stack is an index out of range.
  unfoldable pub push_to_fiber_stack : ℕ → V → Scheduler V → Result (Scheduler V)
  push_to_fiber_stack p v s =
      let f = s.heap p in
      if ltb f.sp (length f.stack)
      then ok (record s {
        heap = update s.heap p (record f { stack = set f.stack f.sp v; sp = suc f.sp });
      })
      else panic

  unfoldable pub put_channel : ℕ → Channel V → Scheduler V → Scheduler V
  put_channel id ch s = record s { channels = update s.channels id (some ch) }

  -- `registerChannel`
  unfoldable pub register_channel : V → ℕ → ℕ → Scheduler V → Scheduler V
  unfolding put_channel
  register_channel nil id capacity s = put_channel id (new_channel nil capacity) s

  -- `nextChannelId`
  unfoldable pub next_channel_id : Scheduler V → ℕ × Scheduler V
  next_channel_id s = (suc s.next_chan_id, record s { next_chan_id = suc s.next_chan_id })

  -- The first case of `send`: a receiver waits.
  unfoldable pub send_to_receiver :
      ℕ → ℕ → List ℕ → Channel V → V → Scheduler V → Result (Scheduler V)
  unfolding put_channel enqueue
  send_to_receiver id receiver rest ch val s = do
    s' ← push_to_fiber_stack receiver val (put_channel id (record ch { recv_queue = rest }) s)
    ok (enqueue s.current (enqueue receiver s'))

  -- The other two: room in the ring, and a blocked sender.
  unfoldable pub send_to_ring : ℕ → Channel V → V → Scheduler V → Result (Scheduler V)
  unfolding put_channel enqueue
  send_to_ring id ch val s = do ch' ← ring_put val ch; ok (enqueue s.current (put_channel id ch' s))

  unfoldable pub send_blocked : ℕ → Channel V → V → Scheduler V → Scheduler V
  unfolding put_channel set_state
  send_blocked id ch val s =
      put_channel id
        (record ch {
          send_queue = ch.send_queue ++ (record { fiber = s.current; value = val }) ∷ [];
        })
        (set_state s.current blocked s)

  unfoldable pub send_on : ℕ → Channel V → V → Scheduler V → Result (Scheduler V)
  send_on id ch val s = elim ch.recv_queue [
    | receiver ∷ rest ↦ send_to_receiver id receiver rest ch val s
    | [] ↦
        if ltb 0 ch.capacity && ltb ch.count ch.capacity
        then send_to_ring id ch val s
        else ok (send_blocked id ch val s)
  ]

  -- `send`; an unknown channel is a nil pointer.
  unfoldable pub send : ℕ → V → Scheduler V → Result (Scheduler V)
  unfolding send_on
  send id val s = do ch ← or_panic (s.channels id); send_on id ch val s

  -- The sender that `receive` lets through once a slot is free, if one waits.
  unfoldable pub refill : Channel V → Scheduler V → Result (Channel V × Scheduler V)
  unfolding enqueue
  refill ch s = elim ch.send_queue [
    | [] ↦ ok (ch, s)
    | sender ∷ rest ↦ do
      ch' ← ring_put sender.value (record ch { send_queue = rest })
      ok (ch', enqueue sender.fiber s)
  ]

  -- The three cases of `receive`.
  unfoldable pub receive_from_ring : ℕ → Channel V → Scheduler V → Result (Scheduler V)
  unfolding refill put_channel enqueue
  receive_from_ring id ch s = do
    (value, ch') ← ring_take ch
    s' ← push_to_fiber_stack s.current value s
    (ch'', s'') ← refill ch' s'
    ok (enqueue s.current (put_channel id ch'' s''))

  unfoldable pub receive_from_sender :
      ℕ → SenderWait V → List (SenderWait V) → Channel V → Scheduler V → Result (Scheduler V)
  unfolding put_channel enqueue
  receive_from_sender id sender rest ch s = do
    s' ←
        push_to_fiber_stack s.current sender.value
          (put_channel id (record ch { send_queue = rest }) s)
    ok (enqueue s.current (enqueue sender.fiber s'))

  unfoldable pub receive_blocked : ℕ → Channel V → Scheduler V → Scheduler V
  unfolding put_channel set_state
  receive_blocked id ch s =
      put_channel id (record ch { recv_queue = ch.recv_queue ++ s.current ∷ [] })
        (set_state s.current blocked s)

  unfoldable pub receive_on : ℕ → Channel V → Scheduler V → Result (Scheduler V)
  receive_on id ch s =
      if ltb 0 ch.capacity && ltb 0 ch.count
      then receive_from_ring id ch s
      else elim ch.send_queue [
        | sender ∷ rest ↦ receive_from_sender id sender rest ch s
        | [] ↦ ok (receive_blocked id ch s)
      ]

  -- `receive`
  unfoldable pub receive : ℕ → Scheduler V → Result (Scheduler V)
  unfolding receive_on
  receive id s = do ch ← or_panic (s.channels id); receive_on id ch s

  unfoldable pub any_blocked : List ℕ → (ℕ → Fiber V) → Bool
  any_blocked [] heap = false
  any_blocked (f ∷ fs) heap = is_blocked (heap f).state || any_blocked fs heap

  -- `hasBlockedFibers`
  unfoldable pub has_blocked_fibers : Scheduler V → Bool
  unfolding any_blocked
  has_blocked_fibers s = any_blocked s.fibers s.heap

  -- One wakeup, as `drainWakeups` and `Run` take it in.
  unfoldable pub wake : Wakeup V → Scheduler V → Result (Scheduler V)
  unfolding enqueue
  wake w s = do
    s' ← push_to_fiber_stack w.fiber w.result s
    ok (enqueue w.fiber (record s' { io_blocked_count = minus_one s'.io_blocked_count }))

  unfoldable pub drain : List (Wakeup V) → Scheduler V → Result (Scheduler V)
  drain [] s = ok s
  drain (w ∷ ws) s = wake w s >>= drain ws

  -- `drainWakeups`: the wakeups that are there.
  unfoldable pub drain_wakeups : Scheduler V → Result (Scheduler V)
  unfolding drain
  drain_wakeups s = drain s.pending_wakeups (record s { pending_wakeups = [] })
