-- ===== src/Scheduler/Carries.antt =====
-- vm/scheduler.go: the queue that a channel carries, and what waits on it.
use sydney.Base.{
  set, ◌∙◌, refl, inl, inr, ℕ, suc, ◌<◌, ◌≡◌, ◌⊎◌, List, [], ◌∷◌, ◌++◌, some, length, get_elem?,
  map, ok, arith,
}
use sydney.Channel.{SenderWait, Channel}
use sydney.Channel.Fifo.{Holds, get_elem?-set_self}
use sydney.Scheduler.{Scheduler, update, push_to_fiber_stack, enqueue}

pub empty_of_length {ℓ} : {A : Type ℓ} (xs : List A) → length xs ≡ 0 → xs ≡ []
empty_of_length [] h = refl
empty_of_length (x ∷ xs) h = absurd (omega arith)

module _ {V : Type 0} where
  -- The values of the blocked senders, in the order of their sends.
  abbrev pub waiting : List (SenderWait V) → List V
  waiting ws = map (λ (w : SenderWait V). w.value) ws

  -- The ring holds `xs`; a sender waits only at a full ring, and a receiver only at an empty
  -- channel.
  pub record Inv (ch : Channel V) (xs : List V) : Type 0 where
    pub holds : Holds ch xs
    pub senders : (ch.send_queue ≡ []) ⊎ (ch.count ≡ ch.capacity)
    pub receivers : (ch.recv_queue ≡ []) ⊎ ((ch.count ≡ 0) × (ch.send_queue ≡ []))

  -- The channel `id` of `s` is `ch`, it satisfies the invariant, and it carries the queue `q`: what
  -- its ring holds, then what its blocked senders bring.
  pub record Carries (s : Scheduler V) (id : ℕ) (ch : Channel V) (q : List V) : Type 0 where
    pub at : s.channels id ≡ some ch
    pub ring : List V
    pub inv : Inv ch ring
    pub queue : q ≡ ring ++ waiting ch.send_queue

  -- The fiber `p` of `s'` has `v` on top of the stack that it had in `s`.
  abbrev pub Received : ℕ → V → Scheduler V → Scheduler V → Type 0
  Received p v s s' =
      (get_elem? (s'.heap p).stack (s.heap p).sp ≡ some v) × ((s'.heap p).sp ≡ suc (s.heap p).sp)

  -- The fiber `p` can take a value.
  abbrev pub HasRoom : ℕ → Scheduler V → Type 0
  HasRoom p s = (s.heap p).sp < length (s.heap p).stack

  -- The state after a push onto a fiber with room.
  abbrev pub pushed : ℕ → V → Scheduler V → Scheduler V
  pushed p v s =
      let f = s.heap p in
      record s { heap = update s.heap p (record f { stack = set f.stack f.sp v; sp = suc f.sp }) }

  pub push-eq :
      (p : ℕ) (v : V) (s : Scheduler V)
      → HasRoom p s
      → push_to_fiber_stack p v s ≡ ok (pushed p v s)
  unfolding push_to_fiber_stack
  push-eq p v s h = ground arith

  pub pushed-Received :
      (p : ℕ) (v : V) (s : Scheduler V) → HasRoom p s → Received p v s (pushed p v s)
  pushed-Received p v s h =
      (ground (arith, get_elem?-set_self (s.heap p).stack (s.heap p).sp v h), ground arith)

  -- Marking a fiber ready leaves what fibers have received.
  pub enqueue-Received :
      (p f : ℕ) (v : V) (s s' : Scheduler V) → Received p v s s' → Received p v s (enqueue f s')
  unfolding enqueue
  enqueue-Received p f v s s' (a, b) = (ground (arith, a), ground (arith, b))

  -- A channel that carries nothing has an empty ring and no blocked senders.
  pub Carries-idle :
      {s : Scheduler V} {id : ℕ} {ch : Channel V} {q : List V} (r : ℕ) (rest : List ℕ)
      → Carries s id ch q
      → ch.recv_queue ≡ r ∷ rest
      → (ch.count ≡ 0) × (ch.send_queue ≡ []) × (q ≡ [])
  Carries-idle {ch} r rest c e =
      let (none_held, idle) = waiting_receiver in
      let nothing : length c.ring ≡ 0 = omega (arith, c.inv.holds.counted) in
      (none_held, idle, c.queue ∙ ground (arith, empty_of_length c.ring nothing))
    where
      waiting_receiver : (ch.count ≡ 0) × (ch.send_queue ≡ [])
      waiting_receiver = elim c.inv.receivers [ inl n ↦ cc | inr h ↦ h ]
