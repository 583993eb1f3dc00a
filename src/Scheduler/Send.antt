-- ===== src/Scheduler/Send.antt =====
-- vm/scheduler.go: what `send` does to the channel and the fibers.
use sydney.Base.{
  ℕ, ◌<◌, ◌≤◌, ◌≡◌, refl, sym, ap, ◌∙◌, inl, inr, List, [], ◌∷◌, ◌++◌, append_assoc, append-nil, ok,
  ltb, arith, if◌then◌else◌,
}
use native.Mathlib.Decide.{dec_lt}
use sydney.Channel.{SenderWait, Channel, ring_put}
use sydney.Channel.Fifo.{Holds, Holds-waits, ring_put-Holds}
use sydney.Scheduler.{
  ready, blocked, Scheduler, enqueue, put_channel, send, send_on, send_to_receiver, send_to_ring,
  send_blocked,
}
use sydney.Scheduler.Carries.{
  waiting, Carries, Received, HasRoom, pushed, push-eq, pushed-Received, enqueue-Received,
  Carries-idle,
}

module _ {V : Type 0} where
  waiting-append :
      (ws : List (SenderWait V)) (w : SenderWait V)
      → waiting (ws ++ w ∷ []) ≡ waiting ws ++ w.value ∷ []
  waiting-append [] w = refl
  waiting-append (x ∷ ws) w = ap (◌∷◌ x.value) (waiting-append ws w)

  module _ (id : ℕ) (v : V) (s : Scheduler V) (ch : Channel V) (q : List V) (c : Carries s id ch q)
      (none_waits : ch.recv_queue ≡ []) where
    send_room-eq :
        (ch' : Channel V)
        → ring_put v ch ≡ ok ch'
        → ch.count < ch.capacity
        → send id v s ≡ ok (enqueue s.current (put_channel id ch' s))
    unfolding send send_to_ring
    send_room-eq ch' put room = ground (arith, c.at)

    send_full-eq : ch.capacity ≤ ch.count → send id v s ≡ ok (send_blocked id ch v s)
    unfolding send
    send_full-eq full = ground (arith, c.at)

    send_room-Carries :
        (ch' : Channel V)
        → Holds ch' (c.ring ++ v ∷ [])
        → ch'.send_queue ≡ ch.send_queue
        → ch'.recv_queue ≡ ch.recv_queue
        → ch.count < ch.capacity
        → Carries (enqueue s.current (put_channel id ch' s)) id ch' (q ++ v ∷ [])
    unfolding enqueue put_channel
    send_room-Carries ch' h sends recvs room =
        let idle : ch.send_queue ≡ [] = ground (arith, c.inv.senders) in
        record {
          at = ground arith;
          ring = c.ring ++ v ∷ [];
          inv = record {
            holds = h;
            senders = inl (sends ∙ idle);
            receivers = inl (recvs ∙ none_waits);
          };
          queue = rw (c.queue, sends, idle, append-nil c.ring, append-nil (c.ring ++ v ∷ [])) refl;
        }

    send_full-Carries :
        ch.capacity ≤ ch.count
        → let ch' = record ch {
          send_queue = ch.send_queue ++ (record { fiber = s.current; value = v }) ∷ [];
        } in
          Carries (send_blocked id ch v s) id ch' (q ++ v ∷ [])
    unfolding send_blocked
    send_full-Carries full = record {
      at = ground arith;
      ring = c.ring;
      inv = record {
        holds = Holds-waits ch _ ch.recv_queue c.ring c.inv.holds;
        senders = inr (omega (arith, c.inv.holds.fits));
        receivers = inl none_waits;
      };
      queue = rw (c.queue, append_assoc, waiting-append) refl;
    }

  -- What a send leaves behind that finds no receiver.
  abbrev pub Sent : ℕ → V → Scheduler V → Channel V → List V → Type 0
  Sent id v s ch q =
      (s' : Scheduler V) × (send id v s ≡ ok s')
      × ((ch' : Channel V) × Carries s' id ch' (q ++ v ∷ []) × (ch'.recv_queue ≡ []))
      × ((s'.heap s.current).state ≡ (if ltb ch.count ch.capacity then ready else blocked))
      × (s'.run_queue
          ≡ (if ltb ch.count ch.capacity then s.run_queue ++ s.current ∷ [] else s.run_queue))

  -- What a send leaves behind that hands its value to the receiver `r`.
  abbrev pub Delivered : ℕ → V → Scheduler V → ℕ → List ℕ → Type 0
  Delivered id v s r rest =
      (s' : Scheduler V) × (send id v s ≡ ok s')
      × Received r v s s'
      × ((ch' : Channel V) × Carries s' id ch' [] × (ch'.recv_queue ≡ rest))
      × (s'.run_queue ≡ s.run_queue ++ r ∷ s.current ∷ [])
      × ((s'.heap r).state ≡ ready)
      × ((s'.heap s.current).state ≡ ready)

  -- A send to a channel that carries a queue and on which no fiber waits to receive succeeds and puts the value at the end of
  -- the channel's queue. The sender is ready again, behind the other ready fibers, if the ring had
  -- room; otherwise it is blocked and the ready fibers are as before.
  pub send_appends :
      (id : ℕ) (v : V) (s : Scheduler V) (ch : Channel V) (q : List V)
      → Carries s id ch q
      → ch.recv_queue ≡ []
      → Sent id v s ch q
  send_appends id v s ch q c idle = elim (dec_lt ch.count ch.capacity) [
    | yes room ↦
        let (ch', put, holds, _, sends, recvs) = ring_put-Holds v ch c.ring c.inv.holds room in
        (
          enqueue s.current (put_channel id ch' s),
          send_room-eq id v s ch q c idle ch' put room,
          (ch', send_room-Carries id v s ch q c idle ch' holds sends recvs room, recvs ∙ idle),
          unfold enqueue put_channel in ground arith,
          unfold enqueue put_channel in ground arith,
        )
    | no full ↦ (
      send_blocked id ch v s,
      send_full-eq id v s ch q c idle (omega arith),
      (_, send_full-Carries id v s ch q c idle (omega arith), idle),
      unfold send_blocked in ground arith,
      unfold send_blocked in ground arith,
    )
  ]

  send_delivers-Carries :
      (id : ℕ) (v : V) (s : Scheduler V) (ch : Channel V) (q : List V) (r : ℕ) (rest : List ℕ)
      → Carries s id ch q
      → ch.recv_queue ≡ r ∷ rest
      → let ch' = record ch { recv_queue = rest } in
        Carries (enqueue s.current (enqueue r (pushed r v (put_channel id ch' s)))) id ch' []
  unfolding enqueue put_channel
  send_delivers-Carries id v s ch q r rest c waits =
      let (none_held, idle, empty) = Carries-idle r rest c waits in
      let h = c.inv.holds in
      record {
        at = ground arith;
        ring = c.ring;
        inv = record {
          holds = Holds-waits ch ch.send_queue rest c.ring h;
          senders = inl idle;
          receivers = inr (none_held, idle);
        };
        queue = sym empty ∙ c.queue;
      }

  -- A send to a channel on which a fiber waits hands the value to the longest waiter, on top of its
  -- stack; the channel's queue is empty before and after, the waiter and then the sender go to the
  -- end of the run queue, and both are ready. The waiter must have room on its stack.
  pub send_delivers :
      (id : ℕ) (v : V) (s : Scheduler V) (ch : Channel V) (q : List V) (r : ℕ) (rest : List ℕ)
      → Carries s id ch q
      → ch.recv_queue ≡ r ∷ rest
      → HasRoom r s
      → Delivered id v s r rest
  unfolding put_channel
  send_delivers id v s ch q r rest c waits room =
      let ch' = record ch { recv_queue = rest } in
      let s' = pushed r v (put_channel id ch' s) in
      (
        enqueue s.current (enqueue r s'),
        unfold send send_on send_to_receiver in
            ground (arith, c.at, push-eq r v (put_channel id ch' s) room),
        enqueue-Received r s.current v s _
            (enqueue-Received r r v s s' (pushed-Received r v (put_channel id ch' s) room)),
        (ch', send_delivers-Carries id v s ch q r rest c waits, refl),
        unfold enqueue put_channel in
            ground (arith, append_assoc s.run_queue (r ∷ []) (s.current ∷ [])),
        unfold enqueue put_channel in ground arith,
        unfold enqueue put_channel in ground arith,
      )
