-- ===== src/Scheduler/Receive.antt =====
-- vm/scheduler.go: what `receive` does to the channel and the fibers.
use mathlib.Core.Path.{subst}
use sydney.Base.{
  ℕ, ◌<◌, ◌≤◌, ◌≡◌, refl, ap, ◌∙◌, ◌⊎◌, inl, inr, List, [], ◌∷◌, ◌++◌, append_assoc, append-nil,
  some, length, length-append, ok, arith,
}
use sydney.Channel.{SenderWait, Channel, ring_put, ring_take}
use sydney.Channel.Fifo.{Holds, Holds-waits, ring_put-Holds, ring_take-Holds}
use sydney.Scheduler.{
  ready, blocked, Scheduler, enqueue, put_channel, receive, receive_on, receive_from_ring,
  receive_from_sender, receive_blocked,
}
use sydney.Scheduler.Carries.{
  empty_of_length, waiting, Inv, Carries, Received, HasRoom, pushed, push-eq, pushed-Received,
  enqueue-Received,
}

module _ {V : Type 0} where
  -- What a receive that finds a value leaves behind.
  abbrev pub Taken : ℕ → V → List V → Scheduler V → Type 0
  Taken id v q s =
      (s' : Scheduler V) × (receive id s ≡ ok s')
      × Received s.current v s s'
      × ((ch' : Channel V) × Carries s' id ch' q × (ch'.recv_queue ≡ []))
      × ((s'.heap s.current).state ≡ ready)

  -- A channel that no fiber waits on to receive, as the proofs below build it.
  carried :
      (s : Scheduler V) (id : ℕ) (ch : Channel V) (xs q : List V)
      → s.channels id ≡ some ch
      → Holds ch xs
      → (ch.send_queue ≡ []) ⊎ (ch.count ≡ ch.capacity)
      → ch.recv_queue ≡ []
      → q ≡ xs ++ waiting ch.send_queue
      → (ch' : Channel V) × Carries s id ch' q × (ch'.recv_queue ≡ [])
  carried s id ch xs q at h senders idle e = (
    ch,
    record {
      at = at;
      ring = xs;
      inv = record { holds = h; senders = senders; receivers = inl idle };
      queue = e;
    },
    idle,
  )

  module _ (id : ℕ) (v : V) (q : List V) (s : Scheduler V) (ch : Channel V)
      (at : s.channels id ≡ some ch) (idle : ch.recv_queue ≡ []) (room : HasRoom s.current s) where
    -- A value from the ring, with no sender to let through.
    take_ring-eq :
        (ch' : Channel V)
        → ring_take ch ≡ ok (v, ch')
        → 0 < ch.count
        → ch.count ≤ ch.capacity
        → ch'.send_queue ≡ []
        → receive id s ≡ ok (enqueue s.current (put_channel id ch' (pushed s.current v s)))
    unfolding receive receive_on receive_from_ring
    take_ring-eq ch' take full fits none_waits = ground (arith, at, push-eq s.current v s room)

    take_ring : (xs : List V) → Holds ch (v ∷ xs) → ch.send_queue ≡ [] → q ≡ xs → Taken id v q s
    take_ring xs h none_waits e =
        let (ch', take, holds, cap, sends, recvs) = ring_take-Holds ch v xs h in
        let s' = pushed s.current v s in
        (
          enqueue s.current (put_channel id ch' s'),
          take_ring-eq ch' take (omega (arith, h.counted)) h.fits (sends ∙ none_waits),
          unfold put_channel in
              enqueue-Received s.current s.current v s (put_channel id ch' s')
                (pushed-Received s.current v s room),
          carried _ id ch' xs q (unfold enqueue put_channel in ground arith) holds
              (inl (sends ∙ none_waits)) (recvs ∙ idle) (rw (e, sends, none_waits, append-nil)),
          unfold enqueue put_channel in ground arith,
        )

    -- A value from the ring; the first blocked sender's value takes the free slot.
    take_refill-eq :
        (ch' ch'' : Channel V) (w : SenderWait V) (ws : List (SenderWait V))
        → ring_take ch ≡ ok (v, ch')
        → 0 < ch.count
        → ch.count ≤ ch.capacity
        → ch'.send_queue ≡ w ∷ ws
        → ring_put w.value (record ch' { send_queue = ws }) ≡ ok ch''
        → receive id s
          ≡ ok (enqueue s.current (put_channel id ch'' (enqueue w.fiber (pushed s.current v s))))
    unfolding receive receive_on receive_from_ring
    take_refill-eq ch' ch'' w ws take full fits waits put =
        ground (arith, at, push-eq s.current v s room)

    take_refill :
        (xs : List V) (w : SenderWait V) (ws : List (SenderWait V))
        → Holds ch (v ∷ xs)
        → ch.send_queue ≡ w ∷ ws
        → ch.count ≡ ch.capacity
        → q ≡ xs ++ w.value ∷ waiting ws
        → Taken id v q s
    take_refill xs w ws h waits full e =
        let (ch', take, holds, cap, sends, recvs) = ring_take-Holds ch v xs h in
        let (ch'', put, holds', cap', sends', recvs') =
          ring_put-Holds w.value (record ch' { send_queue = ws }) xs
            (Holds-waits ch' ws ch'.recv_queue xs holds)
            (omega (arith, holds.counted, h.counted, cap, full)) in
        let s' = pushed s.current v s in
        (
          enqueue s.current (put_channel id ch'' (enqueue w.fiber s')),
          take_refill-eq ch' ch'' w ws take (omega (arith, h.counted)) h.fits (sends ∙ waits) put,
          unfold put_channel in
              enqueue-Received s.current s.current v s (put_channel id ch'' (enqueue w.fiber s'))
                (enqueue-Received s.current w.fiber v s s' (pushed-Received s.current v s room)),
          carried _ id ch'' (xs ++ w.value ∷ []) q (unfold enqueue put_channel in ground arith)
              holds'
              (inr (
                omega (
                  arith,
                  holds'.counted,
                  holds.counted,
                  h.counted,
                  cap,
                  cap',
                  full,
                  length-append xs (w.value ∷ []),
                )))
              (recvs' ∙ (recvs ∙ idle)) (rw (e, sends', append_assoc)),
          unfold enqueue put_channel in ground arith,
        )

    -- A value from the first blocked sender, at an empty ring.
    take_sender-eq :
        (w : SenderWait V) (ws : List (SenderWait V))
        → ch.count ≡ 0
        → ch.send_queue ≡ w ∷ ws
        → w.value ≡ v
        → receive id s
          ≡ ok (
              enqueue s.current (
                enqueue w.fiber
                  (pushed s.current v (put_channel id (record ch { send_queue = ws }) s))))
    unfolding receive receive_on receive_from_sender
    take_sender-eq w ws none_held waits e = ground (
      arith,
      at,
      push-eq s.current w.value (put_channel id (record ch { send_queue = ws }) s) room,
    )

    take_sender :
        (w : SenderWait V) (ws : List (SenderWait V))
        → Holds ch []
        → ch.send_queue ≡ w ∷ ws
        → ch.count ≡ ch.capacity
        → w.value ≡ v
        → q ≡ waiting ws
        → Taken id v q s
    take_sender w ws h waits full ev e =
        let ch' = record ch { send_queue = ws } in
        let s' = pushed s.current v (put_channel id ch' s) in
        (
          enqueue s.current (enqueue w.fiber s'),
          take_sender-eq w ws h.counted waits ev,
          enqueue-Received s.current s.current v s (enqueue w.fiber s') (
              enqueue-Received s.current w.fiber v s s'
                (unfold put_channel in pushed-Received s.current v (put_channel id ch' s) room)),
          carried _ id ch' [] q (unfold enqueue put_channel in ground arith)
              (Holds-waits ch ws ch.recv_queue [] h) (inr full) idle e,
          unfold enqueue put_channel in ground arith,
        )

    take_any :
        (ring : List V) (ws : List (SenderWait V))
        → Inv ch ring
        → ch.send_queue ≡ ws
        → v ∷ q ≡ ring ++ waiting ws
        → Taken id v q s
    take_any [] [] i waits e = cc
    take_any [] (w ∷ ws) i waits e =
        take_sender w ws i.holds waits (ground (arith, i.senders, waits)) (cc) (cc)
    take_any (x ∷ xs) [] i waits e =
        let same : x ≡ v = cc in
        take_ring xs (subst (λ y. Holds ch (y ∷ xs)) same i.holds) waits (cc (append-nil xs))
    take_any (x ∷ xs) (w ∷ ws) i waits e =
        let same : x ≡ v = cc in
        take_refill xs w ws (subst (λ y. Holds ch (y ∷ xs)) same i.holds) waits
          (ground (arith, i.senders, waits)) (cc)

  no_receiver :
      (id : ℕ) (v : V) (q : List V) (s : Scheduler V) (ch : Channel V)
      → Carries s id ch (v ∷ q)
      → ch.recv_queue ≡ []
  no_receiver id v q s ch c = elim c.inv.receivers [
    | inl e ↦ e
    | inr (none_held, no_senders) ↦
        let nothing : c.ring ≡ [] = empty_of_length c.ring (omega (arith, c.inv.holds.counted)) in
        let empty : v ∷ q ≡ [] = c.queue ∙ ground (arith, nothing, no_senders) in cc
  ]

  -- A receive on a channel that carries a value takes the oldest, on top of the receiver's stack, and
  -- leaves the rest of the queue: what the ring holds, and then what the blocked senders bring. The
  -- receiver is ready again. It must have room on its stack.
  pub receive_takes :
      (id : ℕ) (v : V) (q : List V) (s : Scheduler V) (ch : Channel V)
      → Carries s id ch (v ∷ q)
      → HasRoom s.current s
      → Taken id v q s
  receive_takes id v q s ch c room =
      take_any id v q s ch c.at (no_receiver id v q s ch c) room c.ring ch.send_queue c.inv refl
        c.queue

  empty_parts :
      (ring : List V) (ws : List (SenderWait V)) → [] ≡ ring ++ waiting ws → (ring ≡ []) × (ws ≡ [])
  empty_parts [] [] e = (refl, refl)
  empty_parts [] (w ∷ ws) e = cc
  empty_parts (x ∷ xs) ws e = cc

  receive-Waits-eq :
      (id : ℕ) (s : Scheduler V) (ch : Channel V)
      → s.channels id ≡ some ch
      → ch.count ≡ 0
      → ch.send_queue ≡ []
      → receive id s ≡ ok (receive_blocked id ch s)
  unfolding receive receive_on
  receive-Waits-eq id s ch at none_held no_senders = ground arith

  -- What a receive leaves behind that finds nothing.
  abbrev pub Waits : ℕ → Scheduler V → Channel V → Type 0
  Waits id s ch =
      (s' : Scheduler V) × (receive id s ≡ ok s')
      × ((ch' : Channel V) × Carries s' id ch' []
          × (ch'.recv_queue ≡ ch.recv_queue ++ s.current ∷ []))
      × ((s'.heap s.current).state ≡ blocked)
      × (s'.run_queue ≡ s.run_queue)

  -- A receive on a channel that carries nothing blocks the receiver behind those that wait there; the
  -- channel still carries nothing, and the ready fibers are as before.
  pub receive-Waits :
      (id : ℕ) (s : Scheduler V) (ch : Channel V) → Carries s id ch [] → Waits id s ch
  receive-Waits id s ch c =
      let (no_values, no_senders) = empty_parts c.ring ch.send_queue c.queue in
      let none_held : ch.count ≡ 0 = c.inv.holds.counted ∙ ap length no_values in
      let ch' = record ch { recv_queue = ch.recv_queue ++ s.current ∷ [] } in
      (
        receive_blocked id ch s,
        receive-Waits-eq id s ch c.at none_held no_senders,
        (
          ch',
          record {
            at = unfold receive_blocked in ground arith;
            ring = c.ring;
            inv = record {
              holds =
                  Holds-waits ch ch.send_queue (ch.recv_queue ++ s.current ∷ []) c.ring c.inv.holds;
              senders = inl no_senders;
              receivers = inr (none_held, no_senders);
            };
            queue = c.queue;
          },
          refl,
        ),
        unfold receive_blocked in ground arith,
        unfold receive_blocked in refl,
      )
