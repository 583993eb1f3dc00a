-- ===== src/Tests/Channels.antt =====
-- Tests of the modules on vm/channel.go and vm/scheduler.go.
use sydney.Base.{ℕ, ◌≡◌, refl, inl, inr, [], ◌∷◌, some, arith, pos, ok}
use sydney.Channel.{Channel}
use sydney.Scheduler.{
  Fiber, FiberState, running, blocked, Scheduler, drain_wakeups, drain, next, has_blocked_fibers,
  any_blocked,
}
use sydney.Scheduler.Carries.{Carries}
use sydney.Scheduler.Send.{Sent, Delivered, send_appends, send_delivers}
use sydney.Scheduler.Receive.{Taken, Waits, receive_takes, receive-Waits}
use sydney.Scheduler.Run.{run, no_fiber, finished, EndsIdle, run_idle}

abbrev fiber : FiberState → Fiber ℕ
fiber state = record { stack = 0 ∷ 0 ∷ 0 ∷ []; sp = 1; state = state }

-- Fiber 0 runs, and channel 1 is as given.
abbrev machine : Channel ℕ → Scheduler ℕ
machine ch = record {
  heap = λ _. fiber running;
  fibers = 2 ∷ [];
  run_queue = 2 ∷ [];
  current = 0;
  main_fiber = 0;
  channels = λ _. some ch;
  next_chan_id = 1;
  pending_wakeups = [];
  io_blocked_count = pos 0;
}

-- A channel of one slot, empty, on which fiber 2 waits to receive.
abbrev empty : Channel ℕ
empty = record {
  buffer = 0 ∷ [];
  capacity = 1;
  head = 0;
  tail = 0;
  count = 0;
  send_queue = [];
  recv_queue = [];
}

abbrev awaited : Channel ℕ
awaited = record empty { recv_queue = 2 ∷ [] }

-- The value 5 in the slot, and fiber 2 waiting to send 6.
abbrev full : Channel ℕ
full = record empty {
  buffer = 5 ∷ [];
  count = 1;
  send_queue = (record { fiber = 2; value = 6 }) ∷ [];
}

empty-Carries : Carries (machine empty) 1 empty []
empty-Carries = record {
  at = refl;
  ring = [];
  inv = record {
    holds = record {
      window = tt;
      counted = refl;
      sized = refl;
      fits = omega arith;
      head_lt = λ h. h;
      tail_at = λ h. refl;
    };
    senders = inl refl;
    receivers = inl refl;
  };
  queue = refl;
}

awaited-Carries : Carries (machine awaited) 1 awaited []
awaited-Carries = record {
  at = refl;
  ring = [];
  inv = record {
    holds = record {
      window = tt;
      counted = refl;
      sized = refl;
      fits = omega arith;
      head_lt = λ h. h;
      tail_at = λ h. refl;
    };
    senders = inl refl;
    receivers = inr (refl, refl);
  };
  queue = refl;
}

full-Carries : Carries (machine full) 1 full (5 ∷ 6 ∷ [])
full-Carries = record {
  at = refl;
  ring = 5 ∷ [];
  inv = record {
    holds = record {
      window = (refl, tt);
      counted = refl;
      sized = refl;
      fits = omega arith;
      head_lt = λ h. h;
      tail_at = λ h. refl;
    };
    senders = inr refl;
    receivers = inl refl;
  };
  queue = refl;
}

send_appends_example : Sent 1 7 (machine empty) empty []
send_appends_example = send_appends 1 7 (machine empty) empty [] empty-Carries refl

send_delivers_example : Delivered 1 7 (machine awaited) 2 []
send_delivers_example =
    send_delivers 1 7 (machine awaited) awaited [] 2 [] awaited-Carries refl (omega arith)

receive_takes_example : Taken 1 5 (6 ∷ []) (machine full)
receive_takes_example = receive_takes 1 5 (6 ∷ []) (machine full) full full-Carries (omega arith)

receive-Waits_example : Waits 1 (machine empty) empty
receive-Waits_example = receive-Waits 1 (machine empty) empty empty-Carries

-- The main fiber is blocked and no other is: the run ends in success.
abbrev stalled : Scheduler ℕ
stalled = record (machine empty) { heap = λ _. fiber blocked; run_queue = []; fibers = [] }

run-stalled : run ok 1 stalled ≡ finished stalled
unfolding run drain_wakeups drain next no_fiber has_blocked_fibers any_blocked
run-stalled = refl

run_idle_example : EndsIdle ok 4 stalled
run_idle_example =
    run_idle ok 4 stalled (record { no_wakeups = refl; no_ready = refl; no_awaited = refl })
