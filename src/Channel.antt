-- ===== src/Channel.antt =====
-- vm/channel.go: the run-time state of a channel, and the two accesses to its ring buffer that
-- vm/scheduler.go makes. A fiber is named by its pointer, a number; `elemType` and `closed` are
-- never read and are left out.
pub mod Fifo
use sydney.Base.{
  ℕ, suc, ◌+◌, ◌-◌, ◌%◌, List, [], ◌∷◌, length, get_elem?, set, ltb, if◌then◌else◌, replicate,
  Result, ok, panic, ◌>>=◌, or_panic,
}

pub record SenderWait (V : Type 0) : Type 0 where
  pub fiber : ℕ
  pub value : V

pub record Channel (V : Type 0) : Type 0 where
  pub buffer : List V
  pub capacity : ℕ
  pub head : ℕ
  pub tail : ℕ
  pub count : ℕ
  pub send_queue : List (SenderWait V)
  pub recv_queue : List ℕ

module _ {V : Type 0} where
  -- The channel that `registerChannel` makes; `nil` fills its buffer.
  unfoldable pub new_channel : V → ℕ → Channel V
  new_channel nil capacity = record {
    buffer = replicate capacity nil;
    capacity = capacity;
    head = 0;
    tail = 0;
    count = 0;
    send_queue = [];
    recv_queue = [];
  }

  -- `ch.buffer[ch.tail] = v`, then the tail and the count move on.
  unfoldable pub ring_put : V → Channel V → Result (Channel V)
  ring_put v ch =
      if ltb ch.tail (length ch.buffer)
      then ok (record ch {
        buffer = set ch.buffer ch.tail v;
        tail = (ch.tail + 1) % ch.capacity;
        count = suc ch.count;
      })
      else panic

  -- `value := ch.buffer[ch.head]`, then the head and the count move on.
  unfoldable pub ring_take : Channel V → Result (V × Channel V)
  ring_take ch = do
    v ← or_panic (get_elem? ch.buffer ch.head)
    ok (v, record ch { head = (ch.head + 1) % ch.capacity; count = ch.count - 1 })
