-- ===== src/Channel/Fifo.antt =====
-- vm/channel.go: the ring buffer as a queue.
use native.Mathlib.Nat.{mod-add-mod, mod-eq_of_lt, mod-eq-sub-mod, add-zero}
use sydney.Base.{
  ℕ, zero, suc, ◌+◌, ◌-◌, ◌%◌, ◌<◌, ◌≤◌, ◌≡◌, refl, sym, ap, ◌∙◌, ◌≢◌, inl, inr, List, [], ◌∷◌,
  ◌++◌, some, length, get_elem?, set, length-set, length-append, length-replicate, ltb,
  if◌then◌else◌, ok, arith, Bool-cases,
}
use sydney.Channel.{SenderWait, Channel, new_channel, ring_put, ring_take}

pub get_elem?-set_self {ℓ} :
    {A : Type ℓ} (xs : List A) (i : ℕ) (v : A) → i < length xs → get_elem? (set xs i v) i ≡ some v
get_elem?-set_self [] i v h = elim h [ ]
get_elem?-set_self (x ∷ xs) zero v h = refl
get_elem?-set_self (x ∷ xs) (suc i) v h = get_elem?-set_self xs i v (omega arith)

get_elem?-set_ne {ℓ} :
    {A : Type ℓ} (xs : List A) (i j : ℕ) (v : A) → i ≢ j → get_elem? (set xs i v) j ≡ get_elem? xs j
get_elem?-set_ne [] i j v h = refl
get_elem?-set_ne (x ∷ xs) zero zero v h = absurd (h refl)
get_elem?-set_ne (x ∷ xs) zero (suc j) v h = refl
get_elem?-set_ne (x ∷ xs) (suc i) zero v h = refl
get_elem?-set_ne (x ∷ xs) (suc i) (suc j) v h = get_elem?-set_ne xs i j v (λ e. h (ap suc e))

-- Going round: `n` steps from an index below the capacity.
round :
    (cap h n : ℕ)
    → h < cap
    → n ≤ cap
    → (h + n) % cap ≡ (if ltb (h + n) cap then h + n else h + n - cap)
round cap h n hh hn = elim (Bool-cases (ltb (h + n) cap)) [
  | inl e ↦ rw e (mod-eq_of_lt (ground (arith, e)))
  | inr e ↦ rw e (
      mod-eq-sub-mod {n = h + n} {m = cap} (ground (arith, e))
      ∙ mod-eq_of_lt {n = h + n - cap} {m = cap} (ground (arith, e)))
]

-- Fewer than `cap` steps do not come back to the start.
round-ne : (cap h n : ℕ) → h < cap → 0 < n → n < cap → (h + n) % cap ≢ h
round-ne cap h n hh hp hn e = ground (arith, round cap h n hh (omega arith))

round-lt : (cap h n : ℕ) → h < cap → n ≤ cap → (h + n) % cap < cap
round-lt cap h n hh hn = ground (arith, round cap h n hh hn)

module _ {V : Type 0} where
  -- The values from an index on, going round at the capacity.
  abbrev pub Window : List V → ℕ → ℕ → List V → Type 0
  Window buffer cap h [] = Unit
  Window buffer cap h (x ∷ xs) =
      (get_elem? buffer h ≡ some x) × Window buffer cap ((h + 1) % cap) xs

  -- The ring of a channel holds the values `xs`, oldest first.
  pub record Holds (ch : Channel V) (xs : List V) : Type 0 where
    pub window : Window ch.buffer ch.capacity ch.head xs
    pub counted : ch.count ≡ length xs
    pub sized : length ch.buffer ≡ ch.capacity
    pub fits : ch.count ≤ ch.capacity
    pub head_lt : 0 < ch.capacity → ch.head < ch.capacity
    pub tail_at : 0 < ch.capacity → ch.tail ≡ (ch.head + ch.count) % ch.capacity

  -- What the ring holds does not depend on who waits.
  pub Holds-waits :
      (ch : Channel V) (senders : List (SenderWait V)) (receivers : List ℕ) (xs : List V)
      → Holds ch xs
      → Holds (record ch { send_queue = senders; recv_queue = receivers }) xs
  Holds-waits ch senders receivers xs h = record {
    window = h.window;
    counted = h.counted;
    sized = h.sized;
    fits = h.fits;
    head_lt = h.head_lt;
    tail_at = h.tail_at;
  }

  -- Writing behind a window that does not fill the buffer extends it.
  Window-put :
      (buffer : List V) (cap h i : ℕ) (xs : List V) (v : V)
      → length buffer ≡ cap
      → h < cap
      → length xs < cap
      → i ≡ (h + length xs) % cap
      → Window buffer cap h xs
      → Window (set buffer i v) cap h (xs ++ v ∷ [])
  Window-put buffer cap h i [] v s hh hn e w =
      (rw (e, add-zero, mod-eq_of_lt hh) (get_elem?-set_self buffer h v (omega arith)), tt)
  Window-put buffer cap h i (x ∷ xs) v s hh hn e (wx, w) = (
    get_elem?-set_ne buffer i h v
          (λ p. round-ne cap h (suc (length xs)) hh (omega arith) hn (ground (arith, p, e)))
        ∙ wx,
    Window-put buffer cap ((h + 1) % cap) i xs v s (round-lt cap h 1 hh (omega arith)) (omega arith)
        (e ∙ shift) w,
  )
    where
      shift : (h + suc (length xs)) % cap ≡ ((h + 1) % cap + length xs) % cap
      shift = rw mod-add-mod (ap (λ k. k % cap) (omega arith))

  -- A put into a ring with room succeeds, and adds the value at the end of the queue.
  pub ring_put-Holds :
      (v : V) (ch : Channel V) (xs : List V)
      → Holds ch xs
      → ch.count < ch.capacity
      → (ch' : Channel V) × (ring_put v ch ≡ ok ch')
        × Holds ch' (xs ++ v ∷ [])
        × (ch'.capacity ≡ ch.capacity)
        × (ch'.send_queue ≡ ch.send_queue)
        × (ch'.recv_queue ≡ ch.recv_queue)
  unfolding ring_put
  ring_put-Holds v ch xs h room = (
    record ch {
      buffer = set ch.buffer ch.tail v;
      tail = (ch.tail + 1) % ch.capacity;
      count = suc ch.count;
    },
    ground (arith, in_buffer),
    record {
      window =
          Window-put ch.buffer ch.capacity ch.head ch.tail xs v h.sized head_lt
            (ground (arith, h.counted)) (ground (arith, tail_at, h.counted)) h.window;
      counted = omega (arith, h.counted, length-append xs (v ∷ []));
      sized = length-set ch.buffer ch.tail v ∙ h.sized;
      fits = room;
      head_lt = h.head_lt;
      tail_at = λ _. rw (tail_at, mod-add-mod) (ap (λ k. k % ch.capacity) (omega arith));
    },
    refl,
    refl,
    refl,
  )
    where
      head_lt : ch.head < ch.capacity
      head_lt = h.head_lt (omega arith)

      tail_at : ch.tail ≡ (ch.head + ch.count) % ch.capacity
      tail_at = h.tail_at (omega arith)

      in_buffer : ch.tail < length ch.buffer
      in_buffer =
          omega
            (arith, round-lt ch.capacity ch.head ch.count head_lt (omega arith), tail_at, h.sized)

  -- A take from a ring that holds values succeeds, and gives the oldest.
  pub ring_take-Holds :
      (ch : Channel V) (x : V) (xs : List V)
      → Holds ch (x ∷ xs)
      → (ch' : Channel V) × (ring_take ch ≡ ok (x, ch'))
        × Holds ch' xs
        × (ch'.capacity ≡ ch.capacity)
        × (ch'.send_queue ≡ ch.send_queue)
        × (ch'.recv_queue ≡ ch.recv_queue)
  unfolding ring_take
  ring_take-Holds ch x xs h = (
    record ch { head = (ch.head + 1) % ch.capacity; count = ch.count - 1 },
    rw h.window.0,
    record {
      window = h.window.1;
      counted = omega (arith, h.counted);
      sized = h.sized;
      fits = omega arith;
      head_lt = λ p. round-lt ch.capacity ch.head 1 (h.head_lt p) p;
      tail_at = λ p. h.tail_at p ∙ shift;
    },
    refl,
    refl,
    refl,
  )
    where
      shift :
          (ch.head + ch.count) % ch.capacity
          ≡ ((ch.head + 1) % ch.capacity + (ch.count - 1)) % ch.capacity
      shift = rw mod-add-mod (ap (λ k. k % ch.capacity) (omega arith))

  pub new_channel-Holds : (nil : V) (capacity : ℕ) → Holds (new_channel nil capacity) []
  unfolding new_channel
  new_channel-Holds nil capacity = record {
    window = tt;
    counted = refl;
    sized = length-replicate capacity nil;
    fits = omega arith;
    head_lt = λ h. h;
    tail_at = λ h. sym (mod-eq_of_lt h);
  }
