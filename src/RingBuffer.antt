-- ===== src/RingBuffer.antt =====
-- src/audio/ring_buffer.h: the queue between one producer and one consumer. A push and a pop are
-- sequences of atomic steps of their threads; the acquire and release accesses make every order of
-- what the threads do an interleaving of these steps. The capacity is 2 ^ k.
pub mod Indices
pub mod Queue
pub mod Steps
pub mod Fifo
mod Tests
use Prim.Native.Nat.{bit_and}
use pairion_client.Base.{
  ℕ, suc, ◌+◌, ◌-◌, ◌%◌, ◌^◌, Bool, true, false, Option, none, some, List, [], ◌∷◌, ◌++◌, ◌==◌,
  if◌then◌else◌,
}

-- What the threads share.
pub record RingBuffer (A : Type 0) : Type 0 where
  pub values : ℕ → A
  pub write_idx : ℕ
  pub read_idx : ℕ

-- Where the producer stands in `push`, and the consumer in `pop`, with their local variables.
pub data Producer (A : Type 0) : Type 0 where
  outside : Producer A
  loaded : (item : A) (w : ℕ) → Producer A
  free : (item : A) (w : ℕ) → Producer A
  stored : (item : A) (w : ℕ) → Producer A

pub data Consumer (A : Type 0) : Type 0 where
  outside : Consumer A
  loaded : (r : ℕ) → Consumer A
  filled : (r : ℕ) → Consumer A
  moved : (r : ℕ) (item : A) → Consumer A

-- The memory and the threads; and what was pushed and popped so far, oldest first, with what the
-- last finished call of each thread returned.
pub record System (A : Type 0) : Type 0 where
  pub ring : RingBuffer A
  pub producer : Producer A
  pub consumer : Consumer A
  pub pushed : List A
  pub popped : List A
  pub push_result : Option Bool
  pub pop_result : Option Bool

abbrev pub capacity : ℕ → ℕ
capacity k = 2 ^ k

-- `x & kMask`
unfoldable pub mask : ℕ → ℕ → ℕ
mask k x = bit_and x (capacity k - 1)

module _ {A : Type 0} (k : ℕ) where
  abbrev pub write : ℕ → A → (ℕ → A) → ℕ → A
  write w item values i = if i == w then item else values i

  -- `push(item)` from its first line to the next access to memory.
  abbrev pub push : A → Producer A → System A → System A
  push item Producer.outside s = record s { producer = Producer.loaded item s.ring.write_idx }
  push item (Producer.loaded x w) s = s
  push item (Producer.free x w) s = s
  push item (Producer.stored x w) s = s

  -- The next step of a push that has begun.
  unfoldable pub push_step : Producer A → System A → System A
  push_step Producer.outside s = s
  push_step (Producer.loaded item w) s =
      if mask k (w + 1) == s.ring.read_idx
      then record s { producer = Producer.outside; push_result = some false }
      else record s { producer = Producer.free item w }
  push_step (Producer.free item w) s = record s {
    ring = record s.ring { values = write w item s.ring.values };
    producer = Producer.stored item w;
  }
  push_step (Producer.stored item w) s = record s {
    ring = record s.ring { write_idx = mask k (w + 1) };
    producer = Producer.outside;
    pushed = s.pushed ++ (item ∷ []);
    push_result = some true;
  }

  -- The next step of the consumer; outside, a pop begins.
  unfoldable pub pop_step : Consumer A → System A → System A
  pop_step Consumer.outside s = record s { consumer = Consumer.loaded s.ring.read_idx }
  pop_step (Consumer.loaded r) s =
      if r == s.ring.write_idx
      then record s { consumer = Consumer.outside; pop_result = some false }
      else record s { consumer = Consumer.filled r }
  pop_step (Consumer.filled r) s = record s { consumer = Consumer.moved r (s.ring.values r) }
  pop_step (Consumer.moved r item) s = record s {
    ring = record s.ring { read_idx = mask k (r + 1) };
    consumer = Consumer.outside;
    popped = s.popped ++ (item ∷ []);
    pop_result = some true;
  }

  -- One thread alone: `isEmpty`, `isFull`, and `size`, whose difference wraps at 2 ^ 64.
  unfoldable pub is_empty : RingBuffer A → Bool
  is_empty ring = ring.read_idx == ring.write_idx

  unfoldable pub is_full : RingBuffer A → Bool
  is_full ring = mask k (ring.write_idx + 1) == ring.read_idx

  unfoldable pub size : RingBuffer A → ℕ
  size ring = mask k ((2 ^ 64 + ring.write_idx - ring.read_idx) % 2 ^ 64)

-- A new buffer of default values, with no call begun.
abbrev pub new : {A : Type 0} → A → System A
new default = record {
  ring = record { values = λ i. default; write_idx = 0; read_idx = 0 };
  producer = Producer.outside;
  consumer = Consumer.outside;
  pushed = [];
  popped = [];
  push_result = none;
  pop_result = none;
}
