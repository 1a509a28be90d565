-- ===== src/Core/RingBuffer/Threads.antt =====
-- `core/ring_buffer.hpp` with a producer thread and a consumer thread: each load, store and access of a
-- slot is a step, and the steps of the two interleave in any order.
use ultra_low_latency_hft_en.Prelude.{
  ℕ, Bool, true, false, Option, none, some, List, [], ◌∷◌, ◌++◌, ◌==◌, if◌then◌else◌, get_elem?,
  set,
}
use ultra_low_latency_hft_en.Core.RingBuffer.{RingBuffer, init, next}

-- Where a call `push(item)` stands, with its local `head`.
pub data PushCall {ℓ} (T : Type ℓ) : Type ℓ where
  called : (item : T) → PushCall T
  loaded : (item : T) (head : ℕ) → PushCall T
  storing : (item : T) (head : ℕ) → PushCall T
  publishing : (item : T) (head : ℕ) → PushCall T
  pushed : Bool → PushCall T

-- Where a call `pop()` stands, with its locals `tail` and `item`.
pub data PopCall {ℓ} (T : Type ℓ) : Type ℓ where
  called : PopCall T
  loaded : (tail : ℕ) → PopCall T
  reading : (tail : ℕ) → PopCall T
  releasing : (tail : ℕ) (item : Option T) → PopCall T
  popped : Option T → PopCall T

-- The two threads, the buffer, and what was sent and received so far, oldest first.
pub record Threads {ℓ} (T : Type ℓ) : Type ℓ where
  pub ring : RingBuffer T
  pub producer : PushCall T
  pub consumer : PopCall T
  pub sent : List T
  pub received : List T

-- A thread that has returned starts a call; a thread that is in a call takes its next step.
pub data Move {ℓ} (T : Type ℓ) : Type ℓ where
  offer : T → Move T
  produce : Move T
  ask : Move T
  consume : Move T

module _ {ℓ} {T : Type ℓ} where
  -- what the next step of the producer sends, and of the consumer receives
  unfoldable pub sends : PushCall T → List T
  sends (PushCall.publishing item head) = item ∷ []
  sends _ = []

  unfoldable pub receives : PopCall T → List T
  receives (PopCall.releasing tail (some item)) = item ∷ []
  receives _ = []

  unfoldable pub start_push : T → PushCall T → PushCall T
  start_push item (PushCall.pushed b) = PushCall.called item
  start_push item p = p

  unfoldable pub start_pop : PopCall T → PopCall T
  start_pop (PopCall.popped o) = PopCall.called
  start_pop c = c

module _ {ℓ} {T : Type ℓ} (size : ℕ) where
  unfoldable pub push_step : PushCall T → RingBuffer T → PushCall T × RingBuffer T
  push_step (PushCall.called item) r = (PushCall.loaded item r.head, r)
  push_step (PushCall.loaded item head) r =
      (if next size head == r.tail then PushCall.pushed false else PushCall.storing item head, r)
  push_step (PushCall.storing item head) r =
      (PushCall.publishing item head, record r { buffer = set r.buffer head item })
  push_step (PushCall.publishing item head) r =
      (PushCall.pushed true, record r { head = next size head })
  push_step (PushCall.pushed b) r = (PushCall.pushed b, r)

  unfoldable pub pop_step : PopCall T → RingBuffer T → PopCall T × RingBuffer T
  pop_step PopCall.called r = (PopCall.loaded r.tail, r)
  pop_step (PopCall.loaded tail) r =
      (if tail == r.head then PopCall.popped none else PopCall.reading tail, r)
  pop_step (PopCall.reading tail) r = (PopCall.releasing tail (get_elem? r.buffer tail), r)
  pop_step (PopCall.releasing tail item) r =
      (PopCall.popped item, record r { tail = next size tail })
  pop_step (PopCall.popped o) r = (PopCall.popped o, r)

  unfoldable pub move : Move T → Threads T → Threads T
  unfolding push_step pop_step
  move (Move.offer item) w = record w { producer = start_push item w.producer }
  move Move.produce w =
      let (p, r) = push_step w.producer w.ring in
      record w { ring = r; producer = p; sent = w.sent ++ sends w.producer }
  move Move.ask w = record w { consumer = start_pop w.consumer }
  move Move.consume w =
      let (c, r) = pop_step w.consumer w.ring in
      record w { ring = r; consumer = c; received = w.received ++ receives w.consumer }

  unfoldable pub run : List (Move T) → Threads T → Threads T
  run [] w = w
  run (m ∷ moves) w = run moves (move m w)

  -- a new buffer, and no call yet
  unfoldable pub started : T → Threads T
  started blank = record {
    ring = init size blank;
    producer = PushCall.pushed true;
    consumer = PopCall.popped none;
    sent = [];
    received = [];
  }
