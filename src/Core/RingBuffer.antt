-- ===== src/Core/RingBuffer.antt =====
-- `core/ring_buffer.hpp`: the ring buffer, its calls one after another. A load or store of an atomic
-- is a read or write of the field. `Threads` has the calls step by step.
pub mod Fifo
pub mod Refines
pub mod Threads
pub mod Races
pub mod Delivery
pub mod Calls
mod Tests
mod RaceTests
use ultra_low_latency_hft_en.Prelude.{
  ℕ, ◌+◌, ◌-◌, ◌%◌, Bool, true, false, Option, none, some, List, get_elem?, set, replicate, ltb,
  leb, ◌==◌, if◌then◌else◌, add_u64,
}

pub record RingBuffer {ℓ} (T : Type ℓ) : Type ℓ where
  pub buffer : List T
  pub head : ℕ
  pub tail : ℕ

-- `(i + 1) % Size`
unfoldable pub next : ℕ → ℕ → ℕ
next size i = add_u64 i 1 % size

-- `size` is the template argument `Size`.
module _ {ℓ} {T : Type ℓ} (size : ℕ) where
  -- The constructor; `blank` is the value-initialised element.
  unfoldable pub init : T → RingBuffer T
  init blank = record { buffer = replicate size blank; head = 0; tail = 0 }

  unfoldable pub push : T → RingBuffer T → Bool × RingBuffer T
  push item r =
      let next_head = next size r.head in
      if next_head == r.tail
      then (false, r)
      else (true, record r { buffer = set r.buffer r.head item; head = next_head })

  -- A read out of bounds is `none` too; `Refines` shows that there is none.
  unfoldable pub pop : RingBuffer T → Option T × RingBuffer T
  pop r =
      if r.tail == r.head
      then (none, r)
      else (get_elem? r.buffer r.tail, record r { tail = next size r.tail })

  unfoldable pub size_of : RingBuffer T → ℕ
  size_of r = if leb r.tail r.head then r.head - r.tail else size - (r.tail - r.head)
