-- ===== src/Core/EventQueue.antt =====
-- `core/event_queue.hpp`: the ring buffer of 1024 slots through which all components talk, and the
-- count of pushes.
use ultra_low_latency_hft_en.Prelude.{
  ℕ, ◌+◌, ◌%◌, ◌^◌, ◌≤◌, ◌≡◌, refl, ◌∙◌, subst, Bool, Option, List, [], ◌∷◌, ◌++◌, append-nil,
  append_assoc, length, length-append, ltb, if◌then◌else◌, add_u64, arith,
}
use ultra_low_latency_hft_en.Core.Events.{Event}
use ultra_low_latency_hft_en.Core.RingBuffer
use ultra_low_latency_hft_en.Core.RingBuffer.{RingBuffer}
use ultra_low_latency_hft_en.Core.RingBuffer.Fifo
use ultra_low_latency_hft_en.Core.RingBuffer.Refines.{
  Represents, init-Represents, push_refines, pop_refines, size_refines,
}

abbrev pub default_size : ℕ
default_size = 1024

-- How many events the queue takes.
abbrev pub capacity : ℕ
capacity = 1023

pub record EventQueue {ℓ} (W : Type ℓ) : Type ℓ where
  pub queue : RingBuffer (Event W)
  pub total_pushed : ℕ

module _ {ℓ} {W : Type ℓ} where
  unfoldable pub init : Event W → EventQueue W
  init blank = record { queue = RingBuffer.init default_size blank; total_pushed = 0 }

  unfoldable pub push : Event W → EventQueue W → Bool × EventQueue W
  push event q =
      let total = add_u64 q.total_pushed 1 in
      let (done, ring) = RingBuffer.push default_size event q.queue in
      (done, record { queue = ring; total_pushed = total })

  unfoldable pub pop : EventQueue W → Option (Event W) × EventQueue W
  pop q =
      let (event, ring) = RingBuffer.pop default_size q.queue in (event, record q { queue = ring })

  unfoldable pub size : EventQueue W → ℕ
  size q = RingBuffer.size_of default_size q.queue

  -- The queue after a component pushed these events, first to last, and ignored each result.
  unfoldable pub push_all : List (Event W) → EventQueue W → EventQueue W
  push_all [] q = q
  push_all (event ∷ events) q = push_all events (push event q).1

  -- The events that wait in the queue, oldest first.
  abbrev pub Carries : EventQueue W → List (Event W) → Type ℓ
  Carries q events = Represents default_size q.queue events

  pub init-Carries : (blank : Event W) → Carries (init blank) []
  unfolding init
  init-Carries blank = init-Represents default_size blank (omega arith) (omega arith)

  -- On a queue that carries some events, `push` appends the event if fewer than 1023 wait, drops it
  -- otherwise, says which, and counts it in either case.
  pub push_lem :
      (event : Event W) (q : EventQueue W) (events : List (Event W))
      → Carries q events
      → ((push event q).0 ≡ ltb (length events) capacity)
        × Carries
            (push event q).1
            (if ltb (length events) capacity then events ++ event ∷ [] else events)
        × ((push event q).1.total_pushed ≡ (q.total_pushed + 1) % 2 ^ 64)
  unfolding push Fifo.enqueue
  push_lem event q events v =
      let (b, v') = push_refines default_size event q.queue events v in
      (
        b ∙ enqueued events,
        subst (Represents default_size (RingBuffer.push default_size event q.queue).1)
            (queued events) v',
        refl,
      )
    where
      enqueued :
          (es : List (Event W)) → (Fifo.enqueue capacity event es).0 ≡ ltb (length es) capacity
      enqueued es = ground arith

      queued :
          (es : List (Event W))
          → (Fifo.enqueue capacity event es).1
            ≡ (if ltb (length es) capacity then es ++ event ∷ [] else es)
      queued es = ground arith

  pub pop_lem :
      (q : EventQueue W) (events : List (Event W))
      → Carries q events
      → ((pop q).0 ≡ (Fifo.dequeue events).0)
        × Carries (pop q).1 (Fifo.dequeue events).1
        × ((pop q).1.total_pushed ≡ q.total_pushed)
  unfolding pop
  pop_lem q events v = let (o, v') = pop_refines default_size q.queue events v in (o, v', refl)

  pub size_lem :
      (q : EventQueue W) (events : List (Event W)) → Carries q events → size q ≡ length events
  unfolding size
  size_lem q events v = size_refines default_size q.queue events v

  pub push_all-append :
      (es fs : List (Event W)) (q : EventQueue W)
      → push_all (es ++ fs) q ≡ push_all fs (push_all es q)
  unfolding push_all
  push_all-append [] fs q = refl
  push_all-append (e ∷ es) fs q = push_all-append es fs (push e q).1

  -- Events that find room are carried in the order in which they were pushed, behind the waiting ones.
  pub push_all-Carries :
      (es : List (Event W)) (q : EventQueue W) (events : List (Event W))
      → length events + length es ≤ capacity
      → Carries q events
      → Carries (push_all es q) (events ++ es)
  unfolding push_all
  push_all-Carries [] q events h v = rw append-nil v
  push_all-Carries (e ∷ es) q events h v =
      let room : ltb (length events) capacity ≡ Bool.true = ground arith in
      let v' =
        subst (λ b. Carries (push e q).1 (if b then events ++ e ∷ [] else events)) room
          (push_lem e q events v).1 in
      subst (Carries (push_all es (push e q).1)) (append_assoc events (e ∷ []) es) (
        push_all-Carries es (push e q).1 (events ++ e ∷ [])
          (omega (arith, length-append events (e ∷ []))) v')
