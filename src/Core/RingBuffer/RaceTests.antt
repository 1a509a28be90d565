-- ===== src/Core/RingBuffer/RaceTests.antt =====
-- Runs of the ring buffer with two threads, and the theorems on them.
use ultra_low_latency_hft_en.Prelude.{ℕ, ◌≡◌, ◌<◌, refl, true, List, [], ◌∷◌, ◌++◌, arith, length}
use ultra_low_latency_hft_en.Core.RingBuffer.{init, next}
use ultra_low_latency_hft_en.Core.RingBuffer.Refines.{Represents, init-Represents}
use ultra_low_latency_hft_en.Core.RingBuffer.Threads.{
  PushCall, Move, run, started, move, push_step, pop_step, sends, receives, start_push, start_pop,
}
use ultra_low_latency_hft_en.Core.RingBuffer.Delivery.{threads_deliver_in_order}
use ultra_low_latency_hft_en.Core.RingBuffer.Calls.{push_both, two_producers_lose_element}

-- 7 is sent; the consumer loads its tail, sees it, and has read it while 8 is on its way.
abbrev moves : List (Move ℕ)
moves =
    Move.offer 7
    ∷ Move.produce
    ∷ Move.ask
    ∷ Move.consume
    ∷ Move.produce
    ∷ Move.produce
    ∷ Move.produce
    ∷ Move.consume
    ∷ Move.offer 8
    ∷ Move.produce
    ∷ Move.consume
    ∷ Move.produce
    ∷ Move.produce
    ∷ Move.consume
    ∷ []

received_seven :
    ((run 3 moves (started 3 0)).received ≡ 7 ∷ [])
    × ((run 3 moves (started 3 0)).producer ≡ PushCall.publishing 8 1)
unfolding run started move push_step pop_step sends receives start_push start_pop init next
received_seven = (refl, refl)

threads_deliver_in_order_example :
    (q : List ℕ) × ((run 3 moves (started 3 0)).sent ≡ (run 3 moves (started 3 0)).received ++ q)
    × Represents 3 (run 3 moves (started 3 0)).ring q
    × (length q < 3)
threads_deliver_in_order_example = threads_deliver_in_order 3 moves 0 (omega arith) (omega arith)

two_producers_lose_element_example :
    ((push_both {T = ℕ} 3 5 6 (init 3 0)).0 ≡ (PushCall.pushed true, PushCall.pushed true))
    × Represents 3 (push_both {T = ℕ} 3 5 6 (init 3 0)).1 (6 ∷ [])
two_producers_lose_element_example =
    two_producers_lose_element 3 5 6 (init 3 0) [] (init-Represents 3 0 (omega arith) (omega arith))
      (omega arith)
