-- ===== src/Core/RingBuffer/Tests.antt =====
-- Runs of the ring buffer and of its theorems.
use ultra_low_latency_hft_en.Prelude.{ℕ, ◌≡◌, refl, true, false, none, some, List, [], ◌∷◌, arith}
use ultra_low_latency_hft_en.Core.RingBuffer.{init, next}
use ultra_low_latency_hft_en.Core.RingBuffer.Fifo
use ultra_low_latency_hft_en.Core.RingBuffer.Fifo.{Call, Reply}
use ultra_low_latency_hft_en.Core.RingBuffer.Refines.{init-Represents, run, run_refines}

-- more pushes than the three slots hold, and pops round the end
abbrev calls : List (Call ℕ)
calls =
    Call.push 7
    ∷ Call.push 8
    ∷ Call.push 9
    ∷ Call.size
    ∷ Call.pop
    ∷ Call.push 5
    ∷ Call.pop
    ∷ Call.pop
    ∷ Call.pop
    ∷ []

abbrev replies : List (Reply ℕ)
replies =
    Reply.pushed true
    ∷ Reply.pushed true
    ∷ Reply.pushed false
    ∷ Reply.sized 2
    ∷ Reply.popped (some 7)
    ∷ Reply.pushed true
    ∷ Reply.popped (some 8)
    ∷ Reply.popped (some 5)
    ∷ Reply.popped none
    ∷ []

run-calls : run 3 calls (init 3 0) ≡ replies
unfolding run init next
run-calls = refl

run_refines_example : run 3 calls (init 3 0) ≡ Fifo.run 2 calls []
run_refines_example =
    run_refines 3 calls (init 3 0) [] (init-Represents 3 0 (omega arith) (omega arith))
