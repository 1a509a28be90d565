-- ===== src/Engine/Tests.antt =====
-- The theorems on the event loop at a concrete state: one tick was fed and taken.
use ultra_low_latency_hft_en.Prelude.{◌≡◌, refl, some, List, [], ◌∷◌}
use ultra_low_latency_hft_en.Prelude.Int.{ℤ}
use ultra_low_latency_hft_en.Double.Whole.{whole_double}
use ultra_low_latency_hft_en.Core.Events.{buy, limit}
use ultra_low_latency_hft_en.Core.EventQueue
use ultra_low_latency_hft_en.Core.RingBuffer
use ultra_low_latency_hft_en.Core.RingBuffer.{next as next_slot}
use ultra_low_latency_hft_en.Engine.{System, Surroundings, start, handle}
use ultra_low_latency_hft_en.Engine.Reachable.{
  Loop, Reaches, here, next, started, feed_event, feed, take, handle_total,
}
use ultra_low_latency_hft_en.Engine.Idle.{IsIdle, Reaches-IsIdle}
use ultra_low_latency_hft_en.Engine.Consistent.{IsConsistent, Reaches-IsConsistent}
use ultra_low_latency_hft_en.Engine.Polling.{Round, process, process-Reaches}
use ultra_low_latency_hft_en.Samples.{order, tick, cancellation}

abbrev surroundings : Surroundings ℤ
surroundings = record {
  ambient = λ i. record {
    now = 1000;
    first_now = 1001;
    first_raw = order 0 buy limit 0 0;
    second_now = 1002;
    second_raw = order 0 buy limit 0 0;
  };
  order_now = 1003;
  fill_now = 1004;
  total_now = 1005;
}

abbrev fed : System ℤ
fed = record (start (cancellation 0)) {
  event_queue = (EventQueue.push (feed_event (tick 100) 5) (start (cancellation 0)).event_queue).1;
}

abbrev taken : Loop ℤ
taken = record {
  system = record fed { event_queue = (EventQueue.pop fed.event_queue).1 };
  batch = feed_event (tick 100) 5 ∷ [];
}

taken-Reaches : Reaches (started (cancellation 0)) taken
unfolding start EventQueue.init EventQueue.push EventQueue.pop next_slot RingBuffer.pop
    RingBuffer.push RingBuffer.init
taken-Reaches =
    next (next here (feed (tick 100) 5 (record { system = fed; batch = [] }) refl))
      (take (feed_event (tick 100) 5) (EventQueue.pop fed.event_queue).1 taken refl refl)

handle_total_example :
    (s : System ℤ) × (handle surroundings (feed_event (tick 100) 5) taken.system ≡ some s)
handle_total_example =
    handle_total (cancellation 0) taken (feed_event (tick 100) 5) [] surroundings taken-Reaches refl

Reaches-IsIdle_example : IsIdle taken.system
Reaches-IsIdle_example = Reaches-IsIdle (cancellation 0) taken taken-Reaches

Reaches-IsConsistent_example : IsConsistent taken.system
Reaches-IsConsistent_example = Reaches-IsConsistent (cancellation 0) taken taken-Reaches

-- two rounds, with a tick before the first and two before the second
abbrev rounds : List (Round ℤ)
rounds =
    record { fed = (tick 100, 5) ∷ []; surroundings = λ i. surroundings }
    ∷ record { fed = (tick 101, 6) ∷ (tick 102, 7) ∷ []; surroundings = λ i. surroundings }
    ∷ []

process-Reaches_example :
    (s : System ℤ) × (process rounds (start (cancellation 0)) ≡ some s)
    × Reaches (started (cancellation 0)) (record { system = s; batch = [] })
process-Reaches_example = process-Reaches (cancellation 0) rounds
