-- ===== src/Core/LatencyTracker/Tests.antt =====
-- Two racing calls of `record`, and the theorems on them.
use ultra_low_latency_hft_en.Prelude.{
  ℕ, ◌+◌, ◌%◌, ◌^◌, ◌≡◌, refl, Bool, true, false, List, [], ◌∷◌, All, map, arith,
}
use ultra_low_latency_hft_en.Core.LatencyTracker.{
  Metric, Call, called, trying, returned, step, step_at, run,
}
use ultra_low_latency_hft_en.Core.LatencyTracker.Races.{sum, largest, is_returned, record_race}

abbrev empty : Metric
empty = record { total_ns = 0; max_ns = 0; count = 0 }

-- Both calls load the maximum before either writes it, so the second exchange fails once.
abbrev schedule : List (ℕ × Bool)
schedule =
    (0, false)
    ∷ (1, false)
    ∷ (0, false)
    ∷ (1, false)
    ∷ (0, false)
    ∷ (1, false)
    ∷ (0, false)
    ∷ (1, false)
    ∷ (1, false)
    ∷ []

abbrev before_retry : List Call
before_retry = returned 5 ∷ trying 9 5 ∷ []

run-schedule :
    run schedule (map called (5 ∷ 9 ∷ [])) empty
    ≡ (returned 5 ∷ returned 9 ∷ [], record { total_ns = 14; max_ns = 9; count = 2 })
unfolding run step_at step
run-schedule = refl

all_returned : All (λ c. is_returned c ≡ true) (run schedule (map called (5 ∷ 9 ∷ [])) empty).0
unfolding run step_at step is_returned
all_returned = (refl, (refl, tt))

record_race_example :
    ((run schedule (map called (5 ∷ 9 ∷ [])) empty).1.total_ns ≡ (0 + sum (5 ∷ 9 ∷ [])) % 2 ^ 64)
    × ((run schedule (map called (5 ∷ 9 ∷ [])) empty).1.count ≡ (0 + 2) % 2 ^ 64)
    × ((run schedule (map called (5 ∷ 9 ∷ [])) empty).1.max_ns ≡ largest 0 (5 ∷ 9 ∷ []))
record_race_example =
    record_race schedule (5 ∷ 9 ∷ []) empty (omega arith) (omega arith) all_returned
