-- ===== src/Core/Tests.antt =====
-- Runs of the event queue's theorems.
use ultra_low_latency_hft_en.Prelude.{[]}
use ultra_low_latency_hft_en.Core.EventQueue.{Carries, init-Carries}
use ultra_low_latency_hft_en.Samples.{cancellation, empty_queue}

empty-Carries : Carries empty_queue []
empty-Carries = init-Carries (cancellation 0)
