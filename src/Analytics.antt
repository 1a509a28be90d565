-- ===== src/Analytics.antt =====
-- `analytics/latency_monitor.hpp`: latency samples and their statistics. Each method that takes the
-- mutex holds it throughout, so its body is one step.
pub mod Percentiles
mod Tests
use ultra_low_latency_hft_en.Prelude.{
  ℕ, ◌-◌, ◌/◌, ◌&&◌, Option, none, some, List, [], ◌∷◌, ◌++◌, length, get_elem?, ltb, if◌then◌else◌,
  add_u64,
}
use ultra_low_latency_hft_en.Prelude.Int.{pos}
use ultra_low_latency_hft_en.Prelude.Sort.{sort}
use ultra_low_latency_hft_en.Double.{Double, whole, ◌⊗◌}

pub record LatencyMonitor : Type 0 where
  pub signal_to_order_samples : List ℕ
  pub order_to_fill_samples : List ℕ
  pub total_samples : List ℕ

pub record Stats : Type 0 where
  pub p50_ns : ℕ
  pub p90_ns : ℕ
  pub p99_ns : ℕ
  pub avg_ns : ℕ
  pub count : ℕ

abbrev pub init : LatencyMonitor
init = record { signal_to_order_samples = []; order_to_fill_samples = []; total_samples = [] }

-- the body that the three `record_` methods share: a sample only if the start is set and comes first
unfoldable pub sample : ℕ → ℕ → List ℕ → List ℕ
sample start finish samples =
    if ltb 0 start && ltb start finish then samples ++ (finish - start) ∷ [] else samples

unfoldable pub record_signal_to_order : ℕ → ℕ → LatencyMonitor → LatencyMonitor
unfolding sample
record_signal_to_order signal_ts order_ts l = record l {
  signal_to_order_samples = sample signal_ts order_ts l.signal_to_order_samples;
}

unfoldable pub record_order_to_fill : ℕ → ℕ → LatencyMonitor → LatencyMonitor
unfolding sample
record_order_to_fill order_ts fill_ts l = record l {
  order_to_fill_samples = sample order_ts fill_ts l.order_to_fill_samples;
}

unfoldable pub record_total_latency : ℕ → ℕ → LatencyMonitor → LatencyMonitor
unfolding sample
record_total_latency signal_ts fill_ts l = record l {
  total_samples = sample signal_ts fill_ts l.total_samples;
}

unfoldable pub sum_from : ℕ → List ℕ → ℕ
sum_from sum [] = sum
sum_from sum (s ∷ samples) = sum_from (add_u64 sum s) samples

module _ {ℓ} {W : Type ℓ} ⦃d : Double W⦄ where
  -- `s.count * 0.50`, and so on, as an index
  abbrev pub index : W → ℕ → ℕ
  index fraction count = d.trunc (whole count ⊗ fraction)

unfoldable pub stats_of : Option ℕ → Option ℕ → Option ℕ → ℕ → ℕ → Option Stats
stats_of (some a) (some b) (some c) avg n =
    some (record { p50_ns = a; p90_ns = b; p99_ns = c; avg_ns = avg; count = n })
stats_of _ _ _ avg n = none

-- `compute_stats` over the type of doubles `W`: the statistics, and the samples that it leaves sorted.
-- A read out of bounds is `none`.
unfoldable pub compute_stats : (W : Type 0) ⦃d : Double W⦄ → List ℕ → Option Stats × List ℕ
unfolding sum_from stats_of
compute_stats W ⦃d⦄ [] =
    (some (record { p50_ns = 0; p90_ns = 0; p99_ns = 0; avg_ns = 0; count = 0 }), [])
compute_stats W ⦃d⦄ (s ∷ samples) =
    let sorted = sort ltb (s ∷ samples) in
    let n = length sorted in
    let at = λ (percent : ℕ). get_elem? sorted (index {W = W} (d.decimal (pos percent) 2) n) in
    (stats_of (at 50) (at 90) (at 99) (sum_from 0 sorted / n) n, sorted)

-- The three `get_` methods; each leaves its samples sorted.
unfoldable pub get_signal_to_order_stats :
    (W : Type 0) ⦃d : Double W⦄ → LatencyMonitor → Option Stats × LatencyMonitor
unfolding compute_stats
get_signal_to_order_stats W l =
    let (stats, samples) = compute_stats W l.signal_to_order_samples in
    (stats, record l { signal_to_order_samples = samples })

unfoldable pub get_order_to_fill_stats :
    (W : Type 0) ⦃d : Double W⦄ → LatencyMonitor → Option Stats × LatencyMonitor
unfolding compute_stats
get_order_to_fill_stats W l =
    let (stats, samples) = compute_stats W l.order_to_fill_samples in
    (stats, record l { order_to_fill_samples = samples })

unfoldable pub get_total_latency_stats :
    (W : Type 0) ⦃d : Double W⦄ → LatencyMonitor → Option Stats × LatencyMonitor
unfolding compute_stats
get_total_latency_stats W l =
    let (stats, samples) = compute_stats W l.total_samples in
    (stats, record l { total_samples = samples })
