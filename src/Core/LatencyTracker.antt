-- ===== src/Core/LatencyTracker.antt =====
-- `core/latency_tracker.hpp`: totals, maxima and counts that several threads record at once. Each
-- access of an atomic is one step, and the steps of different calls interleave in any order.
pub mod Steps
pub mod Races
mod Tests
use ultra_low_latency_hft_en.Prelude.{
  ℕ, zero, suc, ◌+◌, ◌%◌, ◌^◌, Bool, true, false, not, ◌&&◌, List, [], ◌∷◌, ◌==◌, ltb,
  if◌then◌else◌, add_u64,
}
use ultra_low_latency_hft_en.Double.{Double, whole, ◌⊘◌}

pub record Metric : Type 0 where
  pub total_ns : ℕ
  pub max_ns : ℕ
  pub count : ℕ

pub record LatencyTracker : Type 0 where
  pub feed_to_parse : Metric
  pub parse_to_book : Metric
  pub book_to_strategy : Metric
  pub strategy_to_exec : Metric
  pub end_to_end : Metric

pub record Stats {ℓ} (W : Type ℓ) : Type ℓ where
  pub avg_ns : W
  pub max_ns : ℕ
  pub count : ℕ

-- Where a call `record(ns)` stands: before the first addition, before the second, before the load, at
-- the loop with a `current_max`, and at its end.
pub data Call : Type 0 where
  called : (ns : ℕ) → Call
  added : (ns : ℕ) → Call
  counted : (ns : ℕ) → Call
  trying : (ns current_max : ℕ) → Call
  returned : (ns : ℕ) → Call

-- The next step of a call; `spurious` says whether the weak exchange fails without a reason. A failed
-- exchange loads the maximum into `current_max`.
unfoldable pub step : Bool → Call → Metric → Call × Metric
step spurious (called ns) m = (added ns, record m { total_ns = add_u64 m.total_ns ns })
step spurious (added ns) m = (counted ns, record m { count = add_u64 m.count 1 })
step spurious (counted ns) m = (trying ns m.max_ns, m)
step spurious (trying ns current) m =
    if ltb current ns
    then if (m.max_ns == current) && not spurious
      then (returned ns, record m { max_ns = ns })
      else (trying ns m.max_ns, m)
    else (returned ns, m)
step spurious (returned ns) m = (returned ns, m)

-- The next step of the call at an index; nothing where there is none.
unfoldable pub step_at : ℕ → Bool → List Call → Metric → List Call × Metric
step_at k spurious [] m = ([], m)
step_at zero spurious (c ∷ cs) m = let (c', m') = step spurious c m in (c' ∷ cs, m')
step_at (suc k) spurious (c ∷ cs) m = let (cs', m') = step_at k spurious cs m in (c ∷ cs', m')

-- A schedule: whose step is next, and whether an exchange in it fails spuriously.
unfoldable pub run : List (ℕ × Bool) → List Call → Metric → List Call × Metric
run [] cs m = (cs, m)
run ((k, spurious) ∷ schedule) cs m = let (cs', m') = step_at k spurious cs m in run schedule cs' m'

-- A call of `record` that no other one disturbs: four steps, after which it has returned.
unfoldable pub record_ns : ℕ → Metric → Metric
unfolding run
record_ns ns m = (run ((0, false) ∷ (0, false) ∷ (0, false) ∷ (0, false) ∷ []) (called ns ∷ []) m).1

unfoldable pub record_feed_to_parse : ℕ → LatencyTracker → LatencyTracker
record_feed_to_parse ns t = record t { feed_to_parse = record_ns ns t.feed_to_parse }

unfoldable pub record_parse_to_book : ℕ → LatencyTracker → LatencyTracker
record_parse_to_book ns t = record t { parse_to_book = record_ns ns t.parse_to_book }

unfoldable pub record_book_to_strategy : ℕ → LatencyTracker → LatencyTracker
record_book_to_strategy ns t = record t { book_to_strategy = record_ns ns t.book_to_strategy }

unfoldable pub record_strategy_to_exec : ℕ → LatencyTracker → LatencyTracker
record_strategy_to_exec ns t = record t { strategy_to_exec = record_ns ns t.strategy_to_exec }

unfoldable pub record_end_to_end : ℕ → LatencyTracker → LatencyTracker
record_end_to_end ns t = record t { end_to_end = record_ns ns t.end_to_end }

module _ {ℓ} {W : Type ℓ} ⦃d : Double W⦄ where
  -- between calls of `record`
  unfoldable pub get_stats : Metric → Stats W
  get_stats m =
      if m.count == 0
      then record { avg_ns = whole 0; max_ns = 0; count = 0 }
      else record { avg_ns = whole m.total_ns ⊘ whole m.count; max_ns = m.max_ns; count = m.count }

  unfoldable pub get_feed_to_parse_stats : LatencyTracker → Stats W
  unfolding get_stats
  get_feed_to_parse_stats t = get_stats t.feed_to_parse

  unfoldable pub get_parse_to_book_stats : LatencyTracker → Stats W
  unfolding get_stats
  get_parse_to_book_stats t = get_stats t.parse_to_book

  unfoldable pub get_book_to_strategy_stats : LatencyTracker → Stats W
  unfolding get_stats
  get_book_to_strategy_stats t = get_stats t.book_to_strategy

  unfoldable pub get_strategy_to_exec_stats : LatencyTracker → Stats W
  unfolding get_stats
  get_strategy_to_exec_stats t = get_stats t.strategy_to_exec

  unfoldable pub get_end_to_end_stats : LatencyTracker → Stats W
  unfolding get_stats
  get_end_to_end_stats t = get_stats t.end_to_end
