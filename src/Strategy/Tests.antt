-- ===== src/Strategy/Tests.antt =====
-- Runs of the momentum strategy and of its theorems, at whole numbers: both weights of the averages
-- are 0 there, so a tick leaves the averages as they are.
use ultra_low_latency_hft_en.Prelude.{◌≡◌, refl, false, List, [], ◌∷◌}
use ultra_low_latency_hft_en.Prelude.Int.{ℤ, pos, ◌+ℤ◌, ◌-ℤ◌, ◌*ℤ◌, ◌/ℤ◌}
use ultra_low_latency_hft_en.Double.Whole.{whole_double}
use ultra_low_latency_hft_en.Core.Events.{buy, limit, MarketDataEvent}
use ultra_low_latency_hft_en.Core.EventQueue
use ultra_low_latency_hft_en.Strategy.Common.{Ambient, order_event}
use ultra_low_latency_hft_en.Strategy.Momentum.{Momentum, on_market_data}
use ultra_low_latency_hft_en.Strategy.Signals.{follow, Submitted, follow-Alternates}
use ultra_low_latency_hft_en.Samples.{order, tick, empty_queue}

abbrev surroundings : Ambient ℤ
surroundings = record {
  now = 5;
  first_now = 6;
  first_raw = order 0 buy limit 0 0;
  second_now = 7;
  second_raw = order 0 buy limit 0 0;
}

-- past its warm-up, with the short average far above the long one
abbrev rising : Momentum ℤ
rising = record {
  short_ema = pos 300;
  long_ema = pos 100;
  count = 60;
  position_open = false;
  next_order_id = 2_000_000;
}

abbrev feed : List (Ambient ℤ × MarketDataEvent ℤ)
feed = (surroundings, tick 120) ∷ (surroundings, tick 130) ∷ []

-- it buys at the first tick and waits at the second
follow-feed :
    (follow feed (rising, empty_queue)).1
    ≡ EventQueue.push_all
        (order_event 2 2_000_000 buy (pos 121) (pos 1) 6 (order 0 buy limit 0 0) ∷ [])
        empty_queue
unfolding follow on_market_data EventQueue.push_all EventQueue.push ◌+ℤ◌ ◌-ℤ◌ ◌*ℤ◌ ◌/ℤ◌
follow-feed = refl

follow-Alternates_example : Submitted (rising, empty_queue) (follow feed (rising, empty_queue))
follow-Alternates_example = follow-Alternates feed (rising, empty_queue)
