-- ===== src/Ui/Tests.antt =====
-- A dashboard over whole numbers, with one strategy, one order and one trade.
use ultra_low_latency_hft_en.Prelude.{ℕ, ◌≤◌, ◌<◌, true, Option, some, [], ◌∷◌, All, length}
use ultra_low_latency_hft_en.Prelude.Int.{ℤ, pos}
use ultra_low_latency_hft_en.Double.Whole.{whole_double}
use ultra_low_latency_hft_en.Core.Events.{buy, limit, filled}
use ultra_low_latency_hft_en.OrderBook
use ultra_low_latency_hft_en.OrderBook.{OrderBook}
use ultra_low_latency_hft_en.Ui.{Dashboard, Print, screen}
use ultra_low_latency_hft_en.Ui.Layout.{IsApart}
use ultra_low_latency_hft_en.Ui.Screen.{screen-IsApart}
use ultra_low_latency_hft_en.Samples.{order, report}

abbrev shown : Dashboard ℤ
shown = record {
  total_pnl = pos 7;
  total_position = pos 1;
  strategy_stats =
      (
        2,
        record {
          realized_pnl = pos 3;
          unrealized_pnl = pos 4;
          position = pos 1;
          avg_price = pos 100;
          trades = 5;
        },
      )
      ∷ [];
  p99_latency_ns = 900;
  queue_depth = 0;
  events_per_sec = 10;
  open_orders = order 1 buy limit 99 1 ∷ [];
  trades = report 2 buy filled 100 1 ∷ [];
}

abbrev traded : OrderBook ℤ
traded =
    OrderBook.apply_trade
      (record {
        symbol = [];
        price = pos 100;
        quantity = pos 1;
        exchange_ts = 0;
        is_buyer_maker = true;
      })
      OrderBook.init

-- the key that quits
abbrev key : Option ℕ
key = some b'q'

screen-IsApart_example :
    IsApart (screen traded shown)
    × (length shown.strategy_stats ≤ 3 → All (λ (p : Print ℤ). p.row < 30) (screen traded shown))
screen-IsApart_example = screen-IsApart traded shown
