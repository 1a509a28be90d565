-- ===== src/Pnl/Tests.antt =====
-- Runs of the profit and loss engine and of its theorems, at whole numbers.
use ultra_low_latency_hft_en.Prelude.{◌≡◌, refl, List, [], ◌∷◌, arith}
use ultra_low_latency_hft_en.Prelude.Int.{ℤ, pos, negsuc, ◌+ℤ◌, ◌-ℤ◌, ◌*ℤ◌, ◌/ℤ◌}
use ultra_low_latency_hft_en.Double.Whole.{whole_double}
use ultra_low_latency_hft_en.Core.Events.{sell}
use ultra_low_latency_hft_en.Pnl.{
  PnlEngine, change, fill, on_fill, update_pnl, mark, mark_all, get_total_pnl, get_total_position,
  get_total_trades, get_win_rate,
}
use ultra_low_latency_hft_en.Pnl.Fills.{IsAscending, entry}
use ultra_low_latency_hft_en.Pnl.Books.{settled, alone, run-alone}
use ultra_low_latency_hft_en.Pnl.Equity.{Change, run, curve, drawdown, run-drawdown}

-- Long 4 at 100 for strategy 2, and flat but for a past gain of 7 for strategy 1.
abbrev holding : PnlEngine ℤ
holding = record {
  strategy_stats =
      (
        1,
        record {
          realized_pnl = pos 7;
          unrealized_pnl = pos 0;
          position = pos 0;
          avg_price = pos 90;
          trades = 1;
        },
      )
      ∷ (
        2,
        record {
          realized_pnl = pos 0;
          unrealized_pnl = pos 0;
          position = pos 4;
          avg_price = pos 100;
          trades = 0;
        },
      )
      ∷ [];
  last_price = pos 100;
  peak_equity = pos 7;
  max_drawdown = pos 0;
}

-- Sell 6 at 110: the long position closes with a gain of 40, and a short one of 2 opens at 110.
abbrev turned : PnlEngine ℤ
turned = on_fill 2 sell (pos 110) (pos 6) holding

turned-runs :
    (get_total_position turned ≡ negsuc 1)
    × (get_total_pnl turned ≡ pos 47)
    × (get_total_trades turned ≡ 2)
    × (get_win_rate turned ≡ pos 1)
unfolding on_fill change fill get_total_position get_total_pnl get_total_trades get_win_rate ◌+ℤ◌
    ◌-ℤ◌ ◌*ℤ◌ ◌/ℤ◌
turned-runs = (refl, refl, refl, refl)

holding-IsAscending : IsAscending holding.strategy_stats
holding-IsAscending = omega arith

abbrev session : List (Change ℤ)
session = Change.price (pos 95) ∷ Change.fill 2 sell (pos 110) (pos 6) ∷ Change.price (pos 120) ∷ []

-- The equity goes from 7 to -13 and then to 27.
session-runs : drawdown (pos 7) (pos 0) (curve session holding) ≡ (pos 27, pos 20)
unfolding curve drawdown on_fill change fill update_pnl mark mark_all get_total_pnl ◌+ℤ◌ ◌-ℤ◌ ◌*ℤ◌
    ◌/ℤ◌
session-runs = refl

run-drawdown_example :
    ((run session holding).peak_equity, (run session holding).max_drawdown)
    ≡ drawdown (pos 7) (pos 0) (curve session holding)
run-drawdown_example = run-drawdown session holding

-- fills of both strategies, with prices between
abbrev mixed : List (Change ℤ)
mixed =
    Change.price (pos 95)
    ∷ Change.fill 2 sell (pos 110) (pos 6)
    ∷ Change.fill 1 sell (pos 111) (pos 3)
    ∷ Change.price (pos 120)
    ∷ Change.fill 2 sell (pos 121) (pos 1)
    ∷ []

run-alone_example :
    settled (entry 2 (run mixed holding).strategy_stats)
    ≡ alone 2 mixed (settled (entry 2 holding.strategy_stats))
run-alone_example = run-alone 2 mixed holding holding-IsAscending
