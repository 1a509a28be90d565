-- ===== src/Exchange/Tests.antt =====
-- Runs of the matching engine and of its theorems, at whole numbers: the spread of 0.5 becomes 1, and
-- half of it 0, so both best prices are the traded one.
use ultra_low_latency_hft_en.Prelude.{ℕ, ◌≡◌, refl, List, [], ◌∷◌, ◌++◌, keep}
use ultra_low_latency_hft_en.Prelude.Int.{ℤ, pos, ◌+ℤ◌, ◌-ℤ◌, ◌/ℤ◌}
use ultra_low_latency_hft_en.Double.{whole}
use ultra_low_latency_hft_en.Double.Whole.{whole_double}
use ultra_low_latency_hft_en.Core.Events.{Event, OrderRequest, buy, sell, limit, market, cancelled}
use ultra_low_latency_hft_en.Core.EventQueue
use ultra_low_latency_hft_en.Exchange.{
  MatchingEngine, init, process_order, update_market_price, execution_event, dummy_request,
}
use ultra_low_latency_hft_en.Exchange.Sweep.{
  stays, fills, advance, bid_at, ask_at, IsQuiet, update_market_price_lem,
}
use ultra_low_latency_hft_en.Exchange.Orders.{Answer, process_order-Answer}
use ultra_low_latency_hft_en.Exchange.Runs.{
  Command, run, run-IsQuiet, fill_of, cancelled_order_fills,
}
use ultra_low_latency_hft_en.Samples.{order, tick, empty_queue}

abbrev resting_buy : OrderRequest ℤ
resting_buy = order 7 buy limit 90 1

-- A trade at 100, then a bid at 90, which rests.
abbrev commands : List (Command ℤ)
commands = Command.market_price (tick 100) ∷ Command.order resting_buy ∷ []

abbrev quoted : MatchingEngine ℤ
quoted = record (init) {
  current_best_bid = pos 100;
  current_best_ask = pos 100;
  next_trade_id = 2;
  resting_orders = resting_buy ∷ [];
}

run-commands : (run commands (init, empty_queue)).0 ≡ quoted
unfolding run init process_order update_market_price ◌+ℤ◌ ◌-ℤ◌ ◌/ℤ◌
run-commands = refl

-- the market sell fills at once
process_order-Answer_example :
    Answer
      (order 8 sell market 0 2)
      market
      (quoted, empty_queue)
      (process_order (order 8 sell market 0 2) (quoted, empty_queue))
process_order-Answer_example = process_order-Answer (order 8 sell market 0 2) (quoted, empty_queue)

update_market_price_lem_example : update_market_price (tick 80) (quoted, empty_queue) ≡ (
  record quoted {
    current_best_bid = bid_at (pos 80);
    current_best_ask = ask_at (pos 80);
    next_trade_id = advance 2 (fills (bid_at (pos 80)) (ask_at (pos 80)) 2 (resting_buy ∷ []));
    resting_orders = keep (stays (bid_at (pos 80)) (ask_at (pos 80))) (resting_buy ∷ []);
  },
  EventQueue.push_all (fills (bid_at (pos 80)) (ask_at (pos 80)) 2 (resting_buy ∷ [])) empty_queue,
)
unfolding init
update_market_price_lem_example = update_market_price_lem (tick 80) quoted empty_queue

run-IsQuiet_example : IsQuiet (run commands (init, empty_queue)).0
run-IsQuiet_example = run-IsQuiet commands empty_queue

cancelled_order_fills_example :
    (k : ℕ) × (pre : List (Event ℤ)) × (post : List (Event ℤ)) × ((run
        (Command.cancel 7 ∷ Command.market_price (tick 80) ∷ [])
        (quoted, empty_queue)).1
      ≡ EventQueue.push_all
          (execution_event (dummy_request 7) (whole 0) (whole 0) cancelled 0 0 2
            ∷ (pre ++ fill_of resting_buy (ask_at (pos 80)) k ∷ post))
          empty_queue)
unfolding init ◌+ℤ◌ ◌-ℤ◌ ◌/ℤ◌
cancelled_order_fills_example =
    cancelled_order_fills quoted empty_queue [] [] resting_buy (tick 80) (ask_at (pos 80)) refl refl
