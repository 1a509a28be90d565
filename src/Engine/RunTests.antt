-- ===== src/Engine/RunTests.antt =====
-- Two runs of the program, over whole numbers with coarse fractions: in one an order is filled, in the other
-- one comes to rest. The theorems on the way of an order are applied to them.
use ultra_low_latency_hft_en.Prelude.{
  ℕ, ◌≤◌, All, arith, ◌+◌, ◌*◌, ◌/◌, ◌^◌, ◌≡◌, refl, some, none, List, [], ◌∷◌, length, ltb,
  if◌then◌else◌, replicate, ◌++◌,
}
use ultra_low_latency_hft_en.Prelude.Int.{ℤ, ◌*ℤ◌, ◌+ℤ◌, ◌-ℤ◌, pos, pos_part}
use ultra_low_latency_hft_en.Double.{Double}
use ultra_low_latency_hft_en.Double.Whole.{whole_double}
use ultra_low_latency_hft_en.Core.Events.{Event, OrderRequest, buy, limit}
use ultra_low_latency_hft_en.Core.EventQueue
use ultra_low_latency_hft_en.Engine.{System, Surroundings, start, handle, dispatch}
use ultra_low_latency_hft_en.Engine.Polling.{Round, process, Within, started-Within}
use ultra_low_latency_hft_en.Samples.{order, tick, cancellation}
use ultra_low_latency_hft_en.Core.RingBuffer
use ultra_low_latency_hft_en.Core.EventQueue
use ultra_low_latency_hft_en.OrderBook
use ultra_low_latency_hft_en.Strategy.MarketMaker
use ultra_low_latency_hft_en.Strategy.Momentum
use ultra_low_latency_hft_en.Strategy
use ultra_low_latency_hft_en.Oms
use ultra_low_latency_hft_en.Risk
use ultra_low_latency_hft_en.Exchange
use ultra_low_latency_hft_en.Engine
use ultra_low_latency_hft_en.Engine.Polling
use ultra_low_latency_hft_en.Engine.FlowPaths.{ends_of}
use ultra_low_latency_hft_en.Engine.Ledger.{IsLedger, fills_on, accounts_agree}
use ultra_low_latency_hft_en.Engine.OrderEnds.{
  given_out, ended_once, IsKnown, IsExpected, exchange-IsKnown,
}

abbrev surroundings : Surroundings ℤ
surroundings = record {
  ambient = λ i. record {
    now = 1000;
    first_now = 1001;
    first_raw = order 0 buy limit 0 0;
    second_now = 1002;
    second_raw = order 0 buy limit 0 0;
  };
  order_now = 1003;
  fill_now = 1004;
  total_now = 1005;
}

abbrev coarse : Double ℤ
coarse = record whole_double {
  decimal = λ m k. pos ((pos_part m + 10 ^ k / 2) / 10 ^ k);
  div = λ x y. pos (if ltb (pos_part y) 20 then 1 else 0);
}

-- a round before which this tick is pushed
abbrev ticked : ℕ → Round ℤ
ticked price = record { fed = (tick price, 5) ∷ []; surroundings = λ i. surroundings }

-- a round before which nothing is
abbrev quiet : Round ℤ
quiet = record { fed = []; surroundings = λ i. surroundings }

-- The momentum strategy buys on the rise after its warm-up, and is filled.
abbrev filled_rounds : List (Round ℤ)
filled_rounds = replicate 49 (ticked 100) ++ ticked 200 ∷ replicate 3 quiet

-- The price rises before the order comes to the exchange, where it rests.
abbrev rested_rounds : List (Round ℤ)
rested_rounds = replicate 49 (ticked 100) ++ ticked 200 ∷ ticked 300 ∷ quiet ∷ []

-- the state after some rounds
abbrev after : List (Round ℤ) → System ℤ
after rounds = elim (process ⦃d = coarse⦄ rounds (start ⦃d = coarse⦄ (cancellation 0))) [
  | none ↦ start ⦃d = coarse⦄ (cancellation 0)
  | some s ↦ s
]

after-Within :
    (rounds : List (Round ℤ))
    → Within ⦃d = coarse⦄
        (cancellation 0)
        (4 * length rounds)
        (record { system = after rounds; batch = [] })
after-Within rounds =
    let (s, e, r) = started-Within ⦃d = coarse⦄ (cancellation 0) rounds in rw (e, after) r

-- what was filled: the position, and the trades in the history
one_fill :
    ((after filled_rounds).risk.current_position ≡ pos 1)
    × (length (after filled_rounds).trade_history ≡ 1)
unfolding RingBuffer.next RingBuffer.init RingBuffer.push RingBuffer.pop EventQueue.init
    EventQueue.push EventQueue.pop OrderBook.init OrderBook.get_top_bids MarketMaker.on_market_data
    Momentum.init Momentum.on_market_data Strategy.on_market_data Strategy.update_position
    Oms.validate_order Oms.handle_order_request Risk.init Risk.check_order Risk.update_position
    Exchange.init Exchange.update_market_price Exchange.process_order Engine.start Engine.handle
    Engine.poll Polling.process ◌*ℤ◌ ◌+ℤ◌ ◌-ℤ◌
one_fill = (refl, refl)

-- one order rests
one_resting : length (after rested_rounds).matching_engine.resting_orders ≡ 1
unfolding RingBuffer.next RingBuffer.init RingBuffer.push RingBuffer.pop EventQueue.init
    EventQueue.push EventQueue.pop OrderBook.init OrderBook.get_top_bids MarketMaker.on_market_data
    Momentum.init Momentum.on_market_data Strategy.on_market_data Strategy.update_position
    Oms.validate_order Oms.handle_order_request Risk.init Risk.check_order Risk.update_position
    Exchange.init Exchange.update_market_price Exchange.process_order Engine.start Engine.handle
    Engine.poll Polling.process ◌*ℤ◌ ◌+ℤ◌ ◌-ℤ◌
one_resting = refl

filled :
    Within ⦃d = coarse⦄ (cancellation 0) 212 (record { system = after filled_rounds; batch = [] })
filled = after-Within filled_rounds

rested :
    Within ⦃d = coarse⦄ (cancellation 0) 208 (record { system = after rested_rounds; batch = [] })
rested = after-Within rested_rounds

accounts_agree_example :
    IsLedger ⦃d = coarse⦄ 2 (fills_on ⦃d = coarse⦄ filled.0) (after filled_rounds)
accounts_agree_example =
    accounts_agree ⦃d = coarse⦄ 2 (cancellation 0)
      (record { system = after filled_rounds; batch = [] }) filled.0

ended_once_example :
    (ends_of ⦃d = coarse⦄ 2_000_000 filled.0 ≤ 1)
    × (ends_of ⦃d = coarse⦄ 2_000_000 filled.0
        ≤ given_out ⦃d = coarse⦄ 2_000_000 (after filled_rounds).strategy)
ended_once_example =
    ended_once ⦃d = coarse⦄ 2_000_000 (cancellation 0)
      (record { system = after filled_rounds; batch = [] }) filled.0 (omega (arith, filled.1))

exchange-IsKnown_example :
    All
      (λ (order : OrderRequest ℤ).
        IsKnown ⦃d = coarse⦄ (after rested_rounds).order_manager order.order_id)
      (after rested_rounds).matching_engine.resting_orders
    × All
        (λ (e : Event ℤ).
          IsExpected ⦃d = coarse⦄ (after rested_rounds).order_manager e.type e.payload)
        []
exchange-IsKnown_example =
    exchange-IsKnown ⦃d = coarse⦄ (cancellation 0)
      (record { system = after rested_rounds; batch = [] }) rested.0 (omega (arith, rested.1))
