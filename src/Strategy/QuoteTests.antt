-- ===== src/Strategy/QuoteTests.antt =====
-- A run of the market maker and of its theorem, at whole numbers.
use ultra_low_latency_hft_en.Prelude.{◌≡◌, ◌⊎◌, refl, List, [], ◌∷◌}
use ultra_low_latency_hft_en.Prelude.Int.{ℤ, pos, ◌+ℤ◌, ◌-ℤ◌, ◌*ℤ◌, ◌/ℤ◌}
use ultra_low_latency_hft_en.Double.Whole.{whole_double, ℤ-IsOrdered, ℤ-IsRounding}
use ultra_low_latency_hft_en.Core.Events.{Event, buy, sell, limit}
use ultra_low_latency_hft_en.Core.EventQueue
use ultra_low_latency_hft_en.OrderBook
use ultra_low_latency_hft_en.OrderBook.{OrderBook, get_top_bids, get_top_asks}
use ultra_low_latency_hft_en.Strategy.Common.{Ambient, order_event}
use ultra_low_latency_hft_en.Strategy.MarketMaker.{
  MarketMaker, init, on_market_data, quote, requote, target_bid, target_ask, cancel_event,
  cancel_all, cancel_ids, submit_bid, submit_ask, submit_order,
}
use ultra_low_latency_hft_en.Strategy.Quotes.{Quotes, Waits, on_market_data-Quotes}
use ultra_low_latency_hft_en.Strategy.Passive.{ArePassive, quotes_keep_off}
use ultra_low_latency_hft_en.Samples.{order, empty_queue}

-- one level on each side, 90 and 110, of the same quantity
abbrev book : OrderBook ℤ
book = record (OrderBook.init) {
  bids = record { price = pos 90; quantity = pos 1 } ∷ [];
  asks = record { price = pos 110; quantity = pos 1 } ∷ [];
}

abbrev later : Ambient ℤ
later = record {
  now = 60_000_000;
  first_now = 6;
  first_raw = order 0 buy limit 0 0;
  second_now = 7;
  second_raw = order 0 buy limit 0 0;
}

-- with an order that it quoted before
abbrev maker : MarketMaker ℤ
maker = record (init) { active_orders = 3 ∷ [] }

requotes :
    (on_market_data later book (maker, empty_queue)).1
    ≡ EventQueue.push_all
        (cancel_event 3
          ∷ order_event 1 1_000_000 buy (pos 90) (pos 1) 6 (order 0 buy limit 0 0)
          ∷ order_event 1 1_000_001 sell (pos 110) (pos 1) 7 (order 0 buy limit 0 0)
          ∷ [])
        empty_queue
unfolding on_market_data quote requote target_bid target_ask cancel_all cancel_ids submit_bid
    submit_ask submit_order init OrderBook.init get_top_bids get_top_asks EventQueue.push_all
    EventQueue.push ◌+ℤ◌ ◌-ℤ◌ ◌*ℤ◌ ◌/ℤ◌
requotes = refl

on_market_data-Quotes_example :
    ((on_market_data later book (maker, empty_queue) ≡ (maker, empty_queue))
      × Waits later maker (get_top_bids (pos 1) book) (get_top_asks (pos 1) book))
    ⊎ Quotes later
        (get_top_bids (pos 1) book)
        (get_top_asks (pos 1) book)
        (maker, empty_queue)
        (on_market_data later book (maker, empty_queue))
on_market_data-Quotes_example = on_market_data-Quotes later book (maker, empty_queue)

quotes_keep_off_example :
    (events : List (Event ℤ)) × ((on_market_data later book (maker, empty_queue)).1
      ≡ EventQueue.push_all events empty_queue)
    × ArePassive
        (record { price = pos 90; quantity = pos 1 })
        (record { price = pos 110; quantity = pos 1 })
        events
unfolding get_top_bids get_top_asks OrderBook.init
quotes_keep_off_example =
    quotes_keep_off ℤ-IsOrdered ℤ-IsRounding later book
      (record { price = pos 90; quantity = pos 1 }) (record { price = pos 110; quantity = pos 1 })
      [] [] (maker, empty_queue) refl refl refl refl
