-- ===== src/Exchange/Sweep.antt =====
-- `update_market_price`: which resting orders fill, what is reported of them, and which stay.
use ultra_low_latency_hft_en.Prelude.{
  ℕ, ◌+◌, ◌≡◌, refl, ap, inl, inr, Bool, true, false, none, some, List, [], ◌∷◌, All, arith,
  Bool-cases, Option-cases, add_u64, keep, length,
}
use ultra_low_latency_hft_en.Double.{Double, whole, ◌⊕◌, ◌⊖◌, ◌⊘◌}
use ultra_low_latency_hft_en.Prelude.Int.{pos}
use ultra_low_latency_hft_en.Core.Events.{
  Event, MarketDataEvent, OrderRequest, OrderSide, buy, sell, filled,
}
use ultra_low_latency_hft_en.Core.EventQueue
use ultra_low_latency_hft_en.Core.EventQueue.{EventQueue}
use ultra_low_latency_hft_en.Exchange.{
  MatchingEngine, Exchange, execution_event, crossing, sweep, update_market_price, matching_price,
}

module _ {ℓ} {W : Type ℓ} ⦃d : Double W⦄ where
  -- The order does not reach the best price of the other side.
  unfoldable pub stays : (bid ask : W) → OrderRequest W → Bool
  stays bid ask order = elim (crossing bid ask order order.side) [ some _ ↦ false | none ↦ true ]

  -- The reports that a sweep owes: a complete fill for each order that crosses, at the best price of
  -- the other side, in the order of arrival and with consecutive trade ids.
  unfoldable pub fills : (bid ask : W) → ℕ → List (OrderRequest W) → List (Event W)
  fills bid ask id [] = []
  fills bid ask id (order ∷ orders) = elim (crossing bid ask order order.side) [
    | some price ↦
        execution_event order price order.quantity filled order.signal_ts order.order_ts id
        ∷ fills bid ask (add_u64 id 1) orders
    | none ↦ fills bid ask id orders
  ]

  -- the trade id after that many reports
  unfoldable pub advance : ℕ → List (Event W) → ℕ
  advance id [] = id
  advance id (_ ∷ events) = advance (add_u64 id 1) events

  -- the prices that a trade sets
  abbrev pub bid_at : W → W
  bid_at price = price ⊖ d.decimal (pos 5) 1 ⊘ whole 2

  abbrev pub ask_at : W → W
  ask_at price = price ⊕ d.decimal (pos 5) 1 ⊘ whole 2

  -- What the sweep leaves of the engine and the queue.
  abbrev swept : List (OrderRequest W) → Exchange W → List (OrderRequest W) × Exchange W
  swept orders (m, q) =
      let reports = fills m.current_best_bid m.current_best_ask m.next_trade_id orders in
      (
        keep (stays m.current_best_bid m.current_best_ask) orders,
        (
          record m { next_trade_id = advance m.next_trade_id reports },
          EventQueue.push_all reports q,
        ),
      )

  -- The loop erases exactly the orders that cross, keeps the others in order, and pushes the reports.
  sweep_lem :
      (orders : List (OrderRequest W)) (m : MatchingEngine W) (q : EventQueue W)
      → sweep orders (m, q) ≡ swept orders (m, q)
  unfolding sweep stays fills advance EventQueue.push_all
  sweep_lem [] m q = refl
  sweep_lem (order ∷ orders) m q =
      elim (Option-cases (crossing m.current_best_bid m.current_best_ask order order.side)) [
        | inl e ↦ rw (e, sweep, stays, fills) (ap (λ r. (order ∷ r.0, r.1)) (sweep_lem orders m q))
        | inr (price, e) ↦ rw (e, sweep, stays, fills) (sweep_lem orders _ _)
      ]

  -- `update_market_price` sets the best bid and ask to the price of the trade less and plus half of the spread
  -- of 0.5. It fills, completely and at the new price of the other side, exactly the resting orders that reach
  -- it, with consecutive trade ids and in the order of arrival, whatever their prices; the others rest on in
  -- their order.
  pub update_market_price_lem :
      (md : MarketDataEvent W) (m : MatchingEngine W) (q : EventQueue W)
      → let bid = bid_at md.price in
        let ask = ask_at md.price in
        let reports = fills bid ask m.next_trade_id m.resting_orders in
        update_market_price md (m, q) ≡ (
          record m {
            current_best_bid = bid;
            current_best_ask = ask;
            next_trade_id = advance m.next_trade_id reports;
            resting_orders = keep (stays bid ask) m.resting_orders;
          },
          EventQueue.push_all reports q,
        )
  unfolding update_market_price
  update_market_price_lem md m q =
      ap (λ r. (record r.1.0 { resting_orders = r.0 }, r.1.1))
        (sweep_lem m.resting_orders
          (record m { current_best_bid = bid_at md.price; current_best_ask = ask_at md.price }) q)

  -- No resting order could be matched at the current prices.
  abbrev pub IsQuietAt : (bid ask : W) → List (OrderRequest W) → Type ℓ
  IsQuietAt bid ask = All (λ order. matching_price bid ask order order.side ≡ none)

  abbrev pub IsQuiet : MatchingEngine W → Type ℓ
  IsQuiet m = IsQuietAt m.current_best_bid m.current_best_ask m.resting_orders

  stays-unmatched :
      (bid ask : W) (order : OrderRequest W) (side : OrderSide)
      → crossing bid ask order side ≡ none
      → matching_price bid ask order side ≡ none
  stays-unmatched bid ask order buy e = ground arith
  stays-unmatched bid ask order sell e = ground arith

  stays-none :
      (bid ask : W) (order : OrderRequest W)
      → stays bid ask order ≡ true
      → crossing bid ask order order.side ≡ none
  unfolding stays
  stays-none bid ask order e = ground arith

  keep-IsQuietAt :
      (bid ask : W) (orders : List (OrderRequest W))
      → IsQuietAt bid ask (keep (stays bid ask) orders)
  keep-IsQuietAt bid ask [] = tt
  keep-IsQuietAt bid ask (order ∷ orders) = elim (Bool-cases (stays bid ask order)) [
    | inl e ↦ rw e (
      stays-unmatched bid ask order order.side (stays-none bid ask order e),
      keep-IsQuietAt bid ask orders,
    )
    | inr e ↦ rw e (keep-IsQuietAt bid ask orders)
  ]

  -- Whatever rested before, no order that rests after `update_market_price` could be matched.
  pub update_market_price-IsQuiet :
      (md : MarketDataEvent W) (m : MatchingEngine W) (q : EventQueue W)
      → IsQuiet (update_market_price md (m, q)).0
  update_market_price-IsQuiet md m q =
      rw (update_market_price_lem md m q)
        (keep-IsQuietAt (bid_at md.price) (ask_at md.price) m.resting_orders)

  length-fills :
      (bid ask : W) (id : ℕ) (orders : List (OrderRequest W))
      → length (fills bid ask id orders) + length (keep (stays bid ask) orders) ≡ length orders
  unfolding fills stays
  length-fills bid ask id [] = omega arith
  length-fills bid ask id (order ∷ orders) =
      ground (arith, length-fills bid ask id orders, length-fills bid ask (add_u64 id 1) orders)
