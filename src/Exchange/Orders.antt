-- ===== src/Exchange/Orders.antt =====
-- `process_order`: what the exchange may answer to an order, and that each order gets such an answer.
use ultra_low_latency_hft_en.Prelude.{
  ◌≡◌, inl, inr, Bool, true, false, none, some, [], ◌∷◌, ◌++◌, if◌then◌else◌, arith, Bool-cases,
  Option-cases, add_u64,
}
use ultra_low_latency_hft_en.Double.{Double, le, ge, gt, whole}
use ultra_low_latency_hft_en.Core.Events.{
  OrderRequest, OrderSide, buy, sell, OrderType, limit, market, OrderStatus, filled, new, rejected,
}
use ultra_low_latency_hft_en.Core.EventQueue
use ultra_low_latency_hft_en.Core.EventQueue.{EventQueue}
use ultra_low_latency_hft_en.Exchange.{
  MatchingEngine, Exchange, execution_event, emit_execution, best_for, matching_price,
  match_market_order, match_limit_order, match_order, process_order,
}

module _ {ℓ} {W : Type ℓ} ⦃d : Double W⦄ where
  -- the price is no worse than the order's limit
  abbrev pub IsWithinLimit : OrderRequest W → W → OrderSide → Type 0
  IsWithinLimit order price buy = ge order.price price ≡ true
  IsWithinLimit order price sell = le order.price price ≡ true

  -- What the exchange may answer to an order of a type: the price, quantity and status of the report,
  -- and whether the order rests.
  pub data Verdict (m : MatchingEngine W) (order : OrderRequest W)
      : OrderType → W → W → OrderStatus → Bool → Type ℓ where
    -- a market order fills completely at the best price, if there is one
    market_filled :
        le (best_for m order.side) (whole 0) ≡ false
        → Verdict m order market (best_for m order.side) order.quantity filled false
    market_rejected :
        le (best_for m order.side) (whole 0) ≡ true
        → Verdict m order market (whole 0) (whole 0) rejected false
    -- a limit order fills completely at the best price, if that is within its limit
    limit_filled :
        gt (best_for m order.side) (whole 0) ≡ true
        → IsWithinLimit order (best_for m order.side) order.side
        → Verdict m order limit (best_for m order.side) order.quantity filled false
    -- otherwise it rests, and nothing matches it
    limit_rests :
        matching_price m.current_best_bid m.current_best_ask order order.side ≡ none
        → Verdict m order limit order.price (whole 0) new true

  -- The answer: one report is pushed, with the next trade id, and the order rests as the verdict says.
  abbrev pub answered :
      OrderRequest W → (price quantity : W) → OrderStatus → Bool → Exchange W → Exchange W
  answered order price quantity status rests (m, q) = (
    record m {
      next_trade_id = add_u64 m.next_trade_id 1;
      resting_orders = if rests then m.resting_orders ++ order ∷ [] else m.resting_orders;
    },
    (EventQueue.push
        (execution_event order price quantity status order.signal_ts order.order_ts m.next_trade_id)
        q).1,
  )

  -- An answer that a verdict allows.
  abbrev pub Answer : OrderRequest W → OrderType → Exchange W → Exchange W → Type ℓ
  Answer order type x x' =
      (price : W) × (quantity : W) × (status : OrderStatus) × (rests : Bool) × Verdict x.0 order
        type price quantity status rests
      × (x' ≡ answered order price quantity status rests x)

  match_market_order-Answer :
      (order : OrderRequest W) (x : Exchange W) → Answer order market x (match_market_order order x)
  unfolding match_market_order emit_execution
  match_market_order-Answer order (m, q) =
      elim (Bool-cases (le (best_for m order.side) (whole 0))) [
        | inl e ↦ (_, _, _, _, market_rejected e, rw e)
        | inr e ↦ (_, _, _, _, market_filled e, rw e)
      ]

  matching_price_best :
      (m : MatchingEngine W) (order : OrderRequest W) (side : OrderSide) (price : W)
      → matching_price m.current_best_bid m.current_best_ask order side ≡ some price
      → (price ≡ best_for m side)
        × (gt (best_for m side) (whole 0) ≡ true)
        × IsWithinLimit order (best_for m side) side
  matching_price_best m order buy price e = ground arith
  matching_price_best m order sell price e = ground arith

  match_limit_order-Answer :
      (order : OrderRequest W) (x : Exchange W) → Answer order limit x (match_limit_order order x)
  unfolding match_limit_order emit_execution
  match_limit_order-Answer order (m, q) =
      elim (Option-cases (matching_price m.current_best_bid m.current_best_ask order order.side)) [
        | inl e ↦ (_, _, _, _, limit_rests e, rw (e, match_limit_order))
        | inr (price, e) ↦
            let (best, positive, within) = matching_price_best m order order.side price e in
            (_, _, _, _, limit_filled positive within, rw (e, match_limit_order, best))
      ]

  -- `process_order` gives each order one of the answers that are allowed for its type, and does no
  -- more: a market order is filled completely at the opposite best price or rejected without one, a
  -- limit order is filled completely within its limit or rests; one report with a fresh trade id
  -- says which.
  pub process_order-Answer :
      (order : OrderRequest W) (x : Exchange W) → Answer order order.type x (process_order order x)
  unfolding process_order
  process_order-Answer order x = go order.type
    where
      go : (type : OrderType) → Answer order type x (match_order type order x)
      go market = match_market_order-Answer order x
      go limit = match_limit_order-Answer order x
