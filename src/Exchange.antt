-- ===== src/Exchange.antt =====
-- `exchange/matching_engine.{hpp,cpp}`: the simulated exchange, which matches orders against the last
-- traded price. Each public method holds the mutex throughout, so its body is one step; the queue
-- reference is threaded beside the engine. Log lines and the timing of `process_order` are left out.
pub mod Sweep
pub mod Orders
pub mod Runs
mod Tests
use ultra_low_latency_hft_en.Prelude.{
  ℕ, ◌+◌, ◌%◌, ◌^◌, Bool, true, false, ◌||◌, ◌&&◌, Option, none, some, List, [], ◌∷◌, ◌++◌,
  if◌then◌else◌, add_u64, replicate,
}
use ultra_low_latency_hft_en.Double.{Double, le, ge, gt, whole, ◌⊕◌, ◌⊖◌, ◌⊘◌}
use ultra_low_latency_hft_en.Prelude.Int.{pos}
use ultra_low_latency_hft_en.Core.Events.{
  Event, EventType, MarketDataEvent, OrderRequest, OrderSide, buy, sell, OrderType, limit, market,
  OrderStatus, filled, cancelled, rejected, new, partial, ExecutionReport, Payload,
}
use ultra_low_latency_hft_en.Core.EventQueue
use ultra_low_latency_hft_en.Core.EventQueue.{EventQueue}

pub record MatchingEngine {ℓ} (W : Type ℓ) : Type ℓ where
  pub current_best_bid : W
  pub current_best_ask : W
  pub current_bid_qty : W
  pub current_ask_qty : W
  pub next_trade_id : ℕ
  pub resting_orders : List (OrderRequest W)

-- The engine and the queue that it refers to.
abbrev pub Exchange {ℓ} : Type ℓ → Type ℓ
Exchange W = MatchingEngine W × EventQueue W

-- `status == OrderStatus::Filled`
abbrev pub is_filled : OrderStatus → Bool
is_filled filled = true
is_filled new = false
is_filled partial = false
is_filled cancelled = false
is_filled rejected = false

module _ {ℓ} {W : Type ℓ} ⦃d : Double W⦄ where
  unfoldable pub init : MatchingEngine W
  init = record {
    current_best_bid = whole 0;
    current_best_ask = whole 0;
    current_bid_qty = whole 0;
    current_ask_qty = whole 0;
    next_trade_id = 1;
    resting_orders = [];
  }

  -- the event that `emit_execution` builds
  abbrev pub execution_event :
      (order : OrderRequest W) (price quantity : W) (status : OrderStatus)
      (signal_ts order_ts trade_id : ℕ)
      → Event W
  execution_event order price quantity status signal_ts order_ts trade_id = record {
    type = EventType.execution_report;
    receive_ts = none;
    parse_ts = none;
    book_ts = none;
    strategy_ts = none;
    execution_ts = none;
    payload = Payload.execution_report (record {
      order_id = order.order_id;
      strategy_id = order.strategy_id;
      trade_id = trade_id;
      symbol = order.symbol;
      side = order.side;
      last_price = price;
      last_qty = quantity;
      cumulative_qty = quantity;
      leaves_qty = if is_filled status then whole 0 else order.quantity;
      status = status;
      signal_ts = signal_ts;
      order_ts = order_ts;
    });
  }

  unfoldable pub emit_execution :
      (order : OrderRequest W) (price quantity : W) (status : OrderStatus) (signal_ts order_ts : ℕ)
      → Exchange W
      → Exchange W
  emit_execution order price quantity status signal_ts order_ts (m, q) = (
    record m { next_trade_id = add_u64 m.next_trade_id 1 },
    (EventQueue.push
        (execution_event order price quantity status signal_ts order_ts m.next_trade_id) q).1,
  )

  -- the two tests of the sweep: the price at which a resting order fills
  abbrev pub crossing : (bid ask : W) → OrderRequest W → OrderSide → Option W
  crossing bid ask order buy = if ge order.price ask then some ask else none
  crossing bid ask order sell = if le order.price bid then some bid else none

  -- The loop over `resting_orders_`: what is erased is reported, what stays is returned in order.
  unfoldable pub sweep : List (OrderRequest W) → Exchange W → List (OrderRequest W) × Exchange W
  unfolding emit_execution
  sweep [] x = ([], x)
  sweep (order ∷ orders) x =
      elim (crossing x.0.current_best_bid x.0.current_best_ask order order.side) [
        | some price ↦
            sweep orders
              (emit_execution order price order.quantity filled order.signal_ts order.order_ts x)
        | none ↦ let (rest, x') = sweep orders x in (order ∷ rest, x')
      ]

  unfoldable pub update_market_price : MarketDataEvent W → Exchange W → Exchange W
  unfolding sweep
  update_market_price md (m, q) =
      let spread = d.decimal (pos 5) 1 in
      let start = record m {
        current_best_bid = md.price ⊖ spread ⊘ whole 2;
        current_best_ask = md.price ⊕ spread ⊘ whole 2;
      } in
      let (rest, (m', q')) = sweep m.resting_orders (start, q) in
      (record m' { resting_orders = rest }, q')

  abbrev pub best_for : MatchingEngine W → OrderSide → W
  best_for m buy = m.current_best_ask
  best_for m sell = m.current_best_bid

  unfoldable pub match_market_order : OrderRequest W → Exchange W → Exchange W
  unfolding emit_execution
  match_market_order order (m, q) =
      let match_price = best_for m order.side in
      if le match_price (whole 0)
      then emit_execution order (whole 0) (whole 0) rejected order.signal_ts order.order_ts (m, q)
      else emit_execution order match_price order.quantity filled order.signal_ts order.order_ts
          (m, q)

  -- `can_match`, with the price
  abbrev pub matching_price : (bid ask : W) → OrderRequest W → OrderSide → Option W
  matching_price bid ask order buy =
      if gt ask (whole 0) && ge order.price ask then some ask else none
  matching_price bid ask order sell =
      if gt bid (whole 0) && le order.price bid then some bid else none

  unfoldable pub match_limit_order : OrderRequest W → Exchange W → Exchange W
  unfolding emit_execution
  match_limit_order order (m, q) =
      elim (matching_price m.current_best_bid m.current_best_ask order order.side) [
        | some price ↦
            emit_execution order price order.quantity filled order.signal_ts order.order_ts (m, q)
        | none ↦
            emit_execution order order.price (whole 0) new order.signal_ts order.order_ts
              (record m { resting_orders = m.resting_orders ++ order ∷ [] }, q)
      ]

  unfoldable pub match_order : OrderType → OrderRequest W → Exchange W → Exchange W
  unfolding match_market_order match_limit_order
  match_order market = match_market_order
  match_order limit = match_limit_order

  unfoldable pub process_order : OrderRequest W → Exchange W → Exchange W
  unfolding match_order
  process_order order = match_order order.type order

  -- `OrderRequest dummy_req{}`: every field zero
  abbrev pub dummy_request : ℕ → OrderRequest W
  dummy_request order_id = record {
    order_id = order_id;
    strategy_id = 0;
    symbol = replicate 16 0;
    side = buy;
    type = limit;
    price = whole 0;
    quantity = whole 0;
    signal_ts = 0;
    order_ts = 0;
  }

  unfoldable pub cancel_order : ℕ → Exchange W → Exchange W
  unfolding emit_execution
  cancel_order order_id = emit_execution (dummy_request order_id) (whole 0) (whole 0) cancelled 0 0
