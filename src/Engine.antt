-- ===== src/Engine.antt =====
-- `main.cpp`: the components together and the event loop of the processor thread. A read of the
-- union of an event through a member that was not written is undefined; it is `none` here. The
-- write of `event.strategy_ts` goes to the local copy of the event, which nothing reads afterwards.
pub mod Tags
pub mod Reachable
pub mod Arguments
pub mod Options
pub mod UiLoop
pub mod Shutdown
pub mod Idle
pub mod Consistent
pub mod Polling
pub mod Ledger
pub mod Tokens
pub mod Moves
pub mod Flows
pub mod FlowPaths
pub mod OrderEnds
mod RunTests
mod Tests
mod FeedTests
use ultra_low_latency_hft_en.Prelude.{
  ℕ, zero, suc, ◌+◌, Bool, true, false, Option, none, some, List, [], ◌∷◌, ◌++◌, length, drop, ltb,
  if◌then◌else◌,
}
use ultra_low_latency_hft_en.Double.{Double, whole, ◌⊗◌}
use ultra_low_latency_hft_en.Core.Events.{
  Event, EventType, MarketDataEvent, OrderRequest, ExecutionReport, Payload, OrderStatus,
}
use ultra_low_latency_hft_en.Core.EventQueue
use ultra_low_latency_hft_en.Core.EventQueue.{EventQueue}
use ultra_low_latency_hft_en.OrderBook
use ultra_low_latency_hft_en.OrderBook.{OrderBook}
use ultra_low_latency_hft_en.Strategy
use ultra_low_latency_hft_en.Strategy.{StrategyEngine, market_maker, momentum}
use ultra_low_latency_hft_en.Strategy.Common.{Ambient}
use ultra_low_latency_hft_en.Strategy.MarketMaker as MM
use ultra_low_latency_hft_en.Strategy.Momentum as Mo
use ultra_low_latency_hft_en.Risk
use ultra_low_latency_hft_en.Risk.{RiskEngine, side_sign}
use ultra_low_latency_hft_en.Pnl
use ultra_low_latency_hft_en.Pnl.{PnlEngine}
use ultra_low_latency_hft_en.Oms
use ultra_low_latency_hft_en.Oms.{OrderManager}
use ultra_low_latency_hft_en.Exchange
use ultra_low_latency_hft_en.Exchange.{MatchingEngine, is_filled}
use ultra_low_latency_hft_en.Analytics
use ultra_low_latency_hft_en.Analytics.{LatencyMonitor}

-- The locals of `main` that the loop works on.
pub record System {ℓ} (W : Type ℓ) : Type ℓ where
  pub event_queue : EventQueue W
  pub order_book : OrderBook W
  pub strategy : StrategyEngine W
  pub risk : RiskEngine W
  pub pnl_engine : PnlEngine W
  pub order_manager : OrderManager W
  pub matching_engine : MatchingEngine W
  pub latency_monitor : LatencyMonitor
  pub trade_history : List (ExecutionReport W)

-- What the clocks and the memory show while one event is handled.
pub record Surroundings {ℓ} (W : Type ℓ) : Type ℓ where
  pub ambient : ℕ → Ambient W
  pub order_now : ℕ
  pub fill_now : ℕ
  pub total_now : ℕ

module _ {ℓ} {W : Type ℓ} ⦃d : Double W⦄ where
  -- The state before the loop; `blank` fills the slots of the ring buffer.
  unfoldable pub start : Event W → System W
  unfolding Strategy.add_strategy
  start blank = record {
    event_queue = EventQueue.init blank;
    order_book = OrderBook.init;
    strategy =
        Strategy.add_strategy (momentum Mo.init) (Strategy.add_strategy (market_maker MM.init) []);
    risk = Risk.init (whole 100);
    pnl_engine = Pnl.init;
    order_manager = Oms.init;
    matching_engine = Exchange.init;
    latency_monitor = Analytics.init;
    trade_history = [];
  }

  unfoldable pub on_market_data : Surroundings W → MarketDataEvent W → System W → System W
  on_market_data env md s =
      let positioned = Strategy.update_position (Pnl.get_total_position s.pnl_engine) s.strategy in
      let (strategy, queue) =
        Strategy.on_market_data env.ambient md s.order_book positioned s.event_queue in
      let (matching, queue') = Exchange.update_market_price md (s.matching_engine, queue) in
      record s { strategy = strategy; matching_engine = matching; event_queue = queue' }

  unfoldable pub on_order_request : Surroundings W → OrderRequest W → System W → System W
  on_order_request env request s =
      let (orders, queue) =
        Oms.handle_order_request env.order_now s.risk request (s.order_manager, s.event_queue) in
      record s { order_manager = orders; event_queue = queue }

  unfoldable pub on_validated_order : OrderRequest W → System W → System W
  on_validated_order order s =
      let (matching, queue) = Exchange.process_order order (s.matching_engine, s.event_queue) in
      record s { matching_engine = matching; event_queue = queue }

  unfoldable pub on_cancel_order : ℕ → System W → System W
  on_cancel_order order_id s =
      let (matching, queue) = Exchange.cancel_order order_id (s.matching_engine, s.event_queue) in
      record s { matching_engine = matching; event_queue = queue }

  -- the first `if (report.status == Filled)`
  unfoldable pub account : Surroundings W → ExecutionReport W → System W → System W
  account env report s = record s {
    pnl_engine =
        Pnl.on_fill report.strategy_id report.side report.last_price report.last_qty s.pnl_engine;
    risk = Risk.update_position (report.last_qty ⊗ side_sign report.side) s.risk;
    latency_monitor = Analytics.record_total_latency report.signal_ts env.total_now (
        Analytics.record_order_to_fill report.order_ts env.fill_now
          (Analytics.record_signal_to_order report.signal_ts report.order_ts s.latency_monitor));
  }

  -- the history keeps the last 1000 fills
  unfoldable pub remember : ExecutionReport W → List (ExecutionReport W) → List (ExecutionReport W)
  remember report history =
      let longer = history ++ report ∷ [] in
      if ltb 1000 (length longer) then drop 1 longer else longer

  unfoldable pub on_execution_report : Surroundings W → ExecutionReport W → System W → System W
  unfolding account remember
  on_execution_report env report s =
      let told = record s {
        order_manager = Oms.handle_execution_report report s.order_manager;
        strategy = Strategy.on_execution report s.strategy;
      } in
      let accounted = if is_filled report.status then account env report told else told in
      record accounted {
        pnl_engine = Pnl.update_pnl report.last_price accounted.pnl_engine;
        trade_history =
            if is_filled report.status then remember report s.trade_history else s.trade_history;
      }

  -- the `switch`
  unfoldable pub dispatch : EventType → Payload W → Surroundings W → System W → Option (System W)
  unfolding on_market_data on_order_request on_validated_order on_cancel_order on_execution_report
  dispatch EventType.market_data (Payload.market_data md) env s = some (on_market_data env md s)
  dispatch EventType.order_request (Payload.order_request r) env s = some (on_order_request env r s)
  dispatch EventType.validated_order (Payload.order_request r) env s = some (on_validated_order r s)
  dispatch EventType.cancel_order (Payload.cancel_order c) env s =
      some (on_cancel_order c.order_id s)
  dispatch EventType.execution_report (Payload.execution_report r) env s =
      some (on_execution_report env r s)
  dispatch EventType.order_response payload env s = some s
  dispatch EventType.risk_check payload env s = some s
  dispatch EventType.pnl_update payload env s = some s
  dispatch _ _ env s = none

  unfoldable pub handle : Surroundings W → Event W → System W → Option (System W)
  unfolding dispatch
  handle env event = dispatch event.type event.payload env

  -- the first inner loop, `n` rounds before its end: pops until the queue is empty
  unfoldable pub pop_batch : ℕ → EventQueue W → List (Event W) × EventQueue W
  pop_batch zero q = ([], q)
  pop_batch (suc n) q =
      let (event, q') = EventQueue.pop q in
      let rest = pop_batch n q' in elim event [ none ↦ ([], q') | some e ↦ (e ∷ rest.0, rest.1) ]

  -- the second inner loop
  unfoldable pub handle_all : (ℕ → Surroundings W) → List (Event W) → System W → Option (System W)
  handle_all env [] s = some s
  handle_all env (event ∷ events) s = elim (handle (env 0) event s) [
    | none ↦ none
    | some s' ↦ handle_all (λ i. env (i + 1)) events s'
  ]

  -- one round of `while (running)`
  unfoldable pub poll : (ℕ → Surroundings W) → System W → Option (System W)
  unfolding pop_batch handle_all
  poll env s =
      let (batch, queue) = pop_batch 4 s.event_queue in
      handle_all env batch (record s { event_queue = queue })
