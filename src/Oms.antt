-- ===== src/Oms.antt =====
-- `oms/order_manager.{hpp,cpp}`: validation, the table of active orders, and the hand-over to the
-- matching engine through the event queue. Each method holds the mutex throughout, so its body is one
-- step. The references to the queue and the risk engine are arguments. Log lines are left out.
pub mod Lifecycle
pub mod Limits
pub mod History
mod Tests
use ultra_low_latency_hft_en.Prelude.{
  ℕ, Bool, true, false, ◌||◌, ◌&&◌, Option, none, some, List, [], ◌∷◌, map, if◌then◌else◌,
}
use ultra_low_latency_hft_en.Prelude.Table.{find, assign, erase}
use ultra_low_latency_hft_en.Double.{Double, le, whole}
use ultra_low_latency_hft_en.Core.Events.{
  Event, EventType, OrderRequest, OrderType, limit, market, OrderStatus, ExecutionReport, Payload,
}
use ultra_low_latency_hft_en.Core.EventQueue
use ultra_low_latency_hft_en.Core.EventQueue.{EventQueue}
use ultra_low_latency_hft_en.Risk.{RiskEngine, check_order}

-- `active_orders_`, keyed by order id
pub record OrderManager {ℓ} (W : Type ℓ) : Type ℓ where
  pub active_orders : List (ℕ × OrderRequest W)

abbrev is_limit : OrderType → Bool
is_limit limit = true
is_limit market = false

abbrev pub is_terminal : OrderStatus → Bool
is_terminal OrderStatus.filled = true
is_terminal OrderStatus.cancelled = true
is_terminal OrderStatus.rejected = true
is_terminal OrderStatus.new = false
is_terminal OrderStatus.partial = false

module _ {ℓ} {W : Type ℓ} ⦃d : Double W⦄ where
  unfoldable pub validate_order : RiskEngine W → OrderRequest W → Bool
  validate_order risk request =
      if le request.quantity (whole 0)
      then false
      else if is_limit request.type && le request.price (whole 0)
      then false
      else check_order risk request

module _ {ℓ} {W : Type ℓ} where
  unfoldable pub init : OrderManager W
  init = record { active_orders = [] }

  -- the event that carries an accepted order on, its `order_ts` the time `now`
  abbrev pub validated : ℕ → OrderRequest W → Event W
  validated now request = record {
    type = EventType.validated_order;
    receive_ts = none;
    parse_ts = none;
    book_ts = none;
    strategy_ts = none;
    execution_ts = none;
    payload = Payload.order_request (record request { order_ts = now });
  }

  unfoldable pub get_active_orders : OrderManager W → List (OrderRequest W)
  get_active_orders m = map (λ entry. entry.1) m.active_orders

  unfoldable pub handle_execution_report : ExecutionReport W → OrderManager W → OrderManager W
  handle_execution_report report m = elim (find report.order_id m.active_orders) [
    | none ↦ m
    | some _ ↦
        if is_terminal report.status
        then record m { active_orders = erase report.order_id m.active_orders }
        else m
  ]

module _ {ℓ} {W : Type ℓ} ⦃d : Double W⦄ where
  -- `now` is what `LatencyTracker::now_ns()` returns.
  unfoldable pub handle_order_request :
      (now : ℕ)
      → RiskEngine W
      → OrderRequest W
      → OrderManager W × EventQueue W
      → OrderManager W × EventQueue W
  handle_order_request now risk request (m, q) =
      if validate_order risk request
      then (
        record m { active_orders = assign request.order_id request m.active_orders },
        (EventQueue.push (validated now request) q).1,
      )
      else (m, q)
