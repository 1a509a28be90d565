-- ===== src/Oms/Lifecycle.antt =====
-- The life of an order in the table of active orders, and what stands behind an accepted one.
use ultra_low_latency_hft_en.Prelude.{
  ℕ, ◌≡◌, refl, ◌↔◌, inl, inr, true, false, ◌&&◌, Option, none, some, ◌==◌, if◌then◌else◌, arith,
  Bool-cases,
}
use ultra_low_latency_hft_en.Prelude.Table.{
  find, HasKeysOnce, find-assign, find-erase, assign-HasKeysOnce, erase-HasKeysOnce,
}
use ultra_low_latency_hft_en.Double.{Double, le, gt, abs, whole, ◌⊕◌, ◌⊗◌}
use ultra_low_latency_hft_en.Core.Events.{OrderRequest, limit, ExecutionReport}
use ultra_low_latency_hft_en.Core.EventQueue
use ultra_low_latency_hft_en.Core.EventQueue.{EventQueue, Carries, capacity, push_all-Carries}
use ultra_low_latency_hft_en.Risk.{RiskEngine, check_order, side_sign}
use ultra_low_latency_hft_en.Oms.{
  OrderManager, is_terminal, validated, validate_order, handle_order_request,
  handle_execution_report,
}

-- No order id is active twice.
abbrev pub IsValid {ℓ} : {W : Type ℓ} → OrderManager W → Type 0
IsValid m = HasKeysOnce m.active_orders

-- the active order with an id
abbrev pub active {ℓ} : {W : Type ℓ} → ℕ → OrderManager W → Option (OrderRequest W)
active id m = find id m.active_orders

module _ {ℓ} {W : Type ℓ} where
  -- A report never makes an id active twice.
  pub handle_execution_report-IsValid :
      (report : ExecutionReport W) (m : OrderManager W)
      → IsValid m
      → IsValid (handle_execution_report report m)
  unfolding handle_execution_report
  handle_execution_report-IsValid report m v =
      ground (arith, erase-HasKeysOnce report.order_id m.active_orders v)

  -- Where no id is active twice, a report of a fill, a cancellation or a rejection ends its order;
  -- one of another status, and one for an order that is not active, changes nothing, and no report
  -- touches another order.
  pub handle_execution_report_lem :
      (report : ExecutionReport W) (m : OrderManager W) (id : ℕ)
      → IsValid m
      → active id (handle_execution_report report m)
        ≡ (if (report.order_id == id) && is_terminal report.status then none else active id m)
  unfolding handle_execution_report
  handle_execution_report_lem report m id v =
      ground (arith, find-erase report.order_id id m.active_orders v)

module _ {ℓ} {W : Type ℓ} ⦃d : Double W⦄ where
  -- What an accepted order satisfies: its quantity is not at or below zero, nor is the price of a
  -- limit order, and the position that it leads to does not exceed the limit.
  pub record IsAcceptable (risk : RiskEngine W) (request : OrderRequest W) : Type 0 where
    pub quantity : le request.quantity (whole 0) ≡ false
    pub price : request.type ≡ limit → le request.price (whole 0) ≡ false
    pub position :
        gt
          (abs (risk.current_position ⊕ request.quantity ⊗ side_sign request.side))
          risk.max_position
        ≡ false

  -- An order passes validation exactly if its quantity is not at or below zero, nor is its price if
  -- it is a limit order, and the position that it leads to does not exceed the limit. NaN passes.
  pub validate_order_iff :
      (risk : RiskEngine W) (request : OrderRequest W)
      → (validate_order risk request ≡ true) ↔ IsAcceptable risk request
  unfolding validate_order check_order
  validate_order_iff risk request = ground arith

  -- `handle_order_request` on every branch, from a state where no id is active twice: an order
  -- becomes active, and its event is pushed, exactly if it is valid; every other id keeps what it
  -- had, and no id is active twice.
  pub handle_order_request_lem :
      (now : ℕ) (risk : RiskEngine W) (request : OrderRequest W) (m : OrderManager W)
      (q : EventQueue W) (id : ℕ)
      → IsValid m
      → let (m', q') = handle_order_request now risk request (m, q) in
        let ok = validate_order risk request in
        (active id m' ≡ (if ok && request.order_id == id then some request else active id m))
        × (q' ≡ (if ok then (EventQueue.push (validated now request) q).1 else q))
        × IsValid m'
  unfolding handle_order_request
  handle_order_request_lem now risk request m q id v =
      elim (Bool-cases (validate_order risk request)) [
        | inl e ↦ rw e (
          find-assign request.order_id id request m.active_orders,
          refl,
          assign-HasKeysOnce request.order_id request m.active_orders v,
        )
        | inr e ↦ rw e (refl, refl, v)
      ]
