-- ===== src/Oms/Limits.antt =====
-- The order manager beside the risk engine and the queue: what the position check covers, and what an
-- accepted order needs to reach the exchange.
use ultra_low_latency_hft_en.Prelude.{
  ℕ, ◌≡◌, ◌≢◌, Bool, true, false, some, List, [], ◌∷◌, ◌++◌, if◌then◌else◌, arith, length, ltb,
  subst, ap, ◌∙◌, sym,
}
use ultra_low_latency_hft_en.Double.{Double, gt, abs, ◌⊗◌}
use ultra_low_latency_hft_en.Core.Events.{Event, OrderRequest}
use ultra_low_latency_hft_en.Core.EventQueue
use ultra_low_latency_hft_en.Core.EventQueue.{EventQueue, Carries, capacity, push_lem}
use ultra_low_latency_hft_en.Risk.{RiskEngine, update_position, side_sign}
use ultra_low_latency_hft_en.Oms.{OrderManager, validated, validate_order, handle_order_request}
use ultra_low_latency_hft_en.Oms.Lifecycle.{
  IsValid, active, validate_order_iff, handle_order_request_lem,
}

module _ {ℓ} {W : Type ℓ} ⦃d : Double W⦄ where
  -- the risk engine after the complete fill of an order, as the event loop updates it
  abbrev pub filled_by : OrderRequest W → RiskEngine W → RiskEngine W
  filled_by request = update_position (request.quantity ⊗ side_sign request.side)

  -- the position exceeds the limit
  abbrev pub exceeds : RiskEngine W → Bool
  exceeds risk = gt (abs risk.current_position) risk.max_position

  -- If an accepted order fills completely before the position changes otherwise, the position does not
  -- exceed the limit.
  accepted_fill_within_limit :
      (risk : RiskEngine W) (request : OrderRequest W)
      → validate_order risk request ≡ true
      → exceeds (filled_by request risk) ≡ false
  unfolding update_position
  accepted_fill_within_limit risk request e = ((validate_order_iff risk request).0 e).position

  -- The check does not count accepted orders that have not filled: where no id is active twice,
  -- after an order `a`, whatever its size, another id's order is accepted or refused, and its event
  -- pushed, just as if `a` were not there.
  pub pending_orders_uncounted :
      (now : ℕ) (risk : RiskEngine W) (a b : OrderRequest W) (m : OrderManager W) (q : EventQueue W)
      → IsValid m
      → a.order_id ≢ b.order_id
      → let (m₁, q₁) = handle_order_request now risk a (m, q) in
        let (m₂, q₂) = handle_order_request now risk b (m₁, q₁) in
        (active b.order_id m₂ ≡ active b.order_id (handle_order_request now risk b (m, q)).0)
        × (active a.order_id m₂ ≡ active a.order_id m₁)
        × (q₂ ≡ (handle_order_request now risk b (m, q₁)).1)
  pending_orders_uncounted now risk a b m q v ne =
      let (m₁, q₁) = handle_order_request now risk a (m, q) in
      let (b_kept, _, v₁) = handle_order_request_lem now risk a m q b.order_id v in
      let (b_after, pushed_after, _) = handle_order_request_lem now risk b m₁ q₁ b.order_id v₁ in
      let (b_alone, _, _) = handle_order_request_lem now risk b m q b.order_id v in
      let (a_after, _, _) = handle_order_request_lem now risk b m₁ q₁ a.order_id v₁ in
      let (_, pushed_alone, _) = handle_order_request_lem now risk b m q₁ b.order_id v in
      (
        ground (arith, b_kept, b_after, b_alone),
        ground (arith, a_after),
        pushed_after ∙ sym pushed_alone,
      )

  -- Where no id is active twice, an order that is accepted while 1023 events wait becomes active,
  -- but its event is dropped: the queue carries what it carried before.
  pub full_queue_loses_order :
      (now : ℕ) (risk : RiskEngine W) (request : OrderRequest W) (m : OrderManager W)
      (q : EventQueue W) (events : List (Event W))
      → IsValid m
      → validate_order risk request ≡ true
      → Carries q events
      → length events ≡ capacity
      → let (m', q') = handle_order_request now risk request (m, q) in
        (active request.order_id m' ≡ some request) × Carries q' events
  full_queue_loses_order now risk request m q events v ok c full =
      let (entered, pushed, _) = handle_order_request_lem now risk request m q request.order_id v in
      let no_room : ltb (length events) capacity ≡ false = ground arith in
      (
        ground (arith, entered),
        subst (λ q'. Carries q' events)
            (sym (
              pushed ∙ ap (λ b. if b then (EventQueue.push (validated now request) q).1 else q) ok))
            (subst
              (λ b.
                Carries (EventQueue.push (validated now request) q).1
                  (if b then events ++ validated now request ∷ [] else events))
              no_room (push_lem (validated now request) q events c).1),
      )
