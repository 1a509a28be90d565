-- ===== src/Oms/History.antt =====
-- The order manager against what its callers told it: which order stands under an id.
use ultra_low_latency_hft_en.Prelude.{
  ℕ, ◌≡◌, refl, ◌∙◌, ap, ◌&&◌, Option, none, some, List, [], ◌∷◌, ◌==◌, if◌then◌else◌,
}
use ultra_low_latency_hft_en.Prelude.Table.{find}
use ultra_low_latency_hft_en.Double.{Double}
use ultra_low_latency_hft_en.Core.Events.{OrderRequest, ExecutionReport}
use ultra_low_latency_hft_en.Core.EventQueue.{EventQueue}
use ultra_low_latency_hft_en.Risk.{RiskEngine}
use ultra_low_latency_hft_en.Oms.{
  OrderManager, init, is_terminal, validate_order, handle_order_request, handle_execution_report,
}
use ultra_low_latency_hft_en.Oms.Lifecycle.{
  IsValid, active, handle_order_request_lem, handle_execution_report_lem,
  handle_execution_report-IsValid,
}

-- What the order manager is told: a request, at a time and with the risk engine as it stands, or a report.
pub data Message {ℓ} (W : Type ℓ) : Type ℓ where
  request : ℕ → RiskEngine W → OrderRequest W → Message W
  report : ExecutionReport W → Message W

module _ {ℓ} {W : Type ℓ} ⦃d : Double W⦄ where
  -- the order manager and the queue after a history, its latest message first
  unfoldable pub after : List (Message W) → EventQueue W → OrderManager W × EventQueue W
  after [] q = (init, q)
  after (request now risk r ∷ history) q = handle_order_request now risk r (after history q)
  after (report r ∷ history) q = let (m, q') = after history q in (handle_execution_report r m, q')

  -- The order that stands under an id: the latest valid request of it, unless a later report says that it
  -- is filled, cancelled or rejected.
  unfoldable pub standing : ℕ → List (Message W) → Option (OrderRequest W)
  standing id [] = none
  standing id (request now risk r ∷ history) =
      if validate_order risk r && r.order_id == id then some r else standing id history
  standing id (report r ∷ history) =
      if (r.order_id == id) && is_terminal r.status then none else standing id history

  after-IsValid : (history : List (Message W)) (q : EventQueue W) → IsValid (after history q).0
  unfolding after init
  after-IsValid [] q = tt
  after-IsValid (request now risk r ∷ history) q =
      (handle_order_request_lem now risk r (after history q).0 (after history q).1 0
        (after-IsValid history q)).2
  after-IsValid (report r ∷ history) q =
      handle_execution_report-IsValid r (after history q).0 (after-IsValid history q)

  -- After any history of requests and reports, the table of active orders has under every id the order
  -- that stands by the history, and nothing else: the table is what the messages say.
  pub active-after :
      (id : ℕ) (history : List (Message W)) (q : EventQueue W)
      → active id (after history q).0 ≡ standing id history
  unfolding after standing init find
  active-after id [] q = refl
  active-after id (request now risk r ∷ history) q =
      (handle_order_request_lem now risk r (after history q).0 (after history q).1 id
        (after-IsValid history q)).0
      ∙ ap (λ o. if validate_order risk r && r.order_id == id then some r else o)
          (active-after id history q)
  active-after id (report r ∷ history) q =
      handle_execution_report_lem r (after history q).0 id (after-IsValid history q)
      ∙ ap (λ o. if (r.order_id == id) && is_terminal r.status then none else o)
          (active-after id history q)
