-- ===== src/Oms/Tests.antt =====
-- Runs of the order manager and of its theorems, at whole numbers.
use ultra_low_latency_hft_en.Prelude.{
  ℕ, ◌≡◌, refl, true, ◌&&◌, none, some, List, [], ◌∷◌, ◌==◌, if◌then◌else◌, arith, replicate,
}
use ultra_low_latency_hft_en.Prelude.Int.{ℤ, ◌+ℤ◌, ◌-ℤ◌, ◌*ℤ◌}
use ultra_low_latency_hft_en.Double.Whole.{whole_double}
use ultra_low_latency_hft_en.Core.Events.{Event, OrderRequest, buy, limit, filled}
use ultra_low_latency_hft_en.Core.EventQueue
use ultra_low_latency_hft_en.Core.EventQueue.{Carries, EventQueue, init-Carries, push_all-Carries}
use ultra_low_latency_hft_en.Risk.{check_order, update_position}
use ultra_low_latency_hft_en.Oms.{
  OrderManager, init, validated, validate_order, handle_order_request,
}
use ultra_low_latency_hft_en.Oms.Lifecycle.{IsValid, active, handle_order_request_lem}
use ultra_low_latency_hft_en.Oms.Limits.{
  filled_by, exceeds, pending_orders_uncounted, full_queue_loses_order,
}
use ultra_low_latency_hft_en.Oms.History.{Message, after, standing, active-after}
use ultra_low_latency_hft_en.Samples.{order, report, risk_of_ten, cancellation, empty_queue}

abbrev six : ℕ → OrderRequest ℤ
six id = order id buy limit 50 6

abbrev with_order : OrderManager ℤ
with_order = record { active_orders = (7, six 7) ∷ [] }

six_accepted : validate_order risk_of_ten (six 7) ≡ true
unfolding validate_order check_order ◌+ℤ◌ ◌-ℤ◌ ◌*ℤ◌
six_accepted = refl

-- Two accepted orders of six, both filled, exceed the limit of ten.
two_sixes_exceed : exceeds (filled_by (six 8) (filled_by (six 7) risk_of_ten)) ≡ true
unfolding update_position ◌+ℤ◌ ◌-ℤ◌ ◌*ℤ◌
two_sixes_exceed = refl

handle_order_request_lem_example :
    (active 7 (handle_order_request 30 risk_of_ten (six 7) (init, empty_queue)).0
      ≡ (if validate_order risk_of_ten (six 7) && 7 == 7 then some (six 7) else active 7 init))
    × ((handle_order_request 30 risk_of_ten (six 7) (init, empty_queue)).1 ≡ (
        if validate_order risk_of_ten (six 7)
        then (EventQueue.push (validated 30 (six 7)) empty_queue).1
        else empty_queue))
    × IsValid (handle_order_request 30 risk_of_ten (six 7) (init, empty_queue)).0
unfolding init
handle_order_request_lem_example =
    handle_order_request_lem 30 risk_of_ten (six 7) init empty_queue 7 tt

pending_orders_uncounted_example :
    let (m₁, q₁) = handle_order_request 30 risk_of_ten (six 7) (init, empty_queue) in
    let (m₂, q₂) = handle_order_request 30 risk_of_ten (six 8) (m₁, q₁) in
    (active 8 m₂ ≡ active 8 (handle_order_request 30 risk_of_ten (six 8) (init, empty_queue)).0)
    × (active 7 m₂ ≡ active 7 m₁)
    × (q₂ ≡ (handle_order_request 30 risk_of_ten (six 8) (init, q₁)).1)
unfolding init
pending_orders_uncounted_example =
    pending_orders_uncounted 30 risk_of_ten (six 7) (six 8) init empty_queue tt (omega arith)

-- 1023 events that wait
abbrev backlog : List (Event ℤ)
backlog = replicate 1023 (cancellation 5)

abbrev full_queue : EventQueue ℤ
full_queue = EventQueue.push_all backlog empty_queue

full-Carries : Carries full_queue backlog
full-Carries = push_all-Carries backlog empty_queue [] (omega arith) (init-Carries (cancellation 0))

full_queue_loses_order_example :
    let (m', q') = handle_order_request 30 risk_of_ten (six 7) (init, full_queue) in
    (active 7 m' ≡ some (six 7)) × Carries q' backlog
unfolding init
full_queue_loses_order_example =
    full_queue_loses_order 30 risk_of_ten (six 7) init full_queue backlog tt six_accepted
      full-Carries refl

-- order 7 is accepted, order 8 too, and 7 is filled
abbrev told : List (Message ℤ)
told =
    Message.report (report 7 buy filled 50 6)
    ∷ Message.request 31 risk_of_ten (six 8)
    ∷ Message.request 30 risk_of_ten (six 7)
    ∷ []

told-runs : (standing 7 told ≡ none) × (standing 8 told ≡ some (six 8))
unfolding standing validate_order check_order ◌+ℤ◌ ◌-ℤ◌ ◌*ℤ◌
told-runs = (refl, refl)

active-after_example : active 8 (after told empty_queue).0 ≡ standing 8 told
active-after_example = active-after 8 told empty_queue
