-- ===== src/Engine/Reachable.antt =====
-- The reachable states of the program: the feed thread pushes market data at any time, the processor
-- thread takes events off the queue and handles them in that order.
use ultra_low_latency_hft_en.Prelude.{
  ℕ, ◌≡◌, refl, sym, ◌∙◌, ap, subst, inl, inr, true, false≢true, some, some-injective, List, [],
  ◌∷◌, ◌++◌, All, All-append, Bool-cases,
}
use ultra_low_latency_hft_en.Double.{Double}
use ultra_low_latency_hft_en.Core.Events.{
  Event, EventType, MarketDataEvent, OrderRequest, ExecutionReport, Payload, CancelOrderReq,
}
use ultra_low_latency_hft_en.Core.EventQueue
use ultra_low_latency_hft_en.Core.EventQueue.{EventQueue, Carries, pop_lem, init-Carries}
use ultra_low_latency_hft_en.Core.RingBuffer.Fifo
pub use ultra_low_latency_hft_en.Feed.{feed_event}
use ultra_low_latency_hft_en.Strategy
use ultra_low_latency_hft_en.Oms
use ultra_low_latency_hft_en.Exchange.{is_filled}
use ultra_low_latency_hft_en.Engine.{
  System, Surroundings, start, on_market_data, on_order_request, on_validated_order,
  on_cancel_order, on_execution_report, account, dispatch, handle,
}
use ultra_low_latency_hft_en.Engine.Tags.{
  fits, IsTagged, HasTags, push-HasTags, strategies-Holds, update_market_price-Holds,
  process_order-Holds, cancel_order-Holds, handle_order_request-Holds,
}

-- The system, and the events that the processor has taken and not yet handled.
pub record Loop {ℓ} (W : Type ℓ) : Type ℓ where
  pub system : System W
  pub batch : List (Event W)

module _ {ℓ} {W : Type ℓ} ⦃d : Double W⦄ where
  pub data Step (l : Loop W) : Loop W → Type ℓ where
    feed :
        (md : MarketDataEvent W) (receive_ts : ℕ) (l' : Loop W)
        → l' ≡ record l {
          system = record l.system {
            event_queue = (EventQueue.push (feed_event md receive_ts) l.system.event_queue).1;
          };
        }
        → Step l l'
    take :
        (event : Event W) (q : EventQueue W) (l' : Loop W)
        → EventQueue.pop l.system.event_queue ≡ (some event, q)
        → l'
          ≡ record { system = record l.system { event_queue = q }; batch = l.batch ++ event ∷ [] }
        → Step l l'
    handled :
        (env : Surroundings W) (event : Event W) (events : List (Event W)) (s : System W)
        (l' : Loop W)
        → l.batch ≡ event ∷ events
        → handle env event l.system ≡ some s
        → l' ≡ record { system = s; batch = events }
        → Step l l'

  pub data Reaches (l : Loop W) : Loop W → Type ℓ where
    here : Reaches l l
    next : {k m : Loop W} → Reaches l k → Step k m → Reaches l m

  -- before the loop
  abbrev pub started : Event W → Loop W
  started blank = record { system = start blank; batch = [] }

  -- All events on their way are well tagged.
  pub record AreTagged (l : Loop W) : Type ℓ where
    pub queued : HasTags l.system.event_queue
    pub taken : All IsTagged l.batch

  -- What holds of the event and the state after each handler holds after `dispatch`.
  pub dispatch-event-cases {κ} :
      (P : EventType → Payload W → System W → Type κ) (type : EventType) (payload : Payload W)
      (env : Surroundings W) (s s' : System W)
      → dispatch type payload env s ≡ some s'
      → ((t : EventType) (p : Payload W) → P t p s)
      → ((md : MarketDataEvent W)
          → P EventType.market_data (Payload.market_data md) (on_market_data env md s))
      → ((r : OrderRequest W)
          → P EventType.order_request (Payload.order_request r) (on_order_request env r s))
      → ((r : OrderRequest W)
          → P EventType.validated_order (Payload.order_request r) (on_validated_order r s))
      → ((c : CancelOrderReq)
          → P EventType.cancel_order (Payload.cancel_order c) (on_cancel_order c.order_id s))
      → ((r : ExecutionReport W)
          → P EventType.execution_report (Payload.execution_report r) (on_execution_report env r s))
      → P type payload s'
  unfolding dispatch
  dispatch-event-cases P EventType.market_data (Payload.market_data x) env s s' e i m o v c r =
      subst (P EventType.market_data (Payload.market_data x)) (some-injective _ _ e) (m x)
  dispatch-event-cases P EventType.order_request (Payload.order_request x) env s s' e i m o v c r =
      subst (P EventType.order_request (Payload.order_request x)) (some-injective _ _ e) (o x)
  dispatch-event-cases P EventType.validated_order (Payload.order_request x) env s s' e i m o v c
        r =
      subst (P EventType.validated_order (Payload.order_request x)) (some-injective _ _ e) (v x)
  dispatch-event-cases P EventType.cancel_order (Payload.cancel_order x) env s s' e i m o v c r =
      subst (P EventType.cancel_order (Payload.cancel_order x)) (some-injective _ _ e) (c x)
  dispatch-event-cases P EventType.execution_report (Payload.execution_report x) env s s' e i m o v
        c r =
      subst (P EventType.execution_report (Payload.execution_report x)) (some-injective _ _ e) (r x)
  dispatch-event-cases P EventType.order_response x env s s' e i m o v c r =
      subst (P EventType.order_response x) (some-injective _ _ e) (i EventType.order_response x)
  dispatch-event-cases P EventType.risk_check x env s s' e i m o v c r =
      subst (P EventType.risk_check x) (some-injective _ _ e) (i EventType.risk_check x)
  dispatch-event-cases P EventType.pnl_update x env s s' e i m o v c r =
      subst (P EventType.pnl_update x) (some-injective _ _ e) (i EventType.pnl_update x)
  dispatch-event-cases P type payload env s s' e i m o v c r = cc

  -- What holds after each handler holds after `dispatch`.
  pub dispatch-cases {κ} :
      (P : System W → Type κ) (type : EventType) (payload : Payload W) (env : Surroundings W)
      (s s' : System W)
      → dispatch type payload env s ≡ some s'
      → P s
      → ((md : MarketDataEvent W) → P (on_market_data env md s))
      → ((r : OrderRequest W) → P (on_order_request env r s))
      → ((r : OrderRequest W) → P (on_validated_order r s))
      → ((id : ℕ) → P (on_cancel_order id s))
      → ((r : ExecutionReport W) → P (on_execution_report env r s))
      → P s'
  dispatch-cases P type payload env s s' e i m o v c r =
      dispatch-event-cases (λ _ _ t. P t) type payload env s s' e (λ _ _. i) m o v
        (λ x. c x.order_id) r

  -- An event whose tag fits is handled: no other member of the union is read.
  dispatch_total :
      (type : EventType) (payload : Payload W) (env : Surroundings W) (s : System W)
      → fits type payload ≡ true
      → (s' : System W) × (dispatch type payload env s ≡ some s')
  unfolding dispatch fits
  dispatch_total EventType.market_data (Payload.market_data x) env s e = (_, refl)
  dispatch_total EventType.order_request (Payload.order_request x) env s e = (_, refl)
  dispatch_total EventType.validated_order (Payload.order_request x) env s e = (_, refl)
  dispatch_total EventType.cancel_order (Payload.cancel_order x) env s e = (_, refl)
  dispatch_total EventType.execution_report (Payload.execution_report x) env s e = (_, refl)
  dispatch_total type payload env s e = absurd (false≢true e)

  -- A report changes neither queue, nor book, nor exchange; the strategies and the order manager are told of it.
  pub on_execution_report_keeps :
      (env : Surroundings W) (r : ExecutionReport W) (s : System W)
      → let after = on_execution_report env r s in
        (after.event_queue ≡ s.event_queue)
        × (after.order_book ≡ s.order_book)
        × (after.matching_engine ≡ s.matching_engine)
        × (after.strategy ≡ Strategy.on_execution r s.strategy)
        × (after.order_manager ≡ Oms.handle_execution_report r s.order_manager)
  unfolding on_execution_report account
  on_execution_report_keeps env r s = elim (Bool-cases (is_filled r.status)) [
    | inl e ↦ rw e (refl, refl, refl, refl, refl)
    | inr e ↦ rw e (refl, refl, refl, refl, refl)
  ]

  -- Each handler keeps the queue well tagged.
  handle-HasTags :
      (env : Surroundings W) (event : Event W) (s s' : System W)
      → handle env event s ≡ some s'
      → HasTags s.event_queue
      → HasTags s'.event_queue
  unfolding handle
  handle-HasTags env event s s' e h =
      dispatch-cases (λ t. HasTags t.event_queue) event.type event.payload env s s' e h
        (λ md.
          unfold on_market_data in
          update_market_price-Holds md s.matching_engine _
            (strategies-Holds env.ambient md s.order_book _ s.event_queue h))
        (λ r.
          unfold on_order_request in
          handle_order_request-Holds env.order_now s.risk r (s.order_manager, s.event_queue) h)
        (λ r.
          unfold on_validated_order in process_order-Holds r (s.matching_engine, s.event_queue) h)
        (λ id. unfold on_cancel_order in cancel_order-Holds id (s.matching_engine, s.event_queue) h)
        (λ r. rw (on_execution_report_keeps env r s).0 h)

  take-HasTags :
      (q q' : EventQueue W) (event : Event W)
      → EventQueue.pop q ≡ (some event, q')
      → HasTags q
      → IsTagged event × HasTags q'
  unfolding Fifo.dequeue
  take-HasTags q q' event e ([], c, ts) =
      let (popped, _, _) = pop_lem q [] c in let first = sym popped ∙ ap (λ r. r.0) e in cc
  take-HasTags q q' event e (x ∷ events, c, ts) =
      let (popped, c', _) = pop_lem q (x ∷ events) c in
      (
        subst IsTagged (some-injective _ _ (sym popped ∙ ap (λ r. r.0) e)) ts.0,
        subst HasTags (ap (λ r. r.1) e) (events, c', ts.1),
      )

  Step-AreTagged : {l l' : Loop W} → Step l l' → AreTagged l → AreTagged l'
  unfolding fits
  Step-AreTagged {l} (feed md ts l' e) a = rw e (record {
    queued = push-HasTags (feed_event md ts) l.system.event_queue refl a.queued;
    taken = a.taken;
  })
  Step-AreTagged {l} (take event q l' p e) a =
      let (tagged, rest) = take-HasTags l.system.event_queue q event p a.queued in
      rw e (record {
        queued = rest;
        taken = All-append IsTagged l.batch (event ∷ []) a.taken (tagged, tt);
      })
  Step-AreTagged {l} (handled env event events s l' b h e) a = rw e (record {
    queued = handle-HasTags env event l.system s h a.queued;
    taken = (subst (All IsTagged) b a.taken).1;
  })

  pub Reaches-AreTagged : {l l' : Loop W} → AreTagged l → Reaches l l' → AreTagged l'
  Reaches-AreTagged a here = a
  Reaches-AreTagged a (next r st) = Step-AreTagged st (Reaches-AreTagged a r)

  pub started-AreTagged : (blank : Event W) → AreTagged (started blank)
  unfolding start
  started-AreTagged blank = record { queued = ([], init-Carries blank, tt); taken = tt }

  -- Whatever the feed pushes and however its pushes fall between the steps of the processor, each event
  -- that the processor comes to can be handled: the handler of its tag reads the member of the union
  -- that was written.
  pub handle_total :
      (blank : Event W) (l : Loop W) (event : Event W) (events : List (Event W))
      (env : Surroundings W)
      → Reaches (started blank) l
      → l.batch ≡ event ∷ events
      → (s : System W) × (handle env event l.system ≡ some s)
  unfolding handle
  handle_total blank l event events env r b =
      let a = Reaches-AreTagged (started-AreTagged blank) r in
      dispatch_total event.type event.payload env l.system (subst (All IsTagged) b a.taken).0
