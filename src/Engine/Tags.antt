-- ===== src/Engine/Tags.antt =====
-- The tag of every event fits the member of its union that was written, whoever pushed it.
use ultra_low_latency_hft_en.Prelude.{
  ℕ, ◌+◌, ◌≡◌, refl, inl, inr, Bool, true, false, List, [], ◌∷◌, ◌++◌, All, All-append, length, ltb,
  if◌then◌else◌, Bool-cases, Option-cases, add_u64,
}
use ultra_low_latency_hft_en.Double.{Double, lt, gt, neg}
use ultra_low_latency_hft_en.Core.Events.{Event, EventType, MarketDataEvent, OrderRequest, Payload}
use ultra_low_latency_hft_en.Core.EventQueue
use ultra_low_latency_hft_en.Core.EventQueue.{EventQueue, Carries, capacity, push_lem}
use ultra_low_latency_hft_en.OrderBook.{OrderBook, Level}
use ultra_low_latency_hft_en.Strategy
use ultra_low_latency_hft_en.Strategy.{StrategyVariant, StrategyEngine, market_maker, momentum}
use ultra_low_latency_hft_en.Strategy.Common.{Ambient}
use ultra_low_latency_hft_en.Strategy.MarketMaker as MM
use ultra_low_latency_hft_en.Strategy.Momentum as Mo
use ultra_low_latency_hft_en.Risk.{RiskEngine}
use ultra_low_latency_hft_en.Oms
use ultra_low_latency_hft_en.Oms.{OrderManager}
use ultra_low_latency_hft_en.Exchange
use ultra_low_latency_hft_en.Exchange.{MatchingEngine, Exchange}
use ultra_low_latency_hft_en.Exchange.Sweep.{fills, update_market_price_lem}
use ultra_low_latency_hft_en.Exchange.Orders.{process_order-Answer}

module _ {ℓ} {W : Type ℓ} where
  -- The tag names the member; an event of one of the tags that nobody handles is never made.
  unfoldable pub fits : EventType → Payload W → Bool
  fits EventType.market_data (Payload.market_data md) = true
  fits EventType.order_request (Payload.order_request r) = true
  fits EventType.validated_order (Payload.order_request r) = true
  fits EventType.cancel_order (Payload.cancel_order c) = true
  fits EventType.execution_report (Payload.execution_report r) = true
  fits _ _ = false

  abbrev pub IsTagged : Event W → Type 0
  IsTagged e = fits e.type e.payload ≡ true

  -- The queue stores events, and all are well tagged.
  abbrev pub HasTags : EventQueue W → Type ℓ
  HasTags q = (events : List (Event W)) × Carries q events × All IsTagged events

  pub push-HasTags :
      (e : Event W) (q : EventQueue W) → IsTagged e → HasTags q → HasTags (EventQueue.push e q).1
  push-HasTags e q t (events, c, ts) = (
    (if ltb (length events) capacity then events ++ e ∷ [] else events),
    (push_lem e q events c).1,
    kept (ltb (length events) capacity),
  )
    where
      kept : (b : Bool) → All IsTagged (if b then events ++ e ∷ [] else events)
      kept true = All-append IsTagged events (e ∷ []) ts (t, tt)
      kept false = ts

  pub push_all-HasTags :
      (es : List (Event W)) (q : EventQueue W)
      → All IsTagged es
      → HasTags q
      → HasTags (EventQueue.push_all es q)
  unfolding EventQueue.push_all
  push_all-HasTags [] q ts h = h
  push_all-HasTags (e ∷ es) q ts h =
      push_all-HasTags es (EventQueue.push e q).1 ts.1 (push-HasTags e q ts.0 h)

  cancel_ids-HasTags :
      ⦃d : Double W⦄ (ids : List ℕ) (q : EventQueue W) → HasTags q → HasTags (MM.cancel_ids ids q)
  unfolding MM.cancel_ids fits
  cancel_ids-HasTags [] q h = h
  cancel_ids-HasTags (id ∷ ids) q h =
      cancel_ids-HasTags ids (EventQueue.push (MM.cancel_event id) q).1
        (push-HasTags (MM.cancel_event id) q refl h)

module _ {ℓ} {W : Type ℓ} ⦃d : Double W⦄ where
  -- the queue beside any other state
  abbrev Holds {κ} : {A : Type κ} → A × EventQueue W → Type ℓ
  Holds x = HasTags x.1

  submit_bid-Holds :
      (ambient : Ambient W) (price : W) (x : MM.MarketMaker W × EventQueue W)
      → Holds x
      → Holds (MM.submit_bid ambient price x)
  unfolding MM.submit_bid fits
  submit_bid-Holds ambient price x h =
      elim (Bool-cases (lt x.0.current_position x.0.max_position)) [
        | inl e ↦ rw e (push-HasTags _ x.1 refl h)
        | inr e ↦ rw e h
      ]

  submit_ask-Holds :
      (ambient : Ambient W) (price : W) (x : MM.MarketMaker W × EventQueue W)
      → Holds x
      → Holds (MM.submit_ask ambient price x)
  unfolding MM.submit_ask fits
  submit_ask-Holds ambient price x h =
      elim (Bool-cases (gt x.0.current_position (neg x.0.max_position))) [
        | inl e ↦ rw e (push-HasTags _ x.1 refl h)
        | inr e ↦ rw e h
      ]

  cancel_all-Holds : (x : MM.MarketMaker W × EventQueue W) → Holds x → Holds (MM.cancel_all x)
  unfolding MM.cancel_all
  cancel_all-Holds x h = cancel_ids-HasTags x.0.active_orders x.1 h

  requote-Holds :
      (ambient : Ambient W) (bid ask : W) (x : MM.MarketMaker W × EventQueue W)
      → Holds x
      → Holds (MM.requote ambient bid ask x)
  requote-Holds ambient bid ask x h =
      let quoted =
        submit_ask-Holds ambient ask (MM.submit_bid ambient bid (MM.cancel_all x))
          (submit_bid-Holds ambient bid (MM.cancel_all x) (cancel_all-Holds x h)) in
      unfold MM.requote in quoted

  quote-Holds :
      (ambient : Ambient W) (bids asks : List (Level W)) (x : MM.MarketMaker W × EventQueue W)
      → Holds x
      → Holds (MM.quote ambient bids asks x)
  unfolding MM.quote
  quote-Holds ambient [] asks x h = h
  quote-Holds ambient (bid ∷ bids) [] x h = h
  quote-Holds ambient (bid ∷ bids) (ask ∷ asks) x h =
      let new_bid = MM.target_bid bid ask x.0 in
      let new_ask = MM.target_ask bid ask x.0 in
      elim (Bool-cases (MM.too_soon ambient x.0)) [
        | inl e ↦ rw e h
        | inr e ↦ elim (Bool-cases (MM.has_moved new_bid new_ask x.0)) [
          | inl f ↦ rw (e, f) (requote-Holds ambient new_bid new_ask x h)
          | inr f ↦ rw (e, f) h
        ]
      ]

  momentum-Holds :
      (ambient : Ambient W) (md : MarketDataEvent W) (x : Mo.Momentum W × EventQueue W)
      → Holds x
      → Holds (Mo.on_market_data ambient md x)
  unfolding Mo.on_market_data fits
  momentum-Holds ambient md x h =
      let s = Mo.observe md.price x.0 in
      elim (Bool-cases (ltb s.count 50)) [
        | inl e ↦ rw e h
        | inr e ↦ elim (Bool-cases (Mo.bullish s)) [
          | inl f ↦ rw (e, f) (push-HasTags _ x.1 refl h)
          | inr f ↦ elim (Bool-cases (Mo.bearish s)) [
            | inl g ↦ rw (e, f, g) (push-HasTags _ x.1 refl h)
            | inr g ↦ rw (e, f, g) h
          ]
        ]
      ]

  visit-Holds :
      (ambient : Ambient W) (md : MarketDataEvent W) (book : OrderBook W) (s : StrategyVariant W)
      (q : EventQueue W)
      → HasTags q
      → Holds (Strategy.visit_market_data ambient md book s q)
  unfolding Strategy.visit_market_data MM.on_market_data
  visit-Holds ambient md book (market_maker s) q h = quote-Holds ambient _ _ (s, q) h
  visit-Holds ambient md book (momentum s) q h = momentum-Holds ambient md (s, q) h

  -- No strategy pushes a wrongly tagged event.
  pub strategies-Holds :
      (ambient : ℕ → Ambient W) (md : MarketDataEvent W) (book : OrderBook W)
      (strategies : StrategyEngine W) (q : EventQueue W)
      → HasTags q
      → Holds (Strategy.on_market_data ambient md book strategies q)
  unfolding Strategy.on_market_data
  strategies-Holds ambient md book [] q h = h
  strategies-Holds ambient md book (s ∷ strategies) q h =
      strategies-Holds (λ i. ambient (i + 1)) md book strategies _
        (visit-Holds (ambient 0) md book s q h)

  fills-tagged :
      (bid ask : W) (id : ℕ) (orders : List (OrderRequest W))
      → All IsTagged (fills bid ask id orders)
  unfolding fills fits
  fills-tagged bid ask id [] = tt
  fills-tagged bid ask id (order ∷ orders) =
      elim (Option-cases (Exchange.crossing bid ask order order.side)) [
        | inl e ↦ rw (e, fills) (fills-tagged bid ask id orders)
        | inr (price, e) ↦ rw (e, fills) (refl, fills-tagged bid ask (add_u64 id 1) orders)
      ]

  -- Nor does the exchange, nor the order manager.
  pub update_market_price-Holds :
      (md : MarketDataEvent W) (m : MatchingEngine W) (q : EventQueue W)
      → HasTags q
      → Holds (Exchange.update_market_price md (m, q))
  update_market_price-Holds md m q h =
      rw (update_market_price_lem md m q)
        (push_all-HasTags _ q (fills-tagged _ _ m.next_trade_id m.resting_orders) h)

  pub process_order-Holds :
      (order : OrderRequest W) (x : Exchange W) → Holds x → Holds (Exchange.process_order order x)
  unfolding fits
  process_order-Holds order x h =
      let (price, quantity, status, rests, v, e) = process_order-Answer order x in
      rw e (push-HasTags _ x.1 refl h)

  pub cancel_order-Holds : (id : ℕ) (x : Exchange W) → Holds x → Holds (Exchange.cancel_order id x)
  unfolding Exchange.cancel_order fits
  cancel_order-Holds id x h = push-HasTags _ x.1 refl h

  pub handle_order_request-Holds :
      (now : ℕ) (risk : RiskEngine W) (request : OrderRequest W) (x : OrderManager W × EventQueue W)
      → Holds x
      → Holds (Oms.handle_order_request now risk request x)
  unfolding Oms.handle_order_request fits
  handle_order_request-Holds now risk request x h =
      elim (Bool-cases (Oms.validate_order risk request)) [
        | inl e ↦ rw e (push-HasTags _ x.1 refl h)
        | inr e ↦ rw e h
      ]
