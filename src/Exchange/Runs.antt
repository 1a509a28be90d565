-- ===== src/Exchange/Runs.antt =====
-- Sequences of calls of the matching engine, in the order in which the event loop makes them.
use ultra_low_latency_hft_en.Prelude.{
  ℕ, ◌≡◌, ap, inl, inr, Bool, none, some, List, [], ◌∷◌, ◌++◌, All-append, Option-cases, add_u64,
}
use ultra_low_latency_hft_en.Double.{Double, whole}
use ultra_low_latency_hft_en.Core.Events.{
  Event, MarketDataEvent, OrderRequest, OrderType, OrderStatus, filled, cancelled,
}
use ultra_low_latency_hft_en.Core.EventQueue
use ultra_low_latency_hft_en.Core.EventQueue.{EventQueue}
use ultra_low_latency_hft_en.Exchange.{
  MatchingEngine, Exchange, init, execution_event, matching_price, crossing, dummy_request,
  process_order, cancel_order, update_market_price,
}
use ultra_low_latency_hft_en.Exchange.Sweep.{
  IsQuiet, update_market_price-IsQuiet, update_market_price_lem, fills, bid_at, ask_at,
}
use ultra_low_latency_hft_en.Exchange.Orders.{
  Verdict, limit_rests, limit_filled, market_filled, market_rejected, answered,
  process_order-Answer,
}

pub data Command {ℓ} (W : Type ℓ) : Type ℓ where
  market_price : MarketDataEvent W → Command W
  order : OrderRequest W → Command W
  cancel : ℕ → Command W

module _ {ℓ} {W : Type ℓ} ⦃d : Double W⦄ where
  unfoldable pub step : Command W → Exchange W → Exchange W
  step (Command.market_price md) = update_market_price md
  step (Command.order o) = process_order o
  step (Command.cancel id) = cancel_order id

  unfoldable pub run : List (Command W) → Exchange W → Exchange W
  unfolding step
  run [] x = x
  run (c ∷ cs) x = run cs (step c x)

  answered-IsQuiet :
      (x : Exchange W) (o : OrderRequest W) (type : OrderType) (price quantity : W)
      (status : OrderStatus) (rests : Bool)
      → Verdict x.0 o type price quantity status rests
      → IsQuiet x.0
      → IsQuiet (answered o price quantity status rests x).0
  answered-IsQuiet x o type price quantity status rests (market_filled e) h = h
  answered-IsQuiet x o type price quantity status rests (market_rejected e) h = h
  answered-IsQuiet x o type price quantity status rests (limit_filled e w) h = h
  answered-IsQuiet x o type price quantity status rests (limit_rests e) h =
      All-append (λ r. matching_price x.0.current_best_bid x.0.current_best_ask r r.side ≡ none)
        x.0.resting_orders (o ∷ []) h (e, tt)

  -- Every call keeps the book quiet.
  pub step-IsQuiet : (c : Command W) (x : Exchange W) → IsQuiet x.0 → IsQuiet (step c x).0
  unfolding step cancel_order
  step-IsQuiet (Command.market_price md) (m, q) h = update_market_price-IsQuiet md m q
  step-IsQuiet (Command.order o) x h =
      let (price, quantity, status, rests, v, e) = process_order-Answer o x in
      rw e (answered-IsQuiet x o o.type price quantity status rests v h)
  step-IsQuiet (Command.cancel id) x h = h

  -- After any calls from a fresh engine, no resting order could be matched at the current prices.
  pub run-IsQuiet : (cs : List (Command W)) (q : EventQueue W) → IsQuiet (run cs (init, q)).0
  unfolding init run
  run-IsQuiet cs q = go cs (init, q) tt
    where
      go : (cs : List (Command W)) (x : Exchange W) → IsQuiet x.0 → IsQuiet (run cs x).0
      go [] x h = h
      go (c ∷ cs) x h = go cs (step c x) (step-IsQuiet c x h)

  -- the completed fill of an order
  abbrev pub fill_of : OrderRequest W → W → ℕ → Event W
  fill_of o price id = execution_event o price o.quantity filled o.signal_ts o.order_ts id

  fills-cross :
      (bid ask : W) (o : OrderRequest W) (price : W) (before after : List (OrderRequest W)) (id : ℕ)
      → crossing bid ask o o.side ≡ some price
      → (k : ℕ) × (pre : List (Event W)) × (post : List (Event W)) × (fills bid ask id
            (before ++ o ∷ after)
          ≡ pre ++ fill_of o price k ∷ post)
  unfolding fills
  fills-cross bid ask o price [] after id e =
      (id, [], fills bid ask (add_u64 id 1) after, rw (e, fills))
  fills-cross bid ask o price (b ∷ before) after id e =
      elim (Option-cases (crossing bid ask b b.side)) [
        | inl stays ↦
            let (k, pre, post, h) = fills-cross bid ask o price before after id e in
            (k, pre, post, rw (stays, fills) h)
        | inr (p, crosses) ↦
            let (k, pre, post, h) = fills-cross bid ask o price before after (add_u64 id 1) e in
            (k, fill_of b p id ∷ pre, post, rw (crosses, fills) (ap (◌∷◌ (fill_of b p id)) h))
      ]

  -- `cancel_order` takes nothing out of the book: an order that rests when its cancellation is
  -- processed, and reported, is still filled by the next trade that it crosses.
  pub cancelled_order_fills :
      (m : MatchingEngine W) (q : EventQueue W) (before after : List (OrderRequest W))
      (o : OrderRequest W) (md : MarketDataEvent W) (price : W)
      → m.resting_orders ≡ before ++ o ∷ after
      → crossing (bid_at md.price) (ask_at md.price) o o.side ≡ some price
      → (k : ℕ) × (pre : List (Event W)) × (post : List (Event W)) × ((run
            (Command.cancel o.order_id ∷ Command.market_price md ∷ [])
            (m, q)).1
          ≡ EventQueue.push_all
              (execution_event
                  (dummy_request o.order_id)
                  (whole 0)
                  (whole 0)
                  cancelled
                  0
                  0
                  m.next_trade_id
                ∷ (pre ++ fill_of o price k ∷ post))
              q)
  unfolding run cancel_order EventQueue.push_all
  cancelled_order_fills m q before after o md price rests e =
      let (k, pre, post, h) =
        fills-cross (bid_at md.price) (ask_at md.price) o price before after
          (add_u64 m.next_trade_id 1) e in
      (k, pre, post, rw (update_market_price_lem, rests, h))
