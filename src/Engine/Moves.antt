-- ===== src/Engine/Moves.antt =====
-- What the exchange and the momentum strategy do with the tokens of an order.
use ultra_low_latency_hft_en.Prelude.{
  ℕ, ◌+◌, ◌^◌, ◌≤◌, ◌<◌, ◌≡◌, refl, inl, inr, Bool, ◌&&◌, List, [], ◌∷◌, ◌++◌, ltb, ◌==◌,
  if◌then◌else◌, Bool-cases, Option-cases, add_u64, keep, arith,
}
use ultra_low_latency_hft_en.Prelude.Int.{pos}
use ultra_low_latency_hft_en.Double.{Double, whole, ◌⊕◌, ◌⊖◌}
use ultra_low_latency_hft_en.Core.Events.{
  Event, MarketDataEvent, OrderRequest, OrderSide, OrderType, OrderStatus, buy, sell,
}
use ultra_low_latency_hft_en.Core.EventQueue.{EventQueue, Carries}
use ultra_low_latency_hft_en.Strategy.Common.{Ambient, order_event}
use ultra_low_latency_hft_en.Strategy.Momentum as Mo
use ultra_low_latency_hft_en.Oms.{is_terminal}
use ultra_low_latency_hft_en.Exchange
use ultra_low_latency_hft_en.Exchange.{MatchingEngine, Exchange, is_filled}
use ultra_low_latency_hft_en.Exchange.Sweep.{fills, stays, update_market_price_lem}
use ultra_low_latency_hft_en.Exchange.Orders.{
  process_order-Answer, Verdict, market_filled, market_rejected, limit_filled, limit_rests,
}
use ultra_low_latency_hft_en.Engine.Tokens.{
  one_if, issued, token, token_of, late_token, late_token_of, tokens, resting, resting-append,
  HasAtMost, push-HasAtMost, same-HasAtMost, push_all-HasAtMost,
}

module _ {ℓ} {W : Type ℓ} ⦃d : Double W⦄ where
  -- Each order that the sweep erases gives one report of its fill.
  tokens-fills :
      (bid ask : W) (id tid : ℕ) (orders : List (OrderRequest W))
      → tokens (token_of id) (fills bid ask tid orders) + resting id (keep (stays bid ask) orders)
        ≡ resting id orders
  unfolding tokens token resting fills stays
  tokens-fills bid ask id tid [] = refl
  tokens-fills bid ask id tid (order ∷ orders) =
      elim (Option-cases (Exchange.crossing bid ask order order.side)) [
        | inl e ↦ rw (e, fills, stays) (omega (arith, tokens-fills bid ask id tid orders))
        | inr (price, e) ↦
            rw (e, fills, stays) (omega (arith, tokens-fills bid ask id (add_u64 tid 1) orders))
      ]

  -- What the exchange pushes takes its tokens from the resting orders and from what came in.
  abbrev Moves : (id incoming : ℕ) → MatchingEngine W → List (Event W) → Exchange W → Type ℓ
  Moves id incoming m events x =
      (added : List (Event W)) × HasAtMost added events x.1
      × (tokens (token_of id) added + resting id x.0.resting_orders
          ≤ incoming + resting id m.resting_orders)

  pub update_market_price-Moves :
      (id : ℕ) (md : MarketDataEvent W) (m : MatchingEngine W) (q : EventQueue W)
      (events : List (Event W))
      → Carries q events
      → Moves id 0 m events (Exchange.update_market_price md (m, q))
  update_market_price-Moves id md m q events c = rw (update_market_price_lem md m q) (
    _,
    push_all-HasAtMost _ q events c,
    omega (arith, tokens-fills _ _ id m.next_trade_id m.resting_orders),
  )

  pub process_order-Moves :
      (id : ℕ) (order : OrderRequest W) (m : MatchingEngine W) (q : EventQueue W)
      (events : List (Event W))
      → Carries q events
      → Moves id (one_if (order.order_id == id)) m events (Exchange.process_order order (m, q))
  unfolding tokens token resting
  process_order-Moves id order m q events c =
      let (price, quantity, status, rests, v, e) = process_order-Answer order (m, q) in
      let report =
        Exchange.execution_event order price quantity status order.signal_ts order.order_ts
          m.next_trade_id in
      rw e (report ∷ [], push-HasAtMost report q events c, moved v)
    where
      moved :
          {type : OrderType} {price quantity : W} {status : OrderStatus} {rests : Bool}
          → Verdict m order type price quantity status rests
          → one_if (is_terminal status && (order.order_id == id))
              + 0
              + resting id (if rests then m.resting_orders ++ order ∷ [] else m.resting_orders)
            ≤ one_if (order.order_id == id) + resting id m.resting_orders
      moved (market_filled _) = omega arith
      moved (market_rejected _) = omega arith
      moved (limit_filled _ _) = omega arith
      moved (limit_rests _) = omega (arith, resting-append id m.resting_orders (order ∷ []))

  pub cancel_order-Moves :
      (id cancelled : ℕ) (m : MatchingEngine W) (q : EventQueue W) (events : List (Event W))
      → Carries q events
      → Moves id (one_if (cancelled == id)) m events (Exchange.cancel_order cancelled (m, q))
  unfolding Exchange.cancel_order tokens token
  cancel_order-Moves id cancelled m q events c =
      let report =
        Exchange.execution_event (Exchange.dummy_request cancelled) (whole 0) (whole 0)
          OrderStatus.cancelled 0 0 m.next_trade_id in
      (report ∷ [], push-HasAtMost report q events c, omega arith)

  -- What a tick makes the momentum strategy push: a request of the next id, which it then has given out,
  -- or nothing.
  pub record Requests (id next next' : ℕ) (events : List (Event W)) (q : EventQueue W)
      : Type ℓ where
    pub added : List (Event W)
    pub queued : HasAtMost added events q
    pub grows : next ≤ next'
    pub slowly : next' ≤ next + 1
    pub given : tokens (token_of id) added + issued id next ≤ issued id next'
    pub early : tokens (late_token_of id) added ≡ 0

  submit_order-Requests :
      (id : ℕ) (side : OrderSide) (price : W) (now : ℕ) (raw : OrderRequest W) (s : Mo.Momentum W)
      (q : EventQueue W) (events : List (Event W))
      → 2_000_000 ≤ s.next_order_id
      → s.next_order_id + 1 < 2 ^ 64
      → Carries q events
      → let x = Mo.submit_order side price now raw (s, q) in
        Requests id s.next_order_id x.0.next_order_id events x.1
  unfolding Mo.submit_order tokens token late_token
  submit_order-Requests id side price now raw s q events low high c =
      let given : add_u64 s.next_order_id 1 ≡ s.next_order_id + 1 = omega arith in
      let request = order_event 2 s.next_order_id side price (d.decimal (pos 5) 1) now raw in
      record {
        added = request ∷ [];
        queued = push-HasAtMost request q events c;
        grows = omega arith;
        slowly = omega arith;
        given = rw given (ground arith);
        early = omega arith;
      }

  pub momentum-Requests :
      (id : ℕ) (ambient : Ambient W) (md : MarketDataEvent W) (s : Mo.Momentum W) (q : EventQueue W)
      (events : List (Event W))
      → 2_000_000 ≤ s.next_order_id
      → s.next_order_id + 1 < 2 ^ 64
      → Carries q events
      → let x = Mo.on_market_data ambient md (s, q) in
        Requests id s.next_order_id x.0.next_order_id events x.1
  unfolding Mo.on_market_data Mo.observe tokens
  momentum-Requests id ambient md s q events low high c =
      let seen = Mo.observe md.price s in
      let submitted = λ (side : OrderSide) (price : W).
        submit_order-Requests id side price ambient.first_now ambient.first_raw seen q events low
          high c in
      let bought = submitted buy (md.price ⊕ whole 1) in
      let sold = submitted sell (md.price ⊖ whole 1) in
      let quiet : Requests id s.next_order_id s.next_order_id events q = record {
        added = [];
        queued = same-HasAtMost q events c;
        grows = omega arith;
        slowly = omega arith;
        given = omega arith;
        early = refl;
      } in
      elim (Bool-cases (ltb seen.count 50)) [
        | inl e ↦ rw e quiet
        | inr e ↦ elim (Bool-cases (Mo.bullish seen)) [
          | inl f ↦ rw (e, f) bought
          | inr f ↦ elim (Bool-cases (Mo.bearish seen)) [
            | inl g ↦ rw (e, f, g) sold
            | inr g ↦ rw (e, f, g) quiet
          ]
        ]
      ]
