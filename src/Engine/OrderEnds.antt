-- ===== src/Engine/OrderEnds.antt =====
-- In every state that the program reaches while no two of its steps overlap: an order ends at most once, and
-- the exchange holds none that the order manager does not know.
use ultra_low_latency_hft_en.Prelude.{
  ℕ, ◌+◌, ◌^◌, ◌≤◌, ◌<◌, ◌≡◌, inl, inr, true, none, some, List, [], ◌∷◌, ◌&&◌, leb, ltb,
  Option-cases, arith, All,
}
use ultra_low_latency_hft_en.Double.{Double}
use ultra_low_latency_hft_en.Core.Events.{Event, EventType, OrderRequest, Payload}
use ultra_low_latency_hft_en.Strategy.{StrategyEngine, market_maker, momentum}
use ultra_low_latency_hft_en.Strategy.MarketMaker as MM
use ultra_low_latency_hft_en.Oms.{OrderManager, is_terminal}
use ultra_low_latency_hft_en.Oms.Lifecycle.{active}
use ultra_low_latency_hft_en.Engine.Reachable.{Loop, Reaches, started}
use ultra_low_latency_hft_en.Engine.Tokens.{
  one_if, token, late_token, late_token_of, tokens, resting, issued,
}
use ultra_low_latency_hft_en.Engine.FlowPaths.{ends_of, handled_on, Reaches-Flows}

module _ {ℓ} {W : Type ℓ} ⦃d : Double W⦄ where
  -- how many of the strategies have given out the order id
  unfoldable pub given_out : ℕ → StrategyEngine W → ℕ
  given_out id [] = 0
  given_out id (market_maker m ∷ strategies) =
      one_if (leb 1_000_000 id && ltb id m.next_order_id) + given_out id strategies
  given_out id (momentum m ∷ strategies) = issued id m.next_order_id + given_out id strategies

  -- On every way of the program on which each push of the feed and each handler of an event is one step that no
  -- other interrupts, in fewer events than would wrap the order ids, however the feed's pushes fall between the
  -- steps of the processor: at most one report is handled that an order is filled, cancelled or rejected, and
  -- none for an id that no strategy has given out. Pushes of both threads at once are not among these ways.
  pub ended_once :
      (id : ℕ) (blank : Event W) (l : Loop W) (r : Reaches (started blank) l)
      → 2_000_000 + handled_on r < 2 ^ 64
      → (ends_of id r ≤ 1) × (ends_of id r ≤ given_out id l.system.strategy)
  unfolding given_out MM.init
  ended_once id blank l r short =
      let h = Reaches-Flows id blank r short in
      (ground (arith, h.bounded), rw h.maker.shape (ground (arith, h.bounded)))

  -- The order manager has an active order with this id.
  abbrev pub IsKnown : OrderManager W → ℕ → Type ℓ
  IsKnown m id = (order : OrderRequest W) × (active id m ≡ some order)

  -- If the event reports that an order is filled, cancelled or rejected, then it is a known one.
  unfoldable pub IsExpected : OrderManager W → EventType → Payload W → Type ℓ
  IsExpected m EventType.execution_report (Payload.execution_report r) =
      is_terminal r.status ≡ true → IsKnown m r.order_id
  IsExpected m _ _ = Unit

  resting-IsKnown :
      (m : OrderManager W) (orders : List (OrderRequest W))
      → ((id : ℕ) → active id m ≡ none → resting id orders ≤ 0)
      → All (λ (order : OrderRequest W). IsKnown m order.order_id) orders
  unfolding resting
  resting-IsKnown m [] h = tt
  resting-IsKnown m (order ∷ orders) h = (
    elim (Option-cases (active order.order_id m)) [
      | inl e ↦ let bound = h order.order_id e in ground arith
      | inr known ↦ known
    ],
    resting-IsKnown m orders (λ id e. omega (arith, h id e)),
  )

  event-IsExpected :
      (m : OrderManager W) (type : EventType) (p : Payload W)
      → ((id : ℕ) → active id m ≡ none → late_token id type p ≤ 0)
      → IsExpected m type p
  unfolding IsExpected late_token token
  event-IsExpected m EventType.execution_report (Payload.execution_report r) h = λ ends.
      elim (Option-cases (active r.order_id m)) [
        | inl e ↦ let bound = h r.order_id e in ground arith
        | inr known ↦ known
      ]
  event-IsExpected m type p h = tt

  events-AreExpected :
      (m : OrderManager W) (es : List (Event W))
      → ((id : ℕ) → active id m ≡ none → tokens (late_token_of id) es ≤ 0)
      → All (λ (e : Event W). IsExpected m e.type e.payload) es
  unfolding tokens
  events-AreExpected m [] h = tt
  events-AreExpected m (e ∷ es) h = (
    event-IsExpected m e.type e.payload (λ id a. omega (arith, h id a)),
    events-AreExpected m es (λ id a. omega (arith, h id a)),
  )

  -- On every way of the program on which each push of the feed and each handler of an event is one step that no
  -- other interrupts, in fewer events than would wrap the order ids: every order that rests in the exchange is
  -- an active order of the order manager, and so is the order of every report of a fill, a cancellation or a
  -- rejection that the processor has taken and has yet to handle. Pushes of both threads at once are not among
  -- these ways.
  pub exchange-IsKnown :
      (blank : Event W) (l : Loop W) (r : Reaches (started blank) l)
      → 2_000_000 + handled_on r < 2 ^ 64
      → let m = l.system.order_manager in
        All
          (λ (order : OrderRequest W). IsKnown m order.order_id)
          l.system.matching_engine.resting_orders
        × All (λ (e : Event W). IsExpected m e.type e.payload) l.batch
  exchange-IsKnown blank l r short =
      let flows = λ (id : ℕ). Reaches-Flows id blank r short in
      (
        resting-IsKnown l.system.order_manager l.system.matching_engine.resting_orders
            (λ id e. omega (arith, (flows id).known e)),
        events-AreExpected l.system.order_manager l.batch
            (λ id e. omega (arith, (flows id).known e)),
      )
