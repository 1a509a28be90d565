-- ===== src/Engine/Idle.antt =====
-- What the event loop never does: it never updates the order book, so the market maker never quotes.
use ultra_low_latency_hft_en.Prelude.{ℕ, ◌≡◌, refl, inl, inr, some, [], ◌∷◌, Bool-cases}
use ultra_low_latency_hft_en.Double.{Double, whole}
use ultra_low_latency_hft_en.Core.Events.{Event, MarketDataEvent, ExecutionReport}
use ultra_low_latency_hft_en.Core.EventQueue.{EventQueue}
use ultra_low_latency_hft_en.OrderBook
use ultra_low_latency_hft_en.OrderBook.{OrderBook}
use ultra_low_latency_hft_en.Strategy
use ultra_low_latency_hft_en.Strategy.{StrategyEngine, market_maker, momentum}
use ultra_low_latency_hft_en.Strategy.Common.{Ambient}
use ultra_low_latency_hft_en.Strategy.MarketMaker as MM
use ultra_low_latency_hft_en.Strategy.Momentum as Mo
use ultra_low_latency_hft_en.Exchange.{is_filled}
use ultra_low_latency_hft_en.Engine.{
  System, Surroundings, start, on_market_data, on_order_request, on_validated_order,
  on_cancel_order, on_execution_report, account, handle,
}
use ultra_low_latency_hft_en.Engine.Reachable.{
  Loop, Step, feed, take, handled, Reaches, here, next, started, dispatch-cases,
}

module _ {ℓ} {W : Type ℓ} ⦃d : Double W⦄ where
  -- The strategies of `main`, the market maker as it was made but for its position.
  pub record HasIdleMaker (strategies : StrategyEngine W) : Type ℓ where
    pub position : W
    pub other : Mo.Momentum W
    pub shape :
        strategies
        ≡ market_maker (record (MM.init) { current_position = position }) ∷ momentum other ∷ []

  pub record IsIdle (s : System W) : Type ℓ where
    pub book : s.order_book ≡ OrderBook.init
    pub maker : HasIdleMaker s.strategy

  update_position-HasIdleMaker :
      (p : W) (strategies : StrategyEngine W)
      → HasIdleMaker strategies
      → HasIdleMaker (Strategy.update_position p strategies)
  unfolding Strategy.update_position MM.update_position
  update_position-HasIdleMaker p strategies h = record {
    position = p;
    other = h.other;
    shape = rw h.shape;
  }

  -- On the empty book only the momentum strategy acts.
  pub idle_tick :
      (ambient : ℕ → Ambient W) (md : MarketDataEvent W) (strategies : StrategyEngine W)
      (q : EventQueue W) (h : HasIdleMaker strategies)
      → let acted = Mo.on_market_data (ambient 1) md (h.other, q) in
        Strategy.on_market_data ambient md OrderBook.init strategies q ≡ (
          market_maker (record (MM.init) { current_position = h.position }) ∷ momentum acted.0 ∷ [],
          acted.1,
        )
  unfolding Strategy.on_market_data MM.on_market_data OrderBook.init OrderBook.get_top_bids
      OrderBook.get_top_asks
  idle_tick ambient md strategies q h = rw h.shape refl

  market_data-HasIdleMaker :
      (ambient : ℕ → Ambient W) (md : MarketDataEvent W) (strategies : StrategyEngine W)
      (q : EventQueue W)
      → HasIdleMaker strategies
      → HasIdleMaker (Strategy.on_market_data ambient md OrderBook.init strategies q).0
  market_data-HasIdleMaker ambient md strategies q h = record {
    position = h.position;
    other = (Mo.on_market_data (ambient 1) md (h.other, q)).0;
    shape = rw (idle_tick ambient md strategies q h) refl;
  }

  execution-HasIdleMaker :
      (r : ExecutionReport W) (strategies : StrategyEngine W)
      → HasIdleMaker strategies
      → HasIdleMaker (Strategy.on_execution r strategies)
  unfolding Strategy.on_execution
  execution-HasIdleMaker r strategies h = record {
    position = h.position;
    other = h.other;
    shape = rw h.shape;
  }

  report-IsIdle :
      (env : Surroundings W) (r : ExecutionReport W) (s : System W)
      → IsIdle s
      → IsIdle (on_execution_report env r s)
  unfolding on_execution_report account
  report-IsIdle env r s h =
      let told = execution-HasIdleMaker r s.strategy h.maker in
      elim (Bool-cases (is_filled r.status)) [
        | inl e ↦ rw e (record { book = h.book; maker = told })
        | inr e ↦ rw e (record { book = h.book; maker = told })
      ]

  handle-IsIdle :
      (env : Surroundings W) (event : Event W) (s s' : System W)
      → handle env event s ≡ some s'
      → IsIdle s
      → IsIdle s'
  unfolding handle on_market_data on_order_request on_validated_order on_cancel_order
  handle-IsIdle env event s s' e h =
      dispatch-cases IsIdle event.type event.payload env s s' e h
        (λ md. record {
          book = h.book;
          maker = rw h.book (
              market_data-HasIdleMaker env.ambient md _ s.event_queue
                (update_position-HasIdleMaker _ s.strategy h.maker));
        })
        (λ r. record { book = h.book; maker = h.maker })
        (λ r. record { book = h.book; maker = h.maker })
        (λ id. record { book = h.book; maker = h.maker }) (λ r. report-IsIdle env r s h)

  Step-IsIdle : {l l' : Loop W} → Step l l' → IsIdle l.system → IsIdle l'.system
  Step-IsIdle (feed md ts l' e) h = rw e (record { book = h.book; maker = h.maker })
  Step-IsIdle (take event q l' p e) h = rw e (record { book = h.book; maker = h.maker })
  Step-IsIdle {l} (handled env event events s l' b k e) h =
      rw e (handle-IsIdle env event l.system s k h)

  start-IsIdle : (blank : Event W) → IsIdle (start blank)
  unfolding start MM.init
  start-IsIdle blank = record {
    book = refl;
    maker = record { position = whole 0; other = Mo.init; shape = refl };
  }

  -- In every state that the program reaches the order book is empty, as it was made, and the market
  -- maker has submitted nothing: but for its position it is as it was made.
  pub Reaches-IsIdle : (blank : Event W) (l : Loop W) → Reaches (started blank) l → IsIdle l.system
  Reaches-IsIdle blank l here = start-IsIdle blank
  Reaches-IsIdle blank l (next r st) = Step-IsIdle st (Reaches-IsIdle blank _ r)
