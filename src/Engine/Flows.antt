-- ===== src/Engine/Flows.antt =====
-- The way of an order through the program, from its request to the report that ends it: no part of the
-- program doubles it, and none but the order manager brings one to the exchange.
use ultra_low_latency_hft_en.Prelude.{
  ℕ, suc, ◌+◌, ◌^◌, ◌≤◌, ◌<◌, ◌≡◌, refl, ap, ◌∙◌, sym, inl, inr, none, List, ◌==◌, ◌&&◌, Bool-cases,
  arith, if◌then◌else◌,
}
use ultra_low_latency_hft_en.Double.{Double}
use ultra_low_latency_hft_en.Core.Events.{Event, MarketDataEvent, OrderRequest, ExecutionReport}
use ultra_low_latency_hft_en.Core.EventQueue.{Carries}
use ultra_low_latency_hft_en.OrderBook
use ultra_low_latency_hft_en.Strategy
use ultra_low_latency_hft_en.Strategy.Momentum as Mo
use ultra_low_latency_hft_en.Strategy.MarketMaker as MM
use ultra_low_latency_hft_en.Pnl
use ultra_low_latency_hft_en.Oms
use ultra_low_latency_hft_en.Oms.{is_terminal}
use ultra_low_latency_hft_en.Oms.Lifecycle.{
  IsValid, active, handle_order_request_lem, handle_execution_report_lem,
}
use ultra_low_latency_hft_en.Exchange
use ultra_low_latency_hft_en.Engine.{
  System, Surroundings, on_market_data, on_order_request, on_execution_report,
}
use ultra_low_latency_hft_en.Engine.Reachable.{on_execution_report_keeps}
use ultra_low_latency_hft_en.Engine.Idle.{HasIdleMaker, idle_tick}
use ultra_low_latency_hft_en.Engine.Moves.{momentum-Requests, update_market_price-Moves}
use ultra_low_latency_hft_en.Engine.Tokens.{
  one_if, token, token_of, late_token, late_token_of, tokens, resting, HasAtMost,
  late_tokens-le-tokens, push-HasAtMost, issued,
}

module _ {ℓ} {W : Type ℓ} ⦃d : Double W⦄ where
  -- After `n` events: the tokens of the order `id` that the system holds and `spare` more are at most
  -- one, and none before the id is given out. If the order manager has no such order, then no token is
  -- behind it, with `late` more.
  pub record Flows (id n spare late : ℕ) (s : System W) : Type ℓ where
    pub book : s.order_book ≡ OrderBook.init
    pub maker : HasIdleMaker s.strategy
    pub low : 2_000_000 ≤ maker.other.next_order_id
    pub high : maker.other.next_order_id ≤ 2_000_000 + n
    pub events : List (Event W)
    pub carried : Carries s.event_queue events
    pub bounded :
        spare + tokens (token_of id) events + resting id s.matching_engine.resting_orders
        ≤ issued id maker.other.next_order_id
    pub known :
        active id s.order_manager ≡ none
        → late + tokens (late_token_of id) events + resting id s.matching_engine.resting_orders ≤ 0

  pub fewer :
      (id n m b c k l : ℕ) (s : System W)
      → n ≤ m
      → b ≤ c
      → k ≤ l
      → Flows id n c l s
      → Flows id m b k s
  fewer id n m b c k l s later less behind h = record {
    book = h.book;
    maker = h.maker;
    low = h.low;
    high = omega (arith, h.high);
    events = h.events;
    carried = h.carried;
    bounded = omega (arith, h.bounded);
    known = λ e. omega (arith, h.known e);
  }

  -- The exchange: `incoming` tokens come in with the event.
  pub exchange-Flows :
      (id n incoming b l : ℕ) (s : System W) (x : Exchange.Exchange W)
      → Flows id n (incoming + b) (incoming + l) s
      → ((events : List (Event W))
          → Carries s.event_queue events
          → (added : List (Event W)) × HasAtMost added events x.1
            × (tokens (token_of id) added + resting id x.0.resting_orders
                ≤ incoming + resting id s.matching_engine.resting_orders))
      → Flows id (suc n) b l (record s { matching_engine = x.0; event_queue = x.1 })
  exchange-Flows id n incoming b l s x h moves =
      let (added, (carried, c, few), moved) = moves h.events h.carried in
      record {
        book = h.book;
        maker = h.maker;
        low = h.low;
        high = omega (arith, h.high);
        events = carried;
        carried = c;
        bounded = omega (arith, h.bounded, few (token_of id));
        known =
            λ e. omega (arith, h.known e, few (late_token_of id), late_tokens-le-tokens id added);
      }

  pub market_data-Flows :
      (id n b l : ℕ) (env : Surroundings W) (md : MarketDataEvent W) (s : System W)
      → 2_000_001 + n < 2 ^ 64
      → Flows id n b l s
      → Flows id (suc n) b l (on_market_data env md s)
  unfolding on_market_data Strategy.update_position MM.update_position
  market_data-Flows id n b l env md s short h =
      let positioned = Strategy.update_position (Pnl.get_total_position s.pnl_engine) s.strategy in
      let maker : HasIdleMaker positioned = record {
        position = Pnl.get_total_position s.pnl_engine;
        other = h.maker.other;
        shape = rw h.maker.shape refl;
      } in
      let acted = Mo.on_market_data (env.ambient 1) md (h.maker.other, s.event_queue) in
      let asked =
        momentum-Requests id (env.ambient 1) md h.maker.other s.event_queue h.events h.low
          (omega (arith, h.high)) h.carried in
      let (first, c, few) = asked.queued in
      let (added, (carried, c', few'), moved) =
        update_market_price-Moves id md s.matching_engine acted.1 first c in
      rw (h.book, idle_tick env.ambient md positioned s.event_queue maker)
        (record {
          book = refl;
          maker = record { position = _; other = acted.0; shape = refl };
          low = omega (arith, h.low, asked.grows);
          high = omega (arith, h.high, asked.slowly);
          events = carried;
          carried = c';
          bounded =
              omega (arith, h.bounded, asked.given, few (token_of id), few' (token_of id), moved);
          known = λ e. omega (
            arith,
            h.known e,
            asked.early,
            few (late_token_of id),
            few' (late_token_of id),
            moved,
            late_tokens-le-tokens id added,
          );
        })

  -- An order that is requested is passed on, and then known, or refused.
  pub order_request-Flows :
      (id n b l : ℕ) (env : Surroundings W) (r : OrderRequest W) (s : System W)
      → IsValid s.order_manager
      → Flows id n (one_if (r.order_id == id) + b) l s
      → Flows id (suc n) b l (on_order_request env r s)
  unfolding on_order_request tokens token late_token
  order_request-Flows id n b l env r s v h =
      let (table, queue, _) =
        handle_order_request_lem env.order_now s.risk r s.order_manager s.event_queue id v in
      elim (Bool-cases (Oms.validate_order s.risk r)) [
        | inl e ↦
            let validated = Oms.validated env.order_now r in
            let (carried, c, few) = push-HasAtMost validated s.event_queue h.events h.carried in
            record {
              book = h.book;
              maker = h.maker;
              low = h.low;
              high = omega (arith, h.high);
              events = carried;
              carried = rw (queue, e) c;
              bounded = omega (arith, h.bounded, few (token_of id));
              known = λ a.
                  let unknown = sym table ∙ a in
                  let fewer = few (late_token_of id) in ground (arith, h.known);
            }
        | inr e ↦ record {
          book = h.book;
          maker = h.maker;
          low = h.low;
          high = omega (arith, h.high);
          events = h.events;
          carried = rw (queue, e) h.carried;
          bounded = omega (arith, h.bounded);
          known = λ a. let unknown = sym table ∙ a in ground (arith, h.known);
        }
      ]

  pub report-Flows :
      (id n b l : ℕ) (env : Surroundings W) (r : ExecutionReport W) (s : System W)
      → IsValid s.order_manager
      → l ≤ b
      → Flows id n (one_if (is_terminal r.status && (r.order_id == id)) + b) l s
      → Flows id
          (suc n)
          (one_if (is_terminal r.status && (r.order_id == id)) + b)
          l
          (on_execution_report env r s)
  unfolding Strategy.on_execution
  report-Flows id n b l env r s v behind h =
      let (queue, book, exchange, strategies, orders) = on_execution_report_keeps env r s in
      record {
        book = book ∙ h.book;
        maker = record {
          position = h.maker.position;
          other = h.maker.other;
          shape = rw (strategies, h.maker.shape) refl;
        };
        low = h.low;
        high = omega (arith, h.high);
        events = h.events;
        carried = rw queue h.carried;
        bounded = rw exchange h.bounded;
        known = λ e. rw exchange (
            ended (
              sym (handle_execution_report_lem r s.order_manager id v)
              ∙ ap (active id) (sym orders)
              ∙ e));
      }
    where
      ended :
          (if (r.order_id == id) && is_terminal r.status then none else active id s.order_manager)
            ≡ none
          → l + tokens (late_token_of id) h.events + resting id s.matching_engine.resting_orders ≤ 0
      ended e = elim (Bool-cases (is_terminal r.status && (r.order_id == id))) [
        | inl f ↦
            let fewer = late_tokens-le-tokens id h.events in let all = h.bounded in ground arith
        | inr f ↦ ground (arith, h.known)
      ]
