-- ===== src/Engine/FlowPaths.antt =====
-- The flow of an order along every way of the program in the sense of `Reaches`.
use ultra_low_latency_hft_en.Prelude.{
  ℕ, suc, ◌+◌, ◌^◌, ◌≤◌, ◌<◌, ◌≡◌, refl, ap, some, [], ◌∷◌, ◌==◌, arith,
}
use ultra_low_latency_hft_en.Double.{Double, whole}
use ultra_low_latency_hft_en.Core.Events.{Event, MarketDataEvent}
use ultra_low_latency_hft_en.Core.EventQueue
use ultra_low_latency_hft_en.Core.EventQueue.{EventQueue}
use ultra_low_latency_hft_en.Strategy.Momentum as Mo
use ultra_low_latency_hft_en.Strategy.MarketMaker as MM
use ultra_low_latency_hft_en.Oms.Lifecycle.{IsValid}
use ultra_low_latency_hft_en.Exchange
use ultra_low_latency_hft_en.Engine.{
  System, Surroundings, start, on_validated_order, on_cancel_order, handle,
}
use ultra_low_latency_hft_en.Engine.Reachable.{
  Loop, feed, take, handled, Reaches, here, next, started, feed_event, dispatch-event-cases,
}
use ultra_low_latency_hft_en.Engine.Consistent.{Reaches-IsConsistent}
use ultra_low_latency_hft_en.Engine.Moves.{process_order-Moves, cancel_order-Moves}
use ultra_low_latency_hft_en.Engine.Tokens.{
  one_if, token, token_of, late_token, late_token_of, tokens, tokens-append, resting, end_token,
  end_token-le-token, late_tokens-le-tokens, push-HasAtMost, pop_tokens,
}
use ultra_low_latency_hft_en.Engine.Flows.{
  Flows, fewer, exchange-Flows, market_data-Flows, order_request-Flows, report-Flows,
}

module _ {ℓ} {W : Type ℓ} ⦃d : Double W⦄ where
  -- How often a report was handled on the way that the order `id` is filled, cancelled or rejected.
  unfoldable pub ends_of : ℕ → {l l' : Loop W} → Reaches l l' → ℕ
  ends_of id here = 0
  ends_of id (next r (feed md ts l' e)) = ends_of id r
  ends_of id (next r (take event q l' p e)) = ends_of id r
  ends_of id (next r (handled env event events s l' b k e)) =
      end_token id event.payload + ends_of id r

  -- the events handled on the way
  unfoldable pub handled_on : {l l' : Loop W} → Reaches l l' → ℕ
  handled_on here = 0
  handled_on (next r (feed md ts l' e)) = handled_on r
  handled_on (next r (take event q l' p e)) = handled_on r
  handled_on (next r (handled env event events s l' b k e)) = suc (handled_on r)

  handle-Flows :
      (id n b l : ℕ) (env : Surroundings W) (event : Event W) (s s' : System W)
      → 2_000_001 + n < 2 ^ 64
      → IsValid s.order_manager
      → l ≤ b
      → handle env event s ≡ some s'
      → Flows id n (token_of id event + b) (late_token_of id event + l) s
      → Flows id (suc n) (end_token id event.payload + b) l s'
  unfolding handle token late_token end_token on_validated_order on_cancel_order
  handle-Flows id n b l env event s s' short v behind e =
      dispatch-event-cases
        (λ t p s'.
          Flows id n (token id p + b) (late_token id t p + l) s
          → Flows id (suc n) (end_token id p + b) l s')
        event.type event.payload env s s' e
        (λ t p h.
          fewer id n (suc n) _ _ l _ s (omega arith) (omega (arith, end_token-le-token id p))
            (omega arith) h)
        (λ md h.
          market_data-Flows id n _ l env md s short
            (fewer id n n _ _ l _ s (omega arith) (omega arith) (omega arith) h))
        (λ r h.
          order_request-Flows id n _ l env r s v
            (fewer id n n _ _ l _ s (omega arith) (omega arith) (omega arith) h))
        (λ r h.
          exchange-Flows id n (one_if (r.order_id == id)) _ l s _
            (fewer id n n _ _ _ _ s (omega arith) (omega arith) (omega arith) h)
            (λ events c. process_order-Moves id r s.matching_engine s.event_queue events c))
        (λ x h.
          exchange-Flows id n (one_if (x.order_id == id)) _ l s _
            (fewer id n n _ _ _ _ s (omega arith) (omega arith) (omega arith) h)
            (λ events c. cancel_order-Moves id x.order_id s.matching_engine s.event_queue events c))
        (λ r h.
          report-Flows id n b l env r s v behind
            (fewer id n n _ _ l _ s (omega arith) (omega arith) (omega arith) h))

  feed-Flows :
      (id n b l : ℕ) (md : MarketDataEvent W) (ts : ℕ) (s : System W)
      → Flows id n b l s
      → Flows id n b l
          (record s { event_queue = (EventQueue.push (feed_event md ts) s.event_queue).1 })
  unfolding token late_token tokens
  feed-Flows id n b l md ts s h =
      let (carried, c, few) = push-HasAtMost (feed_event md ts) s.event_queue h.events h.carried in
      record {
        book = h.book;
        maker = h.maker;
        low = h.low;
        high = h.high;
        events = carried;
        carried = c;
        bounded = omega (arith, h.bounded, few (token_of id));
        known = λ e. omega (arith, h.known e, few (late_token_of id));
      }

  take-Flows :
      (id n b l : ℕ) (event : Event W) (q : EventQueue W) (s : System W)
      → EventQueue.pop s.event_queue ≡ (some event, q)
      → Flows id n b l s
      → Flows id n
          (token_of id event + b)
          (late_token_of id event + l)
          (record s { event_queue = q })
  unfolding tokens
  take-Flows id n b l event q s p h =
      let (rest, c, e) = pop_tokens event s.event_queue q h.events p h.carried in
      let all = ap (tokens (token_of id)) e in
      let late = ap (tokens (late_token_of id)) e in
      record {
        book = h.book;
        maker = h.maker;
        low = h.low;
        high = h.high;
        events = rest;
        carried = c;
        bounded = omega (arith, h.bounded);
        known = λ a. omega (arith, h.known a);
      }

  start-Flows : (id : ℕ) (blank : Event W) → Flows id 0 0 0 (start blank)
  unfolding start tokens resting MM.init Mo.init Exchange.init
  start-Flows id blank = record {
    book = refl;
    maker = record { position = whole 0; other = Mo.init; shape = refl };
    low = omega arith;
    high = omega arith;
    events = [];
    carried = EventQueue.init-Carries blank;
    bounded = omega arith;
    known = λ e. omega arith;
  }

  pub Reaches-Flows :
      (id : ℕ) (blank : Event W) {l : Loop W} (r : Reaches (started blank) l)
      → 2_000_000 + handled_on r < 2 ^ 64
      → Flows id
          (handled_on r)
          (tokens (token_of id) l.batch + ends_of id r)
          (tokens (late_token_of id) l.batch)
          l.system
  unfolding handled_on ends_of tokens
  Reaches-Flows id blank here short =
      fewer id 0 0 _ _ _ _ (start blank) (omega arith) (omega arith) (omega arith)
        (start-Flows id blank)
  Reaches-Flows id blank (next r (feed md ts l' e)) short =
      rw e (feed-Flows id _ _ _ md ts _ (Reaches-Flows id blank r short))
  Reaches-Flows id blank (next {k = k} r (take event q l' p e)) short = rw e (
      fewer id _ _ _ _ _ _ _ (omega arith)
        (omega (arith, tokens-append (token_of id) k.batch (event ∷ [])))
        (omega (arith, tokens-append (late_token_of id) k.batch (event ∷ [])))
        (take-Flows id _ _ _ event q k.system p (Reaches-Flows id blank r short)))
  Reaches-Flows id blank (next {k = k} r (handled env event events s l' b h e)) short =
      let before = Reaches-Flows id blank r (omega arith) in
      let all = ap (tokens (token_of id)) b in
      let late = ap (tokens (late_token_of id)) b in
      rw e (
        fewer id _ _ _ _ _ _ s (omega arith) (omega arith) (omega arith) (
          handle-Flows id (handled_on r) (tokens (token_of id) events + ends_of id r)
            (tokens (late_token_of id) events) env event k.system s (omega arith)
            (Reaches-IsConsistent blank k r).orders (omega (arith, late_tokens-le-tokens id events))
            h (fewer id _ _ _ _ _ _ _ (omega arith) (omega arith) (omega arith) before)))
