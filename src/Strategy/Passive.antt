-- ===== src/Strategy/Passive.antt =====
-- How the market maker's quotes stand to the best levels of the book.
use ultra_low_latency_hft_en.Prelude.{
  ℕ, ◌≡◌, refl, ◌∙◌, ap, inl, inr, true, List, [], ◌∷◌, ◌++◌, All, All-append, map, Bool-cases,
}
use ultra_low_latency_hft_en.Prelude.Int.{pos}
use ultra_low_latency_hft_en.Double.{Double, lt, gt, le, ge, neg, IsNumber}
use ultra_low_latency_hft_en.Double.Order.{IsOrdered, IsRounding, floor-min-le, ceil-max-ge}
use ultra_low_latency_hft_en.Core.Events.{Event, OrderSide, buy, sell, Payload}
use ultra_low_latency_hft_en.Core.EventQueue
use ultra_low_latency_hft_en.Core.EventQueue.{EventQueue}
use ultra_low_latency_hft_en.OrderBook.{Level, OrderBook, get_top_bids, get_top_asks}
use ultra_low_latency_hft_en.Strategy.Common.{Ambient}
use ultra_low_latency_hft_en.Strategy.MarketMaker.{
  MarketMaker, cancel_event, target_bid, target_ask, on_market_data,
}
use ultra_low_latency_hft_en.Strategy.Quotes.{orders, on_market_data-Quotes}

module _ {ℓ} {W : Type ℓ} ⦃d : Double W⦄ where
  -- a buy at no more than the best bid, a sale at no less than the best ask
  unfoldable pub KeepsOff : (bid ask price : W) → OrderSide → Type 0
  KeepsOff bid ask price buy = IsNumber price → le price bid ≡ true
  KeepsOff bid ask price sell = IsNumber price → ge price ask ≡ true

  unfoldable pub IsPassive : (bid ask : Level W) → Payload W → Type 0
  IsPassive bid ask (Payload.order_request r) = KeepsOff bid.price ask.price r.price r.side
  IsPassive bid ask _ = Unit

  abbrev pub ArePassive : (bid ask : Level W) → List (Event W) → Type 0
  ArePassive bid ask = All (λ (e : Event W). IsPassive bid ask e.payload)

  cancels-ArePassive :
      (bid ask : Level W) (ids : List ℕ) → ArePassive bid ask (map cancel_event ids)
  unfolding IsPassive
  cancels-ArePassive bid ask [] = tt
  cancels-ArePassive bid ask (id ∷ ids) = (tt, cancels-ArePassive bid ask ids)

  module _ (laws : IsOrdered W) (rounding : IsRounding W) where
    orders-ArePassive :
        (ambient : Ambient W) (bid ask : Level W) (s : MarketMaker W)
        → IsNumber bid.price
        → IsNumber ask.price
        → ArePassive bid ask (orders ambient (target_bid bid ask s) (target_ask bid ask s) s)
    unfolding IsPassive KeepsOff orders target_bid target_ask
    orders-ArePassive ambient bid ask s n m =
        let below = floor-min-le laws rounding _ bid.price n in
        let above = ceil-max-ge laws rounding _ ask.price m in
        elim (Bool-cases (lt s.current_position s.max_position)) [
          | inl e ↦ elim (Bool-cases (gt s.current_position (neg s.max_position))) [
            | inl f ↦ rw (e, f) (below, (above, tt))
            | inr f ↦ rw (e, f) (below, tt)
          ]
          | inr e ↦ elim (Bool-cases (gt s.current_position (neg s.max_position))) [
            | inl f ↦ rw (e, f) (above, tt)
            | inr f ↦ rw (e, f) tt
          ]
        ]

    -- What the market maker pushes when the best levels of the book are `bid` and `ask`: cancellations,
    -- buys at no more than the best bid and sales at no less than the best ask, if their prices are
    -- numbers. Comparisons and `floor`, `ceil`, `/ 1.0` and `* 1.0`
    -- are to obey the laws named.
    pub quotes_keep_off :
        (ambient : Ambient W) (book : OrderBook W) (bid ask : Level W) (bids asks : List (Level W))
        (x : MarketMaker W × EventQueue W)
        → get_top_bids (pos 1) book ≡ bid ∷ bids
        → get_top_asks (pos 1) book ≡ ask ∷ asks
        → IsNumber bid.price
        → IsNumber ask.price
        → (events : List (Event W)) × ((on_market_data ambient book x).1
            ≡ EventQueue.push_all events x.1)
          × ArePassive bid ask events
    unfolding EventQueue.push_all
    quotes_keep_off ambient book bid ask bids asks x b a n m =
        elim (on_market_data-Quotes ambient book x) [
          | inl (same, _) ↦ ([], ap (λ y. y.1) same, tt)
          | inr h ↦
              let shown_bid : h.bid ≡ bid = cc in
              let shown_ask : h.ask ≡ ask = cc in
              (
                map cancel_event x.0.active_orders
                    ++ orders ambient (target_bid bid ask x.0) (target_ask bid ask x.0) x.0,
                h.quoted.queue ∙ rw (shown_bid, shown_ask) refl,
                All-append (λ (e : Event W). IsPassive bid ask e.payload)
                    (map cancel_event x.0.active_orders) _
                    (cancels-ArePassive bid ask x.0.active_orders)
                    (orders-ArePassive ambient bid ask x.0 n m),
              )
        ]
