-- ===== src/Strategy/MarketMaker.antt =====
-- `strategy/market_maker_strategy.hpp`
use ultra_low_latency_hft_en.Prelude.{
  ℕ, ◌-◌, ◌/◌, ◌^◌, Bool, ◌||◌, List, [], ◌∷◌, ◌++◌, if◌then◌else◌, ltb, add_u64,
}
use ultra_low_latency_hft_en.Prelude.Int.{pos}
use ultra_low_latency_hft_en.Double.{Double, lt, gt, abs, neg, min, max, whole, ◌⊕◌, ◌⊖◌, ◌⊗◌, ◌⊘◌}
use ultra_low_latency_hft_en.Core.Events.{
  Event, EventType, OrderRequest, OrderSide, buy, sell, Payload,
}
use ultra_low_latency_hft_en.Core.EventQueue
use ultra_low_latency_hft_en.Core.EventQueue.{EventQueue}
use ultra_low_latency_hft_en.OrderBook.{OrderBook, Level, get_top_bids, get_top_asks}
use ultra_low_latency_hft_en.Strategy.Common.{Ambient, event, order_event}

pub record MarketMaker {ℓ} (W : Type ℓ) : Type ℓ where
  pub current_position : W
  pub max_position : W
  pub alpha : W
  pub beta : W
  pub target_spread : W
  pub last_bid_price : W
  pub last_ask_price : W
  pub last_order_time : ℕ
  pub active_orders : List ℕ
  pub next_order_id : ℕ

module _ {ℓ} {W : Type ℓ} ⦃d : Double W⦄ where
  unfoldable pub init : MarketMaker W
  init = record {
    current_position = whole 0;
    max_position = whole 10;
    alpha = d.decimal (pos 1) 2;
    beta = whole 1;
    target_spread = whole 2;
    last_bid_price = whole 0;
    last_ask_price = whole 0;
    last_order_time = 0;
    active_orders = [];
    next_order_id = 1_000_000;
  }

  unfoldable pub submit_order :
      OrderSide
      → (price : W) (now : ℕ) (raw : OrderRequest W) → MarketMaker W × EventQueue W
      → MarketMaker W × EventQueue W
  submit_order side price now raw (s, q) = (
    record s {
      next_order_id = add_u64 s.next_order_id 1;
      active_orders = s.active_orders ++ s.next_order_id ∷ [];
    },
    (EventQueue.push (order_event 1 s.next_order_id side price (d.decimal (pos 1) 1) now raw) q).1,
  )

  abbrev pub cancel_event : ℕ → Event W
  cancel_event id = event EventType.cancel_order (Payload.cancel_order (record { order_id = id }))

  unfoldable pub cancel_ids : List ℕ → EventQueue W → EventQueue W
  cancel_ids [] q = q
  cancel_ids (id ∷ ids) q = cancel_ids ids (EventQueue.push (cancel_event id) q).1

  unfoldable pub cancel_all : MarketMaker W × EventQueue W → MarketMaker W × EventQueue W
  unfolding cancel_ids
  cancel_all (s, q) = (record s { active_orders = [] }, cancel_ids s.active_orders q)

  abbrev pub imbalance_of : Level W → Level W → W
  imbalance_of bid ask = (bid.quantity ⊖ ask.quantity) ⊘ (bid.quantity ⊕ ask.quantity)

  -- the two targets, kept off the book and rounded to ticks of 1.0
  unfoldable pub target_bid : Level W → Level W → MarketMaker W → W
  target_bid bid ask s =
      let mid_price = (bid.price ⊕ ask.price) ⊘ whole 2 in
      let target =
        mid_price
        ⊖ s.target_spread ⊘ whole 2
        ⊕ imbalance_of bid ask ⊗ s.beta
        ⊖ s.current_position ⊗ s.alpha in
      d.floor (min target bid.price ⊘ whole 1) ⊗ whole 1

  unfoldable pub target_ask : Level W → Level W → MarketMaker W → W
  target_ask bid ask s =
      let mid_price = (bid.price ⊕ ask.price) ⊘ whole 2 in
      let target =
        mid_price
        ⊕ s.target_spread ⊘ whole 2
        ⊕ imbalance_of bid ask ⊗ s.beta
        ⊖ s.current_position ⊗ s.alpha in
      d.ceil (max target ask.price ⊘ whole 1) ⊗ whole 1

  -- the two conditional submissions
  unfoldable pub submit_bid :
      Ambient W → (bid : W) → MarketMaker W × EventQueue W → MarketMaker W × EventQueue W
  unfolding submit_order
  submit_bid ambient bid x =
      if lt x.0.current_position x.0.max_position
      then submit_order buy bid ambient.first_now ambient.first_raw x
      else x

  unfoldable pub submit_ask :
      Ambient W → (ask : W) → MarketMaker W × EventQueue W → MarketMaker W × EventQueue W
  unfolding submit_order
  submit_ask ambient ask x =
      if gt x.0.current_position (neg x.0.max_position)
      then submit_order sell ask ambient.second_now ambient.second_raw x
      else x

  -- the body of the last `if`
  unfoldable pub requote :
      Ambient W → (bid ask : W) → MarketMaker W × EventQueue W → MarketMaker W × EventQueue W
  unfolding cancel_all submit_bid submit_ask
  requote ambient bid ask x =
      let (s, q) = submit_ask ambient ask (submit_bid ambient bid (cancel_all x)) in
      (record s { last_bid_price = bid; last_ask_price = ask; last_order_time = ambient.now }, q)

  -- less than 50 ms since the last quote
  abbrev pub too_soon : Ambient W → MarketMaker W → Bool
  too_soon ambient s = ltb ((ambient.now - s.last_order_time) / 10 ^ 6) 50

  -- a target has moved by more than 0.01
  abbrev pub has_moved : (bid ask : W) → MarketMaker W → Bool
  has_moved bid ask s =
      gt (abs (bid ⊖ s.last_bid_price)) (d.decimal (pos 1) 2)
      || gt (abs (ask ⊖ s.last_ask_price)) (d.decimal (pos 1) 2)

  -- the rest of `on_market_data`, once both sides have shown a level
  unfoldable pub quote :
      Ambient W
      → List (Level W)
      → List (Level W)
      → MarketMaker W × EventQueue W
      → MarketMaker W × EventQueue W
  unfolding requote target_bid target_ask
  quote ambient (bid ∷ _) (ask ∷ _) (s, q) =
      let new_bid = target_bid bid ask s in
      let new_ask = target_ask bid ask s in
      if too_soon ambient s
      then (s, q)
      else if has_moved new_bid new_ask s
      then requote ambient new_bid new_ask (s, q)
      else (s, q)
  quote ambient [] asks x = x
  quote ambient (_ ∷ _) [] x = x

  unfoldable pub on_market_data :
      Ambient W → OrderBook W → MarketMaker W × EventQueue W → MarketMaker W × EventQueue W
  unfolding quote
  on_market_data ambient book x =
      quote ambient (get_top_bids (pos 1) book) (get_top_asks (pos 1) book) x

  unfoldable pub update_position : W → MarketMaker W → MarketMaker W
  update_position position s = record s { current_position = position }
