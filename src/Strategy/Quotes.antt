-- ===== src/Strategy/Quotes.antt =====
-- What the market maker pushes when it quotes: cancellations of all that it has quoted, then new
-- orders.
use ultra_low_latency_hft_en.Prelude.{
  ℕ, ◌≡◌, refl, sym, ◌∙◌, ap, inl, inr, ◌⊎◌, true, false, List, [], ◌∷◌, ◌++◌, if◌then◌else◌,
  Bool-cases, add_u64, map,
}
use ultra_low_latency_hft_en.Prelude.Int.{pos}
use ultra_low_latency_hft_en.Double.{Double, lt, gt, neg}
use ultra_low_latency_hft_en.Core.Events.{Event, buy, sell}
use ultra_low_latency_hft_en.Core.EventQueue
use ultra_low_latency_hft_en.Core.EventQueue.{EventQueue, push_all-append}
use ultra_low_latency_hft_en.OrderBook.{Level, OrderBook, get_top_bids, get_top_asks}
use ultra_low_latency_hft_en.Strategy.Common.{Ambient, order_event}
use ultra_low_latency_hft_en.Strategy.MarketMaker.{
  MarketMaker, submit_order, cancel_event, cancel_ids, cancel_all, target_bid, target_ask,
  submit_bid, submit_ask, requote, too_soon, has_moved, quote, on_market_data,
}

module _ {ℓ} {W : Type ℓ} ⦃d : Double W⦄ where
  -- the new orders: a buy unless the position is at its maximum, a sell unless it is at its minimum
  unfoldable pub orders : Ambient W → (bid ask : W) → MarketMaker W → List (Event W)
  orders ambient bid ask s =
      let id = s.next_order_id in
      let tenth = d.decimal (pos 1) 1 in
      let bid_order =
        λ (n : ℕ). order_event 1 n buy bid tenth ambient.first_now ambient.first_raw in
      let ask_order =
        λ (n : ℕ). order_event 1 n sell ask tenth ambient.second_now ambient.second_raw in
      if lt s.current_position s.max_position
      then (if gt s.current_position (neg s.max_position)
          then bid_order id ∷ ask_order (add_u64 id 1) ∷ []
          else bid_order id ∷ [])
      else if gt s.current_position (neg s.max_position)
      then ask_order id ∷ []
      else []

  -- their ids
  unfoldable pub ids : MarketMaker W → List ℕ
  ids s =
      let id = s.next_order_id in
      if lt s.current_position s.max_position
      then (if gt s.current_position (neg s.max_position) then id ∷ add_u64 id 1 ∷ [] else id ∷ [])
      else if gt s.current_position (neg s.max_position)
      then id ∷ []
      else []

  -- `x'` after quoting `bid` and `ask` in `x`.
  pub record HasQuoted (ambient : Ambient W) (bid ask : W) (x x' : MarketMaker W × EventQueue W)
      : Type ℓ where
    pub queue :
        x'.1
        ≡ EventQueue.push_all (map cancel_event x.0.active_orders ++ orders ambient bid ask x.0) x.1
    pub active : x'.0.active_orders ≡ ids x.0
    pub last_bid : x'.0.last_bid_price ≡ bid
    pub last_ask : x'.0.last_ask_price ≡ ask
    pub time : x'.0.last_order_time ≡ ambient.now

  cancel_ids-push_all :
      (l : List ℕ) (q : EventQueue W) → cancel_ids l q ≡ EventQueue.push_all (map cancel_event l) q
  unfolding cancel_ids EventQueue.push_all
  cancel_ids-push_all [] q = refl
  cancel_ids-push_all (id ∷ l) q = cancel_ids-push_all l (EventQueue.push (cancel_event id) q).1

  submitted :
      (ambient : Ambient W) (bid ask : W) (s : MarketMaker W) (q : EventQueue W)
      → let (s', q') =
          submit_ask ambient ask (submit_bid ambient bid (record s { active_orders = [] }, q)) in
        (q' ≡ EventQueue.push_all (orders ambient bid ask s) q) × (s'.active_orders ≡ ids s)
  unfolding submit_bid submit_ask submit_order orders ids EventQueue.push_all
  submitted ambient bid ask s q = elim (Bool-cases (lt s.current_position s.max_position)) [
    | inl e ↦ elim (Bool-cases (gt s.current_position (neg s.max_position))) [
      | inl f ↦ rw (e, f) (refl, refl)
      | inr f ↦ rw (e, f) (refl, refl)
    ]
    | inr e ↦ elim (Bool-cases (gt s.current_position (neg s.max_position))) [
      | inl f ↦ rw (e, f) (refl, refl)
      | inr f ↦ rw (e, f) (refl, refl)
    ]
  ]

  requote-HasQuoted :
      (ambient : Ambient W) (bid ask : W) (x : MarketMaker W × EventQueue W)
      → HasQuoted ambient bid ask x (requote ambient bid ask x)
  unfolding requote cancel_all
  requote-HasQuoted ambient bid ask (s, q) =
      let cancels = map cancel_event s.active_orders in
      let new = orders ambient bid ask s in
      let (queue, active) = submitted ambient bid ask s (cancel_ids s.active_orders q) in
      record {
        queue =
            queue
            ∙ ap (EventQueue.push_all new) (cancel_ids-push_all s.active_orders q)
            ∙ sym (push_all-append cancels new q);
        active = active;
        last_bid = refl;
        last_ask = refl;
        time = refl;
      }

  -- The conditions of a quote: both sides show a level, and the pause is over; and the quote at the
  -- targets of the best levels.
  pub record Quotes (ambient : Ambient W) (bids asks : List (Level W))
      (x x' : MarketMaker W × EventQueue W) : Type ℓ where
    pub bid : Level W
    pub ask : Level W
    pub more_bids : List (Level W)
    pub more_asks : List (Level W)
    pub bids_shown : bids ≡ bid ∷ more_bids
    pub asks_shown : asks ≡ ask ∷ more_asks
    pub paused : too_soon ambient x.0 ≡ false
    pub moved : has_moved (target_bid bid ask x.0) (target_ask bid ask x.0) x.0 ≡ true
    pub quoted : HasQuoted ambient (target_bid bid ask x.0) (target_ask bid ask x.0) x x'

  -- Why the market maker does not quote.
  pub data Waits (ambient : Ambient W) (s : MarketMaker W)
      : List (Level W) → List (Level W) → Type ℓ where
    no_bids : {asks : List (Level W)} → Waits ambient s [] asks
    no_asks : {bids : List (Level W)} → Waits ambient s bids []
    pausing : {bids asks : List (Level W)} → too_soon ambient s ≡ true → Waits ambient s bids asks
    settled :
        {bid ask : Level W} {bids asks : List (Level W)}
        → has_moved (target_bid bid ask s) (target_ask bid ask s) s ≡ false
        → Waits ambient s (bid ∷ bids) (ask ∷ asks)

  quote-Quotes :
      (ambient : Ambient W) (bids asks : List (Level W)) (x : MarketMaker W × EventQueue W)
      → ((quote ambient bids asks x ≡ x) × Waits ambient x.0 bids asks)
        ⊎ Quotes ambient bids asks x (quote ambient bids asks x)
  unfolding quote
  quote-Quotes ambient [] asks x = inl (refl, no_bids)
  quote-Quotes ambient (b ∷ bs) [] x = inl (refl, no_asks)
  quote-Quotes ambient (b ∷ bs) (a ∷ rest) x = elim (Bool-cases (too_soon ambient x.0)) [
    | inl e ↦ inl (rw e refl, pausing e)
    | inr e ↦ elim (Bool-cases (has_moved (target_bid b a x.0) (target_ask b a x.0) x.0)) [
      | inr f ↦ inl (rw (e, f) refl, settled f)
      | inl f ↦
          let done : quote ambient (b ∷ bs) (a ∷ rest) x
              ≡ requote ambient (target_bid b a x.0) (target_ask b a x.0) x =
            rw (e, f) refl in
          inr (record {
            bid = b;
            ask = a;
            more_bids = bs;
            more_asks = rest;
            bids_shown = refl;
            asks_shown = refl;
            paused = e;
            moved = f;
            quoted =
                rw done (requote-HasQuoted ambient (target_bid b a x.0) (target_ask b a x.0) x);
          })
    ]
  ]

  -- `on_market_data` of the market maker changes nothing for one of these reasons: a side of the
  -- book shows no level, less than 50 ms have passed, or no target has moved by more than 0.01.
  -- Else it cancels all that it has quoted before, pushes a buy and a sell at the targets as far as
  -- the position allows, and has just these as active orders.
  pub on_market_data-Quotes :
      (ambient : Ambient W) (book : OrderBook W) (x : MarketMaker W × EventQueue W)
      → let bids = get_top_bids (pos 1) book in
        let asks = get_top_asks (pos 1) book in
        let x' = on_market_data ambient book x in
        ((x' ≡ x) × Waits ambient x.0 bids asks) ⊎ Quotes ambient bids asks x x'
  unfolding on_market_data
  on_market_data-Quotes ambient book x =
      quote-Quotes ambient (get_top_bids (pos 1) book) (get_top_asks (pos 1) book) x
