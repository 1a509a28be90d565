-- ===== src/OrderBook/Trades.antt =====
-- `apply_trade` as a whole: what a trade changes, and the metrics that it leaves.
use ultra_low_latency_hft_en.Prelude.{◌≡◌, refl, inl, inr, List, [], ◌∷◌, if◌then◌else◌, Bool-cases}
use ultra_low_latency_hft_en.Prelude.Sort.{sort}
use ultra_low_latency_hft_en.Double.{Double, ◌⊕◌, ◌⊖◌, ◌⊘◌}
use ultra_low_latency_hft_en.Core.Events.{MarketDataEvent}
use ultra_low_latency_hft_en.OrderBook.{
  Level, OrderBook, higher, lower, put_level, recalculated, apply_trade,
}

module _ {ℓ} {W : Type ℓ} ⦃d : Double W⦄ where
  -- The metrics belong to the levels at the top, once both sides have one.
  abbrev IsCurrentFor : List (Level W) → List (Level W) → OrderBook W → Type ℓ
  IsCurrentFor (bid ∷ _) (ask ∷ _) b =
      (b.spread ≡ ask.price ⊖ bid.price)
      × (b.imbalance ≡ (bid.quantity ⊖ ask.quantity) ⊘ (bid.quantity ⊕ ask.quantity))
  IsCurrentFor [] asks b = Unit {ℓ}
  IsCurrentFor (_ ∷ _) [] b = Unit {ℓ}

  abbrev pub IsCurrent : OrderBook W → Type ℓ
  IsCurrent b = IsCurrentFor b.bids b.asks b

  sides_of_recalculated :
      (bids asks : List (Level W)) (b : OrderBook W)
      → ((recalculated bids asks b).bids ≡ b.bids)
        × ((recalculated bids asks b).asks ≡ b.asks)
        × ((recalculated bids asks b).last_price ≡ b.last_price)
        × ((recalculated bids asks b).buy_volume ≡ b.buy_volume)
        × ((recalculated bids asks b).sell_volume ≡ b.sell_volume)
  unfolding recalculated
  sides_of_recalculated [] asks b = (refl, refl, refl, refl, refl)
  sides_of_recalculated (x ∷ bids) [] b = (refl, refl, refl, refl, refl)
  sides_of_recalculated (x ∷ bids) (y ∷ asks) b = (refl, refl, refl, refl, refl)

  recalculated-IsCurrent :
      (bids asks : List (Level W)) (b : OrderBook W)
      → IsCurrentFor bids asks (recalculated bids asks b)
  unfolding recalculated
  recalculated-IsCurrent [] asks b = tt
  recalculated-IsCurrent (x ∷ bids) [] b = tt
  recalculated-IsCurrent (x ∷ bids) (y ∷ asks) b = (refl, refl)

  -- After any trade the metrics are those of the best bid and the best ask.
  pub apply_trade-IsCurrent :
      (trade : MarketDataEvent W) (b : OrderBook W) → IsCurrent (apply_trade trade b)
  unfolding apply_trade
  apply_trade-IsCurrent trade b = elim (Bool-cases trade.is_buyer_maker) [
    | inl e ↦ rw e (current _)
    | inr e ↦ rw e (current _)
  ]
    where
      current : (c : OrderBook W) → IsCurrent (recalculated c.bids c.asks c)
      current c =
          let (same_bids, same_asks, _, _, _) = sides_of_recalculated c.bids c.asks c in
          rw (same_bids, same_asks) (recalculated-IsCurrent c.bids c.asks c)

  -- What a trade changes: the side that it names, that side's volume, and the last price.
  pub apply_trade_fields :
      (trade : MarketDataEvent W) (b : OrderBook W)
      → let after = apply_trade trade b in
        let m = trade.is_buyer_maker in
        let p = trade.price in
        let q = trade.quantity in
        (after.bids ≡ (if m then sort higher (put_level p q b.bids) else b.bids))
        × (after.asks ≡ (if m then b.asks else sort lower (put_level p q b.asks)))
        × (after.last_price ≡ p)
        × (after.buy_volume ≡ (if m then b.buy_volume else b.buy_volume ⊕ q))
        × (after.sell_volume ≡ (if m then b.sell_volume ⊕ q else b.sell_volume))
  unfolding apply_trade
  apply_trade_fields trade b = elim (Bool-cases trade.is_buyer_maker) [
    | inl e ↦ rw e (sides_of_recalculated _ _ _)
    | inr e ↦ rw e (sides_of_recalculated _ _ _)
  ]
