-- ===== src/OrderBook/Full.antt =====
-- What becomes of a side of the book that has its 100 levels.
use ultra_low_latency_hft_en.Prelude.{
  ◌≡◌, refl, ◌∙◌, inl, inr, Bool, true, false, none, List, [], ◌∷◌, length, Bool-cases, arith,
}
use ultra_low_latency_hft_en.Prelude.Sort.{length-sort}
use ultra_low_latency_hft_en.Double.{Double}
use ultra_low_latency_hft_en.Double.Order.{IsOrdered}
use ultra_low_latency_hft_en.Core.Events.{MarketDataEvent}
use ultra_low_latency_hft_en.OrderBook.{
  Level, OrderBook, higher, lower, max_levels, has_price, put_level, apply_trade,
}
use ultra_low_latency_hft_en.OrderBook.Sides.{
  quantity_at, length-replace, quantity_at-sort, higher-IsPriceOrder, lower-IsPriceOrder,
}
use ultra_low_latency_hft_en.OrderBook.Trades.{apply_trade_fields}
use ultra_low_latency_hft_en.OrderBook.Invariant.{has_price_eq, quantity_at-put_level}
use ultra_low_latency_hft_en.OrderBook.Contract.{replay, side_of}

module _ {ℓ} {W : Type ℓ} ⦃d : Double W⦄ where
  -- The side is full, and shows nothing at the price.
  pub record IsFrozen (r : W) (side : List (Level W)) : Type ℓ where
    pub full : length side ≡ max_levels
    pub missing : quantity_at r side ≡ none

  has_price_missing :
      (r : W) (ls : List (Level W)) → quantity_at r ls ≡ none → has_price r ls ≡ false
  unfolding quantity_at has_price
  has_price_missing r [] e = refl
  has_price_missing r (l ∷ ls) e = ground (arith, has_price_missing r ls)

  module _ (laws : IsOrdered W) where
    put_level-IsFrozen :
        (p q r : W) (ls : List (Level W)) → IsFrozen r ls → IsFrozen r (put_level p q ls)
    unfolding put_level
    put_level-IsFrozen p q r ls h = record {
      full = ground (arith, h.full, length-replace p q ls);
      missing =
          quantity_at-put_level laws p q r ls
          ∙ ground (arith, h.full, h.missing, has_price_eq laws p r ls, has_price_missing r ls);
    }

    apply_trade-IsFrozen :
        (m : Bool) (trade : MarketDataEvent W) (b : OrderBook W) (r : W)
        → IsFrozen r (side_of m b)
        → IsFrozen r (side_of m (apply_trade trade b))
    apply_trade-IsFrozen true trade b r h =
        let (bids, _, _, _, _) = apply_trade_fields trade b in
        elim (Bool-cases trade.is_buyer_maker) [
          | inl e ↦
              let put = put_level-IsFrozen trade.price trade.quantity r b.bids h in
              rw (bids, e)
                (record {
                  full = length-sort higher _ ∙ put.full;
                  missing = quantity_at-sort higher (higher-IsPriceOrder laws) r _ ∙ put.missing;
                })
          | inr e ↦ rw (bids, e) h
        ]
    apply_trade-IsFrozen false trade b r h =
        let (_, asks, _, _, _) = apply_trade_fields trade b in
        elim (Bool-cases trade.is_buyer_maker) [
          | inl e ↦ rw (asks, e) h
          | inr e ↦
              let put = put_level-IsFrozen trade.price trade.quantity r b.asks h in
              rw (asks, e)
                (record {
                  full = length-sort lower _ ∙ put.full;
                  missing = quantity_at-sort lower (lower-IsPriceOrder laws) r _ ∙ put.missing;
                })
        ]

    -- If comparisons obey the laws of `IsOrdered`: once a side of the book has its 100 levels, no trades
    -- bring a price to it that it does not show already, be it the best of all; the side stays full.
    pub full_side_freezes :
        (m : Bool) (trades : List (MarketDataEvent W)) (b : OrderBook W) (r : W)
        → IsFrozen r (side_of m b)
        → IsFrozen r (side_of m (replay trades b))
    unfolding replay
    full_side_freezes m [] b r h = h
    full_side_freezes m (trade ∷ trades) b r h =
        full_side_freezes m trades (apply_trade trade b) r (apply_trade-IsFrozen m trade b r h)
