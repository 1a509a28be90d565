-- ===== src/OrderBook/Contract.antt =====
-- What the order book promises its readers.
use mathlib.Core.List.{Perm}
use ultra_low_latency_hft_en.Prelude.{
  ℕ, zero, suc, ◌≡◌, refl, sym, ◌∙◌, ap, inl, inr, Bool, true, false, List, [], ◌∷◌, ◌++◌, length,
  All, if◌then◌else◌, Bool-cases, min, length-take, take, drop,
}
use ultra_low_latency_hft_en.Prelude.Int.{ℤ, pos_part}
use ultra_low_latency_hft_en.Prelude.Sort.{IsSorted, sort, sort_unique}
use ultra_low_latency_hft_en.Double.{Double, IsNumber, ◌⊕◌}
use ultra_low_latency_hft_en.Double.Order.{IsOrdered}
use ultra_low_latency_hft_en.Core.Events.{MarketDataEvent}
use ultra_low_latency_hft_en.OrderBook.{
  Level, OrderBook, higher, lower, put_level, apply_trade, get_top_bids, get_top_asks,
}
use ultra_low_latency_hft_en.OrderBook.Sides.{
  IsPriceOrder, higher-IsPriceOrder, lower-IsPriceOrder, quantity_at, put_level-IsTieFree,
  quantity_at-sort,
}
use ultra_low_latency_hft_en.OrderBook.Trades.{apply_trade_fields, IsCurrent, apply_trade-IsCurrent}
use ultra_low_latency_hft_en.OrderBook.Invariant.{
  IsSide, IsValid, shown, put_level-IsSide, quantity_at-put_level,
}

module _ {ℓ} {W : Type ℓ} ⦃d : Double W⦄ where
  -- A reader's list `ls` holds the best levels of a side and no others: the first `n`, fewer only if
  -- the side has fewer, and each before every level that is left out.
  pub record AreBest (before : Level W → Level W → Bool) (n : ℕ) (side ls : List (Level W))
      : Type ℓ where
    pub count : length ls ≡ min n (length side)
    pub prefix : ls ++ drop n side ≡ side
    pub best : All (λ l. All (λ k. before l k ≡ true) (drop n side)) ls

  -- the book after the trades of a feed
  unfoldable pub replay : List (MarketDataEvent W) → OrderBook W → OrderBook W
  replay [] b = b
  replay (trade ∷ trades) b = replay trades (apply_trade trade b)

  -- the side that a trade names, and its comparator
  abbrev pub side_of : Bool → OrderBook W → List (Level W)
  side_of m b = if m then b.bids else b.asks

  abbrev pub comparator_of : Bool → Level W → Level W → Bool
  comparator_of m = if m then higher else lower

  side_of-IsSide : (m : Bool) (b : OrderBook W) → IsValid b → IsSide (comparator_of m) (side_of m b)
  side_of-IsSide true b v = v.bids_side
  side_of-IsSide false b v = v.asks_side

  side_of-apply_trade :
      (m : Bool) (trade : MarketDataEvent W) (b : OrderBook W)
      → trade.is_buyer_maker ≡ m
      → side_of m (apply_trade trade b)
        ≡ sort (comparator_of m) (put_level trade.price trade.quantity (side_of m b))
  side_of-apply_trade true trade b e = (apply_trade_fields trade b).0 ∙ rw e
  side_of-apply_trade false trade b e = (apply_trade_fields trade b).1 ∙ rw e

  take-AreBest :
      (before : Level W → Level W → Bool) (n : ℕ) (side : List (Level W))
      → IsSorted before side
      → AreBest before n side (take n side)
  take-AreBest before n side s = record {
    count = length-take n side;
    prefix = take_drop n side;
    best = best n side s;
  }
    where
      take_drop : (n : ℕ) (side : List (Level W)) → take n side ++ drop n side ≡ side
      take_drop zero side = refl
      take_drop (suc n) [] = refl
      take_drop (suc n) (l ∷ side) = ap (◌∷◌ l) (take_drop n side)

      drop_All :
          (l : Level W) (n : ℕ) (side : List (Level W))
          → All (λ k. before l k ≡ true) side
          → All (λ k. before l k ≡ true) (drop n side)
      drop_All l zero side h = h
      drop_All l (suc n) [] h = tt
      drop_All l (suc n) (k ∷ side) h = drop_All l n side h.1

      best :
          (n : ℕ) (side : List (Level W))
          → IsSorted before side
          → All (λ l. All (λ k. before l k ≡ true) (drop n side)) (take n side)
      best zero side s = tt
      best (suc n) [] s = tt
      best (suc n) (l ∷ side) s = (drop_All l n side s.0, best n side s.1)

  -- In a valid book `get_top_bids(n)` and `get_top_asks(n)` return the best levels of their side.
  get_top_lem :
      (n : ℤ) (b : OrderBook W)
      → IsValid b
      → AreBest higher (pos_part n) b.bids (get_top_bids n b)
        × AreBest lower (pos_part n) b.asks (get_top_asks n b)
  unfolding get_top_bids get_top_asks
  get_top_lem n b v = (
    take-AreBest higher (pos_part n) b.bids v.bids_side.sorted,
    take-AreBest lower (pos_part n) b.asks v.asks_side.sorted,
  )

  module _ (laws : IsOrdered W) where
    -- If comparisons obey the laws of `IsOrdered`, a trade at a price that is not NaN keeps a valid
    -- book valid: each side sorted, best price first and no price twice, with at most 100 levels.
    pub apply_trade-IsValid :
        (trade : MarketDataEvent W) (b : OrderBook W)
        → IsNumber trade.price
        → IsValid b
        → IsValid (apply_trade trade b)
    apply_trade-IsValid trade b n v =
        let (bids, asks, _, _, _) = apply_trade_fields trade b in
        let bid_side =
          put_level-IsSide higher (higher-IsPriceOrder laws) trade.price trade.quantity b.bids n
            v.bids_side in
        let ask_side =
          put_level-IsSide lower (lower-IsPriceOrder laws) trade.price trade.quantity b.asks n
            v.asks_side in
        elim (Bool-cases trade.is_buyer_maker) [
          | inl e ↦ record {
            bids_side = rw (bids, e) bid_side;
            asks_side = rw (asks, e) v.asks_side;
          }
          | inr e ↦ record {
            bids_side = rw (bids, e) v.bids_side;
            asks_side = rw (asks, e) ask_side;
          }
        ]

    -- If comparisons of doubles obey the laws of `IsOrdered`: a buyer-maker trade writes its
    -- quantity at its price on the bids, another one on the asks: a price that is there is
    -- overwritten, a new one is added while there is room. No other price, the other side and the
    -- other side's volume are changed; the named side's volume grows.
    pub apply_trade_shows :
        (trade : MarketDataEvent W) (b : OrderBook W) (r : W)
        → let after = apply_trade trade b in
          let m = trade.is_buyer_maker in
          let p = trade.price in
          let q = trade.quantity in
          (quantity_at r after.bids ≡ (if m then shown p q r b.bids else quantity_at r b.bids))
          × (quantity_at r after.asks ≡ (if m then quantity_at r b.asks else shown p q r b.asks))
          × (after.sell_volume ≡ (if m then b.sell_volume ⊕ q else b.sell_volume))
          × (after.buy_volume ≡ (if m then b.buy_volume else b.buy_volume ⊕ q))
          × (after.last_price ≡ p)
    apply_trade_shows trade b r =
        let (bids, asks, last, bought, sold) = apply_trade_fields trade b in
        let p = trade.price in
        let q = trade.quantity in
        elim (Bool-cases trade.is_buyer_maker) [
          | inl e ↦
              rw (bids, asks, last, bought, sold, e)
                (
                  quantity_at-sort higher (higher-IsPriceOrder laws) r (put_level p q b.bids)
                      ∙ quantity_at-put_level laws p q r b.bids,
                  refl,
                  refl,
                  refl,
                  refl,
                )
          | inr e ↦
              rw (bids, asks, last, bought, sold, e)
                (
                  refl,
                  quantity_at-sort lower (lower-IsPriceOrder laws) r (put_level p q b.asks)
                      ∙ quantity_at-put_level laws p q r b.asks,
                  refl,
                  refl,
                  refl,
                )
        ]

    comparator_of-IsPriceOrder : (m : Bool) → IsPriceOrder (comparator_of m)
    comparator_of-IsPriceOrder true = higher-IsPriceOrder laws
    comparator_of-IsPriceOrder false = lower-IsPriceOrder laws

    -- If comparisons obey the laws of `IsOrdered`, then after a trade at a price that is not NaN on
    -- a valid book the levels do not depend on the sorting algorithm: any sorted rearrangement of
    -- what is handed to `std::sort`, for the bids or for the asks, is that side of the new book.
    pub apply_trade_any_sort :
        (trade : MarketDataEvent W) (b : OrderBook W) (ls : List (Level W))
        → IsNumber trade.price
        → IsValid b
        → Perm ls (put_level trade.price trade.quantity (side_of trade.is_buyer_maker b))
        → IsSorted (comparator_of trade.is_buyer_maker) ls
        → ls ≡ side_of trade.is_buyer_maker (apply_trade trade b)
    apply_trade_any_sort trade b ls n v p s =
        let m = trade.is_buyer_maker in
        let order = comparator_of-IsPriceOrder m in
        let side = side_of-IsSide m b v in
        sort_unique (comparator_of m) (hlevel laws.is_set) order.irrefl order.trans _ ls
          (put_level-IsTieFree (comparator_of m) order _ _ _ n side.numbers side.sorted) p s
        ∙ sym (side_of-apply_trade m trade b refl)

    -- If comparisons obey the laws of `IsOrdered`: after any feed whose prices are not NaN, from a
    -- valid book with current metrics, the book is valid, and spread and imbalance are those of the
    -- best bid and ask.
    pub replay-IsValid :
        (trades : List (MarketDataEvent W)) (b : OrderBook W)
        → All (λ t. IsNumber t.price) trades
        → IsValid b
        → IsCurrent b
        → IsValid (replay trades b) × IsCurrent (replay trades b)
    unfolding replay
    replay-IsValid [] b n v c = (v, c)
    replay-IsValid (t ∷ ts) b n v c =
        replay-IsValid ts (apply_trade t b) n.1 (apply_trade-IsValid t b n.0 v)
          (apply_trade-IsCurrent t b)
