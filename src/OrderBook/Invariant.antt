-- ===== src/OrderBook/Invariant.antt =====
-- The invariant of the book, and the levels that it shows after a trade.
use ultra_low_latency_hft_en.Prelude.{
  ◌≤◌, ◌≡◌, refl, Bool, true, false, false≢true, ◌||◌, ◌&&◌, Option, none, some, List, [], ◌∷◌,
  ◌++◌, length, ltb, if◌then◌else◌, arith,
}
use ultra_low_latency_hft_en.Prelude.Sort.{sort, IsSorted, sort-All, sort-IsSorted, length-sort}
use ultra_low_latency_hft_en.Double.{Double, eq, IsNumber}
use ultra_low_latency_hft_en.Double.Order.{IsOrdered}
use ultra_low_latency_hft_en.OrderBook.{
  Level, OrderBook, init, higher, lower, max_levels, has_price, replace, put_level,
}
use ultra_low_latency_hft_en.OrderBook.Sides.{
  IsPriceOrder, HasNumbers, quantity_at, length-put_level, put_level-HasNumbers,
  put_level-IsTieFree,
}

module _ {ℓ} {W : Type ℓ} ⦃d : Double W⦄ where
  -- Best price first and no price twice, at most 100 levels, and no NaN among the prices.
  pub record IsSide (before : Level W → Level W → Bool) (ls : List (Level W)) : Type ℓ where
    pub sorted : IsSorted before ls
    pub room : length ls ≤ max_levels
    pub numbers : HasNumbers ls

  pub record IsValid (b : OrderBook W) : Type ℓ where
    pub bids_side : IsSide higher b.bids
    pub asks_side : IsSide lower b.asks

  -- The side has the price already, or has room for it.
  abbrev pub takes : W → List (Level W) → Bool
  takes p ls = has_price p ls || ltb (length ls) max_levels

  -- What a side shows at the price `r` after a trade at the price `p`.
  abbrev pub shown : (p q r : W) → List (Level W) → Option W
  shown p q r ls = if takes p ls && eq p r then some q else quantity_at r ls

  pub init-IsValid : IsValid init
  unfolding init
  init-IsValid = record {
    bids_side = record { sorted = tt; room = omega arith; numbers = tt };
    asks_side = record { sorted = tt; room = omega arith; numbers = tt };
  }

  pub put_level-IsSide :
      (before : Level W → Level W → Bool) (order : IsPriceOrder before) (p q : W)
      (ls : List (Level W))
      → IsNumber p
      → IsSide before ls
      → IsSide before (sort before (put_level p q ls))
  put_level-IsSide before order p q ls n s = record {
    sorted =
        sort-IsSorted before order.trans _
          (put_level-IsTieFree before order p q ls n s.numbers s.sorted);
    room = rw (length-sort before) (length-put_level p q ls s.room);
    numbers = sort-All before (λ l. IsNumber l.price) _ (put_level-HasNumbers p q ls n s.numbers);
  }

  quantity_at_append :
      (r : W) (x : Level W) (ls : List (Level W))
      → quantity_at r (ls ++ x ∷ []) ≡ (
          if has_price r ls
          then quantity_at r ls
          else if eq x.price r
          then some x.quantity
          else none)
  unfolding quantity_at has_price
  quantity_at_append r x [] = refl
  quantity_at_append r x (l ∷ ls) = ground (arith, quantity_at_append r x ls)

  quantity_at_missing :
      (r : W) (ls : List (Level W)) → has_price r ls ≡ false → quantity_at r ls ≡ none
  unfolding quantity_at has_price
  quantity_at_missing r [] e = refl
  quantity_at_missing r (l ∷ ls) e = ground (arith, quantity_at_missing r ls)

  module _ (laws : IsOrdered W) where
    open laws use {is_set, eq_sym, eq_trans}

    pub has_price_eq :
        (p r : W) (ls : List (Level W)) → eq p r ≡ true → has_price p ls ≡ has_price r ls
    unfolding has_price
    has_price_eq p r [] e = refl
    has_price_eq p r (l ∷ ls) e =
        ground (arith, eq_trans l.price p r, eq_trans l.price r p, eq_sym p r, has_price_eq p r ls)

    quantity_at-replace :
        (p q r : W) (ls : List (Level W))
        → has_price p ls ≡ true
        → quantity_at r (replace p q ls) ≡ (if eq p r then some q else quantity_at r ls)
    unfolding has_price replace quantity_at
    quantity_at-replace p q r [] h = absurd (false≢true h)
    quantity_at-replace p q r (l ∷ ls) h = ground (
      arith,
      eq_trans l.price p r,
      eq_trans p l.price r,
      eq_trans l.price r p,
      eq_sym p r,
      eq_sym l.price p,
      quantity_at-replace p q r ls,
    )

    -- A price that is on the side gets the new quantity, a new price is added if there is room, and
    -- at every other price the side is as before.
    pub quantity_at-put_level :
        (p q r : W) (ls : List (Level W)) → quantity_at r (put_level p q ls) ≡ shown p q r ls
    unfolding put_level
    quantity_at-put_level p q r ls = ground (
      arith,
      quantity_at-replace p q r ls,
      quantity_at_append r (record { price = p; quantity = q }) ls,
      quantity_at_missing r ls,
      has_price_eq p r ls,
    )
