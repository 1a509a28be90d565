-- ===== src/OrderBook.antt =====
-- `orderbook/order_book.{hpp,cpp}`: the book of traded prices. `bids` and `asks` are the used part of
-- the arrays, best price first, and `num_bids_`, `num_asks_` are their lengths; each method holds the
-- mutex throughout, so its body is one step.
pub mod Sides
pub mod Trades
pub mod Invariant
pub mod Contract
pub mod Full
mod Tests
use ultra_low_latency_hft_en.Prelude.{
  ℕ, ◌≡◌, Bool, true, false, List, [], ◌∷◌, ◌++◌, length, take, ltb, if◌then◌else◌, ◌&&◌,
}
use ultra_low_latency_hft_en.Prelude.Int.{ℤ, pos_part}
use ultra_low_latency_hft_en.Prelude.Sort.{sort}
use ultra_low_latency_hft_en.Double.{Double, lt, gt, eq, ◌⊕◌, ◌⊖◌, ◌⊘◌, whole}
use ultra_low_latency_hft_en.Core.Events.{MarketDataEvent}

pub record Level {ℓ} (W : Type ℓ) : Type ℓ where
  pub price : W
  pub quantity : W

pub record OrderBook {ℓ} (W : Type ℓ) : Type ℓ where
  pub bids : List (Level W)
  pub asks : List (Level W)
  pub last_price : W
  pub imbalance : W
  pub buy_volume : W
  pub sell_volume : W
  pub spread : W

abbrev pub max_levels : ℕ
max_levels = 100

module _ {ℓ} {W : Type ℓ} ⦃d : Double W⦄ where
  unfoldable pub init : OrderBook W
  init = record {
    bids = [];
    asks = [];
    last_price = whole 0;
    imbalance = whole 0;
    buy_volume = whole 0;
    sell_volume = whole 0;
    spread = whole 0;
  }

  -- `found`: some level has the price
  unfoldable pub has_price : W → List (Level W) → Bool
  has_price p [] = false
  has_price p (l ∷ ls) = if eq l.price p then true else has_price p ls

  -- the search loop, which writes the quantity of the first level with the price and breaks
  unfoldable pub replace : W → W → List (Level W) → List (Level W)
  replace p q [] = []
  replace p q (l ∷ ls) = if eq l.price p then record l { quantity = q } ∷ ls else l ∷ replace p q ls

  -- the search and the append that follows it; a full side stays as it is
  unfoldable pub put_level : W → W → List (Level W) → List (Level W)
  unfolding has_price replace
  put_level p q ls =
      if has_price p ls
      then replace p q ls
      else if ltb (length ls) max_levels
      then ls ++ record { price = p; quantity = q } ∷ []
      else ls

  -- the comparators of the two calls of `std::sort`
  abbrev pub higher : Level W → Level W → Bool
  higher l k = gt l.price k.price

  abbrev pub lower : Level W → Level W → Bool
  lower l k = lt l.price k.price

  -- the last block of `apply_trade`
  recalculated : List (Level W) → List (Level W) → OrderBook W → OrderBook W
  recalculated (bid ∷ _) (ask ∷ _) b = record b {
    imbalance = (bid.quantity ⊖ ask.quantity) ⊘ (bid.quantity ⊕ ask.quantity);
    spread = ask.price ⊖ bid.price;
  }
  recalculated [] asks b = b
  recalculated (_ ∷ _) [] b = b

  abbrev recalculate : OrderBook W → OrderBook W
  recalculate b = recalculated b.bids b.asks b

  unfoldable pub apply_trade : MarketDataEvent W → OrderBook W → OrderBook W
  unfolding recalculated
  apply_trade trade b =
      let start = record b { last_price = trade.price } in
      if trade.is_buyer_maker
      then recalculate (record start {
        sell_volume = b.sell_volume ⊕ trade.quantity;
        bids = sort higher (put_level trade.price trade.quantity b.bids);
      })
      else recalculate (record start {
        buy_volume = b.buy_volume ⊕ trade.quantity;
        asks = sort lower (put_level trade.price trade.quantity b.asks);
      })

  -- `std::min(n, num_bids_)` levels; none for a negative `n`
  unfoldable pub get_top_bids : ℤ → OrderBook W → List (Level W)
  get_top_bids n b = take (pos_part n) b.bids

  unfoldable pub get_top_asks : ℤ → OrderBook W → List (Level W)
  get_top_asks n b = take (pos_part n) b.asks
