-- ===== src/OrderBook/Tests.antt =====
-- Runs of the order book and of its theorems, at whole numbers.
use mathlib.Core.List.Perm
use ultra_low_latency_hft_en.Prelude.{ℕ, zero, suc, ◌≡◌, refl, Bool, true, false, List, [], ◌∷◌}
use ultra_low_latency_hft_en.Prelude.Int.{ℤ, pos, ◌+ℤ◌, ◌-ℤ◌}
use ultra_low_latency_hft_en.Prelude.Sort.{sort}
use ultra_low_latency_hft_en.Double.{◌⊕◌}
use ultra_low_latency_hft_en.Double.Whole.{whole_double, ℤ-IsOrdered}
use ultra_low_latency_hft_en.Core.Events.{MarketDataEvent}
use ultra_low_latency_hft_en.OrderBook.{OrderBook, Level, init, put_level, apply_trade}
use ultra_low_latency_hft_en.OrderBook.Sides.{quantity_at}
use ultra_low_latency_hft_en.OrderBook.Trades.{IsCurrent}
use ultra_low_latency_hft_en.OrderBook.Invariant.{IsValid, init-IsValid, shown}
use ultra_low_latency_hft_en.OrderBook.Full.{IsFrozen, full_side_freezes}
use ultra_low_latency_hft_en.OrderBook.Contract.{
  replay, apply_trade-IsValid, apply_trade_shows, apply_trade_any_sort, replay-IsValid, side_of,
}

abbrev trade : ℕ → ℕ → Bool → MarketDataEvent ℤ
trade p q m = record {
  symbol = [];
  price = pos p;
  quantity = pos q;
  exchange_ts = 0;
  is_buyer_maker = m;
}

abbrev level : ℕ → ℕ → Level ℤ
level p q = record { price = pos p; quantity = pos q }

abbrev feed : List (MarketDataEvent ℤ)
feed = trade 100 4 true ∷ trade 102 6 true ∷ trade 105 3 false ∷ trade 100 9 true ∷ []

-- the bids 102 and 100, the ask 105
abbrev book : OrderBook ℤ
book = replay feed init

book-runs :
    (book.bids ≡ level 102 6 ∷ level 100 9 ∷ [])
    × (book.asks ≡ level 105 3 ∷ [])
    × (book.spread ≡ pos 3)
    × (book.sell_volume ≡ pos 19)
unfolding replay apply_trade init sort put_level ◌+ℤ◌ ◌-ℤ◌
book-runs = (refl, refl, refl, refl)

book-IsValid : IsValid book × IsCurrent book
unfolding init
book-IsValid =
    replay-IsValid ℤ-IsOrdered feed init (refl, (refl, (refl, (refl, tt)))) init-IsValid tt

apply_trade-IsValid_example : IsValid (apply_trade (trade 101 2 true) book)
apply_trade-IsValid_example =
    apply_trade-IsValid ℤ-IsOrdered (trade 101 2 true) book refl book-IsValid.0

apply_trade_shows_example :
    (quantity_at (pos 100) (apply_trade (trade 100 2 true) book).bids
      ≡ shown (pos 100) (pos 2) (pos 100) book.bids)
    × (quantity_at (pos 100) (apply_trade (trade 100 2 true) book).asks
        ≡ quantity_at (pos 100) book.asks)
    × ((apply_trade (trade 100 2 true) book).sell_volume ≡ book.sell_volume ⊕ pos 2)
    × ((apply_trade (trade 100 2 true) book).buy_volume ≡ book.buy_volume)
    × ((apply_trade (trade 100 2 true) book).last_price ≡ pos 100)
apply_trade_shows_example = apply_trade_shows ℤ-IsOrdered (trade 100 2 true) book (pos 100)

apply_trade_any_sort_example : level 101 2 ∷ [] ≡ side_of true (apply_trade (trade 101 2 true) init)
unfolding put_level init
apply_trade_any_sort_example =
    apply_trade_any_sort ℤ-IsOrdered (trade 101 2 true) init (level 101 2 ∷ []) refl init-IsValid
      (Perm.refl (level 101 2 ∷ [])) (tt, tt)

-- bids at 99, 98, ... and 0
abbrev ladder : ℕ → List (Level ℤ)
ladder zero = []
ladder (suc n) = level n 1 ∷ ladder n

abbrev crowded : OrderBook ℤ
crowded = record (init) { bids = ladder 100 }

crowded-IsFrozen : IsFrozen (pos 200) (side_of true crowded)
unfolding quantity_at init
crowded-IsFrozen = record { full = refl; missing = refl }

full_side_freezes_example :
    IsFrozen (pos 200) (side_of true (replay (trade 200 7 true ∷ []) crowded))
full_side_freezes_example =
    full_side_freezes ℤ-IsOrdered true (trade 200 7 true ∷ []) crowded (pos 200) crowded-IsFrozen
