-- ===== src/Ui/Columns.antt =====
-- The three parts of the screen: the left column, the right one, and the lines below both.
use ultra_low_latency_hft_en.Prelude.{
  ℕ, suc, ◌+◌, ◌≤◌, ◌≡◌, refl, ap, List, [], ◌∷◌, ◌++◌, map, length, take, arith, length-append,
}
use ultra_low_latency_hft_en.Prelude.Int.{pos}
use ultra_low_latency_hft_en.Double.{Double}
use ultra_low_latency_hft_en.OrderBook.{OrderBook, get_top_asks, get_top_bids}
use ultra_low_latency_hft_en.Ui.Layout.{Stacked, stack, loosen, place-Stacked}
use ultra_low_latency_hft_en.Ui.{
  Line, Print, Dashboard, at, place, backwards, left, left_end, right, right_end, bottom,
  strategy_line, ask_line, bid_line, rule, book, metrics, trade_line, order_line, history,
}

length-map {ℓ κ} :
    {A : Type ℓ} {B : Type κ} (f : A → B) (xs : List A) → length (map f xs) ≡ length xs
length-map f [] = refl
length-map f (x ∷ xs) = ap suc (length-map f xs)

pub length-backwards {ℓ} : {A : Type ℓ} (xs : List A) → length (backwards xs) ≡ length xs
unfolding backwards
length-backwards [] = refl
length-backwards (x ∷ xs) =
    omega (arith, length-append (backwards xs) (x ∷ []), length-backwards xs)

module _ {ℓ} {W : Type ℓ} where
  -- lines that are placed from a row on, up to a row behind them
  placed :
      (row col color hi : ℕ) (lines : List (Line W))
      → row + length lines ≤ hi
      → Stacked col row hi (place row col color lines)
  placed row col color hi lines h =
      loosen col row (row + length lines) row hi (place row col color lines) (omega arith) h
        (place-Stacked row col color lines)

  -- and further prints below them
  placed_above :
      (row col color mid hi : ℕ) (lines : List (Line W)) (qs : List (Print W))
      → row + length lines ≡ mid
      → Stacked col mid hi qs
      → Stacked col row hi (place row col color lines ++ qs)
  placed_above row col color mid hi lines qs e s =
      stack col row mid hi (place row col color lines) qs
        (placed row col color mid lines (omega (arith, e))) s

module _ {ℓ} {W : Type ℓ} ⦃d : Double W⦄ where
  -- the book below the strategies: two lines, asks, a rule, bids
  book-Stacked :
      (lo row : ℕ) (head next : Line W) (asks bids : List (Line W)) (count hi : ℕ)
      → lo ≤ row
      → length asks ≡ count
      → row + 3 + count + length bids ≤ hi
      → Stacked 0 lo hi (
          at row 0 head
          ∷ at (row + 1) 0 next
          ∷ (place (row + 2) 0 2 asks
              ++ at (row + 2 + count) 0 rule ∷ place (row + 3 + count) 0 1 bids))
  unfolding Stacked
  book-Stacked lo row head next asks bids count hi k e h =
      let bid_rows =
        loosen 0 (row + 3 + count) hi (row + 2 + count + 1) hi (place (row + 3 + count) 0 1 bids)
          (omega arith) (omega arith) (placed (row + 3 + count) 0 1 hi bids h) in
      let ask_rows =
        placed_above (row + 2) 0 2 (row + 2 + count) hi asks
          (at (row + 2 + count) 0 rule ∷ place (row + 3 + count) 0 1 bids) (omega (arith, e))
          (refl, omega arith, bid_rows) in
      (
        refl,
        omega arith,
        (
          refl,
          omega arith,
          loosen 0 (row + 2) hi (row + 1 + 1) hi _ (omega arith) (omega arith) ask_rows,
        ),
      )

  pub left-Stacked : (b : OrderBook W) (v : Dashboard W) → Stacked 0 0 (left_end b v) (left b v)
  unfolding Stacked left
  left-Stacked b v =
      let n = length v.strategy_stats in
      let best = get_top_asks (pos 5) b in
      let asks = map ask_line (backwards best) in
      let bids = map bid_line (get_top_bids (pos 5) b) in
      let count = length (backwards best) in
      let same : count ≡ length best = length-backwards best in
      let bids_length : length bids ≡ length (get_top_bids (pos 5) b) = length-map bid_line _ in
      let ends : 6 + n + 1 + 3 + count + length bids ≤ left_end b v =
        unfold left_end in omega arith in
      let book_rows =
        book-Stacked (6 + n) (6 + n + 1) book (metrics b.imbalance b.spread) asks bids count
          (left_end b v) (omega arith) (length-map ask_line (backwards best)) ends in
      let table =
        placed_above 6 0 0 (6 + n) (left_end b v) (map strategy_line v.strategy_stats) _
          (ap (λ k. 6 + k) (length-map strategy_line v.strategy_stats)) book_rows in
      (refl, omega arith, (refl, omega arith, (refl, omega arith, (refl, omega arith, table))))

  pub right-Stacked : (v : Dashboard W) → Stacked 50 4 (right_end v) (right v)
  unfolding Stacked right
  right-Stacked v =
      let orders = take 8 v.open_orders in
      let trades = map trade_line (take 8 (backwards v.trades)) in
      let o_row = 5 + length orders in
      let trades_length : length trades ≡ length (take 8 (backwards v.trades)) =
        length-map trade_line _ in
      let trade_rows =
        placed (o_row + 2) 50 0 (right_end v) trades (unfold right_end in omega arith) in
      let order_rows =
        placed_above 5 50 0 o_row (right_end v) (map order_line orders)
          (at (o_row + 1) 50 history ∷ place (o_row + 2) 50 0 trades)
          (ap (λ k. 5 + k) (length-map order_line orders))
          (
            refl,
            omega arith,
            loosen 50 (o_row + 2) (right_end v) (o_row + 1 + 1) (right_end v) _ (omega arith)
                (omega arith) trade_rows,
          ) in
      (refl, omega arith, order_rows)

  pub bottom-Stacked : (row : ℕ) (v : Dashboard W) → Stacked 0 row (row + 5) (bottom row v)
  unfolding Stacked bottom
  bottom-Stacked row v = omega arith
