-- ===== src/Ui.antt =====
-- `ui/terminal_ui.{hpp,cpp}`: what `update` prints, and the key that ends the program. The screen is the
-- list of what is printed, cell by cell; a line keeps the values that `mvprintw` formats. A build
-- without ncurses prints nothing and reads no key.
pub mod Layout
pub mod Columns
pub mod Screen
mod Tests
use ultra_low_latency_hft_en.Prelude.{
  ℕ, zero, suc, ◌+◌, Bool, true, false, Option, none, some, List, [], ◌∷◌, ◌++◌, map, length, take,
  ◌==◌, ltb, if◌then◌else◌,
}
use ultra_low_latency_hft_en.Prelude.Int.{pos}
use ultra_low_latency_hft_en.Double.{Double, ◌⊕◌}
use ultra_low_latency_hft_en.Core.Events.{OrderRequest, ExecutionReport, OrderSide}
use ultra_low_latency_hft_en.OrderBook.{OrderBook, Level, get_top_asks, get_top_bids}
use ultra_low_latency_hft_en.Pnl.{StatsMap, StrategyStats}

-- The name of a strategy in the table.
pub data Name : Type 0 where
  market_maker : Name
  momentum : Name
  unknown : Name

-- A line: a fixed text, or the values that are formatted into it.
pub data Line {ℓ} (W : Type ℓ) : Type ℓ where
  title : Line W
  totals : (total_position total_pnl : W) → Line W
  attribution : Line W
  columns : Line W
  strategy : (id : ℕ) → Name → (pnl position : W) → (trades : ℕ) → Line W
  book : Line W
  metrics : (imbalance spread : W) → Line W
  ask : (price quantity : W) → Line W
  rule : Line W
  bid : (price quantity : W) → Line W
  open_orders : Line W
  order : (strategy_id order_id : ℕ) → OrderSide → (quantity price : W) → Line W
  history : Line W
  trade : (strategy_id trade_id : ℕ) → OrderSide → (last_qty last_price : W) → Line W
  telemetry : Line W
  throughput : (events_per_sec queue_depth : ℕ) → Line W
  latency : (p99_latency_ns : ℕ) → Line W
  hint : Line W

-- One `mvprintw`, and the colour pair that is on, 0 if none.
pub record Print {ℓ} (W : Type ℓ) : Type ℓ where
  pub row : ℕ
  pub col : ℕ
  pub color : ℕ
  pub line : Line W

-- The arguments of `update`.
pub record Dashboard {ℓ} (W : Type ℓ) : Type ℓ where
  pub total_pnl : W
  pub total_position : W
  pub strategy_stats : StatsMap W
  pub p99_latency_ns : ℕ
  pub queue_depth : ℕ
  pub events_per_sec : ℕ
  pub open_orders : List (OrderRequest W)
  pub trades : List (ExecutionReport W)

pub record TerminalUi : Type 0 where
  pub should_close : Bool

abbrev pub init : TerminalUi
init = record { should_close = false }

-- a list from its last element to its first
unfoldable pub backwards {ℓ} : {A : Type ℓ} → List A → List A
backwards [] = []
backwards (x ∷ xs) = backwards xs ++ x ∷ []

abbrev pub name_of : ℕ → Name
name_of id = if id == 1 then market_maker else if id == 2 then momentum else unknown

module _ {ℓ} {W : Type ℓ} where
  abbrev pub at : ℕ → ℕ → Line W → Print W
  at row col line = record { row = row; col = col; color = 0; line = line }

  -- lines from a row downwards
  unfoldable pub place : ℕ → ℕ → ℕ → List (Line W) → List (Print W)
  place row col color [] = []
  place row col color (line ∷ lines) =
      record { row = row; col = col; color = color; line = line } ∷ place (row + 1) col color lines

  abbrev pub ask_line : Level W → Line W
  ask_line level = ask level.price level.quantity

  abbrev pub bid_line : Level W → Line W
  bid_line level = bid level.price level.quantity

  abbrev pub order_line : OrderRequest W → Line W
  order_line o = order o.strategy_id o.order_id o.side o.quantity o.price

  abbrev pub trade_line : ExecutionReport W → Line W
  trade_line t = trade t.strategy_id t.trade_id t.side t.last_qty t.last_price

module _ {ℓ} {W : Type ℓ} ⦃d : Double W⦄ where
  abbrev pub strategy_line : ℕ × StrategyStats W → Line W
  strategy_line (id, stats) =
      strategy id (name_of id) (stats.realized_pnl ⊕ stats.unrealized_pnl) stats.position
        stats.trades

  unfoldable pub left : OrderBook W → Dashboard W → List (Print W)
  unfolding place backwards get_top_asks get_top_bids
  left b v =
      let row = 6 + length v.strategy_stats + 1 in
      let asks = backwards (get_top_asks (pos 5) b) in
      let bids = get_top_bids (pos 5) b in
      at 0 0 title
      ∷ at 2 0 (totals v.total_position v.total_pnl)
      ∷ at 4 0 attribution
      ∷ at 5 0 columns
      ∷ (place 6 0 0 (map strategy_line v.strategy_stats)
          ++ at row 0 book
            ∷ at (row + 1) 0 (metrics b.imbalance b.spread)
            ∷ (place (row + 2) 0 2 (map ask_line asks)
                ++ at (row + 2 + length asks) 0 rule
                  ∷ place (row + 3 + length asks) 0 1 (map bid_line bids)))

  -- `row` behind the left column
  unfoldable pub left_end : OrderBook W → Dashboard W → ℕ
  left_end b v =
      6
      + length v.strategy_stats
      + 4
      + length (get_top_asks (pos 5) b)
      + length (get_top_bids (pos 5) b)

  unfoldable pub right : Dashboard W → List (Print W)
  unfolding place backwards
  right v =
      let orders = take 8 v.open_orders in
      let trades = take 8 (backwards v.trades) in
      let o_row = 5 + length orders in
      at 4 50 open_orders
      ∷ (place 5 50 0 (map order_line orders)
          ++ at (o_row + 1) 50 history ∷ place (o_row + 2) 50 0 (map trade_line trades))

  -- `t_row` behind the right column
  unfoldable pub right_end : Dashboard W → ℕ
  right_end v = 7 + length (take 8 v.open_orders) + length (take 8 (backwards v.trades))

  unfoldable pub bottom : ℕ → Dashboard W → List (Print W)
  bottom b_row v =
      at b_row 0 telemetry
      ∷ at (b_row + 1) 0 (throughput v.events_per_sec v.queue_depth)
      ∷ at (b_row + 2) 0 (latency v.p99_latency_ns)
      ∷ at (b_row + 4) 0 hint
      ∷ []

  unfoldable pub screen : OrderBook W → Dashboard W → List (Print W)
  unfolding left right bottom left_end right_end
  screen b v =
      let row = left_end b v in
      let t_row = right_end v in
      left b v ++ (right v ++ bottom ((if ltb row t_row then t_row else row) + 2) v)

  -- `update` in a build with ncurses or without it; `key` is what `getch` reads within 100 milliseconds
  unfoldable pub update :
      Bool → OrderBook W → Dashboard W → Option ℕ → TerminalUi → List (Print W) × TerminalUi
  unfolding screen
  update ncurses b v key ui =
      let pressed = if ncurses then key else none in
      (
        if ncurses then screen b v else [],
        elim pressed [
          | none ↦ ui
          | some ch ↦ if ch == b'q' then record ui { should_close = true } else ui
        ],
      )
