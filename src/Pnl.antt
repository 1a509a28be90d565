-- ===== src/Pnl.antt =====
-- `pnl/pnl_engine.{hpp,cpp}`: profit and loss for each strategy, and the drawdown of the whole. A count
-- of trades is a number without bound, where the code has an `int`.
pub mod Fills
pub mod Equity
pub mod Books
mod Tests
use ultra_low_latency_hft_en.Prelude.{
  ℕ, ◌+◌, Bool, true, false, ◌||◌, ◌&&◌, Option, none, some, List, [], ◌∷◌, ◌==◌, ltb,
  if◌then◌else◌,
}
use ultra_low_latency_hft_en.Prelude.Int.{pos}
use ultra_low_latency_hft_en.Double.{Double, lt, gt, abs, neg, min, max, whole, ◌⊕◌, ◌⊖◌, ◌⊗◌, ◌⊘◌}
use ultra_low_latency_hft_en.Core.Events.{OrderSide, buy, sell}
use ultra_low_latency_hft_en.Risk.{side_sign}

pub record StrategyStats {ℓ} (W : Type ℓ) : Type ℓ where
  pub realized_pnl : W
  pub unrealized_pnl : W
  pub position : W
  pub avg_price : W
  pub trades : ℕ

-- `std::map`: the entries by ascending strategy id
abbrev pub StatsMap {ℓ} : Type ℓ → Type ℓ
StatsMap W = List (ℕ × StrategyStats W)

pub record PnlEngine {ℓ} (W : Type ℓ) : Type ℓ where
  pub strategy_stats : StatsMap W
  pub last_price : W
  pub peak_equity : W
  pub max_drawdown : W

module _ {ℓ} {W : Type ℓ} ⦃d : Double W⦄ where
  abbrev pub blank_stats : StrategyStats W
  blank_stats = record {
    realized_pnl = whole 0;
    unrealized_pnl = whole 0;
    position = whole 0;
    avg_price = whole 0;
    trades = 0;
  }

  unfoldable pub init : PnlEngine W
  init = record {
    strategy_stats = [];
    last_price = whole 0;
    peak_equity = whole 0;
    max_drawdown = whole 0;
  }

  -- the literal 1e-9
  abbrev pub epsilon : W
  epsilon = d.decimal (pos 1) 9

  -- `strategy_stats_[id]`, which creates a missing entry, changed by `f`
  unfoldable pub change : ℕ → (StrategyStats W → StrategyStats W) → StatsMap W → StatsMap W
  change id f [] = (id, f blank_stats) ∷ []
  change id f ((j, stats) ∷ m) =
      if j == id
      then (j, f stats) ∷ m
      else if ltb id j
      then (id, f blank_stats) ∷ (j, stats) ∷ m
      else (j, stats) ∷ change id f m

  -- the test of `on_fill`
  abbrev pub increases : W → W → Bool
  increases position fill_qty =
      (gt position (whole 0) && gt fill_qty (whole 0))
      || (lt position (whole 0) && lt fill_qty (whole 0))
      || lt (abs position) epsilon

  -- what `on_fill` does to the entry of its strategy
  unfoldable pub fill : OrderSide → (price quantity : W) → StrategyStats W → StrategyStats W
  fill side price quantity stats =
      let fill_qty = quantity ⊗ side_sign side in
      let new_position = stats.position ⊕ fill_qty in
      let closing_qty = min (abs stats.position) quantity in
      let multiplier : W = if gt stats.position (whole 0) then whole 1 else neg (whole 1) in
      if increases stats.position fill_qty
      then record stats {
        avg_price = (stats.avg_price ⊗ abs stats.position ⊕ price ⊗ quantity) ⊘ abs new_position;
        position = new_position;
      }
      else record stats {
        realized_pnl = stats.realized_pnl ⊕ closing_qty ⊗ (price ⊖ stats.avg_price) ⊗ multiplier;
        trades = stats.trades + 1;
        avg_price = if gt quantity (abs stats.position) then price else stats.avg_price;
        position = new_position;
      }

  unfoldable pub on_fill : ℕ → OrderSide → (price quantity : W) → PnlEngine W → PnlEngine W
  on_fill strategy_id side price quantity e = record e {
    strategy_stats = change strategy_id (fill side price quantity) e.strategy_stats;
  }

  -- one round of the loop of `update_pnl`
  unfoldable pub mark : W → StrategyStats W → StrategyStats W
  mark price stats = record stats {
    unrealized_pnl =
        if gt (abs stats.position) epsilon
        then stats.position ⊗ (price ⊖ stats.avg_price)
        else whole 0;
  }

  -- the loop, with the entries that it leaves and the running `total_equity`
  unfoldable pub mark_all : W → StatsMap W → W → StatsMap W × W
  mark_all price [] total = ([], total)
  mark_all price ((id, stats) ∷ m) total =
      let marked = mark price stats in
      let (m', total') = mark_all price m (total ⊕ (marked.realized_pnl ⊕ marked.unrealized_pnl)) in
      ((id, marked) ∷ m', total')

  unfoldable pub update_pnl : W → PnlEngine W → PnlEngine W
  update_pnl price e =
      let (stats, total_equity) = mark_all price e.strategy_stats (whole 0) in
      let peak = max e.peak_equity total_equity in
      record {
        strategy_stats = stats;
        last_price = price;
        peak_equity = peak;
        max_drawdown = max e.max_drawdown (peak ⊖ total_equity);
      }

  -- the loops of the getters, over the running total
  unfoldable pub total_pnl_from : W → StatsMap W → W
  total_pnl_from total [] = total
  total_pnl_from total ((id, stats) ∷ m) =
      total_pnl_from (total ⊕ (stats.realized_pnl ⊕ stats.unrealized_pnl)) m

  unfoldable pub get_total_pnl : PnlEngine W → W
  unfolding total_pnl_from
  get_total_pnl e = total_pnl_from (whole 0) e.strategy_stats

  unfoldable pub total_position_from : W → StatsMap W → W
  total_position_from total [] = total
  total_position_from total ((id, stats) ∷ m) = total_position_from (total ⊕ stats.position) m

  unfoldable pub get_total_position : PnlEngine W → W
  unfolding total_position_from
  get_total_position e = total_position_from (whole 0) e.strategy_stats

  unfoldable pub total_trades_from : ℕ → StatsMap W → ℕ
  total_trades_from total [] = total
  total_trades_from total ((id, stats) ∷ m) = total_trades_from (total + stats.trades) m

  unfoldable pub get_total_trades : PnlEngine W → ℕ
  unfolding total_trades_from
  get_total_trades e = total_trades_from 0 e.strategy_stats

  unfoldable pub wins_from : ℕ → StatsMap W → ℕ
  wins_from wins [] = wins
  wins_from wins ((id, stats) ∷ m) =
      wins_from (if gt stats.realized_pnl (whole 0) then wins + 1 else wins) m

  unfoldable pub get_win_rate : PnlEngine W → W
  unfolding wins_from total_trades_from
  get_win_rate e =
      if ltb 0 (total_trades_from 0 e.strategy_stats)
      then whole (wins_from 0 e.strategy_stats) ⊘ whole 2
      else whole 0
