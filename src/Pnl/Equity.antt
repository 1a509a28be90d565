-- ===== src/Pnl/Equity.antt =====
-- `update_pnl`: the equity that it sees is the one that `get_total_pnl` reports, and peak and drawdown
-- follow the curve of these.
use ultra_low_latency_hft_en.Prelude.{ℕ, ◌+◌, ◌≡◌, refl, sym, ◌∙◌, ap, ap₂, subst, List, [], ◌∷◌}
use ultra_low_latency_hft_en.Double.{Double, max, whole, ◌⊕◌, ◌⊖◌}
use ultra_low_latency_hft_en.Core.Events.{OrderSide}
use ultra_low_latency_hft_en.Pnl.Fills.{IsAbove, IsAscending}
use ultra_low_latency_hft_en.Pnl.{
  StatsMap, PnlEngine, mark, mark_all, update_pnl, on_fill, total_pnl_from, get_total_pnl,
  total_position_from, get_total_position, total_trades_from, get_total_trades,
}

-- What happens to the engine: a fill, or an update at a price.
pub data Change {ℓ} (W : Type ℓ) : Type ℓ where
  fill : ℕ → OrderSide → W → W → Change W
  price : W → Change W

module _ {ℓ} {W : Type ℓ} ⦃d : Double W⦄ where
  -- Each entry marked at a price, under its id.
  unfoldable pub marked : W → StatsMap W → StatsMap W
  marked p [] = []
  marked p ((id, stats) ∷ m) = (id, mark p stats) ∷ marked p m

  mark_all_lem :
      (p : W) (m : StatsMap W) (total : W)
      → mark_all p m total ≡ (marked p m, total_pnl_from total (marked p m))
  unfolding mark_all marked total_pnl_from
  mark_all_lem p [] total = refl
  mark_all_lem p ((id, stats) ∷ m) total = rw (mark_all_lem p m)

  IsAbove-marked : (k : ℕ) (p : W) (m : StatsMap W) → IsAbove k m → IsAbove k (marked p m)
  unfolding marked
  IsAbove-marked k p [] a = tt
  IsAbove-marked k p ((j, stats) ∷ m) a = (a.0, IsAbove-marked k p m a.1)

  marked-IsAscending : (p : W) (m : StatsMap W) → IsAscending m → IsAscending (marked p m)
  unfolding marked
  marked-IsAscending p [] a = tt
  marked-IsAscending p ((j, stats) ∷ m) a = (IsAbove-marked j p m a.0, marked-IsAscending p m a.1)

  total_position_from-marked :
      (p : W) (m : StatsMap W) (total : W)
      → total_position_from total (marked p m) ≡ total_position_from total m
  unfolding total_position_from marked mark
  total_position_from-marked p [] total = refl
  total_position_from-marked p ((id, stats) ∷ m) total =
      total_position_from-marked p m (total ⊕ stats.position)

  total_trades_from-marked :
      (p : W) (m : StatsMap W) (total : ℕ)
      → total_trades_from total (marked p m) ≡ total_trades_from total m
  unfolding total_trades_from marked mark
  total_trades_from-marked p [] total = refl
  total_trades_from-marked p ((id, stats) ∷ m) total =
      total_trades_from-marked p m (total + stats.trades)

  -- The equity of `update_pnl` is what `get_total_pnl` returns afterwards: the peak and the drawdown
  -- are taken from it. Every entry is marked at the price, and positions and trades stay.
  pub update_pnl_lem :
      (p : W) (e : PnlEngine W)
      → let after = update_pnl p e in
        let equity = get_total_pnl after in
        (after.peak_equity ≡ max e.peak_equity equity)
        × (after.max_drawdown ≡ max e.max_drawdown (after.peak_equity ⊖ equity))
        × (after.strategy_stats ≡ marked p e.strategy_stats)
        × (get_total_position after ≡ get_total_position e)
        × (get_total_trades after ≡ get_total_trades e)
  unfolding update_pnl get_total_pnl get_total_position get_total_trades
  update_pnl_lem p e = rw (mark_all_lem p e.strategy_stats (whole 0)) (
    refl,
    refl,
    refl,
    total_position_from-marked p e.strategy_stats (whole 0),
    total_trades_from-marked p e.strategy_stats 0,
  )

  pub update_pnl-IsAscending :
      (p : W) (e : PnlEngine W)
      → IsAscending e.strategy_stats
      → IsAscending (update_pnl p e).strategy_stats
  update_pnl-IsAscending p e a =
      subst (λ m. IsAscending m) (sym (update_pnl_lem p e).2)
        (marked-IsAscending p e.strategy_stats a)

  unfoldable pub run : List (Change W) → PnlEngine W → PnlEngine W
  run [] e = e
  run (fill id side p q ∷ cs) e = run cs (on_fill id side p q e)
  run (price p ∷ cs) e = run cs (update_pnl p e)

  -- the total profit and loss after each update, in order
  unfoldable pub curve : List (Change W) → PnlEngine W → List W
  curve [] e = []
  curve (fill id side p q ∷ cs) e = curve cs (on_fill id side p q e)
  curve (price p ∷ cs) e = get_total_pnl (update_pnl p e) ∷ curve cs (update_pnl p e)

  -- Peak and largest fall below the running peak of a curve, from what was reached before.
  unfoldable pub drawdown : (peak fall : W) → List W → W × W
  drawdown peak fall [] = (peak, fall)
  drawdown peak fall (x ∷ xs) = let top = max peak x in drawdown top (max fall (top ⊖ x)) xs

  -- Through any fills and updates, the engine's peak and drawdown are those of the curve of total
  -- profit and loss that the updates see: its running maximum, and its largest fall from that.
  pub run-drawdown :
      (cs : List (Change W)) (e : PnlEngine W)
      → ((run cs e).peak_equity, (run cs e).max_drawdown)
        ≡ drawdown e.peak_equity e.max_drawdown (curve cs e)
  unfolding run curve drawdown on_fill
  run-drawdown [] e = refl
  run-drawdown (fill id side p q ∷ cs) e = run-drawdown cs (on_fill id side p q e)
  run-drawdown (price p ∷ cs) e =
      let (peak, fall, _, _, _) = update_pnl_lem p e in
      run-drawdown cs (update_pnl p e)
      ∙ ap₂ (λ t f. drawdown t f (curve cs (update_pnl p e))) peak
          (fall ∙ ap (λ t. max e.max_drawdown (t ⊖ get_total_pnl (update_pnl p e))) peak)
