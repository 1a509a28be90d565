-- ===== src/Pnl/Books.antt =====
-- The statistics of one strategy through fills of all strategies and updates of prices.
use ultra_low_latency_hft_en.Prelude.{
  ℕ, ◌≡◌, refl, ◌∙◌, ap, inl, inr, Bool-cases, Option, none, some, List, [], ◌∷◌, ◌==◌, arith,
  if◌then◌else◌,
}
use ultra_low_latency_hft_en.Prelude.Table.{find}
use ultra_low_latency_hft_en.Double.{Double, whole, ◌⊗◌}
use ultra_low_latency_hft_en.Core.Events.{OrderSide}
use ultra_low_latency_hft_en.Risk.{side_sign}
use ultra_low_latency_hft_en.Pnl
use ultra_low_latency_hft_en.Pnl.{
  StatsMap, StrategyStats, PnlEngine, blank_stats, increases, mark, on_fill, update_pnl,
}
use ultra_low_latency_hft_en.Pnl.Fills.{IsAscending, entry, on_fill_lem}
use ultra_low_latency_hft_en.Pnl.Equity.{
  Change, fill, price, marked, run, update_pnl_lem, update_pnl-IsAscending,
}

module _ {ℓ} {W : Type ℓ} ⦃d : Double W⦄ where
  -- the statistics but for the unrealized profit, which an update sets
  abbrev pub settled : StrategyStats W → StrategyStats W
  settled stats = record stats { unrealized_pnl = whole 0 }

  -- The statistics after the fills of one strategy, when nothing else happens.
  unfoldable pub alone : ℕ → List (Change W) → StrategyStats W → StrategyStats W
  alone id [] stats = stats
  alone id (fill j side p q ∷ cs) stats =
      alone id cs (if j == id then Pnl.fill side p q stats else stats)
  alone id (price p ∷ cs) stats = alone id cs stats

  abbrev entry_of : Option (StrategyStats W) → StrategyStats W
  entry_of o = elim o [ some stats ↦ stats | none ↦ blank_stats ]

  settled-fill :
      (side : OrderSide) (p q : W) (stats : StrategyStats W)
      → settled (Pnl.fill side p q stats) ≡ Pnl.fill side p q (settled stats)
  unfolding Pnl.fill
  settled-fill side p q stats = elim (Bool-cases (increases stats.position (q ⊗ side_sign side))) [
    | inl e ↦ rw e refl
    | inr e ↦ rw e refl
  ]

  entry-marked :
      (id : ℕ) (p : W) (m : StatsMap W) → settled (entry id (marked p m)) ≡ settled (entry id m)
  unfolding marked mark find
  entry-marked id p [] = refl
  entry-marked id p ((j, stats) ∷ m) = ground (arith, entry-marked id p m)

  entry-on_fill :
      (id j : ℕ) (side : OrderSide) (p q : W) (e : PnlEngine W)
      → IsAscending e.strategy_stats
      → settled (entry id (on_fill j side p q e).strategy_stats) ≡ (
          let stats = settled (entry id e.strategy_stats) in
          if j == id then Pnl.fill side p q stats else stats)
  entry-on_fill id j side p q e a =
      let found = (on_fill_lem j id side p q e a).0 in
      elim (Bool-cases (j == id)) [
        | inl same ↦
            let its : j ≡ id = ground arith in
            rw same (
              ap (λ o. settled (entry_of o)) (rw same at found)
              ∙ settled-fill side p q (entry j e.strategy_stats)
              ∙ ap (λ i. Pnl.fill side p q (settled (entry i e.strategy_stats))) its)
        | inr other ↦ rw other (ap (λ o. settled (entry_of o)) (rw other at found))
      ]

  -- On a map in ascending order of ids, through any fills of any strategies and updates of prices: but for the
  -- unrealized profit, the statistics of each strategy are those that its own fills alone make of what it had.
  pub run-alone :
      (id : ℕ) (cs : List (Change W)) (e : PnlEngine W)
      → IsAscending e.strategy_stats
      → settled (entry id (run cs e).strategy_stats)
        ≡ alone id cs (settled (entry id e.strategy_stats))
  unfolding run alone
  run-alone id [] e a = refl
  run-alone id (fill j side p q ∷ cs) e a =
      run-alone id cs (on_fill j side p q e) (on_fill_lem j 0 side p q e a).1
      ∙ ap (λ s. alone id cs s) (entry-on_fill id j side p q e a)
  run-alone id (price p ∷ cs) e a =
      run-alone id cs (update_pnl p e) (update_pnl-IsAscending p e a)
      ∙ ap (λ s. alone id cs s)
          (ap (λ m. settled (entry id m)) (update_pnl_lem p e).2
            ∙ entry-marked id p e.strategy_stats)
