-- ===== src/Pnl/Fills.antt =====
-- `on_fill`: the map of strategies, and the count of trades.
use ultra_low_latency_hft_en.Prelude.{
  ℕ, ◌+◌, ◌<◌, ◌≡◌, refl, ◌∙◌, ap, inl, inr, none, some, [], ◌∷◌, ◌==◌, if◌then◌else◌, arith,
  Bool-cases, ltb,
}
use ultra_low_latency_hft_en.Prelude.Table.{find}
use ultra_low_latency_hft_en.Double.{Double, ◌⊕◌, ◌⊗◌}
use ultra_low_latency_hft_en.Core.Events.{OrderSide}
use ultra_low_latency_hft_en.Risk.{side_sign}
use ultra_low_latency_hft_en.Pnl.{
  StrategyStats, StatsMap, PnlEngine, blank_stats, change, increases, fill, on_fill,
  total_trades_from, get_total_trades,
}

-- All ids of the map are above `k`.
abbrev pub IsAbove {ℓ} : {W : Type ℓ} → ℕ → StatsMap W → Type 0
IsAbove k [] = Unit
IsAbove k ((j, stats) ∷ m) = (k < j) × IsAbove k m

-- The entries stand by ascending id, as in `std::map`.
abbrev pub IsAscending {ℓ} : {W : Type ℓ} → StatsMap W → Type 0
IsAscending [] = Unit
IsAscending ((j, stats) ∷ m) = IsAbove j m × IsAscending m

module _ {ℓ} {W : Type ℓ} ⦃d : Double W⦄ where
  -- `strategy_stats_[id]`: the entry, or the one that is created
  abbrev pub entry : ℕ → StatsMap W → StrategyStats W
  entry id m = elim (find id m) [ some stats ↦ stats | none ↦ blank_stats ]

  pub find-above : (id k : ℕ) (m : StatsMap W) → IsAbove k m → id < k + 1 → find id m ≡ none
  unfolding find
  find-above id k [] a h = refl
  find-above id k ((j, stats) ∷ m) a h = ground (arith, find-above id k m)

  IsAbove-change :
      (k id : ℕ) (f : StrategyStats W → StrategyStats W) (m : StatsMap W)
      → k < id
      → IsAbove k m
      → IsAbove k (change id f m)
  unfolding change
  IsAbove-change k id f [] h a = (h, tt)
  IsAbove-change k id f ((j, stats) ∷ m) h a = ground (arith, IsAbove-change k id f m)

  IsAbove-weaken : (k j : ℕ) (m : StatsMap W) → k < j → IsAbove j m → IsAbove k m
  IsAbove-weaken k j [] h a = tt
  IsAbove-weaken k j ((i, stats) ∷ m) h a = (omega arith, IsAbove-weaken k j m h a.1)

  change-IsAscending :
      (id : ℕ) (f : StrategyStats W → StrategyStats W) (m : StatsMap W)
      → IsAscending m
      → IsAscending (change id f m)
  unfolding change
  change-IsAscending id f [] a = (tt, tt)
  change-IsAscending id f ((j, stats) ∷ m) a =
      ground (arith, change-IsAscending id f m, IsAbove-change j id f m, IsAbove-weaken id j m)

  find-change :
      (id j : ℕ) (f : StrategyStats W → StrategyStats W) (m : StatsMap W)
      → IsAscending m
      → find j (change id f m) ≡ (if id == j then some (f (entry id m)) else find j m)
  unfolding find change
  find-change id j f [] a = refl
  find-change id j f ((i, stats) ∷ m) a = ground (arith, find-change id j f m, find-above id i m)

  -- On a map in ascending order of ids, a fill changes the entry of its strategy, which it creates
  -- if need be, and no other; the map stays in order.
  pub on_fill_lem :
      (id j : ℕ) (side : OrderSide) (price quantity : W) (e : PnlEngine W)
      → IsAscending e.strategy_stats
      → let after = on_fill id side price quantity e in
        (find j after.strategy_stats ≡ (
          if id == j
          then some (fill side price quantity (entry id e.strategy_stats))
          else find j e.strategy_stats))
        × IsAscending after.strategy_stats
  unfolding on_fill
  on_fill_lem id j side price quantity e a = (
    find-change id j (fill side price quantity) e.strategy_stats a,
    change-IsAscending id (fill side price quantity) e.strategy_stats a,
  )

  -- Every fill moves the position by the signed quantity, whichever way the position stood.
  pub position-fill :
      (side : OrderSide) (price quantity : W) (stats : StrategyStats W)
      → (fill side price quantity stats).position ≡ stats.position ⊕ quantity ⊗ side_sign side
  unfolding fill
  position-fill side price quantity stats = ground arith

  -- the trades that a fill counts: one, unless it opens or adds to a position
  abbrev pub closes : W → W → ℕ
  closes position fill_qty = if increases position fill_qty then 0 else 1

  trades-fill :
      (side : OrderSide) (price quantity : W) (stats : StrategyStats W)
      → (fill side price quantity stats).trades
        ≡ stats.trades + closes stats.position (quantity ⊗ side_sign side)
  unfolding fill
  trades-fill side price quantity stats =
      elim (Bool-cases (increases stats.position (quantity ⊗ side_sign side))) [
        | inl e ↦ rw e (omega arith)
        | inr e ↦ rw e
      ]

  total_trades_from_add :
      (k total : ℕ) (m : StatsMap W)
      → total_trades_from (total + k) m ≡ total_trades_from total m + k
  unfolding total_trades_from
  total_trades_from_add k total [] = refl
  total_trades_from_add k total ((id, stats) ∷ m) =
      ap (λ t. total_trades_from t m) (omega arith)
      ∙ total_trades_from_add k (total + stats.trades) m

  total_trades_from-change :
      (id k total : ℕ) (f : StrategyStats W → StrategyStats W) (m : StatsMap W)
      → IsAscending m
      → (f (entry id m)).trades ≡ (entry id m).trades + k
      → total_trades_from total (change id f m) ≡ total_trades_from total m + k
  unfolding total_trades_from change find
  total_trades_from-change id k total f [] a h = omega arith
  total_trades_from-change id k total f ((j, stats) ∷ m) a h = elim (Bool-cases (j == id)) [
    | inl e ↦
        let counted : (f stats).trades ≡ stats.trades + k = ground arith in
        rw (e, counted, total_trades_from)
          (ap (λ t. total_trades_from t m) (omega arith)
            ∙ total_trades_from_add k (total + stats.trades) m)
    | inr e ↦ elim (Bool-cases (ltb id j)) [
      | inl below ↦
          let counted : (f blank_stats).trades ≡ k = ground (arith, find-above id j m) in
          rw (e, below, counted, total_trades_from)
            (ap (λ t. total_trades_from t m) (omega arith)
              ∙ total_trades_from_add k (total + stats.trades) m)
      | inr above ↦
          rw (e, above, total_trades_from)
            (total_trades_from-change id k (total + stats.trades) f m a.1 (ground arith))
    ]
  ]

  -- On a map in ascending order of ids, the total number of trades grows by one with each fill that
  -- does not open or add to the position of its strategy, and by nothing otherwise.
  get_total_trades-on_fill :
      (id : ℕ) (side : OrderSide) (price quantity : W) (e : PnlEngine W)
      → IsAscending e.strategy_stats
      → get_total_trades (on_fill id side price quantity e)
        ≡ get_total_trades e
          + closes (entry id e.strategy_stats).position (quantity ⊗ side_sign side)
  unfolding get_total_trades on_fill
  get_total_trades-on_fill id side price quantity e a =
      total_trades_from-change id _ 0 (fill side price quantity) e.strategy_stats a
        (trades-fill side price quantity (entry id e.strategy_stats))
