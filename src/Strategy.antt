-- ===== src/Strategy.antt =====
-- `strategy/strategy_engine.{hpp,cpp}`: dispatch to the strategies in turn. References to the queue and
-- the book are arguments. `get_name` and the unused interface of `istrategy.hpp` are left out.
pub mod Common
pub mod MarketMaker
pub mod Momentum
pub mod Signals
pub mod Quotes
pub mod Passive
mod Tests
mod QuoteTests
use ultra_low_latency_hft_en.Prelude.{ℕ, ◌+◌, suc, List, [], ◌∷◌, ◌++◌, map}
use ultra_low_latency_hft_en.Double.{Double}
use ultra_low_latency_hft_en.Core.Events.{MarketDataEvent, ExecutionReport}
use ultra_low_latency_hft_en.Core.EventQueue.{EventQueue}
use ultra_low_latency_hft_en.OrderBook.{OrderBook}
use ultra_low_latency_hft_en.Strategy.Common.{Ambient}
use ultra_low_latency_hft_en.Strategy.MarketMaker as MM
use ultra_low_latency_hft_en.Strategy.Momentum as Mo

-- `std::variant<MarketMakerStrategy, MomentumStrategy>`
pub data StrategyVariant {ℓ} (W : Type ℓ) : Type ℓ where
  market_maker : MM.MarketMaker W → StrategyVariant W
  momentum : Mo.Momentum W → StrategyVariant W

-- `strategies_`
abbrev pub StrategyEngine {ℓ} : Type ℓ → Type ℓ
StrategyEngine W = List (StrategyVariant W)

module _ {ℓ} {W : Type ℓ} ⦃d : Double W⦄ where
  unfoldable pub add_strategy : StrategyVariant W → StrategyEngine W → StrategyEngine W
  add_strategy s strategies = strategies ++ s ∷ []

  -- `std::visit` with the call of `on_market_data`
  unfoldable pub visit_market_data :
      Ambient W
      → MarketDataEvent W
      → OrderBook W
      → StrategyVariant W
      → EventQueue W
      → StrategyVariant W × EventQueue W
  visit_market_data ambient md book (market_maker s) q =
      let (s', q') = MM.on_market_data ambient book (s, q) in (market_maker s', q')
  visit_market_data ambient md book (momentum s) q =
      let (s', q') = Mo.on_market_data ambient md (s, q) in (momentum s', q')

  -- The `i`-th strategy is called with the surroundings `ambient i`.
  unfoldable pub on_market_data :
      (ℕ → Ambient W)
      → MarketDataEvent W
      → OrderBook W
      → StrategyEngine W
      → EventQueue W
      → StrategyEngine W × EventQueue W
  unfolding visit_market_data
  on_market_data ambient md book [] q = ([], q)
  on_market_data ambient md book (s ∷ strategies) q =
      let (s', q') = visit_market_data (ambient 0) md book s q in
      let (rest, q'') = on_market_data (λ i. ambient (i + 1)) md book strategies q' in
      (s' ∷ rest, q'')

  -- Neither strategy does anything on an execution.
  unfoldable pub visit_execution : ExecutionReport W → StrategyVariant W → StrategyVariant W
  visit_execution report (market_maker s) = market_maker s
  visit_execution report (momentum s) = momentum s

  unfoldable pub on_execution : ExecutionReport W → StrategyEngine W → StrategyEngine W
  unfolding visit_execution
  on_execution report [] = []
  on_execution report (s ∷ strategies) = visit_execution report s ∷ on_execution report strategies

  unfoldable pub visit_position : W → StrategyVariant W → StrategyVariant W
  visit_position position (market_maker s) = market_maker (MM.update_position position s)
  visit_position position (momentum s) = momentum s

  unfoldable pub update_position : W → StrategyEngine W → StrategyEngine W
  unfolding visit_position
  update_position position [] = []
  update_position position (s ∷ strategies) =
      visit_position position s ∷ update_position position strategies
