-- ===== src/Strategy/Momentum.antt =====
-- `strategy/momentum_strategy.hpp`
use ultra_low_latency_hft_en.Prelude.{
  ℕ, Bool, true, false, not, ◌&&◌, if◌then◌else◌, ltb, ◌==◌, add_u64,
}
use ultra_low_latency_hft_en.Prelude.Int.{pos}
use ultra_low_latency_hft_en.Double.{Double, lt, gt, whole, ◌⊕◌, ◌⊖◌, ◌⊗◌, ◌⊘◌}
use ultra_low_latency_hft_en.Core.Events.{MarketDataEvent, OrderRequest, OrderSide, buy, sell}
use ultra_low_latency_hft_en.Core.EventQueue
use ultra_low_latency_hft_en.Core.EventQueue.{EventQueue}
use ultra_low_latency_hft_en.Strategy.Common.{Ambient, order_event}

pub record Momentum {ℓ} (W : Type ℓ) : Type ℓ where
  pub short_ema : W
  pub long_ema : W
  pub count : ℕ
  pub position_open : Bool
  pub next_order_id : ℕ

module _ {ℓ} {W : Type ℓ} ⦃d : Double W⦄ where
  unfoldable pub init : Momentum W
  init = record {
    short_ema = whole 0;
    long_ema = whole 0;
    count = 0;
    position_open = false;
    next_order_id = 2_000_000;
  }

  unfoldable pub submit_order :
      OrderSide
      → (price : W) (now : ℕ) (raw : OrderRequest W) → Momentum W × EventQueue W
      → Momentum W × EventQueue W
  submit_order side price now raw (s, q) = (
    record s { next_order_id = add_u64 s.next_order_id 1 },
    (EventQueue.push (order_event 2 s.next_order_id side price (d.decimal (pos 5) 1) now raw) q).1,
  )

  -- the constants `alpha_10` and `alpha_50`
  abbrev pub alpha_10 : W
  alpha_10 = whole 2 ⊘ whole 11

  abbrev pub alpha_50 : W
  alpha_50 = whole 2 ⊘ whole 51

  -- one step of a moving average
  abbrev pub ema : ℕ → (price alpha previous : W) → W
  ema count price alpha previous =
      if count == 0 then price else price ⊗ alpha ⊕ previous ⊗ (whole 1 ⊖ alpha)

  -- the averages and the count after a tick
  unfoldable pub observe : W → Momentum W → Momentum W
  observe price s = record s {
    short_ema = ema s.count price alpha_10 s.short_ema;
    long_ema = ema s.count price alpha_50 s.long_ema;
    count = add_u64 s.count 1;
  }

  unfoldable pub bullish : Momentum W → Bool
  bullish s = gt s.short_ema (s.long_ema ⊗ d.decimal (pos 10_001) 4) && not s.position_open

  unfoldable pub bearish : Momentum W → Bool
  bearish s = lt s.short_ema (s.long_ema ⊗ d.decimal (pos 9999) 4) && s.position_open

  unfoldable pub on_market_data :
      Ambient W → MarketDataEvent W → Momentum W × EventQueue W → Momentum W × EventQueue W
  unfolding observe bullish bearish submit_order
  on_market_data ambient md (s, q) =
      let s₁ = observe md.price s in
      let bought =
        submit_order buy (md.price ⊕ whole 1) ambient.first_now ambient.first_raw (s₁, q) in
      let sold =
        submit_order sell (md.price ⊖ whole 1) ambient.first_now ambient.first_raw (s₁, q) in
      if ltb s₁.count 50
      then (s₁, q)
      else if bullish s₁
      then (record bought.0 { position_open = true }, bought.1)
      else if bearish s₁
      then (record sold.0 { position_open = false }, sold.1)
      else (s₁, q)
