-- ===== src/Risk.antt =====
-- `risk/risk_engine.{hpp,cpp}`: the position limit. Log lines are left out.
use ultra_low_latency_hft_en.Prelude.{Bool, true, false, if◌then◌else◌}
use ultra_low_latency_hft_en.Double.{Double, gt, abs, neg, whole, ◌⊕◌, ◌⊗◌}
use ultra_low_latency_hft_en.Core.Events.{OrderSide, buy, sell, OrderRequest}

pub record RiskEngine {ℓ} (W : Type ℓ) : Type ℓ where
  pub current_position : W
  pub max_position : W

module _ {ℓ} {W : Type ℓ} ⦃d : Double W⦄ where
  unfoldable pub init : W → RiskEngine W
  init max_pos = record { current_position = whole 0; max_position = max_pos }

  -- `(side == Buy) ? 1.0 : -1.0`, here and in the event loop
  abbrev pub side_sign : OrderSide → W
  side_sign buy = whole 1
  side_sign sell = neg (whole 1)

  unfoldable pub check_order : RiskEngine W → OrderRequest W → Bool
  check_order r order =
      if gt (abs (r.current_position ⊕ order.quantity ⊗ side_sign order.side)) r.max_position
      then false
      else true

  unfoldable pub update_position : W → RiskEngine W → RiskEngine W
  update_position quantity r = record r { current_position = r.current_position ⊕ quantity }
