-- ===== src/Strategy/Common.antt =====
-- What the two strategies share: the surroundings of a call, and the order events that they build.
use ultra_low_latency_hft_en.Prelude.{ℕ, none, ◌∷◌, drop}
use ultra_low_latency_hft_en.Core.Events.{
  Event, EventType, OrderRequest, OrderSide, limit, Payload, Symbol,
}

-- What one call of `on_market_data` finds around it: the clock at its reading, and for each of the two
-- orders that it may submit the clock and the memory of the local event, which is not initialised.
pub record Ambient {ℓ} (W : Type ℓ) : Type ℓ where
  pub now : ℕ
  pub first_now : ℕ
  pub first_raw : OrderRequest W
  pub second_now : ℕ
  pub second_raw : OrderRequest W

-- `memcpy(req.symbol, "BTCUSDT", 7)`
abbrev pub copy_symbol : Symbol → Symbol
copy_symbol raw = b'B' ∷ b'T' ∷ b'C' ∷ b'U' ∷ b'S' ∷ b'D' ∷ b'T' ∷ drop 7 raw

module _ {ℓ} {W : Type ℓ} where
  abbrev pub event : EventType → Payload W → Event W
  event type payload = record {
    type = type;
    receive_ts = none;
    parse_ts = none;
    book_ts = none;
    strategy_ts = none;
    execution_ts = none;
    payload = payload;
  }

  -- the event that both `submit_order`s build; `order_ts` stays as the memory had it
  abbrev pub order_event :
      (strategy_id order_id : ℕ) (side : OrderSide) (price quantity : W) (now : ℕ)
      (raw : OrderRequest W)
      → Event W
  order_event strategy_id order_id side price quantity now raw = event EventType.order_request (
      Payload.order_request (record {
        order_id = order_id;
        strategy_id = strategy_id;
        symbol = copy_symbol raw.symbol;
        side = side;
        type = limit;
        price = price;
        quantity = quantity;
        signal_ts = now;
        order_ts = raw.order_ts;
      }))
