-- ===== src/Core/Events.antt =====
-- `core/events.hpp`: the plain structs that travel through the event queue.
use ultra_low_latency_hft_en.Prelude.{ℕ, Bool, List, Option}

-- `enum class EventType`
pub data EventType : Type 0 where
  market_data order_request validated_order order_response : EventType
  execution_report risk_check pnl_update cancel_order : EventType

pub data OrderSide : Type 0 where
  buy sell : OrderSide

pub data OrderType : Type 0 where
  limit market : OrderType

pub data OrderStatus : Type 0 where
  new partial filled cancelled rejected : OrderStatus

-- `char symbol[16]`, byte by byte
abbrev pub Symbol : Type 0
Symbol = List ℕ

pub record MarketDataEvent {ℓ} (W : Type ℓ) : Type ℓ where
  pub symbol : Symbol
  pub price : W
  pub quantity : W
  -- `long long`, as its 64 bits
  pub exchange_ts : ℕ
  pub is_buyer_maker : Bool

pub record OrderRequest {ℓ} (W : Type ℓ) : Type ℓ where
  pub order_id : ℕ
  pub strategy_id : ℕ
  pub symbol : Symbol
  pub side : OrderSide
  pub type : OrderType
  pub price : W
  pub quantity : W
  pub signal_ts : ℕ
  pub order_ts : ℕ

pub record ExecutionReport {ℓ} (W : Type ℓ) : Type ℓ where
  pub order_id : ℕ
  pub strategy_id : ℕ
  pub trade_id : ℕ
  pub symbol : Symbol
  pub side : OrderSide
  pub last_price : W
  pub last_qty : W
  pub cumulative_qty : W
  pub leaves_qty : W
  pub status : OrderStatus
  pub signal_ts : ℕ
  pub order_ts : ℕ

pub record CancelOrderReq : Type 0 where
  pub order_id : ℕ

-- The anonymous union of `Event`, with the member that was written last.
pub data Payload {ℓ} (W : Type ℓ) : Type ℓ where
  market_data : MarketDataEvent W → Payload W
  order_request : OrderRequest W → Payload W
  execution_report : ExecutionReport W → Payload W
  cancel_order : CancelOrderReq → Payload W

-- A timestamp is `none` while nothing has been written to it.
pub record Event {ℓ} (W : Type ℓ) : Type ℓ where
  pub type : EventType
  pub receive_ts : Option ℕ
  pub parse_ts : Option ℕ
  pub book_ts : Option ℕ
  pub strategy_ts : Option ℕ
  pub execution_ts : Option ℕ
  pub payload : Payload W
