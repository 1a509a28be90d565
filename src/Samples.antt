-- ===== src/Samples.antt =====
-- Sample orders, events and queues over whole numbers, for the tests of several components.
use ultra_low_latency_hft_en.Prelude.{ℕ, true, none, []}
use ultra_low_latency_hft_en.Prelude.Int.{ℤ, pos}
use ultra_low_latency_hft_en.Double.Whole.{whole_double}
use ultra_low_latency_hft_en.Core.Events.{
  Event, EventType, MarketDataEvent, OrderRequest, OrderSide, OrderType, ExecutionReport,
  OrderStatus, Payload,
}
use ultra_low_latency_hft_en.Core.EventQueue
use ultra_low_latency_hft_en.Core.EventQueue.{EventQueue}
use ultra_low_latency_hft_en.Risk.{RiskEngine}

abbrev pub cancellation : ℕ → Event ℤ
cancellation id = record {
  type = EventType.cancel_order;
  receive_ts = none;
  parse_ts = none;
  book_ts = none;
  strategy_ts = none;
  execution_ts = none;
  payload = Payload.cancel_order (record { order_id = id });
}

abbrev pub empty_queue : EventQueue ℤ
empty_queue = EventQueue.init (cancellation 0)

abbrev pub tick : ℕ → MarketDataEvent ℤ
tick p = record {
  symbol = [];
  price = pos p;
  quantity = pos 1;
  exchange_ts = 0;
  is_buyer_maker = true;
}

abbrev pub order : ℕ → OrderSide → OrderType → ℕ → ℕ → OrderRequest ℤ
order id side type price quantity = record {
  order_id = id;
  strategy_id = 2;
  symbol = [];
  side = side;
  type = type;
  price = pos price;
  quantity = pos quantity;
  signal_ts = 10;
  order_ts = 20;
}

abbrev pub report : ℕ → OrderSide → OrderStatus → ℕ → ℕ → ExecutionReport ℤ
report id side status price quantity = record {
  order_id = id;
  strategy_id = 2;
  trade_id = 1;
  symbol = [];
  side = side;
  last_price = pos price;
  last_qty = pos quantity;
  cumulative_qty = pos quantity;
  leaves_qty = pos 0;
  status = status;
  signal_ts = 10;
  order_ts = 20;
}

-- flat, with room for 10
abbrev pub risk_of_ten : RiskEngine ℤ
risk_of_ten = record { current_position = pos 0; max_position = pos 10 }
