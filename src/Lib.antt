-- ===== src/Lib.antt =====
-- Verification of the trading engine: the components that `main.cpp` puts together, and its event loop.
--
-- A feed thread pushes market data into one event queue, a ring buffer. The processor thread pops
-- events in batches of up to four and hands each to the component that its tag names. Market data goes
-- to the strategies, which push order requests and cancellations, and to the matching engine, which
-- fills resting orders. Order requests go to the order manager, which asks the risk engine and pushes
-- validated orders; these go to the matching engine, which pushes execution reports; a report goes to
-- the order manager, the strategies, the profit and loss engine, the risk engine and the monitor.
-- The feed is the live one, a replay of a recorded file, or both at once, each in a thread; the main
-- thread shows the state on a screen until a key ends the program or a replay is finished.
--
-- The files, and the code that each one models:
--   Prelude, Prelude/*: shared names; Boolean tests, lists, signed integers, maps and sorting.
--   Double, Double/*: the operations on `double`, over any type that has them; the laws of comparison
--     and of rounding that some theorems assume; whole numbers as the instance of the tests.
--   Core/Events: core/events.hpp. A struct is a record, an enum a data type, and the union of `Event`
--     a payload beside the tag, so that a mismatch of the two can be expressed.
--   Core/RingBuffer: core/ring_buffer.hpp, `push`, `pop`, and `size` as `size_of`; Core/RingBuffer/Fifo
--     has the bounded queue that it implements, Core/RingBuffer/Refines the proof. Core/RingBuffer/Threads
--     has the same calls step by step in two threads; proofs in Core/RingBuffer/{Races,Delivery,Calls}.
--   Core/LatencyTracker: core/latency_tracker.hpp, `Metric::record` step by step as `step`; proofs in
--     Core/LatencyTracker/{Steps,Races}.
--   Core/MemoryPool: core/memory_pool.hpp, `allocate` and `reset`.
--   Core/EventQueue: core/event_queue.hpp.
--   OrderBook: orderbook/order_book.{hpp,cpp}, `apply_trade`, `get_top_bids`, `get_top_asks`. The arrays
--     and their counts are lists; proofs by part in OrderBook/{Sides,Trades,Invariant,Contract,Full}.
--   Risk: risk/risk_engine.{hpp,cpp}, `check_order`, `update_position`.
--   Oms: oms/order_manager.{hpp,cpp}, `handle_order_request`, `handle_execution_report`,
--     `validate_order`, `get_active_orders`; proofs in Oms/Lifecycle, with queue and risk engine in
--     Oms/Limits, and over any history of messages in Oms/History.
--   Exchange: exchange/matching_engine.{hpp,cpp}, `update_market_price`, `process_order`, `cancel_order`
--     and their helpers; proofs in Exchange/{Sweep,Orders,Runs}.
--   Pnl: pnl/pnl_engine.{hpp,cpp}, all its methods; proofs in Pnl/{Fills,Equity,Books}.
--   Analytics: analytics/latency_monitor.hpp; proofs of `compute_stats` in Analytics/Percentiles.
--   Strategy: strategy/strategy_engine.{hpp,cpp}; Strategy/MarketMaker and Strategy/Momentum are the
--     headers of these names; Strategy/Common what both share; proofs in
--     Strategy/{Signals,Quotes,Passive}.
--   Engine: the processor thread of main.cpp, `handle` being the body of its `switch`; Engine/Tags,
--     Engine/Reachable and Engine/Idle prove what holds in every state that the program reaches.
--     Engine/Consistent does so for the order ids, the exchange and the history of trades together,
--     Engine/Ledger for what the fills leave behind, Engine/{Tokens,Moves,Flows,FlowPaths,OrderEnds} for
--     the way of an order to the report that ends it; Engine/Polling is the loop of the thread itself,
--     batch by batch.
--   Engine/Arguments: the arguments of main.cpp and the feed it makes; proofs in Engine/Options.
--   Engine/UiLoop: the loop of the main thread and the final summary; proofs in Engine/Shutdown.
--   Text, Text/*: what the code uses of the standard library on texts: lines, fields, `strncpy`, and
--     numbers read and printed.
--   Feed: feed/imarket_feed.hpp; Feed/Websocket feed/websocket_client.{hpp,cpp} in its two builds, proofs
--     in Feed/Live; Feed/Hybrid feed/hybrid_feed.hpp, proofs in Feed/Threads.
--   Replay: replay/replay_engine.{hpp,cpp}; Replay/Recorder replay/market_data_recorder.{hpp,cpp}; proofs in
--     Replay/{Pushes,Stops,RoundTrip}.
--   Parser: parser/trade_parser.{hpp,cpp} over any JSON parser with the lookups that it calls.
--   Ui: ui/terminal_ui.{hpp,cpp}, `update` as the list of what it prints; proofs in Ui/{Layout,Columns,Screen}.
--   Samples and the Tests modules: concrete states, and the theorems applied to them.
--
-- A method is a function on a record of the fields of its class; one that pushes also takes and returns
-- the event queue, which the code shares by reference. A method that holds a mutex throughout is one
-- step. Each push and pop is one step too but in Core/RingBuffer/Threads, where each access of an atomic
-- or of a slot is one, as in Core/LatencyTracker; accesses are sequentially consistent there,
-- and loads of older values, which the memory orders of the code allow, are not modelled. In the event loop
-- of Engine a push of the feed is one step and the handler of an event is another, with all its pushes: that
-- both threads push at once, which the code does not prevent, is seen only in Core/RingBuffer/Threads.
-- A `double` is an element of any type with the operations of `Double`; theorems use no law of it but
-- those of `IsOrdered`, `IsRounding` and `IsHundredths`, or named hypotheses, where they say so, so that they
-- hold of IEEE 754 with its NaN and rounding. Unsigned numbers of 64 bits wrap around. The clocks and the
-- memory that a local event starts with are arguments. `std::sort` is insertion sort, also of prices that are
-- NaN, for which the code leaves the order undefined. Log lines have no effect.
--
-- No function of the model runs on fuel but the printing of a number, whose fuel is more than its digits:
-- all loops are over lists, and a batch has four rounds. A loop that need not end, that of the
-- processor, of the live feed and of the main thread, is a function on the list of its first rounds, so
-- that a theorem on all lists speaks of every moment of the loop.
--
-- Not modelled: the network, the JSON parser, the random generator and ncurses, which are arguments; the
-- formatting of numbers on the screen; the thread and timer utilities of core/; execution/, which only
-- logs; and tests/.
pub mod Prelude
pub mod Double
pub mod Text
pub mod Feed
pub mod Replay
pub mod Samples
pub mod Core
pub mod OrderBook
pub mod Risk
pub mod Oms
pub mod Exchange
pub mod Pnl
pub mod Analytics
pub mod Strategy
pub mod Engine
pub mod Ui
pub mod Parser
