-- ===== src/Feed.antt =====
-- `feed/imarket_feed.hpp`: what a feed does to the program, and the interface of all feeds.
pub mod Websocket
pub mod Live
pub mod Hybrid
pub mod Threads
mod Tests
use ultra_low_latency_hft_en.Prelude.{ℕ, Bool, false, none, some, List, [], ◌∷◌}
use ultra_low_latency_hft_en.Core.Events.{Event, EventType, MarketDataEvent, Payload}
use ultra_low_latency_hft_en.Core.EventQueue
use ultra_low_latency_hft_en.Core.EventQueue.{EventQueue}

-- What a feed's thread does, in order: it waits for a number of nanoseconds, or pushes an event.
pub data Action {ℓ} (W : Type ℓ) : Type ℓ where
  wait : ℕ → Action W
  push : Event W → Action W

module _ {ℓ} {W : Type ℓ} where
  -- the event that a feed pushes
  abbrev pub feed_event : MarketDataEvent W → ℕ → Event W
  feed_event md receive_ts = record {
    type = EventType.market_data;
    receive_ts = some receive_ts;
    parse_ts = none;
    book_ts = none;
    strategy_ts = none;
    execution_ts = none;
    payload = Payload.market_data md;
  }

  -- the events that are pushed
  unfoldable pub pushes : List (Action W) → List (Event W)
  pushes [] = []
  pushes (wait ns ∷ actions) = pushes actions
  pushes (push event ∷ actions) = event ∷ pushes actions

  -- the nanoseconds of all waits
  unfoldable pub waited : List (Action W) → List ℕ
  waited [] = []
  waited (wait ns ∷ actions) = ns ∷ waited actions
  waited (push event ∷ actions) = waited actions

-- `IMarketFeed` over the states `F` of its implementations.
pub record MarketFeed {ℓ} (F : Type ℓ) : Type ℓ where
  pub stop : F → F
  pub is_active : F → Bool
  pub is_finished : F → Bool

-- `is_finished` where an implementation does not override it
abbrev pub never_finished {ℓ} : {F : Type ℓ} → F → Bool
never_finished f = false
