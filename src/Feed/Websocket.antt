-- ===== src/Feed/Websocket.antt =====
-- `feed/websocket_client.{hpp,cpp}`: the live feed, with Boost and without. What the network does is an
-- argument: how far a connection comes, and what each read gives. So are the numbers that the random
-- generator draws. Log lines are left out.
use ultra_low_latency_hft_en.Prelude.{
  ℕ, ◌+◌, ◌-◌, ◌%◌, ◌^◌, Bool, true, false, not, ◌&&◌, Option, none, some, List, [], ◌∷◌, ◌++◌,
  drop,
}
use ultra_low_latency_hft_en.Prelude.Int.{pos}
use ultra_low_latency_hft_en.Double.{Double, gt, whole, ◌⊕◌}
use ultra_low_latency_hft_en.Text.{Text, codes}
use ultra_low_latency_hft_en.Core.Events.{MarketDataEvent}
use ultra_low_latency_hft_en.Feed.{Action, wait, push, feed_event, MarketFeed, never_finished}

-- `has_stream` tells whether `ws`, which only the build with Boost has, points to a stream.
pub record WebSocketClient : Type 0 where
  pub running : Bool
  pub has_stream : Bool

-- How far `connect` comes with Boost before it throws: not to a stream, to one, or to its end.
pub data Dial : Type 0 where
  no_stream : Dial
  no_handshake : Dial
  connected : Dial

-- the constructor
abbrev pub init : WebSocketClient
init = record { running = false; has_stream = false }

unfoldable pub connect_boost : Dial → WebSocketClient → WebSocketClient
connect_boost no_stream c = c
connect_boost no_handshake c = record c { has_stream = true }
connect_boost connected c = record c { running = true; has_stream = true }

-- the build without Boost
abbrev pub connect_simulated : WebSocketClient → WebSocketClient
connect_simulated c = record c { running = true }

-- It closes the stream, if there is one, and ignores an exception of that.
abbrev pub stop : WebSocketClient → WebSocketClient
stop c = record c { running = false }

abbrev pub is_active : WebSocketClient → Bool
is_active c = true

-- `WebSocketClient` as a feed
abbrev pub live_feed : MarketFeed WebSocketClient
live_feed = record { stop = stop; is_active = is_active; is_finished = never_finished }

-- A round of the loop with Boost: whether `stop` was called before it, and what `read` gives, none if
-- it throws.
pub record Reading : Type 0 where
  pub stopped : Bool
  pub message : Option Text

-- A round of the loop without Boost: whether `stop` was called before it, the two numbers that it draws,
-- the clock, and the memory of the local event.
pub record Draw {ℓ} (W : Type ℓ) : Type ℓ where
  pub stopped : Bool
  pub move : W
  pub maker : W
  pub now : ℕ
  pub raw : MarketDataEvent W

module _ {ℓ} {W : Type ℓ} where
  -- The loop with Boost over its first rounds: what it does, and the client after them. A message is
  -- only logged.
  unfoldable pub run_boost : List Reading → WebSocketClient → List (Action W) × WebSocketClient
  run_boost [] c = ([], c)
  run_boost (r ∷ rs) c = elim (not r.stopped && c.running) [
    | true ↦ elim r.message [
      | some message ↦ run_boost rs c
      | none ↦ run_boost rs (record c { running = false })
    ]
    | false ↦ ([], record c { running = false })
  ]

module _ {ℓ} {W : Type ℓ} ⦃d : Double W⦄ where
  -- the trade of a round without Boost
  unfoldable pub simulated : Draw W → W → MarketDataEvent W
  simulated draw price = record {
    symbol = codes "BTCUSDT" ++ 0 ∷ drop 8 draw.raw.symbol;
    price = price;
    quantity = d.decimal (pos 1) 2;
    exchange_ts = (draw.now + (2 ^ 64 - 10 ^ 6)) % 2 ^ 64;
    is_buyer_maker = gt draw.maker (whole 0);
  }

  -- the loop without Boost over its first rounds
  unfoldable pub simulate : List (Draw W) → W → WebSocketClient → List (Action W) × WebSocketClient
  unfolding simulated
  simulate [] price c = ([], c)
  simulate (draw ∷ draws) price c =
      let moved = price ⊕ draw.move in
      let rest = simulate draws moved c in
      elim (not draw.stopped && c.running) [
        | true ↦
            (push (feed_event (simulated draw moved) draw.now) ∷ wait (10 ^ 8) ∷ rest.0, rest.1)
        | false ↦ ([], record c { running = false })
      ]

  unfoldable pub run_simulated : List (Draw W) → WebSocketClient → List (Action W) × WebSocketClient
  unfolding simulate
  run_simulated draws c = simulate draws (whole 50000) c
