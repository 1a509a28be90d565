-- ===== src/Replay.antt =====
-- `replay/replay_engine.{hpp,cpp}`: a feed that reads recorded trades from a file. An exception of a
-- conversion leaves `run`, and so ends the program; log lines are left out.
pub mod Pushes
pub mod Stops
pub mod Recorder
pub mod RoundTrip
mod Tests
use ultra_low_latency_hft_en.Prelude.{
  ℕ, ◌+◌, ◌-◌, ◌*◌, ◌^◌, Bool, true, false, not, ◌&&◌, Option, none, some, List, [], ◌∷◌, ◌++◌,
  ◌==◌, ltb, if◌then◌else◌,
}
use ultra_low_latency_hft_en.Double.{Double, gt, whole, ◌⊘◌}
use ultra_low_latency_hft_en.Text.{Text, Spelling, getlines, strncpy, stod, stoll, stoi}
use ultra_low_latency_hft_en.Core.Events.{Event, EventType, MarketDataEvent, Payload}
use ultra_low_latency_hft_en.Feed.{Action, wait, push, feed_event, MarketFeed}

-- `file` is `none` if it could not be opened, or else the lines that `getline` has yet to return.
pub record ReplayEngine {ℓ} (W : Type ℓ) : Type ℓ where
  pub speed : W
  pub running : Bool
  pub finished : Bool
  pub file : Option (List Text)

-- What a round of the loop finds: whether `stop` was called by another thread before it, the memory of
-- the local event, and the clock.
pub record Moment {ℓ} (W : Type ℓ) : Type ℓ where
  pub stopped : Bool
  pub raw : MarketDataEvent W
  pub now : ℕ

-- What `run` leaves: its actions, and the engine, or none if an exception ended it.
pub record Outcome {ℓ} (W : Type ℓ) : Type ℓ where
  pub actions : List (Action W)
  pub engine : Option (ReplayEngine W)

-- How a round of the loop ends: with `continue`, with actions and the time of the trade, or with an
-- exception.
pub data Round {ℓ} (W : Type ℓ) : Type ℓ where
  skipped : Round W
  pushed : List (Action W) → ℕ → Round W
  fault : Round W

module _ {ℓ} {W : Type ℓ} where
  -- the constructor: the content of the file, or `none` if it cannot be opened
  unfoldable pub open_file : Option Text → W → ReplayEngine W
  open_file content speed = record {
    speed = speed;
    running = false;
    finished = false;
    file = elim content [ none ↦ none | some text ↦ some (getlines b'\n' text) ];
  }

  unfoldable pub stop : ReplayEngine W → ReplayEngine W
  stop e = record e { running = false }

  abbrev pub is_active : ReplayEngine W → Bool
  is_active e = not e.finished

  abbrev pub is_finished : ReplayEngine W → Bool
  is_finished e = e.finished

  -- `ReplayEngine` as a feed
  abbrev pub replay_feed : MarketFeed (ReplayEngine W)
  replay_feed = record { stop = stop; is_active = is_active; is_finished = is_finished }

module _ {ℓ} {W : Type ℓ} ⦃d : Double W⦄ where
  -- The waiting before a trade with this time, behind one with time `last`. A time that `long long` does
  -- not hold, whose conversion is undefined, counts as too long.
  unfoldable pub pause : W → ℕ → ℕ → List (Action W)
  pause speed last exchange_ts =
      let delta_ns = if ltb last exchange_ts then exchange_ts - last else 0 in
      let sleep = d.trunc (whole delta_ns ⊘ speed) in
      if ltb 0 last && gt speed (whole 0) && ltb 0 delta_ns
      then wait (if ltb (10 ^ 9) sleep then 10 ^ 7 else sleep) ∷ []
      else []

module _ {ℓ} {W : Type ℓ} ⦃d : Double W⦄ (spelling : Spelling W) where
  -- The fields behind the symbol, from the fourth back to the second. A missing field leaves the
  -- memory of the event as it was; `none` is an exception.
  unfoldable pub read_maker : List Text → MarketDataEvent W → Option (MarketDataEvent W)
  read_maker [] md = some md
  read_maker (field ∷ _) md = elim (stoi field) [
    | none ↦ none
    | some n ↦ some (record md { is_buyer_maker = not (n == 0) })
  ]

  unfoldable pub read_exchange_ts : List Text → MarketDataEvent W → Option (MarketDataEvent W)
  unfolding read_maker
  read_exchange_ts [] md = some md
  read_exchange_ts (field ∷ fields) md = elim (stoll field) [
    | none ↦ none
    | some n ↦ read_maker fields (record md { exchange_ts = n })
  ]

  unfoldable pub read_quantity : List Text → MarketDataEvent W → Option (MarketDataEvent W)
  unfolding read_exchange_ts
  read_quantity [] md = some md
  read_quantity (field ∷ fields) md = elim (stod spelling field) [
    | none ↦ none
    | some x ↦ read_exchange_ts fields (record md { quantity = x })
  ]

  unfoldable pub read_price : List Text → MarketDataEvent W → Option (MarketDataEvent W)
  unfolding read_quantity
  read_price [] md = some md
  read_price (field ∷ fields) md = elim (stod spelling field) [
    | none ↦ none
    | some x ↦ read_quantity fields (record md { price = x })
  ]

  -- the line's trade; the first field is the symbol, cut to 15 bytes
  unfoldable pub read_trade : Text → List Text → MarketDataEvent W → Option (MarketDataEvent W)
  unfolding read_price
  read_trade symbol fields raw =
      read_price fields (record raw { symbol = strncpy 15 symbol ++ 0 ∷ [] })

  -- what a round does with a line's fields
  unfoldable pub read_line : Moment W → W → ℕ → List Text → Round W
  unfolding read_trade pause
  read_line moment speed last [] = skipped
  read_line moment speed last (symbol ∷ fields) = elim (read_trade symbol fields moment.raw) [
    | none ↦ fault
    | some md ↦
        pushed (pause speed last md.exchange_ts ++ push (feed_event md moment.now) ∷ [])
          md.exchange_ts
  ]

  -- a round of the loop with a line
  unfoldable pub round : Moment W → W → ℕ → Text → Round W
  unfolding read_line
  round moment speed last line = read_line moment speed last (getlines b',' line)

  -- The loop over the lines that are left, behind a trade at time `last`; `e` is the engine in `run`,
  -- with `running` set. An empty line is skipped: it has no fields.
  unfoldable pub loop : (ℕ → Moment W) → ReplayEngine W → ℕ → List Text → Outcome W
  unfolding round
  loop env e last [] = record {
    actions = [];
    engine = some (record e { running = false; finished = true; file = some [] });
  }
  loop env e last (line ∷ lines) =
      let later = λ (i : ℕ). env (i + 1) in
      elim (env 0).stopped [
        | true ↦ record {
          actions = [];
          engine = some (record e { running = false; finished = true; file = some (line ∷ lines) });
        }
        | false ↦ elim (round (env 0) e.speed last line) [
          | skipped ↦ loop later e last lines
          | fault ↦ record { actions = []; engine = none }
          | pushed actions last' ↦
              let rest = loop later e last' lines in
              record rest { actions = actions ++ rest.actions }
        ]
      ]

  unfoldable pub run_file : (ℕ → Moment W) → ReplayEngine W → Option (List Text) → Outcome W
  unfolding loop
  run_file env e none = record { actions = []; engine = some (record e { finished = true }) }
  run_file env e (some lines) = loop env e 0 lines

  unfoldable pub run : (ℕ → Moment W) → ReplayEngine W → Outcome W
  unfolding run_file
  run env e = run_file env (record e { running = true; finished = false }) e.file
