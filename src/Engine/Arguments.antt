-- ===== src/Engine/Arguments.antt =====
-- `main.cpp`: the arguments of the program, and the feed and the recorder that it makes from them.
use ultra_low_latency_hft_en.Prelude.{
  Bool, true, false, ◌&&◌, Option, none, some, List, [], ◌∷◌, ◌==◌,
}
use ultra_low_latency_hft_en.Double.{Double, whole}
use ultra_low_latency_hft_en.Text.{Text, Spelling, codes, stod}
use ultra_low_latency_hft_en.Feed.{MarketFeed}
use ultra_low_latency_hft_en.Feed.Websocket
use ultra_low_latency_hft_en.Feed.Websocket.{WebSocketClient, live_feed}
use ultra_low_latency_hft_en.Feed.Hybrid
use ultra_low_latency_hft_en.Feed.Hybrid.{HybridFeed, hybrid_feed}
use ultra_low_latency_hft_en.Replay.{ReplayEngine, replay_feed, open_file}
use ultra_low_latency_hft_en.Replay.Recorder.{MarketDataRecorder, open_append}

pub data Mode : Type 0 where
  live : Mode
  replay : Mode
  hybrid : Mode

-- The locals of `main` that the arguments set.
pub record Settings {ℓ} (W : Type ℓ) : Type ℓ where
  pub mode : Mode
  pub data_file : Text
  pub replay_speed : W

-- `==` of two texts
unfoldable pub equals : Text → Text → Bool
equals [] [] = true
equals [] (c ∷ t) = false
equals (c ∷ s) [] = false
equals (c ∷ s) (b ∷ t) = c == b && equals s t

-- What an argument is: an option that takes the next argument, if there is one, or one that stands
-- alone, or no option.
pub data Word : Type 0 where
  file : Word
  speed : Word
  mode : Mode → Word
  unknown : Word

unfoldable pub word : Text → Word
unfolding equals
word arg = elim (equals arg (codes "--replay")) [
  | true ↦ file
  | false ↦ elim (equals arg (codes "--live")) [
    | true ↦ mode live
    | false ↦ elim (equals arg (codes "--hybrid")) [
      | true ↦ mode hybrid
      | false ↦ elim (equals arg (codes "--speed")) [ true ↦ speed | false ↦ unknown ]
    ]
  ]
]

module _ {ℓ} {W : Type ℓ} ⦃d : Double W⦄ where
  -- what `main` starts from
  abbrev pub defaults : Settings W
  defaults = record {
    mode = live;
    data_file = codes "market_data_record.csv";
    replay_speed = whole 1;
  }

module _ {ℓ} {W : Type ℓ} ⦃d : Double W⦄ (spelling : Spelling W) where
  -- The loop over the arguments; `none` is the exception of `std::stod`, which ends the program.
  unfoldable pub read_arguments : List Text → Settings W → Option (Settings W)
  unfolding word
  read_arguments [] s = some s
  read_arguments (arg ∷ []) s = elim (word arg) [
    | mode m ↦ some (record s { mode = m })
    | _ ↦ some s
  ]
  read_arguments (arg ∷ next ∷ args) s = elim (word arg) [
    | file ↦ read_arguments args (record s { mode = replay; data_file = next })
    | speed ↦ elim (stod spelling next) [
      | none ↦ none
      | some x ↦ read_arguments args (record s { replay_speed = x })
    ]
    | mode m ↦ read_arguments (next ∷ args) (record s { mode = m })
    | unknown ↦ read_arguments (next ∷ args) s
  ]

-- The feeds of the program: what `market_feed` may point to.
pub data Source {ℓ} (W : Type ℓ) : Type ℓ where
  from_network : WebSocketClient → Source W
  from_file : ReplayEngine W → Source W

pub data Feeds {ℓ} (W : Type ℓ) : Type ℓ where
  one : Source W → Feeds W
  many : HybridFeed (Source W) → Feeds W

module _ {ℓ} {W : Type ℓ} where
  -- the virtual calls
  unfoldable pub source_finished : Source W → Bool
  source_finished (from_network c) = live_feed.is_finished c
  source_finished (from_file e) = replay_feed.is_finished e

  unfoldable pub source_active : Source W → Bool
  source_active (from_network c) = live_feed.is_active c
  source_active (from_file e) = replay_feed.is_active e

  unfoldable pub stop_source : Source W → Source W
  stop_source (from_network c) = from_network (live_feed.stop c)
  stop_source (from_file e) = from_file (replay_feed.stop e)

  abbrev pub source_feed : MarketFeed (Source W)
  source_feed = record {
    stop = stop_source;
    is_active = source_active;
    is_finished = source_finished;
  }

  unfoldable pub is_finished : Feeds W → Bool
  unfolding source_finished source_active stop_source
  is_finished (one s) = source_finished s
  is_finished (many h) = Hybrid.is_finished source_feed h

  -- `market_feed` for the settings. `content` gives the content of a file, and `connect` is what
  -- `connect` does to the client in this build.
  unfoldable pub market_feed :
      (Text → Option Text) → (WebSocketClient → WebSocketClient) → Settings W → Feeds W
  unfolding Hybrid.add_feed
  market_feed content connect s =
      let network = from_network (connect Websocket.init) in
      let recorded = from_file (open_file (content s.data_file) s.replay_speed) in
      elim s.mode [
        | live ↦ one network
        | replay ↦ one recorded
        | hybrid ↦ many (Hybrid.add_feed recorded (Hybrid.add_feed network Hybrid.init))
      ]

  -- `recorder`, a null pointer in the mode REPLAY. `kept` gives what a file holds that was opened to be
  -- appended to, which creates a missing one.
  unfoldable pub recorder : (Text → Option Text) → Settings W → Option MarketDataRecorder
  recorder kept s = elim s.mode [
    | live ↦ some (open_append (kept s.data_file))
    | replay ↦ none
    | hybrid ↦ some (open_append (kept (codes "hybrid_record.csv")))
  ]
