-- ===== src/Engine/FeedTests.antt =====
-- The arguments, the feeds and the loop of the main thread at concrete inputs.
use ultra_low_latency_hft_en.Prelude.{
  ℕ, ◌+◌, ◌≡◌, refl, Bool, true, false, Option, none, some, List, [], ◌∷◌, ◌++◌,
}
use ultra_low_latency_hft_en.Prelude.Int.{ℤ, pos}
use ultra_low_latency_hft_en.Double.Whole.{whole_double}
use ultra_low_latency_hft_en.Text.{Spelling, codes, getlines, stod}
use ultra_low_latency_hft_en.OrderBook
use ultra_low_latency_hft_en.Replay.{Moment, ReplayEngine, open_file, run}
use ultra_low_latency_hft_en.Ui.{Dashboard}
use ultra_low_latency_hft_en.Engine.Arguments.{
  live, replay, hybrid, Settings, defaults, read_arguments, is_finished,
}
use ultra_low_latency_hft_en.Engine.Options.{
  Choice, replay_from, go_live, go_hybrid, at_speed, ignored, command_line,
}
use ultra_low_latency_hft_en.Engine.UiLoop.{Seen, started, goes_on, rounds}
use ultra_low_latency_hft_en.Engine.Shutdown.{none_ends, goes_on-rounds, replay_shuts_down}
use ultra_low_latency_hft_en.Samples.{tick}

abbrev spelling : Spelling ℤ
spelling = record { special = λ s. none; in_range = λ x. true; show = λ x. [] }

-- a file that is named like an option, and the options it stands between
abbrev choices : List Choice
choices =
    ignored (codes "now")
    ∷ replay_from (codes "--live")
    ∷ at_speed (codes "20")
    ∷ go_live
    ∷ go_hybrid
    ∷ []

abbrev settings : Settings ℤ
settings = record { mode = hybrid; data_file = codes "--live"; replay_speed = pos 20 }

-- what the command line gives
arguments_read : read_arguments spelling (command_line choices) defaults ≡ some settings
unfolding read_arguments command_line stod
arguments_read = refl

abbrev values : Dashboard ℤ
values = record {
  total_pnl = pos 0;
  total_position = pos 0;
  strategy_stats = [];
  p99_latency_ns = 0;
  queue_depth = 0;
  events_per_sec = 0;
  open_orders = [];
  trades = [];
}

abbrev seen : Bool → Option ℕ → Seen ℤ
seen finished key = record {
  is_finished = finished;
  now = 5;
  total_pushed = 0;
  order_book = OrderBook.init;
  values = values;
  key = key;
}

goes_on-rounds_example :
    let seens = seen true none ∷ seen false (some b'q') ∷ seen false (some b'q') ∷ [] in
    (goes_on (rounds true live seens (started 0)).1 ≡ none_ends true live 0 seens)
    × (none_ends true live 0 seens ≡ false
        → (rounds true live (seens ++ seen true none ∷ []) (started 0)).1
          ≡ (rounds true live seens (started 0)).1)
goes_on-rounds_example =
    goes_on-rounds true live 0
      (seen true none ∷ seen false (some b'q') ∷ seen false (some b'q') ∷ []) (seen true none ∷ [])

-- In the mode LIVE the third of these rounds is the first that ends the loop.
third_round :
    none_ends true live 0 (seen true none ∷ seen false (some b'q') ∷ seen false (some b'q') ∷ [])
    ≡ false
unfolding none_ends
third_round = refl

abbrev env : ℕ → Moment ℤ
env i = record { stopped = false; raw = tick 7; now = 1000 + i }

abbrev engine_after : ReplayEngine ℤ
engine_after = record { speed = pos 1; running = false; finished = true; file = some [] }

engine_after_lem :
    (run spelling env (open_file (some (codes "BTCUSDT,5,2\n")) (pos 1))).engine ≡ some engine_after
unfolding run open_file getlines stod
engine_after_lem = refl

replay_shuts_down_example :
    goes_on
      (rounds false replay
        (seen false none ∷ [] ++ seen true none ∷ seen false none ∷ [])
        (started 0)).1
    ≡ false
replay_shuts_down_example =
    replay_shuts_down spelling env (open_file (some (codes "BTCUSDT,5,2\n")) (pos 1)) engine_after
      false 0 (seen false none ∷ []) (seen true none) (seen false none ∷ []) engine_after_lem
      (unfold is_finished in refl)
