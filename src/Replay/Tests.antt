-- ===== src/Replay/Tests.antt =====
-- A recorded file and its replay, over whole numbers.
use ultra_low_latency_hft_en.Prelude.{
  ℕ, ◌+◌, ◌≡◌, refl, true, false, some, none, List, [], ◌∷◌, ◌++◌, arith, ◌<◌, ◌^◌, ltb, take,
}
use ultra_low_latency_hft_en.Prelude.Int.{ℤ, pos, negsuc, ◌/ℤ◌}
use ultra_low_latency_hft_en.Double.Whole.{whole_double}
use ultra_low_latency_hft_en.Core.Events.{MarketDataEvent}
use ultra_low_latency_hft_en.Text.{
  Spelling, Text, codes, c_str, getlines, show_unsigned, show_signed, stod, strncpy, to_integer,
}
use ultra_low_latency_hft_en.Text.Numbers.{has}
use ultra_low_latency_hft_en.Feed.{wait, push, pushes, feed_event}
use ultra_low_latency_hft_en.Replay.{Moment, open_file, run}
use ultra_low_latency_hft_en.Replay.Pushes.{IsBounded, run-IsBounded, lines_left}
use ultra_low_latency_hft_en.Replay.Recorder.{record_trade, open_append, record_all}
use ultra_low_latency_hft_en.Replay.RoundTrip.{IsRecordable, IsExact, fed, run-record_all}
use ultra_low_latency_hft_en.Replay.Stops.{without_file, run_stopped}
use ultra_low_latency_hft_en.Samples.{tick}

abbrev show : ℤ → Text
show (pos n) = show_unsigned n
show (negsuc n) = b'-' ∷ show_unsigned (n + 1)

-- the spellings of whole numbers
abbrev spelling : Spelling ℤ
spelling = record { special = λ s. none; in_range = λ x. true; show = show }

abbrev env : ℕ → Moment ℤ
env i = record { stopped = false; raw = tick 7; now = 1000 + i }

abbrev trade : ℕ → ℕ → MarketDataEvent ℤ
trade price ts = record {
  symbol = codes "BTCUSDT" ++ codes "\0\0\0\0\0\0\0\0\0";
  price = pos price;
  quantity = pos 2;
  exchange_ts = ts;
  is_buyer_maker = true;
}

abbrev trades : List (MarketDataEvent ℤ)
trades = trade 50000 1000 ∷ trade 50010 51000 ∷ []

-- the file of the recorder
recorded_text :
    (record_all spelling trades (open_append (some []))).file
    ≡ some (codes "BTCUSDT,50000,2,1000,1\nBTCUSDT,50010,2,51000,1\n")
unfolding record_all record_trade c_str show_unsigned show_signed
recorded_text = refl

-- A replay of it at speed 1 waits between the two, as the times say.
replayed :
    (run spelling env (
      open_file (some (codes "BTCUSDT,50000,2,1000,1\nBTCUSDT,50010,2,51000,1\n")) (pos 1))).actions
    ≡ push (feed_event (trade 50000 1000) 1000)
      ∷ wait 50000
      ∷ push (feed_event (trade 50010 51000) 1001)
      ∷ []
unfolding run open_file getlines stod strncpy to_integer ◌/ℤ◌
replayed = refl

dear-IsExact : IsExact spelling (pos 50000)
unfolding stod show_unsigned has
dear-IsExact = record { reads = refl; no_comma = refl; no_break = refl }

dearer-IsExact : IsExact spelling (pos 50010)
unfolding stod show_unsigned has
dearer-IsExact = record { reads = refl; no_comma = refl; no_break = refl }

two-IsExact : IsExact spelling (pos 2)
unfolding stod show_unsigned has
two-IsExact = record { reads = refl; no_comma = refl; no_break = refl }

trade-IsRecordable :
    (price ts : ℕ)
    → ts < 2 ^ 64
    → IsExact spelling (pos price)
    → IsRecordable spelling (trade price ts)
unfolding strncpy c_str has
trade-IsRecordable price ts h exact = record {
  symbol = refl;
  no_comma = refl;
  no_break = refl;
  price = exact;
  quantity = two-IsExact;
  exchange_ts = h;
}

run-record_all_example :
    (pushes
        (run spelling env
          (open_file (record_all spelling trades (open_append (some []))).file (pos 1))).actions
      ≡ fed env trades)
    × ((run spelling env
          (open_file (record_all spelling trades (open_append (some []))).file (pos 1))).engine
        ≡ some (record { speed = pos 1; running = false; finished = true; file = some [] }))
run-record_all_example =
    run-record_all spelling env (pos 1) trades (λ i. refl)
      (
        trade-IsRecordable 50000 1000 (omega arith) dear-IsExact,
        (trade-IsRecordable 50010 51000 (omega arith) dearer-IsExact, tt),
      )

run-IsBounded_example :
    IsBounded
      (lines_left (open_file (some (codes "BTCUSDT,50000\n\n")) (pos 1)))
      (run spelling env (open_file (some (codes "BTCUSDT,50000\n\n")) (pos 1)))
run-IsBounded_example =
    run-IsBounded spelling env (open_file (some (codes "BTCUSDT,50000\n\n")) (pos 1))

-- the same with `stop` called behind the first line
abbrev cut_short : ℕ → Moment ℤ
cut_short i = record { stopped = ltb 0 i; raw = tick 7; now = 1000 + i }

abbrev two_lines : List Text
two_lines = codes "BTCUSDT,50000,2,1000,1" ∷ codes "BTCUSDT,50010,2,51000,1" ∷ []

run_stopped_example :
    let e = open_file none (pos 1) in
    without_file (run spelling cut_short (record e { file = some two_lines }))
    ≡ without_file (run spelling cut_short (record e { file = some (take 1 two_lines) }))
run_stopped_example = run_stopped spelling cut_short (open_file none (pos 1)) 1 two_lines refl
