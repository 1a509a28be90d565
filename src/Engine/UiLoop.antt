-- ===== src/Engine/UiLoop.antt =====
-- `main.cpp`: the loop of the main thread, which shows the state, and its end. A round sees the state
-- that the other threads have brought about; `running` and what the loop itself keeps are its state.
use ultra_low_latency_hft_en.Prelude.{
  ℕ, ◌+◌, ◌-◌, ◌/◌, ◌%◌, ◌^◌, Bool, true, false, not, ◌&&◌, Option, List, [], ◌∷◌, ◌++◌, ◌==◌, ltb,
  leb, if◌then◌else◌,
}
use ultra_low_latency_hft_en.Double.{Double, whole, ◌⊗◌}
use ultra_low_latency_hft_en.OrderBook.{OrderBook}
use ultra_low_latency_hft_en.Pnl
use ultra_low_latency_hft_en.Pnl.{PnlEngine}
use ultra_low_latency_hft_en.Ui
use ultra_low_latency_hft_en.Ui.{TerminalUi, Dashboard, Print}
use ultra_low_latency_hft_en.Engine.Arguments.{Mode, live, replay, hybrid}

-- The locals of `main` that its loop writes. The clock is in nanoseconds and never goes back.
pub record UiLoop : Type 0 where
  pub running : Bool
  pub ui : TerminalUi
  pub ui_counter : ℕ
  pub last_pushed : ℕ
  pub last_telemetry_time : ℕ

-- What a round finds: whether the feed is finished, the clock, the count of pushes, the values that it
-- reads of the components (`events_per_sec` excepted), and the key pressed.
pub record Seen {ℓ} (W : Type ℓ) : Type ℓ where
  pub is_finished : Bool
  pub now : ℕ
  pub total_pushed : ℕ
  pub order_book : OrderBook W
  pub values : Dashboard W
  pub key : Option ℕ

-- before the loop
abbrev pub started : ℕ → UiLoop
started now = record {
  running = true;
  ui = Ui.init;
  ui_counter = 0;
  last_pushed = 0;
  last_telemetry_time = now;
}

abbrev pub is_replay : Mode → Bool
is_replay replay = true
is_replay live = false
is_replay hybrid = false

-- the test of the `while`
abbrev pub goes_on : UiLoop → Bool
goes_on l = not l.ui.should_close && l.running

-- the whole seconds since the telemetry was last renewed
abbrev pub seconds_since : ℕ → UiLoop → ℕ
seconds_since now l = (now - l.last_telemetry_time) / 10 ^ 9

unfoldable pub events_per_sec : ℕ → ℕ → UiLoop → ℕ
events_per_sec now pushed l =
    let duration = seconds_since now l in
    if ltb 0 duration then (pushed + 2 ^ 64 - l.last_pushed) % 2 ^ 64 / duration else 0

module _ {ℓ} {W : Type ℓ} ⦃d : Double W⦄ (ncurses : Bool) (mode : Mode) where
  -- the body of the loop up to the `break`, and behind it
  unfoldable pub show_round : Seen W → UiLoop → List (Print W) × UiLoop
  unfolding events_per_sec Ui.update
  show_round seen l =
      let rate = events_per_sec seen.now seen.total_pushed l in
      let drawn =
        if l.ui_counter % 2 == 0
        then Ui.update ncurses seen.order_book (record seen.values { events_per_sec = rate })
            seen.key l.ui
        else ([], l.ui) in
      let renew = leb 1 (seconds_since seen.now l) in
      (
        drawn.0,
        record l {
          ui = drawn.1;
          ui_counter = l.ui_counter + 1;
          last_pushed = if renew then seen.total_pushed else l.last_pushed;
          last_telemetry_time = if renew then seen.now else l.last_telemetry_time;
        },
      )

  unfoldable pub round : Seen W → UiLoop → List (Print W) × UiLoop
  unfolding show_round
  round seen l =
      if is_replay mode && seen.is_finished
      then ([], record l { running = false })
      else show_round seen l

  -- The loop over its first rounds: what it has shown, and its state, which is the one behind the loop
  -- where `goes_on` is false.
  unfoldable pub rounds : List (Seen W) → UiLoop → List (Print W) × UiLoop
  unfolding round
  rounds [] l = ([], l)
  rounds (seen ∷ later) l = elim (goes_on l) [
    | false ↦ ([], l)
    | true ↦ let next = round seen l in let rest = rounds later next.1 in (next.0 ++ rest.0, rest.1)
  ]

-- The numbers of the final summary.
pub record BacktestMetrics {ℓ} (W : Type ℓ) : Type ℓ where
  pub total_pnl : W
  pub trade_count : ℕ
  pub win_rate : W
  pub max_drawdown : W
  pub sharp_ratio : W

module _ {ℓ} {W : Type ℓ} ⦃d : Double W⦄ where
  unfoldable pub summary : PnlEngine W → BacktestMetrics W
  unfolding Pnl.get_total_pnl Pnl.get_total_trades Pnl.get_win_rate
  summary e = record {
    total_pnl = Pnl.get_total_pnl e;
    trade_count = Pnl.get_total_trades e;
    win_rate = Pnl.get_win_rate e ⊗ whole 100;
    max_drawdown = e.max_drawdown;
    sharp_ratio = whole 0;
  }
