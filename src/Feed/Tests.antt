-- ===== src/Feed/Tests.antt =====
-- The feeds at concrete rounds and schedules.
use ultra_low_latency_hft_en.Prelude.{
  true, All, ◌↔◌, map, ℕ, ◌+◌, ◌^◌, ◌≡◌, refl, Bool, false, some, none, List, [], ◌∷◌,
}
use ultra_low_latency_hft_en.Prelude.Int.{ℤ, pos, negsuc, ◌+ℤ◌}
use ultra_low_latency_hft_en.Double.Whole.{whole_double}
use ultra_low_latency_hft_en.Text.{codes}
use ultra_low_latency_hft_en.Feed.{pushes}
use ultra_low_latency_hft_en.Feed.Websocket
use ultra_low_latency_hft_en.Feed.Websocket.{
  WebSocketClient, Reading, Draw, live_feed, connect_simulated, run_boost, run_simulated,
}
use ultra_low_latency_hft_en.Feed.Live.{prices}
use ultra_low_latency_hft_en.Feed.Hybrid.{
  Run, joined, turn, mine, other, init, is_finished, is_active, stop,
}
use ultra_low_latency_hft_en.Feed.Threads.{added, hybrid_feed_lem}
use ultra_low_latency_hft_en.Samples.{tick}

abbrev draw : Bool → ℕ → Draw ℤ
draw stopped n = record {
  stopped = stopped;
  move = pos n;
  maker = negsuc 0;
  now = 10 ^ 7 + n;
  raw = tick 0;
}

abbrev draws : List (Draw ℤ)
draws = draw false 1 ∷ draw false 2 ∷ []

-- its prices
simulated_prices :
    prices (pushes (run_simulated draws (connect_simulated Websocket.init)).0)
    ≡ pos 50001 ∷ pos 50003 ∷ []
unfolding run_simulated prices pushes ◌+ℤ◌
simulated_prices = refl

abbrev readings : List Reading
readings =
    record { stopped = false; message = some (codes "{}") }
    ∷ record { stopped = false; message = none }
    ∷ []

abbrev threads : List (List ℕ)
threads = (1 ∷ 2 ∷ []) ∷ (7 ∷ []) ∷ []

-- the second thread goes first
all_turns : Run threads (7 ∷ 1 ∷ 2 ∷ [])
all_turns =
    turn _ _ 7 _ (other _ _ _ 7 (mine 7 [] []))
      (turn _ _ 1 _ (mine 1 (2 ∷ []) _) (turn _ _ 2 _ (mine 2 [] _) (joined _ (refl, (refl, tt)))))

hybrid_feed_lem_example :
    let fs = connect_simulated Websocket.init ∷ Websocket.init ∷ [] in
    let h = added fs init in
    ((is_finished live_feed h ≡ true) ↔ All (λ f. live_feed.is_finished f ≡ true) fs)
    × ((is_active live_feed h ≡ false) ↔ All (λ f. live_feed.is_active f ≡ false) fs)
    × ((stop live_feed h).feeds ≡ map live_feed.stop fs)
hybrid_feed_lem_example =
    hybrid_feed_lem live_feed (connect_simulated Websocket.init ∷ Websocket.init ∷ [])
