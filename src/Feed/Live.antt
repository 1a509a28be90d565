-- ===== src/Feed/Live.antt =====
-- What the live feed pushes, with Boost and without.
use ultra_low_latency_hft_en.Prelude.{
  ℕ, ◌+◌, ◌%◌, ◌^◌, ◌≡◌, refl, true, false, none, List, [], ◌∷◌, All, arith, ◌↔◌, ◌≢◌,
}
use ultra_low_latency_hft_en.Double.{Double, ◌⊕◌}
use ultra_low_latency_hft_en.Text.{codes, c_str}
use ultra_low_latency_hft_en.Core.Events.{Event, MarketDataEvent, Payload}
use ultra_low_latency_hft_en.Feed.{pushes, feed_event}
use ultra_low_latency_hft_en.Feed.Websocket.{WebSocketClient, Reading, run_boost}

-- The prices of a walk: each the one before it and a move.
unfoldable pub walk {ℓ} : {W : Type ℓ} ⦃d : Double W⦄ → W → List W → List W
walk price [] = []
walk price (move ∷ moves) = (price ⊕ move) ∷ walk (price ⊕ move) moves

module _ {ℓ} {W : Type ℓ} where
  price_of : Payload W → List W → List W
  price_of (Payload.market_data md) rest = md.price ∷ rest
  price_of _ rest = rest

  -- the prices of the events that carry a trade
  unfoldable pub prices : List (Event W) → List W
  unfolding price_of
  prices [] = []
  prices (event ∷ events) = price_of event.payload (prices events)

  -- The event of a trade in BTCUSDT, received a millisecond after its time at the exchange.
  pub record IsSimulated (event : Event W) : Type ℓ where
    pub md : MarketDataEvent W
    pub now : ℕ
    pub fed : event ≡ feed_event md now
    pub symbol : c_str md.symbol ≡ codes "BTCUSDT"
    pub lag : (md.exchange_ts + 10 ^ 6) % 2 ^ 64 ≡ now % 2 ^ 64

-- With Boost the feed pushes no event, whatever it receives. It is still running after the rounds so far
-- exactly when it was running before them, none of them found `stop` called, and each read a message.
run_boost_lem {ℓ} :
    {W : Type ℓ} (rs : List Reading) (c : WebSocketClient)
    → let o = run_boost {W = W} rs c in
      (pushes o.0 ≡ [])
      × ((o.1.running ≡ true) ↔ (
          (c.running ≡ true) × All (λ (r : Reading). (r.stopped ≡ false) × (r.message ≢ none)) rs))
unfolding run_boost pushes
run_boost_lem [] c = (refl, ((λ h. (h, tt)), (λ h. h.0)))
run_boost_lem {W} (r ∷ rs) c =
    ground
      (arith, run_boost_lem {W = W} rs c, run_boost_lem {W = W} rs (record c { running = false }))
