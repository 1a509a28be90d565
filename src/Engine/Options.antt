-- ===== src/Engine/Options.antt =====
-- What the arguments of the program mean, and how long its feeds last.
use ultra_low_latency_hft_en.Prelude.{
  ◌≡◌, refl, ◌∙◌, Bool, true, false, Option, none, some, inl, inr, List, [], ◌∷◌, map, ◌≢◌, ◌⊎◌,
  arith,
}
use ultra_low_latency_hft_en.Double.{Double}
use ultra_low_latency_hft_en.Text.{Text, Spelling, codes, stod}
use ultra_low_latency_hft_en.Feed.Websocket.{WebSocketClient}
use ultra_low_latency_hft_en.Feed.Hybrid
use ultra_low_latency_hft_en.Feed.Hybrid.{HybridFeed}
use ultra_low_latency_hft_en.Engine.Arguments.{
  Mode, live, replay, hybrid, Settings, mode, unknown, word, Source, from_network, from_file, Feeds,
  one, many, is_finished, market_feed, source_feed, source_finished,
}

-- The options as the user means them; `at_speed` has the text of a number, and `ignored` a text that is
-- none of the options.
pub data Choice : Type 0 where
  replay_from : Text → Choice
  go_live : Choice
  go_hybrid : Choice
  at_speed : Text → Choice
  ignored : Text → Choice

unfoldable pub spelled : Choice → List Text → List Text
spelled (replay_from f) args = codes "--replay" ∷ f ∷ args
spelled go_live args = codes "--live" ∷ args
spelled go_hybrid args = codes "--hybrid" ∷ args
spelled (at_speed x) args = codes "--speed" ∷ x ∷ args
spelled (ignored t) args = t ∷ args

-- the command line that spells the choices one after another
unfoldable pub command_line : List Choice → List Text
unfolding spelled
command_line [] = []
command_line (c ∷ cs) = spelled c (command_line cs)

abbrev pub IsProper : Choice → Type 0
IsProper (ignored t) = word t ≡ unknown
IsProper (replay_from f) = Unit
IsProper go_live = Unit
IsProper go_hybrid = Unit
IsProper (at_speed x) = Unit

module _ {ℓ} {W : Type ℓ} ⦃d : Double W⦄ (spelling : Spelling W) where
  -- what a choice sets
  unfoldable pub chosen : Choice → Settings W → Option (Settings W)
  chosen (replay_from f) s = some (record s { mode = replay; data_file = f })
  chosen go_live s = some (record s { mode = live })
  chosen go_hybrid s = some (record s { mode = hybrid })
  chosen (at_speed x) s = elim (stod spelling x) [
    | none ↦ none
    | some y ↦ some (record s { replay_speed = y })
  ]
  chosen (ignored t) s = some s

  unfoldable pub all_chosen : List Choice → Settings W → Option (Settings W)
  unfolding chosen
  all_chosen [] s = some s
  all_chosen (c ∷ cs) s = elim (chosen c s) [ none ↦ none | some t ↦ all_chosen cs t ]

mode_cases : (m : Mode) → m ≢ replay → (m ≡ live) ⊎ (m ≡ hybrid)
mode_cases live h = inl refl
mode_cases hybrid h = inr refl
mode_cases replay h = absurd (h refl)

module _ {ℓ} {W : Type ℓ} where
  abbrev of_network : Source W → Bool
  of_network (from_network c) = true
  of_network (from_file e) = false

  -- which of the feeds are live, in their order: what stays the same while they run
  unfoldable pub kinds : Feeds W → List Bool
  kinds (one s) = of_network s ∷ []
  kinds (many h) = map of_network h.feeds

  first_unfinished :
      (sources : List (Source W)) (rest : List Bool)
      → map of_network sources ≡ true ∷ rest
      → Hybrid.all_finished source_feed sources ≡ false
  unfolding Hybrid.all_finished source_finished
  first_unfinished [] rest h = absurd (ground (arith, h))
  first_unfinished (from_network c ∷ sources) rest h = refl
  first_unfinished (from_file e ∷ sources) rest h = absurd (ground (arith, h))

  network_first : (f : Feeds W) (rest : List Bool) → kinds f ≡ true ∷ rest → is_finished f ≡ false
  unfolding is_finished kinds Hybrid.is_finished
  network_first (one (from_network c)) rest h = refl
  network_first (one (from_file e)) rest h = absurd (ground (arith, h))
  network_first (many h) rest e = first_unfinished h.feeds rest e

  network_made :
      (content : Text → Option Text) (connect : WebSocketClient → WebSocketClient) (s : Settings W)
      → s.mode ≢ replay
      → (rest : List Bool) × (kinds (market_feed content connect s) ≡ true ∷ rest)
  unfolding market_feed kinds
  network_made content connect s h = elim (mode_cases s.mode h) [
    | inl e ↦ ([], rw (e, market_feed) refl)
    | inr e ↦ (false ∷ [], rw (e, market_feed) refl)
  ]

  -- In the modes LIVE and HYBRID the feed that `main` makes is finished in no state of its sources.
  market_feed_unfinished :
      (content : Text → Option Text) (connect : WebSocketClient → WebSocketClient) (s : Settings W)
      (f : Feeds W)
      → s.mode ≢ replay
      → kinds f ≡ kinds (market_feed content connect s)
      → is_finished f ≡ false
  market_feed_unfinished content connect s f other same =
      let (rest, made) = network_made content connect s other in network_first f rest (same ∙ made)
