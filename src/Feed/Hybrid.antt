-- ===== src/Feed/Hybrid.antt =====
-- `feed/hybrid_feed.hpp`: several feeds as one. The feeds are the values of any type with the operations
-- of `IMarketFeed`; `run` starts a thread for each and waits until all have ended.
use ultra_low_latency_hft_en.Prelude.{
  ◌≡◌, Bool, true, false, ◌&&◌, ◌||◌, List, [], ◌∷◌, ◌++◌, map, All,
}
use ultra_low_latency_hft_en.Feed.{MarketFeed}

pub record HybridFeed {ℓ} (F : Type ℓ) : Type ℓ where
  pub feeds : List F
  pub running : Bool

module _ {ℓ} {F : Type ℓ} where
  abbrev pub init : HybridFeed F
  init = record { feeds = []; running = false }

  unfoldable pub add_feed : F → HybridFeed F → HybridFeed F
  add_feed feed h = record h { feeds = h.feeds ++ feed ∷ [] }

  -- `run` up to the start of its threads
  unfoldable pub start : HybridFeed F → HybridFeed F
  start h = record h { running = true }

module _ {ℓ} {F : Type ℓ} (ops : MarketFeed F) where
  unfoldable pub stop : HybridFeed F → HybridFeed F
  stop h = record { feeds = map ops.stop h.feeds; running = false }

  unfoldable pub any_active : List F → Bool
  any_active [] = false
  any_active (feed ∷ feeds) = ops.is_active feed || any_active feeds

  unfoldable pub is_active : HybridFeed F → Bool
  unfolding any_active
  is_active h = any_active h.feeds

  unfoldable pub all_finished : List F → Bool
  all_finished [] = true
  all_finished (feed ∷ feeds) = ops.is_finished feed && all_finished feeds

  unfoldable pub is_finished : HybridFeed F → Bool
  unfolding all_finished
  is_finished h = all_finished h.feeds

  -- `HybridFeed` as a feed
  abbrev pub hybrid_feed : MarketFeed (HybridFeed F)
  hybrid_feed = record { stop = stop; is_active = is_active; is_finished = is_finished }

-- The threads of `run`, each with the actions that its feed still takes until its own `run` returns, which the
-- live feed does only when it is stopped: one of them takes its next step, and `run` returns when all have
-- ended.
pub data Turn {ℓ} {A : Type ℓ} : List (List A) → A → List (List A) → Type ℓ where
  mine : (a : A) (t : List A) (ts : List (List A)) → Turn ((a ∷ t) ∷ ts) a (t ∷ ts)
  other : (t : List A) (ts us : List (List A)) (a : A) → Turn ts a us → Turn (t ∷ ts) a (t ∷ us)

pub data Run {ℓ} {A : Type ℓ} : List (List A) → List A → Type ℓ where
  joined : (ts : List (List A)) → All (λ t. t ≡ []) ts → Run ts []
  turn :
      (ts us : List (List A)) (a : A) (done : List A)
      → Turn ts a us
      → Run us done
      → Run ts (a ∷ done)
