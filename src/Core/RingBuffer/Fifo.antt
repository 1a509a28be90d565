-- ===== src/Core/RingBuffer/Fifo.antt =====
-- What a ring buffer promises: a queue, oldest first, of at most `limit` elements.
use ultra_low_latency_hft_en.Prelude.{
  ℕ, Bool, true, false, Option, none, some, List, [], ◌∷◌, ◌++◌, length, ltb, if◌then◌else◌,
}

-- A client's call, and what it returns.
pub data Call {ℓ} (T : Type ℓ) : Type ℓ where
  push : T → Call T
  pop : Call T
  size : Call T

pub data Reply {ℓ} (T : Type ℓ) : Type ℓ where
  pushed : Bool → Reply T
  popped : Option T → Reply T
  sized : ℕ → Reply T

module _ {ℓ} {T : Type ℓ} where
  unfoldable pub dequeue : List T → Option T × List T
  dequeue [] = (none, [])
  dequeue (x ∷ q) = (some x, q)

  module _ (limit : ℕ) where
    unfoldable pub enqueue : T → List T → Bool × List T
    enqueue x q = if ltb (length q) limit then (true, q ++ x ∷ []) else (false, q)

    unfoldable pub run : List (Call T) → List T → List (Reply T)
    run [] q = []
    run (push x ∷ cs) q = let (b, q') = enqueue x q in pushed b ∷ run cs q'
    run (pop ∷ cs) q = let (o, q') = dequeue q in popped o ∷ run cs q'
    run (size ∷ cs) q = sized (length q) ∷ run cs q
