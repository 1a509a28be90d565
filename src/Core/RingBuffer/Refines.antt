-- ===== src/Core/RingBuffer/Refines.antt =====
-- The ring buffer implements the bounded queue, one slot of the storage staying free.
use native.Mathlib.Nat.{mod-eq_of_lt, mod-eq-sub-mod}
use ultra_low_latency_hft_en.Prelude.{
  ℕ, suc, ◌+◌, ◌-◌, ◌^◌, ◌<◌, ◌≡◌, ◌≢◌, ◌↔◌, refl, sym, ◌∙◌, ap, ap₂, true, false, some, List, [],
  ◌∷◌, ◌++◌, inl, inr, Bool-cases, length, ltb, leb, ◌==◌, if◌then◌else◌, arith, length-set,
  get_elem?, set, length-replicate, get_elem?-set_self, get_elem?-set_ne,
}
use ultra_low_latency_hft_en.Core.RingBuffer.{RingBuffer, init, next, push, pop, size_of}
use ultra_low_latency_hft_en.Core.RingBuffer.Fifo
use ultra_low_latency_hft_en.Core.RingBuffer.Fifo.{Call, Reply}

next_lem :
    (size i : ℕ) → i < size → size < 2 ^ 64 → next size i ≡ (if (i + 1) == size then 0 else i + 1)
unfolding next
next_lem size i h b = grind (arith, mod-eq_of_lt, mod-eq-sub-mod)

-- Reading slot after slot from `t` on, and going round, gives `q` and ends at `h`.
pub data Holds {ℓ} {T : Type ℓ} (size : ℕ) (buffer : List T) (h : ℕ) : ℕ → List T → Type ℓ where
  nothing : {t : ℕ} → t ≡ h → Holds size buffer h t []
  slot :
      {t : ℕ} {x : T} {q : List T}
      → t ≢ h
      → get_elem? buffer t ≡ some x
      → Holds size buffer h (next size t) q
      → Holds size buffer h t (x ∷ q)

-- The ring `r` of `size` slots stores the queue `q`.
pub record Represents {ℓ} {T : Type ℓ} (size : ℕ) (r : RingBuffer T) (q : List T) : Type ℓ where
  pub small : size < 2 ^ 64
  pub slots : length r.buffer ≡ size
  pub head_in : r.head < size
  pub tail_in : r.tail < size
  pub held : Holds size r.buffer r.head r.tail q

-- the number of slots from `t` up to `h`
abbrev pub distance : ℕ → ℕ → ℕ → ℕ
distance size h t = if leb t h then h - t else size - (t - h)

module _ (size : ℕ) (small : size < 2 ^ 64) where
  pub next_lt : (i : ℕ) → i < size → next size i < size
  next_lt i h = ground (arith, next_lem size i)

  pub next_injective : (i j : ℕ) → i < size → j < size → next size i ≡ next size j → i ≡ j
  next_injective i j h k e = ground (arith, next_lem size i, next_lem size j)

  pub distance-next :
      (h t : ℕ)
      → h < size
      → t < size
      → t ≢ h
      → distance size h t ≡ suc (distance size h (next size t))
  distance-next h t hs ts ne = ground (arith, next_lem size t)

  -- Only with one slot left is the next head the tail.
  pub distance_full :
      (h t : ℕ) → h < size → t < size → (next size h ≡ t) ↔ (suc (distance size h t) ≡ size)
  distance_full h t hs ts = ground (arith, next_lem size h)

module _ {ℓ} {T : Type ℓ} (size : ℕ) (small : size < 2 ^ 64) where
  pub Holds-length :
      (buffer : List T) (h t : ℕ) (q : List T)
      → h < size
      → t < size
      → Holds size buffer h t q
      → length q ≡ distance size h t
  Holds-length buffer h t [] hs ts (nothing e) = ground arith
  Holds-length buffer h t (x ∷ q) hs ts (slot ne g r) = omega (
    arith,
    distance-next size small h t hs ts ne,
    Holds-length buffer h (next size t) q hs (next_lt size small t ts) r,
  )

  pub Holds-set :
      (buffer : List T) (h t : ℕ) (x : T) (q : List T)
      → length buffer ≡ size
      → h < size
      → t < size
      → next size h ≢ t
      → Holds size buffer h t q
      → Holds size (set buffer h x) (next size h) t (q ++ x ∷ [])
  Holds-set buffer h t x [] len hs ts free (nothing e) =
      slot (λ k. free (sym k)) (rw e (get_elem?-set_self buffer h x (omega arith)))
        (nothing (ap (next size) e))
  Holds-set buffer h t x (y ∷ q) len hs ts free (slot ne g r) =
      slot (λ k. free (sym k)) (get_elem?-set_ne buffer h t x (λ k. ne (sym k)) ∙ g)
        (Holds-set buffer h (next size t) x q len hs (next_lt size small t ts)
          (λ k. ne (sym (next_injective size small h t hs ts k))) r)

module _ {ℓ} {T : Type ℓ} (size : ℕ) where
  -- The storage is as long as the template argument says, and empty.
  pub init-Represents :
      (blank : T) → 0 < size → size < 2 ^ 64 → Represents size (init size blank) []
  unfolding init
  init-Represents blank h small = record {
    small = small;
    slots = length-replicate size blank;
    head_in = h;
    tail_in = h;
    held = nothing refl;
  }

  -- `push` returns what offering to a queue of `size - 1` elements returns, and stores its result.
  pub push_refines :
      (x : T) (r : RingBuffer T) (q : List T)
      → Represents size r q
      → ((push size x r).0 ≡ (Fifo.enqueue (size - 1) x q).0)
        × Represents size (push size x r).1 (Fifo.enqueue (size - 1) x q).1
  unfolding push Fifo.enqueue
  push_refines x r q v =
      let count = Holds-length size v.small r.buffer r.head r.tail q v.head_in v.tail_in v.held in
      let full = distance_full size v.small r.head r.tail v.head_in v.tail_in in
      elim (Bool-cases (next size r.head == r.tail)) [
        | inl e ↦
            let no_room : ltb (length q) (size - 1) ≡ false = ground arith in
            rw (e, no_room) (refl, v)
        | inr e ↦
            let room : ltb (length q) (size - 1) ≡ true = ground arith in
            rw (e, room)
              (
                refl,
                record {
                  small = v.small;
                  slots = length-set r.buffer r.head x ∙ v.slots;
                  head_in = next_lt size v.small r.head v.head_in;
                  tail_in = v.tail_in;
                  held =
                      Holds-set size v.small r.buffer r.head r.tail x q v.slots v.head_in v.tail_in
                        (ground arith) v.held;
                },
              )
      ]

  -- `pop` returns the oldest element, or `nullopt` from the empty queue, and stores the rest.
  pub pop_refines :
      (r : RingBuffer T) (q : List T)
      → Represents size r q
      → ((pop size r).0 ≡ (Fifo.dequeue q).0) × Represents size (pop size r).1 (Fifo.dequeue q).1
  unfolding pop Fifo.dequeue
  pop_refines r q v = go q v v.held
    where
      go :
          (q : List T)
          → Represents size r q
          → Holds size r.buffer r.head r.tail q
          → ((pop size r).0 ≡ (Fifo.dequeue q).0)
            × Represents size (pop size r).1 (Fifo.dequeue q).1
      go [] v (nothing e) = let same : (r.tail == r.head) ≡ true = ground arith in rw same (refl, v)
      go (x ∷ q) v (slot ne g rest) =
          let other : (r.tail == r.head) ≡ false = ground arith in
          rw other (
            g,
            record {
              small = v.small;
              slots = v.slots;
              head_in = v.head_in;
              tail_in = next_lt size v.small r.tail v.tail_in;
              held = rest;
            },
          )

  -- Of an empty queue `pop` changes nothing.
  pub pop_of_empty : (r : RingBuffer T) → Represents size r [] → (pop size r).1 ≡ r
  unfolding pop
  pop_of_empty r v = go v.held
    where
      go : Holds size r.buffer r.head r.tail [] → (pop size r).1 ≡ r
      go (nothing e) = let same : (r.tail == r.head) ≡ true = ground arith in rw same refl

  -- `size` is the number of elements.
  pub size_refines :
      (r : RingBuffer T) (q : List T) → Represents size r q → size_of size r ≡ length q
  unfolding size_of
  size_refines r q v =
      sym (Holds-length size v.small r.buffer r.head r.tail q v.head_in v.tail_in v.held)

  -- a client's calls, in order
  unfoldable pub run : List (Call T) → RingBuffer T → List (Reply T)
  unfolding push pop size_of
  run [] r = []
  run (Call.push x ∷ cs) r = let (b, r') = push size x r in Reply.pushed b ∷ run cs r'
  run (Call.pop ∷ cs) r = let (o, r') = pop size r in Reply.popped o ∷ run cs r'
  run (Call.size ∷ cs) r = Reply.sized (size_of size r) ∷ run cs r

  -- Whatever `push`, `pop` and `size` calls are made of a ring buffer that represents a queue, the
  -- replies are those of that queue when it is bounded to `size - 1` elements.
  pub run_refines :
      (cs : List (Call T)) (r : RingBuffer T) (q : List T)
      → Represents size r q
      → run cs r ≡ Fifo.run (size - 1) cs q
  unfolding run Fifo.run
  run_refines [] r q v = refl
  run_refines (Call.push x ∷ cs) r q v =
      let (b, v') = push_refines x r q v in ap₂ ◌∷◌ (ap Reply.pushed b) (run_refines cs _ _ v')
  run_refines (Call.pop ∷ cs) r q v =
      let (o, v') = pop_refines r q v in ap₂ ◌∷◌ (ap Reply.popped o) (run_refines cs _ _ v')
  run_refines (Call.size ∷ cs) r q v =
      ap₂ ◌∷◌ (ap Reply.sized (size_refines r q v)) (run_refines cs r q v)
