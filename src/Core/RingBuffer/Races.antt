-- ===== src/Core/RingBuffer/Races.antt =====
-- What a producer and a consumer in a call know of the buffer, and that a step of the producer
-- keeps it.
use ultra_low_latency_hft_en.Prelude.{
  ℕ, ◌^◌, ◌<◌, ◌≡◌, ◌≢◌, refl, sym, ◌∙◌, ap, Bool, Option, some, List, [], ◌∷◌, ◌++◌, inl, inr,
  Bool-cases, length, ◌==◌, arith, length-set, append-nil, get_elem?, set, get_elem?-set_self,
  get_elem?-set_ne,
}
use ultra_low_latency_hft_en.Core.RingBuffer.{RingBuffer, next}
use ultra_low_latency_hft_en.Core.RingBuffer.Refines.{
  Holds, nothing, slot, Represents, next_lt, next_injective,
}
use ultra_low_latency_hft_en.Core.RingBuffer.Threads.{PushCall, PopCall, push_step, sends}

-- What a producer knows of the buffer where its call stands.
pub data PushKnows {ℓ} {T : Type ℓ} (size : ℕ) (r : RingBuffer T) : PushCall T → Type ℓ where
  called : {x : T} → PushKnows size r (PushCall.called x)
  loaded : {x : T} {h : ℕ} → h ≡ r.head → PushKnows size r (PushCall.loaded x h)
  storing :
      {x : T} {h : ℕ} → h ≡ r.head → next size h ≢ r.tail → PushKnows size r (PushCall.storing x h)
  publishing :
      {x : T} {h : ℕ}
      → h ≡ r.head
      → next size h ≢ r.tail
      → get_elem? r.buffer h ≡ some x
      → PushKnows size r (PushCall.publishing x h)
  pushed : {b : Bool} → PushKnows size r (PushCall.pushed b)

-- What a consumer knows of it.
pub data PopKnows {ℓ} {T : Type ℓ} (r : RingBuffer T) : PopCall T → Type ℓ where
  called : PopKnows r PopCall.called
  loaded : {t : ℕ} → t ≡ r.tail → PopKnows r (PopCall.loaded t)
  reading : {t : ℕ} → t ≡ r.tail → t ≢ r.head → PopKnows r (PopCall.reading t)
  releasing :
      {t : ℕ} {o : Option T}
      → t ≡ r.tail
      → t ≢ r.head
      → get_elem? r.buffer t ≡ o
      → PopKnows r (PopCall.releasing t o)
  popped : {o : Option T} → PopKnows r (PopCall.popped o)

module _ {ℓ} {T : Type ℓ} (size : ℕ) (small : size < 2 ^ 64) where
  pub Holds-write :
      (buffer : List T) (h t : ℕ) (x : T) (q : List T)
      → Holds size buffer h t q
      → Holds size (set buffer h x) h t q
  Holds-write buffer h t x [] (nothing e) = nothing e
  Holds-write buffer h t x (y ∷ q) (slot ne g r) =
      slot ne (get_elem?-set_ne buffer h t x (λ k. ne (sym k)) ∙ g)
        (Holds-write buffer h (next size t) x q r)

  pub Holds-publish :
      (buffer : List T) (h t : ℕ) (x : T) (q : List T)
      → h < size
      → t < size
      → next size h ≢ t
      → get_elem? buffer h ≡ some x
      → Holds size buffer h t q
      → Holds size buffer (next size h) t (q ++ x ∷ [])
  Holds-publish buffer h t x [] hs ts free written (nothing e) =
      slot (λ k. free (sym k)) (rw e written) (nothing (ap (next size) e))
  Holds-publish buffer h t x (y ∷ q) hs ts free written (slot ne g r) =
      slot (λ k. free (sym k)) g
        (Holds-publish buffer h (next size t) x q hs (next_lt size small t ts)
          (λ k. ne (sym (next_injective size small h t hs ts k))) written r)

module _ {ℓ} {T : Type ℓ} (size : ℕ) where
  -- the consumer, while the producer writes the slot at `head`
  PopKnows-write :
      (r : RingBuffer T) (c : PopCall T) (x : T)
      → PopKnows r c
      → PopKnows (record r { buffer = set r.buffer r.head x }) c
  PopKnows-write r PopCall.called x called = called
  PopKnows-write r (PopCall.loaded t) x (loaded e) = loaded e
  PopKnows-write r (PopCall.reading t) x (reading e ne) = reading e ne
  PopKnows-write r (PopCall.releasing t o) x (releasing e ne g) =
      releasing e ne (get_elem?-set_ne r.buffer r.head t x (λ k. ne (sym k)) ∙ g)
  PopKnows-write r (PopCall.popped o) x popped = popped

  -- the consumer, while the producer moves `head` on
  PopKnows-publish :
      (r : RingBuffer T) (c : PopCall T) (h : ℕ)
      → h ≢ r.tail
      → PopKnows r c
      → PopKnows (record r { head = h }) c
  PopKnows-publish r PopCall.called h free called = called
  PopKnows-publish r (PopCall.loaded t) h free (loaded e) = loaded e
  PopKnows-publish r (PopCall.reading t) h free (reading e ne) = reading e (λ k. free (sym k ∙ e))
  PopKnows-publish r (PopCall.releasing t o) h free (releasing e ne g) =
      releasing e (λ k. free (sym k ∙ e)) g
  PopKnows-publish r (PopCall.popped o) h free popped = popped

  -- the producer, while the consumer moves `tail` on
  pub PushKnows-release :
      (r : RingBuffer T) (p : PushCall T)
      → size < 2 ^ 64
      → r.head < size
      → r.tail < size
      → r.tail ≢ r.head
      → PushKnows size r p
      → PushKnows size (record r { tail = next size r.tail }) p
  PushKnows-release r (PushCall.called x) small hs ts ne called = called
  PushKnows-release r (PushCall.loaded x h) small hs ts ne (loaded e) = loaded e
  PushKnows-release r (PushCall.storing x h) small hs ts ne (storing e free) =
      storing e
        (λ k. ne (sym (next_injective size small r.head r.tail hs ts (ap (next size) (sym e) ∙ k))))
  PushKnows-release r (PushCall.publishing x h) small hs ts ne (publishing e free g) =
      publishing e
        (λ k. ne (sym (next_injective size small r.head r.tail hs ts (ap (next size) (sym e) ∙ k))))
        g
  PushKnows-release r (PushCall.pushed b) small hs ts ne pushed = pushed

  -- A step of the producer adds what it sends to the queue, and keeps what both threads know.
  pub push_step_sound :
      (p : PushCall T) (r : RingBuffer T) (c : PopCall T) (q : List T)
      → Represents size r q
      → PushKnows size r p
      → PopKnows r c
      → Represents size (push_step size p r).1 (q ++ sends p)
        × PushKnows size (push_step size p r).1 (push_step size p r).0
        × PopKnows (push_step size p r).1 c
  unfolding push_step sends
  push_step_sound (PushCall.called x) r c q v called m = (rw (append-nil q) v, loaded refl, m)
  push_step_sound (PushCall.loaded x h) r c q v (loaded e) m =
      elim (Bool-cases (next size h == r.tail)) [
        | inl f ↦ rw f (rw (append-nil q) v, pushed, m)
        | inr f ↦ rw f (rw (append-nil q) v, storing e (ground arith), m)
      ]
  push_step_sound (PushCall.storing x h) r c q v (storing e free) m =
      let room : next size r.head ≢ r.tail = λ k. free (ap (next size) e ∙ k) in
      let inside : r.head < length r.buffer = omega (arith, v.slots, v.head_in) in
      rw (e, append-nil q)
        (
          record {
            small = v.small;
            slots = length-set r.buffer r.head x ∙ v.slots;
            head_in = v.head_in;
            tail_in = v.tail_in;
            held = Holds-write size v.small r.buffer r.head r.tail x q v.held;
          },
          publishing refl room (get_elem?-set_self r.buffer r.head x inside),
          PopKnows-write r c x m,
        )
  push_step_sound (PushCall.publishing x h) r c q v (publishing e free g) m =
      let room : next size r.head ≢ r.tail = λ k. free (ap (next size) e ∙ k) in
      let written : get_elem? r.buffer r.head ≡ some x = ap (get_elem? r.buffer) (sym e) ∙ g in
      rw e (
        record {
          small = v.small;
          slots = v.slots;
          head_in = next_lt size v.small r.head v.head_in;
          tail_in = v.tail_in;
          held =
              Holds-publish size v.small r.buffer r.head r.tail x q v.head_in v.tail_in room written
                v.held;
        },
        pushed,
        PopKnows-publish r c (next size r.head) room m,
      )
  push_step_sound (PushCall.pushed b) r c q v pushed m = (rw (append-nil q) v, pushed, m)
