-- ===== src/Engine/Tokens.antt =====
-- Where the end of an order may still come from: its request, the validated order, the order that rests
-- in the exchange, a request to cancel it, and the report that ends it. Each component passes such a token
-- on, or drops it.
use ultra_low_latency_hft_en.Prelude.{
  ℕ, ◌+◌, ◌≤◌, ◌≡◌, sym, ◌∙◌, ap, subst, some-injective, Bool, true, false, ◌&&◌, some, List, [],
  ◌∷◌, ◌++◌, length, ltb, leb, ◌==◌, if◌then◌else◌, arith,
}
use ultra_low_latency_hft_en.Core.Events.{EventType, Event, OrderRequest, Payload}
use ultra_low_latency_hft_en.Core.EventQueue
use ultra_low_latency_hft_en.Core.EventQueue.{EventQueue, Carries, capacity, push_lem, pop_lem}
use ultra_low_latency_hft_en.Core.RingBuffer.Fifo
use ultra_low_latency_hft_en.Oms.{is_terminal}

abbrev pub one_if : Bool → ℕ
one_if b = if b then 1 else 0

-- the order id is one that the momentum strategy has given out
abbrev pub issued : ℕ → ℕ → ℕ
issued id next = one_if (leb 2_000_000 id && ltb id next)

module _ {ℓ} {W : Type ℓ} where
  -- a report that the order `id` is filled, cancelled or rejected
  unfoldable pub end_token : ℕ → Payload W → ℕ
  end_token id (Payload.execution_report r) = one_if (is_terminal r.status && (r.order_id == id))
  end_token id _ = 0

  unfoldable pub token : ℕ → Payload W → ℕ
  token id (Payload.order_request r) = one_if (r.order_id == id)
  token id (Payload.execution_report r) = one_if (is_terminal r.status && (r.order_id == id))
  token id (Payload.cancel_order c) = one_if (c.order_id == id)
  token id (Payload.market_data md) = 0

  -- the same behind the order manager
  unfoldable pub late_token : ℕ → EventType → Payload W → ℕ
  unfolding token
  late_token id EventType.order_request p = 0
  late_token id _ p = token id p

  abbrev pub token_of : ℕ → Event W → ℕ
  token_of id e = token id e.payload

  abbrev pub late_token_of : ℕ → Event W → ℕ
  late_token_of id e = late_token id e.type e.payload

  unfoldable pub tokens : (Event W → ℕ) → List (Event W) → ℕ
  tokens t [] = 0
  tokens t (e ∷ es) = t e + tokens t es

  unfoldable pub resting : ℕ → List (OrderRequest W) → ℕ
  resting id [] = 0
  resting id (order ∷ orders) = one_if (order.order_id == id) + resting id orders

  pub end_token-le-token : (id : ℕ) (p : Payload W) → end_token id p ≤ token id p
  unfolding end_token token
  end_token-le-token id (Payload.order_request r) = omega arith
  end_token-le-token id (Payload.execution_report r) = omega arith
  end_token-le-token id (Payload.market_data md) = omega arith
  end_token-le-token id (Payload.cancel_order c) = omega arith

  late_token-le-token :
      (id : ℕ) (type : EventType) (p : Payload W) → late_token id type p ≤ token id p
  unfolding late_token
  late_token-le-token id EventType.order_request p = omega arith
  late_token-le-token id EventType.market_data p = omega arith
  late_token-le-token id EventType.validated_order p = omega arith
  late_token-le-token id EventType.order_response p = omega arith
  late_token-le-token id EventType.execution_report p = omega arith
  late_token-le-token id EventType.risk_check p = omega arith
  late_token-le-token id EventType.pnl_update p = omega arith
  late_token-le-token id EventType.cancel_order p = omega arith

  pub late_tokens-le-tokens :
      (id : ℕ) (es : List (Event W)) → tokens (late_token_of id) es ≤ tokens (token_of id) es
  unfolding tokens
  late_tokens-le-tokens id [] = omega arith
  late_tokens-le-tokens id (e ∷ es) =
      omega (arith, late_tokens-le-tokens id es, late_token-le-token id e.type e.payload)

  pub tokens-append :
      (t : Event W → ℕ) (es fs : List (Event W)) → tokens t (es ++ fs) ≡ tokens t es + tokens t fs
  unfolding tokens
  tokens-append t [] fs = omega arith
  tokens-append t (e ∷ es) fs = omega (arith, tokens-append t es fs)

  pub resting-append :
      (id : ℕ) (xs ys : List (OrderRequest W))
      → resting id (xs ++ ys) ≡ resting id xs + resting id ys
  unfolding resting
  resting-append id [] ys = omega arith
  resting-append id (x ∷ xs) ys = omega (arith, resting-append id xs ys)

  -- The queue carries no more than these events and those, each counted by any measure.
  abbrev pub HasAtMost : (added events : List (Event W)) → EventQueue W → Type ℓ
  HasAtMost added events q =
      (carried : List (Event W)) × Carries q carried
      × ((t : Event W → ℕ) → tokens t carried ≤ tokens t added + tokens t events)

  pub push-HasAtMost :
      (e : Event W) (q : EventQueue W) (events : List (Event W))
      → Carries q events
      → HasAtMost (e ∷ []) events (EventQueue.push e q).1
  unfolding tokens
  push-HasAtMost e q events c = (
    (if ltb (length events) capacity then events ++ e ∷ [] else events),
    (push_lem e q events c).1,
    λ t. bounded t (ltb (length events) capacity),
  )
    where
      bounded :
          (t : Event W → ℕ) (b : Bool)
          → tokens t (if b then events ++ e ∷ [] else events) ≤ t e + 0 + tokens t events
      bounded t true = omega (arith, tokens-append t events (e ∷ []))
      bounded t false = omega arith

  pub same-HasAtMost :
      (q : EventQueue W) (events : List (Event W)) → Carries q events → HasAtMost [] events q
  unfolding tokens
  same-HasAtMost q events c = (events, c, λ t. omega arith)

  pub push_all-HasAtMost :
      (es : List (Event W)) (q : EventQueue W) (events : List (Event W))
      → Carries q events
      → HasAtMost es events (EventQueue.push_all es q)
  unfolding EventQueue.push_all tokens
  push_all-HasAtMost [] q events c = (events, c, λ t. omega arith)
  push_all-HasAtMost (e ∷ es) q events c =
      let (first, c', h) = push-HasAtMost e q events c in
      let (all, c'', k) = push_all-HasAtMost es (EventQueue.push e q).1 first c' in
      (all, c'', λ t. omega (arith, h t, k t))

  pub pop_tokens :
      (event : Event W) (q q' : EventQueue W) (events : List (Event W))
      → EventQueue.pop q ≡ (some event, q')
      → Carries q events
      → (rest : List (Event W)) × Carries q' rest × (events ≡ event ∷ rest)
  unfolding Fifo.dequeue
  pop_tokens event q q' [] e c =
      let (popped, _, _) = pop_lem q [] c in let first = sym popped ∙ ap (λ r. r.0) e in cc
  pop_tokens event q q' (x ∷ rest) e c =
      let (popped, c', _) = pop_lem q (x ∷ rest) c in
      (
        rest,
        subst (λ r. Carries r rest) (ap (λ r. r.1) e) c',
        ap (λ y. y ∷ rest) (some-injective _ _ (sym popped ∙ ap (λ r. r.0) e)),
      )
