-- ===== src/Engine/Polling.antt =====
-- The event loop as the code runs it, batch by batch, is one of the ways that `Reaches` describes.
use ultra_low_latency_hft_en.Prelude.{
  ℕ, zero, suc, ◌+◌, ◌*◌, ◌≤◌, length, arith, ◌≡◌, refl, ap, inl, inr, Option, none, some, List, [],
  ◌∷◌, ◌++◌, append-nil, append_assoc, Option-cases,
}
use ultra_low_latency_hft_en.Double.{Double}
use ultra_low_latency_hft_en.Core.Events.{Event, MarketDataEvent}
use ultra_low_latency_hft_en.Core.EventQueue
use ultra_low_latency_hft_en.Core.EventQueue.{EventQueue, Carries, pop_lem}
use ultra_low_latency_hft_en.Core.RingBuffer.Fifo
use ultra_low_latency_hft_en.Core.RingBuffer.Refines.{pop_of_empty}
use ultra_low_latency_hft_en.Engine.{System, Surroundings, pop_batch, handle_all, poll, start}
use ultra_low_latency_hft_en.Engine.FlowPaths.{handled_on}
use ultra_low_latency_hft_en.Engine.Reachable.{
  Loop, here, feed_event, feed, take, handled, Reaches, next, started, started-AreTagged,
  Reaches-AreTagged, handle_total,
}

-- What comes before a round of the loop, and surrounds it: the trades that the feed has pushed, each with
-- its time, and the clocks.
pub record Round {ℓ} (W : Type ℓ) : Type ℓ where
  pub fed : List (MarketDataEvent W × ℕ)
  pub surroundings : ℕ → Surroundings W

module _ {ℓ} {W : Type ℓ} where
  -- A pop that finds nothing changes nothing.
  pop-none :
      (q : EventQueue W) (events : List (Event W))
      → Carries q events
      → (EventQueue.pop q).0 ≡ none
      → (EventQueue.pop q).1 ≡ q
  unfolding EventQueue.pop
  pop-none q [] c e =
      ap (λ r. record q { queue = r }) (pop_of_empty EventQueue.default_size q.queue c)
  pop-none q (x ∷ events) c e =
      let (found, _, _) = pop_lem q (x ∷ events) c in unfold Fifo.dequeue in cc

module _ {ℓ} {W : Type ℓ} ⦃d : Double W⦄ where
  -- with these events popped
  abbrev popped : ℕ → Loop W → Loop W
  popped n l =
      let (events, queue) = pop_batch n l.system.event_queue in
      record { system = record l.system { event_queue = queue }; batch = l.batch ++ events }

  pop_batch-none :
      (n : ℕ) (q : EventQueue W)
      → (EventQueue.pop q).0 ≡ none
      → pop_batch (suc n) q ≡ ([], (EventQueue.pop q).1)
  unfolding pop_batch
  pop_batch-none n q e = rw (e, pop_batch) refl

  pop_batch-some :
      (n : ℕ) (q : EventQueue W) (event : Event W)
      → (EventQueue.pop q).0 ≡ some event
      → let rest = pop_batch n (EventQueue.pop q).1 in
        pop_batch (suc n) q ≡ (event ∷ rest.0, rest.1)
  unfolding pop_batch
  pop_batch-some n q event e = rw (e, pop_batch) refl

  -- The program reaches this state with at most `n` events handled.
  abbrev pub Within : Event W → ℕ → Loop W → Type ℓ
  Within blank n l = (r : Reaches (started blank) l) × (handled_on r ≤ n)

  pop_batch-Within :
      (blank : Event W) (n k : ℕ) (l : Loop W) → Within blank n l → Within blank n (popped k l)
  pop_batch-Within blank n zero l r = unfold pop_batch in rw (append-nil l.batch) r
  pop_batch-Within blank n (suc k) l r =
      let q = l.system.event_queue in
      elim (Option-cases (EventQueue.pop q).0) [
        | inl e ↦
            let (events, c, _) = (Reaches-AreTagged (started-AreTagged blank) r.0).queued in
            rw (pop_batch-none k q e, pop-none q events c e, append-nil l.batch) r
        | inr (event, e) ↦
            let q' = (EventQueue.pop q).1 in
            let after : Loop W = record {
              system = record l.system { event_queue = q' };
              batch = l.batch ++ event ∷ [];
            } in
            let taken = next r.0 (take event q' after (ap (λ o. (o, q')) e) refl) in
            rw (pop_batch-some k q event e, ← append_assoc l.batch (event ∷ []) (pop_batch k q').0)
              (pop_batch-Within blank n k after (taken, unfold handled_on in r.1))
      ]

  length-pop_batch : (k : ℕ) (q : EventQueue W) → length (pop_batch k q).0 ≤ k
  length-pop_batch zero q = unfold pop_batch in omega arith
  length-pop_batch (suc k) q = elim (Option-cases (EventQueue.pop q).0) [
    | inl e ↦ rw (pop_batch-none k q e) (omega arith)
    | inr (event, e) ↦
        rw (pop_batch-some k q event e) (omega (arith, length-pop_batch k (EventQueue.pop q).1))
  ]

  handle_all-Within :
      (blank : Event W) (env : ℕ → Surroundings W) (n : ℕ) (events : List (Event W)) (s : System W)
      → Within blank n (record { system = s; batch = events })
      → (s' : System W) × (handle_all env events s ≡ some s')
        × Within blank (n + length events) (record { system = s'; batch = [] })
  unfolding handle_all
  handle_all-Within blank env n [] s r = (s, refl, (r.0, omega (arith, r.1)))
  handle_all-Within blank env n (event ∷ events) s r =
      let (s₁, e) = handle_total blank _ event events (env 0) r.0 refl in
      let after = next r.0 (handled (env 0) event events s₁ _ refl e refl) in
      let (s', rest, r') =
        handle_all-Within blank (λ i. env (i + 1)) (suc n) events s₁
          (after, unfold handled_on in omega (arith, r.1)) in
      (s', rw (handle_all, e) rest, (r'.0, omega (arith, r'.1)))

  -- a round in which the feed pushes nothing
  poll-Within :
      (blank : Event W) (env : ℕ → Surroundings W) (n : ℕ) (s : System W)
      → Within blank n (record { system = s; batch = [] })
      → (s' : System W) × (poll env s ≡ some s')
        × Within blank (n + 4) (record { system = s'; batch = [] })
  unfolding poll
  poll-Within blank env n s r =
      let few = length-pop_batch 4 s.event_queue in
      let (s', e, r') =
        handle_all-Within blank env n _ _
          (pop_batch-Within blank n 4 (record { system = s; batch = [] }) r) in
      (s', e, (r'.0, omega (arith, r'.1)))

  -- the pushes of the feed thread
  unfoldable pub feed_all : List (MarketDataEvent W × ℕ) → System W → System W
  feed_all [] s = s
  feed_all ((md, receive_ts) ∷ trades) s =
      feed_all trades
        (record s { event_queue = (EventQueue.push (feed_event md receive_ts) s.event_queue).1 })

  -- the loop `while (running)`, one round after the other
  unfoldable pub process : List (Round W) → System W → Option (System W)
  unfolding feed_all
  process [] s = some s
  process (round ∷ rounds) s = elim (poll round.surroundings (feed_all round.fed s)) [
    | none ↦ none
    | some s' ↦ process rounds s'
  ]

  feed_all-Within :
      (blank : Event W) (n : ℕ) (trades : List (MarketDataEvent W × ℕ)) (s : System W)
      → Within blank n (record { system = s; batch = [] })
      → Within blank n (record { system = feed_all trades s; batch = [] })
  unfolding feed_all
  feed_all-Within blank n [] s r = r
  feed_all-Within blank n ((md, ts) ∷ trades) s r =
      feed_all-Within blank n trades _ (next r.0 (feed md ts _ refl), unfold handled_on in r.1)

  -- Each round handles up to four events.
  process-Within :
      (blank : Event W) (n : ℕ) (rounds : List (Round W)) (s : System W)
      → Within blank n (record { system = s; batch = [] })
      → (s' : System W) × (process rounds s ≡ some s')
        × Within blank (n + 4 * length rounds) (record { system = s'; batch = [] })
  unfolding process
  process-Within blank n [] s r = (s, refl, (r.0, omega (arith, r.1)))
  process-Within blank n (round ∷ rounds) s r =
      let (s₁, e, r₁) =
        poll-Within blank round.surroundings n (feed_all round.fed s)
          (feed_all-Within blank n round.fed s r) in
      let (s', rest, r') = process-Within blank (n + 4) rounds s₁ r₁ in
      (s', rw (process, e) rest, (r'.0, omega (arith, r'.1)))

  -- all rounds from the start
  pub started-Within :
      (blank : Event W) (rounds : List (Round W))
      → (s : System W) × (process rounds (start blank) ≡ some s)
        × Within blank (4 * length rounds) (record { system = s; batch = [] })
  started-Within blank rounds =
      let (s, e, r) =
        process-Within blank 0 rounds (start blank) (here, unfold handled_on in omega arith) in
      (s, e, (r.0, omega (arith, r.1)))

  -- The loop of the processor thread, with any trades pushed before each round, has a result after any
  -- number of rounds: each event is read as what it was written as. The result is a state that the program
  -- reaches in the sense of `Reaches`, with no event taken and left unhandled.
  pub process-Reaches :
      (blank : Event W) (rounds : List (Round W))
      → (s : System W) × (process rounds (start blank) ≡ some s)
        × Reaches (started blank) (record { system = s; batch = [] })
  process-Reaches blank rounds = let (s, e, r) = started-Within blank rounds in (s, e, r.0)
