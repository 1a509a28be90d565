-- ===== src/Strategy/Signals.antt =====
-- What the momentum strategy submits over a feed: buys and sells in turn, after a warm-up.
use ultra_low_latency_hft_en.Prelude.{
  ℕ, ◌+◌, ◌<◌, ◌≡◌, refl, sym, ◌∙◌, ap, subst, inl, inr, Bool, true, false, List, [], ◌∷◌, ◌++◌,
  arith, Bool-cases, ltb, add_u64, length,
}
use ultra_low_latency_hft_en.Prelude.Int.{pos}
use ultra_low_latency_hft_en.Double.{Double, whole, ◌⊕◌, ◌⊖◌}
use ultra_low_latency_hft_en.Core.Events.{Event, MarketDataEvent, OrderRequest, buy, sell}
use ultra_low_latency_hft_en.Core.EventQueue
use ultra_low_latency_hft_en.Core.EventQueue.{EventQueue, push_all-append}
use ultra_low_latency_hft_en.Strategy.Common.{Ambient, order_event}
use ultra_low_latency_hft_en.Strategy.Momentum as Mo

module _ {ℓ} {W : Type ℓ} ⦃d : Double W⦄ where
  abbrev half : W
  half = d.decimal (pos 5) 1

  -- Orders of half a coin that the momentum strategy submits from a state of its `position_open`: each
  -- buys while it is closed and sells while it is open, with consecutive ids, and toggles it.
  pub data Alternates : Bool → ℕ → List (Event W) → Bool → ℕ → Type ℓ where
    quiet : {open_now : Bool} {id : ℕ} → Alternates open_now id [] open_now id
    buys :
        {id : ℕ} {es : List (Event W)} {later : Bool} {last : ℕ} (price : W) (now : ℕ)
        (raw : OrderRequest W)
        → Alternates true (add_u64 id 1) es later last
        → Alternates false id (order_event 2 id buy price half now raw ∷ es) later last
    sells :
        {id : ℕ} {es : List (Event W)} {later : Bool} {last : ℕ} (price : W) (now : ℕ)
        (raw : OrderRequest W)
        → Alternates false (add_u64 id 1) es later last
        → Alternates true id (order_event 2 id sell price half now raw ∷ es) later last

  -- the strategy over the ticks of a feed, each with its surroundings
  unfoldable pub follow :
      List (Ambient W × MarketDataEvent W)
      → Mo.Momentum W × EventQueue W
      → Mo.Momentum W × EventQueue W
  follow [] x = x
  follow ((ambient, md) ∷ ticks) x = follow ticks (Mo.on_market_data ambient md x)

  -- What one tick or many leave: the queue with the submitted orders pushed.
  abbrev pub Submitted : Mo.Momentum W × EventQueue W → Mo.Momentum W × EventQueue W → Type ℓ
  Submitted x x' =
      (es : List (Event W)) × (x'.1 ≡ EventQueue.push_all es x.1)
      × Alternates x.0.position_open x.0.next_order_id es x'.0.position_open x'.0.next_order_id

  Alternates-trans :
      {a b c : Bool} {i j k : ℕ} {es fs : List (Event W)}
      → Alternates a i es b j
      → Alternates b j fs c k
      → Alternates a i (es ++ fs) c k
  Alternates-trans quiet r = r
  Alternates-trans (buys p n w l) r = buys p n w (Alternates-trans l r)
  Alternates-trans (sells p n w l) r = sells p n w (Alternates-trans l r)

  bullish-closed : (s : Mo.Momentum W) → Mo.bullish s ≡ true → s.position_open ≡ false
  unfolding Mo.bullish
  bullish-closed s e = ground arith

  bearish-open : (s : Mo.Momentum W) → Mo.bearish s ≡ true → s.position_open ≡ true
  unfolding Mo.bearish
  bearish-open s e = ground arith

  tick-Submitted :
      (ambient : Ambient W) (md : MarketDataEvent W) (x : Mo.Momentum W × EventQueue W)
      → Submitted x (Mo.on_market_data ambient md x)
  unfolding Mo.on_market_data EventQueue.push_all
  tick-Submitted ambient md x =
      let s = Mo.observe md.price x.0 in
      elim (Bool-cases (ltb s.count 50)) [
        | inl e ↦ rw e ([], refl, quiet)
        | inr e ↦ elim (Bool-cases (Mo.bullish s)) [
          | inl f ↦
              rw (e, f)
                (
                  order_event 2 x.0.next_order_id buy (md.price ⊕ whole 1) half ambient.first_now
                        ambient.first_raw
                      ∷ [],
                  refl,
                  subst
                      (λ b.
                        Alternates b x.0.next_order_id
                          (order_event 2 x.0.next_order_id buy (md.price ⊕ whole 1) half
                              ambient.first_now ambient.first_raw
                            ∷ [])
                          true (add_u64 x.0.next_order_id 1))
                      (sym (bullish-closed s f))
                      (buys (md.price ⊕ whole 1) ambient.first_now ambient.first_raw quiet),
                )
          | inr f ↦ elim (Bool-cases (Mo.bearish s)) [
            | inl g ↦
                rw (e, f, g)
                  (
                    order_event 2 x.0.next_order_id sell (md.price ⊖ whole 1) half ambient.first_now
                          ambient.first_raw
                        ∷ [],
                    refl,
                    subst
                        (λ b.
                          Alternates b x.0.next_order_id
                            (order_event 2 x.0.next_order_id sell (md.price ⊖ whole 1) half
                                ambient.first_now ambient.first_raw
                              ∷ [])
                            false (add_u64 x.0.next_order_id 1))
                        (sym (bearish-open s g))
                        (sells (md.price ⊖ whole 1) ambient.first_now ambient.first_raw quiet),
                  )
            | inr g ↦ rw (e, f, g) ([], refl, quiet)
          ]
        ]
      ]

  -- Over any feed, the momentum strategy pushes nothing but its own orders: a buy when it has no open
  -- position and a sell when it has one, in turn, with consecutive ids.
  pub follow-Alternates :
      (ticks : List (Ambient W × MarketDataEvent W)) (x : Mo.Momentum W × EventQueue W)
      → Submitted x (follow ticks x)
  unfolding follow EventQueue.push_all
  follow-Alternates [] x = ([], refl, quiet)
  follow-Alternates ((ambient, md) ∷ ticks) x =
      let (es, e, a) = tick-Submitted ambient md x in
      let (fs, f, b) = follow-Alternates ticks (Mo.on_market_data ambient md x) in
      (
        es ++ fs,
        f ∙ ap (EventQueue.push_all fs) e ∙ sym (push_all-append es fs x.1),
        Alternates-trans a b,
      )

  tick_count :
      (ambient : Ambient W) (md : MarketDataEvent W) (x : Mo.Momentum W × EventQueue W)
      → x.0.count + 1 < 50
      → ((Mo.on_market_data ambient md x).1 ≡ x.1)
        × ((Mo.on_market_data ambient md x).0.count ≡ x.0.count + 1)
  unfolding Mo.on_market_data Mo.observe
  tick_count ambient md x h =
      let e : add_u64 x.0.count 1 ≡ x.0.count + 1 = omega arith in
      let l : ltb (add_u64 x.0.count 1) 50 ≡ true = ground arith in rw l (refl, e)

  follow_count :
      (ticks : List (Ambient W × MarketDataEvent W)) (x : Mo.Momentum W × EventQueue W)
      → x.0.count + length ticks < 50
      → ((follow ticks x).1 ≡ x.1) × ((follow ticks x).0.count ≡ x.0.count + length ticks)
  unfolding follow Mo.on_market_data Mo.observe
  follow_count [] x h = (refl, omega arith)
  follow_count ((ambient, md) ∷ ticks) x h =
      let tick = tick_count ambient md x (omega arith) in
      let rest = follow_count ticks (Mo.on_market_data ambient md x) (omega arith) in
      (rest.0 ∙ tick.0, omega arith)

  -- A fresh strategy submits nothing during its first 49 ticks.
  follow_warm_up :
      (ticks : List (Ambient W × MarketDataEvent W)) (q : EventQueue W)
      → length ticks < 50
      → (follow ticks (Mo.init, q)).1 ≡ q
  unfolding Mo.init
  follow_warm_up ticks q h = (follow_count ticks (Mo.init, q) (omega arith)).0
