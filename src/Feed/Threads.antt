-- ===== src/Feed/Threads.antt =====
-- What a hybrid feed tells of its feeds, and what its threads push together.
use ultra_low_latency_hft_en.Prelude.{
  ℕ, suc, ◌+◌, ◌≡◌, refl, sym, ◌∙◌, ap, subst, ◌↔◌, true, false, List, [], ◌∷◌, ◌++◌, map, All,
  length, arith, append-nil, append_assoc,
}
use ultra_low_latency_hft_en.Feed.{MarketFeed}
use ultra_low_latency_hft_en.Feed.Hybrid.{
  HybridFeed, init, add_feed, stop, any_active, is_active, all_finished, is_finished, Turn, mine,
  other, Run, joined, turn,
}

-- The first list is a part of the second, in its order.
pub data IsWithin {ℓ} {A : Type ℓ} : List A → List A → Type ℓ where
  done : (bs : List A) → IsWithin [] bs
  keep : (a : A) (us bs : List A) → IsWithin us bs → IsWithin (a ∷ us) (a ∷ bs)
  skip : (us : List A) (b : A) (bs : List A) → IsWithin us bs → IsWithin us (b ∷ bs)

module _ {ℓ} {A : Type ℓ} where
  -- how many actions are left
  unfoldable pub total : List (List A) → ℕ
  total [] = 0
  total (t ∷ ts) = length t + total ts

  Turn-total : (ts us : List (List A)) (a : A) → Turn ts a us → total ts ≡ suc (total us)
  unfolding total
  Turn-total _ _ _ (mine a t ts) = omega arith
  Turn-total _ _ _ (other t ts us a h) = omega (arith, Turn-total ts us a h)

  skip_all :
      (ts : List (List A)) (a : A) (out : List A)
      → All (λ t. IsWithin t out) ts
      → All (λ t. IsWithin t (a ∷ out)) ts
  skip_all [] a out h = tt
  skip_all (t ∷ ts) a out h = (skip t a out h.0, skip_all ts a out h.1)

  Turn-IsWithin :
      (ts us : List (List A)) (a : A) (out : List A)
      → Turn ts a us
      → All (λ t. IsWithin t out) us
      → All (λ t. IsWithin t (a ∷ out)) ts
  Turn-IsWithin _ _ _ out (mine a t ts) h = (keep a t out h.0, skip_all ts a out h.1)
  Turn-IsWithin _ _ _ out (other t ts us a k) h =
      (skip t a out h.0, Turn-IsWithin ts us a out k h.1)

  ended_lem :
      (ts : List (List A)) → All (λ t. t ≡ []) ts → All (λ t. IsWithin t []) ts × (total ts ≡ 0)
  unfolding total
  ended_lem [] h = (tt, refl)
  ended_lem (t ∷ ts) h =
      let (within, none_left) = ended_lem ts h.1 in
      (
        (subst (λ l. IsWithin l []) (sym h.0) (done []), within),
        omega (arith, ap (λ (l : List A). length l) h.0, none_left),
      )

  -- When the threads of a hybrid feed have all ended, then what they did together holds the actions of
  -- each feed in the order of that feed, and nothing besides: there are as many actions as the feeds
  -- had in all.
  Run-IsWithin :
      (ts : List (List A)) (out : List A)
      → Run ts out
      → All (λ t. IsWithin t out) ts × (length out ≡ total ts)
  Run-IsWithin _ _ (joined ts h) = let (within, e) = ended_lem ts h in (within, sym e)
  Run-IsWithin _ _ (turn ts us a out k r) =
      let (within, e) = Run-IsWithin us out r in
      (Turn-IsWithin ts us a out k within, omega (arith, e, Turn-total ts us a k))

  -- the first thread's actions, then those of the others
  others_Run : (ts : List (List A)) (out : List A) → Run ts out → Run ([] ∷ ts) out
  others_Run _ _ (joined ts h) = joined ([] ∷ ts) (refl, h)
  others_Run _ _ (turn ts us a out k r) =
      turn ([] ∷ ts) ([] ∷ us) a out (other [] ts us a k) (others_Run us out r)

  first_Run :
      (t : List A) (ts : List (List A)) (out : List A) → Run ts out → Run (t ∷ ts) (t ++ out)
  first_Run [] ts out r = others_Run ts out r
  first_Run (a ∷ t) ts out r =
      turn ((a ∷ t) ∷ ts) (t ∷ ts) a (t ++ out) (mine a t ts) (first_Run t ts out r)

module _ {ℓ} {F : Type ℓ} where
  -- the feed that `add_feed` makes of the feeds, added in this order
  unfoldable pub added : List F → HybridFeed F → HybridFeed F
  added [] h = h
  added (f ∷ fs) h = added fs (add_feed f h)

  feeds-added : (fs : List F) (h : HybridFeed F) → (added fs h).feeds ≡ h.feeds ++ fs
  unfolding added add_feed
  feeds-added [] h = sym (append-nil h.feeds)
  feeds-added (f ∷ fs) h = feeds-added fs (add_feed f h) ∙ append_assoc h.feeds (f ∷ []) fs

module _ {ℓ} {F : Type ℓ} (ops : MarketFeed F) where
  all_finished_iff :
      (feeds : List F) → (all_finished ops feeds ≡ true) ↔ All (λ f. ops.is_finished f ≡ true) feeds
  unfolding all_finished
  all_finished_iff [] = ((λ h. tt), (λ h. refl))
  all_finished_iff (f ∷ fs) = ground (arith, all_finished_iff fs)

  any_active_iff :
      (feeds : List F) → (any_active ops feeds ≡ false) ↔ All (λ f. ops.is_active f ≡ false) feeds
  unfolding any_active
  any_active_iff [] = ((λ h. tt), (λ h. refl))
  any_active_iff (f ∷ fs) = ground (arith, any_active_iff fs)

  -- A hybrid feed of the feeds that `add_feed` was called with is finished exactly when all of them are,
  -- and inactive exactly when all of them are inactive; to stop it stops each of them.
  pub hybrid_feed_lem :
      (fs : List F)
      → let h = added fs init in
        ((is_finished ops h ≡ true) ↔ All (λ f. ops.is_finished f ≡ true) fs)
        × ((is_active ops h ≡ false) ↔ All (λ f. ops.is_active f ≡ false) fs)
        × ((stop ops h).feeds ≡ map ops.stop fs)
  unfolding is_finished is_active stop
  hybrid_feed_lem fs = rw (feeds-added fs init) (all_finished_iff fs, any_active_iff fs, refl)
