-- ===== src/Core/LatencyTracker/Races.antt =====
-- Calls of `record` that race, whatever their steps' order: no update is lost, and a call that runs
-- alone returns.
use ultra_low_latency_hft_en.Prelude.{
  ℕ, suc, ◌+◌, ◌%◌, ◌^◌, ◌≤◌, ◌<◌, ◌≡◌, refl, sym, ◌∙◌, ap, subst, inl, inr, Bool, true, false,
  List, [], ◌∷◌, ◌++◌, replicate, ◌==◌, ltb, if◌then◌else◌, All, length, map, arith, Bool-cases,
  false≢true, ==_refl,
}
use ultra_low_latency_hft_en.Core.LatencyTracker.{
  Metric, Call, called, added, counted, trying, returned, step, step_at, run,
}
use ultra_low_latency_hft_en.Core.LatencyTracker.Steps.{
  ns_of, paid, told, total, IsBelow, step_at-paid, step_at-told, step_at-ns_of, step_at-max_ns,
  step_at_below,
}

-- the sum of a list
unfoldable pub sum : List ℕ → ℕ
sum [] = 0
sum (n ∷ ns) = n + sum ns

-- the largest of a number and a list
unfoldable pub largest : ℕ → List ℕ → ℕ
largest x [] = x
largest x (n ∷ ns) = let rest = largest x ns in if ltb rest n then n else rest

unfoldable pub is_returned : Call → Bool
is_returned (returned ns) = true
is_returned _ = false

All-le : (x y : ℕ) (ns : List ℕ) → x ≤ y → All (λ n. n ≤ x) ns → All (λ n. n ≤ y) ns
All-le x y [] h a = a
All-le x y (n ∷ ns) h a = (omega arith, All-le x y ns h a.1)

All-largest : (x y : ℕ) (ns : List ℕ) → x ≤ y → All (λ n. n ≤ y) ns → largest x ns ≤ y
unfolding largest
All-largest x y [] h a = h
All-largest x y (n ∷ ns) h a = ground (arith, All-largest x y ns h a.1)

largest_upper : (x : ℕ) (ns : List ℕ) → (x ≤ largest x ns) × All (λ n. n ≤ largest x ns) ns
unfolding largest
largest_upper x [] = (omega arith, tt)
largest_upper x (n ∷ ns) =
    let (least, all) = largest_upper x ns in
    let grown : largest x ns ≤ largest x (n ∷ ns) = ground arith in
    (omega arith, (ground arith, All-le (largest x ns) (largest x (n ∷ ns)) ns grown all))

-- What every schedule keeps, for calls with the arguments `ns` and the metric `m₀` that they found.
record Kept (ns : List ℕ) (m₀ : Metric) (cs : List Call) (m : Metric) : Type 0 where
  names : map ns_of cs ≡ ns
  total_ns : m.total_ns ≡ (m₀.total_ns + total paid cs) % 2 ^ 64
  count : m.count ≡ (m₀.count + total told cs) % 2 ^ 64
  below : All (IsBelow m.max_ns) cs
  least : m₀.max_ns ≤ m.max_ns
  most : m.max_ns ≤ largest m₀.max_ns ns

run-Kept :
    (ns : List ℕ) (m₀ : Metric) (schedule : List (ℕ × Bool)) (cs : List Call) (m : Metric)
    → Kept ns m₀ cs m
    → Kept ns m₀ (run schedule cs m).0 (run schedule cs m).1
unfolding run
run-Kept ns m₀ [] cs m h = h
run-Kept ns m₀ ((k, s) ∷ schedule) cs m h =
    let (grown, below) = step_at-max_ns k s cs m h.below in
    run-Kept ns m₀ schedule (step_at k s cs m).0 (step_at k s cs m).1 (record {
      names = step_at-ns_of k s cs m ∙ h.names;
      total_ns = step_at-paid k s cs m m₀.total_ns h.total_ns;
      count = step_at-told k s cs m m₀.count h.count;
      below = below;
      least = omega (arith, h.least, grown);
      most = step_at_below k s cs m (largest m₀.max_ns ns) h.most (
          subst (λ l. All (λ n. n ≤ largest m₀.max_ns ns) l) (sym h.names)
            (largest_upper m₀.max_ns ns).1);
    })

called-ns_of : (ns : List ℕ) → map ns_of (map called ns) ≡ ns
unfolding ns_of
called-ns_of [] = refl
called-ns_of (n ∷ ns) = ap (λ l. n ∷ l) (called-ns_of ns)

called-paid : (ns : List ℕ) → total paid (map called ns) ≡ 0
unfolding total paid
called-paid [] = refl
called-paid (n ∷ ns) = omega (arith, called-paid ns)

called-told : (ns : List ℕ) → total told (map called ns) ≡ 0
unfolding total told
called-told [] = refl
called-told (n ∷ ns) = omega (arith, called-told ns)

called-IsBelow : (max : ℕ) (ns : List ℕ) → All (IsBelow max) (map called ns)
unfolding IsBelow
called-IsBelow max [] = tt
called-IsBelow max (n ∷ ns) = (tt, called-IsBelow max ns)

length-map : (cs : List Call) → length (map ns_of cs) ≡ length cs
length-map [] = refl
length-map (c ∷ cs) = ap suc (length-map cs)

called-Kept :
    (ns : List ℕ) (m : Metric)
    → m.total_ns < 2 ^ 64
    → m.count < 2 ^ 64
    → Kept ns m (map called ns) m
unfolding ns_of paid told total IsBelow
called-Kept ns m h k = record {
  names = called-ns_of ns;
  total_ns = omega (arith, called-paid ns);
  count = omega (arith, called-told ns);
  below = called-IsBelow m.max_ns ns;
  least = omega arith;
  most = (largest_upper m.max_ns ns).0;
}

returned-ns_of :
    (max : ℕ) (cs : List Call)
    → All (λ c. is_returned c ≡ true) cs
    → All (IsBelow max) cs
    → (total paid cs ≡ sum (map ns_of cs))
      × (total told cs ≡ length cs)
      × All (λ n. n ≤ max) (map ns_of cs)
unfolding is_returned IsBelow paid told total sum ns_of
returned-ns_of max [] r b = (refl, refl, tt)
returned-ns_of max (called ns ∷ cs) r b = absurd (false≢true r.0)
returned-ns_of max (added ns ∷ cs) r b = absurd (false≢true r.0)
returned-ns_of max (counted ns ∷ cs) r b = absurd (false≢true r.0)
returned-ns_of max (trying ns current ∷ cs) r b = absurd (false≢true r.0)
returned-ns_of max (returned ns ∷ cs) r b =
    let (p, t, a) = returned-ns_of max cs r.1 b.1 in (omega arith, omega arith, (b.0, a))

-- If any number of calls of `record` race, in any order of their steps and with spurious failures, then
-- when all have returned none is lost: the metric has the sum and the number of all arguments added, up
-- to the wrap-around, and the maximum is the largest of them and the one before.
pub record_race :
    (schedule : List (ℕ × Bool)) (ns : List ℕ) (m : Metric)
    → m.total_ns < 2 ^ 64
    → m.count < 2 ^ 64
    → All (λ c. is_returned c ≡ true) (run schedule (map called ns) m).0
    → let after = (run schedule (map called ns) m).1 in
      (after.total_ns ≡ (m.total_ns + sum ns) % 2 ^ 64)
      × (after.count ≡ (m.count + length ns) % 2 ^ 64)
      × (after.max_ns ≡ largest m.max_ns ns)
record_race schedule ns m h k r =
    let (cs, m') = run schedule (map called ns) m in
    let kept = run-Kept ns m schedule (map called ns) m (called-Kept ns m h k) in
    let (paid_all, told_all, bounded) = returned-ns_of m'.max_ns cs r kept.below in
    let sums : total paid cs ≡ sum ns = paid_all ∙ ap sum kept.names in
    let numbers : total told cs ≡ length ns =
      told_all ∙ sym (length-map cs) ∙ ap length kept.names in
    let upper : largest m.max_ns ns ≤ m'.max_ns =
      All-largest m.max_ns m'.max_ns ns kept.least
        (subst (λ l. All (λ n. n ≤ m'.max_ns) l) kept.names bounded) in
    (omega (arith, kept.total_ns), omega (arith, kept.count), omega (arith, kept.most))

step_at-step :
    (s : Bool) (before after : List Call) (c : Call) (m : Metric)
    → step_at (length before) s (before ++ c ∷ after) m
      ≡ (before ++ (step s c m).0 ∷ after, (step s c m).1)
unfolding step_at
step_at-step s [] after c m = refl
step_at-step s (b ∷ before) after c m = ap (λ x. (b ∷ x.0, x.1)) (step_at-step s before after c m)

-- four steps of one call
solo : Call → Metric → Call × Metric
solo c m =
    let (c₁, m₁) = step false c m in
    let (c₂, m₂) = step false c₁ m₁ in let (c₃, m₃) = step false c₂ m₂ in step false c₃ m₃

solo-returned : (c : Call) (m : Metric) → (solo c m).0 ≡ returned (ns_of c)
unfolding solo step ns_of
solo-returned (called ns) m = elim (Bool-cases (ltb m.max_ns ns)) [
  | inl e ↦ rw (e, ==_refl m.max_ns) refl
  | inr e ↦ rw e refl
]
solo-returned (added ns) m = elim (Bool-cases (ltb m.max_ns ns)) [
  | inl e ↦ rw (e, ==_refl m.max_ns) refl
  | inr e ↦ rw e refl
]
solo-returned (counted ns) m = elim (Bool-cases (ltb m.max_ns ns)) [
  | inl e ↦ rw (e, ==_refl m.max_ns) refl
  | inr e ↦ rw e refl
]
solo-returned (trying ns current) m = elim (Bool-cases (ltb current ns)) [
  | inr e ↦ rw e refl
  | inl e ↦ elim (Bool-cases (m.max_ns == current)) [
    | inl f ↦ rw (e, f) refl
    | inr f ↦ elim (Bool-cases (ltb m.max_ns ns)) [
      | inl g ↦ rw (e, f, g, ==_refl m.max_ns) refl
      | inr g ↦ rw (e, f, g) refl
    ]
  ]
]
solo-returned (returned ns) m = refl

-- Wherever a call stands and whatever calls wait beside it, four steps of its own bring it to its
-- end if none of its exchanges fails spuriously: a call that is not disturbed returns.
undisturbed_call_returns :
    (before after : List Call) (c : Call) (m : Metric)
    → (run (replicate 4 (length before, false)) (before ++ c ∷ after) m).0
      ≡ before ++ returned (ns_of c) ∷ after
unfolding run solo
undisturbed_call_returns before after c m =
    let (c₁, m₁) = step false c m in
    let (c₂, m₂) = step false c₁ m₁ in
    let (c₃, m₃) = step false c₂ m₂ in
    rw
      (
        step_at-step false before after c m,
        step_at-step false before after c₁ m₁,
        step_at-step false before after c₂ m₂,
        step_at-step false before after c₃ m₃,
      )
      (ap (λ x. before ++ x ∷ after) (solo-returned c m))
