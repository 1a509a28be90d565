-- ===== src/Core/LatencyTracker/Steps.antt =====
-- One step of racing calls of `record`: what it adds, and what the calls may rely on.
use ultra_low_latency_hft_en.Prelude.{
  ℕ, zero, suc, ◌+◌, ◌%◌, ◌^◌, ◌≤◌, ◌≡◌, refl, ap, inl, inr, Bool, not, ◌&&◌, List, [], ◌∷◌, ◌==◌,
  ltb, All, map, arith, Bool-cases,
}
use ultra_low_latency_hft_en.Core.LatencyTracker.{
  Metric, Call, called, added, counted, trying, returned, step, step_at,
}

-- the argument of a call
unfoldable pub ns_of : Call → ℕ
ns_of (called ns) = ns
ns_of (added ns) = ns
ns_of (counted ns) = ns
ns_of (trying ns c) = ns
ns_of (returned ns) = ns

-- what a call has added to the total, and to the count
unfoldable pub paid : Call → ℕ
paid (called ns) = 0
paid (added ns) = ns
paid (counted ns) = ns
paid (trying ns c) = ns
paid (returned ns) = ns

unfoldable pub told : Call → ℕ
told (called ns) = 0
told (added ns) = 0
told (counted ns) = 1
told (trying ns c) = 1
told (returned ns) = 1

-- What a call may rely on: what it loaded is not above the maximum, and once it has returned neither is
-- its argument.
unfoldable pub IsBelow : ℕ → Call → Type 0
IsBelow max (trying ns current) = current ≤ max
IsBelow max (returned ns) = ns ≤ max
IsBelow max _ = Unit

unfoldable pub total : (Call → ℕ) → List Call → ℕ
total f [] = 0
total f (c ∷ cs) = f c + total f cs

step-paid :
    (s : Bool) (c : Call) (m : Metric) (t : ℕ)
    → m.total_ns ≡ (t + paid c) % 2 ^ 64
    → (step s c m).1.total_ns ≡ (t + paid (step s c m).0) % 2 ^ 64
unfolding step paid
step-paid s (called ns) m t e = omega arith
step-paid s (added ns) m t e = e
step-paid s (counted ns) m t e = e
step-paid s (trying ns current) m t e = ground arith
step-paid s (returned ns) m t e = e

step-told :
    (s : Bool) (c : Call) (m : Metric) (t : ℕ)
    → m.count ≡ (t + told c) % 2 ^ 64
    → (step s c m).1.count ≡ (t + told (step s c m).0) % 2 ^ 64
unfolding step told
step-told s (called ns) m t e = e
step-told s (added ns) m t e = omega arith
step-told s (counted ns) m t e = e
step-told s (trying ns current) m t e = ground arith
step-told s (returned ns) m t e = e

step-ns_of : (s : Bool) (c : Call) (m : Metric) → ns_of (step s c m).0 ≡ ns_of c
unfolding step ns_of
step-ns_of s (called ns) m = refl
step-ns_of s (added ns) m = refl
step-ns_of s (counted ns) m = refl
step-ns_of s (trying ns current) m = ground arith
step-ns_of s (returned ns) m = refl

-- The maximum only grows, to the argument of the call at most.
step-max_ns :
    (s : Bool) (c : Call) (m : Metric)
    → IsBelow m.max_ns c
    → (m.max_ns ≤ (step s c m).1.max_ns) × IsBelow (step s c m).1.max_ns (step s c m).0
unfolding step IsBelow
step-max_ns s (called ns) m h = (omega arith, h)
step-max_ns s (added ns) m h = (omega arith, h)
step-max_ns s (counted ns) m h = (omega arith, omega arith)
step-max_ns s (trying ns current) m h = elim (Bool-cases (ltb current ns)) [
  | inr e ↦ rw e (omega arith, ground arith)
  | inl e ↦ elim (Bool-cases ((m.max_ns == current) && not s)) [
    | inl f ↦ rw (e, f) (ground arith, omega arith)
    | inr f ↦ rw (e, f) (omega arith, omega arith)
  ]
]
step-max_ns s (returned ns) m h = (omega arith, h)

step_below :
    (s : Bool) (c : Call) (m : Metric) (b : ℕ)
    → m.max_ns ≤ b
    → ns_of c ≤ b
    → (step s c m).1.max_ns ≤ b
unfolding step ns_of
step_below s (called ns) m b h k = h
step_below s (added ns) m b h k = h
step_below s (counted ns) m b h k = h
step_below s (trying ns current) m b h k = ground arith
step_below s (returned ns) m b h k = h

-- The maximum grows with a step of any call, so what the others rely on stays.
IsBelow-le : (x y : ℕ) (c : Call) → x ≤ y → IsBelow x c → IsBelow y c
unfolding IsBelow
IsBelow-le x y (called ns) h k = k
IsBelow-le x y (added ns) h k = k
IsBelow-le x y (counted ns) h k = k
IsBelow-le x y (trying ns current) h k = omega arith
IsBelow-le x y (returned ns) h k = omega arith

All-IsBelow-le : (x y : ℕ) (cs : List Call) → x ≤ y → All (IsBelow x) cs → All (IsBelow y) cs
All-IsBelow-le x y [] h k = k
All-IsBelow-le x y (c ∷ cs) h k = (IsBelow-le x y c h k.0, All-IsBelow-le x y cs h k.1)

pub step_at-paid :
    (k : ℕ) (s : Bool) (cs : List Call) (m : Metric) (t : ℕ)
    → m.total_ns ≡ (t + total paid cs) % 2 ^ 64
    → (step_at k s cs m).1.total_ns ≡ (t + total paid (step_at k s cs m).0) % 2 ^ 64
unfolding step_at total
step_at-paid k s [] m t e = e
step_at-paid zero s (c ∷ cs) m t e =
    omega (arith, step-paid s c m (t + total paid cs) (omega arith))
step_at-paid (suc k) s (c ∷ cs) m t e =
    omega (arith, step_at-paid k s cs m (t + paid c) (omega arith))

pub step_at-told :
    (k : ℕ) (s : Bool) (cs : List Call) (m : Metric) (t : ℕ)
    → m.count ≡ (t + total told cs) % 2 ^ 64
    → (step_at k s cs m).1.count ≡ (t + total told (step_at k s cs m).0) % 2 ^ 64
unfolding step_at total
step_at-told k s [] m t e = e
step_at-told zero s (c ∷ cs) m t e =
    omega (arith, step-told s c m (t + total told cs) (omega arith))
step_at-told (suc k) s (c ∷ cs) m t e =
    omega (arith, step_at-told k s cs m (t + told c) (omega arith))

pub step_at-ns_of :
    (k : ℕ) (s : Bool) (cs : List Call) (m : Metric) → map ns_of (step_at k s cs m).0 ≡ map ns_of cs
unfolding step_at
step_at-ns_of k s [] m = refl
step_at-ns_of zero s (c ∷ cs) m = ap (λ n. n ∷ map ns_of cs) (step-ns_of s c m)
step_at-ns_of (suc k) s (c ∷ cs) m = ap (λ ns. ns_of c ∷ ns) (step_at-ns_of k s cs m)

pub step_at-max_ns :
    (k : ℕ) (s : Bool) (cs : List Call) (m : Metric)
    → All (IsBelow m.max_ns) cs
    → (m.max_ns ≤ (step_at k s cs m).1.max_ns)
      × All (IsBelow (step_at k s cs m).1.max_ns) (step_at k s cs m).0
unfolding step_at
step_at-max_ns k s [] m h = (omega arith, h)
step_at-max_ns zero s (c ∷ cs) m h =
    let (grown, below) = step-max_ns s c m h.0 in
    (grown, (below, All-IsBelow-le m.max_ns (step s c m).1.max_ns cs grown h.1))
step_at-max_ns (suc k) s (c ∷ cs) m h =
    let (grown, below) = step_at-max_ns k s cs m h.1 in
    (grown, (IsBelow-le m.max_ns (step_at k s cs m).1.max_ns c grown h.0, below))

pub step_at_below :
    (k : ℕ) (s : Bool) (cs : List Call) (m : Metric) (b : ℕ)
    → m.max_ns ≤ b
    → All (λ n. n ≤ b) (map ns_of cs)
    → (step_at k s cs m).1.max_ns ≤ b
unfolding step_at
step_at_below k s [] m b h a = h
step_at_below zero s (c ∷ cs) m b h a = step_below s c m b h a.0
step_at_below (suc k) s (c ∷ cs) m b h a = step_at_below k s cs m b h a.1
