-- ===== src/Analytics/Percentiles.antt =====
-- `compute_stats`: that it reads within the samples, and that what it reads are their percentiles.
use mathlib.Core.List.{Perm}
use mathlib.Core.List.Perm
use ultra_low_latency_hft_en.Prelude.{
  ℕ, zero, suc, ◌+◌, ◌%◌, ◌*◌, ◌^◌, Bool, leb, ◌==◌, if◌then◌else◌, add_u64, ◌/◌, ◌≤◌, ◌<◌, ◌≡◌,
  refl, subst, some, List, [], ◌∷◌, All, length, get_elem?, ltb, arith, ◌⊎◌, ap, inl, inr,
  Bool-cases, some-injective,
}
use ultra_low_latency_hft_en.Prelude.Int.{pos}
use ultra_low_latency_hft_en.Prelude.Sort.{
  sort, insert_sorted, insert_sorted-All, length-sort, sort-perm,
}
use ultra_low_latency_hft_en.Double.{Double}
use ultra_low_latency_hft_en.Analytics.{Stats, index, sum_from, stats_of, compute_stats}

-- no sample is below an earlier one
abbrev pub IsAscending : List ℕ → Type 0
IsAscending [] = Unit
IsAscending (x ∷ xs) = All (λ y. x ≤ y) xs × IsAscending xs

All-le : (x y : ℕ) (ns : List ℕ) → x ≤ y → All (λ n. y ≤ n) ns → All (λ n. x ≤ n) ns
All-le x y [] h a = a
All-le x y (n ∷ ns) h a = (omega arith, All-le x y ns h a.1)

insert_sorted-IsAscending :
    (x : ℕ) (ys : List ℕ) → IsAscending ys → IsAscending (insert_sorted ltb x ys)
unfolding insert_sorted
insert_sorted-IsAscending x [] a = (tt, tt)
insert_sorted-IsAscending x (y ∷ ys) a = elim (Bool-cases (ltb y x)) [
  | inl e ↦
      let le : y ≤ x = ground arith in
      rw e (insert_sorted-All ltb (λ z. y ≤ z) x ys le a.0, insert_sorted-IsAscending x ys a.1)
  | inr e ↦ let le : x ≤ y = ground arith in rw e ((le, All-le x y ys le a.0), a)
]

sort-IsAscending : (xs : List ℕ) → IsAscending (sort ltb xs)
unfolding sort
sort-IsAscending [] = tt
sort-IsAscending (x ∷ xs) = insert_sorted-IsAscending x (sort ltb xs) (sort-IsAscending xs)

All-get_elem? : (x b j : ℕ) (xs : List ℕ) → All (λ y. x ≤ y) xs → get_elem? xs j ≡ some b → x ≤ b
All-get_elem? x b j [] a e = ground arith
All-get_elem? x b zero (y ∷ xs) a e = subst (λ z. x ≤ z) (some-injective y b e) a.0
All-get_elem? x b (suc j) (y ∷ xs) a e = All-get_elem? x b j xs a.1 e

get_elem?-some : (i : ℕ) (xs : List ℕ) → i < length xs → (a : ℕ) × (get_elem? xs i ≡ some a)
get_elem?-some i [] h = absurd (omega (arith, h))
get_elem?-some zero (x ∷ xs) h = (x, refl)
get_elem?-some (suc i) (x ∷ xs) h = get_elem?-some i xs (omega arith)

-- how many of the samples pass the test
unfoldable pub counted : (ℕ → Bool) → List ℕ → ℕ
counted p [] = 0
counted p (x ∷ xs) = (if p x then 1 else 0) + counted p xs

unfoldable pub total : List ℕ → ℕ
total [] = 0
total (x ∷ xs) = x + total xs

counted-insert_sorted :
    (p : ℕ → Bool) (x : ℕ) (ys : List ℕ) → counted p (insert_sorted ltb x ys) ≡ counted p (x ∷ ys)
unfolding counted insert_sorted
counted-insert_sorted p x [] = refl
counted-insert_sorted p x (y ∷ ys) = elim (Bool-cases (ltb y x)) [
  | inl e ↦ rw (e, counted) (omega (arith, counted-insert_sorted p x ys))
  | inr e ↦ rw e
]

counted-sort : (p : ℕ → Bool) (xs : List ℕ) → counted p (sort ltb xs) ≡ counted p xs
unfolding counted sort
counted-sort p [] = refl
counted-sort p (x ∷ xs) = rw (counted-insert_sorted p x (sort ltb xs), counted, counted-sort p xs)

total-insert_sorted : (x : ℕ) (ys : List ℕ) → total (insert_sorted ltb x ys) ≡ x + total ys
unfolding total insert_sorted
total-insert_sorted x [] = refl
total-insert_sorted x (y ∷ ys) = elim (Bool-cases (ltb y x)) [
  | inl e ↦ rw (e, total) (omega (arith, total-insert_sorted x ys))
  | inr e ↦ rw e
]

total-sort : (xs : List ℕ) → total (sort ltb xs) ≡ total xs
unfolding total sort
total-sort [] = refl
total-sort (x ∷ xs) = rw (total-insert_sorted x (sort ltb xs), total-sort xs)

sum_from_lem : (sum : ℕ) (xs : List ℕ) → sum_from sum xs % 2 ^ 64 ≡ (sum + total xs) % 2 ^ 64
unfolding sum_from total
sum_from_lem sum [] = omega arith
sum_from_lem sum (x ∷ xs) = omega (arith, sum_from_lem (add_u64 sum x) xs)

sum_from_bounded : (sum : ℕ) (xs : List ℕ) → sum < 2 ^ 64 → sum_from sum xs < 2 ^ 64
unfolding sum_from
sum_from_bounded sum [] h = h
sum_from_bounded sum (x ∷ xs) h = sum_from_bounded (add_u64 sum x) xs (omega arith)

-- The wrapping sum of the sorted samples is that of the samples.
sum-sorted : (xs : List ℕ) → sum_from 0 (sort ltb xs) ≡ total xs % 2 ^ 64
sum-sorted xs = omega (
  arith,
  sum_from_lem 0 (sort ltb xs),
  sum_from_bounded 0 (sort ltb xs) (omega arith),
  total-sort xs,
)

-- At least `i + 1` samples are not above the one at `i`,
counted_below :
    (i a : ℕ) (xs : List ℕ)
    → IsAscending xs
    → get_elem? xs i ≡ some a
    → i < counted (λ y. leb y a) xs
unfolding counted
counted_below i a [] s e = ground arith
counted_below zero a (x ∷ xs) s e = ground (arith, some-injective x a e)
counted_below (suc i) a (x ∷ xs) s e =
    ground (arith, counted_below i a xs s.1 e, All-get_elem? x a i xs s.0 e)

counted_all : (a : ℕ) (xs : List ℕ) → All (λ x. a ≤ x) xs → length xs ≤ counted (λ x. leb a x) xs
unfolding counted
counted_all a [] h = omega arith
counted_all a (x ∷ xs) h = ground (arith, counted_all a xs h.1, h.0)

-- and at most `i` are below it.
counted_above :
    (i a : ℕ) (xs : List ℕ)
    → IsAscending xs
    → get_elem? xs i ≡ some a
    → length xs ≤ i + counted (λ y. leb a y) xs
unfolding counted
counted_above i a [] s e = ground arith
counted_above zero a (x ∷ xs) s e =
    subst (λ y. length (x ∷ xs) ≤ 0 + counted (λ z. leb y z) (x ∷ xs)) (some-injective x a e)
      (ground (arith, counted_all x xs s.0))
counted_above (suc i) a (x ∷ xs) s e = ground (arith, counted_above i a xs s.1 e)

counted_equal : (i a : ℕ) (xs : List ℕ) → get_elem? xs i ≡ some a → 0 < counted (λ y. y == a) xs
unfolding counted
counted_equal i a [] e = ground arith
counted_equal zero a (x ∷ xs) e = ground (arith, some-injective x a e)
counted_equal (suc i) a (x ∷ xs) e = ground (arith, counted_equal i a xs e)

-- `a` is one of the samples, more than `r` of them are not above it, and at most `r` are below it: it is the
-- sample at the index `r` when they are sorted.
pub record IsOrdinal (r a : ℕ) (samples : List ℕ) : Type 0 where
  pub is_sample : 0 < counted (λ y. y == a) samples
  pub below : r < counted (λ y. leb y a) samples
  pub above : length samples ≤ r + counted (λ y. leb a y) samples

get_elem?-IsOrdinal :
    (r a : ℕ) (samples : List ℕ) → get_elem? (sort ltb samples) r ≡ some a → IsOrdinal r a samples
get_elem?-IsOrdinal r a samples e =
    let sorted = sort ltb samples in
    let asc = sort-IsAscending samples in
    record {
      is_sample = rw (← counted-sort (λ y. y == a) samples) (counted_equal r a sorted e);
      below = rw (← counted-sort (λ y. leb y a) samples) (counted_below r a sorted asc e);
      above =
          rw (← counted-sort (λ y. leb a y) samples, ← length-sort ltb samples)
            (counted_above r a sorted asc e);
    }

-- `a` is a percentile of the samples: it is one of them, at least `percent` in a hundred of them, but for less
-- than one, are not above it, and at least `100 - percent` in a hundred are not below it.
pub record IsPercentile (percent a : ℕ) (samples : List ℕ) : Type 0 where
  pub is_sample : 0 < counted (λ y. y == a) samples
  pub below : percent * length samples < 100 * (counted (λ y. leb y a) samples + 1)
  pub above : 100 * length samples ≤ percent * length samples + 100 * counted (λ y. leb a y) samples

module _ (W : Type 0) ⦃d : Double W⦄ where
  -- the index that `compute_stats` reads for a percentile of `n` samples
  abbrev pub rank : ℕ → ℕ → ℕ
  rank percent n = index {W = W} (d.decimal (pos percent) 2) n

  -- What is known of a product with one of the literals 0.50, 0.90 and 0.99, rounded down, for numbers as small
  -- as 2^40: rounding lets it fall at most one short, and never rise.
  pub record IsHundredths : Type 0 where
    pub not_above :
        (percent n : ℕ) → percent < 100 → n < 2 ^ 40 → 100 * rank percent n ≤ percent * n
    pub not_short :
        (percent n : ℕ) → percent < 100 → n < 2 ^ 40 → percent * n < 100 * (rank percent n + 2)

  rank-lt : IsHundredths → (percent n : ℕ) → percent < 100 → 0 < n → n < 2 ^ 40 → rank percent n < n
  rank-lt laws percent n h k l = grind (arith, laws.not_above percent n h l)

  IsOrdinal-IsPercentile :
      IsHundredths
      → (percent a : ℕ) (samples : List ℕ) → percent < 100
      → length samples < 2 ^ 40
      → IsOrdinal (rank percent (length samples)) a samples
      → IsPercentile percent a samples
  IsOrdinal-IsPercentile laws percent a samples h l o = record {
    is_sample = o.is_sample;
    below = omega (arith, o.below, laws.not_short percent (length samples) h l);
    above = omega (arith, o.above, laws.not_above percent (length samples) h l);
  }

  -- What is read for a percentile is there, and is that percentile.
  get_elem?-IsPercentile :
      IsHundredths
      → (percent : ℕ) (samples : List ℕ) → percent < 100
      → 0 < length samples
      → length samples < 2 ^ 40
      → (a : ℕ) × (get_elem? (sort ltb samples) (rank percent (length samples)) ≡ some a)
        × IsPercentile percent a samples
  get_elem?-IsPercentile laws percent samples h k l =
      let inside = rank-lt laws percent (length samples) h k l in
      let (a, e) =
        get_elem?-some (rank percent (length samples)) (sort ltb samples)
          (rw (length-sort ltb samples) inside) in
      (
        a,
        e,
        IsOrdinal-IsPercentile laws percent a samples h l
            (get_elem?-IsOrdinal (rank percent (length samples)) a samples e),
      )

  -- what the statistics of some samples are
  pub record Describes (stats : Stats) (samples : List ℕ) : Type 0 where
    pub count : stats.count ≡ length samples
    pub average : stats.avg_ns ≡ total samples % 2 ^ 64 / length samples
    pub p50 : IsPercentile 50 stats.p50_ns samples
    pub p90 : IsPercentile 90 stats.p90_ns samples
    pub p99 : IsPercentile 99 stats.p99_ns samples

  -- If products with the literals for hundredths obey `IsHundredths`: for fewer than 2^40 samples, `compute_stats`
  -- reads no slot out of bounds and leaves the samples in ascending order. Without samples all statistics are
  -- zero. Else they are the number of samples, their sum (modulo 2^64) divided by it, and the percentiles for 50,
  -- 90 and 99. The one for p is a sample; at least p in a hundred of the samples, but for less than one, are not
  -- above it, and at least 100 - p in a hundred are not below it.
  pub compute_stats-Describes :
      IsHundredths
      → (samples : List ℕ) → length samples < 2 ^ 40
      → (stats : Stats) × ((compute_stats W samples).0 ≡ some stats)
        × (((samples ≡ [])
              × (stats ≡ record { p50_ns = 0; p90_ns = 0; p99_ns = 0; avg_ns = 0; count = 0 }))
            ⊎ Describes stats samples)
        × IsAscending (compute_stats W samples).1
        × Perm (compute_stats W samples).1 samples
  unfolding compute_stats
  compute_stats-Describes laws [] l = (_, refl, inl (refl, refl), tt, Perm.refl [])
  compute_stats-Describes laws (s ∷ samples) l =
      let all = s ∷ samples in
      let sorted = sort ltb all in
      let (a, ea, pa) = get_elem?-IsPercentile laws 50 all (omega arith) (omega arith) l in
      let (b, eb, pb) = get_elem?-IsPercentile laws 90 all (omega arith) (omega arith) l in
      let (c, ec, pc) = get_elem?-IsPercentile laws 99 all (omega arith) (omega arith) l in
      let stats : Stats = record {
        p50_ns = a;
        p90_ns = b;
        p99_ns = c;
        avg_ns = sum_from 0 sorted / length all;
        count = length all;
      } in
      (
        stats,
        rw (length-sort ltb all, ea, eb, ec, stats_of) refl,
        inr (record {
          count = refl;
          average = ap (λ t. t / length all) (sum-sorted all);
          p50 = pa;
          p90 = pb;
          p99 = pc;
        }),
        sort-IsAscending all,
        sort-perm ltb all,
      )
