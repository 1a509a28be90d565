-- ===== src/Analytics/Tests.antt =====
-- A run of the statistics and of their theorem, with hundredths in place of doubles.
use mathlib.Core.List.{Perm}
use ultra_low_latency_hft_en.Prelude.{ℕ, List, ◌⊎◌, ◌*◌, ◌/◌, ◌^◌, ◌≡◌, refl, some, [], ◌∷◌, arith}
use ultra_low_latency_hft_en.Prelude.Int.{ℤ, pos, pos_part}
use ultra_low_latency_hft_en.Prelude.Sort.{sort, insert_sorted}
use ultra_low_latency_hft_en.Double.{Double}
use ultra_low_latency_hft_en.Double.Whole.{whole_double}
use ultra_low_latency_hft_en.Analytics.{Stats, sum_from, stats_of, compute_stats}
use ultra_low_latency_hft_en.Analytics.Percentiles.{
  IsAscending, rank, IsHundredths, Describes, compute_stats-Describes,
}

abbrev product : ℤ → ℤ → ℤ
product x y = pos (pos_part x * pos_part y / 100)

-- `pos n` is n hundredths
abbrev hundredths : Double ℤ
hundredths = record whole_double {
  decimal = λ m k. pos (pos_part m * 100 / 10 ^ k);
  mul = product;
  trunc = λ x. pos_part x / 100;
}

abbrev four_samples : Stats
four_samples = record { p50_ns = 30; p90_ns = 40; p99_ns = 40; avg_ns = 25; count = 4 }

stats-of_four :
    compute_stats ℤ ⦃d = hundredths⦄ (40 ∷ 10 ∷ 30 ∷ 20 ∷ [])
    ≡ (some four_samples, 10 ∷ 20 ∷ 30 ∷ 40 ∷ [])
unfolding compute_stats stats_of sum_from sort insert_sorted
stats-of_four = refl

rank-of_hundredths : (percent n : ℕ) → rank ℤ ⦃d = hundredths⦄ percent n ≡ n * percent / 100
rank-of_hundredths percent n =
    let whole : n * 100 / 1 ≡ n * 100 = omega arith in
    let part : percent * 100 / 100 ≡ percent = omega arith in
    let scaled : n * 100 * percent / 100 ≡ n * percent = grind arith in
    rw (whole, part, scaled) refl

hundredths-IsHundredths : IsHundredths ℤ ⦃d = hundredths⦄
hundredths-IsHundredths = record {
  not_above = λ percent n h l. rw (rank-of_hundredths percent n) (grind arith);
  not_short = λ percent n h l. rw (rank-of_hundredths percent n) (grind arith);
}

compute_stats-Describes_example :
    (stats : Stats) × ((compute_stats ℤ ⦃d = hundredths⦄ (40 ∷ 10 ∷ 30 ∷ 20 ∷ [])).0 ≡ some stats)
    × (((◌≡◌ {A = List ℕ} (40 ∷ 10 ∷ 30 ∷ 20 ∷ []) [])
          × (stats ≡ record { p50_ns = 0; p90_ns = 0; p99_ns = 0; avg_ns = 0; count = 0 }))
        ⊎ Describes ℤ ⦃d = hundredths⦄ stats (40 ∷ 10 ∷ 30 ∷ 20 ∷ []))
    × IsAscending (compute_stats ℤ ⦃d = hundredths⦄ (40 ∷ 10 ∷ 30 ∷ 20 ∷ [])).1
    × Perm (compute_stats ℤ ⦃d = hundredths⦄ (40 ∷ 10 ∷ 30 ∷ 20 ∷ [])).1 (40 ∷ 10 ∷ 30 ∷ 20 ∷ [])
compute_stats-Describes_example =
    compute_stats-Describes ℤ ⦃d = hundredths⦄ hundredths-IsHundredths (40 ∷ 10 ∷ 30 ∷ 20 ∷ [])
      (omega arith)
