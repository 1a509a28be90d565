-- ===== src/Core/MemoryPool/Tests.antt =====
-- A run of the memory pool's theorem: three calls on a pool of two slots that was used before.
use ultra_low_latency_hft_en.Prelude.{◌≡◌, refl, none, some, [], ◌∷◌}
use ultra_low_latency_hft_en.Core.MemoryPool.{MemoryPool, allocate, reset, allocations}

abbrev used : MemoryPool
used = record { next_free = 5 }

three-allocations : allocations 2 3 (reset used) ≡ some 0 ∷ some 1 ∷ none ∷ []
unfolding allocations allocate reset
three-allocations = refl
