-- ===== src/Core/MemoryPool.antt =====
-- `core/memory_pool.hpp`: a counter over preallocated slots. A pointer into the pool is the index
-- of its slot. Each call accesses the counter once, so calls of several threads are calls one after
-- another.
mod Tests
use ultra_low_latency_hft_en.Prelude.{
  ℕ, zero, suc, ◌+◌, ◌%◌, ◌^◌, ◌≤◌, ◌<◌, ◌≡◌, refl, subst, sym, ◌∙◌, inl, inr, Bool, true, false,
  Option, none, some, some-injective, List, [], ◌∷◌, ltb, if◌then◌else◌, add_u64, get_elem?, arith,
  Bool-cases,
}

pub record MemoryPool : Type 0 where
  pub next_free : ℕ

abbrev pub init : MemoryPool
init = record { next_free = 0 }

-- `size` is the template argument `Size`; no slot is `nullptr`.
unfoldable pub allocate : ℕ → MemoryPool → Option ℕ × MemoryPool
allocate size p = (
  if ltb p.next_free size then some p.next_free else none,
  record p { next_free = add_u64 p.next_free 1 },
)

unfoldable pub reset : MemoryPool → MemoryPool
reset p = record p { next_free = 0 }

-- what a number of calls of `allocate` return
unfoldable pub allocations : ℕ → ℕ → MemoryPool → List (Option ℕ)
allocations size zero p = []
allocations size (suc n) p = let (slot, p') = allocate size p in slot ∷ allocations size n p'

get_elem?-allocations :
    (size n i : ℕ) (p : MemoryPool)
    → p.next_free + n < 2 ^ 64
    → i < n
    → get_elem? (allocations size n p) i
      ≡ some (if ltb (p.next_free + i) size then some (p.next_free + i) else none)
unfolding allocations allocate
get_elem?-allocations size zero i p h k = absurd (omega (arith, k))
get_elem?-allocations size (suc n) zero p h k =
    let e : p.next_free + 0 ≡ p.next_free = omega arith in rw e refl
get_elem?-allocations size (suc n) (suc i) p h k =
    let e : p.next_free + suc i ≡ add_u64 p.next_free 1 + i = omega arith in
    rw e (get_elem?-allocations size n i (allocate size p).1 (omega arith) (omega arith))

-- Of fewer than 2^64 calls of `allocate` after a `reset`, each of the first `size` gets a slot of
-- its own, in order, and the later ones fail: no slot is handed out twice.
allocations-reset :
    (size n i : ℕ) (p : MemoryPool)
    → n < 2 ^ 64
    → i < n
    → get_elem? (allocations size n (reset p)) i ≡ some (if ltb i size then some i else none)
unfolding reset
allocations-reset size n i p h k =
    let e : 0 + i ≡ i = omega arith in
    subst
      (λ j. get_elem? (allocations size n (reset p)) i ≡ some (if ltb j size then some j else none))
      e (get_elem?-allocations size n i (reset p) (omega arith) k)
