-- ===== src/Prelude/Table.antt =====
-- `std::map` and `std::unordered_map` with integer keys, as association lists.
use ultra_low_latency_hft_en.Prelude.Tests.{◌==◌, if◌then◌else◌}
use Prim.Native.Nat.{ℕ}
use mathlib.Core.Path.{◌≡◌, refl}
use mathlib.Core.Logic.{◌≢◌}
use mathlib.Core.Option.{Option, none, some}
use mathlib.Core.List.{List, [], ◌∷◌}
use native.Mathlib.Omega.{arith}

module _ {ℓ} {V : Type ℓ} where
  unfoldable pub find : ℕ → List (ℕ × V) → Option V
  find k [] = none
  find k ((j, v) ∷ m) = if j == k then some v else find k m

  -- `m[k] = v`
  unfoldable pub assign : ℕ → V → List (ℕ × V) → List (ℕ × V)
  assign k v [] = (k, v) ∷ []
  assign k v ((j, w) ∷ m) = if j == k then (k, v) ∷ m else (j, w) ∷ assign k v m

  -- `m.erase(m.find(k))`
  unfoldable pub erase : ℕ → List (ℕ × V) → List (ℕ × V)
  erase k [] = []
  erase k ((j, w) ∷ m) = if j == k then m else (j, w) ∷ erase k m

  -- No key occurs twice.
  abbrev pub IsFresh : ℕ → List (ℕ × V) → Type 0
  IsFresh k [] = Unit
  IsFresh k ((j, v) ∷ m) = (j ≢ k) × IsFresh k m

  abbrev pub HasKeysOnce : List (ℕ × V) → Type 0
  HasKeysOnce [] = Unit
  HasKeysOnce ((j, v) ∷ m) = IsFresh j m × HasKeysOnce m

  pub find-assign :
      (k j : ℕ) (v : V) (m : List (ℕ × V))
      → find j (assign k v m) ≡ (if k == j then some v else find j m)
  unfolding find assign
  find-assign k j v [] = refl
  find-assign k j v ((i, w) ∷ m) = ground (arith, find-assign k j v m)

  pub find_of_IsFresh : (k : ℕ) (m : List (ℕ × V)) → IsFresh k m → find k m ≡ none
  unfolding find
  find_of_IsFresh k [] h = refl
  find_of_IsFresh k ((j, v) ∷ m) h = ground (arith, find_of_IsFresh k m)

  pub find-erase :
      (k j : ℕ) (m : List (ℕ × V))
      → HasKeysOnce m
      → find j (erase k m) ≡ (if k == j then none else find j m)
  unfolding find erase
  find-erase k j [] h = ground arith
  find-erase k j ((i, w) ∷ m) h = ground (arith, find-erase k j m, find_of_IsFresh i m)

  IsFresh-assign :
      (i k : ℕ) (v : V) (m : List (ℕ × V)) → k ≢ i → IsFresh i m → IsFresh i (assign k v m)
  unfolding assign
  IsFresh-assign i k v [] h f = (h, tt)
  IsFresh-assign i k v ((j, w) ∷ m) h f = ground (arith, IsFresh-assign i k v m)

  IsFresh-erase : (i k : ℕ) (m : List (ℕ × V)) → IsFresh i m → IsFresh i (erase k m)
  unfolding erase
  IsFresh-erase i k [] f = tt
  IsFresh-erase i k ((j, w) ∷ m) f = ground (arith, IsFresh-erase i k m)

  pub assign-HasKeysOnce :
      (k : ℕ) (v : V) (m : List (ℕ × V)) → HasKeysOnce m → HasKeysOnce (assign k v m)
  unfolding assign
  assign-HasKeysOnce k v [] h = (tt, tt)
  assign-HasKeysOnce k v ((j, w) ∷ m) h =
      ground (arith, assign-HasKeysOnce k v m, IsFresh-assign j k v m)

  pub erase-HasKeysOnce : (k : ℕ) (m : List (ℕ × V)) → HasKeysOnce m → HasKeysOnce (erase k m)
  unfolding erase
  erase-HasKeysOnce k [] h = tt
  erase-HasKeysOnce k ((j, w) ∷ m) h = ground (arith, erase-HasKeysOnce k m, IsFresh-erase j k m)
