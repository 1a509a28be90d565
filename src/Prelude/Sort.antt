-- ===== src/Prelude/Sort.antt =====
-- `std::sort` with a comparator, as insertion sort. Where no two elements tie, which is what the
-- callers establish, every sorting algorithm returns this list: `sort_unique`.
use mathlib.Core.List.{Perm, Mem, mem-cons_self}
use mathlib.Core.List.Perm
use ultra_low_latency_hft_en.Prelude.Tests.{if◌then◌else◌, Bool-cases}
use ultra_low_latency_hft_en.Prelude.Lists.{All, length}
use Prim.Native.Nat.{suc}
use mathlib.Core.Path.{◌≡◌, refl, ap, ap₂, sym, ◌∙◌}
use mathlib.Core.Logic.{◌⊎◌, inl, inr}
use mathlib.Core.Logic.Or
use mathlib.Core.Bool.{Bool, true, false, false≢true}
use mathlib.Core.List.{List, [], ◌∷◌, mem-cons, not-mem-nil}
use native.Mathlib.Omega.{arith}

module _ {ℓ} {A : Type ℓ} (before : A → A → Bool) where
  unfoldable pub insert_sorted : A → List A → List A
  insert_sorted x [] = x ∷ []
  insert_sorted x (y ∷ ys) = if before y x then y ∷ insert_sorted x ys else x ∷ y ∷ ys

  unfoldable pub sort : List A → List A
  unfolding insert_sorted
  sort [] = []
  sort (x ∷ xs) = insert_sorted x (sort xs)

  abbrev pub IsSorted : List A → Type ℓ
  IsSorted [] = Unit
  IsSorted (x ∷ xs) = All (λ y. before x y ≡ true) xs × IsSorted xs

  -- No two elements tie.
  abbrev pub Differs : A → A → Type 0
  Differs x y = (before x y ≡ true) ⊎ (before y x ≡ true)

  abbrev pub IsTieFree : List A → Type ℓ
  IsTieFree [] = Unit
  IsTieFree (x ∷ xs) = All (Differs x) xs × IsTieFree xs

  insert_sorted-perm : (x : A) (ys : List A) → Perm (insert_sorted x ys) (x ∷ ys)
  unfolding insert_sorted
  insert_sorted-perm x [] = Perm.refl (x ∷ [])
  insert_sorted-perm x (y ∷ ys) = elim (Bool-cases (before y x)) [
    | inl e ↦ rw e (Perm.trans (Perm.cons y (insert_sorted-perm x ys)) (Perm.swap x y ys))
    | inr e ↦ rw e (Perm.refl (x ∷ y ∷ ys))
  ]

  -- Sorting neither loses nor invents an element.
  pub sort-perm : (xs : List A) → Perm (sort xs) xs
  unfolding sort
  sort-perm [] = Perm.refl []
  sort-perm (x ∷ xs) = Perm.trans (insert_sorted-perm x (sort xs)) (Perm.cons x (sort-perm xs))

  pub insert_sorted-All {κ} :
      (P : A → Type κ) (x : A) (ys : List A) → P x → All P ys → All P (insert_sorted x ys)
  unfolding insert_sorted
  insert_sorted-All P x [] p ps = (p, tt)
  insert_sorted-All P x (y ∷ ys) p ps = elim (Bool-cases (before y x)) [
    | inl e ↦ rw e (ps.0, insert_sorted-All P x ys p ps.1)
    | inr e ↦ rw e (p, ps)
  ]

  pub sort-All {κ} : (P : A → Type κ) (xs : List A) → All P xs → All P (sort xs)
  unfolding sort
  sort-All P [] ps = tt
  sort-All P (x ∷ xs) ps = insert_sorted-All P x (sort xs) ps.0 (sort-All P xs ps.1)

  length-insert_sorted : (x : A) (ys : List A) → length (insert_sorted x ys) ≡ suc (length ys)
  unfolding insert_sorted
  length-insert_sorted x [] = refl
  length-insert_sorted x (y ∷ ys) = ground (arith, length-insert_sorted x ys)

  pub length-sort : (xs : List A) → length (sort xs) ≡ length xs
  unfolding sort
  length-sort [] = refl
  length-sort (x ∷ xs) = length-insert_sorted x (sort xs) ∙ ap suc (length-sort xs)

  module _ (trans : (x y z : A) → before x y ≡ true → before y z ≡ true → before x z ≡ true) where
    All-before :
        (x y : A) (zs : List A)
        → before x y ≡ true
        → All (λ z. before y z ≡ true) zs
        → All (λ z. before x z ≡ true) zs
    All-before x y [] h hs = tt
    All-before x y (z ∷ zs) h hs = (trans x y z h hs.0, All-before x y zs h hs.1)

    insert_sorted-IsSorted :
        (x : A) (ys : List A) → All (Differs x) ys → IsSorted ys → IsSorted (insert_sorted x ys)
    unfolding insert_sorted
    insert_sorted-IsSorted x [] d s = (tt, tt)
    insert_sorted-IsSorted x (y ∷ ys) d s = elim (Bool-cases (before y x)) [
      | inl e ↦ rw e (
        insert_sorted-All (λ z. before y z ≡ true) x ys e s.0,
        insert_sorted-IsSorted x ys d.1 s.1,
      )
      | inr e ↦
          let less : before x y ≡ true = ground arith in
          rw e ((less, All-before x y ys less s.0), s)
    ]

    -- Elements that do not tie come out in strict order.
    pub sort-IsSorted : (xs : List A) → IsTieFree xs → IsSorted (sort xs)
    unfolding sort
    sort-IsSorted [] d = tt
    sort-IsSorted (x ∷ xs) d =
        insert_sorted-IsSorted x (sort xs) (sort-All (Differs x) xs d.0) (sort-IsSorted xs d.1)

  pub IsTieFree-of_IsSorted : (xs : List A) → IsSorted xs → IsTieFree xs
  IsTieFree-of_IsSorted [] s = tt
  IsTieFree-of_IsSorted (x ∷ xs) s = (weaken xs s.0, IsTieFree-of_IsSorted xs s.1)
    where
      weaken : (ys : List A) → All (λ y. before x y ≡ true) ys → All (Differs x) ys
      weaken [] h = tt
      weaken (y ∷ ys) h = (inl h.0, weaken ys h.1)

  module _ (set : IsSet A) (irrefl : (x : A) → before x x ≡ false)
      (trans : (x y z : A) → before x y ≡ true → before y z ≡ true → before x z ≡ true) where
    before_of_mem :
        (x y : A) (zs : List A) → All (λ z. before x z ≡ true) zs → Mem y zs → before x y ≡ true
    before_of_mem x y [] h m = absurd (not-mem-nil m)
    before_of_mem x y (z ∷ zs) h m =
        Or.elim (hlevel) (mem-cons.0 m) (λ e. rw e h.0) (before_of_mem x y zs h.1)

    heads_agree :
        (x y : A) (xs ys : List A)
        → IsSorted (x ∷ xs)
        → IsSorted (y ∷ ys)
        → Perm (x ∷ xs) (y ∷ ys)
        → x ≡ y
    heads_agree x y xs ys sx sy p =
        Or.elim (set x y) (mem-cons.0 ((Perm.mem_iff p).0 mem-cons_self)) (λ e. e)
          λ m.
            Or.elim (set x y) (mem-cons.0 ((Perm.mem_iff (Perm.symm p)).0 mem-cons_self))
              (λ e. sym e)
              λ n. absurd (
                false≢true (
                  sym (irrefl x)
                  ∙ trans x y x (before_of_mem x y xs sx.0 n) (before_of_mem y x ys sy.0 m)))

    -- A list has at most one strictly sorted permutation.
    pub IsSorted-unique : (xs ys : List A) → IsSorted xs → IsSorted ys → Perm xs ys → xs ≡ ys
    IsSorted-unique [] ys sx sy p = sym (Perm.eq-nil (Perm.symm p))
    IsSorted-unique (x ∷ xs) [] sx sy p = Perm.eq-nil p
    IsSorted-unique (x ∷ xs) (y ∷ ys) sx sy p =
        let e = heads_agree x y xs ys sx sy p in
        ap₂ ◌∷◌ e (
          IsSorted-unique xs ys sx.1 sy.1
            (Perm.cons_inv (Perm.trans p (Perm.cons' (sym e) (Perm.refl ys)))))

    -- Whatever `std::sort` does, it returns what `sort` returns, if no two elements tie.
    pub sort_unique : (xs ys : List A) → IsTieFree xs → Perm ys xs → IsSorted ys → ys ≡ sort xs
    sort_unique xs ys free p s =
        IsSorted-unique ys (sort xs) s (sort-IsSorted trans xs free)
          (Perm.trans p (Perm.symm (sort-perm xs)))
