-- ===== src/OrderBook/Sides.antt =====
-- One side of the book: the search, the write or append, and the sort, for either comparator.
use ultra_low_latency_hft_en.Prelude.{
  ◌≤◌, ◌≡◌, refl, ◌∙◌, inl, inr, Bool, true, false, Option, none, some, List, [], ◌∷◌, ◌++◌, length,
  length-append, All, All-append, ltb, if◌then◌else◌, arith, Bool-cases,
}
use ultra_low_latency_hft_en.Prelude.Sort.{
  sort, insert_sorted, IsSorted, IsTieFree, Differs, IsTieFree-of_IsSorted,
}
use ultra_low_latency_hft_en.Double.{Double, eq, IsNumber}
use ultra_low_latency_hft_en.Double.Order.{IsOrdered, lt_not_eq, lt_not_eq'}
use ultra_low_latency_hft_en.OrderBook.{
  Level, higher, lower, max_levels, has_price, replace, put_level,
}

module _ {ℓ} {W : Type ℓ} ⦃d : Double W⦄ where
  -- What the two comparators have in common.
  pub record IsPriceOrder (before : Level W → Level W → Bool) : Type ℓ where
    pub irrefl : (l : Level W) → before l l ≡ false
    pub trans : (j k l : Level W) → before j k ≡ true → before k l ≡ true → before j l ≡ true
    -- the quantity does not count
    pub left : (l k : Level W) (q : W) → before (record l { quantity = q }) k ≡ before l k
    pub right : (l k : Level W) (q : W) → before l (record k { quantity = q }) ≡ before l k
    -- levels in order have different prices, and levels with different prices are in some order
    pub apart :
        (l k : Level W) (p : W) → before l k ≡ true → eq l.price p ≡ true → eq k.price p ≡ false
    pub total :
        (l k : Level W)
        → IsNumber l.price
        → IsNumber k.price
        → eq l.price k.price ≡ false
        → Differs before l k

  pub higher-IsPriceOrder : IsOrdered W → IsPriceOrder higher
  higher-IsPriceOrder laws = record {
    irrefl = λ l. laws.lt_irrefl l.price;
    trans = λ j k l h g. laws.lt_trans l.price k.price j.price g h;
    left = λ l k q. refl;
    right = λ l k q. refl;
    apart = λ l k p h e. ground (arith, laws.lt_eq k.price l.price p, lt_not_eq laws k.price p);
    total = λ l k m n e. ground (arith, laws.total l.price k.price m n e);
  }

  pub lower-IsPriceOrder : IsOrdered W → IsPriceOrder lower
  lower-IsPriceOrder laws = record {
    irrefl = λ l. laws.lt_irrefl l.price;
    trans = λ j k l h g. laws.lt_trans j.price k.price l.price h g;
    left = λ l k q. refl;
    right = λ l k q. refl;
    apart = λ l k p h e.
        ground
          (arith, laws.eq_sym l.price p, laws.eq_lt p l.price k.price, lt_not_eq' laws p k.price);
    total = λ l k m n e. ground (arith, laws.total l.price k.price m n e);
  }

  -- The quantity that a side shows at a price.
  unfoldable pub quantity_at : W → List (Level W) → Option W
  quantity_at p [] = none
  quantity_at p (l ∷ ls) = if eq l.price p then some l.quantity else quantity_at p ls

  abbrev pub HasNumbers : List (Level W) → Type 0
  HasNumbers = All λ l. IsNumber l.price

  pub replace-All {κ} :
      (P : Level W → Type κ) (p q : W) (ls : List (Level W))
      → ((l : Level W) → P l → P (record l { quantity = q }))
      → All P ls
      → All P (replace p q ls)
  unfolding replace
  replace-All P p q [] keep h = tt
  replace-All P p q (l ∷ ls) keep h = elim (Bool-cases (eq l.price p)) [
    | inl e ↦ rw e (keep l h.0, h.1)
    | inr e ↦ rw e (h.0, replace-All P p q ls keep h.1)
  ]

  pub length-replace : (p q : W) (ls : List (Level W)) → length (replace p q ls) ≡ length ls
  unfolding replace
  length-replace p q [] = refl
  length-replace p q (l ∷ ls) = ground (arith, length-replace p q ls)

  -- The three outcomes of the search and the append.
  put_level-cases {κ} :
      (P : List (Level W) → Type κ) (p q : W) (ls : List (Level W))
      → (has_price p ls ≡ true → P (replace p q ls))
      → (has_price p ls ≡ false
          → ltb (length ls) max_levels ≡ true
          → P (ls ++ record { price = p; quantity = q } ∷ []))
      → P ls
      → P (put_level p q ls)
  unfolding put_level
  put_level-cases P p q ls old new full = elim (Bool-cases (has_price p ls)) [
    | inl e ↦ rw e (old e)
    | inr e ↦ elim (Bool-cases (ltb (length ls) max_levels)) [
      | inl r ↦ rw (e, r) (new e r)
      | inr r ↦ rw (e, r) full
    ]
  ]

  pub length-put_level :
      (p q : W) (ls : List (Level W))
      → length ls ≤ max_levels
      → length (put_level p q ls) ≤ max_levels
  length-put_level p q ls h =
      put_level-cases (λ ks. length ks ≤ max_levels) p q ls
        (λ e. omega (arith, length-replace p q ls))
        (λ e r. ground (arith, length-append ls (record { price = p; quantity = q } ∷ []))) h

  pub put_level-HasNumbers :
      (p q : W) (ls : List (Level W)) → IsNumber p → HasNumbers ls → HasNumbers (put_level p q ls)
  put_level-HasNumbers p q ls n h =
      put_level-cases HasNumbers p q ls
        (λ e. replace-All (λ l. IsNumber l.price) p q ls (λ l m. m) h)
        (λ e r. All-append (λ l. IsNumber l.price) ls _ h (n, tt)) h

  module _ (before : Level W → Level W → Bool) (order : IsPriceOrder before) where
    open order use {irrefl, trans, left, right, apart, total}

    replace-IsSorted :
        (p q : W) (ls : List (Level W)) → IsSorted before ls → IsSorted before (replace p q ls)
    unfolding replace
    replace-IsSorted p q [] s = tt
    replace-IsSorted p q (l ∷ ls) s = elim (Bool-cases (eq l.price p)) [
      | inl e ↦ rw e (relabel ls s.0, s.1)
      | inr e ↦ rw e (
        replace-All (λ k. before l k ≡ true) p q ls (λ k b. right l k q ∙ b) s.0,
        replace-IsSorted p q ls s.1,
      )
    ]
      where
        relabel :
            (ks : List (Level W))
            → All (λ k. before l k ≡ true) ks
            → All (λ k. before (record l { quantity = q }) k ≡ true) ks
        relabel [] h = tt
        relabel (k ∷ ks) h = (left l k q ∙ h.0, relabel ks h.1)

    append-IsTieFree :
        (x : Level W) (ls : List (Level W))
        → All (λ l. Differs before l x) ls
        → IsTieFree before ls
        → IsTieFree before (ls ++ x ∷ [])
    append-IsTieFree x [] h f = (tt, tt)
    append-IsTieFree x (l ∷ ls) h f =
        (All-append (Differs before l) ls (x ∷ []) f.0 (h.0, tt), append-IsTieFree x ls h.1 f.1)

    new_price-Differs :
        (x : Level W) (ls : List (Level W))
        → IsNumber x.price
        → HasNumbers ls
        → has_price x.price ls ≡ false
        → All (λ l. Differs before l x) ls
    unfolding has_price
    new_price-Differs x [] n h e = tt
    new_price-Differs x (l ∷ ls) n h e =
        let apart_l : eq l.price x.price ≡ false = ground arith in
        (total l x h.0 n apart_l, new_price-Differs x ls n h.1 (ground arith))

    pub put_level-IsTieFree :
        (p q : W) (ls : List (Level W))
        → IsNumber p
        → HasNumbers ls
        → IsSorted before ls
        → IsTieFree before (put_level p q ls)
    put_level-IsTieFree p q ls n h s =
        put_level-cases (IsTieFree before) p q ls
          (λ e. IsTieFree-of_IsSorted before (replace p q ls) (replace-IsSorted p q ls s))
          (λ e r.
            append-IsTieFree (record { price = p; quantity = q }) ls
              (new_price-Differs (record { price = p; quantity = q }) ls n h e)
              (IsTieFree-of_IsSorted before ls s))
          (IsTieFree-of_IsSorted before ls s)

    quantity_at-insert_sorted :
        (p : W) (x : Level W) (ls : List (Level W))
        → quantity_at p (insert_sorted before x ls)
          ≡ (if eq x.price p then some x.quantity else quantity_at p ls)
    unfolding quantity_at insert_sorted
    quantity_at-insert_sorted p x [] = refl
    quantity_at-insert_sorted p x (l ∷ ls) =
        ground (arith, quantity_at-insert_sorted p x ls, apart l x p)

    -- Sorting a side does not change what it shows at any price.
    pub quantity_at-sort :
        (p : W) (ls : List (Level W)) → quantity_at p (sort before ls) ≡ quantity_at p ls
    unfolding quantity_at sort
    quantity_at-sort p [] = refl
    quantity_at-sort p (l ∷ ls) =
        ground (arith, quantity_at-insert_sorted p l (sort before ls), quantity_at-sort p ls)
