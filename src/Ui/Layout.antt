-- ===== src/Ui/Layout.antt =====
-- Where the lines of the screen stand.
use ultra_low_latency_hft_en.Prelude.{
  ℕ, ◌+◌, ◌≤◌, ◌<◌, ◌≡◌, refl, subst, false, not, ◌&&◌, List, [], ◌∷◌, ◌++◌, length, All,
  All-append, arith, ◌==◌, ltb,
}
use ultra_low_latency_hft_en.Ui.{Line, Print, place}

module _ {ℓ} {W : Type ℓ} where
  -- The rows of the prints ascend, from `lo` on and below `hi`, in one column.
  unfoldable pub Stacked : ℕ → ℕ → ℕ → List (Print W) → Type 0
  Stacked col lo hi [] = lo ≤ hi
  Stacked col lo hi (p ∷ ps) = (p.col ≡ col) × (lo ≤ p.row) × Stacked col (p.row + 1) hi ps

  pub stack :
      (col lo mid hi : ℕ) (ps qs : List (Print W))
      → Stacked col lo mid ps
      → Stacked col mid hi qs
      → Stacked col lo hi (ps ++ qs)
  unfolding Stacked
  stack col lo mid hi [] [] h k = omega arith
  stack col lo mid hi [] (q ∷ qs) h k = (k.0, omega arith, k.2)
  stack col lo mid hi (p ∷ ps) qs h k = (h.0, h.1, stack col (p.row + 1) mid hi ps qs h.2 k)

  pub place-Stacked :
      (row col color : ℕ) (lines : List (Line W))
      → Stacked col row (row + length lines) (place row col color lines)
  unfolding Stacked place
  place-Stacked row col color [] = omega arith
  place-Stacked row col color (line ∷ lines) = (
    refl,
    omega arith,
    subst (λ n. Stacked col (row + 1) n (place (row + 1) col color lines)) (omega arith)
        (place-Stacked (row + 1) col color lines),
  )

  -- a longer band
  pub loosen :
      (col lo hi lo' hi' : ℕ) (ps : List (Print W))
      → lo' ≤ lo
      → hi ≤ hi'
      → Stacked col lo hi ps
      → Stacked col lo' hi' ps
  unfolding Stacked
  loosen col lo hi lo' hi' [] h k s = omega arith
  loosen col lo hi lo' hi' (p ∷ ps) h k s =
      (s.0, omega arith, loosen col (p.row + 1) hi (p.row + 1) hi' ps (omega arith) k s.2)

  -- No two of the prints stand in the same cell.
  abbrev pub IsApart : List (Print W) → Type 0
  IsApart [] = Unit
  IsApart (p ∷ ps) =
      All (λ (q : Print W). (p.row == q.row && p.col == q.col) ≡ false) ps × IsApart ps

  abbrev pub IsInBand : ℕ → ℕ → ℕ → Print W → Type 0
  IsInBand col lo hi p = (p.col ≡ col) × (lo ≤ p.row) × (p.row < hi)

  pub Stacked-le : (col lo hi : ℕ) (ps : List (Print W)) → Stacked col lo hi ps → lo ≤ hi
  unfolding Stacked
  Stacked-le col lo hi [] s = s
  Stacked-le col lo hi (p ∷ ps) s = omega (arith, s.1, Stacked-le col (p.row + 1) hi ps s.2)

  pub Stacked-All :
      (col lo lo' hi : ℕ) (ps : List (Print W))
      → lo ≤ lo'
      → Stacked col lo' hi ps
      → All (IsInBand col lo hi) ps
  unfolding Stacked
  Stacked-All col lo lo' hi [] h s = tt
  Stacked-All col lo lo' hi (p ∷ ps) h s = (
    (s.0, omega arith, omega (arith, Stacked-le col (p.row + 1) hi ps s.2)),
    Stacked-All col lo (p.row + 1) hi ps (omega arith) s.2,
  )

  apart_from :
      (p : Print W) (col lo hi : ℕ) (qs : List (Print W))
      → (p.col == col && not (ltb p.row lo)) ≡ false
      → All (IsInBand col lo hi) qs
      → All (λ (q : Print W). (p.row == q.row && p.col == q.col) ≡ false) qs
  apart_from p col lo hi [] h b = tt
  apart_from p col lo hi (q ∷ qs) h b = (ground arith, apart_from p col lo hi qs h b.1)

  pub Stacked-IsApart : (col lo hi : ℕ) (ps : List (Print W)) → Stacked col lo hi ps → IsApart ps
  unfolding Stacked
  Stacked-IsApart col lo hi [] s = tt
  Stacked-IsApart col lo hi (p ∷ ps) s = (
    apart_from p col (p.row + 1) hi ps (ground arith)
        (Stacked-All col (p.row + 1) (p.row + 1) hi ps (omega arith) s.2),
    Stacked-IsApart col (p.row + 1) hi ps s.2,
  )

  -- two bands that are apart, by their columns or by their rows
  pub bands-IsApart :
      (col lo hi col' lo' hi' : ℕ) (ps qs : List (Print W))
      → (col == col' && ltb lo' hi) ≡ false
      → All (IsInBand col lo hi) ps
      → IsApart ps
      → All (IsInBand col' lo' hi') qs
      → IsApart qs
      → IsApart (ps ++ qs)
  bands-IsApart col lo hi col' lo' hi' [] qs h b s c t = t
  bands-IsApart col lo hi col' lo' hi' (p ∷ ps) qs h b s c t = (
    All-append (λ (q : Print W). (p.row == q.row && p.col == q.col) ≡ false) ps qs s.0
        (apart_from p col' lo' hi' qs (ground arith) c),
    bands-IsApart col lo hi col' lo' hi' ps qs h b.1 s.1 c t,
  )

  -- a band above or beside two others
  pub above_both-IsApart :
      (col lo hi col' lo' hi' col'' lo'' hi'' : ℕ) (ps qs rs : List (Print W))
      → (col == col' && ltb lo' hi) ≡ false
      → (col == col'' && ltb lo'' hi) ≡ false
      → All (IsInBand col lo hi) ps
      → IsApart ps
      → All (IsInBand col' lo' hi') qs
      → All (IsInBand col'' lo'' hi'') rs
      → IsApart (qs ++ rs)
      → IsApart (ps ++ (qs ++ rs))
  above_both-IsApart col lo hi col' lo' hi' col'' lo'' hi'' [] qs rs h k b s c e t = t
  above_both-IsApart col lo hi col' lo' hi' col'' lo'' hi'' (p ∷ ps) qs rs h k b s c e t =
      let differs = λ (q : Print W). (p.row == q.row && p.col == q.col) ≡ false in
      (
        All-append differs ps (qs ++ rs) s.0 (
            All-append differs qs rs (apart_from p col' lo' hi' qs (ground arith) c)
              (apart_from p col'' lo'' hi'' rs (ground arith) e)),
        above_both-IsApart col lo hi col' lo' hi' col'' lo'' hi'' ps qs rs h k b.1 s.1 c e t,
      )
