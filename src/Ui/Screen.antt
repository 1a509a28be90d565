-- ===== src/Ui/Screen.antt =====
-- What the screen shows, and when it asks to close.
use ultra_low_latency_hft_en.Prelude.{
  ℕ, ◌+◌, ◌≤◌, ◌<◌, ◌≡◌, refl, ◌↔◌, ◌⊎◌, true, false, Option, none, some, List, [], ◌∷◌, length,
  All, All-append, arith, ltb, if◌then◌else◌, length-take,
}
use ultra_low_latency_hft_en.Double.{Double}
use ultra_low_latency_hft_en.OrderBook.{OrderBook, get_top_asks, get_top_bids}
use ultra_low_latency_hft_en.Ui.{
  Print, Dashboard, TerminalUi, backwards, left, left_end, right, right_end, bottom, screen, update,
}
use ultra_low_latency_hft_en.Ui.Layout.{
  IsApart, IsInBand, Stacked-All, Stacked-IsApart, bands-IsApart, above_both-IsApart,
}
use ultra_low_latency_hft_en.Ui.Columns.{left-Stacked, right-Stacked, bottom-Stacked}

module _ {ℓ} {W : Type ℓ} where
  below_all :
      (col lo hi n : ℕ) (ps : List (Print W))
      → hi ≤ n
      → All (IsInBand col lo hi) ps
      → All (λ (p : Print W). p.row < n) ps
  below_all col lo hi n [] h b = tt
  below_all col lo hi n (p ∷ ps) h b = (omega arith, below_all col lo hi n ps h b.1)

module _ {ℓ} {W : Type ℓ} ⦃d : Double W⦄ where
  left_end_le : (b : OrderBook W) (v : Dashboard W) → left_end b v ≤ length v.strategy_stats + 20
  unfolding left_end get_top_asks get_top_bids
  left_end_le b v = omega (arith, length-take 5 b.asks, length-take 5 b.bids)

  right_end_le : (v : Dashboard W) → right_end v ≤ 23
  unfolding right_end
  right_end_le v = omega (arith, length-take 8 v.open_orders, length-take 8 (backwards v.trades))

  -- No two lines of the dashboard start in the same cell of the screen, however many strategies, levels,
  -- orders and trades there are; and with up to three strategies a terminal of 30 rows shows them all.
  pub screen-IsApart :
      (b : OrderBook W) (v : Dashboard W)
      → IsApart (screen b v)
        × (length v.strategy_stats ≤ 3 → All (λ (p : Print W). p.row < 30) (screen b v))
  unfolding screen
  screen-IsApart b v =
      let l = left_end b v in
      let r = right_end v in
      let row = (if ltb l r then r else l) + 2 in
      let l_rows = left-Stacked b v in
      let r_rows = right-Stacked v in
      let b_rows = bottom-Stacked row v in
      let l_band = Stacked-All 0 0 0 l (left b v) (omega arith) l_rows in
      let r_band = Stacked-All 50 4 4 r (right v) (omega arith) r_rows in
      let b_band = Stacked-All 0 row row (row + 5) (bottom row v) (omega arith) b_rows in
      let lower =
        bands-IsApart 50 4 r 0 row (row + 5) (right v) (bottom row v) refl r_band
          (Stacked-IsApart 50 4 r (right v) r_rows) b_band
          (Stacked-IsApart 0 row (row + 5) (bottom row v) b_rows) in
      (
        above_both-IsApart 0 0 l 50 4 r 0 row (row + 5) (left b v) (right v) (bottom row v) refl
            (ground arith) l_band (Stacked-IsApart 0 0 l (left b v) l_rows) r_band b_band lower,
        (λ few.
            let l_le = left_end_le b v in
            let r_le = right_end_le v in
            All-append (λ (p : Print W). p.row < 30) (left b v) _
              (below_all 0 0 l 30 (left b v) (omega arith) l_band)
              (All-append (λ (p : Print W). p.row < 30) (right v) _
                (below_all 50 4 r 30 (right v) (omega arith) r_band)
                (below_all 0 row (row + 5) 30 (bottom row v) (ground arith) b_band))),
      )

  -- In a build with ncurses each `update` shows the whole screen, and the screen asks to close when the
  -- key read was q or it did so before; in a build without, nothing is shown and no key closes it.
  update_lem :
      (b : OrderBook W) (v : Dashboard W) (key : Option ℕ) (ui : TerminalUi)
      → let o = update true b v key ui in
        (o.0 ≡ screen b v)
        × ((o.1.should_close ≡ true) ↔ ((key ≡ some b'q') ⊎ (ui.should_close ≡ true)))
        × (update false b v key ui ≡ ([], ui))
  update_lem b v none ui = unfold update in (refl, ground arith, refl)
  update_lem b v (some ch) ui = unfold update in (refl, ground arith, refl)
