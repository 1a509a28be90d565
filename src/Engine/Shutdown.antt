-- ===== src/Engine/Shutdown.antt =====
-- When the loop of the main thread ends, and with it the program.
use ultra_low_latency_hft_en.Prelude.{
  ℕ, ◌+◌, ◌%◌, ◌≡◌, ◌≢◌, refl, ◌∙◌, ap, Bool, true, false, not, ◌&&◌, ◌||◌, Option, none, some,
  List, [], ◌∷◌, ◌++◌, ◌==◌, arith, Bool-cases, inl, inr,
}
use ultra_low_latency_hft_en.Double.{Double}
use ultra_low_latency_hft_en.Text.{Spelling}
use ultra_low_latency_hft_en.Replay.{ReplayEngine, Moment, run}
use ultra_low_latency_hft_en.Replay.Pushes.{run-IsBounded}
use ultra_low_latency_hft_en.Ui
use ultra_low_latency_hft_en.Ui.{TerminalUi, Dashboard, Print}
use ultra_low_latency_hft_en.OrderBook.{OrderBook}
use ultra_low_latency_hft_en.Engine.Arguments.{
  Mode, live, replay, hybrid, from_file, one, is_finished,
}
use ultra_low_latency_hft_en.Engine.UiLoop.{
  UiLoop, Seen, started, is_replay, goes_on, events_per_sec, show_round, round, rounds,
}

abbrev is_quit : Option ℕ → Bool
is_quit none = false
is_quit (some ch) = ch == b'q'

module _ {ℓ} {W : Type ℓ} ⦃d : Double W⦄ where
  update-should_close :
      (ncurses : Bool) (b : OrderBook W) (v : Dashboard W) (key : Option ℕ) (ui : TerminalUi)
      → (Ui.update ncurses b v key ui).1.should_close
        ≡ (ui.should_close || (ncurses && is_quit key))
  unfolding Ui.update
  update-should_close false b v key ui = ground arith
  update-should_close true b v none ui = ground arith
  update-should_close true b v (some ch) ui = ground arith

module _ {ℓ} {W : Type ℓ} ⦃d : Double W⦄ (ncurses : Bool) (mode : Mode) where
  -- Round `n` ends the loop: in the mode REPLAY when the feed is finished; in any mode, with ncurses,
  -- when q was pressed and the round is one of those that draw the screen.
  unfoldable pub ends : ℕ → Seen W → Bool
  ends n seen =
      (is_replay mode && seen.is_finished) || (ncurses && (n % 2 == 0) && is_quit seen.key)

  -- None of the rounds ends the loop, the first being round `n`.
  unfoldable pub none_ends : ℕ → List (Seen W) → Bool
  unfolding ends
  none_ends n [] = true
  none_ends n (seen ∷ later) = not (ends n seen) && none_ends (n + 1) later

  -- a round that shows something: the counter, and whether the loop goes on
  show_round_lem :
      (seen : Seen W) (l : UiLoop)
      → goes_on l ≡ true
      → (goes_on (show_round ncurses mode seen l).1
          ≡ not (ncurses && (l.ui_counter % 2 == 0) && is_quit seen.key))
        × ((show_round ncurses mode seen l).1.ui_counter ≡ l.ui_counter + 1)
  unfolding show_round
  show_round_lem seen l h = elim (Bool-cases (l.ui_counter % 2 == 0)) [
    | inl e ↦ rw e (
      ground (
        arith,
        update-should_close ncurses seen.order_book
            (record seen.values { events_per_sec = events_per_sec seen.now seen.total_pushed l })
            seen.key l.ui,
      ),
      refl,
    )
    | inr e ↦ rw e (ground arith, refl)
  ]

  round_lem :
      (seen : Seen W) (l : UiLoop)
      → goes_on l ≡ true
      → (goes_on (round ncurses mode seen l).1 ≡ not (ends l.ui_counter seen))
        × (ends l.ui_counter seen ≡ false
            → (round ncurses mode seen l).1.ui_counter ≡ l.ui_counter + 1)
  unfolding round ends
  round_lem seen l h = elim (Bool-cases (is_replay mode && seen.is_finished)) [
    | inl e ↦ rw e (ground arith, (λ k. cc))
    | inr e ↦ let (goes, counts) = show_round_lem seen l h in rw e (goes, (λ k. counts))
  ]

  -- The loop has ended.
  pub rounds_ended :
      (seens : List (Seen W)) (l : UiLoop)
      → goes_on l ≡ false
      → rounds ncurses mode seens l ≡ ([], l)
  unfolding rounds
  rounds_ended [] l h = refl
  rounds_ended (seen ∷ later) l h = rw (h, rounds) refl

  rounds-cons :
      (seen : Seen W) (later : List (Seen W)) (l : UiLoop)
      → goes_on l ≡ true
      → (rounds ncurses mode (seen ∷ later) l).1
        ≡ (rounds ncurses mode later (round ncurses mode seen l).1).1
  unfolding rounds
  rounds-cons seen later l h = rw (h, rounds) refl

  rounds_from :
      (seens : List (Seen W)) (l : UiLoop)
      → goes_on l ≡ true
      → goes_on (rounds ncurses mode seens l).1 ≡ none_ends l.ui_counter seens
  unfolding none_ends
  rounds_from [] l h = unfold rounds in h
  rounds_from (seen ∷ later) l h =
      let (goes, counts) = round_lem seen l h in
      let l' = (round ncurses mode seen l).1 in
      elim (Bool-cases (ends l.ui_counter seen)) [
        | inl e ↦
            let off : goes_on l' ≡ false = goes ∙ ap not e in
            rw (rounds-cons seen later l h, rounds_ended later l' off, e) off
        | inr e ↦
            let on : goes_on l' ≡ true = goes ∙ ap not e in
            rw (rounds-cons seen later l h, rounds_from later l' on, counts e, e) refl
      ]

  rounds-append :
      (seens more : List (Seen W)) (l : UiLoop)
      → (rounds ncurses mode (seens ++ more) l).1
        ≡ (rounds ncurses mode more (rounds ncurses mode seens l).1).1
  rounds-append [] more l = unfold rounds in refl
  rounds-append (seen ∷ later) more l = elim (Bool-cases (goes_on l)) [
    | inl e ↦
        rw (rounds-cons seen (later ++ more) l e, rounds-cons seen later l e)
          (rounds-append later more (round ncurses mode seen l).1)
    | inr e ↦
        rw
          (
            rounds_ended (seen ∷ later ++ more) l e,
            rounds_ended (seen ∷ later) l e,
            rounds_ended more l e,
          )
          refl
  ]

  -- After any rounds the loop still goes on exactly when none of them was one that ends it: with a
  -- finished feed in the mode REPLAY, or with ncurses and the key q in a round of even number. Once it
  -- has ended, what further rounds would see does not matter.
  pub goes_on-rounds :
      (now : ℕ) (seens more : List (Seen W))
      → (goes_on (rounds ncurses mode seens (started now)).1 ≡ none_ends 0 seens)
        × (none_ends 0 seens ≡ false
            → (rounds ncurses mode (seens ++ more) (started now)).1
              ≡ (rounds ncurses mode seens (started now)).1)
  goes_on-rounds now seens more =
      let goes = rounds_from seens (started now) refl in
      (
        goes,
        (λ e.
            rounds-append seens more (started now)
            ∙ ap (λ (o : List (Print W) × UiLoop). o.1)
                (rounds_ended more (rounds ncurses mode seens (started now)).1 (goes ∙ e))),
      )

module _ {ℓ} {W : Type ℓ} ⦃d : Double W⦄ where
  replay_round_ends :
      (ncurses : Bool) (n : ℕ) (before : List (Seen W)) (last : Seen W) (more : List (Seen W))
      → last.is_finished ≡ true
      → none_ends ncurses replay n (before ++ last ∷ more) ≡ false
  unfolding none_ends ends
  replay_round_ends ncurses n [] last more h = ground arith
  replay_round_ends ncurses n (seen ∷ before) last more h =
      ground (arith, replay_round_ends ncurses (n + 1) before last more h)

  -- In the mode REPLAY, whatever the file holds and at any speed, with ncurses or without: once `run` of
  -- the replay engine has returned and a round has seen the engine so, the loop has ended.
  pub replay_shuts_down :
      (spelling : Spelling W) (env : ℕ → Moment W) (e e' : ReplayEngine W) (ncurses : Bool)
      (now : ℕ) (before : List (Seen W)) (last : Seen W) (more : List (Seen W))
      → (run spelling env e).engine ≡ some e'
      → last.is_finished ≡ is_finished (one (from_file e'))
      → goes_on (rounds ncurses replay (before ++ last ∷ more) (started now)).1 ≡ false
  replay_shuts_down spelling env e e' ncurses now before last more returned sees =
      let over : last.is_finished ≡ true =
        sees ∙ unfold is_finished in (run-IsBounded spelling env e).finished e' returned in
      (goes_on-rounds ncurses replay now (before ++ last ∷ more) []).0
      ∙ replay_round_ends ncurses 0 before last more over

  none_ends_unattended :
      (mode : Mode) (n : ℕ) (seens : List (Seen W))
      → mode ≢ replay
      → none_ends false mode n seens ≡ true
  unfolding none_ends ends
  none_ends_unattended mode n [] h = refl
  none_ends_unattended live n (seen ∷ later) h = none_ends_unattended live (n + 1) later h
  none_ends_unattended hybrid n (seen ∷ later) h = none_ends_unattended hybrid (n + 1) later h
  none_ends_unattended replay n (seen ∷ later) h = absurd (h refl)

  -- In a build without ncurses, in the modes LIVE and HYBRID, the loop goes on after any rounds, whatever
  -- they see of the keys, the feed and the clock.
  unattended_never_ends :
      (mode : Mode) (now : ℕ) (seens : List (Seen W))
      → mode ≢ replay
      → goes_on (rounds false mode seens (started now)).1 ≡ true
  unattended_never_ends mode now seens h =
      (goes_on-rounds false mode now seens []).0 ∙ none_ends_unattended mode 0 seens h
