-- ===== src/Replay/Stops.antt =====
-- `stop`, called by another thread while `run` reads the file.
use ultra_low_latency_hft_en.Prelude.{
  ℕ, zero, suc, ◌+◌, ◌≡◌, refl, ap, subst, arith, Option, true, none, some, List, [], ◌∷◌, ◌++◌,
  take, inl, inr, Bool-cases,
}
use ultra_low_latency_hft_en.Double.{Double}
use ultra_low_latency_hft_en.Text.{Text, Spelling}
use ultra_low_latency_hft_en.Replay.{
  ReplayEngine, Moment, Outcome, Round, skipped, pushed, fault, round, loop, run, run_file,
}

module _ {ℓ} {W : Type ℓ} where
  -- all but the lines that are left in the file
  unfoldable pub without_file : Outcome W → Outcome W
  without_file o = record o {
    engine = elim o.engine [ none ↦ none | some e ↦ some (record e { file = none }) ];
  }

  alike_behind :
      (r : Round W) (skip skip' : Outcome W) (next next' : ℕ → Outcome W)
      → without_file skip ≡ without_file skip'
      → ((last : ℕ) → without_file (next last) ≡ without_file (next' last))
      → without_file (elim r [
        | skipped ↦ skip
        | fault ↦ record { actions = []; engine = none }
        | pushed actions last ↦
            let rest = next last in record rest { actions = actions ++ rest.actions }
      ])
        ≡ without_file (elim r [
          | skipped ↦ skip'
          | fault ↦ record { actions = []; engine = none }
          | pushed actions last ↦
              let rest = next' last in record rest { actions = actions ++ rest.actions }
        ])
  unfolding without_file
  alike_behind skipped skip skip' next next' h k = h
  alike_behind fault skip skip' next next' h k = refl
  alike_behind (pushed actions last) skip skip' next next' h k =
      ap (λ (o : Outcome W). record o { actions = actions ++ o.actions }) (k last)

module _ {ℓ} {W : Type ℓ} ⦃d : Double W⦄ (spelling : Spelling W) where
  loop_stopped :
      (env : ℕ → Moment W) (e : ReplayEngine W) (file : Option (List Text)) (last k : ℕ)
      (lines : List Text)
      → (env k).stopped ≡ true
      → without_file (loop spelling env e last lines)
        ≡ without_file (loop spelling env (record e { file = file }) last (take k lines))
  unfolding loop without_file
  loop_stopped env e file last zero [] h = refl
  loop_stopped env e file last (suc k) [] h = refl
  loop_stopped env e file last zero (line ∷ lines) h = rw (h, loop) refl
  loop_stopped env e file last (suc k) (line ∷ lines) h =
      let later = λ (i : ℕ). env (i + 1) in
      let stops : (later k).stopped ≡ true = subst (λ n. (env n).stopped ≡ true) (omega arith) h in
      let short = record e { file = file } in
      elim (Bool-cases (env 0).stopped) [
        | inl stopped ↦ rw (stopped, loop) refl
        | inr runs ↦
            rw (runs, loop)
              (alike_behind (round spelling (env 0) e.speed last line)
                (loop spelling later e last lines) (loop spelling later short last (take k lines))
                (λ last'. loop spelling later e last' lines)
                (λ last'. loop spelling later short last' (take k lines))
                (loop_stopped later e file last k lines stops)
                (λ last'. loop_stopped later e file last' k lines stops))
      ]

  -- If `stop` was called before round `k` of the loop, `run` does on any file what it does on a file of its
  -- first `k` lines, and leaves the same engine but for the lines that it has not read.
  pub run_stopped :
      (env : ℕ → Moment W) (e : ReplayEngine W) (k : ℕ) (lines : List Text)
      → (env k).stopped ≡ true
      → without_file (run spelling env (record e { file = some lines }))
        ≡ without_file (run spelling env (record e { file = some (take k lines) }))
  unfolding run run_file
  run_stopped env e k lines h = loop_stopped env _ (some (take k lines)) 0 k lines h
