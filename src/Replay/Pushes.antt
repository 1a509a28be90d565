-- ===== src/Replay/Pushes.antt =====
-- What a replay pushes and how long it waits, whatever the file holds.
use ultra_low_latency_hft_en.Prelude.{
  ℕ, suc, ◌+◌, ◌-◌, ◌^◌, ◌≤◌, ◌≡◌, refl, sym, ◌∙◌, ap, inl, inr, true, false, ◌&&◌, none, some,
  some-injective, List, [], ◌∷◌, ◌++◌, All, All-append, Bool-cases, arith, length, if◌then◌else◌,
  ltb,
}
use ultra_low_latency_hft_en.Double.{Double, gt, whole, ◌⊘◌}
use ultra_low_latency_hft_en.Text.{getlines, Text, Spelling}
use ultra_low_latency_hft_en.Core.Events.{Event, MarketDataEvent}
use ultra_low_latency_hft_en.Feed.{Action, wait, push, pushes, feed_event}
use ultra_low_latency_hft_en.Replay.{
  ReplayEngine, Moment, Outcome, Round, skipped, pushed, fault, read_trade, pause, read_line, round,
  loop, run_file, run,
}

module _ {ℓ} {W : Type ℓ} where
  -- A wait of at most a second, or the push of a trade.
  pub data IsAllowed : Action W → Type ℓ where
    short : (ns : ℕ) → ns ≤ 10 ^ 9 → IsAllowed (wait ns)
    trade : (md : MarketDataEvent W) (now : ℕ) → IsAllowed (push (feed_event md now))

  -- No round without a line.
  unfoldable pub lines_left : ReplayEngine W → ℕ
  lines_left e = elim e.file [ none ↦ 0 | some lines ↦ length lines ]

  -- Allowed actions, of which at most `n` push, and an engine that has finished.
  pub record IsBounded (n : ℕ) (o : Outcome W) : Type ℓ where
    pub allowed : All IsAllowed o.actions
    pub pushes_le : length (pushes o.actions) ≤ n
    pub finished : (e : ReplayEngine W) → o.engine ≡ some e → e.finished ≡ true

module _ {ℓ} {W : Type ℓ} ⦃d : Double W⦄ (spelling : Spelling W) where
  pause-All : (speed : W) (last ts : ℕ) → All IsAllowed (pause speed last ts)
  unfolding pause
  pause-All speed last ts =
      let delta = if ltb last ts then ts - last else 0 in
      let sleep = d.trunc (whole delta ⊘ speed) in
      elim (Bool-cases (ltb 0 last && gt speed (whole 0) && ltb 0 delta)) [
        | inl e ↦ rw e (short _ (ground arith), tt)
        | inr e ↦ rw e tt
      ]

  IsFine : Round W → Type ℓ
  IsFine skipped = Unit
  IsFine (pushed actions last) =
      All IsAllowed actions
      × ((later : List (Action W))
          → length (pushes (actions ++ later)) ≡ suc (length (pushes later)))
  IsFine fault = Unit

  pushes-pause :
      (speed : W) (last ts : ℕ) (event : Event W) (later : List (Action W))
      → length (pushes ((pause speed last ts ++ push event ∷ []) ++ later))
        ≡ suc (length (pushes later))
  unfolding pause pushes
  pushes-pause speed last ts event later = ground arith

  round-IsFine :
      (moment : Moment W) (speed : W) (last : ℕ) (fields : List Text)
      → IsFine (read_line spelling moment speed last fields)
  unfolding read_line IsFine
  round-IsFine moment speed last [] = tt
  round-IsFine moment speed last (symbol ∷ fields) =
      elim (read_trade spelling symbol fields moment.raw)
        as (λ r. IsFine (elim r [
          | none ↦ fault
          | some md ↦
              pushed (pause speed last md.exchange_ts ++ push (feed_event md moment.now) ∷ [])
                md.exchange_ts
        ])) [
          | none ↦ tt
          | some md ↦ (
            All-append IsAllowed (pause speed last md.exchange_ts) _
                (pause-All speed last md.exchange_ts) (trade md moment.now, tt),
            pushes-pause speed last md.exchange_ts (feed_event md moment.now),
          )
        ]

  -- how the loop ends
  ended :
      (n : ℕ) (e : ReplayEngine W)
      → e.finished ≡ true
      → IsBounded n (record { actions = []; engine = some e })
  ended n e h = record {
    allowed = tt;
    pushes_le = unfold pushes in omega arith;
    finished = λ e' p. ap (λ (x : ReplayEngine W). x.finished) (sym (some-injective _ _ p)) ∙ h;
  }

  behind :
      (n : ℕ) (r : Round W) (skip : Outcome W) (next : ℕ → Outcome W)
      → IsFine r
      → IsBounded n skip
      → ((last : ℕ) → IsBounded n (next last))
      → IsBounded (suc n) (elim r [
        | skipped ↦ skip
        | fault ↦ record { actions = []; engine = none }
        | pushed actions last' ↦
            let rest = next last' in record rest { actions = actions ++ rest.actions }
      ])
  unfolding IsFine
  behind n skipped skip next fine h k = record {
    allowed = h.allowed;
    pushes_le = omega (arith, h.pushes_le);
    finished = h.finished;
  }
  behind n fault skip next fine h k = record {
    allowed = tt;
    pushes_le = unfold pushes in omega arith;
    finished = λ e p. cc;
  }
  behind n (pushed actions last) skip next fine h k =
      let rest = k last in
      record {
        allowed = All-append IsAllowed actions _ fine.0 rest.allowed;
        pushes_le = omega (arith, fine.1 (next last).actions, rest.pushes_le);
        finished = rest.finished;
      }

  loop-IsBounded :
      (env : ℕ → Moment W) (e : ReplayEngine W) (last : ℕ) (lines : List Text)
      → IsBounded (length lines) (loop spelling env e last lines)
  unfolding loop round
  loop-IsBounded env e last [] = ended _ _ refl
  loop-IsBounded env e last (line ∷ lines) =
      let later = λ (i : ℕ). env (i + 1) in
      elim (Bool-cases (env 0).stopped) [
        | inl stopped ↦ rw (stopped, loop) (ended _ _ refl)
        | inr runs ↦
            rw (runs, loop)
              (behind (length lines) (round spelling (env 0) e.speed last line)
                (loop spelling later e last lines) (λ last'. loop spelling later e last' lines)
                (round-IsFine (env 0) e.speed last (getlines b',' line))
                (loop-IsBounded later e last lines) (λ last'. loop-IsBounded later e last' lines))
      ]

  -- Of any file, a replay at any speed, stopped or not, does nothing but wait, each time for at most a
  -- second, and push trades, at most one for each line that it has left; and if it returns then it has
  -- finished.
  pub run-IsBounded :
      (env : ℕ → Moment W) (e : ReplayEngine W) → IsBounded (lines_left e) (run spelling env e)
  unfolding run run_file lines_left
  run-IsBounded env e =
      elim e.file
        as (λ file.
          IsBounded (elim file [ none ↦ 0 | some lines ↦ length lines ])
            (run_file spelling env (record e { running = true; finished = false }) file)) [
              | none ↦ ended _ _ refl
              | some lines ↦ loop-IsBounded env _ 0 lines
            ]
