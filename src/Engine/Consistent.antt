-- ===== src/Engine/Consistent.antt =====
-- What the components keep while the program runs: their invariants, in every state that it reaches.
use ultra_low_latency_hft_en.Prelude.{
  suc, ◌≤◌, ◌≡◌, inl, inr, true, some, List, [], ◌∷◌, ◌++◌, All, All-append, length, length-append,
  ltb, Bool-cases, arith,
}
use ultra_low_latency_hft_en.Double.{Double}
use ultra_low_latency_hft_en.Core.Events.{Event, ExecutionReport}
use ultra_low_latency_hft_en.Core.EventQueue.{EventQueue}
use ultra_low_latency_hft_en.Pnl
use ultra_low_latency_hft_en.Pnl.{PnlEngine, StatsMap}
use ultra_low_latency_hft_en.Pnl.Fills.{IsAscending, on_fill_lem}
use ultra_low_latency_hft_en.Pnl.Equity.{update_pnl-IsAscending}
use ultra_low_latency_hft_en.Oms
use ultra_low_latency_hft_en.Oms.Lifecycle.{
  IsValid, handle_order_request_lem, handle_execution_report-IsValid,
}
use ultra_low_latency_hft_en.Exchange
use ultra_low_latency_hft_en.Exchange.{is_filled}
use ultra_low_latency_hft_en.Exchange.Sweep.{IsQuiet}
use ultra_low_latency_hft_en.Exchange.Runs.{Command, step, step-IsQuiet}
use ultra_low_latency_hft_en.Engine.{
  System, Surroundings, start, on_market_data, on_order_request, on_validated_order,
  on_cancel_order, on_execution_report, account, remember, handle,
}
use ultra_low_latency_hft_en.Engine.Reachable.{
  Loop, Step, feed, take, handled, Reaches, here, next, started, dispatch-cases,
}

module _ {ℓ} {W : Type ℓ} ⦃d : Double W⦄ where
  -- No order id is active twice, the strategies stand by ascending id, no resting order could be
  -- matched, and the history has at most 1000 reports, all of them fills.
  pub record IsConsistent (s : System W) : Type ℓ where
    pub orders : IsValid s.order_manager
    pub stats : IsAscending s.pnl_engine.strategy_stats
    pub quiet : IsQuiet s.matching_engine
    pub history : length s.trade_history ≤ 1000
    pub fills : All (λ r. is_filled r.status ≡ true) s.trade_history

  length-remember :
      (r : ExecutionReport W) (history : List (ExecutionReport W))
      → length history ≤ 1000
      → length (remember r history) ≤ 1000
  unfolding remember
  length-remember r [] h = omega arith
  length-remember r (x ∷ history) h = ground (arith, length-append history (r ∷ []))

  remember-All :
      (r : ExecutionReport W) (history : List (ExecutionReport W))
      → is_filled r.status ≡ true
      → All (λ r. is_filled r.status ≡ true) history
      → All (λ r. is_filled r.status ≡ true) (remember r history)
  unfolding remember
  remember-All r [] h a = (h, tt)
  remember-All r (x ∷ history) h a =
      let kept = All-append (λ r. is_filled r.status ≡ true) history (r ∷ []) a.1 (h, tt) in
      elim (Bool-cases (ltb 1000 (suc (length (history ++ r ∷ []))))) [
        | inl e ↦ rw e kept
        | inr e ↦ rw e (a.0, kept)
      ]

  report-IsConsistent :
      (env : Surroundings W) (r : ExecutionReport W) (s : System W)
      → IsConsistent s
      → IsConsistent (on_execution_report env r s)
  unfolding on_execution_report account
  report-IsConsistent env r s c =
      let orders = handle_execution_report-IsValid r s.order_manager c.orders in
      elim (Bool-cases (is_filled r.status)) [
        | inl e ↦
            let filled =
              on_fill_lem r.strategy_id 0 r.side r.last_price r.last_qty s.pnl_engine c.stats in
            rw e (record {
              orders = orders;
              stats = update_pnl-IsAscending r.last_price _ filled.1;
              quiet = c.quiet;
              history = length-remember r s.trade_history c.history;
              fills = remember-All r s.trade_history e c.fills;
            })
        | inr e ↦ rw e (record {
          orders = orders;
          stats = update_pnl-IsAscending r.last_price s.pnl_engine c.stats;
          quiet = c.quiet;
          history = c.history;
          fills = c.fills;
        })
      ]

  handle-IsConsistent :
      (env : Surroundings W) (event : Event W) (s s' : System W)
      → handle env event s ≡ some s'
      → IsConsistent s
      → IsConsistent s'
  unfolding handle on_market_data on_order_request on_validated_order on_cancel_order step
  handle-IsConsistent env event s s' e c =
      dispatch-cases IsConsistent event.type event.payload env s s' e c
        (λ md. record {
          orders = c.orders;
          stats = c.stats;
          quiet = step-IsQuiet (Command.market_price md) (s.matching_engine, _) c.quiet;
          history = c.history;
          fills = c.fills;
        })
        (λ r. record {
          orders =
              (handle_order_request_lem env.order_now s.risk r s.order_manager s.event_queue 0
                c.orders).2;
          stats = c.stats;
          quiet = c.quiet;
          history = c.history;
          fills = c.fills;
        })
        (λ r. record {
          orders = c.orders;
          stats = c.stats;
          quiet = step-IsQuiet (Command.order r) (s.matching_engine, s.event_queue) c.quiet;
          history = c.history;
          fills = c.fills;
        })
        (λ id. record {
          orders = c.orders;
          stats = c.stats;
          quiet = step-IsQuiet (Command.cancel id) (s.matching_engine, s.event_queue) c.quiet;
          history = c.history;
          fills = c.fills;
        })
        (λ r. report-IsConsistent env r s c)

  -- only the queue differs
  queued-IsConsistent :
      (q : EventQueue W) (s : System W)
      → IsConsistent s
      → IsConsistent (record s { event_queue = q })
  queued-IsConsistent q s c = record {
    orders = c.orders;
    stats = c.stats;
    quiet = c.quiet;
    history = c.history;
    fills = c.fills;
  }

  Step-IsConsistent : {l l' : Loop W} → Step l l' → IsConsistent l.system → IsConsistent l'.system
  Step-IsConsistent {l} (feed md ts l' e) c = rw e (queued-IsConsistent _ l.system c)
  Step-IsConsistent {l} (take event q l' p e) c = rw e (queued-IsConsistent q l.system c)
  Step-IsConsistent {l} (handled env event events s l' b k e) c =
      rw e (handle-IsConsistent env event l.system s k c)

  start-IsConsistent : (blank : Event W) → IsConsistent (start blank)
  unfolding start Oms.init Pnl.init Exchange.init
  start-IsConsistent blank = record {
    orders = tt;
    stats = tt;
    quiet = tt;
    history = omega arith;
    fills = tt;
  }

  -- In every state that the program reaches, however the feed's pushes fall between the steps of the
  -- processor, no order id is active twice, the strategies' statistics stand by ascending id, no resting
  -- order could be matched at the current prices, and the trade history has at most 1000 reports, all of
  -- them fills.
  pub Reaches-IsConsistent :
      (blank : Event W) (l : Loop W) → Reaches (started blank) l → IsConsistent l.system
  Reaches-IsConsistent blank l here = start-IsConsistent blank
  Reaches-IsConsistent blank l (next r st) = Step-IsConsistent st (Reaches-IsConsistent blank _ r)
