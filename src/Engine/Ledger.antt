-- ===== src/Engine/Ledger.antt =====
-- What the fills leave behind: the risk engine, the statistics of the strategies and the trade history
-- each keep an account of the same fills, on every way of the program in the sense of `Reaches`.
use ultra_low_latency_hft_en.Prelude.{
  ℕ, zero, suc, ◌-◌, ◌≤◌, ◌≡◌, refl, sym, ◌∙◌, ap, inl, inr, subst, some-injective, Bool-cases,
  Option, none, some, List, [], ◌∷◌, ◌++◌, append-nil, length, length-append, drop, ltb, ◌==◌,
  if◌then◌else◌, arith,
}
use ultra_low_latency_hft_en.Prelude.Table.{find}
use ultra_low_latency_hft_en.Double.{Double, whole, ◌⊕◌, ◌⊗◌}
use ultra_low_latency_hft_en.Core.Events.{Event, EventType, ExecutionReport, Payload}
use ultra_low_latency_hft_en.Risk
use ultra_low_latency_hft_en.Risk.{side_sign}
use ultra_low_latency_hft_en.Pnl
use ultra_low_latency_hft_en.Pnl.{StatsMap, StrategyStats, PnlEngine, blank_stats, mark}
use ultra_low_latency_hft_en.Pnl.Fills.{IsAscending, entry, on_fill_lem, position-fill}
use ultra_low_latency_hft_en.Pnl.Equity.{marked, update_pnl_lem}
use ultra_low_latency_hft_en.Exchange.{is_filled}
use ultra_low_latency_hft_en.Engine.{
  System, Surroundings, start, on_market_data, on_order_request, on_validated_order,
  on_cancel_order, on_execution_report, account, remember, dispatch, handle,
}
use ultra_low_latency_hft_en.Engine.Reachable.{
  Loop, feed, take, handled, Reaches, here, next, started,
}
use ultra_low_latency_hft_en.Engine.Consistent.{Reaches-IsConsistent}

length-drop {ℓ} : {A : Type ℓ} → (k : ℕ) (xs : List A) → length (drop k xs) ≡ length xs - k
length-drop zero xs = omega arith
length-drop (suc k) [] = omega arith
length-drop (suc k) (x ∷ xs) = omega (arith, length-drop k xs)

drop-append {ℓ} :
    {A : Type ℓ} → (k : ℕ) (xs ys : List A) → k ≤ length xs → drop k (xs ++ ys) ≡ drop k xs ++ ys
drop-append zero xs ys h = refl
drop-append (suc k) [] ys h = absurd (omega (arith, h))
drop-append (suc k) (x ∷ xs) ys h = drop-append k xs ys (omega arith)

drop-drop {ℓ} : {A : Type ℓ} → (k : ℕ) (xs : List A) → drop 1 (drop k xs) ≡ drop (suc k) xs
drop-drop zero xs = refl
drop-drop (suc k) [] = refl
drop-drop (suc k) (x ∷ xs) = drop-drop k xs

module _ {ℓ} {W : Type ℓ} ⦃d : Double W⦄ where
  -- the last 1000 of the reports
  abbrev pub latest : List (ExecutionReport W) → List (ExecutionReport W)
  latest fills = drop (length fills - 1000) fills

  remember-latest :
      (r : ExecutionReport W) (fills : List (ExecutionReport W))
      → remember r (latest fills) ≡ latest (fills ++ r ∷ [])
  unfolding remember
  remember-latest r fills =
      let k = length fills - 1000 in
      let kept = drop-append k fills (r ∷ []) (omega arith) in
      let longer = length-append fills (r ∷ []) in
      let cut = length-append (drop k fills) (r ∷ []) in
      let held = length-drop k fills in
      elim (Bool-cases (ltb 1000 (length (drop k fills ++ r ∷ [])))) [
        | inl e ↦
            let many : length (fills ++ r ∷ []) - 1000 ≡ suc k = ground arith in
            rw (e, many) (ap (λ xs. drop 1 xs) (sym kept) ∙ drop-drop k (fills ++ r ∷ []))
        | inr e ↦
            let few : length (fills ++ r ∷ []) - 1000 ≡ k = ground arith in rw (e, few) (sym kept)
      ]

  -- what the fills bring in all, added up in their order
  unfoldable pub net_from : W → List (ExecutionReport W) → W
  net_from position [] = position
  net_from position (r ∷ fills) = net_from (position ⊕ r.last_qty ⊗ side_sign r.side) fills

  abbrev pub net : List (ExecutionReport W) → W
  net = net_from (whole 0)

  -- those of one strategy
  unfoldable pub own : ℕ → List (ExecutionReport W) → List (ExecutionReport W)
  own id [] = []
  own id (r ∷ fills) = if r.strategy_id == id then r ∷ own id fills else own id fills

  net_from-append :
      (position : W) (fills : List (ExecutionReport W)) (r : ExecutionReport W)
      → net_from position (fills ++ r ∷ [])
        ≡ net_from position fills ⊕ r.last_qty ⊗ side_sign r.side
  unfolding net_from
  net_from-append position [] r = refl
  net_from-append position (x ∷ fills) r =
      net_from-append (position ⊕ x.last_qty ⊗ side_sign x.side) fills r

  own-append :
      (id : ℕ) (fills : List (ExecutionReport W)) (r : ExecutionReport W)
      → own id (fills ++ r ∷ [])
        ≡ (if r.strategy_id == id then own id fills ++ r ∷ [] else own id fills)
  unfolding own
  own-append id [] r = ground arith
  own-append id (x ∷ fills) r = ground (arith, own-append id fills r)

  entry-marked :
      (id : ℕ) (p : W) (m : StatsMap W) → (entry id (marked p m)).position ≡ (entry id m).position
  unfolding marked mark find
  entry-marked id p [] = refl
  entry-marked id p ((j, stats) ∷ m) = ground (arith, entry-marked id p m)

  -- The three accounts of some fills.
  abbrev pub IsLedger : (id : ℕ) → List (ExecutionReport W) → System W → Type ℓ
  IsLedger id fills s =
      (s.risk.current_position ≡ net fills)
      × ((entry id s.pnl_engine.strategy_stats).position ≡ net (own id fills))
      × (s.trade_history ≡ latest fills)

  -- the report of a fill that an event is
  unfoldable pub fill_of : EventType → Payload W → List (ExecutionReport W)
  fill_of EventType.execution_report (Payload.execution_report r) =
      if is_filled r.status then r ∷ [] else []
  fill_of _ _ = []

  -- the fills that were handled on the way, in their order
  unfoldable pub fills_on : {l l' : Loop W} → Reaches l l' → List (ExecutionReport W)
  fills_on here = []
  fills_on (next r (feed md ts l' e)) = fills_on r
  fills_on (next r (take event q l' p e)) = fills_on r
  fills_on (next r (handled env event events s l' b k e)) =
      fills_on r ++ fill_of event.type event.payload

  -- the position of an entry that is there or is not
  abbrev position_of : Option (StrategyStats W) → W
  position_of o =
      let stats : StrategyStats W = elim o [ some stats ↦ stats | none ↦ blank_stats ] in
      stats.position

  -- A fill moves the position of its own strategy.
  on_fill-position :
      (id : ℕ) (r : ExecutionReport W) (fills : List (ExecutionReport W)) (e : PnlEngine W)
      → IsAscending e.strategy_stats
      → (entry id e.strategy_stats).position ≡ net (own id fills)
      → (entry id
          (Pnl.on_fill r.strategy_id r.side r.last_price r.last_qty e).strategy_stats).position
        ≡ net (own id (fills ++ r ∷ []))
  on_fill-position id r fills e a h =
      let found = (on_fill_lem r.strategy_id id r.side r.last_price r.last_qty e a).0 in
      elim (Bool-cases (r.strategy_id == id)) [
        | inl same ↦
            let its : r.strategy_id ≡ id = ground arith in
            rw (own-append id fills r, same)
              (ap position_of (rw same at found)
                ∙ position-fill r.side r.last_price r.last_qty
                    (entry r.strategy_id e.strategy_stats)
                ∙ ap (λ t. t ⊕ r.last_qty ⊗ side_sign r.side)
                    (ap (λ i. (entry i e.strategy_stats).position) its ∙ h)
                ∙ sym (net_from-append (whole 0) (own id fills) r))
        | inr other ↦ rw (own-append id fills r, other) (ap position_of (rw other at found) ∙ h)
      ]

  report-IsLedger :
      (id : ℕ) (env : Surroundings W) (r : ExecutionReport W) (fills : List (ExecutionReport W))
      (s : System W)
      → IsAscending s.pnl_engine.strategy_stats
      → IsLedger id fills s
      → IsLedger id
          (fills ++ (if is_filled r.status then r ∷ [] else []))
          (on_execution_report env r s)
  unfolding on_execution_report account Risk.update_position
  report-IsLedger id env r fills s a (risk, position, history) =
      elim (Bool-cases (is_filled r.status)) [
        | inl e ↦
            let filled = Pnl.on_fill r.strategy_id r.side r.last_price r.last_qty s.pnl_engine in
            rw e (
              ap (λ t. t ⊕ r.last_qty ⊗ side_sign r.side) risk ∙ sym (net_from-append _ fills r),
              rw (update_pnl_lem r.last_price filled).2 (
                  entry-marked id r.last_price _
                  ∙ on_fill-position id r fills s.pnl_engine a position),
              ap (remember r) history ∙ remember-latest r fills,
            )
        | inr e ↦
            rw (e, append-nil fills)
              (
                risk,
                rw (update_pnl_lem r.last_price s.pnl_engine).2
                    (entry-marked id r.last_price _ ∙ position),
                history,
              )
      ]

  -- an event that is handled, case by case
  dispatch-IsLedger :
      (id : ℕ) (type : EventType) (payload : Payload W) (env : Surroundings W)
      (fills : List (ExecutionReport W)) (s s' : System W)
      → dispatch type payload env s ≡ some s'
      → IsAscending s.pnl_engine.strategy_stats
      → IsLedger id fills s
      → IsLedger id (fills ++ fill_of type payload) s'
  unfolding dispatch fill_of on_market_data on_order_request on_validated_order on_cancel_order
  dispatch-IsLedger id EventType.market_data (Payload.market_data x) env fills s s' e a h =
      subst (IsLedger id (fills ++ [])) (some-injective _ _ e) (rw (append-nil fills) h)
  dispatch-IsLedger id EventType.order_request (Payload.order_request x) env fills s s' e a h =
      subst (IsLedger id (fills ++ [])) (some-injective _ _ e) (rw (append-nil fills) h)
  dispatch-IsLedger id EventType.validated_order (Payload.order_request x) env fills s s' e a h =
      subst (IsLedger id (fills ++ [])) (some-injective _ _ e) (rw (append-nil fills) h)
  dispatch-IsLedger id EventType.cancel_order (Payload.cancel_order x) env fills s s' e a h =
      subst (IsLedger id (fills ++ [])) (some-injective _ _ e) (rw (append-nil fills) h)
  dispatch-IsLedger id EventType.order_response x env fills s s' e a h =
      subst (IsLedger id (fills ++ [])) (some-injective _ _ e) (rw (append-nil fills) h)
  dispatch-IsLedger id EventType.risk_check x env fills s s' e a h =
      subst (IsLedger id (fills ++ [])) (some-injective _ _ e) (rw (append-nil fills) h)
  dispatch-IsLedger id EventType.pnl_update x env fills s s' e a h =
      subst (IsLedger id (fills ++ [])) (some-injective _ _ e) (rw (append-nil fills) h)
  dispatch-IsLedger id EventType.execution_report (Payload.execution_report x) env fills s s' e a
        h =
      subst (IsLedger id (fills ++ fill_of EventType.execution_report (Payload.execution_report x)))
        (some-injective _ _ e) (report-IsLedger id env x fills s a h)
  dispatch-IsLedger id type payload env fills s s' e a h = cc

  start-IsLedger : (id : ℕ) (blank : Event W) → IsLedger id [] (start blank)
  unfolding start Risk.init Pnl.init find net_from own
  start-IsLedger id blank = (refl, refl, refl)

  -- Take any way of the program on which each push and each handler of an event is one step, however the
  -- steps of the feed fall between those of the processor. The fills whose reports were handled on it explain
  -- three accounts, whatever the rounding: the position that the risk engine checks its limit on is the sum of
  -- their signed quantities, added up in their order from zero; the position of each strategy in the profit and
  -- loss engine is this sum over its own fills; and the trade history is the last 1000 of them, in order.
  pub accounts_agree :
      (id : ℕ) (blank : Event W) (l : Loop W) (r : Reaches (started blank) l)
      → IsLedger id (fills_on r) l.system
  unfolding fills_on handle
  accounts_agree id blank l here = start-IsLedger id blank
  accounts_agree id blank l (next r (feed md ts l' e)) = rw e (accounts_agree id blank _ r)
  accounts_agree id blank l (next r (take event q l' p e)) = rw e (accounts_agree id blank _ r)
  accounts_agree id blank l (next {k} r (handled env event events s l' b h e)) = rw e (
      dispatch-IsLedger id event.type event.payload env (fills_on r) k.system s h
        (Reaches-IsConsistent blank k r).stats (accounts_agree id blank k r))
