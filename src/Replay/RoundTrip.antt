-- ===== src/Replay/RoundTrip.antt =====
-- What the recorder wrote, the replay engine feeds.
use ultra_low_latency_hft_en.Prelude.{
  ℕ, ◌+◌, ◌^◌, ◌<◌, ◌≡◌, ◌≢◌, refl, ◌∙◌, ap, Bool, true, false, not, some, List, [], ◌∷◌, ◌++◌, map,
  All, ◌==◌, arith, append-nil, append_assoc,
}
use ultra_low_latency_hft_en.Double.{Double}
use ultra_low_latency_hft_en.Text.{
  Text, Spelling, getlines, c_str, strncpy, stod, stoi, show_signed, show_bool, to_integer,
  is_digit,
}
use ultra_low_latency_hft_en.Text.Numbers.{has, has-show_signed, stoll-show_signed}
use ultra_low_latency_hft_en.Text.Lines.{getlines_line, has-append}
use ultra_low_latency_hft_en.Core.Events.{Event, MarketDataEvent}
use ultra_low_latency_hft_en.Feed.{Action, push, pushes, feed_event}
use ultra_low_latency_hft_en.Replay.{
  ReplayEngine, Moment, pushed, open_file, read_maker, read_exchange_ts, read_quantity, read_price,
  read_trade, pause, read_line, round, loop, run_file, run,
}
use ultra_low_latency_hft_en.Replay.Recorder.{line, record_trade, record_all, open_append}

comma_no_digit : is_digit b',' ≡ false
unfolding is_digit
comma_no_digit = refl

break_no_digit : is_digit b'\n' ≡ false
unfolding is_digit
break_no_digit = refl

module _ {ℓ} {W : Type ℓ} where
  -- the events that a feed of these trades pushes
  unfoldable pub fed : (ℕ → Moment W) → List (MarketDataEvent W) → List (Event W)
  fed env [] = []
  fed env (md ∷ mds) = feed_event md (env 0).now ∷ fed (λ i. env (i + 1)) mds

module _ {ℓ} {W : Type ℓ} ⦃d : Double W⦄ (spelling : Spelling W) where
  -- `<<` prints the value so that `stod` reads it back, with no comma or line break in it. Six
  -- significant digits do that for a value that has no more.
  pub record IsExact (x : W) : Type ℓ where
    pub reads : stod spelling (spelling.show x) ≡ some x
    pub no_comma : has b',' (spelling.show x) ≡ false
    pub no_break : has b'\n' (spelling.show x) ≡ false

  -- A trade that a line of the file can hold.
  pub record IsRecordable (md : MarketDataEvent W) : Type ℓ where
    pub symbol : strncpy 15 (c_str md.symbol) ++ 0 ∷ [] ≡ md.symbol
    pub no_comma : has b',' (c_str md.symbol) ≡ false
    pub no_break : has b'\n' (c_str md.symbol) ≡ false
    pub price : IsExact md.price
    pub quantity : IsExact md.quantity
    pub exchange_ts : md.exchange_ts < 2 ^ 64

  has-show_bool : (b : ℕ) (m : Bool) → b ≢ b'0' → b ≢ b'1' → has b (show_bool m) ≡ false
  unfolding has
  has-show_bool b true h k = ground arith
  has-show_bool b false h k = ground arith

  getlines-show_bool : (m : Bool) → getlines b',' (show_bool m) ≡ show_bool m ∷ []
  unfolding getlines
  getlines-show_bool true = refl
  getlines-show_bool false = refl

  -- the fields of a line
  getlines-line :
      (md : MarketDataEvent W)
      → IsRecordable md
      → getlines b',' (line spelling md)
        ≡ c_str md.symbol
          ∷ spelling.show md.price
          ∷ spelling.show md.quantity
          ∷ show_signed md.exchange_ts
          ∷ show_bool md.is_buyer_maker
          ∷ []
  unfolding line
  getlines-line md r =
      let ts : has b',' (show_signed md.exchange_ts) ≡ false =
        has-show_signed b',' md.exchange_ts comma_no_digit (omega arith) in
      rw (
        getlines_line b',' (c_str md.symbol) _ r.no_comma,
        getlines_line b',' (spelling.show md.price) _ r.price.no_comma,
        getlines_line b',' (spelling.show md.quantity) _ r.quantity.no_comma,
        getlines_line b',' (show_signed md.exchange_ts) _ ts,
        getlines-show_bool md.is_buyer_maker,
      )

  stoi-show_bool : (m : Bool) → (n : ℕ) × (stoi (show_bool m) ≡ some n) × (not (n == 0) ≡ m)
  unfolding to_integer
  stoi-show_bool true = (1, refl, refl)
  stoi-show_bool false = (0, refl, refl)

  read_trade-line :
      (md raw : MarketDataEvent W)
      → IsRecordable md
      → read_trade spelling
          (c_str md.symbol)
          (spelling.show md.price
            ∷ spelling.show md.quantity
            ∷ show_signed md.exchange_ts
            ∷ show_bool md.is_buyer_maker
            ∷ [])
          raw
        ≡ some md
  unfolding read_trade read_price read_quantity read_exchange_ts read_maker
  read_trade-line md raw r =
      let (n, maker, same) = stoi-show_bool md.is_buyer_maker in
      rw (
        r.price.reads,
        read_price,
        r.quantity.reads,
        read_quantity,
        stoll-show_signed md.exchange_ts r.exchange_ts,
        read_exchange_ts,
        maker,
        read_maker,
        same,
        r.symbol,
      )

  -- the text that the recorder writes
  lines : List (MarketDataEvent W) → Text
  lines [] = []
  lines (md ∷ mds) = line spelling md ++ b'\n' ∷ lines mds

  record_all_lem :
      (mds : List (MarketDataEvent W)) (text : Text)
      → record_all spelling mds (open_append (some text)) ≡ open_append (some (text ++ lines mds))
  unfolding record_all record_trade lines
  record_all_lem [] text = rw append-nil
  record_all_lem (md ∷ mds) text =
      record_all_lem mds (text ++ (line spelling md ++ b'\n' ∷ []))
      ∙ ap (λ t. open_append (some t))
          (append_assoc text (line spelling md ++ b'\n' ∷ []) (lines mds)
            ∙ ap (λ t. text ++ t) (append_assoc (line spelling md) (b'\n' ∷ []) (lines mds)))

  has-field :
      (b : ℕ) (s t : Text)
      → b ≢ b','
      → has b s ≡ false
      → has b t ≡ false
      → has b (s ++ b',' ∷ t) ≡ false
  has-field b s t other h k = has-append b s (b',' ∷ t) h (unfold has in ground arith)

  line-has : (md : MarketDataEvent W) → IsRecordable md → has b'\n' (line spelling md) ≡ false
  unfolding line
  line-has md r =
      let bool : has b'\n' (show_bool md.is_buyer_maker) ≡ false =
        has-show_bool b'\n' md.is_buyer_maker (omega arith) (omega arith) in
      let ts : has b'\n' (show_signed md.exchange_ts) ≡ false =
        has-show_signed b'\n' md.exchange_ts break_no_digit (omega arith) in
      let field = λ (s t : Text) (h : has b'\n' s ≡ false) (k : has b'\n' t ≡ false).
        has-field b'\n' s t (omega arith) h k in
      field _ _ r.no_break
        (field _ _ r.price.no_break (field _ _ r.quantity.no_break (field _ _ ts bool)))

  getlines-lines :
      (mds : List (MarketDataEvent W))
      → All IsRecordable mds
      → getlines b'\n' (lines mds) ≡ map (line spelling) mds
  unfolding lines
  getlines-lines [] h = unfold getlines in refl
  getlines-lines (md ∷ mds) h =
      rw (
        getlines_line b'\n' (line spelling md) (lines mds) (line-has md h.0),
        getlines-lines mds h.1,
      )

  -- The actions of a round, with those of the later rounds behind them, push its event first.
  pushes-pause :
      (speed : W) (last ts : ℕ) (event : Event W) (actions : List (Action W))
      → pushes ((pause speed last ts ++ push event ∷ []) ++ actions) ≡ event ∷ pushes actions
  unfolding pause pushes
  pushes-pause speed last ts event actions = ground arith

  -- what a round does with a recorded line
  round-line :
      (moment : Moment W) (speed : W) (last : ℕ) (md : MarketDataEvent W)
      → IsRecordable md
      → round spelling moment speed last (line spelling md)
        ≡ pushed
            (pause speed last md.exchange_ts ++ push (feed_event md moment.now) ∷ [])
            md.exchange_ts
  unfolding round read_line
  round-line moment speed last md r =
      rw (getlines-line md r, read_line, read_trade-line md moment.raw r)

  loop-lines :
      (env : ℕ → Moment W) (e : ReplayEngine W) (last : ℕ) (mds : List (MarketDataEvent W))
      → ((i : ℕ) → (env i).stopped ≡ false)
      → All IsRecordable mds
      → let o = loop spelling env e last (map (line spelling) mds) in
        (pushes o.actions ≡ fed env mds)
        × (o.engine ≡ some (record e { running = false; finished = true; file = some [] }))
  unfolding loop fed
  loop-lines env e last [] go h = (unfold pushes in refl, refl)
  loop-lines env e last (md ∷ mds) go h =
      let (events, done) =
        loop-lines (λ i. env (i + 1)) e md.exchange_ts mds (λ i. go (i + 1)) h.1 in
      let event = feed_event md (env 0).now in
      rw (go 0, round-line (env 0) e.speed last md h.0)
        (pushes-pause e.speed last md.exchange_ts event _ ∙ ap (λ es. event ∷ es) events, done)

  -- Of trades that a line of the file can hold, recorded one after another into an empty file, a replay
  -- at any speed that is not stopped pushes the events in their order, each with the time at which it
  -- was read; it then has finished and is no longer running.
  pub run-record_all :
      (env : ℕ → Moment W) (speed : W) (mds : List (MarketDataEvent W))
      → ((i : ℕ) → (env i).stopped ≡ false)
      → All IsRecordable mds
      → let recorded = record_all spelling mds (open_append (some [])) in
        let o = run spelling env (open_file recorded.file speed) in
        (pushes o.actions ≡ fed env mds)
        × (o.engine
            ≡ some (record { speed = speed; running = false; finished = true; file = some [] }))
  unfolding run run_file open_file
  run-record_all env speed mds go h =
      rw (record_all_lem mds [], getlines-lines mds h)
        (loop-lines env
          (record {
            speed = speed;
            running = true;
            finished = false;
            file = some (map (line spelling) mds);
          })
          0 mds go h)
