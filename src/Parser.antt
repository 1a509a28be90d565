-- ===== src/Parser.antt =====
-- `parser/trade_parser.{hpp,cpp}`: a trade of the JSON of Binance. The JSON parser is an argument: `D` is
-- its type of documents, and a lookup fails where the library throws, for a missing member and for a
-- value of another type. Log lines are left out.
mod Tests
use ultra_low_latency_hft_en.Prelude.{
  ℕ, zero, suc, ◌+◌, ◌-◌, ◌≤◌, ◌≡◌, refl, sym, subst, ◌∙◌, ap, ◌↔◌, Bool, true, false, Option, none,
  some, Option-cases, inl, inr, List, [], ◌∷◌, ◌++◌, length, take, drop, min, arith, length-take,
  length-append,
}
use ultra_low_latency_hft_en.Double.{Double}
use ultra_low_latency_hft_en.Text.{Text, Spelling, codes, c_str, stod}
use ultra_low_latency_hft_en.Core.Events.{MarketDataEvent, Symbol}

-- What the code calls of simdjson: `iterate`, and the lookup of a member as a string, as an integer
-- of 64 bits with a sign, given by its bits, and as a truth value.
pub record Json {κ} (D : Type κ) : Type κ where
  pub iterate : Text → Option D
  pub string_of : D → Text → Option Text
  pub integer_of : D → Text → Option ℕ
  pub bool_of : D → Text → Option Bool

infixl 5 ◌>>=◌
unfoldable ◌>>=◌ {ℓ κ} : {A : Type ℓ} {B : Type κ} → Option A → (A → Option B) → Option B
none >>= f = none
some a >>= f = f a

-- `copy_n` of the first 15 bytes, and the byte behind them
unfoldable pub copy_symbol : Text → Symbol → Symbol
copy_symbol view raw = let copied = take 15 view in copied ++ 0 ∷ drop (length copied + 1) raw

module _ {ℓ κ} {W : Type ℓ} ⦃d : Double W⦄ {D : Type κ} (json : Json D)
    (spelling : Spelling W) where
  -- The body of the `try`; `none` is an exception, which the `catch` makes of it. `raw` is the memory of
  -- the local event.
  unfoldable pub parse : MarketDataEvent W → Text → Option (MarketDataEvent W)
  unfolding copy_symbol ◌>>=◌
  parse raw json_str = do
    doc ← json.iterate json_str
    symbol ← json.string_of doc (codes "s")
    price_str ← json.string_of doc (codes "p")
    price ← stod spelling price_str
    qty_str ← json.string_of doc (codes "q")
    quantity ← stod spelling qty_str
    exchange_ts ← json.integer_of doc (codes "T")
    is_buyer_maker ← json.bool_of doc (codes "m")
    some (record {
      symbol = copy_symbol symbol raw.symbol;
      price = price;
      quantity = quantity;
      exchange_ts = exchange_ts;
      is_buyer_maker = is_buyer_maker;
    })

-- What a result satisfies, if there is one.
abbrev Ensures {ℓ κ} : {A : Type ℓ} → (A → Type κ) → Option A → Type κ
Ensures P none = Unit
Ensures P (some a) = P a

bind-Ensures {ℓ κ μ} :
    {A : Type ℓ} {B : Type κ} (P : B → Type μ) (o : Option A) (f : A → Option B)
    → ((a : A) → o ≡ some a → Ensures P (f a))
    → Ensures P (o >>= f)
unfolding ◌>>=◌
bind-Ensures P none f h = tt
bind-Ensures P (some a) f h = h a refl

-- A copied symbol fills 16 bytes, and is the C string of the first 15 bytes.
c_str-append : (s t : List ℕ) → c_str (s ++ 0 ∷ t) ≡ c_str s
unfolding c_str
c_str-append [] t = refl
c_str-append (c ∷ s) t = ground (arith, c_str-append s t)

length-drop : (n : ℕ) (s : List ℕ) → length (drop n s) ≡ length s - n
length-drop zero s = omega arith
length-drop (suc n) [] = omega arith
length-drop (suc n) (c ∷ s) = omega (arith, length-drop n s)

copy_symbol_lem :
    (view : Text) (raw : Symbol)
    → length raw ≡ 16
    → (length (copy_symbol view raw) ≡ 16) × (c_str (copy_symbol view raw) ≡ c_str (take 15 view))
unfolding copy_symbol
copy_symbol_lem view raw h = (
  omega (
    arith,
    h,
    length-append (take 15 view) (0 ∷ drop (length (take 15 view) + 1) raw),
    length-take 15 view,
    length-drop (length (take 15 view) + 1) raw,
  ),
  c_str-append (take 15 view) _,
)

module _ {ℓ κ} {W : Type ℓ} ⦃d : Double W⦄ {D : Type κ} (json : Json D)
    (spelling : Spelling W) where
  -- The text is a document of this trade: its members are the symbol, whose first 15 bytes the trade
  -- keeps, texts of its price and its quantity, its time, and whether the buyer was the maker.
  pub record IsShown (text : Text) (md : MarketDataEvent W) : Type (ℓ ⊔ κ) where
    pub doc : D
    pub name : Text
    pub price_str : Text
    pub qty_str : Text
    pub document : json.iterate text ≡ some doc
    pub s : json.string_of doc (codes "s") ≡ some name
    pub p : json.string_of doc (codes "p") ≡ some price_str
    pub q : json.string_of doc (codes "q") ≡ some qty_str
    pub price : stod spelling price_str ≡ some md.price
    pub quantity : stod spelling qty_str ≡ some md.quantity
    pub exchange_ts : json.integer_of doc (codes "T") ≡ some md.exchange_ts
    pub is_buyer_maker : json.bool_of doc (codes "m") ≡ some md.is_buyer_maker
    pub symbol : c_str md.symbol ≡ c_str (take 15 name)

  parse-Ensures :
      (raw : MarketDataEvent W) (text : Text)
      → length raw.symbol ≡ 16
      → Ensures
          (λ (md : MarketDataEvent W). IsShown text md × (length md.symbol ≡ 16))
          (parse json spelling raw text)
  unfolding parse
  parse-Ensures raw text h =
      let IsParsed = λ (md : MarketDataEvent W). IsShown text md × (length md.symbol ≡ 16) in
      bind-Ensures IsParsed _ _ (λ doc document. bind-Ensures IsParsed _ _ (λ name s.
        bind-Ensures IsParsed _ _ (λ price_str p. bind-Ensures IsParsed _ _ (λ price priced.
          bind-Ensures IsParsed _ _ (λ qty_str q. bind-Ensures IsParsed _ _ (λ quantity counted.
            bind-Ensures IsParsed _ _ (λ exchange_ts t. bind-Ensures IsParsed _ _ (λ maker m.
              let (filled, same) = copy_symbol_lem name raw.symbol h in
              let parsed : MarketDataEvent W = record {
                symbol = copy_symbol name raw.symbol;
                price = price;
                quantity = quantity;
                exchange_ts = exchange_ts;
                is_buyer_maker = maker;
              } in
              let shown : IsShown text parsed = record {
                doc = doc;
                name = name;
                price_str = price_str;
                qty_str = qty_str;
                document = document;
                s = s;
                p = p;
                q = q;
                price = priced;
                quantity = counted;
                exchange_ts = t;
                is_buyer_maker = m;
                symbol = same;
              } in
              let done : IsShown text parsed × (length parsed.symbol ≡ 16) = (shown, filled) in
              done))))))))

  -- Where the local event has its 16 bytes of symbol: what is parsed is a trade that the text shows, with
  -- a symbol of 16 bytes; and of a text that shows a trade, a trade is parsed that equals it but for the
  -- bytes behind the end of the symbol.
  pub parse_lem :
      (raw : MarketDataEvent W) (text : Text)
      → length raw.symbol ≡ 16
      → ((md : MarketDataEvent W)
          → parse json spelling raw text ≡ some md
          → IsShown text md × (length md.symbol ≡ 16))
        × ((md : MarketDataEvent W)
            → IsShown text md
            → (symbol : Symbol) × (parse json spelling raw text
                ≡ some (record md { symbol = symbol }))
              × (c_str symbol ≡ c_str md.symbol))
  parse_lem raw text h = (
    (λ md e.
        subst (Ensures (λ (md : MarketDataEvent W). IsShown text md × (length md.symbol ≡ 16))) e
          (parse-Ensures raw text h)),
    (λ md r. (
      copy_symbol r.name raw.symbol,
      unfold parse ◌>>=◌ in
          rw (r.document, r.s, r.p, r.price, r.q, r.quantity, r.exchange_ts, r.is_buyer_maker),
      (copy_symbol_lem r.name raw.symbol h).1 ∙ sym r.symbol,
    )),
  )
