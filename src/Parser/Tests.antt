-- ===== src/Parser/Tests.antt =====
-- A trade of Binance, parsed over whole numbers; the document is a parser that knows this one text.
use ultra_low_latency_hft_en.Prelude.{
  ◌≡◌, refl, true, false, Option, none, some, [], ◌∷◌, ◌++◌, length, replicate, ◌==◌, if◌then◌else◌,
}
use ultra_low_latency_hft_en.Prelude.Int.{ℤ, pos}
use ultra_low_latency_hft_en.Double.Whole.{whole_double}
use ultra_low_latency_hft_en.Text.{Text, Spelling, codes, c_str, stod}
use ultra_low_latency_hft_en.Core.Events.{MarketDataEvent, Symbol}
use ultra_low_latency_hft_en.Parser.{Json, parse, IsShown, parse_lem}

abbrev string_of : Text → Text → Option Text
string_of doc [] = none
string_of doc (c ∷ key) =
    if c == b's'
    then some (codes "BTCUSDT")
    else if c == b'p'
    then some (codes "50000")
    else if c == b'q'
    then some (codes "2")
    else none

abbrev json : Json Text
json = record {
  iterate = λ text. some text;
  string_of = string_of;
  integer_of = λ doc key. some 123456785;
  bool_of = λ doc key. some true;
}

abbrev spelling : Spelling ℤ
spelling = record { special = λ s. none; in_range = λ x. true; show = λ x. [] }

abbrev raw : MarketDataEvent ℤ
raw = record {
  symbol = replicate 16 7;
  price = pos 0;
  quantity = pos 0;
  exchange_ts = 0;
  is_buyer_maker = false;
}

abbrev text : Text
text = codes "{...}"

abbrev trade : MarketDataEvent ℤ
trade = record {
  symbol = codes "BTCUSDT" ++ 0 ∷ replicate 8 7;
  price = pos 50000;
  quantity = pos 2;
  exchange_ts = 123456785;
  is_buyer_maker = true;
}

parsed : parse json spelling raw text ≡ some trade
unfolding parse stod
parsed = refl

parse_lem_example :
    ((md : MarketDataEvent ℤ)
      → parse json spelling raw text ≡ some md
      → IsShown json spelling text md × (length md.symbol ≡ 16))
    × ((md : MarketDataEvent ℤ)
        → IsShown json spelling text md
        → (symbol : Symbol) × (parse json spelling raw text ≡ some (record md { symbol = symbol }))
          × (c_str symbol ≡ c_str md.symbol))
parse_lem_example = parse_lem json spelling raw text refl
