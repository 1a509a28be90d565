-- ===== src/Replay/Recorder.antt =====
-- `replay/market_data_recorder.{hpp,cpp}`: the file that the recorder appends to.
use ultra_low_latency_hft_en.Prelude.{Bool, true, false, Option, none, some, List, [], ◌∷◌, ◌++◌}
use ultra_low_latency_hft_en.Text.{Text, Spelling, c_str, show_signed, show_bool}
use ultra_low_latency_hft_en.Core.Events.{MarketDataEvent}

-- The content of the file, or `none` if it could not be opened.
pub record MarketDataRecorder : Type 0 where
  pub file : Option Text

-- the constructor, which appends to what the file held
abbrev pub open_append : Option Text → MarketDataRecorder
open_append content = record { file = content }

abbrev pub is_open : MarketDataRecorder → Bool
is_open r = elim r.file [ none ↦ false | some _ ↦ true ]

module _ {ℓ} {W : Type ℓ} (spelling : Spelling W) where
  -- the line of a trade, up to its end
  unfoldable pub line : MarketDataEvent W → Text
  line md =
      c_str md.symbol
      ++ b','
        ∷ (spelling.show md.price
            ++ b','
              ∷ (spelling.show md.quantity
                  ++ b',' ∷ (show_signed md.exchange_ts ++ b',' ∷ show_bool md.is_buyer_maker)))

  unfoldable pub record_trade : MarketDataEvent W → MarketDataRecorder → MarketDataRecorder
  unfolding line
  record_trade md r = elim r.file [
    | none ↦ r
    | some text ↦ record r { file = some (text ++ (line md ++ b'\n' ∷ [])) }
  ]

  unfoldable pub record_all : List (MarketDataEvent W) → MarketDataRecorder → MarketDataRecorder
  record_all [] r = r
  record_all (md ∷ mds) r = record_all mds (record_trade md r)
