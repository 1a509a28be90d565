-- ===== src/Text/Tests.antt =====
-- Runs of the text functions.
use ultra_low_latency_hft_en.Prelude.{◌≡◌, refl, some, none, [], ◌∷◌}
use ultra_low_latency_hft_en.Text.{codes, getlines, stoll, stoi, show_signed, to_integer}

two_lines : getlines b'\n' (codes "a,b\n\nc") ≡ codes "a,b" ∷ [] ∷ codes "c" ∷ []
unfolding getlines
two_lines = refl

trailing_comma : getlines b',' (codes "x,,") ≡ codes "x" ∷ [] ∷ []
unfolding getlines
trailing_comma = refl

integers :
    (stoll (codes " -5,") ≡ some 18446744073709551611)
    × (stoi (codes "+12ab") ≡ some 12)
    × (stoi (codes "2147483648") ≡ none)
    × (stoll (codes "x") ≡ none)
    × (show_signed 18446744073709551611 ≡ codes "-5")
unfolding to_integer show_signed
integers = (refl, refl, refl, refl, refl)
