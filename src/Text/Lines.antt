-- ===== src/Text/Lines.antt =====
-- What `getline` makes of lines and fields that were joined by separators.
use ultra_low_latency_hft_en.Prelude.{
  ℕ, ◌≡◌, ◌∙◌, ap, false, [], ◌∷◌, ◌++◌, ◌==◌, arith, append-nil, append_assoc, ==_refl,
}
use ultra_low_latency_hft_en.Text.{Text, last_token, getlines_from, getlines}
use ultra_low_latency_hft_en.Text.Numbers.{has}

getlines_from_lem :
    (sep : ℕ) (so_far line rest : Text)
    → has sep line ≡ false
    → getlines_from sep so_far (line ++ sep ∷ rest) ≡ (so_far ++ line) ∷ getlines sep rest
unfolding getlines_from getlines has
getlines_from_lem sep so_far [] rest h = rw (==_refl sep, getlines_from, append-nil)
getlines_from_lem sep so_far (c ∷ line) rest h =
    let other : (c == sep) ≡ false = ground arith in
    let tail : has sep line ≡ false = ground arith in
    rw (other, getlines_from)
      (getlines_from_lem sep (so_far ++ c ∷ []) line rest tail
        ∙ ap (λ l. l ∷ getlines sep rest) (append_assoc so_far (c ∷ []) line))

-- A line that holds no separator is returned first.
pub getlines_line :
    (sep : ℕ) (line rest : Text)
    → has sep line ≡ false
    → getlines sep (line ++ sep ∷ rest) ≡ line ∷ getlines sep rest
unfolding getlines
getlines_line sep line rest h = getlines_from_lem sep [] line rest h

getlines_from_last :
    (sep : ℕ) (so_far line : Text)
    → has sep line ≡ false
    → getlines_from sep so_far line ≡ last_token (so_far ++ line)
unfolding getlines_from has
getlines_from_last sep so_far [] h = rw append-nil
getlines_from_last sep so_far (c ∷ line) h =
    let other : (c == sep) ≡ false = ground arith in
    let tail : has sep line ≡ false = ground arith in
    rw (other, getlines_from)
      (getlines_from_last sep (so_far ++ c ∷ []) line tail
        ∙ ap last_token (append_assoc so_far (c ∷ []) line))

-- So is the last one, with no separator behind it.
pub getlines_last :
    (sep : ℕ) (line : Text) → has sep line ≡ false → getlines sep line ≡ last_token line
unfolding getlines
getlines_last sep line h = getlines_from_last sep [] line h

pub has-append : (b : ℕ) (s t : Text) → has b s ≡ false → has b t ≡ false → has b (s ++ t) ≡ false
unfolding has
has-append b [] t h k = k
has-append b (c ∷ s) t h k = ground (arith, has-append b s t)
