-- ===== src/Text.antt =====
-- What the program uses of the C++ standard library on texts: `std::getline`, `strncpy`, and the
-- conversions between texts and numbers. A text is the list of its bytes.
pub mod Numbers
pub mod Lines
mod Tests
use Prim.Native.Char.{code}
use Prim.Native.String.{String}
use ultra_low_latency_hft_en.Prelude.{
  ℕ, zero, suc, ◌+◌, ◌-◌, ◌*◌, ◌/◌, ◌%◌, ◌^◌, Bool, true, false, ◌&&◌, ◌||◌, Option, none, some,
  List, [], ◌∷◌, ◌++◌, ◌==◌, leb, ltb, if◌then◌else◌, length,
}
use ultra_low_latency_hft_en.Prelude.Int.{ℤ, pos, negsuc, sub_ℕ, ◌-ℤ◌}
use ultra_low_latency_hft_en.Double.{Double}

abbrev pub Text : Type 0
Text = List ℕ

-- the bytes of a literal
abbrev pub codes : String → Text
codes String.[] = []
codes (String.◌∷◌ c s) = code c ∷ codes s

-- the token that the end of a stream completes; where nothing is left `getline` fails
unfoldable pub last_token : Text → List Text
last_token [] = []
last_token (c ∷ s) = (c ∷ s) ∷ []

-- All that repeated calls of `std::getline(stream, token, sep)` return before one fails. A separator at
-- the very end is followed by no empty token.
unfoldable pub getlines_from : ℕ → Text → Text → List Text
unfolding last_token
getlines_from sep so_far [] = last_token so_far
getlines_from sep so_far (c ∷ s) = elim (c == sep) [
  | true ↦ so_far ∷ getlines_from sep [] s
  | false ↦ getlines_from sep (so_far ++ c ∷ []) s
]

unfoldable pub getlines : ℕ → Text → List Text
unfolding getlines_from
getlines sep s = getlines_from sep [] s

-- a C string: the bytes before the first zero
unfoldable pub c_str : List ℕ → Text
c_str [] = []
c_str (c ∷ s) = if c == 0 then [] else c ∷ c_str s

-- `strncpy(to, s, n)`: the bytes that it writes, padded with zeros
unfoldable pub strncpy : ℕ → Text → List ℕ
strncpy zero s = []
strncpy (suc n) [] = 0 ∷ strncpy n []
strncpy (suc n) (c ∷ s) = if c == 0 then 0 ∷ strncpy n [] else c ∷ strncpy n s

unfoldable pub is_digit : ℕ → Bool
is_digit c = leb b'0' c && leb c b'9'

-- `isspace` in the C locale
unfoldable pub is_space : ℕ → Bool
is_space c = c == 32 || (leb 9 c && leb c 13)

unfoldable pub skip_spaces : Text → Text
unfolding is_space
skip_spaces [] = []
skip_spaces (c ∷ s) = if is_space c then skip_spaces s else c ∷ s

-- whether a minus sign stands first, and what follows the sign
unfoldable pub read_sign : Text → Bool × Text
read_sign [] = (false, [])
read_sign (c ∷ s) =
    if c == b'-' then (true, s) else if c == b'+' then (false, s) else (false, c ∷ s)

-- the digits at the front, and what follows them
unfoldable pub read_digits : Text → Text × Text
unfolding is_digit
read_digits [] = ([], [])
read_digits (c ∷ s) =
    let rest = read_digits s in if is_digit c then (c ∷ rest.0, rest.1) else ([], c ∷ s)

unfoldable pub number_from : ℕ → Text → ℕ
number_from n [] = n
number_from n (c ∷ s) = number_from (n * 10 + (c - b'0')) s

-- The integer conversions into `w + 1` bits, as the bits; `none` stands for an exception. What follows
-- the digits is not read.
unfoldable pub to_signed : ℕ → Bool → Text → Option ℕ
unfolding number_from
to_signed w minus [] = none
to_signed w minus (c ∷ s) =
    let n = number_from 0 (c ∷ s) in
    if minus
    then (if leb n (2 ^ w) then some ((2 ^ (w + 1) - n) % 2 ^ (w + 1)) else none)
    else if ltb n (2 ^ w)
    then some n
    else none

unfoldable pub to_integer : ℕ → Text → Option ℕ
unfolding skip_spaces read_sign read_digits to_signed
to_integer w s =
    let (minus, digits) = read_sign (skip_spaces s) in to_signed w minus (read_digits digits).0

-- `std::stoll` and `std::stoi`
abbrev pub stoll : Text → Option ℕ
stoll = to_integer 63

abbrev pub stoi : Text → Option ℕ
stoi = to_integer 31

-- the digits of a number, `fuel` being more than their count
unfoldable pub digits : ℕ → ℕ → Text
digits zero n = []
digits (suc fuel) n =
    let front = digits fuel (n / 10) in
    if ltb n 10 then (b'0' + n) ∷ [] else front ++ (b'0' + n % 10) ∷ []

-- `stream << n` for an unsigned number, and for a `long long`, given by its bits
unfoldable pub show_unsigned : ℕ → Text
unfolding digits
show_unsigned n = digits (n + 1) n

unfoldable pub show_signed : ℕ → Text
unfolding show_unsigned
show_signed n = if ltb n (2 ^ 63) then show_unsigned n else b'-' ∷ show_unsigned (2 ^ 64 - n)

-- `stream << b` for a `bool`
abbrev pub show_bool : Bool → Text
show_bool true = b'1' ∷ []
show_bool false = b'0' ∷ []

-- the exponent that follows a mantissa, 0 where there is none
unfoldable pub read_exponent : Text → ℤ
read_exponent [] = pos 0
read_exponent (c ∷ s) =
    let (minus, digits) = read_sign s in
    let n = number_from 0 (read_digits digits).0 in
    if c == b'e' || c == b'E' then (if minus then sub_ℕ 0 n else pos n) else pos 0

-- the fraction: the digits behind a point, and what follows them
unfoldable pub read_fraction : Text → Text × Text
read_fraction [] = ([], [])
read_fraction (c ∷ s) = if c == b'.' then read_digits s else ([], c ∷ s)

-- What the conversions of `double` leave to its representation: the spellings that are no decimal
-- number (infinity, NaN, hexadecimal), the values that no range error excludes, and the six significant
-- digits that `stream << x` prints.
pub record Spelling {ℓ} (W : Type ℓ) : Type ℓ where
  pub special : Text → Option W
  pub in_range : W → Bool
  pub show : W → Text

module _ {ℓ} {W : Type ℓ} ⦃d : Double W⦄ where
  -- the number with these digits, and an exponent of 10
  abbrev pub scaled : Bool → Text → ℤ → W
  scaled minus s exponent =
      let n = number_from 0 s in
      elim exponent [
        | pos e ↦ d.decimal (if minus then sub_ℕ 0 (n * 10 ^ e) else pos (n * 10 ^ e)) 0
        | negsuc e ↦ d.decimal (if minus then sub_ℕ 0 n else pos n) (e + 1)
      ]

  unfoldable pub to_decimal : (W → Bool) → Bool → Text → ℕ → ℤ → Option W
  to_decimal in_range minus [] places exponent = none
  to_decimal in_range minus (c ∷ s) places exponent =
      let x = scaled minus (c ∷ s) (exponent -ℤ pos places) in if in_range x then some x else none

  -- `std::stod`; `none` stands for an exception
  unfoldable pub stod : Spelling W → Text → Option W
  unfolding skip_spaces read_sign read_digits read_exponent read_fraction to_decimal number_from
      ◌-ℤ◌
  stod spelling s =
      let (minus, unsigned) = read_sign (skip_spaces s) in
      let (front, behind) = read_digits unsigned in
      let (fraction, rest) = read_fraction behind in
      elim (spelling.special s) [
        | some x ↦ some x
        | none ↦
            to_decimal spelling.in_range minus (front ++ fraction) (length fraction)
              (read_exponent rest)
      ]
