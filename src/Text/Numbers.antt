-- ===== src/Text/Numbers.antt =====
-- The integer conversions read back what `<<` prints.
use ultra_low_latency_hft_en.Prelude.{
  ℕ, zero, suc, ◌+◌, ◌-◌, ◌*◌, ◌/◌, ◌%◌, ◌^◌, ◌<◌, ◌≡◌, ◌≢◌, refl, sym, ◌∙◌, ap, subst, inl, inr,
  Bool, true, false, ◌||◌, some, [], ◌∷◌, ◌++◌, ◌==◌, leb, ltb, All, All-append, Bool-cases, arith,
  append-nil,
}
use ultra_low_latency_hft_en.Text.{
  Text, is_digit, skip_spaces, read_sign, read_digits, number_from, to_signed, to_integer, stoll,
  digits, show_unsigned, show_signed,
}

abbrev pub IsDigit : ℕ → Type 0
IsDigit c = is_digit c ≡ true

number_from-append :
    (acc : ℕ) (s t : Text) → number_from acc (s ++ t) ≡ number_from (number_from acc s) t
unfolding number_from
number_from-append acc [] t = refl
number_from-append acc (c ∷ s) t = number_from-append (acc * 10 + (c - b'0')) s t

is_digit_lem : (n : ℕ) → n < 10 → IsDigit (b'0' + n)
unfolding is_digit
is_digit_lem n h = ground arith

digits-All : (fuel n : ℕ) → All IsDigit (digits fuel n)
unfolding digits
digits-All zero n = tt
digits-All (suc fuel) n = elim (Bool-cases (ltb n 10)) [
  | inl e ↦ rw e (is_digit_lem n (ground arith), tt)
  | inr e ↦ rw e (
      All-append IsDigit (digits fuel (n / 10)) _ (digits-All fuel (n / 10))
        (is_digit_lem (n % 10) (omega arith), tt))
]

number_from-digits : (fuel n : ℕ) → n < fuel → number_from 0 (digits fuel n) ≡ n
unfolding digits number_from
number_from-digits zero n h = absurd (omega arith)
number_from-digits (suc fuel) n h = elim (Bool-cases (ltb n 10)) [
  | inl e ↦ rw e (omega arith)
  | inr e ↦
      let ih = number_from-digits fuel (n / 10) (ground arith) in
      rw e (number_from-append 0 (digits fuel (n / 10)) ((b'0' + n % 10) ∷ []) ∙ omega (arith, ih))
]

-- where the digits end
pub read_digits_lem :
    (s rest : Text)
    → All IsDigit s
    → read_digits rest ≡ ([], rest)
    → read_digits (s ++ rest) ≡ (s, rest)
unfolding read_digits
read_digits_lem [] rest h e = e
read_digits_lem (c ∷ s) rest h e = rw (h.0, read_digits_lem s rest h.1 e)

-- a number has a digit
digits-cons : (fuel n : ℕ) → n < fuel → (c : ℕ) × (s : Text) × (digits fuel n ≡ c ∷ s)
unfolding digits
digits-cons zero n h = absurd (omega arith)
digits-cons (suc fuel) n h = elim (Bool-cases (ltb n 10)) [
  | inl e ↦ (b'0' + n, [], rw e)
  | inr e ↦
      let (c, s, front) = digits-cons fuel (n / 10) (ground arith) in
      (c, s ++ (b'0' + n % 10) ∷ [], rw (e, front))
]

skip_spaces-digit : (c : ℕ) (s : Text) → IsDigit c → skip_spaces (c ∷ s) ≡ c ∷ s
unfolding skip_spaces is_digit
skip_spaces-digit c s h = ground arith

read_sign-digit : (c : ℕ) (s : Text) → IsDigit c → read_sign (c ∷ s) ≡ (false, c ∷ s)
unfolding read_sign is_digit
read_sign-digit c s h = ground arith

read_digits-all : (s : Text) → All IsDigit s → read_digits s ≡ (s, [])
unfolding read_digits
read_digits-all s h = ap read_digits (sym (append-nil s)) ∙ read_digits_lem s [] h refl

-- Digits are read as they are, with a minus sign before them or none.
to_integer-digits :
    (w c : ℕ) (s : Text)
    → All IsDigit (c ∷ s)
    → (to_integer w (c ∷ s) ≡ to_signed w false (c ∷ s))
      × (to_integer w (b'-' ∷ c ∷ s) ≡ to_signed w true (c ∷ s))
unfolding to_integer
to_integer-digits w c s h = (
  rw (skip_spaces-digit c s h.0, read_sign-digit c s h.0, read_digits-all (c ∷ s) h),
  unfold skip_spaces read_sign in rw (read_digits-all (c ∷ s) h),
)

-- `stoll` reads back each `long long` that `<<` prints.
pub stoll-show_signed : (n : ℕ) → n < 2 ^ 64 → stoll (show_signed n) ≡ some n
unfolding show_signed show_unsigned to_signed
stoll-show_signed n h = elim (Bool-cases (ltb n (2 ^ 63))) [
  | inl e ↦
      let (c, s, shown) = digits-cons (n + 1) n (omega arith) in
      let value : number_from 0 (c ∷ s) ≡ n =
        ap (number_from 0) (sym shown) ∙ number_from-digits (n + 1) n (omega arith) in
      let all : All IsDigit (c ∷ s) = subst (All IsDigit) shown (digits-All (n + 1) n) in
      rw (e, shown) ((to_integer-digits 63 c s all).0 ∙ rw (value, e))
  | inr e ↦
      let m = 2 ^ 64 - n in
      let (c, s, shown) = digits-cons (m + 1) m (omega arith) in
      let value : number_from 0 (c ∷ s) ≡ m =
        ap (number_from 0) (sym shown) ∙ number_from-digits (m + 1) m (omega arith) in
      let all : All IsDigit (c ∷ s) = subst (All IsDigit) shown (digits-All (m + 1) m) in
      let le : leb m (2 ^ 63) ≡ true = ground arith in
      let back : (2 ^ 64 - m) % 2 ^ 64 ≡ n = omega arith in
      rw (e, shown) ((to_integer-digits 63 c s all).1 ∙ rw (value, le, back))
]

-- Texts that hold no byte `b`.
unfoldable pub has : ℕ → Text → Bool
has b [] = false
has b (c ∷ s) = (c == b) || has b s

has-All : (b : ℕ) (s : Text) → is_digit b ≡ false → All IsDigit s → has b s ≡ false
unfolding has is_digit
has-All b [] h a = refl
has-All b (c ∷ s) h a = ground (arith, has-All b s)

-- What `<<` prints of a `long long` is digits and a minus sign.
pub has-show_signed : (b n : ℕ) → is_digit b ≡ false → b ≢ b'-' → has b (show_signed n) ≡ false
unfolding show_signed show_unsigned has
has-show_signed b n h k = ground (
  arith,
  has-All b (digits (n + 1) n) h (digits-All (n + 1) n),
  has-All b (digits (2 ^ 64 - n + 1) (2 ^ 64 - n)) h (digits-All (2 ^ 64 - n + 1) (2 ^ 64 - n)),
)
