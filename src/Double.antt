-- ===== src/Double.antt =====
-- All that the code does with a `double`: literals, comparisons, arithmetic and conversions, over any
-- type that offers them. No law is assumed here; `Double.Order` names the laws of comparison that
-- IEEE 754 gives, and theorems that rest on them say so.
pub mod Order
pub mod Whole
use ultra_low_latency_hft_en.Prelude.{ℕ, zero, Bool, ◌||◌, if◌then◌else◌, ◌≡◌, true, not}
use ultra_low_latency_hft_en.Prelude.Int.{ℤ, pos}

pub record Double {ℓ} (W : Type ℓ) : Type ℓ where
  -- the literal `m * 10^-k`, and at k = 0 the conversion of an integer
  pub decimal : ℤ → ℕ → W
  pub lt : W → W → Bool
  pub eq : W → W → Bool
  pub add : W → W → W
  pub sub : W → W → W
  pub mul : W → W → W
  pub div : W → W → W
  pub neg : W → W
  pub abs : W → W
  pub floor : W → W
  pub ceil : W → W
  -- the conversion to an unsigned integer, which drops the fraction
  pub trunc : W → ℕ

-- The comparisons of C++. A comparison with NaN is false.
abbrev pub lt {ℓ} : {W : Type ℓ} ⦃d : Double W⦄ → W → W → Bool
lt ⦃d⦄ x y = d.lt x y

abbrev pub gt {ℓ} : {W : Type ℓ} ⦃d : Double W⦄ → W → W → Bool
gt ⦃d⦄ x y = d.lt y x

abbrev pub eq {ℓ} : {W : Type ℓ} ⦃d : Double W⦄ → W → W → Bool
eq ⦃d⦄ x y = d.eq x y

abbrev pub le {ℓ} : {W : Type ℓ} ⦃d : Double W⦄ → W → W → Bool
le ⦃d⦄ x y = d.lt x y || d.eq x y

abbrev pub ge {ℓ} : {W : Type ℓ} ⦃d : Double W⦄ → W → W → Bool
ge ⦃d⦄ x y = d.lt y x || d.eq y x

-- `std::min` and `std::max`
abbrev pub min {ℓ} : {W : Type ℓ} ⦃d : Double W⦄ → W → W → W
min ⦃d⦄ x y = if d.lt y x then y else x

abbrev pub max {ℓ} : {W : Type ℓ} ⦃d : Double W⦄ → W → W → W
max ⦃d⦄ x y = if d.lt x y then y else x

abbrev pub abs {ℓ} : {W : Type ℓ} ⦃d : Double W⦄ → W → W
abs ⦃d⦄ x = d.abs x

-- An integer literal or a converted integer.
abbrev pub whole {ℓ} : {W : Type ℓ} ⦃d : Double W⦄ → ℕ → W
whole ⦃d⦄ n = d.decimal (pos n) 0

abbrev pub neg {ℓ} : {W : Type ℓ} ⦃d : Double W⦄ → W → W
neg ⦃d⦄ x = d.neg x

infixl 65 ◌⊕◌ ◌⊖◌
infixl 70 ◌⊗◌ ◌⊘◌
abbrev pub ◌⊕◌ {ℓ} : {W : Type ℓ} ⦃d : Double W⦄ → W → W → W
◌⊕◌ ⦃d⦄ x y = d.add x y

abbrev pub ◌⊖◌ {ℓ} : {W : Type ℓ} ⦃d : Double W⦄ → W → W → W
◌⊖◌ ⦃d⦄ x y = d.sub x y

abbrev pub ◌⊗◌ {ℓ} : {W : Type ℓ} ⦃d : Double W⦄ → W → W → W
◌⊗◌ ⦃d⦄ x y = d.mul x y

abbrev pub ◌⊘◌ {ℓ} : {W : Type ℓ} ⦃d : Double W⦄ → W → W → W
◌⊘◌ ⦃d⦄ x y = d.div x y

-- NaN is the value that is not `==` itself.
abbrev pub IsNumber {ℓ} : {W : Type ℓ} ⦃d : Double W⦄ → W → Type 0
IsNumber ⦃d⦄ x = d.eq x x ≡ true
