-- ===== src/Double/Order.antt =====
-- What the comparisons of IEEE 754 guarantee, NaN and the two zeros included.
use ultra_low_latency_hft_en.Prelude.{◌≡◌, ◌⊎◌, inl, inr, true, false, Bool-cases, arith}
use ultra_low_latency_hft_en.Double.{Double, lt, eq, le, ge, min, max, whole, ◌⊗◌, ◌⊘◌, IsNumber}

pub record IsOrdered {ℓ} (W : Type ℓ) ⦃d : Double W⦄ : Type ℓ where
  pub is_set : IsSet W
  pub lt_irrefl : (x : W) → lt x x ≡ false
  pub lt_trans : (x y z : W) → lt x y ≡ true → lt y z ≡ true → lt x z ≡ true
  pub lt_number : (x y : W) → lt x y ≡ true → IsNumber x × IsNumber y
  pub eq_sym : (x y : W) → eq x y ≡ true → eq y x ≡ true
  pub eq_trans : (x y z : W) → eq x y ≡ true → eq y z ≡ true → eq x z ≡ true
  pub eq_lt : (x y z : W) → eq x y ≡ true → lt y z ≡ true → lt x z ≡ true
  pub lt_eq : (x y z : W) → lt x y ≡ true → eq y z ≡ true → lt x z ≡ true
  -- two numbers are related by `==` or by `<`
  pub total :
      (x y : W) → IsNumber x → IsNumber y → eq x y ≡ false → (lt x y ≡ true) ⊎ (lt y x ≡ true)

-- What `floor`, `ceil` and the factor 1.0 do to a number.
pub record IsRounding {ℓ} (W : Type ℓ) ⦃d : Double W⦄ : Type ℓ where
  pub floor_le : (x : W) → IsNumber (d.floor x) → le (d.floor x) x ≡ true
  pub ceil_ge : (x : W) → IsNumber (d.ceil x) → ge (d.ceil x) x ≡ true
  pub mul_one : (x : W) → IsNumber (x ⊗ whole 1) → eq (x ⊗ whole 1) x ≡ true
  pub div_one : (x : W) → IsNumber (x ⊘ whole 1) → eq (x ⊘ whole 1) x ≡ true

module _ {ℓ} {W : Type ℓ} ⦃d : Double W⦄ (laws : IsOrdered W) where
  open laws use {lt_irrefl, lt_trans, eq_lt, lt_eq, eq_sym, eq_trans, lt_number, total}

  pub lt_asym : (x y : W) → lt x y ≡ true → lt y x ≡ false
  lt_asym x y h = ground (arith, lt_irrefl x, lt_trans x y x)

  -- `<` and `==` exclude each other.
  pub lt_not_eq : (x y : W) → lt x y ≡ true → eq x y ≡ false
  lt_not_eq x y h = ground (arith, lt_irrefl y, eq_sym x y, eq_lt y x y)

  pub lt_not_eq' : (x y : W) → lt x y ≡ true → eq y x ≡ false
  lt_not_eq' x y h = ground (arith, lt_irrefl y, eq_lt y x y)

  eq-IsNumber : (x y : W) → eq x y ≡ true → IsNumber x × IsNumber y
  eq-IsNumber x y h = (eq_trans x y x h (eq_sym x y h), eq_trans y x y (eq_sym x y h) h)

  le-IsNumber : (x y : W) → le x y ≡ true → IsNumber x × IsNumber y
  le-IsNumber x y h = elim (Bool-cases (lt x y)) [
    | inl e ↦ lt_number x y e
    | inr e ↦ eq-IsNumber x y (ground arith)
  ]

  pub le_trans : (x y z : W) → le x y ≡ true → le y z ≡ true → le x z ≡ true
  le_trans x y z h k = ground (arith, lt_trans x y z, eq_lt x y z, lt_eq x y z, eq_trans x y z)

  or_eq : {x y : W} → eq x y ≡ true → le x y ≡ true
  or_eq h = ground arith

  le-min : (t x : W) → IsNumber x → IsNumber (min t x) → le (min t x) x ≡ true
  le-min t x n m = ground (arith, total t x)

  ge-max : (t x : W) → IsNumber x → IsNumber (max t x) → ge (max t x) x ≡ true
  ge-max t x n m = ground (arith, total t x, eq_sym t x)

  module _ (rounding : IsRounding W) where
    open rounding use {floor_le, ceil_ge, mul_one, div_one}

    -- A price that is at most `x` stays so when it is rounded down to a tick of 1.0.
    pub floor-min-le :
        (t x : W)
        → IsNumber x
        → let tick = d.floor (min t x ⊘ whole 1) ⊗ whole 1 in IsNumber tick → le tick x ≡ true
    floor-min-le t x n m =
        let low = d.floor (min t x ⊘ whole 1) in
        let ticked = mul_one low m in
        let floored = floor_le (min t x ⊘ whole 1) (eq-IsNumber _ _ ticked).1 in
        let divided = div_one (min t x) (le-IsNumber _ _ floored).1 in
        let capped = le-min t x n (eq-IsNumber _ _ divided).1 in
        le_trans _ low x (or_eq ticked)
          (le_trans low _ x floored (le_trans _ _ x (or_eq divided) capped))

    pub ceil-max-ge :
        (t x : W)
        → IsNumber x
        → let tick = d.ceil (max t x ⊘ whole 1) ⊗ whole 1 in IsNumber tick → ge tick x ≡ true
    ceil-max-ge t x n m =
        let high = d.ceil (max t x ⊘ whole 1) in
        let ticked = mul_one high m in
        let raised = ceil_ge (max t x ⊘ whole 1) (eq-IsNumber _ _ ticked).1 in
        let divided = div_one (max t x) (le-IsNumber _ high raised).0 in
        let capped = ge-max t x n (eq-IsNumber _ _ divided).1 in
        le_trans x _ _ capped (
          le_trans _ _ _ (or_eq (eq_sym _ _ divided))
            (le_trans _ high _ raised (or_eq (eq_sym _ _ ticked))))
