-- ===== src/Double/Whole.antt =====
-- Whole numbers in place of doubles: an instance at which the definitions run, and which has the laws of
-- comparison and of rounding that theorems assume. A literal is rounded away from zero.
use ultra_low_latency_hft_en.Prelude.{ℕ, ◌+◌, ◌-◌, ◌/◌, ◌^◌, arith}
use ultra_low_latency_hft_en.Prelude.Int.{
  ℤ, pos, negsuc, ◌+ℤ◌, ◌-ℤ◌, ◌*ℤ◌, ◌/ℤ◌, sub_ℕ, ltb_ℤ, eqb_ℤ, abs_ℤ, pos_part,
}
use ultra_low_latency_hft_en.Double.{Double}
use ultra_low_latency_hft_en.Double.Order.{IsOrdered, IsRounding}

abbrev literal : ℤ → ℕ → ℤ
literal (pos n) k = pos ((n + (10 ^ k - 1)) / 10 ^ k)
literal (negsuc n) k = sub_ℕ 0 ((n + 10 ^ k) / 10 ^ k)

instance abbrev pub whole_double : Double ℤ
whole_double = record {
  decimal = literal;
  lt = ltb_ℤ;
  eq = eqb_ℤ;
  add = ◌+ℤ◌;
  sub = ◌-ℤ◌;
  mul = ◌*ℤ◌;
  div = ◌/ℤ◌;
  neg = λ x. pos 0 -ℤ x;
  abs = abs_ℤ;
  floor = λ x. x;
  ceil = λ x. x;
  trunc = pos_part;
}

pub ℤ-IsOrdered : IsOrdered ℤ
ℤ-IsOrdered = record {
  is_set = hlevel;
  lt_irrefl = λ x. ground arith;
  lt_trans = λ x y z h k. ground arith;
  lt_number = λ x y h. ground arith;
  eq_sym = λ x y h. ground arith;
  eq_trans = λ x y z h k. ground arith;
  eq_lt = λ x y z h k. ground arith;
  lt_eq = λ x y z h k. ground arith;
  total = λ x y h k n. ground arith;
}

pub ℤ-IsRounding : IsRounding ℤ
unfolding ◌/ℤ◌ ◌*ℤ◌
ℤ-IsRounding = record {
  floor_le = λ x n. ground arith;
  ceil_ge = λ x n. ground arith;
  mul_one = λ x n. ground arith;
  div_one = λ x n. ground arith;
}
