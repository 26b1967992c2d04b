-- ===== src/Tests/Numbers.antt =====
-- Whole numbers in place of the doubles, for the tests.
use grid_edge_gateway.Prelude.{ℕ, ◌+◌, ◌-◌, ◌*◌, ◌/◌, ◌≡◌, true, arith, leb}
use grid_edge_gateway.Prelude.Int.{pos}
use grid_edge_gateway.Prelude.Doubles.{Doubles, IsIeee}

abbrev pub whole_numbers : Doubles
whole_numbers = record {
  F64 = ℕ;
  lit = λ n k. n / k;
  infinity = 1000000000;
  sum_start = 0;
  add = λ a b. a + b;
  sub = λ a b. a - b;
  mul = λ a b. a * b;
  div = λ a b. a / b;
  neg = λ a. 0;
  abs = λ a. a;
  floor = λ a. a;
  round = λ a. a;
  le = leb;
  total_le = leb;
  of_f32 = λ bits. bits;
  to_f32 = λ a. a;
  of_nat = λ n. n;
  to_nat = λ a. a;
  to_int = λ a. pos a;
}

leb_trans : (a b c : ℕ) → leb a b ≡ true → leb b c ≡ true → leb a c ≡ true
leb_trans a b c h k = ground arith

pub whole_numbers-IsIeee : IsIeee whole_numbers
whole_numbers-IsIeee = record {
  le_trans = λ {a} {b} {c} h k. leb_trans a b c h k;
  le_total = λ a b h k. ground arith;
  le_refl = λ {a} {b} h. ground arith;
  lit_le = λ n k h. ground arith;
  add_grows = λ a b h k. ground arith;
  add_positive = λ a b h k l. ground arith;
}
