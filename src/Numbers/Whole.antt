-- ===== src/Numbers/Whole.antt =====
-- The whole numbers in place of floats, for the runs of the tests.
use Prim.Native.Nat.{◌*◌}
use rule_kiln.Prelude.{◌+◌, ◌/◌, arith, IsStrictOrder, ℤ, pos, pos_part, neg_part, sub_ℕ, ltb_ℤ}
use rule_kiln.Numbers.{Floats}

pub ltb_ℤ_order : IsStrictOrder ltb_ℤ
ltb_ℤ_order = record { asymm = λ x y h. ground arith; not_before_trans = λ x y z h k. ground arith }

abbrev plus : ℤ → ℤ → ℤ
plus a b = sub_ℕ (pos_part a + pos_part b) (neg_part a + neg_part b)

abbrev minus : ℤ → ℤ → ℤ
minus a b = sub_ℕ (pos_part a + neg_part b) (neg_part a + pos_part b)

abbrev times : ℤ → ℤ → ℤ
times a b =
    sub_ℕ (pos_part a * pos_part b + neg_part a * neg_part b)
      (pos_part a * neg_part b + neg_part a * pos_part b)

abbrev over : ℤ → ℤ → ℤ
over a b = sub_ℕ (pos_part a / pos_part b) (neg_part a / pos_part b)

abbrev pub whole : Floats
whole = record {
  F = ℤ;
  lt = ltb_ℤ;
  of_ℕ = pos;
  neg = minus (pos 0);
  add = plus;
  sub = minus;
  mul = times;
  div = over;
  lt_order = ltb_ℤ_order;
}
