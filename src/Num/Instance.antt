-- ===== src/Num/Instance.antt =====
-- The whole numbers as an instance of `Num`, and its laws.
use pios_backend.Prelude.{ℕ, ◌*◌, ◌<◌, arith}
use pios_backend.Num.{Num, IsSigned}
use pios_backend.Num.Ints.{
  ℤ, ◌+ℤ◌, ◌-ℤ◌, ◌*ℤ◌, div_ℤ, neg_ℤ, ltb_ℤ, eqb_ℤ, lit_ℤ, pos_part, neg_part,
}

instance abbrev pub int_num : Num ℤ
int_num = record {
  add = ◌+ℤ◌;
  sub = ◌-ℤ◌;
  mul = ◌*ℤ◌;
  div = div_ℤ;
  neg = neg_ℤ;
  lt = ltb_ℤ;
  eq = eqb_ℤ;
  lit = lit_ℤ;
  show = λ _. "a number";
  numeric = λ x. x;
}

mul_pos : (a b : ℕ) → 0 < a → 0 < b → 0 < a * b
mul_pos a b h k = grind arith

pub ℤ-IsSigned : IsSigned ℤ
unfolding ◌+ℤ◌ ◌*ℤ◌
ℤ-IsSigned = record {
  lt_irrefl = λ a. ground arith;
  lt_asymm = λ a b h. ground arith;
  neg_neg = λ a. ground arith;
  neg-pos = λ a h. ground arith;
  neg-neg_pos = λ a h. ground arith;
  neg-add = λ a b. ground arith;
  neg-nought = ground arith;
  eq_of_not_lt = λ a h k. ground arith;
  mul-pos = λ a b h k. ground (arith, mul_pos (pos_part a) (pos_part b));
  mul-pos_neg = λ a b h k. ground (arith, mul_pos (pos_part a) (neg_part b));
  mul-neg_pos = λ a b h k. ground (arith, mul_pos (neg_part a) (pos_part b));
  mul-neg = λ a b h k. ground (arith, mul_pos (neg_part a) (neg_part b));
  mul-nought = λ b. ground arith;
  add-pos = λ a b h k. ground arith;
  lt_of_lt_of_le = λ a b c h k. ground arith;
  eps_pos = ground arith;
}
