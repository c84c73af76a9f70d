-- ===== src/Tests/Fixed.antt =====
-- Signed thousandths as floats: an instance of the interface for runs.
use open_sprite_runtime.Prelude.{ℕ, zero, suc, ◌+◌, ◌*◌, ◌/◌, true, some}
use open_sprite_runtime.Prelude.Int.{ℤ, pos, negsuc, pos_part, neg_part, sub_ℕ, ltb_ℤ, leb_ℤ}
use open_sprite_runtime.Float.{FloatOps}

abbrev add : ℤ → ℤ → ℤ
add a b = sub_ℕ (pos_part a + pos_part b) (neg_part a + neg_part b)

abbrev sub : ℤ → ℤ → ℤ
sub a b = sub_ℕ (pos_part a + neg_part b) (neg_part a + pos_part b)

abbrev size : ℤ → ℕ
size a = pos_part a + neg_part a

-- `a * n / d`, towards zero.
abbrev scaled : ℤ → ℕ → ℕ → ℤ
scaled a n d = sub_ℕ (pos_part a * n / d) (neg_part a * n / d)

abbrev negated : ℤ → ℤ
negated a = sub_ℕ (neg_part a) (pos_part a)

abbrev with_sign : ℤ → ℤ → ℤ
with_sign (pos n) a = a
with_sign (negsuc n) a = negated a

abbrev mul : ℤ → ℤ → ℤ
mul a b = with_sign b (scaled a (size b) 1000)

abbrev div : ℤ → ℤ → ℤ
div a b = with_sign b (scaled a 1000 (size b))

abbrev power : ℤ → ℕ → ℤ
power a zero = pos 1000
power a (suc n) = mul a (power a n)

abbrev pub thousandths : FloatOps
thousandths = record {
  Carrier = ℤ;
  add = add;
  sub = sub;
  mul = mul;
  div = div;
  pow = power;
  neg = negated;
  abs = λ a. pos (size a);
  ltb = ltb_ℤ;
  leb = leb_ℤ;
  is_finite = λ a. true;
  of_int = λ a. scaled a 1000 1;
  trunc = λ a. some (scaled a 1 1000);
  ceil = λ a. some (scaled (add a (pos 999)) 1 1000);
  of_f32 = λ n. pos (n * 1000);
  pi = pos 3142;
}
