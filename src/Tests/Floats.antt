-- ===== src/Tests/Floats.antt =====
-- The natural numbers as floats, with rounding down: an instance of the interface.
use open_sprite_runtime.Prelude.{ℕ, ◌+◌, ◌-◌, ◌*◌, ◌/◌, ◌^◌, true, some, ltb, leb}
use open_sprite_runtime.Prelude.Int.{ℤ, pos, negsuc}
use open_sprite_runtime.Float.{FloatOps}

abbrev pub natural_of : ℤ → ℕ
natural_of (pos n) = n
natural_of (negsuc n) = 0

abbrev pub naturals : FloatOps
naturals = record {
  Carrier = ℕ;
  add = λ a b. a + b;
  sub = λ a b. a - b;
  mul = λ a b. a * b;
  div = λ a b. a / b;
  pow = λ a n. a ^ n;
  neg = λ a. 0;
  abs = λ a. a;
  ltb = ltb;
  leb = leb;
  is_finite = λ a. true;
  of_int = natural_of;
  trunc = λ a. some (pos a);
  ceil = λ a. some (pos a);
  of_f32 = λ a. a;
  pi = 3;
}
