-- ===== src/Float.antt =====
-- Python's `float` as an interface. The runtime computes with IEEE doubles, which are not part of
-- this repository: the type and its operations are a parameter of every definition that uses them.
use open_sprite_runtime.Prelude.{ℕ, ◌≤◌, ◌≡◌, Bool, true, ◌&&◌, Option, some}
use open_sprite_runtime.Prelude.Int.{ℤ, pos}

pub record FloatOps : Type 1 where
  pub Carrier : Type 0
  pub add : Carrier → Carrier → Carrier
  pub sub : Carrier → Carrier → Carrier
  pub mul : Carrier → Carrier → Carrier
  pub div : Carrier → Carrier → Carrier
  -- `x ** n` of an integer exponent
  pub pow : Carrier → ℕ → Carrier
  pub neg : Carrier → Carrier
  pub abs : Carrier → Carrier
  -- `a < b` and `a <= b`
  pub ltb : Carrier → Carrier → Bool
  pub leb : Carrier → Carrier → Bool
  -- `math.isfinite`
  pub is_finite : Carrier → Bool
  -- `float(n)` of an integer
  pub of_int : ℤ → Carrier
  -- `int(x)`: towards zero, and none where Python raises
  pub trunc : Carrier → Option ℤ
  -- `math.ceil(x)`: none where Python raises
  pub ceil : Carrier → Option ℤ
  -- the value of a 32-bit pattern
  pub of_f32 : ℕ → Carrier
  -- `math.pi`
  pub pi : Carrier

module _ (F : FloatOps) where
  abbrev pub lit : ℕ → F.Carrier
  lit n = F.of_int (pos n)

  abbrev pub zero_float : F.Carrier
  zero_float = lit 0

  -- A decimal literal `n / d`: both are exact, and the division rounds once, as the literal does.
  abbrev pub ratio : ℕ → ℕ → F.Carrier
  ratio n d = F.div (lit n) (lit d)

module _ (F : FloatOps) where
  -- `a == b` of numbers that are not NaN
  abbrev pub eq_float : F.Carrier → F.Carrier → Bool
  eq_float a b = F.leb a b && F.leb b a

  -- `math.radians(d)` of an integer
  abbrev pub radians : ℕ → F.Carrier
  radians d = F.mul (lit F d) (F.div F.pi (lit F 180))

-- What IEEE 754 says of correctly rounded operations on finite numbers, whose results keep the order
-- of the exact ones, and of the conversions. A difference of finite numbers is never NaN, and it may
-- be infinite. An integer of at most sixteen bits is a double exactly.
pub record FloatLaws (F : FloatOps) : Type 0 where
  -- a difference is not negative exactly as its terms are ordered, and differences from below are
  -- ordered as their first terms
  pub sub_nonneg :
      (a b : F.Carrier)
      → F.is_finite a ≡ true
      → F.is_finite b ≡ true
      → F.leb a b ≡ true
      → F.leb (zero_float F) (F.sub b a) ≡ true
  pub sub_pos :
      (a b : F.Carrier)
      → F.is_finite a ≡ true
      → F.is_finite b ≡ true
      → F.ltb a b ≡ true
      → F.ltb (zero_float F) (F.sub b a) ≡ true
  pub sub_mono :
      (a b c : F.Carrier)
      → F.is_finite a ≡ true
      → F.is_finite b ≡ true
      → F.is_finite c ≡ true
      → F.leb a b ≡ true
      → F.leb (F.sub a c) (F.sub b c) ≡ true
  -- a quotient of a part and a finite whole lies between 0 and 1
  pub div_part :
      (a b : F.Carrier)
      → F.leb (zero_float F) a ≡ true
      → F.leb a b ≡ true
      → F.ltb (zero_float F) b ≡ true
      → F.is_finite b ≡ true
      → (F.leb (zero_float F) (F.div a b) ≡ true) × (F.leb (F.div a b) (lit F 1) ≡ true)
  -- a part of an exact integer lies between 0 and the integer
  pub mul_part :
      (q : F.Carrier) (n : ℕ)
      → n ≤ 65535
      → F.leb (zero_float F) q ≡ true
      → F.leb q (lit F 1) ≡ true
      → (F.leb (zero_float F) (F.mul q (lit F n)) ≡ true)
        × (F.leb (F.mul q (lit F n)) (lit F n) ≡ true)
  -- `int` rounds towards zero, so it stays on its side of an exact integer
  pub trunc_le :
      (x : F.Carrier) (n k : ℕ)
      → n ≤ 65535
      → F.leb x (lit F n) ≡ true
      → F.trunc x ≡ some (pos k)
      → k ≤ n
