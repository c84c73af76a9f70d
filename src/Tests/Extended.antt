-- ===== src/Tests/Extended.antt =====
-- Natural numbers with an infinity and a NaN as floats: an instance of the interface and of its laws,
-- and the run of an encoded command on it. As in Python, a comparison with NaN is false, the
-- difference of two infinities is NaN, and only the numbers are finite.
use native.Mathlib.Nat.{div-le_of_le-mul}
use open_sprite_runtime.Prelude.{
  ℕ, zero, suc, ◌+◌, ◌-◌, ◌*◌, ◌/◌, ◌^◌, ◌≤◌, ◌≡◌, refl, Bool, true, false, Option, none, some, ltb,
  leb, le→leb, arith,
}
use open_sprite_runtime.Prelude.Int.{ℤ, pos}
use open_sprite_runtime.Float.{FloatOps, FloatLaws}
use open_sprite_runtime.Damiao.Encoded.{EncodedDamiaoMitCommand}
use open_sprite_runtime.Damiao.Command.{
  Range, DamiaoFeedbackEndpoint, DamiaoMitCommand, DamiaoMitState, DamiaoMitCommandEnvelope,
  mit_payload, encode_damiao_mit_command, check_envelope, check_command, float_to_uint_strict,
}
use open_sprite_runtime.Damiao.Quantize.{Quantized, encode_damiao_mit_command-Quantized}
use open_sprite_runtime.Tests.Floats.{natural_of}

data Extended : Type 0 where
  finite : ℕ → Extended
  infinite nan : Extended

-- An operation on numbers, with its results where the left, the right or both terms are infinite.
abbrev lifted : (ℕ → ℕ → Extended) → (l r b : Extended) → Extended → Extended → Extended
lifted f l r b (finite m) (finite n) = f m n
lifted f l r b infinite (finite n) = l
lifted f l r b (finite m) infinite = r
lifted f l r b infinite infinite = b
lifted f l r b nan y = nan
lifted f l r b (finite m) nan = nan
lifted f l r b infinite nan = nan

abbrev compared : (ℕ → ℕ → Bool) → (b : Bool) → Extended → Extended → Bool
compared f b (finite m) (finite n) = f m n
compared f b infinite (finite n) = false
compared f b (finite m) infinite = true
compared f b infinite infinite = b
compared f b nan y = false
compared f b (finite m) nan = false
compared f b infinite nan = false

abbrev is_number : Extended → Bool
is_number (finite n) = true
is_number infinite = false
is_number nan = false

abbrev integer : Extended → Option ℤ
integer (finite n) = some (pos n)
integer infinite = none
integer nan = none

abbrev power : Extended → ℕ → Extended
power (finite m) n = finite (m ^ n)
power infinite n = infinite
power nan n = nan

abbrev quotient_of : ℕ → ℕ → Extended
quotient_of m zero = nan
quotient_of m (suc n) = finite (m / suc n)

abbrev extended : FloatOps
extended = record {
  Carrier = Extended;
  add = lifted (λ m n. finite (m + n)) infinite infinite infinite;
  sub = lifted (λ m n. finite (m - n)) infinite nan nan;
  mul = lifted (λ m n. finite (m * n)) infinite infinite infinite;
  div = lifted quotient_of infinite (finite 0) nan;
  pow = power;
  neg = λ a. nan;
  abs = λ a. a;
  ltb = compared ltb false;
  leb = compared leb true;
  is_finite = is_number;
  of_int = λ z. finite (natural_of z);
  trunc = integer;
  ceil = integer;
  of_f32 = finite;
  pi = finite 3;
}

part_of_whole : (a b : ℕ) → a ≤ b → leb (a / b) 1 ≡ true
part_of_whole a b h = le→leb (a / b) 1 (div-le_of_le-mul b (omega arith))

scaled : (q n : ℕ) → leb q 1 ≡ true → leb (q * n) n ≡ true
scaled zero n h = ground arith
scaled (suc zero) n h = ground arith
scaled (suc (suc q)) n h = absurd (ground arith)

some_pos_injective : (a b : ℕ) → some (pos a) ≡ some (pos b) → a ≡ b
some_pos_injective a b h = cc

difference_not_negative :
    (a b : Extended)
    → is_number a ≡ true
    → is_number b ≡ true
    → extended.leb a b ≡ true
    → extended.leb (finite 0) (extended.sub b a) ≡ true
difference_not_negative (finite m) (finite n) x y h = ground arith
difference_not_negative (finite m) infinite x y h = cc
difference_not_negative (finite m) nan x y h = cc
difference_not_negative infinite b x y h = cc
difference_not_negative nan b x y h = cc

difference_positive :
    (a b : Extended)
    → is_number a ≡ true
    → is_number b ≡ true
    → extended.ltb a b ≡ true
    → extended.ltb (finite 0) (extended.sub b a) ≡ true
difference_positive (finite m) (finite n) x y h = ground arith
difference_positive (finite m) infinite x y h = cc
difference_positive (finite m) nan x y h = cc
difference_positive infinite b x y h = cc
difference_positive nan b x y h = cc

differences_ordered :
    (a b c : Extended)
    → is_number a ≡ true
    → is_number b ≡ true
    → is_number c ≡ true
    → extended.leb a b ≡ true
    → extended.leb (extended.sub a c) (extended.sub b c) ≡ true
differences_ordered (finite m) (finite n) (finite k) x y z h = ground arith
differences_ordered (finite m) (finite n) infinite x y z h = cc
differences_ordered (finite m) (finite n) nan x y z h = cc
differences_ordered (finite m) infinite c x y z h = cc
differences_ordered (finite m) nan c x y z h = cc
differences_ordered infinite b c x y z h = cc
differences_ordered nan b c x y z h = cc

quotient :
    (m n : ℕ)
    → leb m n ≡ true
    → ltb 0 n ≡ true
    → (extended.leb (finite 0) (extended.div (finite m) (finite n)) ≡ true)
      × (extended.leb (extended.div (finite m) (finite n)) (finite 1) ≡ true)
quotient m zero h p = absurd (ground arith)
quotient m (suc n) h p = (ground arith, part_of_whole m (suc n) (ground arith))

quotient_of_part :
    (a b : Extended)
    → extended.leb (finite 0) a ≡ true
    → extended.leb a b ≡ true
    → extended.ltb (finite 0) b ≡ true
    → is_number b ≡ true
    → (extended.leb (finite 0) (extended.div a b) ≡ true)
      × (extended.leb (extended.div a b) (finite 1) ≡ true)
quotient_of_part (finite m) (finite n) l h p f = quotient m n h p
quotient_of_part (finite m) infinite l h p f = cc
quotient_of_part (finite m) nan l h p f = cc
quotient_of_part infinite (finite n) l h p f = cc
quotient_of_part infinite infinite l h p f = cc
quotient_of_part infinite nan l h p f = cc
quotient_of_part nan b l h p f = cc

product_of_part :
    (q : Extended) (n : ℕ)
    → extended.leb (finite 0) q ≡ true
    → extended.leb q (finite 1) ≡ true
    → (extended.leb (finite 0) (extended.mul q (finite n)) ≡ true)
      × (extended.leb (extended.mul q (finite n)) (finite n) ≡ true)
product_of_part (finite q) n l h = (ground arith, scaled q n h)
product_of_part infinite n l h = cc
product_of_part nan n l h = cc

truncated_below :
    (x : Extended) (n k : ℕ) → extended.leb x (finite n) ≡ true → integer x ≡ some (pos k) → k ≤ n
truncated_below (finite m) n k h e = ground (arith, some_pos_injective m k e)
truncated_below infinite n k h e = cc
truncated_below nan n k h e = cc

extended-FloatLaws : FloatLaws extended
extended-FloatLaws = record {
  sub_nonneg = difference_not_negative;
  sub_pos = difference_positive;
  sub_mono = differences_ordered;
  div_part = quotient_of_part;
  mul_part = λ q n small l h. product_of_part q n l h;
  trunc_le = λ x n k small h e. truncated_below x n k h e;
}

abbrev range : ℕ → ℕ → Range extended
range low high = record { low = finite low; high = finite high }

abbrev hip : DamiaoFeedbackEndpoint extended
hip = record {
  motor_name = "hip";
  interface = "can0";
  can_id = 1;
  master_id = 17;
  ranges = record {
    position_rad = range 0 12;
    velocity_rad_s = range 1 30;
    torque_nm = range 1 10;
    source = "motor_register_readback";
  };
}

abbrev command : DamiaoMitCommand extended
command = record {
  position_rad = finite 12;
  velocity_rad_s = finite 1;
  kp = finite 1;
  kd = finite 1;
  feedforward_torque_nm = finite 1;
}

abbrev measured : DamiaoMitState extended
measured = record { position_rad = finite 12; velocity_rad_s = finite 1 }

abbrev envelope : DamiaoMitCommandEnvelope extended
envelope = record {
  position_rad = range 0 12;
  maximum_velocity_rad_s = finite 1;
  maximum_feedforward_torque_nm = finite 1;
  maximum_output_torque_nm = finite 1;
}

abbrev encoded : EncodedDamiaoMitCommand
encoded = record {
  motor_name = "hip";
  interface = "can0";
  can_id = 1;
  payload = mit_payload 65535 0 0 0 0;
}

encode_damiao_mit_command-Quantized_example :
    Quantized extended extended-FloatLaws hip command encoded
unfolding encode_damiao_mit_command check_envelope check_command float_to_uint_strict mit_payload
encode_damiao_mit_command-Quantized_example =
    encode_damiao_mit_command-Quantized extended extended-FloatLaws hip command measured envelope
      (record { finite_low = refl; finite_high = refl; ordered = refl; finite_width = refl })
      (record { finite_low = refl; finite_high = refl; ordered = refl; finite_width = refl })
      (record { finite_low = refl; finite_high = refl; ordered = refl; finite_width = refl })
      (record { finite_low = refl; finite_high = refl; ordered = refl; finite_width = refl })
      (record { finite_low = refl; finite_high = refl; ordered = refl; finite_width = refl }) refl
