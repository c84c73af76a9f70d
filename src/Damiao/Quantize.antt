-- ===== src/Damiao/Quantize.antt =====
-- The quantisation of an MIT field: in range, and what the eight bytes of a command then say.
use open_sprite_runtime.Prelude.{
  ℕ, ◌-◌, ◌^◌, ◌≤◌, ◌≡◌, sym, subst, ap, true, ◌&&◌, Option, none, some, &&-true, arith,
}
use open_sprite_runtime.Prelude.Int.{ℤ, pos, negsuc}
use open_sprite_runtime.Prelude.Result.{ok, require-eq-ok, ok_injective, >>=-eq-ok}
use open_sprite_runtime.Float.{FloatOps, FloatLaws}
use open_sprite_runtime.Damiao.Encoded.{EncodedDamiaoMitCommand}
use open_sprite_runtime.Damiao.Payload.{Says, mit_payload-Says}
use open_sprite_runtime.Damiao.Command.{
  Range, DamiaoFeedbackEndpoint, DamiaoMitCommand, DamiaoMitState, DamiaoMitCommandEnvelope, raw_of,
  float_to_uint_strict, check_envelope, check_command, gain_range, encode_damiao_mit_command,
}

module _ (F : FloatOps) (L : FloatLaws F) where
  -- A range as `_validate_range` leaves it, its bounds finite and in order, whose width is finite too.
  pub record IsRange (r : Range F) : Type 0 where
    pub finite_low : F.is_finite r.low ≡ true
    pub finite_high : F.is_finite r.high ≡ true
    pub ordered : F.ltb r.low r.high ≡ true
    pub finite_width : F.is_finite (F.sub r.high r.low) ≡ true

  raw_of-eq-ok : (z : Option ℤ) {n : ℕ} → raw_of F z ≡ ok n → z ≡ some (pos n)
  raw_of-eq-ok none h = cc
  raw_of-eq-ok (some (pos n)) h = cc
  raw_of-eq-ok (some (negsuc n)) h = cc

  -- A value that is quantised to at most sixteen bits fits them.
  pub float_to_uint_strict-lt :
      (value : F.Carrier) (limits : Range F) (bits n : ℕ)
      → IsRange limits
      → 2 ^ bits - 1 ≤ 65535
      → float_to_uint_strict F value limits bits ≡ ok n
      → n ≤ 2 ^ bits - 1
  unfolding float_to_uint_strict
  float_to_uint_strict-lt value limits bits n r small h =
      let (finite, h1) = require-eq-ok (F.is_finite value) _ _ h in
      let (inside, h2) = require-eq-ok (F.leb limits.low value && F.leb value limits.high) _ _ h1 in
      let (above, below) = &&-true (F.leb limits.low value) (F.leb value limits.high) inside in
      let (q0, q1) =
        L.div_part (F.sub value limits.low) (F.sub limits.high limits.low)
          (L.sub_nonneg limits.low value r.finite_low finite above)
          (L.sub_mono value limits.high limits.low finite r.finite_high r.finite_low below)
          (L.sub_pos limits.low limits.high r.finite_low r.finite_high r.ordered) r.finite_width in
      let (m0, m1) =
        L.mul_part (F.div (F.sub value limits.low) (F.sub limits.high limits.low)) (2 ^ bits - 1)
          small q0 q1 in
      L.trunc_le _ (2 ^ bits - 1) n small m1 (raw_of-eq-ok _ h2)

  -- The raw fields of a command, each in its range.
  pub record Quantized (e : DamiaoFeedbackEndpoint F) (c : DamiaoMitCommand F)
      (p : EncodedDamiaoMitCommand) : Type 0 where
    pub position : ℕ
    pub velocity : ℕ
    pub kp : ℕ
    pub kd : ℕ
    pub torque : ℕ
    pub position_is : float_to_uint_strict F c.position_rad e.ranges.position_rad 16 ≡ ok position
    pub velocity_is :
        float_to_uint_strict F c.velocity_rad_s e.ranges.velocity_rad_s 12 ≡ ok velocity
    pub kp_is : float_to_uint_strict F c.kp (gain_range F 500) 12 ≡ ok kp
    pub kd_is : float_to_uint_strict F c.kd (gain_range F 5) 12 ≡ ok kd
    pub torque_is : float_to_uint_strict F c.feedforward_torque_nm e.ranges.torque_nm 12 ≡ ok torque
    pub says : Says p.payload position velocity kp kd torque
    pub same_motor : p.motor_name ≡ e.motor_name
    pub same_interface : p.interface ≡ e.interface
    pub same_id : p.can_id ≡ e.can_id

  -- A command that is encoded is addressed to its endpoint, and its eight bytes say the quantised
  -- position in sixteen bits and the quantised velocity, gains and torque in twelve, for ordered
  -- ranges with finite bounds and width.
  pub encode_damiao_mit_command-Quantized :
      (e : DamiaoFeedbackEndpoint F) (c : DamiaoMitCommand F) (s : DamiaoMitState F)
      (v : DamiaoMitCommandEnvelope F) {p : EncodedDamiaoMitCommand}
      → IsRange e.ranges.position_rad
      → IsRange e.ranges.velocity_rad_s
      → IsRange e.ranges.torque_nm
      → IsRange (gain_range F 500)
      → IsRange (gain_range F 5)
      → encode_damiao_mit_command F e c s v ≡ ok p
      → Quantized e c p
  unfolding encode_damiao_mit_command
  encode_damiao_mit_command-Quantized e c s v rp rv rt rkp rkd h =
      let (_, _, h1) = >>=-eq-ok (check_envelope F e.ranges v) _ h in
      let (_, _, h2) = >>=-eq-ok (check_command F c s v) _ h1 in
      let (n, en, h3) =
        >>=-eq-ok (float_to_uint_strict F c.position_rad e.ranges.position_rad 16) _ h2 in
      let (w, ew, h4) =
        >>=-eq-ok (float_to_uint_strict F c.velocity_rad_s e.ranges.velocity_rad_s 12) _ h3 in
      let (kp, ekp, h5) = >>=-eq-ok (float_to_uint_strict F c.kp (gain_range F 500) 12) _ h4 in
      let (kd, ekd, h6) = >>=-eq-ok (float_to_uint_strict F c.kd (gain_range F 5) 12) _ h5 in
      let (t, et, h7) =
        >>=-eq-ok (float_to_uint_strict F c.feedforward_torque_nm e.ranges.torque_nm 12) _ h6 in
      let same = sym (ok_injective h7) in
      let bn =
        float_to_uint_strict-lt c.position_rad e.ranges.position_rad 16 n rp (omega arith) en in
      let bw =
        float_to_uint_strict-lt c.velocity_rad_s e.ranges.velocity_rad_s 12 w rv (omega arith) ew in
      let bkp = float_to_uint_strict-lt c.kp (gain_range F 500) 12 kp rkp (omega arith) ekp in
      let bkd = float_to_uint_strict-lt c.kd (gain_range F 5) 12 kd rkd (omega arith) ekd in
      let bt =
        float_to_uint_strict-lt c.feedforward_torque_nm e.ranges.torque_nm 12 t rt (omega arith)
          et in
      record {
        position = n;
        velocity = w;
        kp = kp;
        kd = kd;
        torque = t;
        position_is = en;
        velocity_is = ew;
        kp_is = ekp;
        kd_is = ekd;
        torque_is = et;
        says =
            subst (λ r. Says r.payload n w kp kd t) (sym same)
              (mit_payload-Says n w kp kd t (omega arith) (omega arith) (omega arith) (omega arith)
                (omega arith));
        same_motor = ap (λ r. r.motor_name) same;
        same_interface = ap (λ r. r.interface) same;
        same_id = ap (λ r. r.can_id) same;
      }
