-- ===== src/Damiao/Bounded.antt =====
-- The limits that the encoder and the profile of damiao.py keep a command in.
use open_sprite_runtime.Prelude.{◌≡◌, ap, ◌∙◌, true, false, ◌&&◌, ◌||◌, List, &&-true}
use open_sprite_runtime.Prelude.Result.{
  ok, raise_if-eq-ok, >>=-eq-ok, require-eq-ok, ok_injective, raise_if-false,
}
use open_sprite_runtime.Float.{FloatOps, zero_float}
use open_sprite_runtime.Telemetry.{Point, torque_limit_at_speed}
use open_sprite_runtime.Damiao.Encoded.{EncodedDamiaoMitCommand}
use open_sprite_runtime.Damiao.Command.{
  DamiaoFeedbackEndpoint, DamiaoMitCommand, DamiaoMitState, DamiaoMitCommandEnvelope, min_abs,
  float_to_uint_strict, check_envelope, check_command, validate_envelope, encode_damiao_mit_command,
  estimated_output_torque,
}
use open_sprite_runtime.Damiao.Profile.{
  DamiaoMitCommandProfile, min_float, maximum_velocity, envelope_of, envelope_for_state,
  encode_with_profile,
}

module _ (F : FloatOps) where
  -- What the encoder lets through is inside the envelope: the position lies in its range, and the
  -- velocity, the feed-forward torque and the torque that the motor is expected to put out do not
  -- exceed their limits.
  pub encode_damiao_mit_command-bounded :
      (e : DamiaoFeedbackEndpoint F) (c : DamiaoMitCommand F) (s : DamiaoMitState F)
      (v : DamiaoMitCommandEnvelope F) {p : EncodedDamiaoMitCommand}
      → encode_damiao_mit_command F e c s v ≡ ok p
      → ((F.leb v.position_rad.low c.position_rad ≡ true)
          × (F.leb c.position_rad v.position_rad.high ≡ true))
        × (F.ltb v.maximum_velocity_rad_s (F.abs c.velocity_rad_s) ≡ false)
        × (F.ltb v.maximum_feedforward_torque_nm (F.abs c.feedforward_torque_nm) ≡ false)
        × (F.ltb v.maximum_output_torque_nm (F.abs (estimated_output_torque F c s)) ≡ false)
  unfolding encode_damiao_mit_command check_command float_to_uint_strict
  encode_damiao_mit_command-bounded e c s v h =
      let (_, _, h1) = >>=-eq-ok (check_envelope F e.ranges v) _ h in
      let (_, checked, _) = >>=-eq-ok (check_command F c s v) _ h1 in
      let (_, quantised, h2) =
        >>=-eq-ok (float_to_uint_strict F c.position_rad v.position_rad 16) _ checked in
      let (_, q1) = require-eq-ok (F.is_finite c.position_rad) _ _ quantised in
      let (inside, _) =
        require-eq-ok
          (F.leb v.position_rad.low c.position_rad && F.leb c.position_rad v.position_rad.high) _ _
          q1 in
      let (slow, h3) =
        raise_if-eq-ok (F.ltb v.maximum_velocity_rad_s (F.abs c.velocity_rad_s)) _ _ h2 in
      let (weak, h4) =
        raise_if-eq-ok (F.ltb v.maximum_feedforward_torque_nm (F.abs c.feedforward_torque_nm)) _ _
          h3 in
      let (_, h5) = require-eq-ok (F.is_finite (estimated_output_torque F c s)) _ _ h4 in
      let small =
        raise_if-false (F.ltb v.maximum_output_torque_nm (F.abs (estimated_output_torque F c s))) _
          h5 in
      (
        &&-true (F.leb v.position_rad.low c.position_rad) (F.leb c.position_rad v.position_rad.high)
            inside,
        slow,
        weak,
        small,
      )

  module _ (interp : F.Carrier → List (Point F) → F.Carrier) where
    -- A command that a profile encodes keeps the motor's qualified damping limit, its soft position
    -- limits and its maximum velocity, and neither its feed-forward torque nor the torque that the
    -- motor is expected to put out exceeds a torque that is at hand at the measured speed.
    pub encode_with_profile-bounded :
        (p : DamiaoMitCommandProfile F interp) (c : DamiaoMitCommand F) (s : DamiaoMitState F)
        {e : EncodedDamiaoMitCommand}
        → encode_with_profile F interp p c s ≡ ok e
        → (F.ltb p.maximum_embedded_kd c.kd ≡ false)
          × ((F.leb p.soft_position_rad.low c.position_rad ≡ true)
              × (F.leb c.position_rad p.soft_position_rad.high ≡ true))
          × (F.ltb (maximum_velocity F interp p) (F.abs c.velocity_rad_s) ≡ false)
          × (limit : F.Carrier) × (torque_limit_at_speed F interp p.telemetry_limits
                s.velocity_rad_s
              ≡ ok limit)
          × (F.ltb
                (min_float F interp limit (min_abs F p.endpoint.ranges.torque_nm))
                (F.abs c.feedforward_torque_nm)
              ≡ false)
          × (F.ltb
                (min_float F interp limit (min_abs F p.endpoint.ranges.torque_nm))
                (F.abs (estimated_output_torque F c s))
              ≡ false)
    unfolding encode_with_profile envelope_for_state
    encode_with_profile-bounded p c s h =
        let (damped, h1) = raise_if-eq-ok (F.ltb p.maximum_embedded_kd c.kd) _ _ h in
        let (v, enveloped, h2) = >>=-eq-ok (envelope_for_state F interp p s) _ h1 in
        let (limit, limited, h3) =
          >>=-eq-ok (torque_limit_at_speed F interp p.telemetry_limits s.velocity_rad_s) _
            enveloped in
        let torque = min_float F interp limit (min_abs F p.endpoint.ranges.torque_nm) in
        let (_, h4) =
          raise_if-eq-ok
            (F.leb (maximum_velocity F interp p) (zero_float F) || F.leb torque (zero_float F)) _ _
            h3 in
        let (_, _, h5) = >>=-eq-ok (validate_envelope F (envelope_of F interp p torque)) _ h4 in
        let same = ok_injective h5 in
        let (position, velocity, feedforward, output) =
          encode_damiao_mit_command-bounded p.endpoint c s (envelope_of F interp p torque)
            (ap (λ w. encode_damiao_mit_command F p.endpoint c s w) same ∙ h2) in
        (damped, position, velocity, limit, limited, feedforward, output)
