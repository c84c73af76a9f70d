-- ===== src/Damiao/Profile.antt =====
-- src/open_sprite_runtime/damiao.py: `DamiaoMitCommandProfile`. `math.isfinite` and the arithmetic are
-- those of the floats; a NaN velocity or torque limit raises in the envelope's constructor.
use open_sprite_runtime.Prelude.{not, ◌||◌, List, if◌then◌else◌}
use open_sprite_runtime.Prelude.Result.{Result, ok, value_error, raise_if, ◌>>=◌, ◌>>◌}
use open_sprite_runtime.Float.{FloatOps, lit, zero_float}
use open_sprite_runtime.Telemetry.{
  MotorTelemetryLimits, Point, validate_telemetry_limits, torque_limit_at_speed,
}
use open_sprite_runtime.Damiao.Encoded.{EncodedDamiaoMitCommand}
use open_sprite_runtime.Damiao.Command.{
  Range, DamiaoFeedbackEndpoint, DamiaoMitCommand, DamiaoMitState, DamiaoMitCommandEnvelope,
  min_abs, validate_range, validate_envelope, encode_damiao_mit_command,
}

module _ (F : FloatOps) (interp : F.Carrier → List (Point F) → F.Carrier) where
  pub record DamiaoMitCommandProfile : Type 0 where
    pub endpoint : DamiaoFeedbackEndpoint F
    pub soft_position_rad : Range F
    pub telemetry_limits : MotorTelemetryLimits F
    pub maximum_embedded_kd : F.Carrier

  -- `DamiaoMitCommandProfile.__post_init__`
  unfoldable pub validate_profile : DamiaoMitCommandProfile → Result (Unit {0})
  unfolding validate_range validate_telemetry_limits
  validate_profile p = do
    validate_range F p.soft_position_rad
    validate_telemetry_limits F p.telemetry_limits
    raise_if
        (not (F.is_finite p.maximum_embedded_kd)
          || F.leb p.maximum_embedded_kd (zero_float F)
          || F.ltb (lit F 5) p.maximum_embedded_kd)
        (value_error "maximum_embedded_kd must be finite and in (0, 5]")
    raise_if
        (F.ltb p.soft_position_rad.low p.endpoint.ranges.position_rad.low
          || F.ltb p.endpoint.ranges.position_rad.high p.soft_position_rad.high)
        (value_error "motor soft limits exceed the register-readback MIT position range")

  -- `min(a, b)`: the second is taken only if it is less.
  abbrev pub min_float : F.Carrier → F.Carrier → F.Carrier
  min_float a b = if F.ltb b a then b else a

  abbrev pub maximum_velocity : DamiaoMitCommandProfile → F.Carrier
  maximum_velocity p =
      min_float p.telemetry_limits.maximum_speed_rad_s (min_abs F p.endpoint.ranges.velocity_rad_s)

  abbrev pub envelope_of : DamiaoMitCommandProfile → F.Carrier → DamiaoMitCommandEnvelope F
  envelope_of p torque = record {
    position_rad = p.soft_position_rad;
    maximum_velocity_rad_s = maximum_velocity p;
    maximum_feedforward_torque_nm = torque;
    maximum_output_torque_nm = torque;
  }

  unfoldable pub envelope_for_state :
      DamiaoMitCommandProfile → DamiaoMitState F → Result (DamiaoMitCommandEnvelope F)
  unfolding torque_limit_at_speed validate_envelope
  envelope_for_state p measured = do
    limit ← torque_limit_at_speed F interp p.telemetry_limits measured.velocity_rad_s
    let torque = min_float limit (min_abs F p.endpoint.ranges.torque_nm)
    raise_if (F.leb (maximum_velocity p) (zero_float F) || F.leb torque (zero_float F))
        (value_error "motor state leaves no positive MIT command envelope")
    validate_envelope F (envelope_of p torque)
    ok (envelope_of p torque)

  -- `DamiaoMitCommandProfile.encode`
  unfoldable pub encode_with_profile :
      DamiaoMitCommandProfile
      → DamiaoMitCommand F
      → DamiaoMitState F
      → Result EncodedDamiaoMitCommand
  unfolding envelope_for_state encode_damiao_mit_command
  encode_with_profile p command measured = do
    raise_if (F.ltb p.maximum_embedded_kd command.kd)
        (value_error "kd exceeds the qualified Damiao embedded Kd limit")
    envelope ← envelope_for_state p measured
    encode_damiao_mit_command F p.endpoint command measured envelope
