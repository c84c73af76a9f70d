-- ===== src/Damiao/Command.antt =====
-- src/open_sprite_runtime/damiao.py: ranges, endpoints and the encoding of an MIT command. The checks
-- of the frozen dataclasses' constructors are functions of their own.
use text.Mathlib.Text.{◌==◌ as str_eq}
use open_sprite_runtime.Prelude.{
  Bool, ℕ, ◌+◌, ◌-◌, ◌*◌, ◌/◌, ◌%◌, ◌^◌, not, ◌&&◌, ◌||◌, String, Option, none, some, [], ◌∷◌, ltb,
  leb, if◌then◌else◌,
}
use open_sprite_runtime.Prelude.Int.{ℤ, pos, negsuc}
use open_sprite_runtime.Prelude.Result.{
  Result, ok, err, value_error, overflow_error, require, raise_if, ◌>>=◌, ◌>>◌,
}
use open_sprite_runtime.Bytes.{Bytes}
use open_sprite_runtime.Float.{FloatOps, lit, zero_float}
use open_sprite_runtime.Damiao.Encoded.{EncodedDamiaoMitCommand}

-- The eight bytes of an MIT command, from its five raw fields.
unfoldable pub mit_payload : ℕ → ℕ → ℕ → ℕ → ℕ → Bytes
mit_payload position velocity kp kd torque =
    position / 256 % 256
    ∷ position % 256
    ∷ velocity / 16 % 256
    ∷ (velocity % 16 * 16 + kp / 256 % 16)
    ∷ kp % 256
    ∷ kd / 16 % 256
    ∷ (kd % 16 * 16 + torque / 256 % 16)
    ∷ torque % 256
    ∷ []

module _ (F : FloatOps) where
  pub record Range : Type 0 where
    pub low : F.Carrier
    pub high : F.Carrier

  pub record DamiaoMitRanges : Type 0 where
    pub position_rad : Range
    pub velocity_rad_s : Range
    pub torque_nm : Range
    pub source : String

  pub record DamiaoFeedbackEndpoint : Type 0 where
    pub motor_name : String
    pub interface : String
    pub can_id : ℕ
    pub master_id : ℕ
    pub ranges : DamiaoMitRanges

  -- `DamiaoFeedbackEndpoint.__post_init__`
  unfoldable pub validate_endpoint : DamiaoFeedbackEndpoint → Result (Unit {0})
  validate_endpoint e = do
    raise_if (str_eq e.motor_name "" || str_eq e.interface "")
        (value_error "motor_name and interface are required")
    require (leb e.can_id 0x7ff) (value_error "can_id must be an 11-bit CAN identifier")
    require (leb e.master_id 0x7ff) (value_error "master_id must be an 11-bit CAN identifier")
    raise_if (ltb 0xf e.can_id)
        (value_error "can_id must fit the feedback frame's four-bit controller ID field")

  pub record DamiaoMitCommand : Type 0 where
    pub position_rad : F.Carrier
    pub velocity_rad_s : F.Carrier
    pub kp : F.Carrier
    pub kd : F.Carrier
    pub feedforward_torque_nm : F.Carrier

  pub record DamiaoMitState : Type 0 where
    pub position_rad : F.Carrier
    pub velocity_rad_s : F.Carrier

  pub record DamiaoMitCommandEnvelope : Type 0 where
    pub position_rad : Range
    pub maximum_velocity_rad_s : F.Carrier
    pub maximum_feedforward_torque_nm : F.Carrier
    pub maximum_output_torque_nm : F.Carrier

  -- `int(x)` of the quotient. It raises where that is not finite: OverflowError, or ValueError for a
  -- NaN, which the model does not tell apart. A value that is not below the range's lower end gives
  -- no negative quotient, so the last clause is not reached.
  abbrev pub raw_of : Option ℤ → Result ℕ
  raw_of none = err overflow_error
  raw_of (some (pos n)) = ok n
  raw_of (some (negsuc n)) = err overflow_error

  unfoldable pub float_to_uint_strict : F.Carrier → Range → ℕ → Result ℕ
  float_to_uint_strict value limits bits = do
    require (F.is_finite value) (value_error "must be finite")
    require (F.leb limits.low value && F.leb value limits.high) (value_error "is outside")
    raw_of (
        F.trunc (
          F.mul (F.div (F.sub value limits.low) (F.sub limits.high limits.low))
            (lit F (2 ^ bits - 1))))

  -- `max(abs(value) for value in range)`; the later value is taken only if it is greater.
  abbrev pub max_abs : Range → F.Carrier
  max_abs r = if F.ltb (F.abs r.low) (F.abs r.high) then F.abs r.high else F.abs r.low

  -- `min(abs(value) for value in range)`
  abbrev pub min_abs : Range → F.Carrier
  min_abs r = if F.ltb (F.abs r.high) (F.abs r.low) then F.abs r.high else F.abs r.low

  -- The torque that the motor's MIT law is expected to ask for.
  abbrev pub estimated_output_torque : DamiaoMitCommand → DamiaoMitState → F.Carrier
  estimated_output_torque c s =
      F.add
        (F.add (F.mul c.kp (F.sub c.position_rad s.position_rad))
          (F.mul c.kd (F.sub c.velocity_rad_s s.velocity_rad_s)))
        c.feedforward_torque_nm

  -- The checks of the envelope against the motor's ranges.
  unfoldable pub check_envelope : DamiaoMitRanges → DamiaoMitCommandEnvelope → Result (Unit {0})
  check_envelope protocol envelope = do
    raise_if
        (F.ltb envelope.position_rad.low protocol.position_rad.low
          || F.ltb protocol.position_rad.high envelope.position_rad.high)
        (value_error "position envelope exceeds the motor register-readback MIT range")
    raise_if (F.ltb (max_abs protocol.velocity_rad_s) envelope.maximum_velocity_rad_s)
        (value_error "velocity envelope exceeds the motor register-readback MIT range")
    raise_if (F.ltb (max_abs protocol.torque_nm) envelope.maximum_feedforward_torque_nm)
        (value_error "torque envelope exceeds the motor register-readback MIT range")
    raise_if (F.ltb (max_abs protocol.torque_nm) envelope.maximum_output_torque_nm)
        (value_error "output torque envelope exceeds the motor register-readback MIT range")

  -- The checks of the command against the envelope.
  unfoldable pub check_command :
      DamiaoMitCommand → DamiaoMitState → DamiaoMitCommandEnvelope → Result (Unit {0})
  unfolding float_to_uint_strict
  check_command command measured envelope = do
    inside ← float_to_uint_strict command.position_rad envelope.position_rad 16
    raise_if (F.ltb envelope.maximum_velocity_rad_s (F.abs command.velocity_rad_s))
        (value_error "velocity_rad_s exceeds the project command envelope")
    raise_if (F.ltb envelope.maximum_feedforward_torque_nm (F.abs command.feedforward_torque_nm))
        (value_error "feedforward_torque_nm exceeds the project command envelope")
    require (F.is_finite (estimated_output_torque command measured))
        (value_error "estimated MIT output torque must be finite")
    raise_if
        (F.ltb envelope.maximum_output_torque_nm (F.abs (estimated_output_torque command measured)))
        (value_error "estimated MIT output torque exceeds the project command envelope")

  abbrev pub gain_range : ℕ → Range
  gain_range top = record { low = zero_float F; high = lit F top }

  unfoldable pub encode_damiao_mit_command :
      DamiaoFeedbackEndpoint
      → DamiaoMitCommand
      → DamiaoMitState
      → DamiaoMitCommandEnvelope
      → Result EncodedDamiaoMitCommand
  unfolding float_to_uint_strict
  encode_damiao_mit_command endpoint command measured envelope = do
    check_envelope endpoint.ranges envelope
    check_command command measured envelope
    position ← float_to_uint_strict command.position_rad endpoint.ranges.position_rad 16
    velocity ← float_to_uint_strict command.velocity_rad_s endpoint.ranges.velocity_rad_s 12
    kp ← float_to_uint_strict command.kp (gain_range 500) 12
    kd ← float_to_uint_strict command.kd (gain_range 5) 12
    torque ← float_to_uint_strict command.feedforward_torque_nm endpoint.ranges.torque_nm 12
    ok (record {
      motor_name = endpoint.motor_name;
      interface = endpoint.interface;
      can_id = endpoint.can_id;
      payload = mit_payload position velocity kp kd torque;
    })

  -- The command, the state and the envelope of a zero-gain position echo.
  abbrev pub echo_command : F.Carrier → DamiaoMitCommand
  echo_command position = record {
    position_rad = position;
    velocity_rad_s = zero_float F;
    kp = zero_float F;
    kd = zero_float F;
    feedforward_torque_nm = zero_float F;
  }

  abbrev pub echo_envelope : DamiaoMitRanges → DamiaoMitCommandEnvelope
  echo_envelope protocol = record {
    position_rad = protocol.position_rad;
    maximum_velocity_rad_s = min_abs protocol.velocity_rad_s;
    maximum_feedforward_torque_nm = min_abs protocol.torque_nm;
    maximum_output_torque_nm = min_abs protocol.torque_nm;
  }

  -- `_validate_range`
  unfoldable pub validate_range : Range → Result (Unit {0})
  validate_range r =
      require (F.is_finite r.low && F.is_finite r.high && not (F.leb r.high r.low))
        (value_error "must have finite lower < upper")

  -- `DamiaoMitRanges.__post_init__`
  unfoldable pub validate_ranges : DamiaoMitRanges → Result (Unit {0})
  unfolding validate_range
  validate_ranges r = do
    validate_range r.position_rad
    validate_range r.velocity_rad_s
    validate_range r.torque_nm
    require
        (str_eq r.source "motor_register_readback"
          || str_eq r.source "operator_confirmed_drive_configuration")
        (value_error "MIT ranges must use motor_register_readback or an operator-confirmed source")

  -- `DamiaoMitRanges.register_readback_verified`
  unfoldable pub register_readback_verified : DamiaoMitRanges → Bool
  register_readback_verified r = str_eq r.source "motor_register_readback"

  -- `DamiaoMitCommand.__post_init__`
  unfoldable pub validate_command : DamiaoMitCommand → Result (Unit {0})
  validate_command c =
      require
        (F.is_finite c.position_rad
          && F.is_finite c.velocity_rad_s
          && F.is_finite c.kp
          && F.is_finite c.kd
          && F.is_finite c.feedforward_torque_nm)
        (value_error "must be finite")

  -- `DamiaoMitState.__post_init__`
  unfoldable pub validate_state : DamiaoMitState → Result (Unit {0})
  validate_state s =
      require (F.is_finite s.position_rad && F.is_finite s.velocity_rad_s)
        (value_error "must be finite")

  -- `DamiaoMitCommandEnvelope.__post_init__`
  unfoldable pub validate_envelope : DamiaoMitCommandEnvelope → Result (Unit {0})
  unfolding validate_range
  validate_envelope e = do
    validate_range e.position_rad
    require
        (F.is_finite e.maximum_velocity_rad_s
          && not (F.leb e.maximum_velocity_rad_s (zero_float F)))
        (value_error "maximum_velocity_rad_s must be finite and positive")
    require
        (F.is_finite e.maximum_feedforward_torque_nm
          && not (F.leb e.maximum_feedforward_torque_nm (zero_float F)))
        (value_error "maximum_feedforward_torque_nm must be finite and positive")
    require
        (F.is_finite e.maximum_output_torque_nm
          && not (F.leb e.maximum_output_torque_nm (zero_float F)))
        (value_error "maximum_output_torque_nm must be finite and positive")

  unfoldable pub encode_zero_gain_position_echo :
      DamiaoFeedbackEndpoint → F.Carrier → Result EncodedDamiaoMitCommand
  unfolding encode_damiao_mit_command validate_envelope validate_state validate_command
  encode_zero_gain_position_echo endpoint position = do
    validate_state (record { position_rad = position; velocity_rad_s = zero_float F })
    validate_command (echo_command position)
    validate_envelope (echo_envelope endpoint.ranges)
    encode_damiao_mit_command endpoint (echo_command position)
        (record { position_rad = position; velocity_rad_s = zero_float F })
        (echo_envelope endpoint.ranges)
