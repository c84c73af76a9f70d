-- ===== src/Damiao/Decode.antt =====
-- src/open_sprite_runtime/damiao.py: the decoding of a feedback frame.
use text.Mathlib.Text.{◌==◌ as str_eq}
use open_sprite_runtime.Prelude.{
  ℕ, ◌+◌, ◌-◌, ◌*◌, ◌/◌, ◌%◌, ◌^◌, ◌||◌, String, ◌==◌, if◌then◌else◌, length, get_or,
}
use open_sprite_runtime.Prelude.Int.{ℤ}
use open_sprite_runtime.Prelude.Result.{Result, ok, value_error, require, raise_if, ◌>>◌}
use open_sprite_runtime.Float.{FloatOps, lit}
use open_sprite_runtime.SocketCan.{ReceivedCanFrame}
use open_sprite_runtime.Damiao.Command.{Range, DamiaoFeedbackEndpoint}

-- `STATUS_NAMES.get(status, "reserved_or_unknown")`
unfoldable pub status_name : ℕ → String
status_name code =
    if code == 0x0
    then "disabled"
    else if code == 0x1
    then "enabled"
    else if code == 0x8
    then "over_voltage"
    else if code == 0x9
    then "under_voltage"
    else if code == 0xa
    then "over_current"
    else if code == 0xb
    then "mos_over_temperature"
    else if code == 0xc
    then "motor_coil_over_temperature"
    else if code == 0xd
    then "communication_lost"
    else if code == 0xe
    then "overload"
    else "reserved_or_unknown"

module _ (F : FloatOps) where
  -- `_uint_to_float`
  abbrev pub uint_to_float : ℕ → Range F → ℕ → F.Carrier
  uint_to_float value limits bits =
      F.add (F.div (F.mul (lit F value) (F.sub limits.high limits.low)) (lit F (2 ^ bits - 1)))
        limits.low

  pub record DamiaoFeedback : Type 0 where
    pub motor_name : String
    pub interface : String
    pub can_id : ℕ
    pub master_id : ℕ
    pub status_code : ℕ
    pub status_name : String
    pub position_rad : F.Carrier
    pub velocity_rad_s : F.Carrier
    pub estimated_output_torque_nm : F.Carrier
    pub mos_temperature_c : ℕ
    pub rotor_temperature_c : ℕ
    pub software_timestamp_ns : ℤ
    pub hardware_timestamp_ns : ℤ
    pub userspace_receive_timestamp_ns : ℤ

  -- `data[i]`
  abbrev pub byte : ReceivedCanFrame → ℕ → ℕ
  byte frame i = get_or frame.payload i 0

  unfoldable pub decode_damiao_feedback :
      ReceivedCanFrame → DamiaoFeedbackEndpoint F → Result DamiaoFeedback
  decode_damiao_feedback frame endpoint = do
    require (str_eq frame.interface endpoint.interface)
        (value_error "frame interface does not match the configured motor endpoint")
    require (frame.can_id == endpoint.master_id)
        (value_error "frame CAN ID does not match the configured Damiao Master ID")
    raise_if (frame.is_extended || frame.is_remote || frame.is_error)
        (value_error "Damiao feedback must be a standard CAN data frame")
    require (length frame.payload == 8)
        (value_error "Damiao feedback must contain exactly eight data bytes")
    require (byte frame 0 % 16 == endpoint.can_id)
        (value_error "feedback payload controller ID does not match configured CAN ID")
    let status = byte frame 0 / 16 % 16
    let position_raw = byte frame 1 * 256 + byte frame 2
    let velocity_raw = byte frame 3 * 16 + byte frame 4 / 16
    let torque_raw = byte frame 4 % 16 * 256 + byte frame 5
    ok (record {
      motor_name = endpoint.motor_name;
      interface = frame.interface;
      can_id = endpoint.can_id;
      master_id = frame.can_id;
      status_code = status;
      status_name = status_name status;
      position_rad = uint_to_float position_raw endpoint.ranges.position_rad 16;
      velocity_rad_s = uint_to_float velocity_raw endpoint.ranges.velocity_rad_s 12;
      estimated_output_torque_nm = uint_to_float torque_raw endpoint.ranges.torque_nm 12;
      mos_temperature_c = byte frame 6;
      rotor_temperature_c = byte frame 7;
      software_timestamp_ns = frame.software_timestamp_ns;
      hardware_timestamp_ns = frame.hardware_timestamp_ns;
      userspace_receive_timestamp_ns = frame.userspace_receive_timestamp_ns;
    })
