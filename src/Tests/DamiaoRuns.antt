-- ===== src/Tests/DamiaoRuns.antt =====
-- Runs of the Damiao codecs, of the telemetry checks and of the register collection.
use open_sprite_runtime.Prelude.{
  ℕ, ◌+◌, ◌*◌, ◌≤◌, ◌≡◌, refl, true, false, String, List, [], ◌∷◌, length, ltb, leb, All, arith,
}
use open_sprite_runtime.Prelude.Int.{pos}
use open_sprite_runtime.Prelude.Result.{ok}
use open_sprite_runtime.Bytes.{Bytes, le_value, le_bytes, pack_unsigned}
use open_sprite_runtime.Bytes.Struct.{join}
use open_sprite_runtime.SocketCan.{ReceivedCanFrame, canfd_pack}
use open_sprite_runtime.SocketCan.Writer.{
  sent, mem, mit_range_registers, send_read_request, count_send,
}
use open_sprite_runtime.SocketCan.Receipt.{received}
use open_sprite_runtime.SocketCan.MitWriter.{get}
use open_sprite_runtime.Telemetry.{
  Point, MotorTelemetryLimits, MotorTelemetry, validate_telemetry_limits, torque_limit_at_speed,
  evaluate_motor_telemetry, decide_all, evaluate_motor_bank, extra_in, is_empty,
}
use open_sprite_runtime.Telemetry.Sound.{IsCovered, evaluate_motor_bank-IsCovered}
use open_sprite_runtime.Damiao.Encoded.{EncodedDamiaoMitCommand}
use open_sprite_runtime.Damiao.Command.{
  Range, DamiaoFeedbackEndpoint, DamiaoMitCommand, DamiaoMitState, DamiaoMitCommandEnvelope,
  mit_payload, encode_damiao_mit_command, check_envelope, check_command, float_to_uint_strict,
  validate_envelope, validate_range, estimated_output_torque,
}
use open_sprite_runtime.Damiao.Payload.{Says, mit_payload-Says}
use open_sprite_runtime.Damiao.Profile.{
  DamiaoMitCommandProfile, envelope_for_state, encode_with_profile, maximum_velocity, min_float,
}
use open_sprite_runtime.Damiao.Bounded.{encode_with_profile-bounded}
use open_sprite_runtime.Damiao.Decode.{decode_damiao_feedback}
use open_sprite_runtime.Damiao.Decoder.{keyed, lookup, insert_all, new_decoder, decode}
use open_sprite_runtime.Damiao.Feedback.{decode-configured}
use open_sprite_runtime.DamiaoRegisters.{
  DamiaoRegisterValue, float_value, decode_read_response, check_response, positive_float,
  register_name,
}
use open_sprite_runtime.DamiaoRegisters.Response.{Answers, IsPositive, decode_read_response-Answers}
use open_sprite_runtime.DamiaoRegisters.Collect.{
  Attempt, Readers, Progress, started, await, attempt, put, tx_count, read_register, read_registers,
  read_motors, check_arguments, collect,
}
use open_sprite_runtime.DamiaoRegisters.Account.{collect-accounts}
use open_sprite_runtime.Tests.Floats.{naturals}

mit_payload-Says_example : Says (mit_payload 0x8000 0x7ff 1 2 0x800) 0x8000 0x7ff 1 2 0x800
mit_payload-Says_example =
    mit_payload-Says 0x8000 0x7ff 1 2 0x800 (omega arith) (omega arith) (omega arith) (omega arith)
      (omega arith)

abbrev range : ℕ → ℕ → Range naturals
range low high = record { low = low; high = high }

abbrev endpoint : String → ℕ → DamiaoFeedbackEndpoint naturals
endpoint name id = record {
  motor_name = name;
  interface = "can0";
  can_id = id;
  master_id = id + 16;
  ranges = record {
    position_rad = range 0 12;
    velocity_rad_s = range 1 30;
    torque_nm = range 1 10;
    source = "motor_register_readback";
  };
}

abbrev hip : DamiaoFeedbackEndpoint naturals
hip = endpoint "hip" 1

abbrev mit_command : DamiaoMitCommand naturals
mit_command = record {
  position_rad = 12;
  velocity_rad_s = 1;
  kp = 1;
  kd = 1;
  feedforward_torque_nm = 1;
}

abbrev measured : DamiaoMitState naturals
measured = record { position_rad = 12; velocity_rad_s = 1 }

abbrev envelope : DamiaoMitCommandEnvelope naturals
envelope = record {
  position_rad = range 0 12;
  maximum_velocity_rad_s = 1;
  maximum_feedforward_torque_nm = 1;
  maximum_output_torque_nm = 1;
}

abbrev encoded : EncodedDamiaoMitCommand
encoded = record {
  motor_name = "hip";
  interface = "can0";
  can_id = 1;
  payload = mit_payload 65535 0 0 0 0;
}

abbrev interp : ℕ → List (Point naturals) → ℕ
interp speed points = 5

abbrev telemetry_limits : MotorTelemetryLimits naturals
telemetry_limits = record {
  hard_low_rad = 0;
  hard_high_rad = 12;
  maximum_speed_rad_s = 30;
  peak_torque_nm = 20;
  peak_current_a = 5;
  maximum_temperature_c = 80;
  torque_speed_envelope = (0, 20) ∷ (10, 10) ∷ [];
}

abbrev profile : DamiaoMitCommandProfile naturals interp
profile = record {
  endpoint = hip;
  soft_position_rad = range 0 12;
  telemetry_limits = telemetry_limits;
  maximum_embedded_kd = 2;
}

encode_with_profile-bounded_example :
    (ltb 2 1 ≡ false)
    × ((leb 0 12 ≡ true) × (leb 12 12 ≡ true))
    × (ltb (maximum_velocity naturals interp profile) 1 ≡ false)
    × (limit : ℕ) × (torque_limit_at_speed naturals interp telemetry_limits 1 ≡ ok limit)
    × (ltb (min_float naturals interp limit 1) 1 ≡ false)
    × (ltb
          (min_float naturals interp limit 1)
          (estimated_output_torque naturals mit_command measured)
        ≡ false)
unfolding encode_with_profile envelope_for_state encode_damiao_mit_command check_envelope
    check_command float_to_uint_strict mit_payload torque_limit_at_speed validate_telemetry_limits
    validate_envelope validate_range
encode_with_profile-bounded_example =
    encode_with_profile-bounded naturals interp profile mit_command measured refl

abbrev sample : MotorTelemetry naturals
sample = record {
  position_rad = 5;
  velocity_rad_s = 1;
  torque_nm = 1;
  current_a = 1;
  temperature_c = 40;
}

evaluate_motor_bank-IsCovered_example :
    All
      (IsCovered naturals interp (("hip", sample) ∷ []) (("hip", telemetry_limits) ∷ []))
      ("hip" ∷ [])
    × (is_empty (extra_in naturals interp (("hip", sample) ∷ []) ("hip" ∷ [])) ≡ true)
unfolding evaluate_motor_bank decide_all evaluate_motor_telemetry torque_limit_at_speed
    validate_telemetry_limits get
evaluate_motor_bank-IsCovered_example =
    evaluate_motor_bank-IsCovered naturals interp (("hip", sample) ∷ [])
      (("hip", telemetry_limits) ∷ []) ("hip" ∷ []) refl refl

abbrev frame_of : Bytes → ReceivedCanFrame
frame_of payload = record {
  interface = "can0";
  can_id = 17;
  payload = payload;
  is_extended = false;
  is_remote = false;
  is_error = false;
  is_fd = true;
  bit_rate_switch = true;
  error_state_indicator = false;
  software_timestamp_ns = pos 1;
  hardware_timestamp_ns = pos 1;
  userspace_receive_timestamp_ns = pos 2;
}

abbrev feedback : ReceivedCanFrame
feedback = frame_of (0x11 ∷ 0x80 ∷ 0 ∷ 0x80 ∷ 0x08 ∷ 0 ∷ 30 ∷ 31 ∷ [])

abbrev known : List (DamiaoFeedbackEndpoint naturals)
known = hip ∷ endpoint "knee" 2 ∷ []

decode-configured_example :
    (known ≡ known)
    × (decode naturals known feedback ≡ decode_damiao_feedback naturals feedback hip)
unfolding new_decoder insert_all lookup keyed
decode-configured_example =
    decode-configured naturals [] (endpoint "knee" 2 ∷ []) hip known feedback refl refl refl

-- The response for a register of the hip, with value 5.
abbrev response : ℕ → ReceivedCanFrame
response register = frame_of (1 ∷ 0 ∷ 0x33 ∷ register ∷ 5 ∷ 0 ∷ 0 ∷ 0 ∷ [])

abbrev register_value : ℕ → DamiaoRegisterValue naturals
register_value register = record {
  master_id = 17;
  register_id = register;
  register_name = register_name register;
  value = float_value 5;
}

decode_read_response-Answers_example :
    Answers (response 22) 1 17 22
    × (mem 22 mit_range_registers ≡ true)
    × ((register_value 22).master_id ≡ 17)
    × ((register_value 22).register_id ≡ 22)
    × IsPositive naturals (response 22) (float_value 5)
unfolding decode_read_response check_response positive_float le_value
decode_read_response-Answers_example =
    decode_read_response-Answers naturals (response 22) 1 17 22 {v = register_value 22} refl

abbrev env : ℕ → Attempt
env i = record { os = λ frame. sent (length frame); receipts = received (response (21 + i)) ∷ [] }

abbrev readers : Readers
readers =
    ("can0", record { allowed = 1 ∷ []; state = record { wire = []; hardware_tx_attempts = 0 } })
    ∷ []

abbrev reads : Progress
reads =
    (read_motors naturals (decode_read_response naturals) mit_range_registers env 3 (hip ∷ [])
      (started naturals (decode_read_response naturals) mit_range_registers env readers)).1

abbrev motors : List (String × List (DamiaoRegisterValue naturals))
motors = ("hip", register_value 21 ∷ register_value 22 ∷ register_value 23 ∷ []) ∷ []

collect-accounts_example :
    (collect naturals (decode_read_response naturals) mit_range_registers env 1 3 (hip ∷ []) readers
      ≡ (ok motors, reads))
    × (tx_count reads.readers ≡ reads.attempts)
    × (reads.attempts ≤ length (hip ∷ []) * (length mit_range_registers * 3))
unfolding collect read_motors read_registers read_register attempt put await tx_count
    check_arguments get decode_read_response check_response positive_float le_value
    send_read_request count_send canfd_pack pack_unsigned join le_bytes
collect-accounts_example =
    collect-accounts naturals (decode_read_response naturals) mit_range_registers env 1 3 (hip ∷ [])
      readers {motors = motors} {s = reads} refl refl refl
