-- ===== src/Tests/HoldRuns.antt =====
-- Runs of the powered holds and motions.
use open_sprite_runtime.Prelude.{
  ℕ, ◌+◌, ◌-◌, ◌*◌, ◌≤◌, ◌<◌, ◌≡◌, refl, true, false, String, [], ◌∷◌, length, any, arith,
}
use open_sprite_runtime.Prelude.Int.{pos, negsuc, ltb_ℤ}
use open_sprite_runtime.Bytes.{Bytes, le_bytes, pack_unsigned}
use open_sprite_runtime.Bytes.Struct.{join}
use open_sprite_runtime.Damiao.Decode.{status_name}
use open_sprite_runtime.SocketCan.{canfd_pack}
use open_sprite_runtime.SocketCan.Receipt.{Receipt, blocked, received}
use open_sprite_runtime.SocketCan.Writer.{SendOutcome, sent}
use open_sprite_runtime.SocketCan.MitWriter.{send_payload, SingleMotorMitWriter, new_single_writer}
use open_sprite_runtime.Damiao.Command.{
  check_envelope, check_command, mit_payload, Range, DamiaoFeedbackEndpoint,
}
use open_sprite_runtime.SingleJointHold.Session.{Exchange, Session, Hold}
use open_sprite_runtime.SingleJointHold.Supervise.{envelope, is_disabled, supervise}
use open_sprite_runtime.SingleJointHold.Runs.{
  HoldArguments, hold_defaults, hold_plan, hold_report, check_hold, SingleJointHoldReport,
  hold_passed, run_head_yaw_low_gain_hold,
}
use open_sprite_runtime.SingleJointHold.Trajectory.{
  visible_profile, same_profile, frozen_profiles, check_motion, check_margins, target_at,
}
use open_sprite_runtime.SingleJointHold.Motion.{
  SingleJointMotionReport, motion_passed, motion_plan, motion_report, run_head_yaw_low_gain_motion,
}
use open_sprite_runtime.SingleJointHold.Moved.{run_head_yaw_low_gain_motion-passed}
use open_sprite_runtime.SingleJointHold.Trail.{stopping, Trail}
use open_sprite_runtime.SingleJointHold.Shutdown.{supervise-Trail}
use open_sprite_runtime.SingleJointHold.Guards.{Within, AreLimits}
use open_sprite_runtime.SingleJointHold.Passed.{supervise-Within, run_head_yaw_low_gain_hold-passed}
use open_sprite_runtime.Tests.Fixed.{thousandths}

abbrev pub range : ℕ → Range thousandths
range high = record { low = negsuc (high * 1000 - 1); high = pos (high * 1000) }

abbrev pub head_yaw : DamiaoFeedbackEndpoint thousandths
head_yaw = record {
  motor_name = "head_yaw_motor";
  interface = "kcan3";
  can_id = 8;
  master_id = 24;
  ranges = record {
    position_rad = range 12;
    velocity_rad_s = range 30;
    torque_nm = range 10;
    source = "motor_register_readback";
  };
}

-- Feedback of a status with the middle of each range, at 30 and 31 degrees.
abbrev pub answer : ℕ → Receipt
answer status = received (record {
  interface = "kcan3";
  can_id = 24;
  payload = (status * 16 + 8) ∷ 128 ∷ 0 ∷ 128 ∷ 8 ∷ 0 ∷ 30 ∷ 31 ∷ [];
  is_extended = false;
  is_remote = false;
  is_error = false;
  is_fd = true;
  bit_rate_switch = true;
  error_state_indicator = false;
  software_timestamp_ns = pos 1;
  hardware_timestamp_ns = pos 1;
  userspace_receive_timestamp_ns = pos 1;
})

abbrev pub takes_all : Bytes → SendOutcome
takes_all frame = sent (length frame)

abbrev pub exchange : ℕ → Exchange
exchange status = record { os = takes_all; receipts = blocked ∷ answer status ∷ [] }

abbrev pub session : Session thousandths
session = record {
  probe = exchange 0;
  prepare = exchange 0;
  enable_os = takes_all;
  start_s = pos 0;
  ticks =
      record { now_s = pos 0; exchange = exchange 1 }
      ∷ record { now_s = pos 10; exchange = exchange 1 }
      ∷ record { now_s = pos 20; exchange = exchange 1 }
      ∷ [];
  shutdown = λ n. record { disable_os = takes_all; poll = exchange 0 };
  further = 2;
}

abbrev pub writer : SingleMotorMitWriter
writer = record {
  interface = "kcan3";
  motor_name = "head_yaw_motor";
  can_id = 8;
  wire = [];
  command_tx_attempts = 0;
  enable_attempts = 0;
  disable_attempts = 0;
}

abbrev pub soft : Range thousandths
soft = range 1

abbrev pub arguments : HoldArguments thousandths
arguments = hold_defaults thousandths

abbrev pub identity : String × String × ℕ
identity = ("head_yaw_motor", "kcan3", 8)

abbrev pub run : Hold thousandths
run = supervise thousandths (hold_plan thousandths head_yaw soft arguments) session writer

limits : AreLimits thousandths (hold_plan thousandths head_yaw soft arguments)
limits = record {
  close = refl;
  slow = refl;
  weak = refl;
  cool_mos = omega arith;
  cool_rotor = omega arith;
}

supervise-Trail_example :
    (n : ℕ) × (3 ≤ n)
    × Trail thousandths head_yaw
        (envelope thousandths (hold_plan thousandths head_yaw soft arguments))
        8
        (stopping n)
        run.writer.wire
unfolding new_single_writer
supervise-Trail_example =
    supervise-Trail thousandths (hold_plan thousandths head_yaw soft arguments) session "kcan3"
      "head_yaw_motor" 8 {writer = writer} refl

supervise-Within_example :
    Within thousandths (hold_plan thousandths head_yaw soft arguments) run
    × (is_disabled thousandths (hold_plan thousandths head_yaw soft arguments) run.final_status
        ≡ true)
unfolding supervise send_payload canfd_pack pack_unsigned check_envelope check_command mit_payload
    join le_bytes status_name
supervise-Within_example =
    supervise-Within thousandths (hold_plan thousandths head_yaw soft arguments) session writer
      limits refl

-- The report of the run.
abbrev hold_run_report : SingleJointHoldReport thousandths
hold_run_report = hold_report thousandths head_yaw arguments run

run_head_yaw_low_gain_hold-passed_example :
    (ltb_ℤ (pos 50) hold_run_report.maximum_abs_position_error_rad ≡ false)
    × (ltb_ℤ (pos 200) hold_run_report.maximum_abs_velocity_rad_s ≡ false)
    × (ltb_ℤ (pos 100) hold_run_report.maximum_abs_estimated_torque_nm ≡ false)
    × (hold_run_report.maximum_mos_temperature_c < 100)
    × (hold_run_report.maximum_rotor_temperature_c < 80)
    × (ltb_ℤ (pos 100) (pos 100) ≡ false)
    × (ltb_ℤ (pos 200) (pos 200) ≡ false)
unfolding run_head_yaw_low_gain_hold check_hold hold_passed supervise send_payload canfd_pack
    pack_unsigned check_envelope check_command mit_payload join le_bytes status_name
run_head_yaw_low_gain_hold-passed_example =
    run_head_yaw_low_gain_hold-passed thousandths head_yaw soft arguments identity session writer
      {r = hold_run_report} limits refl refl

-- The visible motion.
abbrev motion_run : Hold thousandths
motion_run =
    supervise thousandths
      (motion_plan thousandths head_yaw soft (visible_profile thousandths) (pos 1)) session writer

abbrev motion_run_report : SingleJointMotionReport thousandths
motion_run_report = motion_report thousandths head_yaw (visible_profile thousandths) motion_run

motion_limits :
    AreLimits thousandths
      (motion_plan thousandths head_yaw soft (visible_profile thousandths) (pos 1))
motion_limits = record {
  close = refl;
  slow = refl;
  weak = refl;
  cool_mos = omega arith;
  cool_rotor = omega arith;
}

run_head_yaw_low_gain_motion-passed_example :
    (any (same_profile thousandths (visible_profile thousandths)) (frozen_profiles thousandths)
      ≡ true)
    × (ltb_ℤ
          (visible_profile thousandths).maximum_position_error_rad
          motion_run_report.maximum_abs_position_error_rad
        ≡ false)
    × (ltb_ℤ
          (visible_profile thousandths).maximum_velocity_rad_s
          motion_run_report.maximum_abs_velocity_rad_s
        ≡ false)
    × (ltb_ℤ
          (visible_profile thousandths).maximum_torque_nm
          motion_run_report.maximum_abs_estimated_torque_nm
        ≡ false)
    × (motion_run_report.maximum_mos_temperature_c
        < (visible_profile thousandths).mos_temperature_limit_c)
    × (motion_run_report.maximum_rotor_temperature_c
        < (visible_profile thousandths).rotor_temperature_limit_c)
unfolding run_head_yaw_low_gain_motion check_motion check_margins target_at motion_passed supervise
    send_payload canfd_pack pack_unsigned check_envelope check_command mit_payload join le_bytes
    status_name
run_head_yaw_low_gain_motion-passed_example =
    run_head_yaw_low_gain_motion-passed thousandths head_yaw soft (visible_profile thousandths)
      identity (pos 1) session writer {r = motion_run_report} motion_limits refl refl
