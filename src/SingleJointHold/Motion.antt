-- ===== src/SingleJointHold/Motion.antt =====
-- src/open_sprite_runtime/single_joint_hold.py: the powered motion of one motor and its report.
use open_sprite_runtime.Prelude.{ℕ, Bool, ◌&&◌, String, Option, none, some, List, ltb, leb, ◌==◌}
use open_sprite_runtime.Prelude.Int.{ℤ, pos, negsuc}
use open_sprite_runtime.Prelude.Result.{Exception}
use open_sprite_runtime.Float.{FloatOps, lit}
use open_sprite_runtime.SocketCan.MitWriter.{SingleMotorMitWriter}
use open_sprite_runtime.Damiao.Command.{Range, DamiaoFeedbackEndpoint}
use open_sprite_runtime.SingleJointHold.Session.{Session, Plan, Hold}
use open_sprite_runtime.SingleJointHold.Supervise.{supervise}
use open_sprite_runtime.SingleJointHold.Runs.{no_errors, status_is, Finished, after_checks}
use open_sprite_runtime.SingleJointHold.Trajectory.{
  Profile, wrist_profile, hip_yaw_profile, hip_yaw_medium_profile, check_motion, duration_of,
  target_at, requested_minimum, requested_maximum, check_margins,
}

module _ (F : FloatOps) where
  -- `SingleJointMotionReport`
  pub record SingleJointMotionReport : Type 0 where
    pub motor_name : String
    pub initial_position_rad : Option F.Carrier
    pub requested_minimum_position_rad : Option F.Carrier
    pub requested_maximum_position_rad : Option F.Carrier
    pub measured_minimum_position_rad : Option F.Carrier
    pub measured_maximum_position_rad : Option F.Carrier
    pub final_measured_position_rad : Option F.Carrier
    pub duration_s : F.Carrier
    pub rate_hz : F.Carrier
    pub kp : F.Carrier
    pub kd : F.Carrier
    pub command_count : ℕ
    pub feedback_count : ℕ
    pub enable_attempts : ℕ
    pub disable_attempts : ℕ
    pub maximum_abs_position_error_rad : F.Carrier
    pub maximum_abs_velocity_rad_s : F.Carrier
    pub maximum_abs_estimated_torque_nm : F.Carrier
    pub maximum_mos_temperature_c : ℕ
    pub maximum_rotor_temperature_c : ℕ
    pub final_status : Option String
    pub errors : List Exception

  -- `SingleJointMotionReport.passed`
  unfoldable pub motion_passed : SingleJointMotionReport → Bool
  motion_passed r =
      no_errors r.errors
      && ltb 0 r.command_count
      && ltb 0 r.feedback_count
      && status_is "disabled" r.final_status
      && r.enable_attempts == 1
      && leb 3 r.disable_attempts

  abbrev pub motion_plan : DamiaoFeedbackEndpoint F → Range F → Profile F → ℤ → Plan F
  motion_plan e soft p sign = record {
    endpoint = e;
    soft = soft;
    kp = p.kp;
    kd = p.kd;
    maximum_position_error_rad = p.maximum_position_error_rad;
    maximum_velocity_rad_s = p.maximum_velocity_rad_s;
    maximum_torque_nm = p.maximum_torque_nm;
    mos_temperature_limit_c = p.mos_temperature_limit_c;
    rotor_temperature_limit_c = p.rotor_temperature_limit_c;
    period = F.div (lit F 1) p.rate_hz;
    check_start = check_margins F p soft;
    target_at = target_at F p sign;
  }

  abbrev pub at_start : (F.Carrier → F.Carrier) → Option F.Carrier → Option F.Carrier
  at_start f none = none
  at_start f (some initial) = some (f initial)

  abbrev pub motion_report : DamiaoFeedbackEndpoint F → Profile F → Hold F → SingleJointMotionReport
  motion_report e p s = record {
    motor_name = e.motor_name;
    initial_position_rad = s.initial_position;
    requested_minimum_position_rad = at_start (requested_minimum F p) s.initial_position;
    requested_maximum_position_rad = at_start (requested_maximum F p) s.initial_position;
    measured_minimum_position_rad = s.measured_minimum;
    measured_maximum_position_rad = s.measured_maximum;
    final_measured_position_rad = s.final_measured;
    duration_s = duration_of F p;
    rate_hz = p.rate_hz;
    kp = p.kp;
    kd = p.kd;
    command_count = s.command_count;
    feedback_count = s.feedback_count;
    enable_attempts = s.writer.enable_attempts;
    disable_attempts = s.writer.disable_attempts;
    maximum_abs_position_error_rad = s.max_error;
    maximum_abs_velocity_rad_s = s.max_velocity;
    maximum_abs_estimated_torque_nm = s.max_torque;
    maximum_mos_temperature_c = s.max_mos;
    maximum_rotor_temperature_c = s.max_rotor;
    final_status = s.final_status;
    errors = s.errors;
  }

  unfoldable pub run_head_yaw_low_gain_motion :
      DamiaoFeedbackEndpoint F
      → Range F
      → Profile F
      → String × String × ℕ
      → ℤ
      → Session F
      → SingleMotorMitWriter
      → Finished F SingleJointMotionReport
  unfolding check_motion supervise check_margins target_at
  run_head_yaw_low_gain_motion e soft p expected sign session writer =
      after_checks F (motion_report e p) (check_motion F e soft p expected sign) writer
        (supervise F (motion_plan e soft p sign) session writer)

  -- The arguments that a frozen motion leaves open.
  abbrev pub FrozenMotion : Type 0
  FrozenMotion =
      DamiaoFeedbackEndpoint F
      → Range F
      → Session F
      → SingleMotorMitWriter
      → Finished F SingleJointMotionReport

  unfoldable pub run_right_wrist_roll_low_gain_motion : FrozenMotion
  unfolding run_head_yaw_low_gain_motion
  run_right_wrist_roll_low_gain_motion e soft session writer =
      run_head_yaw_low_gain_motion e soft (wrist_profile F) ("right_wrist_roll_motor", "kcan4", 7)
        (negsuc 0) session writer

  unfoldable pub run_right_hip_yaw_low_gain_motion : FrozenMotion
  unfolding run_head_yaw_low_gain_motion
  run_right_hip_yaw_low_gain_motion e soft session writer =
      run_head_yaw_low_gain_motion e soft (hip_yaw_profile F) ("right_hip_yaw_motor", "kcan2", 3)
        (pos 1) session writer

  unfoldable pub run_right_hip_yaw_medium_gain_motion : FrozenMotion
  unfolding run_head_yaw_low_gain_motion
  run_right_hip_yaw_medium_gain_motion e soft session writer =
      run_head_yaw_low_gain_motion e soft (hip_yaw_medium_profile F)
        ("right_hip_yaw_motor", "kcan2", 3) (pos 1) session writer
