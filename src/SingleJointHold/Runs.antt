-- ===== src/SingleJointHold/Runs.antt =====
-- src/open_sprite_runtime/single_joint_hold.py: the powered hold and the powered motion with the
-- checks of their arguments, their reports, and the runs with frozen arguments.
use text.Mathlib.Text.{◌==◌ as str_eq}
use open_sprite_runtime.Prelude.{
  ℕ, Bool, true, false, ◌&&◌, ◌||◌, String, Option, none, some, List, [], ◌∷◌, ltb, leb, ◌==◌,
}
use open_sprite_runtime.Prelude.Result.{
  Exception, Result, ok, err, value_error, runtime_error, require, raise_if, ◌>>◌,
}
use open_sprite_runtime.Float.{FloatOps, lit, zero_float, ratio, eq_float}
use open_sprite_runtime.SocketCan.MitWriter.{SingleMotorMitWriter}
use open_sprite_runtime.Damiao.Command.{Range, DamiaoFeedbackEndpoint}
use open_sprite_runtime.SingleJointHold.Session.{Session, Plan, Hold}
use open_sprite_runtime.SingleJointHold.Supervise.{supervise}

abbrev pub no_errors : List Exception → Bool
no_errors [] = true
no_errors (_ ∷ _) = false

abbrev pub status_is : String → Option String → Bool
status_is name none = false
status_is name (some status) = str_eq status name

module _ (F : FloatOps) where
  abbrev pub same_endpoint : DamiaoFeedbackEndpoint F → String × String × ℕ → Bool
  same_endpoint e (name, interface, can_id) =
      str_eq e.motor_name name && str_eq e.interface interface && e.can_id == can_id

  -- `SingleJointHoldReport`
  pub record SingleJointHoldReport : Type 0 where
    pub motor_name : String
    pub target_position_rad : Option F.Carrier
    pub duration_s : F.Carrier
    pub rate_hz : F.Carrier
    pub kp : F.Carrier
    pub kd : F.Carrier
    pub command_count : ℕ
    pub feedback_count : ℕ
    pub enable_attempts : ℕ
    pub disable_attempts : ℕ
    pub maximum_abs_position_error_rad : F.Carrier
    pub maximum_abs_velocity_rad_s : F.Carrier
    pub maximum_abs_estimated_torque_nm : F.Carrier
    pub maximum_mos_temperature_c : ℕ
    pub maximum_rotor_temperature_c : ℕ
    pub final_status : Option String
    pub errors : List Exception

  -- `SingleJointHoldReport.passed`
  unfoldable pub hold_passed : SingleJointHoldReport → Bool
  hold_passed r =
      no_errors r.errors
      && ltb 0 r.command_count
      && ltb 0 r.feedback_count
      && status_is "disabled" r.final_status
      && r.enable_attempts == 1
      && leb 3 r.disable_attempts

  -- The keyword arguments of the hold, and their defaults.
  pub record HoldArguments : Type 0 where
    pub duration_s : F.Carrier
    pub rate_hz : F.Carrier
    pub kp : F.Carrier
    pub kd : F.Carrier
    pub maximum_position_error_rad : F.Carrier
    pub maximum_velocity_rad_s : F.Carrier
    pub maximum_torque_nm : F.Carrier
    pub mos_temperature_limit_c : ℕ
    pub rotor_temperature_limit_c : ℕ

  abbrev pub hold_defaults : HoldArguments
  hold_defaults = record {
    duration_s = lit F 2;
    rate_hz = lit F 50;
    kp = ratio F 2 10;
    kd = ratio F 5 100;
    maximum_position_error_rad = ratio F 5 100;
    maximum_velocity_rad_s = ratio F 2 10;
    maximum_torque_nm = ratio F 1 10;
    mos_temperature_limit_c = 100;
    rotor_temperature_limit_c = 80;
  }

  unfoldable pub check_hold :
      DamiaoFeedbackEndpoint F → Range F → HoldArguments → String × String × ℕ → Result (Unit {0})
  check_hold e soft a expected = do
    require (same_endpoint e expected) (value_error "powered hold is restricted")
    require
        (eq_float F a.duration_s (lit F 2)
          && eq_float F a.rate_hz (lit F 50)
          && eq_float F a.kp (ratio F 2 10)
          && eq_float F a.kd (ratio F 5 100))
        (value_error "first powered hold duration/rate/gains are frozen")
    raise_if
        (F.ltb (ratio F 1 10) a.maximum_torque_nm || F.ltb (ratio F 2 10) a.maximum_velocity_rad_s)
        (value_error "first powered hold safety envelope cannot be widened")
    raise_if (F.leb soft.high soft.low) (value_error "head-yaw soft position range is invalid")

  abbrev pub hold_plan : DamiaoFeedbackEndpoint F → Range F → HoldArguments → Plan F
  hold_plan e soft a = record {
    endpoint = e;
    soft = soft;
    kp = a.kp;
    kd = a.kd;
    maximum_position_error_rad = a.maximum_position_error_rad;
    maximum_velocity_rad_s = a.maximum_velocity_rad_s;
    maximum_torque_nm = a.maximum_torque_nm;
    mos_temperature_limit_c = a.mos_temperature_limit_c;
    rotor_temperature_limit_c = a.rotor_temperature_limit_c;
    period = F.div (lit F 1) a.rate_hz;
    check_start = λ target.
        require
          (F.leb (F.add soft.low (ratio F 5 100)) target
            && F.leb target (F.sub soft.high (ratio F 5 100)))
          (runtime_error "measured position lacks 0.05 rad soft-limit margin");
    target_at = λ target elapsed. (target, zero_float F);
  }

  abbrev pub hold_report : DamiaoFeedbackEndpoint F → HoldArguments → Hold F → SingleJointHoldReport
  hold_report e a s = record {
    motor_name = e.motor_name;
    target_position_rad = s.initial_position;
    duration_s = a.duration_s;
    rate_hz = a.rate_hz;
    kp = a.kp;
    kd = a.kd;
    command_count = s.command_count;
    feedback_count = s.feedback_count;
    enable_attempts = s.writer.enable_attempts;
    disable_attempts = s.writer.disable_attempts;
    maximum_abs_position_error_rad = s.max_error;
    maximum_abs_velocity_rad_s = s.max_velocity;
    maximum_abs_estimated_torque_nm = s.max_torque;
    maximum_mos_temperature_c = s.max_mos;
    maximum_rotor_temperature_c = s.max_rotor;
    final_status = s.final_status;
    errors = s.errors;
  }

  -- What a run leaves: its report, or the exception of its arguments, and the writer.
  abbrev pub Finished : Type 0 → Type 0
  Finished R = Result R × SingleMotorMitWriter

  abbrev pub after_checks :
      {R : Type 0} → (Hold F → R) → Result (Unit {0}) → SingleMotorMitWriter → Hold F → Finished R
  after_checks report (ok _) writer s = (ok (report s), s.writer)
  after_checks report (err x) writer s = (err x, writer)

  unfoldable pub run_head_yaw_low_gain_hold :
      DamiaoFeedbackEndpoint F
      → Range F
      → HoldArguments
      → String × String × ℕ
      → Session F
      → SingleMotorMitWriter
      → Finished SingleJointHoldReport
  unfolding check_hold supervise
  run_head_yaw_low_gain_hold e soft a expected session writer =
      after_checks (hold_report e a) (check_hold e soft a expected) writer
        (supervise F (hold_plan e soft a) session writer)

  unfoldable pub run_right_wrist_roll_low_gain_hold :
      DamiaoFeedbackEndpoint F
      → Range F
      → Session F
      → SingleMotorMitWriter
      → Finished SingleJointHoldReport
  unfolding run_head_yaw_low_gain_hold
  run_right_wrist_roll_low_gain_hold e soft session writer =
      run_head_yaw_low_gain_hold e soft hold_defaults ("right_wrist_roll_motor", "kcan4", 7) session
        writer
