-- ===== src/MotorGroupHold/Groups.antt =====
-- src/open_sprite_runtime/motor_group_hold.py: the frozen groups, the checks of the arguments, the report
-- and the runs.
use text.Mathlib.Text.{◌==◌ as str_eq}
use open_sprite_runtime.Prelude.{
  ℕ, Bool, true, false, ◌&&◌, String, Option, none, some, List, [], ◌∷◌, ltb, leb, ◌==◌, all, map,
}
use open_sprite_runtime.Prelude.Result.{Exception, Result, ok, err, value_error, require, ◌>>◌}
use open_sprite_runtime.Float.{FloatOps, lit, zero_float, ratio}
use open_sprite_runtime.SocketCan.MitWriter.{MotorGroupMitWriter}
use open_sprite_runtime.Damiao.Command.{Range, DamiaoFeedbackEndpoint}
use open_sprite_runtime.SingleJointHold.Runs.{no_errors, status_is}
use open_sprite_runtime.Dict.{Dict, covers}
use open_sprite_runtime.MotorGroupHold.Session.{GroupSession, GroupPlan, GroupHold}
use open_sprite_runtime.MotorGroupHold.Supervise.{supervise_group}

-- A motor's name, its bus, its CAN identifier and its Master ID.
abbrev pub Identity : Type 0
Identity = String × String × ℕ × ℕ

abbrev pub right_wrist_group : List Identity
right_wrist_group =
    ("right_wrist_yaw_motor", "kcan4", 5, 0x15)
    ∷ ("right_wrist_pitch_motor", "kcan4", 6, 0x16)
    ∷ ("right_wrist_roll_motor", "kcan4", 7, 0x17)
    ∷ []

abbrev pub right_arm_group : List Identity
right_arm_group =
    ("right_shoulder_pitch_motor", "kcan4", 1, 0x11)
    ∷ ("right_shoulder_roll_motor", "kcan4", 2, 0x12)
    ∷ ("right_shoulder_yaw_motor", "kcan4", 3, 0x13)
    ∷ ("right_elbow_motor", "kcan4", 4, 0x14)
    ∷ right_wrist_group

abbrev pub left_arm_group : List Identity
left_arm_group =
    ("left_shoulder_pitch_motor", "kcan3", 1, 0x11)
    ∷ ("left_shoulder_roll_motor", "kcan3", 2, 0x12)
    ∷ ("left_shoulder_yaw_motor", "kcan3", 3, 0x13)
    ∷ ("left_elbow_motor", "kcan3", 4, 0x14)
    ∷ ("left_wrist_yaw_motor", "kcan3", 5, 0x15)
    ∷ ("left_wrist_pitch_motor", "kcan3", 6, 0x16)
    ∷ ("left_wrist_roll_motor", "kcan3", 7, 0x17)
    ∷ []

abbrev pub left_proximal_leg_group : List Identity
left_proximal_leg_group =
    ("left_hip_pitch_motor", "kcan1", 1, 0x11)
    ∷ ("left_hip_roll_motor", "kcan1", 2, 0x12)
    ∷ ("left_hip_yaw_motor", "kcan1", 3, 0x13)
    ∷ ("left_knee_motor", "kcan1", 4, 0x14)
    ∷ []

abbrev pub right_proximal_leg_group : List Identity
right_proximal_leg_group =
    ("right_hip_pitch_motor", "kcan2", 1, 0x11)
    ∷ ("right_hip_roll_motor", "kcan2", 2, 0x12)
    ∷ ("right_hip_yaw_motor", "kcan2", 3, 0x13)
    ∷ ("right_knee_motor", "kcan2", 4, 0x14)
    ∷ []

abbrev pub waist_group : List Identity
waist_group = ("waist_yaw_motor", "kcan1", 7, 0x17) ∷ ("waist_roll_motor", "kcan1", 8, 0x18) ∷ []

-- `identity == expected_identity`
unfoldable pub same_identities : List Identity → List Identity → Bool
same_identities [] [] = true
same_identities [] (_ ∷ _) = false
same_identities (_ ∷ _) [] = false
same_identities ((n, i, c, m) ∷ rest) ((n2, i2, c2, m2) ∷ expected) =
    str_eq n n2 && str_eq i i2 && c == c2 && m == m2 && same_identities rest expected

module _ (F : FloatOps) where
  -- `MotorGroupHoldReport`; the fields that repeat the arguments and the writer's counters are there too.
  pub record MotorGroupHoldReport : Type 0 where
    pub interface : String
    pub motor_names : List String
    pub initial_position_rad : Dict F.Carrier
    pub target_position_rad : Dict F.Carrier
    pub duration_s : F.Carrier
    pub rate_hz : F.Carrier
    pub command_count : Dict ℕ
    pub feedback_count : Dict ℕ
    pub enable_attempts : Dict ℕ
    pub disable_attempts : Dict ℕ
    pub maximum_abs_position_error_rad : Dict F.Carrier
    pub maximum_abs_velocity_rad_s : Dict F.Carrier
    pub maximum_abs_commanded_torque_nm : Dict F.Carrier
    pub maximum_abs_estimated_torque_nm : Dict F.Carrier
    pub maximum_mos_temperature_c : Dict ℕ
    pub maximum_rotor_temperature_c : Dict ℕ
    pub final_status : Dict (Option String)
    pub errors : List Exception

  -- `MotorGroupHoldReport.passed`
  unfoldable pub group_passed : MotorGroupHoldReport → Bool
  group_passed r =
      no_errors r.errors
      && all (λ e. ltb 0 e.1) r.command_count
      && all (λ e. ltb 0 e.1) r.feedback_count
      && all (λ e. e.1 == 1) r.enable_attempts
      && all (λ e. leb 3 e.1) r.disable_attempts
      && all (λ e. status_is "disabled" e.1) r.final_status

  abbrev pub identities : List (DamiaoFeedbackEndpoint F) → List Identity
  identities = map (λ e. (e.motor_name, e.interface, e.can_id, e.master_id))

  abbrev pub names_of : List (DamiaoFeedbackEndpoint F) → List String
  names_of = map (λ e. e.motor_name)

  -- `0.0 < value <= top`
  abbrev pub is_guard : F.Carrier → F.Carrier → Bool
  is_guard top value = F.ltb (zero_float F) value && F.leb value top

  abbrev pub guards_or : Option (Dict F.Carrier) → Dict F.Carrier → Dict F.Carrier
  guards_or none torques = torques
  guards_or (some guards) torques = guards

  -- The arguments of `_run_fixed_group_low_gain_hold`.
  pub record GroupArguments : Type 0 where
    pub endpoints : List (DamiaoFeedbackEndpoint F)
    pub soft_position_rad : Dict (Range F)
    pub maximum_torque_nm : Dict F.Carrier
    pub maximum_feedback_torque_nm : Option (Dict F.Carrier)
    pub expected_identity : List Identity
    pub expected_interface : String

  unfoldable pub check_group : GroupArguments → String → Result (Unit {0})
  unfolding same_identities
  check_group a interface = do
    let names = names_of a.endpoints
    let guards = guards_or a.maximum_feedback_torque_nm a.maximum_torque_nm
    require (same_identities (identities a.endpoints) a.expected_identity)
        (value_error "powered group hold does not match the frozen ordered group")
    require (covers a.soft_position_rad names)
        (value_error "soft limits must exactly cover the frozen motor group")
    require
        (covers a.maximum_torque_nm names
          && all (λ e. is_guard (ratio F 5 10) e.1) a.maximum_torque_nm)
        (value_error "torque guards must exactly cover the group and be in (0, 0.5] Nm")
    require (covers guards names && all (λ e. is_guard (lit F 3) e.1) guards)
        (value_error "feedback torque guards must exactly cover the group and be in (0, 3.0] Nm")
    require (str_eq interface a.expected_interface)
        (value_error "motor-group writer must use the expected interface")

  abbrev pub group_plan : GroupArguments → GroupPlan F
  group_plan a = record {
    endpoints = a.endpoints;
    soft_position_rad = a.soft_position_rad;
    maximum_torque_nm = a.maximum_torque_nm;
    feedback_torque_guard = guards_or a.maximum_feedback_torque_nm a.maximum_torque_nm;
  }

  abbrev pub group_report : List (DamiaoFeedbackEndpoint F) → GroupHold F → MotorGroupHoldReport
  group_report endpoints s = record {
    interface = s.writer.interface;
    motor_names = names_of endpoints;
    initial_position_rad = s.initial_positions;
    target_position_rad = s.targets;
    duration_s = lit F 2;
    rate_hz = lit F 50;
    command_count = s.command_count;
    feedback_count = s.feedback_count;
    enable_attempts = s.writer.enable_attempts;
    disable_attempts = s.writer.disable_attempts;
    maximum_abs_position_error_rad = s.max_error;
    maximum_abs_velocity_rad_s = s.max_velocity;
    maximum_abs_commanded_torque_nm = s.max_commanded_torque;
    maximum_abs_estimated_torque_nm = s.max_torque;
    maximum_mos_temperature_c = s.max_mos;
    maximum_rotor_temperature_c = s.max_rotor;
    final_status = s.final_status;
    errors = s.errors;
  }

  -- What a run leaves: its report, or the exception of its arguments, and the writer.
  abbrev pub GroupRun : Type 0
  GroupRun = Result MotorGroupHoldReport × MotorGroupMitWriter

  abbrev pub behind_checks :
      GroupArguments → Result (Unit {0}) → MotorGroupMitWriter → GroupHold F → GroupRun
  behind_checks a (ok _) writer s = (ok (group_report a.endpoints s), s.writer)
  behind_checks a (err x) writer s = (err x, writer)

  unfoldable pub run_fixed_group_low_gain_hold :
      GroupArguments → GroupSession F → MotorGroupMitWriter → GroupRun
  unfolding check_group supervise_group
  run_fixed_group_low_gain_hold a session writer =
      behind_checks a (check_group a writer.interface) writer
        (supervise_group F (group_plan a) session writer)
