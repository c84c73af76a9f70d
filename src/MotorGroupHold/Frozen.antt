-- ===== src/MotorGroupHold/Frozen.antt =====
-- src/open_sprite_runtime/motor_group_hold.py: the runs of the frozen groups.
use text.Mathlib.Text.{◌==◌ as str_eq}
use open_sprite_runtime.Prelude.{
  ◌||◌, String, Option, none, some, List, [], ◌∷◌, map, if◌then◌else◌,
}
use open_sprite_runtime.Prelude.Result.{err, value_error}
use open_sprite_runtime.Float.{FloatOps, ratio}
use open_sprite_runtime.SocketCan.MitWriter.{MotorGroupMitWriter}
use open_sprite_runtime.Damiao.Command.{Range, DamiaoFeedbackEndpoint}
use open_sprite_runtime.Dict.{Dict}
use open_sprite_runtime.MotorGroupHold.Session.{GroupSession}
use open_sprite_runtime.MotorGroupHold.Groups.{
  Identity, right_wrist_group, right_arm_group, left_arm_group, left_proximal_leg_group,
  right_proximal_leg_group, waist_group, GroupArguments, GroupRun, run_fixed_group_low_gain_hold,
}

module _ (F : FloatOps) where
  -- `{item.motor_name: f(item.motor_name) for item in endpoints}`
  abbrev pub torques : (String → F.Carrier) → List (DamiaoFeedbackEndpoint F) → Dict F.Carrier
  torques f = map (λ e. (e.motor_name, f e.motor_name))

  abbrev pub fixed_group :
      List (DamiaoFeedbackEndpoint F)
      → Dict (Range F)
      → (String → F.Carrier)
      → Option (Dict F.Carrier)
      → List Identity
      → String
      → GroupArguments F
  fixed_group endpoints soft torque feedback identity interface = record {
    endpoints = endpoints;
    soft_position_rad = soft;
    maximum_torque_nm = torques torque endpoints;
    maximum_feedback_torque_nm = feedback;
    expected_identity = identity;
    expected_interface = interface;
  }

  abbrev pub stronger : String → String → String → F.Carrier
  stronger a b name = if str_eq name a || str_eq name b then ratio F 5 10 else ratio F 1 10

  -- A run of a fixed group on some endpoints.
  abbrev pub GroupHoldRun : Type 0
  GroupHoldRun =
      List (DamiaoFeedbackEndpoint F)
      → Dict (Range F)
      → GroupSession F
      → MotorGroupMitWriter
      → GroupRun F

  unfoldable pub run_right_wrist_group_low_gain_hold : GroupHoldRun
  unfolding run_fixed_group_low_gain_hold
  run_right_wrist_group_low_gain_hold endpoints soft =
      run_fixed_group_low_gain_hold F
        (fixed_group endpoints soft (λ name. ratio F 1 10) none right_wrist_group "kcan4")

  unfoldable pub run_right_arm_group_low_gain_hold : GroupHoldRun
  unfolding run_fixed_group_low_gain_hold
  run_right_arm_group_low_gain_hold endpoints soft = run_fixed_group_low_gain_hold F (
      fixed_group endpoints soft (stronger "right_shoulder_pitch_motor" "right_shoulder_roll_motor")
        none right_arm_group "kcan4")

  unfoldable pub run_left_arm_group_low_gain_hold : GroupHoldRun
  unfolding run_fixed_group_low_gain_hold
  run_left_arm_group_low_gain_hold endpoints soft = run_fixed_group_low_gain_hold F (
      fixed_group endpoints soft (stronger "left_shoulder_pitch_motor" "left_shoulder_roll_motor")
        none left_arm_group "kcan3")

  abbrev pub leg_group : String → Option (List Identity × String)
  leg_group side =
      if str_eq side "left"
      then some (left_proximal_leg_group, "kcan1")
      else if str_eq side "right"
      then some (right_proximal_leg_group, "kcan2")
      else none

  abbrev pub leg_run : Option (List Identity × String) → GroupHoldRun
  leg_run none endpoints soft session writer =
      (err (value_error "proximal leg side must be left or right"), writer)
  leg_run (some (identity, interface)) endpoints soft session writer =
      run_fixed_group_low_gain_hold F
        (fixed_group endpoints soft (λ name. ratio F 5 10) none identity interface) session writer

  unfoldable pub run_proximal_leg_group_low_gain_hold : String → GroupHoldRun
  unfolding run_fixed_group_low_gain_hold
  run_proximal_leg_group_low_gain_hold side = leg_run (leg_group side)

  unfoldable pub run_waist_group_low_gain_hold : GroupHoldRun
  unfolding run_fixed_group_low_gain_hold
  run_waist_group_low_gain_hold endpoints soft = run_fixed_group_low_gain_hold F (
      fixed_group endpoints soft (λ name. ratio F 5 10)
        (some (("waist_yaw_motor", ratio F 5 10) ∷ ("waist_roll_motor", ratio F 25 10) ∷ []))
        waist_group "kcan1")
