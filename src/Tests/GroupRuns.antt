-- ===== src/Tests/GroupRuns.antt =====
-- Runs of the group holds.
use open_sprite_runtime.Prelude.{
  ℕ, ◌+◌, ◌*◌, ◌≤◌, refl, true, false, inl, inr, String, List, [], ◌∷◌, arith,
}
use open_sprite_runtime.Prelude.Int.{pos}
use open_sprite_runtime.SocketCan.Receipt.{Receipt, received}
use open_sprite_runtime.SocketCan.MitWriter.{get, MotorGroupMitWriter, new_group_writer}
use open_sprite_runtime.Damiao.Command.{DamiaoFeedbackEndpoint}
use open_sprite_runtime.SingleJointHold.Session.{Exchange}
use open_sprite_runtime.MotorGroupHold.Session.{GroupSession, GroupPlan, GroupHold, group_begun}
use open_sprite_runtime.MotorGroupHold.Supervise.{finish, supervise_group}
use open_sprite_runtime.MotorGroupHold.Stops.{disables}
use open_sprite_runtime.MotorGroupHold.Rounds.{finish-disables}
use open_sprite_runtime.MotorGroupHold.Trail.{stopping, GroupTrail}
use open_sprite_runtime.MotorGroupHold.Whole.{supervise_group-GroupTrail}
use open_sprite_runtime.Tests.Fixed.{thousandths}
use open_sprite_runtime.Tests.HoldRuns.{range, takes_all}

abbrev waist : String → ℕ → ℕ → DamiaoFeedbackEndpoint thousandths
waist name id master = record {
  motor_name = name;
  interface = "kcan1";
  can_id = id;
  master_id = master;
  ranges = record {
    position_rad = range 12;
    velocity_rad_s = range 30;
    torque_nm = range 10;
    source = "motor_register_readback";
  };
}

abbrev yaw : DamiaoFeedbackEndpoint thousandths
yaw = waist "waist_yaw_motor" 7 0x17

abbrev roll : DamiaoFeedbackEndpoint thousandths
roll = waist "waist_roll_motor" 8 0x18

-- Feedback of both motors.
abbrev answers : ℕ → List Receipt
answers status = feedback 7 0x17 ∷ feedback 8 0x18 ∷ []
  where
    feedback : ℕ → ℕ → Receipt
    feedback id master = received (record {
      interface = "kcan1";
      can_id = master;
      payload = (status * 16 + id) ∷ 128 ∷ 0 ∷ 128 ∷ 8 ∷ 0 ∷ 30 ∷ 31 ∷ [];
      is_extended = false;
      is_remote = false;
      is_error = false;
      is_fd = true;
      bit_rate_switch = true;
      error_state_indicator = false;
      software_timestamp_ns = pos 1;
      hardware_timestamp_ns = pos 1;
      userspace_receive_timestamp_ns = pos 1;
    })

abbrev with_both : ℕ → String → Exchange
with_both status name = record { os = takes_all; receipts = answers status }

abbrev group_session : GroupSession thousandths
group_session = record {
  probes = with_both 0;
  prepares = with_both 0;
  enables = λ name. takes_all;
  start_s = pos 0;
  ticks =
      record { now_s = pos 0; exchanges = with_both 1; after_s = pos 5; later_s = pos 5 }
      ∷ record { now_s = pos 20; exchanges = with_both 1; after_s = pos 25; later_s = pos 25 }
      ∷ [];
  disables = λ n name. takes_all;
  verifications = λ name. record { disable_os = takes_all; poll = with_both 0 name } ∷ [];
}

abbrev plan : GroupPlan thousandths
plan = record {
  endpoints = yaw ∷ roll ∷ [];
  soft_position_rad = ("waist_yaw_motor", range 1) ∷ ("waist_roll_motor", range 1) ∷ [];
  maximum_torque_nm = ("waist_yaw_motor", pos 500) ∷ ("waist_roll_motor", pos 500) ∷ [];
  feedback_torque_guard = ("waist_yaw_motor", pos 500) ∷ ("waist_roll_motor", pos 2500) ∷ [];
}

abbrev names : List (String × ℕ)
names = ("waist_yaw_motor", 7) ∷ ("waist_roll_motor", 8) ∷ []

abbrev group_writer : MotorGroupMitWriter
group_writer = record {
  interface = "kcan1";
  can_id_by_name = names;
  wire = [];
  command_tx_attempts = ("waist_yaw_motor", 0) ∷ ("waist_roll_motor", 0) ∷ [];
  enable_attempts = ("waist_yaw_motor", 0) ∷ ("waist_roll_motor", 0) ∷ [];
  disable_attempts = ("waist_yaw_motor", 0) ∷ ("waist_roll_motor", 0) ∷ [];
}

abbrev group_run : GroupHold thousandths
group_run = supervise_group thousandths plan group_session group_writer

supervise_group-GroupTrail_example :
    GroupTrail thousandths plan names stopping group_run.writer.wire
unfolding new_group_writer
supervise_group-GroupTrail_example =
    supervise_group-GroupTrail thousandths plan group_session "kcan1" names {writer = group_writer}
      refl

abbrev group_start : GroupHold thousandths
group_start = group_begun thousandths (yaw ∷ roll ∷ []) group_writer

finish-disables_example :
    3 + disables 8 [] ≤ disables 8 (finish thousandths plan group_session group_start).writer.wire
unfolding get
finish-disables_example =
    finish-disables thousandths "waist_roll_motor" 8 (omega arith) plan group_session group_start
      roll refl (inr (inl refl)) refl
