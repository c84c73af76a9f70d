-- ===== src/SingleJointHold/Session.antt =====
-- src/open_sprite_runtime/single_joint_hold.py: a run's environment and its locals, and the calls
-- of the writer.
use text.Mathlib.Text.{◌==◌ as str_eq}
use open_sprite_runtime.Prelude.{
  ℕ, ◌&&◌, String, Option, none, some, List, [], ◌∷◌, ltb, ◌==◌, if◌then◌else◌,
}
use open_sprite_runtime.Prelude.Result.{
  Exception, Result, err, runtime_error, socket_can_timestamp_error,
}
use open_sprite_runtime.Prelude.Action.{Action, lift, ◌>>=◌, ◌>>◌}
use open_sprite_runtime.Bytes.{Bytes}
use open_sprite_runtime.Float.{FloatOps, zero_float}
use open_sprite_runtime.SocketCan.Receipt.{Receipt, blocked, untimed, raised, received}
use open_sprite_runtime.SocketCan.Writer.{SendOutcome}
use open_sprite_runtime.SocketCan.MitWriter.{
  SingleMotorMitWriter, single_send_command, single_send_enable, single_send_disable,
}
use open_sprite_runtime.Damiao.Encoded.{EncodedDamiaoMitCommand}
use open_sprite_runtime.Damiao.Command.{
  Range, DamiaoFeedbackEndpoint, encode_zero_gain_position_echo,
}
use open_sprite_runtime.Damiao.Decode.{DamiaoFeedback, decode_damiao_feedback}

-- One command and what `receive` answers until its deadline.
pub record Exchange : Type 0 where
  pub os : Bytes → SendOutcome
  pub receipts : List Receipt

-- One round of the shutdown.
pub record ShutdownRound : Type 0 where
  pub disable_os : Bytes → SendOutcome
  pub poll : Exchange

module _ (F : FloatOps) where
  -- `_receive_selected`; the receipts end at the deadline.
  unfoldable pub receive_selected :
      DamiaoFeedbackEndpoint F → List Receipt → Result (DamiaoFeedback F)
  unfolding decode_damiao_feedback
  receive_selected e [] = err (runtime_error "feedback watchdog expired")
  receive_selected e (blocked ∷ rest) = receive_selected e rest
  receive_selected e (untimed ∷ rest) = err (socket_can_timestamp_error "")
  receive_selected e (raised x ∷ rest) = err x
  receive_selected e (received frame ∷ rest) =
      let later = receive_selected e rest in
      if str_eq frame.interface e.interface && frame.can_id == e.master_id
      then decode_damiao_feedback F frame e
      else later

  -- One pass of the control loop: the second reading of the clock, and the exchange if it is due.
  pub record Tick : Type 0 where
    pub now_s : F.Carrier
    pub exchange : Exchange

  pub record Session : Type 0 where
    pub probe : Exchange
    pub prepare : Exchange
    pub enable_os : Bytes → SendOutcome
    pub start_s : F.Carrier
    -- the passes for which `monotonic() - start < duration_s` held
    pub ticks : List Tick
    -- the rounds of the shutdown, and how many more than three the clock leaves time for
    pub shutdown : ℕ → ShutdownRound
    pub further : ℕ

  -- The frozen parameters of a run, and what differs between the hold and the motion: the check of
  -- the initial position, and the target position and velocity for it at an elapsed time.
  pub record Plan : Type 0 where
    pub endpoint : DamiaoFeedbackEndpoint F
    pub soft : Range F
    pub kp : F.Carrier
    pub kd : F.Carrier
    pub maximum_position_error_rad : F.Carrier
    pub maximum_velocity_rad_s : F.Carrier
    pub maximum_torque_nm : F.Carrier
    pub mos_temperature_limit_c : ℕ
    pub rotor_temperature_limit_c : ℕ
    pub period : F.Carrier
    pub check_start : F.Carrier → Result (Unit {0})
    pub target_at : F.Carrier → F.Carrier → F.Carrier × F.Carrier

  -- The locals of a run, with the writer.
  pub record Hold : Type 0 where
    pub writer : SingleMotorMitWriter
    pub initial_position : Option F.Carrier
    pub command_count : ℕ
    pub feedback_count : ℕ
    pub max_error : F.Carrier
    pub max_velocity : F.Carrier
    pub max_torque : F.Carrier
    pub max_mos : ℕ
    pub max_rotor : ℕ
    pub measured_minimum : Option F.Carrier
    pub measured_maximum : Option F.Carrier
    pub final_measured : Option F.Carrier
    pub final_status : Option String
    pub errors : List Exception

  abbrev pub begun : SingleMotorMitWriter → Hold
  begun writer = record {
    writer = writer;
    initial_position = none;
    command_count = 0;
    feedback_count = 0;
    max_error = zero_float F;
    max_velocity = zero_float F;
    max_torque = zero_float F;
    max_mos = 0;
    max_rotor = 0;
    measured_minimum = none;
    measured_maximum = none;
    final_measured = none;
    final_status = none;
    errors = [];
  }

  -- `max(a, b)`: the second is taken only if it is greater, and `min(a, b)` only if it is less.
  abbrev pub max_float : F.Carrier → F.Carrier → F.Carrier
  max_float a b = if F.ltb a b then b else a

  abbrev pub max_of : Option F.Carrier → F.Carrier → F.Carrier
  max_of none b = b
  max_of (some a) b = max_float a b

  abbrev pub min_of : Option F.Carrier → F.Carrier → F.Carrier
  min_of none b = b
  min_of (some a) b = if F.ltb b a then b else a

  abbrev pub max_count : ℕ → ℕ → ℕ
  max_count a b = if ltb a b then b else a

  -- A call of the writer.
  abbrev pub writing :
      (SingleMotorMitWriter → Result (Unit {0}) × SingleMotorMitWriter) → Action Hold (Unit {0})
  writing send s = ((send s.writer).0, record s { writer = (send s.writer).1 })

  unfoldable pub send_command :
      (Bytes → SendOutcome) → EncodedDamiaoMitCommand → Action Hold (Unit {0})
  unfolding single_send_command
  send_command os command = writing (single_send_command os command)

  unfoldable pub send_enable : (Bytes → SendOutcome) → Action Hold (Unit {0})
  unfolding single_send_enable
  send_enable os = writing (single_send_enable os)

  unfoldable pub send_disable : (Bytes → SendOutcome) → Action Hold (Unit {0})
  unfolding single_send_disable
  send_disable os = writing (single_send_disable os)

  -- A zero-gain echo of a position, and the feedback to it.
  unfoldable pub echo :
      DamiaoFeedbackEndpoint F → F.Carrier → Exchange → Action Hold (DamiaoFeedback F)
  unfolding encode_zero_gain_position_echo send_command receive_selected
  echo e position x = do
    command ← lift (encode_zero_gain_position_echo F e position)
    send_command x.os command
    lift (receive_selected e x.receipts)
