-- ===== src/MotorGroupHold/Session.antt =====
-- src/open_sprite_runtime/motor_group_hold.py: a group run's environment and its locals, and the calls of
-- the writer.
use open_sprite_runtime.Prelude.{ℕ, String, Option, none, List, [], ◌∷◌, map}
use open_sprite_runtime.Prelude.Result.{Exception, Result}
use open_sprite_runtime.Prelude.Action.{Action, pure, lift, ◌>>=◌, ◌>>◌}
use open_sprite_runtime.Bytes.{Bytes}
use open_sprite_runtime.Float.{FloatOps, zero_float}
use open_sprite_runtime.SocketCan.Receipt.{Receipt}
use open_sprite_runtime.SocketCan.Writer.{SendOutcome}
use open_sprite_runtime.SocketCan.MitWriter.{
  MotorGroupMitWriter, group_send_command, group_send_enable, group_send_disable,
}
use open_sprite_runtime.Damiao.Encoded.{EncodedDamiaoMitCommand}
use open_sprite_runtime.Damiao.Command.{
  Range, DamiaoFeedbackEndpoint, encode_zero_gain_position_echo,
}
use open_sprite_runtime.Damiao.Decode.{DamiaoFeedback}
use open_sprite_runtime.Dict.{Dict}
use open_sprite_runtime.SingleJointHold.Session.{Exchange, ShutdownRound, receive_selected}

-- What goes through every motor of the group, in order.
unfoldable pub each {ℓ} :
    {E : Type ℓ} {S : Type 0} → (E → Action S (Unit {0})) → List E → Action S (Unit {0})
each f [] = pure tt
each f (e ∷ rest) = f e >> each f rest

module _ (F : FloatOps) where
  -- One pass of the control loop: the second reading of the clock, an exchange with each motor if it
  -- is due, and the two readings behind them.
  pub record GroupTick : Type 0 where
    pub now_s : F.Carrier
    pub exchanges : String → Exchange
    pub after_s : F.Carrier
    pub later_s : F.Carrier

  pub record GroupSession : Type 0 where
    pub probes : String → Exchange
    pub prepares : String → Exchange
    pub enables : String → Bytes → SendOutcome
    pub start_s : F.Carrier
    -- the passes for which `monotonic() - start < duration_s` held
    pub ticks : List GroupTick
    pub disables : ℕ → String → Bytes → SendOutcome
    -- the rounds that the clock leaves time for
    pub verifications : String → List ShutdownRound

  pub record GroupPlan : Type 0 where
    pub endpoints : List (DamiaoFeedbackEndpoint F)
    pub soft_position_rad : Dict (Range F)
    pub maximum_torque_nm : Dict F.Carrier
    pub feedback_torque_guard : Dict F.Carrier

  -- The locals of a run, with the writer.
  pub record GroupHold : Type 0 where
    pub writer : MotorGroupMitWriter
    pub initial_positions : Dict F.Carrier
    pub targets : Dict F.Carrier
    pub latest : Dict (DamiaoFeedback F)
    pub command_count : Dict ℕ
    pub feedback_count : Dict ℕ
    pub max_error : Dict F.Carrier
    pub max_velocity : Dict F.Carrier
    pub max_commanded_torque : Dict F.Carrier
    pub max_torque : Dict F.Carrier
    pub max_mos : Dict ℕ
    pub max_rotor : Dict ℕ
    pub final_status : Dict (Option String)
    pub errors : List Exception

  -- `{name: v for name in names}` of distinct names
  abbrev pub with_value {ℓ} : {V : Type ℓ} → List (DamiaoFeedbackEndpoint F) → V → Dict V
  with_value endpoints v = map (λ e. (e.motor_name, v)) endpoints

  abbrev pub group_begun : List (DamiaoFeedbackEndpoint F) → MotorGroupMitWriter → GroupHold
  group_begun endpoints writer = record {
    writer = writer;
    initial_positions = [];
    targets = [];
    latest = [];
    command_count = with_value endpoints 0;
    feedback_count = with_value endpoints 0;
    max_error = with_value endpoints (zero_float F);
    max_velocity = with_value endpoints (zero_float F);
    max_commanded_torque = with_value endpoints (zero_float F);
    max_torque = with_value endpoints (zero_float F);
    max_mos = with_value endpoints 0;
    max_rotor = with_value endpoints 0;
    final_status = with_value endpoints none;
    errors = [];
  }

  -- A call of the writer.
  abbrev pub group_writing :
      (MotorGroupMitWriter → Result (Unit {0}) × MotorGroupMitWriter) → Action GroupHold (Unit {0})
  group_writing send s = ((send s.writer).0, record s { writer = (send s.writer).1 })

  unfoldable pub command_motor :
      (Bytes → SendOutcome) → EncodedDamiaoMitCommand → Action GroupHold (Unit {0})
  unfolding group_send_command
  command_motor os command = group_writing (group_send_command os command)

  unfoldable pub enable_motor : (Bytes → SendOutcome) → String → Action GroupHold (Unit {0})
  unfolding group_send_enable
  enable_motor os name = group_writing (group_send_enable os name)

  unfoldable pub disable_motor : (Bytes → SendOutcome) → String → Action GroupHold (Unit {0})
  unfolding group_send_disable
  disable_motor os name = group_writing (group_send_disable os name)

  -- `_receive_endpoint`, which is `_receive_selected` with another message.
  unfoldable pub receive_endpoint :
      DamiaoFeedbackEndpoint F → List Receipt → Result (DamiaoFeedback F)
  unfolding receive_selected
  receive_endpoint = receive_selected F

  -- A zero-gain echo of a position, and the feedback to it.
  unfoldable pub group_echo :
      DamiaoFeedbackEndpoint F → F.Carrier → Exchange → Action GroupHold (DamiaoFeedback F)
  unfolding encode_zero_gain_position_echo command_motor receive_endpoint
  group_echo e position x = do
    command ← lift (encode_zero_gain_position_echo F e position)
    command_motor x.os command
    lift (receive_endpoint e x.receipts)
