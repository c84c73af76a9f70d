-- ===== src/SingleJointHold/Trail.antt =====
-- src/open_sprite_runtime/single_joint_hold.py: what a run may put on the bus, as a state machine, and
-- the frame that each call of the writer adds.
use open_sprite_runtime.Prelude.{ℕ, suc, ◌≡◌, true, false, [], ◌∷◌}
use open_sprite_runtime.Prelude.Result.{ok}
use open_sprite_runtime.Bytes.{Bytes}
use open_sprite_runtime.Float.{FloatOps}
use open_sprite_runtime.SocketCan.Writer.{Wire, enable_payload, disable_payload}
use open_sprite_runtime.SocketCan.Hands.{For}
use open_sprite_runtime.Damiao.Encoded.{EncodedDamiaoMitCommand}
use open_sprite_runtime.Damiao.Command.{
  DamiaoFeedbackEndpoint, DamiaoMitCommand, DamiaoMitState, DamiaoMitCommandEnvelope,
  encode_damiao_mit_command, encode_zero_gain_position_echo, estimated_output_torque,
}

-- What a run does: it polls with zero gains, it has enabled the motor, or it has disabled it a number
-- of times.
pub data Phase : Type 0 where
  polling : ℕ → Phase
  powered : Phase
  stopping : ℕ → Phase

module _ (F : FloatOps) (e : DamiaoFeedbackEndpoint F) (v : DamiaoMitCommandEnvelope F) where
  -- A zero-gain echo of some position.
  pub record IsEcho (payload : Bytes) : Type 0 where
    pub position : F.Carrier
    pub encoded : EncodedDamiaoMitCommand
    pub echoes : encode_zero_gain_position_echo F e position ≡ ok encoded
    pub same : payload ≡ encoded.payload

  -- An encoded command that keeps the envelope.
  pub record IsBounded (payload : Bytes) : Type 0 where
    pub command : DamiaoMitCommand F
    pub measured : DamiaoMitState F
    pub encoded : EncodedDamiaoMitCommand
    pub encodes : encode_damiao_mit_command F e command measured v ≡ ok encoded
    pub same : payload ≡ encoded.payload
    pub above : F.leb v.position_rad.low command.position_rad ≡ true
    pub below : F.leb command.position_rad v.position_rad.high ≡ true
    pub slow : F.ltb v.maximum_velocity_rad_s (F.abs command.velocity_rad_s) ≡ false
    pub weak :
        F.ltb v.maximum_output_torque_nm (F.abs (estimated_output_torque F command measured))
        ≡ false

  module _ (own : ℕ) where
    -- The frames that a run has handed over when it is in a phase: polls come first, the motor is
    -- enabled at most once and behind two polls, commands come behind that and keep the envelope,
    -- and behind the first disable frame there are only disable frames and polls.
    pub data Trail : Phase → Wire → Type 0 where
      begins : Trail (polling 0) []
      polled :
          {n : ℕ} {frame : Bytes} {wire : Wire}
          → For own IsEcho frame
          → Trail (polling n) wire
          → Trail (polling (suc n)) (frame ∷ wire)
      enabled :
          {n : ℕ} {frame : Bytes} {wire : Wire}
          → For own (λ payload. payload ≡ enable_payload) frame
          → Trail (polling (suc (suc n))) wire
          → Trail powered (frame ∷ wire)
      commanded :
          {frame : Bytes} {wire : Wire}
          → For own IsBounded frame
          → Trail powered wire
          → Trail powered (frame ∷ wire)
      aborts : {n : ℕ} {wire : Wire} → Trail (polling n) wire → Trail (stopping 0) wire
      stops : {wire : Wire} → Trail powered wire → Trail (stopping 0) wire
      disabled :
          {n : ℕ} {frame : Bytes} {wire : Wire}
          → For own (λ payload. payload ≡ disable_payload) frame
          → Trail (stopping n) wire
          → Trail (stopping (suc n)) (frame ∷ wire)
      verified :
          {n : ℕ} {frame : Bytes} {wire : Wire}
          → For own IsEcho frame
          → Trail (stopping (suc n)) wire
          → Trail (stopping (suc n)) (frame ∷ wire)
