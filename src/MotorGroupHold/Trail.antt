-- ===== src/MotorGroupHold/Trail.antt =====
-- src/open_sprite_runtime/motor_group_hold.py: what a group run may put on the bus, as a state machine,
-- and the frame that each call of the writer adds.
use open_sprite_runtime.Prelude.{
  ℕ, ◌≡◌, refl, Bool, true, false, inl, inr, String, some, List, [], ◌∷◌, if◌then◌else◌, length,
  Option-cases, Member,
}
use open_sprite_runtime.Prelude.Result.{ok, err, value_error}
use open_sprite_runtime.Bytes.{Bytes}
use open_sprite_runtime.Float.{FloatOps}
use open_sprite_runtime.SocketCan.Hands.{For, send_payload-For}
use open_sprite_runtime.SocketCan.Writer.{
  SendOutcome, Wire, Outcome, enable_payload, disable_payload,
}
use open_sprite_runtime.SocketCan.MitWriter.{
  get, MotorGroupMitWriter, send_to, group_send_payload, outside, counted_at, group_send_command,
  group_send_enable, group_send_disable,
}
use open_sprite_runtime.SocketCan.GroupWire.{IsStandard, get-le}
use open_sprite_runtime.Damiao.Encoded.{EncodedDamiaoMitCommand}
use open_sprite_runtime.Damiao.Command.{
  Range, DamiaoFeedbackEndpoint, DamiaoMitState, encode_damiao_mit_command,
  encode_zero_gain_position_echo, estimated_output_torque,
}
use open_sprite_runtime.Dict.{item}
use open_sprite_runtime.MotorGroupHold.Session.{GroupPlan}
use open_sprite_runtime.MotorGroupHold.Supervise.{group_envelope, hold_command}

-- What a run does: it polls, then it enables, then it commands, and then it disables.
pub data GroupPhase : Type 0 where
  polling enabling driving stopping : GroupPhase

module _ (F : FloatOps) (p : GroupPlan F) (names : List (String × ℕ)) where
  -- A frame for a motor of the group with a payload of which `P` holds.
  pub record ForMember (P : DamiaoFeedbackEndpoint F → Bytes → Type 0) (frame : Bytes)
      : Type 0 where
    pub endpoint : DamiaoFeedbackEndpoint F
    pub member : Member endpoint p.endpoints
    pub id : ℕ
    pub addressed : get names endpoint.motor_name ≡ some id
    pub for : For id (P endpoint) frame

  -- A zero-gain echo of some position.
  pub record IsMemberEcho (e : DamiaoFeedbackEndpoint F) (payload : Bytes) : Type 0 where
    pub position : F.Carrier
    pub encoded : EncodedDamiaoMitCommand
    pub echoes : encode_zero_gain_position_echo F e position ≡ ok encoded
    pub same : payload ≡ encoded.payload

  -- An encoded command inside the soft limits and the torque guard of its motor.
  pub record IsMemberHold (e : DamiaoFeedbackEndpoint F) (payload : Bytes) : Type 0 where
    pub target : F.Carrier
    pub measured : DamiaoMitState F
    pub encoded : EncodedDamiaoMitCommand
    pub soft : Range F
    pub torque : F.Carrier
    pub soft_of : item p.soft_position_rad e.motor_name ≡ ok soft
    pub torque_of : item p.maximum_torque_nm e.motor_name ≡ ok torque
    pub encodes :
        encode_damiao_mit_command F e
          (hold_command F p target)
          measured
          (group_envelope F p soft torque)
        ≡ ok encoded
    pub same : payload ≡ encoded.payload
    pub above : F.leb soft.low target ≡ true
    pub below : F.leb target soft.high ≡ true
    pub weak :
        F.ltb torque (F.abs (estimated_output_torque F (hold_command F p target) measured)) ≡ false

  -- The frames that a run has handed over when it is in a phase.
  pub data GroupTrail : GroupPhase → Wire → Type 0 where
    begins : GroupTrail polling []
    polled :
        {frame : Bytes} {wire : Wire}
        → ForMember IsMemberEcho frame
        → GroupTrail polling wire
        → GroupTrail polling (frame ∷ wire)
    powers : {wire : Wire} → GroupTrail polling wire → GroupTrail enabling wire
    enabled :
        {frame : Bytes} {wire : Wire}
        → ForMember (λ e payload. payload ≡ enable_payload) frame
        → GroupTrail enabling wire
        → GroupTrail enabling (frame ∷ wire)
    drives : {wire : Wire} → GroupTrail enabling wire → GroupTrail driving wire
    commanded :
        {frame : Bytes} {wire : Wire}
        → ForMember IsMemberHold frame
        → GroupTrail driving wire
        → GroupTrail driving (frame ∷ wire)
    stops : {phase : GroupPhase} {wire : Wire} → GroupTrail phase wire → GroupTrail stopping wire
    disabled :
        {frame : Bytes} {wire : Wire}
        → ForMember (λ e payload. payload ≡ disable_payload) frame
        → GroupTrail stopping wire
        → GroupTrail stopping (frame ∷ wire)
    verified :
        {frame : Bytes} {wire : Wire}
        → ForMember IsMemberEcho frame
        → GroupTrail stopping wire
        → GroupTrail stopping (frame ∷ wire)

  -- A writer for the group whose frames are those of a phase.
  pub record GroupAt (phase : GroupPhase) (w : MotorGroupMitWriter) : Type 0 where
    pub same_names : w.can_id_by_name ≡ names
    pub trail : GroupTrail phase w.wire

  -- A frame of a motor with a payload of which `P` holds keeps the phase.
  abbrev pub Stays : DamiaoFeedbackEndpoint F → (Bytes → Type 0) → GroupPhase → Type 0
  Stays e P phase =
      (id : ℕ) (frame : Bytes) (wire : Wire)
      → get names e.motor_name ≡ some id
      → For id P frame
      → GroupTrail phase wire
      → GroupTrail phase (frame ∷ wire)

  module _ (standard : IsStandard names) where
    send_to-GroupTrail :
        (os : Bytes → SendOutcome) {P : Bytes → Type 0} (e : DamiaoFeedbackEndpoint F)
        (phase : GroupPhase) (payload : Bytes) (wire : Wire)
        → Stays e P phase
        → length payload ≡ 8
        → P payload
        → GroupTrail phase wire
        → GroupTrail phase (send_to os (get names e.motor_name) payload wire).1
    send_to-GroupTrail os e phase payload wire stays eight holds old =
        elim (Option-cases (get names e.motor_name)) [
          | inl missing ↦ rw missing old
          | inr (id, known) ↦ rw known (
              let (frame, for, adds) =
                send_payload-For os id payload wire (get-le names e.motor_name id standard known)
                  eight holds in
              rw adds (stays id frame wire known for old))
        ]

    send_payload-GroupTrail :
        (os : Bytes → SendOutcome) {P : Bytes → Type 0} (e : DamiaoFeedbackEndpoint F)
        (phase : GroupPhase) (payload : Bytes) (w : MotorGroupMitWriter)
        → Stays e P phase
        → length payload ≡ 8
        → P payload
        → GroupAt phase w
        → GroupTrail phase (group_send_payload os e.motor_name payload w).1
    unfolding group_send_payload
    send_payload-GroupTrail os e phase payload w stays eight holds at =
        rw at.same_names (send_to-GroupTrail os e phase payload w.wire stays eight holds at.trail)

    pub group_send_command-At :
        (os : Bytes → SendOutcome) {P : Bytes → Type 0} (e : DamiaoFeedbackEndpoint F)
        (phase : GroupPhase) (c : EncodedDamiaoMitCommand) (w : MotorGroupMitWriter)
        → Stays e P phase
        → c.motor_name ≡ e.motor_name
        → length c.payload ≡ 8
        → P c.payload
        → GroupAt phase w
        → GroupAt phase (group_send_command os c w).1
    unfolding group_send_command
    group_send_command-At os e phase c w stays own eight holds at =
        by_test (outside os (get w.can_id_by_name c.motor_name) c w.interface)
      where
        by_test :
            (b : Bool)
            → GroupAt phase
                (if◌then◌else◌ {A = Outcome MotorGroupMitWriter} b
                  (err (value_error "encoded MIT command is outside the motor-group allowlist"), w)
                  (
                    (group_send_payload os c.motor_name c.payload w).0,
                    record w {
                      wire = (group_send_payload os c.motor_name c.payload w).1;
                      command_tx_attempts =
                          counted_at
                            (group_send_payload os c.motor_name c.payload w).0
                            c.motor_name
                            w.command_tx_attempts;
                    },
                  )).1
        by_test true = at
        by_test false = record {
          same_names = at.same_names;
          trail = rw own (send_payload-GroupTrail os e phase c.payload w stays eight holds at);
        }

    pub group_send_enable-At :
        (os : Bytes → SendOutcome) (e : DamiaoFeedbackEndpoint F) (w : MotorGroupMitWriter)
        → Member e p.endpoints
        → GroupAt enabling w
        → GroupAt enabling (group_send_enable os e.motor_name w).1
    unfolding group_send_enable
    group_send_enable-At os e w m at = record {
      same_names = at.same_names;
      trail =
          send_payload-GroupTrail os e enabling enable_payload w
            (λ id frame wire known for old.
              GroupTrail.enabled
                (record { endpoint = e; member = m; id = id; addressed = known; for = for }) old)
            refl refl at;
    }

    pub group_send_disable-At :
        (os : Bytes → SendOutcome) (e : DamiaoFeedbackEndpoint F) (w : MotorGroupMitWriter)
        → Member e p.endpoints
        → GroupAt stopping w
        → GroupAt stopping (group_send_disable os e.motor_name w).1
    unfolding group_send_disable
    group_send_disable-At os e w m at = record {
      same_names = at.same_names;
      trail =
          send_payload-GroupTrail os e stopping disable_payload w
            (λ id frame wire known for old.
              GroupTrail.disabled
                (record { endpoint = e; member = m; id = id; addressed = known; for = for }) old)
            refl refl at;
    }
