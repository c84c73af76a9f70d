-- ===== src/MotorGroupHold/Order.antt =====
-- src/open_sprite_runtime/motor_group_hold.py: the frames of the `try` block of a group run.
use text.Mathlib.Text.{◌==◌ as str_eq}
use open_sprite_runtime.Prelude.{
  ℕ, ◌≡◌, refl, ◌&&◌, String, List, [], ◌∷◌, inl, inr, length, Member,
}
use open_sprite_runtime.Prelude.Result.{require, runtime_error}
use open_sprite_runtime.Prelude.Action.{
  Action, After-always, Leads, >>=-Leads, lift-Leads, last-Leads, modify-Leads, pure-Leads,
  reads-Leads, last_modify-Leads,
}
use open_sprite_runtime.Bytes.{Bytes}
use open_sprite_runtime.Float.{FloatOps, zero_float, ratio}
use open_sprite_runtime.SocketCan.Writer.{SendOutcome}
use open_sprite_runtime.SocketCan.MitWriter.{bump}
use open_sprite_runtime.SocketCan.GroupWire.{IsStandard}
use open_sprite_runtime.Damiao.Encoded.{EncodedDamiaoMitCommand}
use open_sprite_runtime.Damiao.Command.{DamiaoFeedbackEndpoint, encode_zero_gain_position_echo}
use open_sprite_runtime.Damiao.Decode.{DamiaoFeedback}
use open_sprite_runtime.SingleJointHold.Session.{Exchange}
use open_sprite_runtime.SingleJointHold.Calls.{encode_zero_gain_position_echo-eq-ok}
use open_sprite_runtime.Dict.{set, item}
use open_sprite_runtime.MotorGroupHold.Session.{
  each, GroupSession, GroupPlan, GroupHold, command_motor, enable_motor, receive_endpoint,
  group_echo,
}
use open_sprite_runtime.MotorGroupHold.Supervise.{
  group_observed, group_guards, group_accept, probe, prepare,
}
use open_sprite_runtime.MotorGroupHold.Trail.{
  GroupPhase, polling, enabling, driving, IsMemberEcho, GroupTrail, GroupAt, Stays,
  group_send_command-At, group_send_enable-At,
}

module _ (F : FloatOps) (p : GroupPlan F) (names : List (String × ℕ))
    (standard : IsStandard names) where
  -- The writer's frames are those of a phase.
  abbrev pub InGroupPhase : GroupPhase → GroupHold F → Type 0
  InGroupPhase phase s = GroupAt F p names phase s.writer

  -- The frames are those of some phase.
  abbrev pub InSomePhase : GroupHold F → Type 0
  InSomePhase s = (phase : GroupPhase) × InGroupPhase phase s

  pub command_motor-InGroupPhase :
      (os : Bytes → SendOutcome) {P : Bytes → Type 0} (e : DamiaoFeedbackEndpoint F)
      (phase : GroupPhase) (c : EncodedDamiaoMitCommand)
      → Stays F p names e P phase
      → (c.motor_name ≡ e.motor_name) × (length c.payload ≡ 8)
      → P c.payload
      → Leads (InGroupPhase phase) (InGroupPhase phase) InSomePhase (command_motor F os c)
  unfolding command_motor
  command_motor-InGroupPhase os e phase c stays form holds = record {
    leads = λ s at.
        let now =
          group_send_command-At F p names standard os e phase c s.writer stays form.0 form.1 holds
            at in
        After-always (InGroupPhase phase) InSomePhase _ _ now (phase, now);
  }

  -- A poll.
  pub group_echo-InGroupPhase :
      (e : DamiaoFeedbackEndpoint F) (phase : GroupPhase) (position : F.Carrier) (x : Exchange)
      → Stays F p names e (IsMemberEcho F p names e) phase
      → Leads (InGroupPhase phase) (InGroupPhase phase) InSomePhase (group_echo F e position x)
  unfolding group_echo
  group_echo-InGroupPhase e phase position x stays =
      lift-Leads (encode_zero_gain_position_echo F e position) _ (λ s at. (phase, at))
        λ c made.
          >>=-Leads (command_motor F x.os c) _
            (command_motor-InGroupPhase x.os e phase c stays
              (encode_zero_gain_position_echo-eq-ok F e position made)
              (record { position = position; encoded = c; echoes = made; same = refl }))
            λ done.
              last-Leads (receive_endpoint F e x.receipts) (λ s at. (phase, at)) (λ f got s at. at)

  -- What keeps a phase for every motor of the group keeps it for the group.
  pub each-InGroupPhase :
      (f : DamiaoFeedbackEndpoint F → Action (GroupHold F) (Unit {0})) (phase : GroupPhase)
      (es : List (DamiaoFeedbackEndpoint F))
      → ((e : DamiaoFeedbackEndpoint F)
          → Member e es
          → Leads (InGroupPhase phase) (InGroupPhase phase) InSomePhase (f e))
      → Leads (InGroupPhase phase) (InGroupPhase phase) InSomePhase (each f es)
  unfolding each
  each-InGroupPhase f phase [] h = pure-Leads tt (λ s at. at)
  each-InGroupPhase f phase (e ∷ rest) h =
      >>=-Leads (f e) _ (h e (inl refl)) λ done. each-InGroupPhase f phase rest (λ x m. h x (inr m))

  pub probe-InGroupPhase :
      (session : GroupSession F) (e : DamiaoFeedbackEndpoint F)
      → Member e p.endpoints
      → Leads (InGroupPhase polling) (InGroupPhase polling) InSomePhase (probe F p session e)
  unfolding probe
  probe-InGroupPhase session e m =
      >>=-Leads (group_echo F e (zero_float F) (session.probes e.motor_name)) _
        (group_echo-InGroupPhase e polling (zero_float F) (session.probes e.motor_name)
          (λ id frame wire known for old.
            GroupTrail.polled
              (record { endpoint = e; member = m; id = id; addressed = known; for = for }) old))
        λ feedback.
          lift-Leads
            (require (str_eq feedback.status_name "disabled") (runtime_error "must start disabled"))
            _ fail
            λ a h.
              modify-Leads {M = InGroupPhase polling}
                (λ s. record s {
                  initial_positions = set s.initial_positions e.motor_name feedback.position_rad;
                })
                _ (λ s at. at)
                (lift-Leads (item p.soft_position_rad e.motor_name) _ fail λ soft found.
                  lift-Leads
                    (require
                      (F.leb (F.add soft.low (ratio F 5 100)) feedback.position_rad
                        && F.leb feedback.position_rad (F.sub soft.high (ratio F 5 100)))
                      (runtime_error "lacks soft-limit margin"))
                    _ fail
                    λ a h2.
                      last_modify-Leads
                        (λ s. record s {
                          targets = set s.targets e.motor_name feedback.position_rad;
                          latest = set s.latest e.motor_name feedback;
                        })
                        (λ s at. at))
    where
      fail : (s : GroupHold F) → InGroupPhase polling s → InSomePhase s
      fail s at = (polling, at)

  pub prepare-InGroupPhase :
      (session : GroupSession F) (e : DamiaoFeedbackEndpoint F)
      → Member e p.endpoints
      → Leads (InGroupPhase polling) (InGroupPhase polling) InSomePhase (prepare F p session e)
  unfolding prepare
  prepare-InGroupPhase session e m =
      reads-Leads (λ s. item s.targets e.motor_name) _ (λ s at. (polling, at))
        λ target.
          >>=-Leads (group_echo F e target (session.prepares e.motor_name)) _
            (group_echo-InGroupPhase e polling target (session.prepares e.motor_name)
              (λ id frame wire known for old.
                GroupTrail.polled
                  (record { endpoint = e; member = m; id = id; addressed = known; for = for }) old))
            λ prepared.
              lift-Leads
                (require (str_eq prepared.status_name "disabled")
                  (runtime_error "changed status during preparation"))
                _ (λ s at. (polling, at))
                λ a h.
                  last_modify-Leads (λ s. record s { latest = set s.latest e.motor_name prepared })
                    (λ s at. at)

  pub enable_motor-InGroupPhase :
      (os : Bytes → SendOutcome) (e : DamiaoFeedbackEndpoint F)
      → Member e p.endpoints
      → Leads
          (InGroupPhase enabling)
          (InGroupPhase enabling)
          InSomePhase
          (enable_motor F os e.motor_name)
  unfolding enable_motor
  enable_motor-InGroupPhase os e m = record {
    leads = λ s at.
        let now = group_send_enable-At F p names standard os e s.writer m at in
        After-always (InGroupPhase enabling) InSomePhase _ _ now (enabling, now);
  }

  pub driving_fails : (s : GroupHold F) → InGroupPhase driving s → InSomePhase s
  driving_fails s at = (driving, at)

  pub group_accept-InGroupPhase :
      (f : DamiaoFeedback F)
      → Leads (InGroupPhase driving) (InGroupPhase driving) InSomePhase (group_accept F p f)
  unfolding group_accept
  group_accept-InGroupPhase f =
      modify-Leads {M = InGroupPhase driving}
        (λ s. record s { feedback_count = bump s.feedback_count f.motor_name }) _ (λ s at. at)
        (lift-Leads
          (require (str_eq f.status_name "enabled") (runtime_error "status must be enabled")) _
          driving_fails
          λ a h.
            reads-Leads (λ s. item s.targets f.motor_name) _ driving_fails
              λ target.
                modify-Leads {M = InGroupPhase driving}
                  (group_observed F p (F.sub target f.position_rad) f) _ (λ s at. at)
                  (lift-Leads (item p.feedback_torque_guard f.motor_name) _ driving_fails
                    λ guard h2.
                      last-Leads (group_guards F p (F.sub target f.position_rad) guard f)
                        driving_fails (λ a h3 s at. at)))
