-- ===== src/MotorGroupHold/Supervise.antt =====
-- src/open_sprite_runtime/motor_group_hold.py: the `try` and `finally` blocks of a group run.
use text.Mathlib.Text.{◌==◌ as str_eq}
use open_sprite_runtime.Prelude.{
  Bool, false, ◌&&◌, String, Option, none, some, List, [], ◌∷◌, ◌++◌, leb, if◌then◌else◌,
}
use open_sprite_runtime.Prelude.Result.{Result, ok, err, runtime_error, require, raise_if, in_turn}
use open_sprite_runtime.Prelude.Action.{Action, pure, lift, reads, modify, ◌>>=◌, ◌>>◌}
use open_sprite_runtime.Bytes.{Bytes}
use open_sprite_runtime.SocketCan.Writer.{SendOutcome}
use open_sprite_runtime.Float.{FloatOps, lit, ratio, zero_float}
use open_sprite_runtime.SocketCan.MitWriter.{get, bump, MotorGroupMitWriter}
use open_sprite_runtime.Damiao.Command.{
  Range, DamiaoFeedbackEndpoint, DamiaoMitCommand, DamiaoMitState, DamiaoMitCommandEnvelope,
  validate_command, validate_state, validate_envelope, encode_damiao_mit_command,
  estimated_output_torque,
}
use open_sprite_runtime.Damiao.Decode.{DamiaoFeedback}
use open_sprite_runtime.SingleJointHold.Session.{Exchange, ShutdownRound, max_float, max_count}
use open_sprite_runtime.Dict.{set, adjust, item}
use open_sprite_runtime.MotorGroupHold.Session.{
  each, GroupTick, GroupSession, GroupPlan, GroupHold, group_begun, command_motor, enable_motor,
  disable_motor, receive_endpoint, group_echo,
}

module _ (F : FloatOps) (p : GroupPlan F) where
  -- The largest values that `accept` keeps, before its guards.
  abbrev pub group_observed : F.Carrier → DamiaoFeedback F → GroupHold F → GroupHold F
  group_observed error f s = record s {
    max_error = adjust (λ old. max_float F old (F.abs error)) s.max_error f.motor_name;
    max_velocity =
        adjust (λ old. max_float F old (F.abs f.velocity_rad_s)) s.max_velocity f.motor_name;
    max_torque =
        adjust (λ old. max_float F old (F.abs f.estimated_output_torque_nm)) s.max_torque
          f.motor_name;
    max_mos = adjust (λ old. max_count F old f.mos_temperature_c) s.max_mos f.motor_name;
    max_rotor = adjust (λ old. max_count F old f.rotor_temperature_c) s.max_rotor f.motor_name;
  }

  unfoldable pub group_guards : F.Carrier → F.Carrier → DamiaoFeedback F → Result (Unit {0})
  group_guards error torque_guard f = in_turn (
      raise_if (F.ltb (ratio F 5 100) (F.abs error)) (runtime_error "position-error guard tripped")
      ∷ raise_if (F.ltb (ratio F 2 10) (F.abs f.velocity_rad_s))
          (runtime_error "velocity guard tripped")
      ∷ raise_if (F.ltb torque_guard (F.abs f.estimated_output_torque_nm))
          (runtime_error "torque guard tripped")
      ∷ raise_if (leb 100 f.mos_temperature_c) (runtime_error "MOS-temperature guard tripped")
      ∷ raise_if (leb 80 f.rotor_temperature_c) (runtime_error "rotor-temperature guard tripped")
      ∷ [])

  -- `accept`; the torque guard is read in the middle of the guards, and its key is always there.
  unfoldable pub group_accept : DamiaoFeedback F → Action (GroupHold F) (Unit {0})
  unfolding bump adjust item group_guards
  group_accept f = do
    modify (λ s. record s { feedback_count = bump s.feedback_count f.motor_name })
    lift (require (str_eq f.status_name "enabled") (runtime_error "status must be enabled"))
    target ← reads (λ s. item s.targets f.motor_name)
    modify (group_observed (F.sub target f.position_rad) f)
    guard ← lift (item p.feedback_torque_guard f.motor_name)
    lift (group_guards (F.sub target f.position_rad) guard f)

  -- A motor must be disabled and away from its soft limits.
  unfoldable pub probe : GroupSession F → DamiaoFeedbackEndpoint F → Action (GroupHold F) (Unit {0})
  unfolding group_echo set item
  probe session e = do
    feedback ← group_echo F e (zero_float F) (session.probes e.motor_name)
    lift (require (str_eq feedback.status_name "disabled") (runtime_error "must start disabled"))
    modify (λ s. record s {
      initial_positions = set s.initial_positions e.motor_name feedback.position_rad;
    })
    soft ← lift (item p.soft_position_rad e.motor_name)
    lift (
        require
          (F.leb (F.add soft.low (ratio F 5 100)) feedback.position_rad
            && F.leb feedback.position_rad (F.sub soft.high (ratio F 5 100)))
          (runtime_error "lacks soft-limit margin"))
    modify (λ s. record s {
      targets = set s.targets e.motor_name feedback.position_rad;
      latest = set s.latest e.motor_name feedback;
    })

  unfoldable pub prepare :
      GroupSession F → DamiaoFeedbackEndpoint F → Action (GroupHold F) (Unit {0})
  unfolding group_echo set item
  prepare session e = do
    target ← reads (λ s. item s.targets e.motor_name)
    prepared ← group_echo F e target (session.prepares e.motor_name)
    lift (
        require (str_eq prepared.status_name "disabled")
          (runtime_error "changed status during preparation"))
    modify (λ s. record s { latest = set s.latest e.motor_name prepared })

  abbrev pub group_envelope : Range F → F.Carrier → DamiaoMitCommandEnvelope F
  group_envelope soft torque = record {
    position_rad = soft;
    maximum_velocity_rad_s = ratio F 2 10;
    maximum_feedforward_torque_nm = torque;
    maximum_output_torque_nm = torque;
  }

  abbrev pub state_of : DamiaoFeedback F → DamiaoMitState F
  state_of f = record { position_rad = f.position_rad; velocity_rad_s = f.velocity_rad_s }

  abbrev pub hold_command : F.Carrier → DamiaoMitCommand F
  hold_command target = record {
    position_rad = target;
    velocity_rad_s = zero_float F;
    kp = ratio F 2 10;
    kd = ratio F 5 100;
    feedforward_torque_nm = zero_float F;
  }

  -- One command to one motor and the feedback to it.
  unfoldable pub group_cycle :
      (String → Exchange) → DamiaoFeedbackEndpoint F → Action (GroupHold F) (Unit {0})
  unfolding item set bump adjust validate_envelope validate_state validate_command
      encode_damiao_mit_command command_motor receive_endpoint group_accept
  group_cycle exchanges e = do
    soft ← lift (item p.soft_position_rad e.motor_name)
    torque ← lift (item p.maximum_torque_nm e.motor_name)
    lift (validate_envelope F (group_envelope soft torque))
    latest ← reads (λ s. item s.latest e.motor_name)
    lift (validate_state F (state_of latest))
    target ← reads (λ s. item s.targets e.motor_name)
    lift (validate_command F (hold_command target))
    command ← lift (
        encode_damiao_mit_command F e (hold_command target) (state_of latest)
          (group_envelope soft torque))
    modify (λ s. record s {
      max_commanded_torque =
          adjust
            (λ old.
              max_float F old
                (F.abs (estimated_output_torque F (hold_command target) (state_of latest))))
            s.max_commanded_torque e.motor_name;
    })
    command_motor F (exchanges e.motor_name).os command
    modify (λ s. record s { command_count = bump s.command_count e.motor_name })
    feedback ← lift (receive_endpoint F e (exchanges e.motor_name).receipts)
    group_accept feedback
    modify (λ s. record s { latest = set s.latest e.motor_name feedback })

  -- The time of the command after next: a pass that took longer than a period starts a new one.
  abbrev pub next_cycle : F.Carrier → GroupTick F → F.Carrier
  next_cycle next t =
      let later = F.add next (F.div (lit F 1) (lit F 50)) in
      if F.leb later t.after_s then F.add t.later_s (F.div (lit F 1) (lit F 50)) else later

  -- The control loop, from the time of its next command.
  unfoldable pub group_control : F.Carrier → List (GroupTick F) → Action (GroupHold F) (Unit {0})
  unfolding each group_cycle
  group_control next [] = pure tt
  group_control next (t ∷ rest) =
      let skip = group_control next rest in
      let go = group_control (next_cycle next t) rest in
      if F.ltb t.now_s next then skip else (each (group_cycle t.exchanges) p.endpoints >> go)

  -- The body of the `try` block.
  unfoldable pub group_body : GroupSession F → Action (GroupHold F) (Unit {0})
  unfolding each probe prepare enable_motor group_control
  group_body session = do
    each (probe session) p.endpoints
    each (prepare session) p.endpoints
    each (λ e. enable_motor F (session.enables e.motor_name) e.motor_name) p.endpoints
    group_control session.start_s session.ticks

  -- `except BaseException as exc: errors.append(...)`
  abbrev pub noted : Result (Unit {0}) × GroupHold F → GroupHold F
  noted (ok _, s) = s
  noted (err x, s) = record s { errors = s.errors ++ x ∷ [] }

  -- `except BaseException as exc: errors.append(f"... disable failed: {exc}")`
  abbrev pub noted_disable : Result (Unit {0}) × GroupHold F → GroupHold F
  noted_disable (ok _, s) = s
  noted_disable (err x, s) = record s { errors = s.errors ++ runtime_error "disable failed" ∷ [] }

  -- One of the three rounds that disable every motor.
  unfoldable pub disable_all :
      (String → Bytes → SendOutcome) → List (DamiaoFeedbackEndpoint F) → GroupHold F → GroupHold F
  unfolding disable_motor
  disable_all os [] s = s
  disable_all os (e ∷ rest) s =
      disable_all os rest (noted_disable (disable_motor F (os e.motor_name) e.motor_name s))

  -- `final_status[name] == "disabled"`
  abbrev pub is_off : Option (Option String) → Bool
  is_off none = false
  is_off (some none) = false
  is_off (some (some status)) = str_eq status "disabled"

  -- `targets.get(name, 0.0)`
  abbrev pub target_or : Option F.Carrier → F.Carrier
  target_or none = zero_float F
  target_or (some target) = target

  -- One round of the verification of a motor.
  unfoldable pub verification :
      DamiaoFeedbackEndpoint F → ShutdownRound → Action (GroupHold F) (Unit {0})
  unfolding get set disable_motor group_echo
  verification e r = do
    disable_motor F r.disable_os e.motor_name
    position ← reads (λ s. ok (target_or (get s.targets e.motor_name)))
    feedback ← group_echo F e position r.poll
    modify (λ s. record s {
      final_status = set s.final_status e.motor_name (some feedback.status_name);
    })

  -- The rounds that the clock leaves time for, until the motor is seen disabled.
  unfoldable pub verify : DamiaoFeedbackEndpoint F → List ShutdownRound → GroupHold F → GroupHold F
  unfolding get verification
  verify e [] s = s
  verify e (r ∷ rest) s =
      let later = verify e rest (verification e r s).1 in
      if is_off (get s.final_status e.motor_name) then s else later

  unfoldable pub confirmed : String → GroupHold F → GroupHold F
  unfolding get
  confirmed name s =
      if is_off (get s.final_status name)
      then s
      else record s { errors = s.errors ++ runtime_error "final disabled verification failed" ∷ [] }

  unfoldable pub verify_all :
      (String → List ShutdownRound) → List (DamiaoFeedbackEndpoint F) → GroupHold F → GroupHold F
  unfolding verify confirmed
  verify_all rounds [] s = s
  verify_all rounds (e ∷ rest) s =
      verify_all rounds rest (confirmed e.motor_name (verify e (rounds e.motor_name) s))

  -- The `finally` block.
  unfoldable pub finish : GroupSession F → GroupHold F → GroupHold F
  unfolding disable_all verify_all
  finish session s = verify_all session.verifications p.endpoints (
      disable_all (session.disables 2) p.endpoints (
        disable_all (session.disables 1) p.endpoints
          (disable_all (session.disables 0) p.endpoints s)))

  -- The run behind the checks of its arguments.
  unfoldable pub supervise_group : GroupSession F → MotorGroupMitWriter → GroupHold F
  unfolding group_body finish
  supervise_group session writer =
      finish session (noted (group_body session (group_begun F p.endpoints writer)))
