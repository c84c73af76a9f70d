-- ===== src/MotorGroupHold/Drive.antt =====
-- src/open_sprite_runtime/motor_group_hold.py: the frames of the control loop and of the `try` block of a group run.
use open_sprite_runtime.Prelude.{ℕ, ◌≡◌, refl, String, List, [], ◌∷◌, inl, inr, Bool-cases, Member}
use open_sprite_runtime.Prelude.Result.{Result, ok, err}
use open_sprite_runtime.Prelude.Action.{
  Action, After, Leads, >>=-Leads, lift-Leads, modify-Leads, pure-Leads, reads-Leads,
  last_modify-Leads,
}
use open_sprite_runtime.Float.{FloatOps}
use open_sprite_runtime.SocketCan.MitWriter.{bump, MotorGroupMitWriter}
use open_sprite_runtime.SocketCan.GroupWire.{IsStandard}
use open_sprite_runtime.Damiao.Encoded.{EncodedDamiaoMitCommand}
use open_sprite_runtime.Damiao.Command.{
  Range, DamiaoFeedbackEndpoint, encode_damiao_mit_command, validate_state, validate_command,
  validate_envelope, estimated_output_torque,
}
use open_sprite_runtime.Damiao.Decode.{DamiaoFeedback}
use open_sprite_runtime.Damiao.Bounded.{encode_damiao_mit_command-bounded}
use open_sprite_runtime.SingleJointHold.Session.{Exchange, max_float}
use open_sprite_runtime.SingleJointHold.Calls.{encode_damiao_mit_command-eq-ok}
use open_sprite_runtime.Dict.{set, adjust, item}
use open_sprite_runtime.MotorGroupHold.Session.{
  each, GroupTick, GroupSession, GroupPlan, GroupHold, command_motor, enable_motor,
  receive_endpoint,
}
use open_sprite_runtime.MotorGroupHold.Supervise.{
  group_accept, probe, prepare, group_envelope, state_of, hold_command, group_cycle, next_cycle,
  group_control, group_body,
}
use open_sprite_runtime.MotorGroupHold.Trail.{
  GroupPhase, polling, enabling, driving, IsMemberHold, GroupTrail, GroupAt,
}
use open_sprite_runtime.MotorGroupHold.Order.{
  InGroupPhase, InSomePhase, command_motor-InGroupPhase, each-InGroupPhase, probe-InGroupPhase,
  prepare-InGroupPhase, enable_motor-InGroupPhase, driving_fails, group_accept-InGroupPhase,
}

module _ (F : FloatOps) (p : GroupPlan F) (names : List (String × ℕ))
    (standard : IsStandard names) where
  -- Every outcome of an action that keeps a phase.
  abbrev Drives : {A : Type 0} → Action (GroupHold F) A → Type 0
  Drives m =
      Leads (InGroupPhase F p names standard driving) (InGroupPhase F p names standard driving)
        (InSomePhase F p names standard) m

  abbrev fails :
      (s : GroupHold F)
      → InGroupPhase F p names standard driving s
      → InSomePhase F p names standard s
  fails = driving_fails F p names standard

  group_cycle-Drives :
      (exchanges : String → Exchange) (e : DamiaoFeedbackEndpoint F)
      → Member e p.endpoints
      → Drives (group_cycle F p exchanges e)
  unfolding group_cycle
  group_cycle-Drives exchanges e m =
      lift-Leads (item p.soft_position_rad e.motor_name) _ fails λ soft soft_of.
        lift-Leads (item p.maximum_torque_nm e.motor_name) _ fails λ torque torque_of.
          lift-Leads (validate_envelope F (group_envelope F p soft torque)) _ fails λ a h.
            reads-Leads (λ s. item s.latest e.motor_name) _ fails
              λ latest. lift-Leads (validate_state F (state_of F p latest)) _ fails λ a h2.
                reads-Leads (λ s. item s.targets e.motor_name) _ fails
                  λ target.
                    lift-Leads (validate_command F (hold_command F p target)) _ fails λ a h3.
                      lift-Leads
                        (encode_damiao_mit_command F e (hold_command F p target)
                          (state_of F p latest) (group_envelope F p soft torque))
                        _ fails
                        λ c made.
                          modify-Leads {M = InGroupPhase F p names standard driving}
                            (λ s. record s {
                              max_commanded_torque =
                                  adjust
                                    (λ old. max_float F old (
                                      F.abs (
                                        estimated_output_torque F (hold_command F p target)
                                          (state_of F p latest))))
                                    s.max_commanded_torque e.motor_name;
                            })
                            _ (λ s at. at)
                            (>>=-Leads (command_motor F (exchanges e.motor_name).os c) _
                              (sends soft torque latest target c soft_of torque_of made)
                              λ done.
                                modify-Leads {M = InGroupPhase F p names standard driving}
                                  (λ s. record s {
                                    command_count = bump s.command_count e.motor_name;
                                  })
                                  _ (λ s at. at)
                                  (lift-Leads
                                    (receive_endpoint F e (exchanges e.motor_name).receipts) _ fails
                                    λ feedback got.
                                      >>=-Leads (group_accept F p feedback) _
                                        (group_accept-InGroupPhase F p names standard feedback)
                                        λ done.
                                          last_modify-Leads
                                            (λ s. record s {
                                              latest = set s.latest e.motor_name feedback;
                                            })
                                            (λ s at. at)))
    where
      sends :
          (soft : Range F) (torque : F.Carrier) (latest : DamiaoFeedback F) (target : F.Carrier)
          (c : EncodedDamiaoMitCommand)
          → item p.soft_position_rad e.motor_name ≡ ok soft
          → item p.maximum_torque_nm e.motor_name ≡ ok torque
          → encode_damiao_mit_command F e
              (hold_command F p target)
              (state_of F p latest)
              (group_envelope F p soft torque)
            ≡ ok c
          → Drives (command_motor F (exchanges e.motor_name).os c)
      sends soft torque latest target c soft_of torque_of made =
          let (inside, _, _, weak) =
            encode_damiao_mit_command-bounded F e (hold_command F p target) (state_of F p latest)
              (group_envelope F p soft torque) made in
          command_motor-InGroupPhase F p names standard (exchanges e.motor_name).os
            {P = IsMemberHold F p names e} e driving c
            (λ id frame wire known for old.
              GroupTrail.commanded
                (record { endpoint = e; member = m; id = id; addressed = known; for = for }) old)
            (encode_damiao_mit_command-eq-ok F e _ _ _ made)
            (record {
              target = target;
              measured = state_of F p latest;
              encoded = c;
              soft = soft;
              torque = torque;
              soft_of = soft_of;
              torque_of = torque_of;
              encodes = made;
              same = refl;
              above = inside.0;
              below = inside.1;
              weak = weak;
            })

  group_control-Drives :
      (next : F.Carrier) (ticks : List (GroupTick F)) → Drives (group_control F p next ticks)
  unfolding group_control
  group_control-Drives next [] = pure-Leads tt (λ s at. at)
  group_control-Drives next (t ∷ rest) = elim (Bool-cases (F.ltb t.now_s next)) [
    | inl early ↦ rw early (group_control-Drives next rest)
    | inr due ↦ rw due (
        >>=-Leads (each (group_cycle F p t.exchanges) p.endpoints) _
          (each-InGroupPhase F p names standard (group_cycle F p t.exchanges) driving p.endpoints
            (group_cycle-Drives t.exchanges))
          λ done. group_control-Drives (next_cycle F p next t) rest)
  ]

  powers-At : (w : MotorGroupMitWriter) → GroupAt F p names polling w → GroupAt F p names enabling w
  powers-At w at = record { same_names = at.same_names; trail = GroupTrail.powers at.trail }

  drives-At : (w : MotorGroupMitWriter) → GroupAt F p names enabling w → GroupAt F p names driving w
  drives-At w at = record { same_names = at.same_names; trail = GroupTrail.drives at.trail }

  -- An action that keeps a phase leads to a later one.
  turns :
      {A : Type 0} (now later : GroupPhase) (m : Action (GroupHold F) A)
      → Leads
          (InGroupPhase F p names standard now)
          (InGroupPhase F p names standard now)
          (InSomePhase F p names standard)
          m
      → ((w : MotorGroupMitWriter) → GroupAt F p names now w → GroupAt F p names later w)
      → Leads
          (InGroupPhase F p names standard now)
          (InGroupPhase F p names standard later)
          (InSomePhase F p names standard)
          m
  turns {A} now later m h step = record { leads = λ s at. by_outcome (m s) (h.leads s at) }
    where
      by_outcome :
          (r : Result A × GroupHold F)
          → After (InGroupPhase F p names standard now) (InSomePhase F p names standard) r
          → After (InGroupPhase F p names standard later) (InSomePhase F p names standard) r
      by_outcome (ok a, s) at = step s.writer at
      by_outcome (err x, s) at = at

  -- The `try` block.
  pub group_body-Leads :
      (session : GroupSession F)
      → Leads
          (InGroupPhase F p names standard polling)
          (InGroupPhase F p names standard driving)
          (InSomePhase F p names standard)
          (group_body F p session)
  unfolding group_body
  group_body-Leads session =
      >>=-Leads (each (probe F p session) p.endpoints) _
        (each-InGroupPhase F p names standard (probe F p session) polling p.endpoints
          (probe-InGroupPhase F p names standard session))
        λ done.
          >>=-Leads (each (prepare F p session) p.endpoints) _
            (turns polling enabling (each (prepare F p session) p.endpoints)
              (each-InGroupPhase F p names standard (prepare F p session) polling p.endpoints
                (prepare-InGroupPhase F p names standard session))
              powers-At)
            λ done.
              >>=-Leads
                (each (λ e. enable_motor F (session.enables e.motor_name) e.motor_name) p.endpoints)
                _
                (turns enabling driving
                  (each (λ e. enable_motor F (session.enables e.motor_name) e.motor_name)
                    p.endpoints)
                  (each-InGroupPhase F p names standard
                    (λ e. enable_motor F (session.enables e.motor_name) e.motor_name) enabling
                    p.endpoints
                    (λ e m.
                      enable_motor-InGroupPhase F p names standard (session.enables e.motor_name) e
                        m))
                  drives-At)
                λ done. group_control-Drives session.start_s session.ticks
