-- ===== src/SingleJointHold/Supervise.antt =====
-- src/open_sprite_runtime/single_joint_hold.py: the `try` and `finally` blocks that the hold and the
-- motion share.
use text.Mathlib.Text.{◌==◌ as str_eq}
use open_sprite_runtime.Prelude.{
  ℕ, zero, suc, ◌+◌, Bool, true, false, not, ◌&&◌, ◌||◌, String, Option, none, some, List, [], ◌∷◌,
  ◌++◌, ltb, leb, if◌then◌else◌,
}
use open_sprite_runtime.Prelude.Result.{Result, ok, err, runtime_error, require, raise_if, in_turn}
use open_sprite_runtime.Prelude.Action.{Action, pure, lift, reads, modify, ◌>>=◌, ◌>>◌}
use open_sprite_runtime.Float.{FloatOps, zero_float}
use open_sprite_runtime.SocketCan.MitWriter.{SingleMotorMitWriter}
use open_sprite_runtime.Damiao.Command.{
  DamiaoMitCommand, DamiaoMitState, DamiaoMitCommandEnvelope, validate_command, validate_state,
  validate_envelope, encode_damiao_mit_command,
}
use open_sprite_runtime.SingleJointHold.Session.{
  Exchange, ShutdownRound, receive_selected, Tick, Session, Plan, Hold, begun, max_float, max_of,
  min_of, max_count, send_command, send_enable, send_disable, echo,
}
use open_sprite_runtime.Damiao.Decode.{DamiaoFeedback}

module _ (F : FloatOps) (p : Plan F) where
  abbrev pub envelope : DamiaoMitCommandEnvelope F
  envelope = record {
    position_rad = p.soft;
    maximum_velocity_rad_s = p.maximum_velocity_rad_s;
    maximum_feedforward_torque_nm = p.maximum_torque_nm;
    maximum_output_torque_nm = p.maximum_torque_nm;
  }

  -- The largest values that `accept` keeps, before its guards.
  abbrev pub observed : F.Carrier → DamiaoFeedback F → Hold F → Hold F
  observed target f s = record s {
    max_error = max_float F s.max_error (F.abs (F.sub target f.position_rad));
    max_velocity = max_float F s.max_velocity (F.abs f.velocity_rad_s);
    max_torque = max_float F s.max_torque (F.abs f.estimated_output_torque_nm);
    max_mos = max_count F s.max_mos f.mos_temperature_c;
    max_rotor = max_count F s.max_rotor f.rotor_temperature_c;
    measured_minimum = some (min_of F s.measured_minimum f.position_rad);
    measured_maximum = some (max_of F s.measured_maximum f.position_rad);
    final_measured = some f.position_rad;
  }

  unfoldable pub guards : F.Carrier → DamiaoFeedback F → Result (Unit {0})
  guards target f = in_turn (
      raise_if (F.ltb p.maximum_position_error_rad (F.abs (F.sub target f.position_rad)))
        (runtime_error "position-error guard tripped")
      ∷ raise_if (F.ltb p.maximum_velocity_rad_s (F.abs f.velocity_rad_s))
          (runtime_error "velocity guard tripped")
      ∷ raise_if (F.ltb p.maximum_torque_nm (F.abs f.estimated_output_torque_nm))
          (runtime_error "torque guard tripped")
      ∷ raise_if (leb p.mos_temperature_limit_c f.mos_temperature_c)
          (runtime_error "MOS-temperature guard tripped")
      ∷ raise_if (leb p.rotor_temperature_limit_c f.rotor_temperature_c)
          (runtime_error "rotor-temperature guard tripped")
      ∷ [])

  unfoldable pub accept : F.Carrier → DamiaoFeedback F → Action (Hold F) (Unit {0})
  unfolding guards
  accept target f = do
    modify (λ s. record s { feedback_count = suc s.feedback_count })
    lift (require (str_eq f.status_name "enabled") (runtime_error "status must be enabled"))
    modify (observed target f)
    lift (guards target f)

  abbrev pub measured_of : DamiaoFeedback F → DamiaoMitState F
  measured_of f = record { position_rad = f.position_rad; velocity_rad_s = f.velocity_rad_s }

  abbrev pub command_of : F.Carrier → F.Carrier → DamiaoMitCommand F
  command_of position velocity = record {
    position_rad = position;
    velocity_rad_s = velocity;
    kp = p.kp;
    kd = p.kd;
    feedforward_torque_nm = zero_float F;
  }

  -- One command of the control loop and the feedback to it.
  unfoldable pub cycle :
      F.Carrier × F.Carrier → DamiaoFeedback F → Exchange → Action (Hold F) (DamiaoFeedback F)
  unfolding validate_state validate_command encode_damiao_mit_command send_command receive_selected
      accept
  cycle (position, velocity) prepared x = do
    lift (validate_state F (measured_of prepared))
    lift (validate_command F (command_of position velocity))
    encoded ← lift (
        encode_damiao_mit_command F p.endpoint (command_of position velocity) (measured_of prepared)
          envelope)
    send_command F x.os encoded
    modify (λ s. record s { command_count = suc s.command_count })
    feedback ← lift (receive_selected F p.endpoint x.receipts)
    accept position feedback
    pure feedback

  -- The control loop, from the time of its next command and the latest feedback. A pass that comes
  -- too early sleeps.
  unfoldable pub control :
      (initial start next : F.Carrier)
      → DamiaoFeedback F
      → List (Tick F)
      → Action (Hold F) (Unit {0})
  unfolding cycle
  control initial start next prepared [] = pure tt
  control initial start next prepared (t ∷ rest) =
      let skip = control initial start next prepared rest in
      let go = λ (feedback : DamiaoFeedback F).
        control initial start (F.add next p.period) feedback rest in
      if F.ltb t.now_s next
      then skip
      else (cycle (p.target_at initial (F.sub t.now_s start)) prepared t.exchange >>= go)

  -- The body of the `try` block.
  unfoldable pub body : Session F → Action (Hold F) (Unit {0})
  unfolding echo validate_envelope send_enable control
  body session = do
    initial ← echo F p.endpoint (zero_float F) session.probe
    lift (require (str_eq initial.status_name "disabled") (runtime_error "must be disabled"))
    modify (λ s. record s { initial_position = some initial.position_rad })
    lift (p.check_start initial.position_rad)
    prepared ← echo F p.endpoint initial.position_rad session.prepare
    lift (
        require (str_eq prepared.status_name "disabled")
          (runtime_error "changed status during zero-gain preparation"))
    lift (validate_envelope F envelope)
    send_enable F session.enable_os
    control initial.position_rad session.start_s session.start_s prepared session.ticks

  -- `except BaseException as exc: errors.append(str(exc))`
  abbrev pub recorded : Result (Unit {0}) × Hold F → Hold F
  recorded (ok _, s) = s
  recorded (err x, s) = record s { errors = s.errors ++ x ∷ [] }

  abbrev pub poll_position : Option F.Carrier → F.Carrier
  poll_position none = zero_float F
  poll_position (some position) = position

  abbrev pub is_disabled : Option String → Bool
  is_disabled none = false
  is_disabled (some status) = str_eq status "disabled"

  -- `writer.disable_attempts >= 3 and final_status == "disabled"`
  abbrev pub breaks : Action (Hold F) Bool
  breaks = reads (λ s. ok (leb 3 s.writer.disable_attempts && is_disabled s.final_status))

  -- One round of the shutdown: whether it breaks off the loop.
  unfoldable pub shutdown_round : F.Carrier → ShutdownRound → Action (Hold F) Bool
  unfolding send_disable echo
  shutdown_round position r = do
    send_disable F r.disable_os
    final ← echo F p.endpoint position r.poll
    modify (λ s. record s {
      final_status = some final.status_name;
      final_measured = some final.position_rad;
    })
    breaks

  -- A round that raised goes on like one that does not break.
  abbrev pub next_round : (Hold F → Hold F) → Result Bool × Hold F → Hold F
  next_round later (ok true, s) = s
  next_round later (ok false, s) = later s
  next_round later (err x, s) = later s

  -- The loop of the `finally` block, from its `attempts`-th round. Behind the last of `rounds` the
  -- clock has passed the deadline.
  unfoldable pub shutdown :
      (ℕ → ShutdownRound) → F.Carrier → (rounds attempts : ℕ) → Hold F → Hold F
  unfolding shutdown_round
  shutdown script position zero attempts s = s
  shutdown script position (suc rounds) attempts s =
      let later = shutdown script position rounds (suc attempts) in
      if ltb attempts 3 || not (is_disabled s.final_status)
      then next_round later (shutdown_round position (script attempts) s)
      else s

  abbrev pub verified : Hold F → Hold F
  verified s = if is_disabled s.final_status then s else record s {
    errors = s.errors ++ runtime_error "final disabled verification timed out" ∷ [];
  }

  -- The `finally` block.
  unfoldable pub shut_down : Session F → Hold F → Hold F
  unfolding shutdown
  shut_down session s =
      verified
        (shutdown session.shutdown (poll_position s.initial_position) (3 + session.further) 0 s)

  -- The run behind the checks of its arguments.
  unfoldable pub supervise : Session F → SingleMotorMitWriter → Hold F
  unfolding body shut_down
  supervise session writer = shut_down session (recorded (body session (begun F writer)))
