-- ===== src/SingleJointHold/Guards.antt =====
-- src/open_sprite_runtime/single_joint_hold.py: what a run without errors has observed.
use text.Mathlib.Text.{◌==◌ as str_eq}
use open_sprite_runtime.Prelude.{
  ℕ, suc, ◌<◌, ◌≡◌, refl, false, some, List, [], ◌∷◌, arith, Bool-cases, inl, inr, leb,
}
use open_sprite_runtime.Prelude.Result.{Result, ok, err, require, runtime_error, raise_if-eq-ok}
use open_sprite_runtime.Prelude.Action.{
  Action, After, After-always, Leads, >>=-Leads, lift-Leads, last-Leads, modify-Leads, pure-Leads,
}
use open_sprite_runtime.Bytes.{Bytes}
use open_sprite_runtime.Float.{FloatOps, zero_float}
use open_sprite_runtime.SocketCan.MitWriter.{SingleMotorMitWriter}
use open_sprite_runtime.SocketCan.Writer.{SendOutcome}
use open_sprite_runtime.Damiao.Encoded.{EncodedDamiaoMitCommand}
use open_sprite_runtime.Damiao.Command.{
  encode_damiao_mit_command, encode_zero_gain_position_echo, validate_state, validate_command,
  validate_envelope,
}
use open_sprite_runtime.Damiao.Decode.{DamiaoFeedback}
use open_sprite_runtime.SingleJointHold.Session.{
  Exchange, Session, Plan, Tick, Hold, receive_selected, send_command, send_enable, echo, max_float,
  max_count,
}
use open_sprite_runtime.SingleJointHold.Supervise.{
  envelope, body, observed, guards, accept, measured_of, command_of, cycle, control,
}

module _ (F : FloatOps) (p : Plan F) where
  -- No largest value exceeds its limit, and the temperatures are below theirs.
  pub record Within (s : Hold F) : Type 0 where
    pub close : F.ltb p.maximum_position_error_rad s.max_error ≡ false
    pub slow : F.ltb p.maximum_velocity_rad_s s.max_velocity ≡ false
    pub weak : F.ltb p.maximum_torque_nm s.max_torque ≡ false
    pub cool_mos : s.max_mos < p.mos_temperature_limit_c
    pub cool_rotor : s.max_rotor < p.rotor_temperature_limit_c

  -- Limits that zero keeps.
  pub record AreLimits : Type 0 where
    pub close : F.ltb p.maximum_position_error_rad (zero_float F) ≡ false
    pub slow : F.ltb p.maximum_velocity_rad_s (zero_float F) ≡ false
    pub weak : F.ltb p.maximum_torque_nm (zero_float F) ≡ false
    pub cool_mos : 0 < p.mos_temperature_limit_c
    pub cool_rotor : 0 < p.rotor_temperature_limit_c

  abbrev pub Anything : Hold F → Type 0
  Anything s = Unit

  max_float-keeps :
      (limit a b : F.Carrier)
      → F.ltb limit a ≡ false
      → F.ltb limit b ≡ false
      → F.ltb limit (max_float F a b) ≡ false
  max_float-keeps limit a b h k = elim (Bool-cases (F.ltb a b)) [
    | inl more ↦ rw more k
    | inr same ↦ rw same h
  ]

  max_count-keeps : (limit a b : ℕ) → a < limit → leb limit b ≡ false → max_count F a b < limit
  max_count-keeps limit a b h k = ground arith

  observed-Within :
      (target : F.Carrier) (f : DamiaoFeedback F) (s : Hold F) {u : Unit {0}}
      → Within s
      → guards F p target f ≡ ok u
      → Within (observed F p target f s)
  unfolding guards
  observed-Within target f s w h =
      let (near, h1) =
        raise_if-eq-ok (F.ltb p.maximum_position_error_rad (F.abs (F.sub target f.position_rad))) _
          _ h in
      let (slow, h2) =
        raise_if-eq-ok (F.ltb p.maximum_velocity_rad_s (F.abs f.velocity_rad_s)) _ _ h1 in
      let (weak, h3) =
        raise_if-eq-ok (F.ltb p.maximum_torque_nm (F.abs f.estimated_output_torque_nm)) _ _ h2 in
      let (mos, h4) = raise_if-eq-ok (leb p.mos_temperature_limit_c f.mos_temperature_c) _ _ h3 in
      let (rotor, h5) =
        raise_if-eq-ok (leb p.rotor_temperature_limit_c f.rotor_temperature_c) _ _ h4 in
      record {
        close = max_float-keeps _ s.max_error _ w.close near;
        slow = max_float-keeps _ s.max_velocity _ w.slow slow;
        weak = max_float-keeps _ s.max_torque _ w.weak weak;
        cool_mos = max_count-keeps _ s.max_mos _ w.cool_mos mos;
        cool_rotor = max_count-keeps _ s.max_rotor _ w.cool_rotor rotor;
      }

  abbrev pub Stays : {A : Type 0} → Action (Hold F) A → Type 0
  Stays m = Leads Within Within Anything m

  any_state : (s : Hold F) → Within s → Anything s
  any_state s w = tt

  -- A predicate that the writer's state does not matter to.
  abbrev pub IsOfLocals : (Hold F → Type 0) → Type 0
  IsOfLocals T = (s : Hold F) (w : SingleMotorMitWriter) → T s → T (record s { writer = w })

  module _ (T Q : Hold F → Type 0) (of_locals : IsOfLocals T)
      (weaken : (s : Hold F) → T s → Q s) where
    send_command-Leads :
        (os : Bytes → SendOutcome) (c : EncodedDamiaoMitCommand) → Leads T T Q (send_command F os c)
    unfolding send_command
    send_command-Leads os c = record {
      leads = λ s t.
          let now = of_locals s (send_command F os c s).1.writer t in
          After-always T Q _ _ now (weaken _ now);
    }

    pub echo-Leads :
        (position : F.Carrier) (x : Exchange) → Leads T T Q (echo F p.endpoint position x)
    unfolding echo
    echo-Leads position x =
        lift-Leads (encode_zero_gain_position_echo F p.endpoint position) _ weaken λ c e.
          >>=-Leads (send_command F x.os c) _ (send_command-Leads x.os c)
            λ done. last-Leads (receive_selected F p.endpoint x.receipts) weaken (λ a e2 s t. t)

  pub Within-record : IsOfLocals Within
  Within-record s u w = record {
    close = w.close;
    slow = w.slow;
    weak = w.weak;
    cool_mos = w.cool_mos;
    cool_rotor = w.cool_rotor;
  }

  send_enable-Stays : (os : Bytes → SendOutcome) → Stays (send_enable F os)
  unfolding send_enable
  send_enable-Stays os = record {
    leads = λ s w. After-always Within Anything _ _ (Within-record s _ w) tt;
  }

  -- What is accepted has been observed before its guards, so the observed values are within the
  -- limits only if the guards pass.
  accept-Stays : (target : F.Carrier) (f : DamiaoFeedback F) → Stays (accept F p target f)
  unfolding accept
  accept-Stays target f =
      modify-Leads {M = Within} (λ s. record s { feedback_count = suc s.feedback_count }) _
        (λ s w. record {
          close = w.close;
          slow = w.slow;
          weak = w.weak;
          cool_mos = w.cool_mos;
          cool_rotor = w.cool_rotor;
        })
        (lift-Leads
          (require (str_eq f.status_name "enabled") (runtime_error "status must be enabled")) _
          any_state
          λ a e. record {
            leads = λ s w. guarded (guards F p target f) s (λ a e. observed-Within target f s w e);
          })
    where
      guarded :
          (r : Result (Unit {0})) (s : Hold F)
          → ((u : Unit {0}) → r ≡ ok u → Within (observed F p target f s))
          → After Within Anything (r, observed F p target f s)
      guarded (ok u) s h = h u refl
      guarded (err x) s h = tt

  cycle-Stays :
      (target : F.Carrier × F.Carrier) (f : DamiaoFeedback F) (x : Exchange)
      → Stays (cycle F p target f x)
  unfolding cycle
  cycle-Stays (position, velocity) f x =
      lift-Leads (validate_state F (measured_of F p f)) _ any_state λ a e0.
        lift-Leads (validate_command F (command_of F p position velocity)) _ any_state λ a e1.
          lift-Leads
            (encode_damiao_mit_command F p.endpoint (command_of F p position velocity)
              (measured_of F p f) (envelope F p))
            _ any_state
            λ c e.
              >>=-Leads (send_command F x.os c) _
                (send_command-Leads Within Anything Within-record any_state x.os c)
                λ done.
                  modify-Leads {M = Within} (λ s. record s { command_count = suc s.command_count })
                    _
                    (λ s w. record {
                      close = w.close;
                      slow = w.slow;
                      weak = w.weak;
                      cool_mos = w.cool_mos;
                      cool_rotor = w.cool_rotor;
                    })
                    (lift-Leads (receive_selected F p.endpoint x.receipts) _ any_state
                      λ feedback e3.
                        >>=-Leads (accept F p position feedback) _ (accept-Stays position feedback)
                          λ done. pure-Leads feedback (λ s w. w))

  control-Stays :
      (initial start next : F.Carrier) (f : DamiaoFeedback F) (ticks : List (Tick F))
      → Stays (control F p initial start next f ticks)
  unfolding control
  control-Stays initial start next f [] = pure-Leads tt (λ s w. w)
  control-Stays initial start next f (t ∷ rest) = elim (Bool-cases (F.ltb t.now_s next)) [
    | inl early ↦ rw early (control-Stays initial start next f rest)
    | inr due ↦ rw due (
        >>=-Leads (cycle F p (p.target_at initial (F.sub t.now_s start)) f t.exchange) _
          (cycle-Stays (p.target_at initial (F.sub t.now_s start)) f t.exchange)
          λ feedback. control-Stays initial start (F.add next p.period) feedback rest)
  ]

  pub body-Stays : (session : Session F) → Stays (body F p session)
  unfolding body
  body-Stays session =
      >>=-Leads (echo F p.endpoint (zero_float F) session.probe) _
        (echo-Leads Within Anything Within-record any_state (zero_float F) session.probe)
        λ initial.
          lift-Leads
            (require (str_eq initial.status_name "disabled") (runtime_error "must be disabled")) _
            any_state
            λ a e.
              modify-Leads {M = Within}
                (λ s. record s { initial_position = some initial.position_rad }) _
                (λ s w. record {
                  close = w.close;
                  slow = w.slow;
                  weak = w.weak;
                  cool_mos = w.cool_mos;
                  cool_rotor = w.cool_rotor;
                })
                (lift-Leads (p.check_start initial.position_rad) _ any_state λ a e2.
                  >>=-Leads (echo F p.endpoint initial.position_rad session.prepare) _
                    (echo-Leads Within Anything Within-record any_state initial.position_rad
                      session.prepare)
                    λ prepared.
                      lift-Leads
                        (require (str_eq prepared.status_name "disabled")
                          (runtime_error "changed status during zero-gain preparation"))
                        _ any_state
                        λ a e3. lift-Leads (validate_envelope F (envelope F p)) _ any_state λ a e4.
                          >>=-Leads (send_enable F session.enable_os) _
                            (send_enable-Stays session.enable_os)
                            λ done.
                              control-Stays initial.position_rad session.start_s session.start_s
                                prepared session.ticks)
