-- ===== src/SingleJointHold/Order.antt =====
-- src/open_sprite_runtime/single_joint_hold.py: the frames of the `try` block of a run.
use text.Mathlib.Text.{◌==◌ as str_eq}
use open_sprite_runtime.Prelude.{
  ℕ, suc, ◌≤◌, ◌≡◌, refl, some, List, [], ◌∷◌, ◌⊎◌, length, arith, Bool-cases, inl, inr,
}
use open_sprite_runtime.Prelude.Result.{Result, ok, err, require, runtime_error}
use open_sprite_runtime.Prelude.Action.{
  After, After-always, Leads, >>=-Leads, lift-Leads, last-Leads, modify-Leads, pure-Leads,
}
use open_sprite_runtime.Bytes.{Bytes}
use open_sprite_runtime.Float.{FloatOps, zero_float}
use open_sprite_runtime.SocketCan.MitWriter.{SingleMotorMitWriter}
use open_sprite_runtime.SocketCan.Writer.{SendOutcome}
use open_sprite_runtime.Damiao.Encoded.{EncodedDamiaoMitCommand}
use open_sprite_runtime.Damiao.Command.{
  encode_damiao_mit_command, encode_zero_gain_position_echo, validate_state, validate_command,
  validate_envelope,
}
use open_sprite_runtime.Damiao.Decode.{DamiaoFeedback}
use open_sprite_runtime.Damiao.Bounded.{encode_damiao_mit_command-bounded}
use open_sprite_runtime.SingleJointHold.Session.{
  Exchange, Session, Tick, Plan, Hold, receive_selected, send_command, send_enable, echo,
}
use open_sprite_runtime.SingleJointHold.Supervise.{
  envelope, observed, guards, accept, measured_of, command_of, cycle, control, body,
}
use open_sprite_runtime.SingleJointHold.Trail.{Phase, polling, powered, Trail}
use open_sprite_runtime.SingleJointHold.Calls.{
  At, Step, stops_of, send_command-After, send_enable-At, encode_zero_gain_position_echo-eq-ok,
  encode_damiao_mit_command-eq-ok,
}

module _ (F : FloatOps) (p : Plan F) (own : ℕ) (low : own ≤ 0x7ff) where
  -- The writer's frames are those of a phase.
  abbrev pub InPhase : Phase → Hold F → Type 0
  InPhase phase s = At F p.endpoint (envelope F p) own low phase s.writer

  -- The shutdown has not begun.
  abbrev pub IsOpen : Hold F → Type 0
  IsOpen s = ((n : ℕ) × InPhase (polling n) s) ⊎ InPhase powered s

  After-record :
      (R Q : Hold F → Type 0) (s : Hold F) (o : Result (Unit {0}) × SingleMotorMitWriter)
      → After (λ u. R (record s { writer = u })) (λ u. Q (record s { writer = u })) o
      → After R Q (o.0, record s { writer = o.1 })
  After-record R Q s (ok done, w) h = h
  After-record R Q s (err x, w) h = h

  -- A call of the writer and what it does to the locals.
  pub writing-Leads :
      (now later : Phase) (Q : Hold F → Type 0) (os : Bytes → SendOutcome) {P : Bytes → Type 0}
      (c : EncodedDamiaoMitCommand)
      → Step F p.endpoint (envelope F p) own low P now later
      → stops_of now ≤ stops_of later
      → length c.payload ≡ 8
      → P c.payload
      → ((s : Hold F) → InPhase now s → Q s)
      → ((s : Hold F) → InPhase later s → Q s)
      → Leads (InPhase now) (InPhase later) Q (send_command F os c)
  unfolding send_command
  writing-Leads now later Q os c step more eight holds weaken weaken_later = record {
    leads = λ s at. After-record (InPhase later) Q s _ (
        send_command-After F p.endpoint (envelope F p) own low os now later c s.writer
          {Q = λ u. Q (record s { writer = u })} step more eight holds (λ u h. weaken _ h)
          (λ u h. weaken_later _ h) at);
  }

  send_enable-Leads :
      (n : ℕ) (os : Bytes → SendOutcome)
      → Leads (InPhase (polling (suc (suc n)))) (InPhase powered) IsOpen (send_enable F os)
  unfolding send_enable
  send_enable-Leads n os = record {
    leads = λ s at.
        let done = send_enable-At F p.endpoint (envelope F p) own low os n s.writer at in
        After-always (InPhase powered) IsOpen _ _ done (inr done);
  }

  -- A poll: it is one frame, or the run stops before it.
  echo-Leads :
      (n : ℕ) (position : F.Carrier) (x : Exchange)
      → Leads
          (InPhase (polling n))
          (InPhase (polling (suc n)))
          IsOpen
          (echo F p.endpoint position x)
  unfolding echo
  echo-Leads n position x =
      lift-Leads (encode_zero_gain_position_echo F p.endpoint position) _ (λ s at. inl (n, at))
        λ c e.
          >>=-Leads (send_command F x.os c) _
            (writing-Leads (polling n) (polling (suc n)) IsOpen x.os c
              (λ frame wire for old. Trail.polled for old) (omega arith)
              ((encode_zero_gain_position_echo-eq-ok F p.endpoint position e).1)
              (record { position = position; encoded = c; echoes = e; same = refl })
              (λ s at. inl (n, at)) (λ s at. inl (suc n, at)))
            λ done.
              last-Leads (receive_selected F p.endpoint x.receipts) (λ s at. inl (suc n, at))
                (λ a e2 s at. at)

  accept-Leads :
      (target : F.Carrier) (f : DamiaoFeedback F)
      → Leads (InPhase powered) (InPhase powered) IsOpen (accept F p target f)
  unfolding accept
  accept-Leads target f =
      modify-Leads {M = InPhase powered} (λ s. record s { feedback_count = suc s.feedback_count }) _
        (λ s at. at)
        (lift-Leads
          (require (str_eq f.status_name "enabled") (runtime_error "status must be enabled")) _
          (λ s at. inr at)
          λ a e.
            modify-Leads {M = InPhase powered} (observed F p target f) _ (λ s at. at)
              (last-Leads (guards F p target f) (λ s at. inr at) (λ a e2 s at. at)))

  cycle-Leads :
      (target : F.Carrier × F.Carrier) (f : DamiaoFeedback F) (x : Exchange)
      → Leads (InPhase powered) (InPhase powered) IsOpen (cycle F p target f x)
  unfolding cycle
  cycle-Leads (position, velocity) f x =
      lift-Leads (validate_state F (measured_of F p f)) _ fail λ a e0.
        lift-Leads (validate_command F (command_of F p position velocity)) _ fail λ a2 e1.
          lift-Leads
            (encode_damiao_mit_command F p.endpoint (command_of F p position velocity)
              (measured_of F p f) (envelope F p))
            _ fail
            λ c e. >>=-Leads (send_command F x.os c) _ (sends c e) λ done.
              modify-Leads {M = InPhase powered}
                (λ s. record s { command_count = suc s.command_count }) _ (λ s at. at)
                (lift-Leads (receive_selected F p.endpoint x.receipts) _ fail λ feedback e3.
                  >>=-Leads (accept F p position feedback) _ (accept-Leads position feedback)
                    λ done. pure-Leads feedback (λ s at. at))
    where
      fail : (s : Hold F) → InPhase powered s → IsOpen s
      fail s at = inr at

      sends :
          (c : EncodedDamiaoMitCommand)
          → encode_damiao_mit_command F p.endpoint
              (command_of F p position velocity)
              (measured_of F p f)
              (envelope F p)
            ≡ ok c
          → Leads (InPhase powered) (InPhase powered) IsOpen (send_command F x.os c)
      sends c e =
          let (inside, slow, _, weak) =
            encode_damiao_mit_command-bounded F p.endpoint (command_of F p position velocity)
              (measured_of F p f) (envelope F p) e in
          writing-Leads powered powered IsOpen x.os c
            (λ frame wire for old. Trail.commanded for old) (omega arith)
            ((encode_damiao_mit_command-eq-ok F p.endpoint _ _ _ e).1)
            (record {
              command = command_of F p position velocity;
              measured = measured_of F p f;
              encoded = c;
              encodes = e;
              same = refl;
              above = inside.0;
              below = inside.1;
              slow = slow;
              weak = weak;
            })
            fail fail

  control-Leads :
      (initial start next : F.Carrier) (f : DamiaoFeedback F) (ticks : List (Tick F))
      → Leads (InPhase powered) (InPhase powered) IsOpen (control F p initial start next f ticks)
  unfolding control
  control-Leads initial start next f [] = pure-Leads tt (λ s at. at)
  control-Leads initial start next f (t ∷ rest) = elim (Bool-cases (F.ltb t.now_s next)) [
    | inl early ↦ rw early (control-Leads initial start next f rest)
    | inr due ↦ rw due (
        >>=-Leads (cycle F p (p.target_at initial (F.sub t.now_s start)) f t.exchange) _
          (cycle-Leads (p.target_at initial (F.sub t.now_s start)) f t.exchange)
          λ feedback. control-Leads initial start (F.add next p.period) feedback rest)
  ]

  -- The `try` block.
  pub body-Leads :
      (session : Session F)
      → Leads (InPhase (polling 0)) (InPhase powered) IsOpen (body F p session)
  unfolding body
  body-Leads session =
      >>=-Leads (echo F p.endpoint (zero_float F) session.probe) _
        (echo-Leads 0 (zero_float F) session.probe)
        λ initial.
          lift-Leads
            (require (str_eq initial.status_name "disabled") (runtime_error "must be disabled")) _
            (λ s at. inl (1, at))
            λ a e.
              modify-Leads {M = InPhase (polling 1)}
                (λ s. record s { initial_position = some initial.position_rad }) _ (λ s at. at)
                (lift-Leads (p.check_start initial.position_rad) _ (λ s at. inl (1, at))
                  λ a e2.
                    >>=-Leads (echo F p.endpoint initial.position_rad session.prepare) _
                      (echo-Leads 1 initial.position_rad session.prepare)
                      λ prepared.
                        lift-Leads
                          (require (str_eq prepared.status_name "disabled")
                            (runtime_error "changed status during zero-gain preparation"))
                          _ (λ s at. inl (2, at))
                          λ a e3.
                            lift-Leads (validate_envelope F (envelope F p)) _ (λ s at. inl (2, at))
                              λ a e4.
                                >>=-Leads (send_enable F session.enable_os) _
                                  (send_enable-Leads 0 session.enable_os)
                                  λ done.
                                    control-Leads initial.position_rad session.start_s
                                      session.start_s prepared session.ticks)
