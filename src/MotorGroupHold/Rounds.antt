-- ===== src/MotorGroupHold/Rounds.antt =====
-- src/open_sprite_runtime/motor_group_hold.py: how often the `finally` block of a run disables each motor.
use open_sprite_runtime.Prelude.{
  ℕ, suc, ◌+◌, ◌≤◌, ◌≡◌, sym, ap, ◌∙◌, inl, inr, String, some, List, [], ◌∷◌, Bool-cases, arith,
  Member,
}
use open_sprite_runtime.Prelude.Result.{Result, ok, err}
use open_sprite_runtime.Prelude.Action.{
  After, After-always, Leads, >>=-Leads, lift-Leads, last-Leads, reads-Leads, last_modify-Leads,
}
use open_sprite_runtime.Bytes.{Bytes}
use open_sprite_runtime.Float.{FloatOps}
use open_sprite_runtime.SocketCan.Writer.{SendOutcome}
use open_sprite_runtime.SocketCan.MitWriter.{get}
use open_sprite_runtime.Damiao.Encoded.{EncodedDamiaoMitCommand}
use open_sprite_runtime.Damiao.Command.{DamiaoFeedbackEndpoint, encode_zero_gain_position_echo}
use open_sprite_runtime.SingleJointHold.Session.{Exchange, ShutdownRound}
use open_sprite_runtime.Dict.{set}
use open_sprite_runtime.MotorGroupHold.Session.{
  GroupSession, GroupPlan, GroupHold, command_motor, disable_motor, receive_endpoint, group_echo,
}
use open_sprite_runtime.MotorGroupHold.Supervise.{
  noted_disable, disable_all, is_off, target_or, verification, verify, confirmed, verify_all,
  finish,
}
use open_sprite_runtime.MotorGroupHold.Stops.{
  disables, Disabled, group_send_command-Disabled, group_send_disable-any, group_send_disable-own,
}

module _ (F : FloatOps) (name : String) (id : ℕ) (low : id ≤ 0x7ff) where
  HasSent : ℕ → GroupHold F → Type 0
  HasSent n s = Disabled name id n s.writer

  command_motor-HasSent :
      (n : ℕ) (os : Bytes → SendOutcome) (c : EncodedDamiaoMitCommand)
      → Leads (HasSent n) (HasSent n) (HasSent n) (command_motor F os c)
  unfolding command_motor HasSent
  command_motor-HasSent n os c = record {
    leads = λ s d.
        let now = group_send_command-Disabled name id low os n c s.writer d in
        After-always (HasSent n) (HasSent n) _ _ now now;
  }

  disable_motor-HasSent :
      (n : ℕ) (os : Bytes → SendOutcome) (other : String)
      → Leads (HasSent n) (HasSent n) (HasSent n) (disable_motor F os other)
  unfolding disable_motor HasSent
  disable_motor-HasSent n os other = record {
    leads = λ s d.
        let now = group_send_disable-any name id low os n other s.writer d in
        After-always (HasSent n) (HasSent n) _ _ now now;
  }

  disable_motor-own :
      (n : ℕ) (os : Bytes → SendOutcome)
      → Leads (HasSent n) (HasSent (suc n)) (HasSent (suc n)) (disable_motor F os name)
  unfolding disable_motor HasSent
  disable_motor-own n os = record {
    leads = λ s d.
        let now = group_send_disable-own name id low os n s.writer d in
        After-always (HasSent (suc n)) (HasSent (suc n)) _ _ now now;
  }

  noted_disable-HasSent :
      (p : GroupPlan F) (n : ℕ) (r : Result (Unit {0}) × GroupHold F)
      → After (HasSent n) (HasSent n) r
      → HasSent n (noted_disable F p r)
  unfolding HasSent
  noted_disable-HasSent p n (ok a, s) d = d
  noted_disable-HasSent p n (err x, s) d = d

  module _ (p : GroupPlan F) where
    disable_all-HasSent :
        (n : ℕ) (os : String → Bytes → SendOutcome) (es : List (DamiaoFeedbackEndpoint F))
        (s : GroupHold F)
        → HasSent n s
        → HasSent n (disable_all F p os es s)
    unfolding disable_all
    disable_all-HasSent n os [] s d = d
    disable_all-HasSent n os (e ∷ rest) s d = disable_all-HasSent n os rest _ (
        noted_disable-HasSent p n (disable_motor F (os e.motor_name) e.motor_name s)
          ((disable_motor-HasSent n (os e.motor_name) e.motor_name).leads s d))

    -- A round disables each of its motors.
    disable_all-own :
        (n : ℕ) (os : String → Bytes → SendOutcome) (es : List (DamiaoFeedbackEndpoint F))
        (e : DamiaoFeedbackEndpoint F) (s : GroupHold F)
        → e.motor_name ≡ name
        → Member e es
        → HasSent n s
        → HasSent (suc n) (disable_all F p os es s)
    unfolding disable_all
    disable_all-own n os [] e s same m d = absurd m
    disable_all-own n os (x ∷ rest) e s same (inr m) d = disable_all-own n os rest e _ same m (
        noted_disable-HasSent p n (disable_motor F (os x.motor_name) x.motor_name s)
          ((disable_motor-HasSent n (os x.motor_name) x.motor_name).leads s d))
    disable_all-own n os (x ∷ rest) e s same (inl here) d = disable_all-HasSent (suc n) os rest _ (
        rw (sym (ap (λ y. y.motor_name) here) ∙ same) (
          noted_disable-HasSent p (suc n) (disable_motor F (os name) name s)
            ((disable_motor-own n (os name)).leads s d)))

    group_echo-HasSent :
        (n : ℕ) (e : DamiaoFeedbackEndpoint F) (position : F.Carrier) (x : Exchange)
        → Leads (HasSent n) (HasSent n) (HasSent n) (group_echo F e position x)
    unfolding group_echo
    group_echo-HasSent n e position x =
        lift-Leads (encode_zero_gain_position_echo F e position) _ (λ s d. d)
          λ c made.
            >>=-Leads (command_motor F x.os c) _ (command_motor-HasSent n x.os c)
              λ done. last-Leads (receive_endpoint F e x.receipts) (λ s d. d) (λ f got s d. d)

    verification-HasSent :
        (n : ℕ) (e : DamiaoFeedbackEndpoint F) (r : ShutdownRound)
        → Leads (HasSent n) (HasSent n) (HasSent n) (verification F p e r)
    unfolding verification HasSent
    verification-HasSent n e r =
        >>=-Leads (disable_motor F r.disable_os e.motor_name) _
          (disable_motor-HasSent n r.disable_os e.motor_name)
          λ done.
            reads-Leads (λ s. ok (target_or F p (get s.targets e.motor_name))) _ (λ s d. d)
              λ position.
                >>=-Leads (group_echo F e position r.poll) _
                  (group_echo-HasSent n e position r.poll)
                  λ feedback.
                    last_modify-Leads
                      (λ s. record s {
                        final_status = set s.final_status e.motor_name (some feedback.status_name);
                      })
                      (λ s d. d)

    either :
        (n : ℕ) (r : Result (Unit {0}) × GroupHold F)
        → After (HasSent n) (HasSent n) r
        → HasSent n r.1
    either n (ok a, s) d = d
    either n (err x, s) d = d

    verify-HasSent :
        (n : ℕ) (e : DamiaoFeedbackEndpoint F) (rounds : List ShutdownRound) (s : GroupHold F)
        → HasSent n s
        → HasSent n (verify F p e rounds s)
    unfolding verify
    verify-HasSent n e [] s d = d
    verify-HasSent n e (r ∷ rest) s d =
        elim (Bool-cases (is_off F p (get s.final_status e.motor_name))) [
          | inl off ↦ rw off d
          | inr on ↦ rw on (
              verify-HasSent n e rest (verification F p e r s).1
                (either n (verification F p e r s) ((verification-HasSent n e r).leads s d)))
        ]

    confirmed-HasSent :
        (n : ℕ) (other : String) (s : GroupHold F) → HasSent n s → HasSent n (confirmed F p other s)
    unfolding confirmed HasSent
    confirmed-HasSent n other s d = elim (Bool-cases (is_off F p (get s.final_status other))) [
      | inl off ↦ rw off d
      | inr on ↦ rw on d
    ]

    verify_all-HasSent :
        (n : ℕ) (rounds : String → List ShutdownRound) (es : List (DamiaoFeedbackEndpoint F))
        (s : GroupHold F)
        → HasSent n s
        → HasSent n (verify_all F p rounds es s)
    unfolding verify_all
    verify_all-HasSent n rounds [] s d = d
    verify_all-HasSent n rounds (e ∷ rest) s d =
        verify_all-HasSent n rounds rest _
          (confirmed-HasSent n e.motor_name _ (verify-HasSent n e (rounds e.motor_name) s d))

    -- Whatever state the `try` block left, and whatever is raised or received meanwhile, the `finally` block
    -- hands at least three further disable frames for each motor of the group to the socket. The motor is one
    -- that the writer knows, with an 11-bit identifier.
    pub finish-disables :
        (session : GroupSession F) (s : GroupHold F) (e : DamiaoFeedbackEndpoint F)
        → e.motor_name ≡ name
        → Member e p.endpoints
        → get s.writer.can_id_by_name name ≡ some id
        → 3 + disables id s.writer.wire ≤ disables id (finish F p session s).writer.wire
    unfolding finish HasSent
    finish-disables session s e same m known =
        let s1 = disable_all F p (session.disables 0) p.endpoints s in
        let s2 = disable_all F p (session.disables 1) p.endpoints s1 in
        let s3 = disable_all F p (session.disables 2) p.endpoints s2 in
        let n = disables id s.writer.wire in
        let d1 =
          disable_all-own n (session.disables 0) p.endpoints e s same m
            (record { addressed = known; enough = omega arith }) in
        let d2 = disable_all-own (suc n) (session.disables 1) p.endpoints e s1 same m d1 in
        let d3 = disable_all-own (suc (suc n)) (session.disables 2) p.endpoints e s2 same m d2 in
        let d4 = verify_all-HasSent (suc (suc (suc n))) session.verifications p.endpoints s3 d3 in
        omega (arith, d4.enough)
