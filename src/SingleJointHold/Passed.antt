-- ===== src/SingleJointHold/Passed.antt =====
-- src/open_sprite_runtime/single_joint_hold.py: what a run without errors has kept to.
use open_sprite_runtime.Prelude.{
  ℕ, zero, suc, ◌+◌, ◌<◌, ◌≡◌, refl, sym, ap, ◌∙◌, Bool, true, false, not, ◌&&◌, ◌||◌, String, some,
  List, [], ◌∷◌, ◌++◌, if◌then◌else◌, arith, Bool-cases, inl, inr, ltb,
}
use open_sprite_runtime.Prelude.Result.{
  Result, ok, err, Exception, runtime_error, require-eq-ok, ok_injective, raise_if-eq-ok,
}
use open_sprite_runtime.Prelude.Action.{After, After-always, Leads, >>=-Leads, modify-Leads}
use open_sprite_runtime.Float.{FloatOps, ratio, lit, eq_float}
use open_sprite_runtime.SocketCan.MitWriter.{SingleMotorMitWriter}
use open_sprite_runtime.Damiao.Command.{DamiaoFeedbackEndpoint, Range}
use open_sprite_runtime.SingleJointHold.Session.{
  ShutdownRound, Session, Plan, Hold, begun, send_disable, echo,
}
use open_sprite_runtime.SingleJointHold.Supervise.{
  body, recorded, is_disabled, shutdown_round, next_round, shutdown, verified, shut_down, supervise,
  breaks,
}
use open_sprite_runtime.SingleJointHold.Guards.{
  Within, AreLimits, Anything, IsOfLocals, echo-Leads, Within-record, body-Stays,
}
use open_sprite_runtime.SingleJointHold.Runs.{
  SingleJointHoldReport, hold_passed, no_errors, HoldArguments, hold_plan, hold_report, check_hold,
  same_endpoint, run_head_yaw_low_gain_hold, after_checks,
}

module _ (F : FloatOps) (p : Plan F) where
  -- As long as there is no error, the limits were kept.
  abbrev Clean : Hold F → Type 0
  Clean s = s.errors ≡ [] → Within F p s

  Clean-record : IsOfLocals F p Clean
  Clean-record s u c none_yet = Within-record F p s u (c none_yet)

  shutdown_round-Clean :
      (position : F.Carrier) (r : ShutdownRound)
      → Leads Clean Clean Clean (shutdown_round F p position r)
  unfolding shutdown_round send_disable
  shutdown_round-Clean position r =
      >>=-Leads (send_disable F r.disable_os) _
        (record {
          leads = λ s c. After-always Clean Clean _ _ (Clean-record s _ c) (Clean-record s _ c);
        })
        λ done.
          >>=-Leads (echo F p.endpoint position r.poll) _
            (echo-Leads F p Clean Clean Clean-record (λ s c. c) position r.poll)
            λ final.
              modify-Leads {M = Clean}
                (λ s. record s {
                  final_status = some final.status_name;
                  final_measured = some final.position_rad;
                })
                (breaks F p)
                (λ s c none_yet.
                  let w = c none_yet in
                  record {
                    close = w.close;
                    slow = w.slow;
                    weak = w.weak;
                    cool_mos = w.cool_mos;
                    cool_rotor = w.cool_rotor;
                  })
                (record { leads = λ s c. c })

  next_round-Clean :
      (later : Hold F → Hold F) (r : Result Bool × Hold F)
      → After Clean Clean r
      → ((s : Hold F) → Clean s → Clean (later s))
      → Clean (next_round F p later r)
  next_round-Clean later (ok true, s) c go = c
  next_round-Clean later (ok false, s) c go = go s c
  next_round-Clean later (err x, s) c go = go s c

  shutdown-Clean :
      (script : ℕ → ShutdownRound) (position : F.Carrier) (rounds attempts : ℕ) (s : Hold F)
      → Clean s
      → Clean (shutdown F p script position rounds attempts s)
  unfolding shutdown
  shutdown-Clean script position zero attempts s c = c
  shutdown-Clean script position (suc rounds) attempts s c =
      elim (Bool-cases (ltb attempts 3 || not (is_disabled F p s.final_status))) [
        | inl goes ↦ rw goes (
            next_round-Clean (shutdown F p script position rounds (suc attempts))
              (shutdown_round F p position (script attempts) s)
              ((shutdown_round-Clean position (script attempts)).leads s c)
              (λ u. shutdown-Clean script position rounds (suc attempts) u))
        | inr ends ↦ rw ends c
      ]

  appended : (xs : List Exception) (x : Exception) → xs ++ x ∷ [] ≡ [] → ⊥
  appended [] x h = cc
  appended (y ∷ ys) x h = cc

  recorded-Clean :
      (r : Result (Unit {0}) × Hold F)
      → After (Within F p) (Anything F p) r
      → Clean (recorded F p r)
  recorded-Clean (ok a, s) w none_yet = w
  recorded-Clean (err x, s) w none_yet = absurd (appended s.errors x none_yet)

  verified-Clean :
      (s : Hold F)
      → Clean s
      → (verified F p s).errors ≡ []
      → Within F p (verified F p s) × (is_disabled F p (verified F p s).final_status ≡ true)
  verified-Clean s c none_yet = by_test (is_disabled F p s.final_status) refl none_yet
    where
      late : Hold F
      late = record s {
        errors = s.errors ++ runtime_error "final disabled verification timed out" ∷ [];
      }

      by_test :
          (b : Bool)
          → is_disabled F p s.final_status ≡ b
          → (if b then s else late).errors ≡ []
          → Within F p (if b then s else late)
            × (is_disabled F p (if b then s else late).final_status ≡ true)
      by_test true off h = (c h, off)
      by_test false on h = absurd (appended s.errors _ h)

  begun-Within : (writer : SingleMotorMitWriter) → AreLimits F p → Within F p (begun F writer)
  begun-Within writer l = record {
    close = l.close;
    slow = l.slow;
    weak = l.weak;
    cool_mos = l.cool_mos;
    cool_rotor = l.cool_rotor;
  }

  -- If a supervised run ends without an error, then the largest position error, velocity and torque that it
  -- has observed do not exceed their limits, the temperatures stayed below theirs, and the motor was last
  -- seen disabled. The limits are ones that zero keeps.
  pub supervise-Within :
      (session : Session F) (writer : SingleMotorMitWriter)
      → AreLimits F p
      → (supervise F p session writer).errors ≡ []
      → Within F p (supervise F p session writer)
        × (is_disabled F p (supervise F p session writer).final_status ≡ true)
  unfolding supervise shut_down
  supervise-Within session writer limits none_yet =
      verified-Clean _
        (shutdown-Clean session.shutdown _ (3 + session.further) 0 _ (
          recorded-Clean (body F p session (begun F writer))
            ((body-Stays F p session).leads (begun F writer) (begun-Within writer limits))))
        none_yet

module _ (F : FloatOps) where
  -- What both reports ask for first.
  pub passed-errors :
      (xs : List Exception) (b c d e f : Bool)
      → (no_errors xs && b && c && d && e && f) ≡ true
      → xs ≡ []
  passed-errors [] b c d e f h = refl
  passed-errors (x ∷ xs) b c d e f h = absurd (ground arith)

  hold_passed-errors : (r : SingleJointHoldReport F) → hold_passed F r ≡ true → r.errors ≡ []
  unfolding hold_passed
  hold_passed-errors r h = passed-errors r.errors _ _ _ _ _ h

  pub after_checks-eq-ok :
      {R : Type 0} (report : Hold F → R) (checks : Result (Unit {0})) (w : SingleMotorMitWriter)
      (s : Hold F) {r : R}
      → (after_checks F report checks w s).0 ≡ ok r
      → (checks ≡ ok tt) × (report s ≡ r)
  after_checks-eq-ok report (ok done) w s h = (refl, ok_injective h)
  after_checks-eq-ok report (err x) w s h = cc

  frozen_limits :
      (e : DamiaoFeedbackEndpoint F) (soft : Range F) (a : HoldArguments F)
      (expected : String × String × ℕ) {u : Unit {0}}
      → check_hold F e soft a expected ≡ ok u
      → (F.ltb (ratio F 1 10) a.maximum_torque_nm ≡ false)
        × (F.ltb (ratio F 2 10) a.maximum_velocity_rad_s ≡ false)
  unfolding check_hold
  frozen_limits e soft a expected h =
      let (_, h1) = require-eq-ok (same_endpoint F e expected) _ _ h in
      let (_, h2) =
        require-eq-ok
          (eq_float F a.duration_s (lit F 2)
            && eq_float F a.rate_hz (lit F 50)
            && eq_float F a.kp (ratio F 2 10)
            && eq_float F a.kd (ratio F 5 100))
          _ _ h1 in
      let (neither, _) =
        raise_if-eq-ok
          (F.ltb (ratio F 1 10) a.maximum_torque_nm
            || F.ltb (ratio F 2 10) a.maximum_velocity_rad_s)
          _ _ h2 in
      ground (arith, neither)

  -- If the hold of one motor reports that it passed, then the largest values of its report do not exceed the
  -- limits of its arguments, of which the torque limit is at most 0.1 Nm and the velocity limit at most 0.2
  -- rad/s. The limits are ones that zero keeps.
  pub run_head_yaw_low_gain_hold-passed :
      (e : DamiaoFeedbackEndpoint F) (soft : Range F) (a : HoldArguments F)
      (expected : String × String × ℕ) (session : Session F) (writer : SingleMotorMitWriter)
      {r : SingleJointHoldReport F}
      → AreLimits F (hold_plan F e soft a)
      → (run_head_yaw_low_gain_hold F e soft a expected session writer).0 ≡ ok r
      → hold_passed F r ≡ true
      → (F.ltb a.maximum_position_error_rad r.maximum_abs_position_error_rad ≡ false)
        × (F.ltb a.maximum_velocity_rad_s r.maximum_abs_velocity_rad_s ≡ false)
        × (F.ltb a.maximum_torque_nm r.maximum_abs_estimated_torque_nm ≡ false)
        × (r.maximum_mos_temperature_c < a.mos_temperature_limit_c)
        × (r.maximum_rotor_temperature_c < a.rotor_temperature_limit_c)
        × (F.ltb (ratio F 1 10) a.maximum_torque_nm ≡ false)
        × (F.ltb (ratio F 2 10) a.maximum_velocity_rad_s ≡ false)
  unfolding run_head_yaw_low_gain_hold
  run_head_yaw_low_gain_hold-passed e soft a expected session writer {r} limits h passed =
      let (checked, reported) =
        after_checks-eq-ok (hold_report F e a) (check_hold F e soft a expected) writer
          (supervise F (hold_plan F e soft a) session writer) h in
      let (torque, velocity) = frozen_limits e soft a expected checked in
      let (w, _) =
        supervise-Within F (hold_plan F e soft a) session writer limits
          (ap (λ report. report.errors) reported ∙ hold_passed-errors r passed) in
      rw (sym reported) (w.close, w.slow, w.weak, w.cool_mos, w.cool_rotor, torque, velocity)
