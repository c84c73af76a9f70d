-- ===== src/SingleJointHold/Moved.antt =====
-- src/open_sprite_runtime/single_joint_hold.py: what a motion that passed has kept to.
use open_sprite_runtime.Prelude.{ℕ, ◌<◌, ◌≡◌, sym, ap, ◌∙◌, true, false, String, [], any}
use open_sprite_runtime.Prelude.Int.{ℤ}
use open_sprite_runtime.Prelude.Result.{ok, require-eq-ok}
use open_sprite_runtime.Float.{FloatOps}
use open_sprite_runtime.SocketCan.MitWriter.{SingleMotorMitWriter}
use open_sprite_runtime.Damiao.Command.{Range, DamiaoFeedbackEndpoint}
use open_sprite_runtime.SingleJointHold.Session.{Session}
use open_sprite_runtime.SingleJointHold.Supervise.{supervise}
use open_sprite_runtime.SingleJointHold.Runs.{same_endpoint}
use open_sprite_runtime.SingleJointHold.Trajectory.{
  Profile, frozen_profiles, same_profile, check_motion,
}
use open_sprite_runtime.SingleJointHold.Motion.{
  SingleJointMotionReport, motion_passed, motion_plan, motion_report, run_head_yaw_low_gain_motion,
}
use open_sprite_runtime.SingleJointHold.Guards.{AreLimits}
use open_sprite_runtime.SingleJointHold.Passed.{supervise-Within, passed-errors, after_checks-eq-ok}

module _ (F : FloatOps) where
  motion_passed-errors : (r : SingleJointMotionReport F) → motion_passed F r ≡ true → r.errors ≡ []
  unfolding motion_passed
  motion_passed-errors r h = passed-errors F r.errors _ _ _ _ _ h

  is_frozen :
      (e : DamiaoFeedbackEndpoint F) (soft : Range F) (p : Profile F)
      (expected : String × String × ℕ) (sign : ℤ) {u : Unit {0}}
      → check_motion F e soft p expected sign ≡ ok u
      → any (same_profile F p) (frozen_profiles F) ≡ true
  unfolding check_motion
  is_frozen e soft p expected sign h =
      let (_, h1) = require-eq-ok (same_endpoint F e expected) _ _ h in
      let (_, h2) = require-eq-ok _ _ _ h1 in
      (require-eq-ok (any (same_profile F p) (frozen_profiles F)) _ _ h2).0

  -- If the motion of one motor reports that it passed, then its profile is one of the five frozen ones, and
  -- the largest values of its report do not exceed the limits of the profile. The limits are ones that zero
  -- keeps.
  pub run_head_yaw_low_gain_motion-passed :
      (e : DamiaoFeedbackEndpoint F) (soft : Range F) (p : Profile F)
      (expected : String × String × ℕ) (sign : ℤ) (session : Session F)
      (writer : SingleMotorMitWriter) {r : SingleJointMotionReport F}
      → AreLimits F (motion_plan F e soft p sign)
      → (run_head_yaw_low_gain_motion F e soft p expected sign session writer).0 ≡ ok r
      → motion_passed F r ≡ true
      → (any (same_profile F p) (frozen_profiles F) ≡ true)
        × (F.ltb p.maximum_position_error_rad r.maximum_abs_position_error_rad ≡ false)
        × (F.ltb p.maximum_velocity_rad_s r.maximum_abs_velocity_rad_s ≡ false)
        × (F.ltb p.maximum_torque_nm r.maximum_abs_estimated_torque_nm ≡ false)
        × (r.maximum_mos_temperature_c < p.mos_temperature_limit_c)
        × (r.maximum_rotor_temperature_c < p.rotor_temperature_limit_c)
  unfolding run_head_yaw_low_gain_motion
  run_head_yaw_low_gain_motion-passed e soft p expected sign session writer {r} limits h passed =
      let (checked, reported) =
        after_checks-eq-ok F (motion_report F e p) (check_motion F e soft p expected sign) writer
          (supervise F (motion_plan F e soft p sign) session writer) h in
      let (w, _) =
        supervise-Within F (motion_plan F e soft p sign) session writer limits
          (ap (λ report. report.errors) reported ∙ motion_passed-errors r passed) in
      rw (sym reported) (
        is_frozen e soft p expected sign checked,
        w.close,
        w.slow,
        w.weak,
        w.cool_mos,
        w.cool_rotor,
      )
