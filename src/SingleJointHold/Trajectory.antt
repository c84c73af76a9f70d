-- ===== src/SingleJointHold/Trajectory.antt =====
-- src/open_sprite_runtime/single_joint_hold.py: the frozen profiles and the trajectory of the powered
-- motion of one motor.
use open_sprite_runtime.Prelude.{ℕ, Bool, ◌&&◌, String, List, [], ◌∷◌, ◌==◌, if◌then◌else◌, any}
use open_sprite_runtime.Prelude.Int.{ℤ, pos, negsuc}
use open_sprite_runtime.Prelude.Result.{Result, value_error, runtime_error, require, raise_if, ◌>>◌}
use open_sprite_runtime.Float.{FloatOps, lit, zero_float, ratio, eq_float, radians}
use open_sprite_runtime.Damiao.Command.{Range, DamiaoFeedbackEndpoint}
use open_sprite_runtime.SingleJointHold.Session.{max_float}
use open_sprite_runtime.SingleJointHold.Runs.{same_endpoint}

module _ (F : FloatOps) where
  -- The tuple `requested_profile`.
  pub record Profile : Type 0 where
    pub excursion_rad : F.Carrier
    pub transition_s : F.Carrier
    pub dwell_s : F.Carrier
    pub rate_hz : F.Carrier
    pub kp : F.Carrier
    pub kd : F.Carrier
    pub maximum_position_error_rad : F.Carrier
    pub maximum_velocity_rad_s : F.Carrier
    pub maximum_torque_nm : F.Carrier
    pub mos_temperature_limit_c : ℕ
    pub rotor_temperature_limit_c : ℕ

  -- A profile with the rate and the temperature limits that all have.
  abbrev pub profile_of :
      (excursion transition dwell kp kd position_error velocity torque : F.Carrier) → Profile
  profile_of excursion transition dwell kp kd position_error velocity torque = record {
    excursion_rad = excursion;
    transition_s = transition;
    dwell_s = dwell;
    rate_hz = lit F 50;
    kp = kp;
    kd = kd;
    maximum_position_error_rad = position_error;
    maximum_velocity_rad_s = velocity;
    maximum_torque_nm = torque;
    mos_temperature_limit_c = 100;
    rotor_temperature_limit_c = 80;
  }

  abbrev pub micro_profile : Profile
  micro_profile =
      profile_of (ratio F 2 100) (lit F 1) (ratio F 5 10) (lit F 1) (ratio F 2 10) (ratio F 5 100)
        (ratio F 2 10) (ratio F 1 10)

  abbrev pub visible_profile : Profile
  visible_profile =
      profile_of (radians F 10) (lit F 4) (lit F 1) (lit F 2) (ratio F 2 10) (ratio F 8 100)
        (ratio F 8 10) (ratio F 25 100)

  abbrev pub wrist_profile : Profile
  wrist_profile =
      profile_of (radians F 5) (lit F 4) (lit F 1) (lit F 2) (ratio F 2 10) (ratio F 8 100)
        (ratio F 6 10) (ratio F 2 10)

  abbrev pub hip_yaw_profile : Profile
  hip_yaw_profile =
      profile_of (radians F 5) (lit F 4) (lit F 1) (lit F 8) (ratio F 3 10) (ratio F 12 100)
        (ratio F 6 10) (lit F 1)

  abbrev pub hip_yaw_medium_profile : Profile
  hip_yaw_medium_profile =
      profile_of (radians F 5) (lit F 4) (lit F 1) (lit F 20) (ratio F 5 10) (ratio F 15 100)
        (ratio F 8 10) (ratio F 25 10)

  abbrev pub frozen_profiles : List Profile
  frozen_profiles =
      micro_profile ∷ visible_profile ∷ wrist_profile ∷ hip_yaw_profile ∷ hip_yaw_medium_profile
      ∷ []

  abbrev pub same_profile : Profile → Profile → Bool
  same_profile a b =
      eq_float F a.excursion_rad b.excursion_rad
      && eq_float F a.transition_s b.transition_s
      && eq_float F a.dwell_s b.dwell_s
      && eq_float F a.rate_hz b.rate_hz
      && eq_float F a.kp b.kp
      && eq_float F a.kd b.kd
      && eq_float F a.maximum_position_error_rad b.maximum_position_error_rad
      && eq_float F a.maximum_velocity_rad_s b.maximum_velocity_rad_s
      && eq_float F a.maximum_torque_nm b.maximum_torque_nm
      && a.mos_temperature_limit_c == b.mos_temperature_limit_c
      && a.rotor_temperature_limit_c == b.rotor_temperature_limit_c

  unfoldable pub check_motion :
      DamiaoFeedbackEndpoint F → Range F → Profile → String × String × ℕ → ℤ → Result (Unit {0})
  check_motion e soft p expected sign = do
    require (same_endpoint F e expected) (value_error "powered motion is restricted")
    require (is_unit sign) (value_error "joint-to-motor sign must be -1 or +1")
    require (any (same_profile p) frozen_profiles)
        (value_error "single-joint powered-motion trajectory, gains, and guards are frozen")
    raise_if (F.leb soft.high soft.low) (value_error "soft position range is invalid")
    where
      is_unit : ℤ → Bool
      is_unit (pos n) = n == 1
      is_unit (negsuc n) = n == 0

  -- `min(max(x, 0.0), top)`
  abbrev pub clamp : F.Carrier → F.Carrier → F.Carrier
  clamp x top = let low = max_float F x (zero_float F) in if F.ltb top low then top else low

  -- `_quintic_smoothstep`
  unfoldable pub quintic_smoothstep : F.Carrier → F.Carrier × F.Carrier
  quintic_smoothstep fraction =
      let x = clamp fraction (lit F 1) in
      (
        F.add (F.sub (F.mul (lit F 6) (F.pow x 5)) (F.mul (lit F 15) (F.pow x 4)))
            (F.mul (lit F 10) (F.pow x 3)),
        F.add (F.sub (F.mul (lit F 30) (F.pow x 4)) (F.mul (lit F 60) (F.pow x 3)))
            (F.mul (lit F 30) (F.pow x 2)),
      )

  -- A phase of the trajectory: its duration, and where it starts and ends.
  pub record Phase : Type 0 where
    pub duration : F.Carrier
    pub start_position : F.Carrier
    pub end_position : F.Carrier

  unfoldable pub along : F.Carrier → F.Carrier → List Phase → F.Carrier × F.Carrier
  unfolding quintic_smoothstep
  along initial remaining [] = (initial, zero_float F)
  along initial remaining (p ∷ rest) =
      let later = along initial (F.sub remaining p.duration) rest in
      let (fraction, derivative) = quintic_smoothstep (F.div remaining p.duration) in
      let delta = F.sub p.end_position p.start_position in
      if F.leb remaining p.duration
      then (if eq_float F p.start_position p.end_position
          then (p.start_position, zero_float F)
          else (
            F.add p.start_position (F.mul delta fraction),
            F.div (F.mul delta derivative) p.duration,
          ))
      else later

  abbrev pub duration_of : Profile → F.Carrier
  duration_of p = F.add (F.mul (lit F 3) p.transition_s) (F.mul (lit F 3) p.dwell_s)

  abbrev pub phase : F.Carrier → F.Carrier → F.Carrier → Phase
  phase duration from to = record { duration = duration; start_position = from; end_position = to }

  unfoldable pub target_at : Profile → ℤ → F.Carrier → F.Carrier → F.Carrier × F.Carrier
  unfolding along
  target_at p sign initial elapsed =
      let excursion = F.mul (F.of_int sign) p.excursion_rad in
      let above = F.add initial excursion in
      let below = F.sub initial excursion in
      along initial (clamp elapsed (duration_of p)) (
        phase p.transition_s initial above
        ∷ phase p.dwell_s above above
        ∷ phase p.transition_s above below
        ∷ phase p.dwell_s below below
        ∷ phase p.transition_s below initial
        ∷ phase p.dwell_s initial initial
        ∷ [])

  abbrev pub requested_minimum : Profile → F.Carrier → F.Carrier
  requested_minimum p initial = F.sub initial (F.abs p.excursion_rad)

  abbrev pub requested_maximum : Profile → F.Carrier → F.Carrier
  requested_maximum p initial = F.add initial (F.abs p.excursion_rad)

  -- The two soft-limit margins.
  unfoldable pub check_margins : Profile → Range F → F.Carrier → Result (Unit {0})
  check_margins p soft initial = do
    require (F.leb (F.add soft.low p.maximum_position_error_rad) (requested_minimum p initial))
        (runtime_error "initial position lacks lower soft-limit margin")
    require (F.leb (requested_maximum p initial) (F.sub soft.high p.maximum_position_error_rad))
        (runtime_error "initial position lacks upper soft-limit margin")
