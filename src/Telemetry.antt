-- ===== src/Telemetry.antt =====
-- src/open_sprite_runtime/telemetry.py: the check of measured motor states. `numpy.interp` is a
-- parameter. A dictionary is an association list. The name lists of a bank's report are in the order
-- of the arguments, where the source sorts them.
pub mod Sound
use text.Mathlib.Text.{◌==◌ as str_eq}
use open_sprite_runtime.Prelude.{
  ℕ, Bool, true, false, not, ◌&&◌, ◌||◌, String, Option, none, some, List, [], ◌∷◌, ◌++◌, ltb, leb,
  length, all, any, if◌then◌else◌, map,
}
use open_sprite_runtime.Prelude.Result.{
  Exception, Result, ok, err, value_error, require, raise_if, ◌>>=◌, ◌>>◌,
}
use open_sprite_runtime.Float.{FloatOps, zero_float}
use open_sprite_runtime.SocketCan.MitWriter.{get}

abbrev pub is_empty {ℓ} : {A : Type ℓ} → List A → Bool
is_empty [] = true
is_empty (_ ∷ _) = false

abbrev pub is_some {ℓ} : {A : Type ℓ} → Option A → Bool
is_some none = false
is_some (some _) = true

abbrev pub filter {ℓ} : {A : Type ℓ} → (A → Bool) → List A → List A
filter p [] = []
filter p (x ∷ xs) = if p x then x ∷ filter p xs else filter p xs

module _ (F : FloatOps) where
  abbrev pub Point : Type 0
  Point = F.Carrier × F.Carrier

  pub record MotorTelemetryLimits : Type 0 where
    pub hard_low_rad : F.Carrier
    pub hard_high_rad : F.Carrier
    pub maximum_speed_rad_s : F.Carrier
    pub peak_torque_nm : F.Carrier
    pub peak_current_a : F.Carrier
    pub maximum_temperature_c : F.Carrier
    pub torque_speed_envelope : List Point

  abbrev pub is_positive : F.Carrier → Bool
  is_positive x = not (F.leb x (zero_float F))

  -- `np.any(np.diff(column) <= 0.0)` of the speeds and `np.any(np.diff(column) > 0.0)` of the torques
  abbrev pub any_step : (F.Carrier → Bool) → (Point → F.Carrier) → List Point → Bool
  any_step bad column [] = false
  any_step bad column (p ∷ []) = false
  any_step bad column (p ∷ q ∷ rest) =
      bad (F.sub (column q) (column p)) || any_step bad column (q ∷ rest)

  -- `points[0]` and `points[-1]`, of at least one point
  abbrev pub first_point : List Point → Point
  first_point [] = (zero_float F, zero_float F)
  first_point (p ∷ rest) = p

  abbrev pub last_point : List Point → Point
  last_point [] = (zero_float F, zero_float F)
  last_point (p ∷ []) = p
  last_point (p ∷ q ∷ rest) = last_point (q ∷ rest)

  unfoldable pub validate_telemetry_limits : MotorTelemetryLimits → Result (Unit {0})
  validate_telemetry_limits l = do
    require
        (F.is_finite l.hard_low_rad
          && F.is_finite l.hard_high_rad
          && F.is_finite l.maximum_speed_rad_s
          && F.is_finite l.peak_torque_nm
          && F.is_finite l.peak_current_a
          && F.is_finite l.maximum_temperature_c
          && not (F.leb l.hard_high_rad l.hard_low_rad))
        (value_error "motor telemetry limits must be finite with lower < upper")
    require
        (is_positive l.maximum_speed_rad_s
          && is_positive l.peak_torque_nm
          && is_positive l.peak_current_a
          && is_positive l.maximum_temperature_c)
        (value_error "speed, torque, current, and temperature limits must be positive")
    require (leb 2 (length l.torque_speed_envelope))
        (value_error "torque-speed envelope requires at least two [speed, torque] points")
    require
        (all
          (λ p.
            F.is_finite p.0
            && F.is_finite p.1
            && not (F.ltb p.0 (zero_float F))
            && not (F.ltb p.1 (zero_float F)))
          l.torque_speed_envelope)
        (value_error "torque-speed envelope points must be finite and non-negative")
    raise_if (any_step (λ x. F.leb x (zero_float F)) (λ p. p.0) l.torque_speed_envelope)
        (value_error "torque-speed envelope speeds must be strictly increasing")
    raise_if (any_step (λ x. F.ltb (zero_float F) x) (λ p. p.1) l.torque_speed_envelope)
        (value_error "torque-speed envelope torque must be non-increasing")
    raise_if (F.ltb l.maximum_speed_rad_s (last_point l.torque_speed_envelope).0)
        (value_error "torque-speed envelope exceeds maximum speed")
    raise_if (F.ltb l.peak_torque_nm (first_point l.torque_speed_envelope).1)
        (value_error "torque-speed envelope exceeds peak torque")

  pub record MotorTelemetry : Type 0 where
    pub position_rad : F.Carrier
    pub velocity_rad_s : F.Carrier
    pub torque_nm : F.Carrier
    pub current_a : F.Carrier
    pub temperature_c : F.Carrier

  pub record MotorTelemetryDecision : Type 0 where
    pub healthy : Bool
    pub violations : List String
    pub margins : List (String × F.Carrier)

  -- `np.isfinite(values).all()`
  abbrev pub all_finite : MotorTelemetry → Bool
  all_finite s =
      F.is_finite s.position_rad
      && F.is_finite s.velocity_rad_s
      && F.is_finite s.torque_nm
      && F.is_finite s.current_a
      && F.is_finite s.temperature_c

  abbrev pub margins_of :
      MotorTelemetry → MotorTelemetryLimits → F.Carrier → List (String × F.Carrier)
  margins_of s l envelope_torque =
      ("position_lower_rad", F.sub s.position_rad l.hard_low_rad)
      ∷ ("position_upper_rad", F.sub l.hard_high_rad s.position_rad)
      ∷ ("speed_rad_s", F.sub l.maximum_speed_rad_s (F.abs s.velocity_rad_s))
      ∷ ("peak_torque_nm", F.sub l.peak_torque_nm (F.abs s.torque_nm))
      ∷ ("torque_speed_nm", F.sub envelope_torque (F.abs s.torque_nm))
      ∷ ("peak_current_a", F.sub l.peak_current_a (F.abs s.current_a))
      ∷ ("temperature_c", F.sub l.maximum_temperature_c s.temperature_c)
      ∷ []

  abbrev pub is_negative : String × F.Carrier → Bool
  is_negative m = F.ltb m.1 (zero_float F)

  abbrev pub decide_margins : List (String × F.Carrier) → MotorTelemetryDecision
  decide_margins margins = record {
    healthy = is_empty (filter is_negative margins);
    violations = map (λ m. m.0) (filter is_negative margins);
    margins = margins;
  }

  module _ (interp : F.Carrier → List Point → F.Carrier) where
    unfoldable pub torque_limit_at_speed : MotorTelemetryLimits → F.Carrier → Result F.Carrier
    unfolding validate_telemetry_limits
    torque_limit_at_speed l speed = do
      validate_telemetry_limits l
      ok (
          if F.ltb (last_point l.torque_speed_envelope).0 (F.abs speed)
          then zero_float F
          else interp (F.abs speed) l.torque_speed_envelope)

    unfoldable pub evaluate_motor_telemetry :
        MotorTelemetry → MotorTelemetryLimits → Result MotorTelemetryDecision
    unfolding validate_telemetry_limits torque_limit_at_speed
    evaluate_motor_telemetry s l = do
      validate_telemetry_limits l
      if all_finite s
          then (torque_limit_at_speed l (F.abs s.velocity_rad_s) >>= λ envelope_torque.
              ok (decide_margins (margins_of s l envelope_torque)))
          else ok (record { healthy = false; violations = "nonfinite" ∷ []; margins = [] })

    abbrev pub Samples : Type 0
    Samples = List (String × MotorTelemetry)

    abbrev pub Limits : Type 0
    Limits = List (String × MotorTelemetryLimits)

    abbrev pub Decisions : Type 0
    Decisions = List (String × MotorTelemetryDecision)

    abbrev pub adding : String → Result MotorTelemetryDecision → Result Decisions → Result Decisions
    adding name one rest = one >>= λ d. rest >>= λ ds. ok ((name, d) ∷ ds)

    abbrev pub decide_one :
        String
        → Option MotorTelemetry
        → Option MotorTelemetryLimits
        → Result Decisions
        → Result Decisions
    decide_one name none l rest = rest
    decide_one name (some s) none rest = rest
    decide_one name (some s) (some l) rest = adding name (evaluate_motor_telemetry s l) rest

    -- `for name in expected`
    unfoldable pub decide_all : Samples → Limits → List String → Result Decisions
    unfolding evaluate_motor_telemetry
    decide_all samples limits [] = ok []
    decide_all samples limits (name ∷ rest) =
        decide_one name (get samples name) (get limits name) (decide_all samples limits rest)

    pub record BankReport : Type 0 where
      pub healthy : Bool
      pub expected_motor_count : ℕ
      pub received_motor_count : ℕ
      pub missing_motors : List String
      pub extra_motors : List String
      pub missing_limits : List String
      pub unhealthy_motors : List String
      pub decisions : Decisions

    abbrev pub missing_from {ℓ} : {V : Type ℓ} → List (String × V) → List String → List String
    missing_from table names = filter (λ n. not (is_some (get table n))) names

    abbrev pub extra_in : Samples → List String → List String
    extra_in samples expected =
        filter (λ n. not (any (λ e. str_eq e n) expected)) (map (λ s. s.0) samples)

    abbrev pub unhealthy_in : Decisions → List String
    unhealthy_in decisions = map (λ d. d.0) (filter (λ d. not d.1.healthy) decisions)

    abbrev pub report_of : Samples → Limits → List String → Decisions → BankReport
    report_of samples limits expected decisions = record {
      healthy =
          is_empty (missing_from samples expected)
          && is_empty (extra_in samples expected)
          && is_empty (missing_from limits expected)
          && is_empty (unhealthy_in decisions);
      expected_motor_count = length expected;
      received_motor_count = length samples;
      missing_motors = missing_from samples expected;
      extra_motors = extra_in samples expected;
      missing_limits = missing_from limits expected;
      unhealthy_motors = unhealthy_in decisions;
      decisions = decisions;
    }

    unfoldable pub evaluate_motor_bank : Samples → Limits → List String → Result BankReport
    unfolding decide_all
    evaluate_motor_bank samples limits expected =
        decide_all samples limits expected >>= λ decisions.
        ok (report_of samples limits expected decisions)
