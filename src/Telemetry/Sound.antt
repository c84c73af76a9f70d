-- ===== src/Telemetry/Sound.antt =====
-- What a healthy decision of telemetry.py says.
use open_sprite_runtime.Prelude.{
  ◌≡◌, refl, sym, ap, ◌∙◌, Bool, true, false, not, ◌&&◌, String, Option, none, some, List, [], ◌∷◌,
  All, map, if◌then◌else◌, &&-true, subst,
}
use open_sprite_runtime.Prelude.Result.{Result, ok, >>=-eq-ok, ok_injective, ◌>>=◌}
use open_sprite_runtime.Float.{FloatOps}
use open_sprite_runtime.SocketCan.MitWriter.{get}
use open_sprite_runtime.Telemetry.{
  Point, MotorTelemetry, MotorTelemetryLimits, MotorTelemetryDecision, filter, is_empty, is_some,
  is_negative, margins_of, all_finite, decide_margins, validate_telemetry_limits,
  torque_limit_at_speed, evaluate_motor_telemetry, Samples, Limits, Decisions, BankReport,
  missing_from, extra_in, unhealthy_in, decide_one, decide_all, evaluate_motor_bank,
}

-- A filter that leaves nothing has no hit.
filter-empty {ℓ} :
    {A : Type ℓ} (p : A → Bool) (xs : List A)
    → is_empty (filter p xs) ≡ true
    → All (λ x. p x ≡ false) xs
filter-empty p [] h = tt
filter-empty p (x ∷ xs) h = step (p x) h (filter-empty p xs)
  where
    step :
        (b : Bool)
        → is_empty (if b then x ∷ filter p xs else filter p xs) ≡ true
        → (is_empty (filter p xs) ≡ true → All (λ y. p y ≡ false) xs)
        → (b ≡ false) × All (λ y. p y ≡ false) xs
    step true g ih = cc
    step false g ih = (refl, ih g)

map-empty {ℓ κ} :
    {A : Type ℓ} {B : Type κ} (f : A → B) (xs : List A)
    → is_empty (map f xs) ≡ true
    → is_empty xs ≡ true
map-empty f [] h = refl
map-empty f (x ∷ xs) h = cc

not-false : (b : Bool) → not b ≡ false → b ≡ true
not-false true h = refl
not-false false h = cc

module _ (F : FloatOps) (interp : F.Carrier → List (Point F) → F.Carrier) where
  -- A sample with a healthy decision is finite, and none of its seven margins is negative.
  pub record IsWithin (s : MotorTelemetry F) (l : MotorTelemetryLimits F) : Type 0 where
    pub finite : all_finite F s ≡ true
    pub envelope_torque : F.Carrier
    pub envelope_is : torque_limit_at_speed F interp l (F.abs s.velocity_rad_s) ≡ ok envelope_torque
    pub margins_hold : All (λ m. is_negative F m ≡ false) (margins_of F s l envelope_torque)

  -- A sample that is evaluated as healthy has finite values only, and is within the position, speed,
  -- torque, current and temperature limits and within the torque that the envelope allows at its
  -- speed: no margin is negative.
  pub evaluate_motor_telemetry-IsWithin :
      (s : MotorTelemetry F) (l : MotorTelemetryLimits F) {d : MotorTelemetryDecision F}
      → evaluate_motor_telemetry F interp s l ≡ ok d
      → d.healthy ≡ true
      → IsWithin s l
  unfolding evaluate_motor_telemetry
  evaluate_motor_telemetry-IsWithin s l {d} h healthy =
      let (_, _, h1) = >>=-eq-ok (validate_telemetry_limits F l) _ h in
      step (all_finite F s) refl h1
    where
      step :
          (b : Bool)
          → all_finite F s ≡ b
          → (if◌then◌else◌ {A = Result (MotorTelemetryDecision F)} b
              (torque_limit_at_speed F interp l (F.abs s.velocity_rad_s) >>= λ envelope_torque.
                ok (decide_margins F (margins_of F s l envelope_torque)))
              (ok (record { healthy = false; violations = "nonfinite" ∷ []; margins = [] })))
            ≡ ok d
          → IsWithin s l
      step true e g =
          let (torque, limited, g1) =
            >>=-eq-ok (torque_limit_at_speed F interp l (F.abs s.velocity_rad_s)) _ g in
          record {
            finite = e;
            envelope_torque = torque;
            envelope_is = limited;
            margins_hold =
                filter-empty (is_negative F) (margins_of F s l torque)
                  (ap (λ x. x.healthy) (ok_injective g1) ∙ healthy);
          }
      step false e g = cc

  -- A motor of a bank with a sample and limits, within them.
  pub record IsCovered (samples : Samples F interp) (limits : Limits F interp) (name : String)
      : Type 0 where
    pub sample : MotorTelemetry F
    pub limit : MotorTelemetryLimits F
    pub sampled : get samples name ≡ some sample
    pub limited : get limits name ≡ some limit
    pub within : IsWithin sample limit

  module _ (samples : Samples F interp) (limits : Limits F interp) where
    decide_all-IsCovered :
        (expected : List String) (ds : Decisions F interp)
        → decide_all F interp samples limits expected ≡ ok ds
        → All (λ n. not (is_some (get samples n)) ≡ false) expected
        → All (λ n. not (is_some (get limits n)) ≡ false) expected
        → All (λ d. not d.1.healthy ≡ false) ds
        → All (IsCovered samples limits) expected
    unfolding decide_all
    decide_all-IsCovered [] ds h hs hl healthy = tt
    decide_all-IsCovered (name ∷ rest) ds h (s0, hs) (l0, hl) healthy =
        step (get samples name) refl (get limits name) refl s0 l0 h (decide_all-IsCovered rest)
      where
        step :
            (o : Option (MotorTelemetry F))
            → get samples name ≡ o
            → (q : Option (MotorTelemetryLimits F)) → get limits name ≡ q
            → not (is_some o) ≡ false
            → not (is_some q) ≡ false
            → decide_one F interp name o q (decide_all F interp samples limits rest) ≡ ok ds
            → ((later : Decisions F interp)
                → decide_all F interp samples limits rest ≡ ok later
                → All (λ n. not (is_some (get samples n)) ≡ false) rest
                → All (λ n. not (is_some (get limits n)) ≡ false) rest
                → All (λ d. not d.1.healthy ≡ false) later
                → All (IsCovered samples limits) rest)
            → IsCovered samples limits name × All (IsCovered samples limits) rest
        step none e q g a b k ih = cc
        step (some s) e none g a b k ih = cc
        step (some s) e (some l) g a b k ih =
            let (d, one, k1) = >>=-eq-ok (evaluate_motor_telemetry F interp s l) _ k in
            let (later, more, k2) = >>=-eq-ok (decide_all F interp samples limits rest) _ k1 in
            let (d_healthy, all_healthy) =
              subst (λ r. All (λ x. not x.1.healthy ≡ false) r) (sym (ok_injective k2)) healthy in
            (
              record {
                sample = s;
                limit = l;
                sampled = e;
                limited = g;
                within = evaluate_motor_telemetry-IsWithin s l one (not-false d.healthy d_healthy);
              },
              ih later more hs hl all_healthy,
            )

    -- A bank that is reported healthy has, for every expected motor, a sample and limits that the
    -- sample is within, and has no sample of any other motor.
    pub evaluate_motor_bank-IsCovered :
        (expected : List String) {r : BankReport F interp}
        → evaluate_motor_bank F interp samples limits expected ≡ ok r
        → r.healthy ≡ true
        → All (IsCovered samples limits) expected
          × (is_empty (extra_in F interp samples expected) ≡ true)
    unfolding evaluate_motor_bank
    evaluate_motor_bank-IsCovered expected {r} h healthy =
        let (ds, decided, h1) = >>=-eq-ok (decide_all F interp samples limits expected) _ h in
        let all_four = ap (λ x. x.healthy) (ok_injective h1) ∙ healthy in
        let missing = missing_from F interp samples expected in
        let extra = extra_in F interp samples expected in
        let unlimited = missing_from F interp limits expected in
        let unhealthy = unhealthy_in F interp ds in
        let (rest1, no_unhealthy) =
          &&-true (is_empty missing && is_empty extra && is_empty unlimited) (is_empty unhealthy)
            all_four in
        let (rest2, no_unlimited) =
          &&-true (is_empty missing && is_empty extra) (is_empty unlimited) rest1 in
        let (no_missing, no_extra) = &&-true (is_empty missing) (is_empty extra) rest2 in
        (
          decide_all-IsCovered expected ds decided (filter-empty _ expected no_missing)
              (filter-empty _ expected no_unlimited)
              (filter-empty _ ds (map-empty _ _ no_unhealthy)),
          no_extra,
        )
