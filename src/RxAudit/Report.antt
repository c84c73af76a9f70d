-- ===== src/RxAudit/Report.antt =====
-- src/open_sprite_runtime/damiao.py: the report of a receive-only audit.
use Prim.Native.String.{compare as compare_strings}
use Prim.Native.Nat.{Ordering}
use open_sprite_runtime.Prelude.{
  ℕ, ◌-◌, Bool, true, false, not, ◌&&◌, ◌||◌, String, Option, none, some, List, [], ◌∷◌, ◌++◌, ltb,
  if◌then◌else◌, length, get_or, map,
}
use open_sprite_runtime.Prelude.Int.{ℤ, pos, negsuc, ◌-ℤ◌, ltb_ℤ}
use open_sprite_runtime.Prelude.Result.{Exception, runtime_error}
use open_sprite_runtime.Dict.{Dict}
use open_sprite_runtime.Float.{FloatOps, lit, zero_float, ratio}
use open_sprite_runtime.Damiao.Decode.{DamiaoFeedback}
use open_sprite_runtime.RxAudit.{Key, DamiaoRxAudit}

-- `sorted(xs)`: each is put in front of those that it is not greater than.
module _ {A : Type 0} (less : A → A → Bool) where
  abbrev pub insert : A → List A → List A
  insert x [] = x ∷ []
  insert x (y ∷ ys) = let later = y ∷ insert x ys in if less y x then later else x ∷ y ∷ ys

  abbrev pub sorted : List A → List A
  sorted [] = []
  sorted (x ∷ xs) = insert x (sorted xs)

abbrev pub less_string : String → String → Bool
less_string a b = elim (compare_strings a b) [ Ordering.lt ↦ true | _ ↦ false ]

-- Tuples are compared from the left.
abbrev pub less_key : Key → Key → Bool
less_key (i, m) (j, n) = less_string i j || not (less_string j i) && ltb m n

module _ (F : FloatOps) where
  -- `_percentile_99`; none is infinity.
  abbrev pub index_of : Option ℤ → ℕ
  index_of none = 0
  index_of (some (pos n)) = n - 1
  index_of (some (negsuc n)) = 0

  unfoldable pub percentile_99 : List F.Carrier → Option F.Carrier
  percentile_99 [] = none
  percentile_99 (x ∷ xs) = some (
      get_or (sorted F.ltb (x ∷ xs))
        (index_of (F.ceil (F.mul (ratio F 99 100) (lit F (length (x ∷ xs)))))) (zero_float F))

  pub record DamiaoMotorRxStats : Type 0 where
    pub samples : ℕ
    pub feedback_hz : F.Carrier
    pub maximum_hardware_gap_ms : F.Carrier
    pub userspace_queue_age_p99_ms : Option F.Carrier
    pub maximum_mos_temperature_c : ℕ
    pub maximum_rotor_temperature_c : ℕ

  pub record DamiaoRxAuditReport : Type 0 where
    pub expected_motor_count : ℕ
    pub seen_motor_count : ℕ
    pub missing_motors : List String
    pub motor_stats : Dict DamiaoMotorRxStats
    pub errors : List Exception
    pub observed_control_frame_count : ℕ
    pub decoded_feedback_frame_count : ℕ
    pub unexpected_frame_count : ℕ

  -- `DamiaoRxAuditReport.passed`
  unfoldable pub audit_passed : DamiaoRxAuditReport → Bool
  audit_passed r = elim r.errors [ [] ↦ true | _ ∷ _ ↦ false ]

  -- The largest positive difference of neighbours, of samples with the newest first.
  unfoldable pub maximum_gap : List (DamiaoFeedback F) → ℤ
  maximum_gap [] = pos 0
  maximum_gap (current ∷ []) = pos 0
  maximum_gap (current ∷ previous ∷ rest) =
      let later = maximum_gap (previous ∷ rest) in
      let gap = current.hardware_timestamp_ns -ℤ previous.hardware_timestamp_ns in
      if ltb_ℤ later gap then gap else later

  -- `sample.hardware_timestamp_ns` of the oldest
  abbrev pub oldest : ℤ → List (DamiaoFeedback F) → ℤ
  oldest time [] = time
  oldest time (f ∷ rest) = oldest f.hardware_timestamp_ns rest

  abbrev pub elapsed : List (DamiaoFeedback F) → ℤ
  elapsed [] = pos 0
  elapsed (f ∷ rest) = f.hardware_timestamp_ns -ℤ oldest f.hardware_timestamp_ns rest

  unfoldable pub feedback_rate : List (DamiaoFeedback F) → F.Carrier
  feedback_rate samples =
      if ltb 1 (length samples) && ltb_ℤ (pos 0) (elapsed samples)
      then F.div (F.mul (lit F (length samples - 1)) (lit F 1_000_000_000))
          (F.of_int (elapsed samples))
      else zero_float F

  abbrev pub milliseconds : ℤ → F.Carrier
  milliseconds ns = F.div (F.of_int ns) (lit F 1_000_000)

  abbrev pub queue_ages : List (DamiaoFeedback F) → List F.Carrier
  queue_ages = map (λ f. milliseconds (f.userspace_receive_timestamp_ns -ℤ f.software_timestamp_ns))

  abbrev pub exceeds : Option F.Carrier → F.Carrier → Bool
  exceeds none limit = true
  exceeds (some value) limit = F.ltb limit value

  abbrev pub largest : (DamiaoFeedback F → ℕ) → List (DamiaoFeedback F) → ℕ
  largest field [] = 0
  largest field (f ∷ rest) =
      let later = largest field rest in if ltb later (field f) then field f else later

  abbrev pub when : Bool → String → List Exception
  when true message = runtime_error message ∷ []
  when false message = []

  module _ (a : DamiaoRxAudit F) where
    -- What the report notes of the samples of a motor.
    unfoldable pub motor_errors : List (DamiaoFeedback F) → List Exception
    unfolding feedback_rate maximum_gap percentile_99
    motor_errors [] = []
    motor_errors (f ∷ rest) =
        when (ltb (length (f ∷ rest)) a.minimum_samples_per_motor) "too few samples"
        ++ when (F.ltb (feedback_rate (f ∷ rest)) a.minimum_feedback_hz) "feedback rate is too low"
        ++ when (F.ltb a.maximum_hardware_gap_ms (milliseconds (maximum_gap (f ∷ rest))))
            "hardware timestamp gap is too large"
        ++ when
            (exceeds (percentile_99 (queue_ages (f ∷ rest))) a.maximum_userspace_queue_age_p99_ms)
            "userspace queue age P99 is too large"

    abbrev pub stats_of : String → List (DamiaoFeedback F) → Dict DamiaoMotorRxStats
    stats_of name [] = []
    stats_of name (f ∷ rest) =
        (
          name,
          record {
            samples = length (f ∷ rest);
            feedback_hz = feedback_rate (f ∷ rest);
            maximum_hardware_gap_ms = milliseconds (maximum_gap (f ∷ rest));
            userspace_queue_age_p99_ms = percentile_99 (queue_ages (f ∷ rest));
            maximum_mos_temperature_c = largest (λ g. g.mos_temperature_c) (f ∷ rest);
            maximum_rotor_temperature_c = largest (λ g. g.rotor_temperature_c) (f ∷ rest);
          },
        )
        ∷ []

    abbrev pub missing_of : String → List (DamiaoFeedback F) → List String
    missing_of name [] = name ∷ []
    missing_of name (_ ∷ _) = []

    -- One list for each entry of a dictionary, one behind the other.
    abbrev pub gathered {ℓ} :
        {B : Type ℓ}
        → (String → List (DamiaoFeedback F) → List B)
        → Dict (List (DamiaoFeedback F))
        → List B
    gathered f [] = []
    gathered f ((name, samples) ∷ rest) = f name samples ++ gathered f rest

    abbrev pub by_name : Dict (List (DamiaoFeedback F))
    by_name = sorted (λ x y. less_string x.0 y.0) a.samples

    abbrev pub missing_motors : List String
    missing_motors = gathered missing_of by_name

    abbrev pub missing_errors : List String → List Exception
    missing_errors [] = []
    missing_errors (_ ∷ _) = runtime_error "missing motor feedback" ∷ []

    unfoldable pub report : DamiaoRxAuditReport
    unfolding motor_errors feedback_rate maximum_gap percentile_99
    report = record {
      expected_motor_count = length a.samples;
      seen_motor_count = length a.samples - length missing_motors;
      missing_motors = missing_motors;
      motor_stats = gathered stats_of by_name;
      errors =
          a.errors
          ++ map (λ key. runtime_error "unexpected CAN endpoint")
              (sorted less_key a.unexpected_keys)
          ++ gathered (λ name samples. motor_errors samples) by_name
          ++ missing_errors missing_motors;
      observed_control_frame_count = a.observed_control_frames;
      decoded_feedback_frame_count = a.decoded_feedback_frames;
      unexpected_frame_count = length a.unexpected_keys;
    }
