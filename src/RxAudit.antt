-- ===== src/RxAudit.antt =====
-- src/open_sprite_runtime/damiao.py: `DamiaoRxAudit`, which gathers the feedback of a receive-only trace.
-- The samples of a motor are kept with the newest first. The set of unexpected keys is a list without
-- repetitions.
pub mod Report
pub mod Totals
pub mod Rising
pub mod Setup
pub mod Expected
pub mod Names
pub mod Traced
pub mod Holds
pub mod Kept
pub mod Qualified
pub mod Verdict
use text.Mathlib.Text.{◌==◌ as str_eq}
use open_sprite_runtime.Prelude.{
  ℕ, suc, Bool, true, false, not, ◌&&◌, ◌||◌, String, Option, none, some, List, [], ◌∷◌, ◌++◌, ltb,
  ◌==◌, if◌then◌else◌, any, map,
}
use open_sprite_runtime.Prelude.Int.{leb_ℤ}
use open_sprite_runtime.Prelude.Result.{
  Exception, Result, ok, err, value_error, runtime_error, require, raise_if, ◌>>=◌, ◌>>◌,
}
use open_sprite_runtime.Dict.{Dict, set, adjust, item}
use open_sprite_runtime.Float.{FloatOps, zero_float}
use open_sprite_runtime.SocketCan.{ReceivedCanFrame}
use open_sprite_runtime.Damiao.Command.{DamiaoFeedbackEndpoint}
use open_sprite_runtime.Damiao.Decode.{DamiaoFeedback}
use open_sprite_runtime.Damiao.Decoder.{new_decoder, decode}

-- An interface and an identifier.
abbrev pub Key : Type 0
Key = String × ℕ

abbrev pub same_key : Key → Key → Bool
same_key (i, m) (j, n) = str_eq i j && m == n

abbrev pub knows : List Key → Key → Bool
knows keys key = any (same_key key) keys

module _ (F : FloatOps) where
  pub record DamiaoRxAudit : Type 0 where
    pub decoder : List (DamiaoFeedbackEndpoint F)
    pub feedback_keys : List Key
    pub command_keys : List Key
    pub minimum_samples_per_motor : ℕ
    pub minimum_feedback_hz : F.Carrier
    pub maximum_hardware_gap_ms : F.Carrier
    pub maximum_userspace_queue_age_p99_ms : F.Carrier
    pub samples : Dict (List (DamiaoFeedback F))
    pub errors : List Exception
    pub unexpected_keys : List Key
    pub observed_control_frames : ℕ
    pub decoded_feedback_frames : ℕ

  -- `{name: [] for name in self._expected}`
  abbrev pub no_samples : List (DamiaoFeedbackEndpoint F) → Dict (List (DamiaoFeedback F))
  no_samples [] = []
  no_samples (e ∷ rest) = set (no_samples rest) e.motor_name []

  abbrev pub is_limit : F.Carrier → Bool
  is_limit value = F.is_finite value && not (F.leb value (zero_float F))

  unfoldable pub new_audit :
      List (DamiaoFeedbackEndpoint F) → ℕ → (rate gap age : F.Carrier) → Result DamiaoRxAudit
  unfolding new_decoder set
  new_audit endpoints minimum rate gap age = do
    decoder ← new_decoder F endpoints
    let feedback_keys = map (λ (e : DamiaoFeedbackEndpoint F). (e.interface, e.master_id)) endpoints
    let command_keys = map (λ (e : DamiaoFeedbackEndpoint F). (e.interface, e.can_id)) endpoints
    raise_if (any (knows command_keys) feedback_keys)
        (value_error "Damiao command and feedback endpoints overlap")
    require (ltb 0 minimum) (value_error "minimum_samples_per_motor must be positive")
    require (is_limit rate) (value_error "minimum_feedback_hz must be finite and positive")
    require (is_limit gap) (value_error "maximum_hardware_gap_ms must be finite and positive")
    require (is_limit age)
        (value_error "maximum_userspace_queue_age_p99_ms must be finite and positive")
    ok (record {
      decoder = decoder;
      feedback_keys = feedback_keys;
      command_keys = command_keys;
      minimum_samples_per_motor = minimum;
      minimum_feedback_hz = rate;
      maximum_hardware_gap_ms = gap;
      maximum_userspace_queue_age_p99_ms = age;
      samples = no_samples endpoints;
      errors = [];
      unexpected_keys = [];
      observed_control_frames = 0;
      decoded_feedback_frames = 0;
    })

  -- `samples and feedback.hardware_timestamp_ns <= samples[-1].hardware_timestamp_ns`
  abbrev pub regressed : DamiaoFeedback F → List (DamiaoFeedback F) → Bool
  regressed f [] = false
  regressed f (last ∷ _) = leb_ℤ f.hardware_timestamp_ns last.hardware_timestamp_ns

  abbrev pub noted_if : Bool → Exception → List Exception → List Exception
  noted_if true x errors = errors ++ x ∷ []
  noted_if false x errors = errors

  abbrev pub is_faulty : DamiaoFeedback F → Bool
  is_faulty f = not (f.status_code == 0x0 || f.status_code == 0x1)

  -- What `ingest` does with a sample that was decoded, from the samples of its motor.
  unfoldable pub accepted :
      DamiaoFeedback F → List (DamiaoFeedback F) → DamiaoRxAudit → DamiaoRxAudit
  unfolding adjust
  accepted f old a = record a {
    errors =
        noted_if (is_faulty f) (runtime_error "motor fault")
          (noted_if (regressed f old) (runtime_error "raw hardware timestamp regressed") a.errors);
    samples = adjust (λ samples. f ∷ samples) a.samples f.motor_name;
    decoded_feedback_frames = suc a.decoded_feedback_frames;
  }

  abbrev pub with_samples :
      DamiaoRxAudit
      → Result (DamiaoFeedback F)
      → Result (DamiaoFeedback F × List (DamiaoFeedback F))
  with_samples a decoded = do f ← decoded; old ← item a.samples f.motor_name; ok (f, old)

  abbrev pub ingested :
      DamiaoRxAudit
      → Result (DamiaoFeedback F × List (DamiaoFeedback F))
      → Result (DamiaoFeedback F) × DamiaoRxAudit
  ingested a (err x) = (err x, a)
  ingested a (ok (f, old)) = (ok f, accepted f old a)

  unfoldable pub ingest :
      ReceivedCanFrame → DamiaoRxAudit → Result (DamiaoFeedback F) × DamiaoRxAudit
  unfolding decode accepted item
  ingest frame a = ingested a (with_samples a (decode F a.decoder frame))

  -- The feedback of a frame, if it is one.
  abbrev pub as_option :
      Result (DamiaoFeedback F) × DamiaoRxAudit → Result (Option (DamiaoFeedback F)) × DamiaoRxAudit
  as_option (ok f, a) = (ok (some f), a)
  as_option (err x, a) = (err x, a)

  -- `set.add`
  abbrev pub added : Key → List Key → List Key
  added key keys = if knows keys key then keys else key ∷ keys

  unfoldable pub ingest_bus_frame :
      ReceivedCanFrame → DamiaoRxAudit → Result (Option (DamiaoFeedback F)) × DamiaoRxAudit
  unfolding ingest
  ingest_bus_frame frame a =
      let key : Key = (frame.interface, frame.can_id) in
      if knows a.feedback_keys key
      then as_option (ingest frame a)
      else if knows a.command_keys key
      then (ok none, record a { observed_control_frames = suc a.observed_control_frames })
      else (ok none, record a { unexpected_keys = added key a.unexpected_keys })

  -- The frames of a trace, up to the first that raises: its exception is the outcome.
  abbrev pub goes_on :
      (DamiaoRxAudit → Result (Unit {0}) × DamiaoRxAudit)
      → Result (Option (DamiaoFeedback F)) × DamiaoRxAudit
      → Result (Unit {0}) × DamiaoRxAudit
  goes_on later (ok f, a) = later a
  goes_on later (err x, a) = (err x, a)

  unfoldable pub ingest_all :
      List ReceivedCanFrame → DamiaoRxAudit → Result (Unit {0}) × DamiaoRxAudit
  unfolding ingest_bus_frame
  ingest_all [] a = (ok tt, a)
  ingest_all (frame ∷ rest) a = goes_on (ingest_all rest) (ingest_bus_frame frame a)
