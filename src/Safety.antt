-- ===== src/Safety.antt =====
-- src/open_sprite_runtime/safety.py: the gates in front of hardware transmission. A Python set of
-- blocker names is its characteristic function on `Blocker`, and `sorted` lists its members in the
-- alphabetical order of the names. Timestamps are monotonic nanosecond counts, natural numbers.
pub mod Gate
pub mod Latch
use open_sprite_runtime.Prelude.{
  ℕ, ◌-◌, Bool, true, false, not, ◌&&◌, ◌||◌, List, [], ◌∷◌, ltb, if◌then◌else◌, any,
}
use open_sprite_runtime.Prelude.Int.{pos}
use open_sprite_runtime.Prelude.Result.{
  Result, ok, err, value_error, runtime_error, require, raise_if, ◌>>=◌, ◌>>◌,
}
use open_sprite_runtime.Float.{FloatOps, lit, zero_float}

pub data RuntimeMode : Type 0 where
  dry_run shadow armed : RuntimeMode

abbrev pub is_armed : RuntimeMode → Bool
is_armed armed = true
is_armed _ = false

-- The names that block transmission, in alphabetical order.
pub data Blocker : Type 0 where
  allow_hardware_tx command_limit command_stale estop_unhealthy hardware_configured : Blocker
  head_differential_calibrated imu_invalid left_ankle_calibrated : Blocker
  mode_dry_run_no_tx mode_shadow_no_tx motor_limit policy_overrun : Blocker
  right_ankle_calibrated state_stale : Blocker

abbrev pub alphabetical : List Blocker
alphabetical =
    allow_hardware_tx ∷ command_limit ∷ command_stale ∷ estop_unhealthy ∷ hardware_configured
    ∷ head_differential_calibrated ∷ imu_invalid ∷ left_ankle_calibrated ∷ mode_dry_run_no_tx
    ∷ mode_shadow_no_tx ∷ motor_limit ∷ policy_overrun ∷ right_ankle_calibrated ∷ state_stale ∷ []

abbrev pub BlockerSet : Type 0
BlockerSet = Blocker → Bool

abbrev pub members : BlockerSet → List Blocker → List Blocker
members s [] = []
members s (b ∷ bs) = if s b then b ∷ members s bs else members s bs

-- `tuple(sorted(names))`
unfoldable pub sorted : BlockerSet → List Blocker
sorted s = members s alphabetical

-- `_LATCHING_FAULTS`
abbrev pub latching : BlockerSet
latching estop_unhealthy = true
latching state_stale = true
latching policy_overrun = true
latching motor_limit = true
latching command_limit = true
latching _ = false

-- `SafetyState` and its two methods.
pub record SafetyState : Type 0 where
  pub allow_hardware_tx : Bool
  pub hardware_configured : Bool
  pub left_ankle_calibrated : Bool
  pub right_ankle_calibrated : Bool
  pub head_differential_calibrated : Bool
  pub imu_valid : Bool
  pub estop_healthy : Bool
  pub state_fresh : Bool
  pub motor_telemetry_healthy : Bool

pub data StateCheck : Type 0 where
  allow_tx configured left_ankle right_ankle head imu estop fresh telemetry : StateCheck

abbrev pub not_ready : List (StateCheck × Bool) → List StateCheck
not_ready [] = []
not_ready ((name, ready) ∷ rest) = if not ready then name ∷ not_ready rest else not_ready rest

-- The dictionary that `SafetyState.blockers` builds.
abbrev pub checks : SafetyState → List (StateCheck × Bool)
checks s =
    (allow_tx, s.allow_hardware_tx)
    ∷ (configured, s.hardware_configured)
    ∷ (left_ankle, s.left_ankle_calibrated)
    ∷ (right_ankle, s.right_ankle_calibrated)
    ∷ (head, s.head_differential_calibrated)
    ∷ (imu, s.imu_valid)
    ∷ (estop, s.estop_healthy)
    ∷ (fresh, s.state_fresh)
    ∷ (telemetry, s.motor_telemetry_healthy)
    ∷ []

unfoldable pub state_blockers : SafetyState → List StateCheck
state_blockers s = not_ready (checks s)

abbrev pub require_none : List StateCheck → Result (Unit {0})
require_none [] = ok tt
require_none (b ∷ bs) = err (runtime_error "hardware arm blocked by")

unfoldable pub require_armed : SafetyState → Result (Unit {0})
unfolding state_blockers
require_armed s = require_none (state_blockers s)

module _ (F : FloatOps) where
  pub record SafetyLimits : Type 0 where
    pub maximum_state_age_ms : F.Carrier
    pub maximum_command_age_ms : F.Carrier
    pub maximum_policy_overrun_ms : F.Carrier

  unfoldable pub validate_limits : SafetyLimits → Result (Unit {0})
  validate_limits l = do
    raise_if (F.leb l.maximum_state_age_ms (zero_float F))
        (value_error "maximum_state_age_ms must be positive")
    raise_if (F.leb l.maximum_command_age_ms (zero_float F))
        (value_error "maximum_command_age_ms must be positive")
    raise_if (F.leb l.maximum_policy_overrun_ms (zero_float F))
        (value_error "maximum_policy_overrun_ms must be positive")

  pub record SafetyInputs : Type 0 where
    pub now_ns : ℕ
    pub state_timestamp_ns : ℕ
    pub command_timestamp_ns : ℕ
    pub policy_overrun_ms : F.Carrier
    pub allow_hardware_tx : Bool
    pub hardware_configured : Bool
    pub left_ankle_calibrated : Bool
    pub right_ankle_calibrated : Bool
    pub head_differential_calibrated : Bool
    pub imu_valid : Bool
    pub estop_healthy : Bool
    pub motor_telemetry_healthy : Bool
    pub command_envelope_healthy : Bool

  pub record SafetyDecision : Type 0 where
    pub mode : RuntimeMode
    pub hardware_tx_permitted : Bool
    pub safe_hold_required : Bool
    pub blockers : List Blocker
    pub latched_faults : List Blocker
    pub state_age_ms : F.Carrier
    pub command_age_ms : F.Carrier

  pub record SafetySupervisor : Type 0 where
    pub mode : RuntimeMode
    pub limits : SafetyLimits
    pub latched : BlockerSet

  unfoldable pub new_supervisor : RuntimeMode → SafetyLimits → Result SafetySupervisor
  unfolding validate_limits
  new_supervisor mode limits = do
    validate_limits limits
    ok (record { mode = mode; limits = limits; latched = λ b. false })

  -- `clear_latched_faults` of the names that the caller shows to be healthy.
  unfoldable pub clear_latched_faults : BlockerSet → SafetySupervisor → SafetySupervisor
  clear_latched_faults healthy s = record s {
    latched = λ b. s.latched b && not (healthy b && latching b);
  }

  -- `(now_ns - timestamp_ns) / 1.0e6`, behind the test that the timestamp is not in the future.
  abbrev pub age_ms : ℕ → ℕ → F.Carrier
  age_ms now stamp = F.div (F.of_int (pos (now - stamp))) (lit F 1_000_000)

  -- The checks of `evaluate` that are not ready.
  unfoldable pub failing : SafetyLimits → SafetyInputs → BlockerSet
  failing l i allow_hardware_tx = not i.allow_hardware_tx
  failing l i hardware_configured = not i.hardware_configured
  failing l i left_ankle_calibrated = not i.left_ankle_calibrated
  failing l i right_ankle_calibrated = not i.right_ankle_calibrated
  failing l i head_differential_calibrated = not i.head_differential_calibrated
  failing l i imu_invalid = not i.imu_valid
  failing l i estop_unhealthy = not i.estop_healthy
  failing l i motor_limit = not i.motor_telemetry_healthy
  failing l i command_limit = not i.command_envelope_healthy
  failing l i state_stale =
      not (F.leb (age_ms i.now_ns i.state_timestamp_ns) l.maximum_state_age_ms)
  failing l i command_stale =
      not (F.leb (age_ms i.now_ns i.command_timestamp_ns) l.maximum_command_age_ms)
  failing l i policy_overrun = not (F.leb i.policy_overrun_ms l.maximum_policy_overrun_ms)
  failing l i mode_dry_run_no_tx = false
  failing l i mode_shadow_no_tx = false

  -- `blockers.add(f"mode_{self.mode.value}_no_tx")` unless armed
  abbrev pub mode_blocker : RuntimeMode → BlockerSet
  mode_blocker dry_run mode_dry_run_no_tx = true
  mode_blocker shadow mode_shadow_no_tx = true
  mode_blocker _ _ = false

  -- `self._latched_faults` behind the update, and the blockers.
  abbrev pub latched_with : BlockerSet → BlockerSet → BlockerSet
  latched_with dynamic old b = old b || (dynamic b && latching b)

  abbrev pub blocking : RuntimeMode → BlockerSet → BlockerSet → BlockerSet
  blocking mode dynamic latched b = dynamic b || latched b || mode_blocker mode b

  -- `not blockers` of a set
  abbrev pub none_of : BlockerSet → Bool
  none_of s = not (any s alphabetical)

  abbrev pub decision : SafetySupervisor → SafetyInputs → SafetyDecision × SafetySupervisor
  decision s i =
      let dynamic = failing s.limits i in
      let latched = latched_with dynamic s.latched in
      let blockers = blocking s.mode dynamic latched in
      let permitted = is_armed s.mode && none_of blockers in
      (
        record {
          mode = s.mode;
          hardware_tx_permitted = permitted;
          safe_hold_required = not permitted;
          blockers = sorted blockers;
          latched_faults = sorted latched;
          state_age_ms = age_ms i.now_ns i.state_timestamp_ns;
          command_age_ms = age_ms i.now_ns i.command_timestamp_ns;
        },
        record s { latched = latched },
      )

  unfoldable pub evaluate :
      SafetyInputs → SafetySupervisor → Result (SafetyDecision × SafetySupervisor)
  unfolding failing sorted
  evaluate i s = do
    raise_if (ltb i.now_ns i.state_timestamp_ns || ltb i.now_ns i.command_timestamp_ns)
        (value_error "timestamps cannot be in the future")
    ok (decision s i)
