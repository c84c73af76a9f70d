-- ===== src/Tests/SafetyRuns.antt =====
-- Runs of the safety supervisor.
use open_sprite_runtime.Prelude.{◌≡◌, refl, ◌↔◌, Bool, true, false, not, ◌&&◌, [], ◌∷◌}
use open_sprite_runtime.Prelude.Result.{ok}
use open_sprite_runtime.Safety.{
  armed, estop_unhealthy, SafetyInputs, SafetyLimits, SafetySupervisor, decision, evaluate,
  clear_latched_faults, SafetyState, require_armed, failing,
}
use open_sprite_runtime.Safety.Gate.{
  IsClear, evaluate-permitted_iff, evaluate-blockers_iff, require_armed_iff,
}
use open_sprite_runtime.Safety.Latch.{evaluates, calls, latched-blocks, clear-calls}
use open_sprite_runtime.Tests.Floats.{naturals}

abbrev pub limits : SafetyLimits naturals
limits = record {
  maximum_state_age_ms = 20;
  maximum_command_age_ms = 100;
  maximum_policy_overrun_ms = 5;
}

abbrev pub supervisor : SafetySupervisor naturals
supervisor = record { mode = armed; limits = limits; latched = λ b. false }

abbrev pub inputs : Bool → SafetyInputs naturals
inputs estop = record {
  now_ns = 50_000_000;
  state_timestamp_ns = 48_000_000;
  command_timestamp_ns = 40_000_000;
  policy_overrun_ms = 1;
  allow_hardware_tx = true;
  hardware_configured = true;
  left_ankle_calibrated = true;
  right_ankle_calibrated = true;
  head_differential_calibrated = true;
  imu_valid = true;
  estop_healthy = estop;
  motor_telemetry_healthy = true;
  command_envelope_healthy = true;
}

abbrev stopped : SafetySupervisor naturals
stopped = (decision naturals supervisor (inputs false)).1

abbrev ready_state : SafetyState
ready_state = record {
  allow_hardware_tx = true;
  hardware_configured = true;
  left_ankle_calibrated = true;
  right_ankle_calibrated = true;
  head_differential_calibrated = true;
  imu_valid = true;
  estop_healthy = true;
  state_fresh = true;
  motor_telemetry_healthy = false;
}

latched-blocks_example : (decision naturals stopped (inputs true)).0.hardware_tx_permitted ≡ false
unfolding evaluate failing calls
latched-blocks_example =
    latched-blocks naturals estop_unhealthy supervisor stopped
      (decision naturals stopped (inputs true)).1 (inputs false) (inputs true)
      (decision naturals supervisor (inputs false)).0 (decision naturals stopped (inputs true)).0 []
      refl refl refl tt refl

evaluate-permitted_iff_example :
    ((decision naturals supervisor (inputs true)).0.hardware_tx_permitted ≡ true)
    ↔ IsClear naturals supervisor (inputs true)
unfolding evaluate
evaluate-permitted_iff_example =
    evaluate-permitted_iff naturals (inputs true) supervisor
      (decision naturals supervisor (inputs true)).1 (decision naturals supervisor (inputs true)).0
      refl

evaluate-blockers_iff_example :
    (((decision naturals supervisor (inputs false)).0.hardware_tx_permitted ≡ true)
      ↔ ((decision naturals supervisor (inputs false)).0.blockers ≡ []))
    × ((decision naturals supervisor (inputs false)).0.safe_hold_required
        ≡ not (decision naturals supervisor (inputs false)).0.hardware_tx_permitted)
unfolding evaluate
evaluate-blockers_iff_example =
    evaluate-blockers_iff naturals (inputs false) supervisor
      (decision naturals supervisor (inputs false)).1
      (decision naturals supervisor (inputs false)).0 refl

clear-calls_example :
    (clear_latched_faults naturals
        (λ b. true)
        (calls naturals supervisor (evaluates (inputs false) ∷ []))).latched
      estop_unhealthy
    ≡ ((calls naturals supervisor (evaluates (inputs false) ∷ [])).latched estop_unhealthy
        && not true)
clear-calls_example =
    clear-calls naturals supervisor (evaluates (inputs false) ∷ []) (λ b. true) estop_unhealthy
      (λ f. refl)

require_armed_iff_example : (require_armed ready_state ≡ ok tt) ↔ (
    (true ≡ true)
    × (true ≡ true)
    × (true ≡ true)
    × (true ≡ true)
    × (true ≡ true)
    × (true ≡ true)
    × (true ≡ true)
    × (true ≡ true)
    × (false ≡ true))
require_armed_iff_example = require_armed_iff ready_state
