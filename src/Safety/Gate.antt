-- ===== src/Safety/Gate.antt =====
-- When the safety supervisor permits transmission.
use open_sprite_runtime.Prelude.{
  ◌≤◌, ◌≡◌, ◌↔◌, refl, sym, ap, ◌∙◌, Bool, true, false, not, ◌&&◌, ◌||◌, List, [], ◌∷◌, ltb, any,
  All, &&-true, arith,
}
use open_sprite_runtime.Prelude.Result.{ok, raise_if-eq-ok, ok_injective}
use open_sprite_runtime.Float.{FloatOps}
use open_sprite_runtime.Safety.{
  RuntimeMode, dry_run, shadow, armed, is_armed, Blocker, allow_hardware_tx, command_limit,
  command_stale, estop_unhealthy, hardware_configured, head_differential_calibrated, imu_invalid,
  left_ankle_calibrated, mode_dry_run_no_tx, mode_shadow_no_tx, motor_limit, policy_overrun,
  right_ankle_calibrated, state_stale, alphabetical, BlockerSet, members, sorted, latching,
  StateCheck, SafetyState, checks, not_ready, require_none, require_armed, SafetyInputs,
  SafetyDecision, SafetySupervisor, failing, mode_blocker, latched_with, blocking, none_of,
  decision, evaluate,
}

-- What holds of each listed name holds of every name.
every : (P : Blocker → Type 0) → All P alphabetical → (b : Blocker) → P b
every P h allow_hardware_tx = h.0
every P h command_limit = h.1.0
every P h command_stale = h.1.1.0
every P h estop_unhealthy = h.1.1.1.0
every P h hardware_configured = h.1.1.1.1.0
every P h head_differential_calibrated = h.1.1.1.1.1.0
every P h imu_invalid = h.1.1.1.1.1.1.0
every P h left_ankle_calibrated = h.1.1.1.1.1.1.1.0
every P h mode_dry_run_no_tx = h.1.1.1.1.1.1.1.1.0
every P h mode_shadow_no_tx = h.1.1.1.1.1.1.1.1.1.0
every P h motor_limit = h.1.1.1.1.1.1.1.1.1.1.0
every P h policy_overrun = h.1.1.1.1.1.1.1.1.1.1.1.0
every P h right_ankle_calibrated = h.1.1.1.1.1.1.1.1.1.1.1.1.0
every P h state_stale = h.1.1.1.1.1.1.1.1.1.1.1.1.1.0

All-clear : (s : BlockerSet) (bs : List Blocker) → any s bs ≡ false → All (λ b. s b ≡ false) bs
All-clear s [] h = tt
All-clear s (b ∷ bs) h = (ground arith, All-clear s bs (ground arith))

any_clear : (s : BlockerSet) (bs : List Blocker) → ((b : Blocker) → s b ≡ false) → any s bs ≡ false
any_clear s [] h = refl
any_clear s (b ∷ bs) h = rw (h b) (any_clear s bs h)

members_clear :
    (s : BlockerSet) (bs : List Blocker) → ((b : Blocker) → s b ≡ false) → members s bs ≡ []
members_clear s [] h = refl
members_clear s (b ∷ bs) h = rw (h b) (members_clear s bs h)

any_of_members : (s : BlockerSet) (bs : List Blocker) → members s bs ≡ [] → any s bs ≡ false
any_of_members s [] h = refl
any_of_members s (b ∷ bs) h = ground (arith, any_of_members s bs)

pub none_of_iff :
    (s : BlockerSet) → (not (any s alphabetical) ≡ true) ↔ ((b : Blocker) → s b ≡ false)
none_of_iff s = (
  λ h b. every (λ b. s b ≡ false) (All-clear s alphabetical (flip (any s alphabetical) h)) b,
  λ h. ap not (any_clear s alphabetical h),
)
  where
    flip : (b : Bool) → not b ≡ true → b ≡ false
    flip b h = ground arith

or_false : (a b c : Bool) → (a || b || c) ≡ false → (a ≡ false) × (b ≡ false) × (c ≡ false)
or_false a b c h = (ground arith, ground arith, ground arith)

is_armed_iff : (m : RuntimeMode) → (is_armed m ≡ true) ↔ (m ≡ armed)
is_armed_iff dry_run = (λ h. cc, λ h. cc)
is_armed_iff shadow = (λ h. cc, λ h. cc)
is_armed_iff armed = (λ h. refl, λ h. refl)

module _ (F : FloatOps) where
  -- An evaluation that does not raise decides, and its timestamps were not in the future.
  pub evaluate-eq-ok :
      (i : SafetyInputs F) (s : SafetySupervisor F) {r : SafetyDecision F × SafetySupervisor F}
      → evaluate F i s ≡ ok r
      → (i.state_timestamp_ns ≤ i.now_ns)
        × (i.command_timestamp_ns ≤ i.now_ns)
        × (r ≡ decision F s i)
  unfolding evaluate
  evaluate-eq-ok i s h =
      let (past, same) =
        raise_if-eq-ok (ltb i.now_ns i.state_timestamp_ns || ltb i.now_ns i.command_timestamp_ns) _
          (ok (decision F s i)) h in
      (ground arith, ground arith, sym (ok_injective same))

  -- Nothing stands against transmission: the supervisor is armed, every check of this evaluation is
  -- ready, and no fault is latched from an earlier one.
  pub record IsClear (s : SafetySupervisor F) (i : SafetyInputs F) : Type 0 where
    pub armed_mode : s.mode ≡ armed
    pub all_ready : (b : Blocker) → failing F s.limits i b ≡ false
    pub none_latched : (b : Blocker) → s.latched b ≡ false

  permitted : SafetySupervisor F → SafetyInputs F → Bool
  permitted s i = (decision F s i).0.hardware_tx_permitted

  permitted-IsClear :
      (s : SafetySupervisor F) (i : SafetyInputs F) → permitted s i ≡ true → IsClear s i
  unfolding permitted
  permitted-IsClear s i h =
      let dynamic = failing F s.limits i in
      let latched = latched_with F dynamic s.latched in
      let (mode, free) =
        &&-true (is_armed s.mode) (none_of F (blocking F s.mode dynamic latched)) h in
      let clear = (none_of_iff (blocking F s.mode dynamic latched)).0 free in
      record {
        armed_mode = (is_armed_iff s.mode).0 mode;
        all_ready = λ b. (or_false (dynamic b) (latched b) (mode_blocker F s.mode b) (clear b)).0;
        none_latched = λ b.
            first (s.latched b) (dynamic b && latching b)
              (or_false (dynamic b) (latched b) (mode_blocker F s.mode b) (clear b)).1;
      }
    where
      first : (a b : Bool) → (a || b) ≡ false → a ≡ false
      first a b h = ground arith

  failing-mode_blocker :
      (s : SafetySupervisor F) → s.mode ≡ armed → (b : Blocker) → mode_blocker F s.mode b ≡ false
  failing-mode_blocker s e b = rw e (unarmed b)
    where
      unarmed : (b : Blocker) → mode_blocker F armed b ≡ false
      unarmed allow_hardware_tx = refl
      unarmed _ = refl

  blocking-IsClear :
      (s : SafetySupervisor F) (i : SafetyInputs F)
      → IsClear s i
      → (b : Blocker)
      → blocking F s.mode (failing F s.limits i) (latched_with F (failing F s.limits i) s.latched) b
        ≡ false
  blocking-IsClear s i c b =
      rw (c.all_ready b, c.none_latched b, failing-mode_blocker s c.armed_mode b)

  IsClear-permitted :
      (s : SafetySupervisor F) (i : SafetyInputs F) → IsClear s i → permitted s i ≡ true
  unfolding permitted
  IsClear-permitted s i c = rw (
    (is_armed_iff s.mode).1 c.armed_mode,
    (none_of_iff (
          blocking F s.mode (failing F s.limits i)
            (latched_with F (failing F s.limits i) s.latched))).1
        (blocking-IsClear s i c),
  )

  -- An evaluation that does not raise permits transmission exactly if the supervisor is armed, every
  -- check is ready, and no fault is latched from before.
  pub evaluate-permitted_iff :
      (i : SafetyInputs F) (s s' : SafetySupervisor F) (d : SafetyDecision F)
      → evaluate F i s ≡ ok (d, s')
      → (d.hardware_tx_permitted ≡ true) ↔ IsClear s i
  unfolding permitted
  evaluate-permitted_iff i s s' d h =
      let (_, _, same) = evaluate-eq-ok i s h in
      let agrees : d.hardware_tx_permitted ≡ permitted s i =
        ap (λ r. r.0.hardware_tx_permitted) same in
      (λ p. permitted-IsClear s i (sym agrees ∙ p), λ c. agrees ∙ IsClear-permitted s i c)

  unblocked_mode :
      (m : RuntimeMode) → ((b : Blocker) → mode_blocker F m b ≡ false) → is_armed m ≡ true
  unblocked_mode dry_run h = cc (h mode_dry_run_no_tx)
  unblocked_mode shadow h = cc (h mode_shadow_no_tx)
  unblocked_mode armed h = refl

  -- The decision of an evaluation agrees with itself: transmission is permitted exactly if the list
  -- of blockers is empty, and a safe hold is required exactly if transmission is not permitted.
  pub evaluate-blockers_iff :
      (i : SafetyInputs F) (s s' : SafetySupervisor F) (d : SafetyDecision F)
      → evaluate F i s ≡ ok (d, s')
      → ((d.hardware_tx_permitted ≡ true) ↔ (d.blockers ≡ []))
        × (d.safe_hold_required ≡ not d.hardware_tx_permitted)
  unfolding permitted sorted
  evaluate-blockers_iff i s s' d h =
      let (_, _, same) = evaluate-eq-ok i s h in
      let agrees : d.hardware_tx_permitted ≡ permitted s i =
        ap (λ r. r.0.hardware_tx_permitted) same in
      let lists : d.blockers ≡ members blocked alphabetical = ap (λ r. r.0.blockers) same in
      (
        (
          λ p.
              lists
              ∙ members_clear blocked alphabetical
                  (blocking-IsClear s i (permitted-IsClear s i (sym agrees ∙ p))),
          λ empty. agrees ∙ free (any_of_members blocked alphabetical (sym lists ∙ empty)),
        ),
        ap (λ r. r.0.safe_hold_required) same ∙ ap not (sym agrees),
      )
    where
      blocked : BlockerSet
      blocked =
          blocking F s.mode (failing F s.limits i) (latched_with F (failing F s.limits i) s.latched)

      free : any blocked alphabetical ≡ false → permitted s i ≡ true
      free none =
          let clear = every (λ b. blocked b ≡ false) (All-clear blocked alphabetical none) in
          rw (
            none,
            unblocked_mode s.mode (λ b.
                (or_false (failing F s.limits i b)
                  (latched_with F (failing F s.limits i) s.latched b) (mode_blocker F s.mode b)
                  (clear b)).2),
          )

require_none_nil : (bs : List StateCheck) → require_none bs ≡ ok tt → bs ≡ []
require_none_nil [] h = refl
require_none_nil (b ∷ bs) h = cc

All-ready : (cs : List (StateCheck × Bool)) → not_ready cs ≡ [] → All (λ c. c.1 ≡ true) cs
All-ready [] h = tt
All-ready ((name, true) ∷ rest) h = (refl, All-ready rest h)
All-ready ((name, false) ∷ rest) h = cc

-- The static gate: arming is allowed exactly if all nine conditions of the safety state hold.
pub require_armed_iff :
    (s : SafetyState)
    → (require_armed s ≡ ok tt) ↔ (
        (s.allow_hardware_tx ≡ true)
        × (s.hardware_configured ≡ true)
        × (s.left_ankle_calibrated ≡ true)
        × (s.right_ankle_calibrated ≡ true)
        × (s.head_differential_calibrated ≡ true)
        × (s.imu_valid ≡ true)
        × (s.estop_healthy ≡ true)
        × (s.state_fresh ≡ true)
        × (s.motor_telemetry_healthy ≡ true))
unfolding require_armed
require_armed_iff s = (
  λ h.
      let r = All-ready (checks s) (require_none_nil (not_ready (checks s)) h) in
      (
        r.0, r.1.0, r.1.1.0, r.1.1.1.0, r.1.1.1.1.0, r.1.1.1.1.1.0, r.1.1.1.1.1.1.0,
        r.1.1.1.1.1.1.1.0, r.1.1.1.1.1.1.1.1.0,
      ),
  λ (h0, h1, h2, h3, h4, h5, h6, h7, h8). rw (h0, h1, h2, h3, h4, h5, h6, h7, h8),
)
