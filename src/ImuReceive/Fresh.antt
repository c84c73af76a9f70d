-- ===== src/ImuReceive/Fresh.antt =====
-- The freshness of what the drain of imu_receive.py commits.
use open_sprite_runtime.Prelude.{
  ℕ, suc, ◌+◌, ◌-◌, ◌≤◌, ◌<◌, ◌≡◌, ◌↔◌, Bool, true, false, List, [], ◌∷◌, ltb, if◌then◌else◌, inl,
  inr, Bool-cases, arith,
}
use open_sprite_runtime.Prelude.Result.{ok, err}
use open_sprite_runtime.Float.{FloatOps}
use open_sprite_runtime.ImuReceive.{
  Poll, ImuReceiver, Stamped, Drained, Read, read_rounds, commit, committing, is_partial_stale,
  empty_batch, drain_imu, require_fresh_imu, maximum_age_ns,
}

-- The freshness test that the policy makes passes exactly when both receipt times are positive, not
-- in the future, and not older than the maximum age.
pub require_fresh_imu_iff :
    (raw quaternion_ns now maximum : ℕ)
    → (require_fresh_imu raw quaternion_ns now maximum ≡ ok tt) ↔ (
        (0 < raw)
        × (raw ≤ now)
        × (now ≤ raw + maximum)
        × (0 < quaternion_ns)
        × (quaternion_ns ≤ now)
        × (now ≤ quaternion_ns + maximum))
unfolding require_fresh_imu
require_fresh_imu_iff raw quaternion_ns now maximum = ground arith

module _ (F : FloatOps) (clock : ℕ → ℕ) where
  -- Packets each of which is at most the maximum age old at its own reading of the clock, the first
  -- one's being the `i`-th.
  abbrev pub AreFresh : ℕ → List (Stamped F) → Type 0
  AreFresh i [] = Unit
  AreFresh i (s ∷ rest) = (clock i ≤ s.1 + maximum_age_ns) × AreFresh (suc i) rest

  commit-AreFresh : (i : ℕ) (packets : List (Stamped F)) → AreFresh i (commit F clock i packets).1
  unfolding commit
  commit-AreFresh i [] = tt
  commit-AreFresh i ((p, received) ∷ rest) =
      elim (Bool-cases (ltb maximum_age_ns (clock i - received))) [
        | inl e ↦ rw e tt
        | inr e ↦ rw e (ground arith, commit-AreFresh (suc i) rest)
      ]

  if-accepted :
      (b : Bool) (x y : Drained F)
      → AreFresh 0 x.accepted
      → AreFresh 0 y.accepted
      → AreFresh 0 (if◌then◌else◌ {A = Drained F} b x y).accepted
  if-accepted true x y hx hy = hx
  if-accepted false x y hx hy = hy

  committing-AreFresh :
      (started checked_ns : ℕ) (read : Read F)
      → AreFresh 0 (committing F clock started checked_ns read).accepted
  committing-AreFresh started checked_ns (err x, r) = tt
  committing-AreFresh started checked_ns (ok b, r) =
      if-accepted (ltb maximum_age_ns (checked_ns - started)) _ _ tt (commit-AreFresh 0 b.packets)

  -- Every packet that the drain hands to `accept` is at most 30 ms old at the reading of the clock that
  -- is made for it, whatever the port delivers and however long each step takes.
  pub drain_imu-AreFresh :
      (port : ℕ → Poll) (started checked_ns : ℕ) (r : ImuReceiver F)
      → AreFresh 0 (drain_imu F port started checked_ns clock r).accepted
  unfolding drain_imu
  drain_imu-AreFresh port started checked_ns r =
      if-accepted (is_partial_stale F started r) _ _ tt
        (committing-AreFresh started checked_ns (read_rounds F port started 8 0 (empty_batch F r)))
