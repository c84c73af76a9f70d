-- ===== src/ImuReceive.antt =====
-- src/open_sprite_runtime/imu_receive.py: the bounded, nonblocking drain of the IMU's serial port.
-- The port and the clock are the environment: what `port.in_waiting`, `clock_ns()` and `port.read`
-- answer in each round is an argument, and so are the clock's readings before the commit. `accept`
-- is a callback that returns. A clock's difference is one of naturals: it is compared only with
-- `> 30_000_000`, which a negative difference and 0 both fail. `drain_imu` adds diagnostics only.
pub mod Exact
pub mod Fresh
use open_sprite_runtime.Prelude.{
  ℕ, zero, suc, ◌+◌, ◌-◌, Bool, true, false, ◌&&◌, ◌||◌, Option, none, some, List, [], ◌∷◌, ◌++◌,
  ltb, leb, ◌==◌, if◌then◌else◌, length, map,
}
use open_sprite_runtime.Prelude.Result.{
  Result, Exception, ok, err, runtime_error, raise_if, ◌>>=◌, ◌>>◌,
}
use open_sprite_runtime.Bytes.{Bytes}
use open_sprite_runtime.Float.{FloatOps}
use open_sprite_runtime.Yahboom.{
  YahboomPacket, raw_imu, quaternion, euler, YahboomStreamDecoder, feed,
}

abbrev pub maximum_age_ns : ℕ
maximum_age_ns = 30000000

abbrev pub maximum_bytes : ℕ
maximum_bytes = 256

-- What the port and the clock answer in one round.
pub record Poll : Type 0 where
  pub pending : ℕ
  pub now_ns : ℕ
  pub payload : Bytes

abbrev pub is_empty {ℓ} : {A : Type ℓ} → List A → Bool
is_empty [] = true
is_empty (_ ∷ _) = false

-- `min(received_ns, partial_since) if partial_since is not None else received_ns`
abbrev pub packet_time : ℕ → Option ℕ → ℕ
packet_time received none = received
packet_time received (some since) = if ltb since received then since else received

-- `if timestamp <= 0 or timestamp > now_ns` and the age that follows it, of one timestamp
abbrev pub require_fresh : ℕ → ℕ → ℕ → Result (Unit {0})
require_fresh timestamp now maximum = do
  raise_if (leb timestamp 0 || ltb now timestamp) (runtime_error "IMU receipt timestamp invalid")
  raise_if (ltb maximum (now - timestamp)) (runtime_error "IMU stale")

unfoldable pub require_fresh_imu : ℕ → ℕ → ℕ → ℕ → Result (Unit {0})
require_fresh_imu raw quaternion_ns now maximum = do
  require_fresh raw now maximum
  require_fresh quaternion_ns now maximum

module _ (F : FloatOps) where
  -- The decoder with the `_partial_received_ns` that the drain keeps on it.
  pub record ImuReceiver : Type 0 where
    pub decoder : YahboomStreamDecoder F
    pub partial_received_ns : Option ℕ

  -- A decoded packet with its receipt time.
  abbrev pub Stamped : Type 0
  Stamped = YahboomPacket F × ℕ

  -- The locals of the loop.
  pub record Batch : Type 0 where
    pub receiver : ImuReceiver
    pub total : ℕ
    pub packets : List Stamped
    pub raw_count : ℕ
    pub quaternion_count : ℕ

  -- `counts[type(packet)] += 1` and its limit, for each packet of a round
  unfoldable pub tally : ℕ → ℕ → List (YahboomPacket F) → Result (ℕ × ℕ)
  tally raws quaternions [] = ok (raws, quaternions)
  tally raws quaternions (raw_imu a w m ∷ rest) = do
    raise_if (ltb 2 (suc raws)) (runtime_error "IMU backlog contains more than two report cycles")
    tally (suc raws) quaternions rest
  tally raws quaternions (quaternion q ∷ rest) = do
    raise_if (ltb 2 (suc quaternions))
        (runtime_error "IMU backlog contains more than two report cycles")
    tally raws (suc quaternions) rest
  tally raws quaternions (euler e ∷ rest) = tally raws quaternions rest

  -- `packet_time if index == 0 else received_ns`
  abbrev pub stamp : ℕ → ℕ → List (YahboomPacket F) → List Stamped
  stamp first later [] = []
  stamp first later (p ∷ ps) = (p, first) ∷ map (λ q. (q, later)) ps

  abbrev pub partial_after : ℕ → Option ℕ → Bytes → List (YahboomPacket F) → Option ℕ
  partial_after received since [] decoded = none
  partial_after received since (_ ∷ _) decoded =
      some (if is_empty decoded then packet_time received since else received)

  -- The receiver behind a read.
  unfoldable pub receiver_after : ℕ → Bytes → ImuReceiver → ImuReceiver
  receiver_after started payload r = record {
    decoder = (feed F r.decoder payload).0;
    partial_received_ns =
        partial_after started r.partial_received_ns (feed F r.decoder payload).0.buffer
          (feed F r.decoder payload).1;
  }

  -- The batch behind a read whose packets are counted.
  unfoldable pub batch_after : ℕ → Bytes → Batch → ℕ × ℕ → Batch
  unfolding receiver_after
  batch_after started payload b (raws, quaternions) = record {
    receiver = receiver_after started payload b.receiver;
    total = b.total + length payload;
    packets =
        b.packets
        ++ stamp (packet_time started b.receiver.partial_received_ns) started
            (feed F b.receiver.decoder payload).1;
    raw_count = raws;
    quaternion_count = quaternions;
  }

  pub data Step : Type 0 where
    -- `break`, and the next round
    leave : Step
    again : Batch → Step
    -- an exception, with the receiver it leaves behind
    raised : Exception → ImuReceiver → Step

  abbrev pub counted : ℕ → Bytes → Batch → Result (ℕ × ℕ) → Step
  counted started payload b (ok counts) = again (batch_after started payload b counts)
  counted started payload b (err x) = raised x (receiver_after started payload b.receiver)

  abbrev pub after_read : ℕ → Bytes → Batch → Step
  after_read started payload b =
      if is_empty payload
      then leave
      else counted started payload b
          (tally b.raw_count b.quaternion_count (feed F b.receiver.decoder payload).1)

  -- One round of `for iteration in range(8)`.
  unfoldable pub round : ℕ → Poll → Batch → Step
  unfolding tally
  round started p b =
      if p.pending == 0
      then leave
      else if ltb maximum_bytes (b.total + p.pending) || ltb maximum_age_ns (p.now_ns - started)
      then raised (runtime_error "IMU receive backlog exceeds bounded drain") b.receiver
      else after_read started p.payload b

  abbrev pub Read : Type 0
  Read = Result Batch × ImuReceiver

  abbrev pub proceed : (Batch → Read) → Batch → Step → Read
  proceed next b leave = (ok b, b.receiver)
  proceed next b (again b') = next b'
  proceed next b (raised x r) = (err x, r)

  -- The loop, from its `iteration`-th round with `rounds` left, and its `else` clause.
  unfoldable pub read_rounds : (ℕ → Poll) → ℕ → (rounds iteration : ℕ) → Batch → Read
  read_rounds port started zero iteration b =
      (err (runtime_error "IMU receive queue did not drain"), b.receiver)
  read_rounds port started (suc rounds) iteration b =
      proceed (read_rounds port started rounds (suc iteration)) b (round started (port iteration) b)

  -- The commit: `clock i` is the reading before the `i`-th packet. The second component lists the
  -- calls of `accept`.
  unfoldable pub commit : (ℕ → ℕ) → ℕ → List Stamped → Result (Unit {0}) × List Stamped
  commit clock i [] = (ok tt, [])
  commit clock i ((p, received) ∷ rest) =
      let later = commit clock (suc i) rest in
      if ltb maximum_age_ns (clock i - received)
      then (err (runtime_error "IMU decoded packet stale before commit"), [])
      else (later.0, (p, received) ∷ later.1)

  pub record Drained : Type 0 where
    pub outcome : Result (Unit {0})
    pub receiver : ImuReceiver
    pub accepted : List Stamped

  abbrev pub rejected : Exception → ImuReceiver → Drained
  rejected x r = record { outcome = err x; receiver = r; accepted = [] }

  abbrev pub committing : (ℕ → ℕ) → ℕ → ℕ → Read → Drained
  committing clock started checked_ns (err x, r) = rejected x r
  committing clock started checked_ns (ok b, r) =
      if ltb maximum_age_ns (checked_ns - started)
      then rejected (runtime_error "IMU receive batch stale before commit") r
      else record {
        outcome = (commit clock 0 b.packets).0;
        receiver = r;
        accepted = (commit clock 0 b.packets).1;
      }

  abbrev pub is_partial_stale : ℕ → ImuReceiver → Bool
  is_partial_stale started r = stale r.decoder.buffer r.partial_received_ns
    where
      stale : Bytes → Option ℕ → Bool
      stale [] since = false
      stale (_ ∷ _) none = false
      stale (_ ∷ _) (some since) = ltb maximum_age_ns (started - since)

  abbrev pub empty_batch : ImuReceiver → Batch
  empty_batch r = record {
    receiver = r;
    total = 0;
    packets = [];
    raw_count = 0;
    quaternion_count = 0;
  }

  -- `_drain_imu`
  unfoldable pub drain_imu : (ℕ → Poll) → (started checked_ns : ℕ) → (ℕ → ℕ) → ImuReceiver → Drained
  unfolding read_rounds commit
  drain_imu port started checked_ns clock r =
      if is_partial_stale started r
      then rejected (runtime_error "IMU partial frame stale") r
      else committing clock started checked_ns (read_rounds port started 8 0 (empty_batch r))
