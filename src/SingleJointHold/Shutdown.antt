-- ===== src/SingleJointHold/Shutdown.antt =====
-- src/open_sprite_runtime/single_joint_hold.py: the `finally` block of a run, and the frames of the
-- whole of it.
use open_sprite_runtime.Prelude.{
  ℕ, zero, suc, ◌+◌, ◌≤◌, ◌≡◌, refl, sym, Bool, true, false, not, ◌&&◌, ◌||◌, String, some, arith,
  Bool-cases, inl, inr, ltb, leb, leb→le, &&-true,
}
use open_sprite_runtime.Prelude.Result.{Result, ok, err, require-eq-ok, ok_injective}
use open_sprite_runtime.Prelude.Action.{
  After, After-always, Leads, >>=-Leads, lift-Leads, last-Leads, modify-Leads, >>=-last,
}
use open_sprite_runtime.Float.{FloatOps}
use open_sprite_runtime.SocketCan.MitWriter.{SingleMotorMitWriter, new_single_writer, is_empty}
use open_sprite_runtime.SocketCan.{max_standard_id}
use open_sprite_runtime.Damiao.Command.{encode_zero_gain_position_echo}
use open_sprite_runtime.SingleJointHold.Session.{
  Exchange, ShutdownRound, Session, Plan, Hold, begun, receive_selected, send_command, send_disable,
  echo,
}
use open_sprite_runtime.SingleJointHold.Supervise.{
  envelope, body, recorded, poll_position, is_disabled, shutdown_round, next_round, shutdown,
  verified, shut_down, breaks, supervise,
}
use open_sprite_runtime.SingleJointHold.Trail.{polling, powered, stopping, Trail}
use open_sprite_runtime.SingleJointHold.Calls.{
  send_disable-At, encode_zero_gain_position_echo-eq-ok,
}
use open_sprite_runtime.SingleJointHold.Order.{InPhase, IsOpen, writing-Leads, body-Leads}

module _ (F : FloatOps) (p : Plan F) (own : ℕ) (low : own ≤ 0x7ff) where
  Stopping : ℕ → Hold F → Type 0
  Stopping n = InPhase F p own low (stopping n)

  send_disable-Leads :
      (n : ℕ) (r : ShutdownRound)
      → Leads (Stopping n) (Stopping (suc n)) (Stopping (suc n)) (send_disable F r.disable_os)
  unfolding send_disable Stopping
  send_disable-Leads n r = record {
    leads = λ s at.
        let done = send_disable-At F p.endpoint (envelope F p) own low r.disable_os n s.writer at in
        After-always (Stopping (suc n)) (Stopping (suc n)) _ _ done done;
  }

  echo-Leads :
      (n : ℕ) (position : F.Carrier) (x : Exchange)
      → Leads
          (Stopping (suc n))
          (Stopping (suc n))
          (Stopping (suc n))
          (echo F p.endpoint position x)
  unfolding echo Stopping
  echo-Leads n position x =
      lift-Leads (encode_zero_gain_position_echo F p.endpoint position) _ (λ s at. at)
        λ c e.
          >>=-Leads (send_command F x.os c) _
            (writing-Leads F p own low (stopping (suc n)) (stopping (suc n)) (Stopping (suc n)) x.os
              c (λ frame wire for old. Trail.verified for old) (omega arith)
              ((encode_zero_gain_position_echo-eq-ok F p.endpoint position e).1)
              (record { position = position; encoded = c; echoes = e; same = refl }) (λ s at. at)
              (λ s at. at))
            λ done.
              last-Leads (receive_selected F p.endpoint x.receipts) (λ s at. at) (λ a e2 s at. at)

  -- Each round of the shutdown sends one more disable frame, whatever it raises.
  shutdown_round-Leads :
      (n : ℕ) (position : F.Carrier) (r : ShutdownRound)
      → Leads (Stopping n) (Stopping (suc n)) (Stopping (suc n)) (shutdown_round F p position r)
  unfolding shutdown_round Stopping
  shutdown_round-Leads n position r =
      >>=-Leads (send_disable F r.disable_os) _ (send_disable-Leads n r) λ done.
        >>=-Leads (echo F p.endpoint position r.poll) _ (echo-Leads n position r.poll) λ final.
          modify-Leads {M = Stopping (suc n)}
            (λ s. record s {
              final_status = some final.status_name;
              final_measured = some final.position_rad;
            })
            (breaks F p) (λ s at. at) (record { leads = λ s at. at })

  -- A round that breaks off the loop has counted three disable frames.
  abbrev HasThree : Result Bool × Hold F → Type 0
  HasThree (r, s) = r ≡ ok true → 3 ≤ s.writer.disable_attempts

  shutdown_round-HasThree :
      (position : F.Carrier) (r : ShutdownRound) (s : Hold F)
      → HasThree (shutdown_round F p position r s)
  unfolding shutdown_round
  shutdown_round-HasThree position r =
      >>=-last HasThree (send_disable F r.disable_os) _ (λ x s h. cc)
        λ done.
          >>=-last HasThree (echo F p.endpoint position r.poll) _ (λ x s h. cc)
            λ final s h.
              leb→le 3 s.writer.disable_attempts
                (&&-true (leb 3 s.writer.disable_attempts) _ (ok_injective h)).0

  -- The shutdown ends behind three disable frames.
  Stopped : Hold F → Type 0
  Stopped s = (n : ℕ) × (3 ≤ n) × Stopping n s

  next_round-Stopped :
      (n : ℕ) (later : Hold F → Hold F) (r : Result Bool × Hold F)
      → HasThree r
      → After (Stopping (suc n)) (Stopping (suc n)) r
      → ((s : Hold F) → Stopping (suc n) s → Stopped (later s))
      → Stopped (next_round F p later r)
  unfolding Stopped Stopping
  next_round-Stopped n later (ok true, s) three at go =
      (suc n, omega (arith, three refl, at.attempts), at)
  next_round-Stopped n later (ok false, s) three at go = go s at
  next_round-Stopped n later (err x, s) three at go = go s at

  shutdown-Stopped :
      (script : ℕ → ShutdownRound) (position : F.Carrier) (rounds attempts : ℕ) (s : Hold F)
      → 3 ≤ rounds + attempts
      → Stopping attempts s
      → Stopped (shutdown F p script position rounds attempts s)
  unfolding shutdown Stopped
  shutdown-Stopped script position zero attempts s enough at = (attempts, omega (arith, enough), at)
  shutdown-Stopped script position (suc rounds) attempts s enough at =
      elim (Bool-cases (ltb attempts 3 || not (is_disabled F p s.final_status))) [
        | inl goes ↦ rw goes (
            next_round-Stopped attempts (shutdown F p script position rounds (suc attempts))
              (shutdown_round F p position (script attempts) s)
              (shutdown_round-HasThree position (script attempts) s)
              ((shutdown_round-Leads attempts position (script attempts)).leads s at)
              (λ u.
                shutdown-Stopped script position rounds (suc attempts) u (omega (arith, enough))))
        | inr ends ↦ rw ends (attempts, ground (arith, ends), at)
      ]

  verified-Stopped : (s : Hold F) → Stopped s → Stopped (verified F p s)
  unfolding Stopped Stopping
  verified-Stopped s h = elim (Bool-cases (is_disabled F p s.final_status)) [
    | inl off ↦ rw off h
    | inr on ↦ rw on h
  ]

  recorded-Stopping :
      (r : Result (Unit {0}) × Hold F)
      → After (InPhase F p own low powered) (IsOpen F p own low) r
      → Stopping 0 (recorded F p r)
  unfolding Stopping
  recorded-Stopping (ok a, s) at = record {
    same_id = at.same_id;
    trail = Trail.stops at.trail;
    attempts = at.attempts;
  }
  recorded-Stopping (err x, s) (inl (n, at)) = record {
    same_id = at.same_id;
    trail = Trail.aborts at.trail;
    attempts = at.attempts;
  }
  recorded-Stopping (err x, s) (inr at) = record {
    same_id = at.same_id;
    trail = Trail.stops at.trail;
    attempts = at.attempts;
  }

  shut_down-Stopped :
      (session : Session F) (s : Hold F) → Stopping 0 s → Stopped (shut_down F p session s)
  unfolding shut_down
  shut_down-Stopped session s at = verified-Stopped _ (
      shutdown-Stopped session.shutdown (poll_position F p s.initial_position) (3 + session.further)
        0 s (omega arith) at)

supervise-Stopped :
    (F : FloatOps) (p : Plan F) (session : Session F) (writer : SingleMotorMitWriter) (own : ℕ)
    (low : own ≤ 0x7ff)
    → InPhase F p own low (polling 0) (begun F writer)
    → Stopped F p own low (supervise F p session writer)
unfolding supervise
supervise-Stopped F p session writer own low start =
    shut_down-Stopped F p own low session (recorded F p (body F p session (begun F writer))) (
      recorded-Stopping F p own low (body F p session (begun F writer))
        ((body-Leads F p own low session).leads (begun F writer) start))

-- Whatever the operating system does with each frame, whatever is received and whatever is raised, the
-- frames of a supervised run with a new writer are a trail of its phases that ends behind at least three
-- disable frames: first zero-gain polls, then at most one enable frame behind at least two polls and
-- with it the commands, each encoded inside the envelope of the run, and from the first disable frame on
-- nothing but disable frames and zero-gain polls, all for the motor of the writer.
pub supervise-Trail :
    (F : FloatOps) (p : Plan F) (session : Session F) (interface motor_name : String) (can_id : ℕ)
    {writer : SingleMotorMitWriter}
    → new_single_writer interface motor_name can_id ≡ ok writer
    → (n : ℕ) × (3 ≤ n)
      × Trail F p.endpoint
          (envelope F p)
          can_id
          (stopping n)
          (supervise F p session writer).writer.wire
unfolding new_single_writer Stopped Stopping
supervise-Trail F p session interface motor_name can_id {writer} h =
    let (named, made) =
      require-eq-ok (not (is_empty motor_name) && leb can_id max_standard_id) _ _ h in
    let low =
      leb→le can_id 0x7ff
        (&&-true (not (is_empty motor_name)) (leb can_id max_standard_id) named).1 in
    let (n, three, at) = supervise-Stopped F p session writer can_id low (
      rw (sym (ok_injective made))
        (record { same_id = refl; trail = Trail.begins; attempts = omega arith })) in
    (n, three, at.trail)
