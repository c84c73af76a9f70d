-- ===== src/SingleJointHold/Calls.antt =====
-- src/open_sprite_runtime/single_joint_hold.py: what each call of the writer adds to the frames of a
-- run.
use text.Mathlib.Text.{◌==◌ as str_eq}
use open_sprite_runtime.Prelude.{
  ℕ, suc, ◌≤◌, ◌≡◌, refl, sym, ap, Bool, true, false, not, ◌||◌, ◌∷◌, ◌==◌, if◌then◌else◌, length,
  arith,
}
use open_sprite_runtime.Prelude.Result.{ok, err, value_error, >>=-eq-ok, ok_injective}
use open_sprite_runtime.Prelude.Action.{After, After-always}
use open_sprite_runtime.Bytes.{Bytes}
use open_sprite_runtime.Float.{FloatOps, zero_float}
use open_sprite_runtime.SocketCan.Hands.{For, send_payload-For, counted-le}
use open_sprite_runtime.SocketCan.Writer.{
  SendOutcome, Wire, Outcome, enable_payload, disable_payload,
}
use open_sprite_runtime.SocketCan.MitWriter.{
  SingleMotorMitWriter, send_payload, counted, single_send_command, single_send_enable,
  single_send_disable,
}
use open_sprite_runtime.Damiao.Encoded.{EncodedDamiaoMitCommand}
use open_sprite_runtime.Damiao.Command.{
  DamiaoFeedbackEndpoint, DamiaoMitCommand, DamiaoMitState, DamiaoMitCommandEnvelope,
  encode_damiao_mit_command, encode_zero_gain_position_echo, check_envelope, check_command,
  float_to_uint_strict, gain_range, validate_state, validate_command, validate_envelope,
  echo_command, echo_envelope, mit_payload,
}
use open_sprite_runtime.SingleJointHold.Trail.{Phase, polling, powered, stopping, Trail}

module _ (F : FloatOps) where
  -- What is encoded is for the endpoint's motor, and has eight bytes.
  pub encode_damiao_mit_command-eq-ok :
      (e : DamiaoFeedbackEndpoint F) (c : DamiaoMitCommand F) (s : DamiaoMitState F)
      (v : DamiaoMitCommandEnvelope F) {p : EncodedDamiaoMitCommand}
      → encode_damiao_mit_command F e c s v ≡ ok p
      → (p.motor_name ≡ e.motor_name) × (length p.payload ≡ 8)
  unfolding encode_damiao_mit_command mit_payload
  encode_damiao_mit_command-eq-ok e c s v h =
      let (_, _, h1) = >>=-eq-ok (check_envelope F e.ranges v) _ h in
      let (_, _, h2) = >>=-eq-ok (check_command F c s v) _ h1 in
      let (_, _, h3) =
        >>=-eq-ok (float_to_uint_strict F c.position_rad e.ranges.position_rad 16) _ h2 in
      let (_, _, h4) =
        >>=-eq-ok (float_to_uint_strict F c.velocity_rad_s e.ranges.velocity_rad_s 12) _ h3 in
      let (_, _, h5) = >>=-eq-ok (float_to_uint_strict F c.kp (gain_range F 500) 12) _ h4 in
      let (_, _, h6) = >>=-eq-ok (float_to_uint_strict F c.kd (gain_range F 5) 12) _ h5 in
      let (_, _, h7) =
        >>=-eq-ok (float_to_uint_strict F c.feedforward_torque_nm e.ranges.torque_nm 12) _ h6 in
      let made = sym (ok_injective h7) in
      (ap (λ encoded. encoded.motor_name) made, ap (λ encoded. length encoded.payload) made)

  pub encode_zero_gain_position_echo-eq-ok :
      (e : DamiaoFeedbackEndpoint F) (position : F.Carrier) {p : EncodedDamiaoMitCommand}
      → encode_zero_gain_position_echo F e position ≡ ok p
      → (p.motor_name ≡ e.motor_name) × (length p.payload ≡ 8)
  unfolding encode_zero_gain_position_echo
  encode_zero_gain_position_echo-eq-ok e position h =
      let (_, _, h1) =
        >>=-eq-ok
          (validate_state F (record { position_rad = position; velocity_rad_s = zero_float F })) _
          h in
      let (_, _, h2) = >>=-eq-ok (validate_command F (echo_command F position)) _ h1 in
      let (_, _, h3) = >>=-eq-ok (validate_envelope F (echo_envelope F e.ranges)) _ h2 in
      encode_damiao_mit_command-eq-ok e _ _ _ h3

-- The disable frames that a phase has seen.
abbrev pub stops_of : Phase → ℕ
stops_of (stopping n) = n
stops_of _ = 0

module _ (F : FloatOps) (e : DamiaoFeedbackEndpoint F) (v : DamiaoMitCommandEnvelope F) (own : ℕ)
    (low : own ≤ 0x7ff) where
  -- A writer for the motor whose frames are those of a phase, and which has counted no more disable
  -- frames than it sent.
  pub record At (phase : Phase) (w : SingleMotorMitWriter) : Type 0 where
    pub same_id : w.can_id ≡ own
    pub trail : Trail F e v own phase w.wire
    pub attempts : w.disable_attempts ≤ stops_of phase

  -- A frame with a payload of which `P` holds leads from a phase to the next.
  abbrev pub Step : (Bytes → Type 0) → Phase → Phase → Type 0
  Step P now later =
      (frame : Bytes) (wire : Wire)
      → For own P frame
      → Trail F e v own now wire
      → Trail F e v own later (frame ∷ wire)

  trail-send_payload :
      (os : Bytes → SendOutcome) {P : Bytes → Type 0} (now later : Phase) (payload : Bytes)
      (w : SingleMotorMitWriter)
      → Step P now later
      → length payload ≡ 8
      → P payload
      → At now w
      → Trail F e v own later (send_payload os w.can_id payload w.wire).1
  trail-send_payload os now later payload w step eight p at =
      let (frame, for, adds) = send_payload-For os own payload w.wire low eight p in
      rw (at.same_id, adds) (step frame w.wire for at.trail)

  pub send_command-After :
      (os : Bytes → SendOutcome) {P : Bytes → Type 0} (now later : Phase)
      (c : EncodedDamiaoMitCommand) (w : SingleMotorMitWriter) {Q : SingleMotorMitWriter → Type 0}
      → Step P now later
      → stops_of now ≤ stops_of later
      → length c.payload ≡ 8
      → P c.payload
      → ((u : SingleMotorMitWriter) → At now u → Q u)
      → ((u : SingleMotorMitWriter) → At later u → Q u)
      → At now w
      → After (At later) Q (single_send_command os c w)
  unfolding single_send_command
  send_command-After os now later c w {Q} step more eight p weaken weaken_later at = by_test (
      not (str_eq c.motor_name w.motor_name)
      || not (str_eq c.interface w.interface)
      || not (c.can_id == w.can_id))
    where
      sent_one : At later (record w {
        wire = (send_payload os w.can_id c.payload w.wire).1;
        command_tx_attempts =
            counted (send_payload os w.can_id c.payload w.wire).0 w.command_tx_attempts;
      })
      sent_one = record {
        same_id = at.same_id;
        trail = trail-send_payload os now later c.payload w step eight p at;
        attempts = omega (arith, at.attempts, more);
      }

      by_test :
          (b : Bool)
          → After (At later) Q (
              if◌then◌else◌ {A = Outcome SingleMotorMitWriter} b
                (err (value_error "encoded MIT command is outside the single-motor allowlist"), w)
                (
                  (send_payload os w.can_id c.payload w.wire).0,
                  record w {
                    wire = (send_payload os w.can_id c.payload w.wire).1;
                    command_tx_attempts =
                        counted (send_payload os w.can_id c.payload w.wire).0 w.command_tx_attempts;
                  },
                ))
      by_test true = weaken w at
      by_test false = After-always (At later) Q _ _ sent_one (weaken_later _ sent_one)

  pub send_enable-At :
      (os : Bytes → SendOutcome) (n : ℕ) (w : SingleMotorMitWriter)
      → At (polling (suc (suc n))) w
      → At powered (single_send_enable os w).1
  unfolding single_send_enable
  send_enable-At os n w at = record {
    same_id = at.same_id;
    trail =
        trail-send_payload os (polling (suc (suc n))) powered enable_payload w
          (λ frame wire for old. Trail.enabled for old) refl refl at;
    attempts = at.attempts;
  }

  pub send_disable-At :
      (os : Bytes → SendOutcome) (n : ℕ) (w : SingleMotorMitWriter)
      → At (stopping n) w
      → At (stopping (suc n)) (single_send_disable os w).1
  unfolding single_send_disable
  send_disable-At os n w at = record {
    same_id = at.same_id;
    trail =
        trail-send_payload os (stopping n) (stopping (suc n)) disable_payload w
          (λ frame wire for old. Trail.disabled for old) refl refl at;
    attempts =
        counted-le (send_payload os w.can_id disable_payload w.wire).0 w.disable_attempts n
          at.attempts;
  }
