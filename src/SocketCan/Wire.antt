-- ===== src/SocketCan/Wire.antt =====
-- What each writer can put on the bus: an invariant of everything that was handed to its socket, for
-- any sequence of calls and whatever the socket does.
use open_sprite_runtime.Prelude.{
  ℕ, ◌≤◌, ◌≡◌, refl, true, ◌&&◌, ◌⊎◌, List, [], ◌∷◌, leb, ◌==◌, length, all, All, &&-true, leb→le,
  ==_iff, arith,
}
use open_sprite_runtime.Prelude.Result.{
  Result, ok, err, require, value_error, require-eq-ok, require-true, >>=-eq-ok, ◌>>◌,
}
use open_sprite_runtime.Bytes.{Bytes}
use open_sprite_runtime.SocketCan.{max_standard_id, canfd_pack}
use open_sprite_runtime.SocketCan.Loopback.{Carries, canfd_pack-Carries}
use open_sprite_runtime.SocketCan.Writer.{
  SendOutcome, Wire, velocity_raw, kp_raw, kd_raw, torque_raw, is_encoded_zero,
  validate_zero_gain_mit_payload, Counted, count_send, send_built, send_zero_gain_poll, mem,
  parameter_can_id, read_request, send_read_request, send_set_zero, set_zero_payload,
}

-- A frame that carries an identifier and eight bytes of which `P` holds.
pub record Frame (P : ℕ → Bytes → Type 0) (frame : Bytes) : Type 0 where
  pub id : ℕ
  pub payload : Bytes
  pub carries : Carries frame id payload
  pub holds : P id payload

-- Every frame on the wire is one of which `P` holds.
abbrev pub Emits : (ℕ → Bytes → Type 0) → Wire → Type 0
Emits P = All (Frame P)

module _ (os : Bytes → SendOutcome) where
  wire-count_send : (frame : Bytes) (s : Counted) → (count_send os frame s).1.wire ≡ frame ∷ s.wire
  unfolding count_send
  wire-count_send frame s = ground arith

  -- A call adds at most the frame that it built.
  send_built-All :
      {Q : Bytes → Type 0} (built : Result Bytes) (s : Counted)
      → ((frame : Bytes) → built ≡ ok frame → Q frame)
      → All Q s.wire
      → All Q (send_built os built s).1.wire
  send_built-All (err e) s new old = old
  send_built-All (ok frame) s new old = rw (wire-count_send frame s) (new frame refl, old)

-- A zero-gain MIT poll: an 11-bit identifier and eight bytes with raw Kp = Kd = 0, whose velocity
-- and torque are one of the two codes next to zero.
pub record IsZeroGain (id : ℕ) (payload : Bytes) : Type 0 where
  pub standard : id ≤ 0x7ff
  pub size : length payload ≡ 8
  pub kp_zero : kp_raw payload ≡ 0
  pub kd_zero : kd_raw payload ≡ 0
  pub velocity_zero : (velocity_raw payload ≡ 2047) ⊎ (velocity_raw payload ≡ 2048)
  pub torque_zero : (torque_raw payload ≡ 2047) ⊎ (torque_raw payload ≡ 2048)

IsZeroGain-of_checks :
    (id : ℕ) (payload : Bytes) {u : Unit {0}}
    → leb id max_standard_id ≡ true
    → validate_zero_gain_mit_payload payload ≡ ok u
    → IsZeroGain id payload
unfolding validate_zero_gain_mit_payload
IsZeroGain-of_checks id payload low valid =
    let (size, v1) = require-eq-ok (length payload == 8) _ _ valid in
    let (gains, v2) = require-eq-ok (kp_raw payload == 0 && kd_raw payload == 0) _ _ v1 in
    let codes =
      require-true (is_encoded_zero (velocity_raw payload) && is_encoded_zero (torque_raw payload))
        _ v2 in
    let (kp, kd) = &&-true (kp_raw payload == 0) (kd_raw payload == 0) gains in
    let (velocity, torque) =
      &&-true (is_encoded_zero (velocity_raw payload)) (is_encoded_zero (torque_raw payload))
        codes in
    record {
      standard = leb→le id max_standard_id low;
      size = (==_iff (length payload) 8).0 size;
      kp_zero = (==_iff (kp_raw payload) 0).0 kp;
      kd_zero = (==_iff (kd_raw payload) 0).0 kd;
      velocity_zero = encoded_zero (velocity_raw payload) velocity;
      torque_zero = encoded_zero (torque_raw payload) torque;
    }
  where
    encoded_zero : (raw : ℕ) → is_encoded_zero raw ≡ true → (raw ≡ 2047) ⊎ (raw ≡ 2048)
    encoded_zero raw h = ground arith

-- Any sequence of polls.
pub run_polls : List (ℕ × Bytes × (Bytes → SendOutcome)) → Counted → Counted
run_polls [] s = s
run_polls ((id, payload, os) ∷ rest) s = run_polls rest (send_zero_gain_poll os id payload s).1

send_zero_gain_poll-Emits :
    (os : Bytes → SendOutcome) (id : ℕ) (payload : Bytes) (s : Counted)
    → Emits IsZeroGain s.wire
    → Emits IsZeroGain (send_zero_gain_poll os id payload s).1.wire
unfolding send_zero_gain_poll
send_zero_gain_poll-Emits os id payload s old = send_built-All os _ s new old
  where
    new :
        (frame : Bytes)
        → (require
              (leb id max_standard_id)
              (value_error "zero-gain poll requires an 11-bit standard CAN ID")
            >> (validate_zero_gain_mit_payload payload >> canfd_pack id payload))
          ≡ ok frame
        → Frame IsZeroGain frame
    new frame e =
        let (low, e1) = require-eq-ok (leb id max_standard_id) _ _ e in
        let (u, valid, e2) = >>=-eq-ok (validate_zero_gain_mit_payload payload) _ e1 in
        let small = leb→le id max_standard_id low in
        record {
          id = id;
          payload = payload;
          carries = canfd_pack-Carries id payload (omega arith) e2;
          holds = IsZeroGain-of_checks id payload low valid;
        }

-- Whatever sequence of polls is asked for, and whatever the socket does with each, every frame that
-- the zero-gain poller hands to its socket is a zero-gain MIT poll, if that held before.
pub run_polls-Emits :
    (polls : List (ℕ × Bytes × (Bytes → SendOutcome))) (s : Counted)
    → Emits IsZeroGain s.wire
    → Emits IsZeroGain (run_polls polls s).wire
unfolding run_polls
run_polls-Emits [] s old = old
run_polls-Emits ((id, payload, os) ∷ rest) s old =
    run_polls-Emits rest (send_zero_gain_poll os id payload s).1
      (send_zero_gain_poll-Emits os id payload s old)

-- A register read request: the parameter identifier, and eight bytes that name an allowed motor, the
-- read opcode and an allowed register, with no value to write.
pub record IsRegisterRead (allowed registers : List ℕ) (id : ℕ) (payload : Bytes) : Type 0 where
  pub motor : ℕ
  pub register : ℕ
  pub to_parameters : id ≡ parameter_can_id
  pub motor_allowed : mem motor allowed ≡ true
  pub register_allowed : mem register registers ≡ true
  pub request : payload ≡ read_request motor register

-- Whatever is asked for, a register reader hands to its socket nothing but read requests for a motor
-- and a register of its two allowlists, if that held before.
pub send_read_request-Emits :
    (os : Bytes → SendOutcome) (allowed registers : List ℕ) (motor register : ℕ) (s : Counted)
    → Emits (IsRegisterRead allowed registers) s.wire
    → Emits
        (IsRegisterRead allowed registers)
        (send_read_request os allowed registers motor register s).1.wire
unfolding send_read_request
send_read_request-Emits os allowed registers motor register s old = send_built-All os _ s new old
  where
    new :
        (frame : Bytes)
        → (require
              (mem motor allowed)
              (value_error "motor CAN ID is outside the register-read allowlist")
            >> (require (mem register registers) (value_error "register may not be read")
                >> canfd_pack parameter_can_id (read_request motor register)))
          ≡ ok frame
        → Frame (IsRegisterRead allowed registers) frame
    new frame e =
        let (motor_ok, e1) = require-eq-ok (mem motor allowed) _ _ e in
        let (register_ok, e2) = require-eq-ok (mem register registers) _ _ e1 in
        record {
          id = parameter_can_id;
          payload = read_request motor register;
          carries =
              canfd_pack-Carries parameter_can_id (read_request motor register) (omega arith) e2;
          holds = record {
            motor = motor;
            register = register;
            to_parameters = refl;
            motor_allowed = motor_ok;
            register_allowed = register_ok;
            request = refl;
          };
        }

-- The set-zero frame for an allowed motor.
pub record IsSetZero (allowed : List ℕ) (id : ℕ) (payload : Bytes) : Type 0 where
  pub allowed_id : mem id allowed ≡ true
  pub is_set_zero : payload ≡ set_zero_payload

mem-le :
    (x : ℕ) (ids : List ℕ)
    → all (λ i. leb i max_standard_id) ids ≡ true
    → mem x ids ≡ true
    → x ≤ 0x7ff
mem-le x [] ok_ids m = absurd (ground arith)
mem-le x (y ∷ ys) ok_ids m =
    let (first, rest) =
      &&-true (leb y max_standard_id) (all (λ i. leb i max_standard_id) ys) ok_ids in
    ground (arith, mem-le x ys rest)

-- Whatever is asked for, the set-zero writer hands to its socket nothing but the set-zero frame for
-- an identifier of its allowlist, if that held before and the allowlist has 11-bit identifiers, as
-- its constructor checks.
pub send_set_zero-Emits :
    (os : Bytes → SendOutcome) (allowed : List ℕ) (can_id : ℕ) (s : Counted)
    → all (λ i. leb i max_standard_id) allowed ≡ true
    → Emits (IsSetZero allowed) s.wire
    → Emits (IsSetZero allowed) (send_set_zero os allowed can_id s).1.wire
unfolding send_set_zero
send_set_zero-Emits os allowed can_id s standard old = send_built-All os _ s new old
  where
    new :
        (frame : Bytes)
        → (require (mem can_id allowed) (value_error "CAN ID is not in the set-zero allowlist")
            >> canfd_pack can_id set_zero_payload)
          ≡ ok frame
        → Frame (IsSetZero allowed) frame
    new frame e =
        let (member, e1) = require-eq-ok (mem can_id allowed) _ _ e in
        let small = mem-le can_id allowed standard member in
        record {
          id = can_id;
          payload = set_zero_payload;
          carries = canfd_pack-Carries can_id set_zero_payload (omega arith) e1;
          holds = record { allowed_id = member; is_set_zero = refl };
        }
