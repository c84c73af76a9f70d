-- ===== src/SocketCan/Writer.antt =====
-- The writers of socketcan.py. A socket is what was handed to its `send`; the outcome of each send,
-- the number of bytes taken or an OSError, is the operating system's and so a parameter.
use open_sprite_runtime.Prelude.{
  ℕ, suc, ◌+◌, ◌*◌, ◌/◌, ◌%◌, Bool, false, ◌&&◌, ◌||◌, List, [], ◌∷◌, ◌++◌, ltb, leb, ◌==◌, length,
  replicate, all, get_or,
}
use open_sprite_runtime.Prelude.Result.{
  Result, ok, err, value_error, runtime_error, os_error, require, ◌>>◌,
}
use open_sprite_runtime.Bytes.{Bytes}
use open_sprite_runtime.SocketCan.{max_standard_id, canfd_pack}

-- What `socket.send` does: it takes a number of bytes, or raises OSError.
pub data SendOutcome : Type 0 where
  sent : ℕ → SendOutcome
  failed : SendOutcome

-- The frames handed to `send`, the last one first.
abbrev pub Wire : Type 0
Wire = List Bytes

-- A method that sends: it may raise, and what it wrote before stays written.
abbrev pub Outcome : Type 0 → Type 0
Outcome S = Result (Unit {0}) × S

-- The result of a send that took `n` bytes of the frame.
abbrev pub short_write : Bytes → ℕ → Result (Unit {0})
short_write frame n = require (n == length frame) (runtime_error "short CAN-FD write")

-- `data[i]`
abbrev pub at : Bytes → ℕ → ℕ
at bytes i = get_or bytes i 0

-- The raw fields of an eight-byte MIT command.
abbrev pub velocity_raw : Bytes → ℕ
velocity_raw d = at d 2 * 16 + at d 3 / 16

abbrev pub kp_raw : Bytes → ℕ
kp_raw d = at d 3 % 16 * 256 + at d 4

abbrev pub kd_raw : Bytes → ℕ
kd_raw d = at d 5 * 16 + at d 6 / 16

abbrev pub torque_raw : Bytes → ℕ
torque_raw d = at d 6 % 16 * 256 + at d 7

abbrev pub is_encoded_zero : ℕ → Bool
is_encoded_zero raw = raw == 2047 || raw == 2048

unfoldable pub validate_zero_gain_mit_payload : Bytes → Result (Unit {0})
validate_zero_gain_mit_payload d = do
  require (length d == 8) (value_error "zero-gain MIT poll must contain exactly eight bytes")
  require (kp_raw d == 0 && kd_raw d == 0) (value_error "zero-gain MIT poll requires raw Kp=Kd=0")
  require (is_encoded_zero (velocity_raw d) && is_encoded_zero (torque_raw d))
      (value_error "zero-gain MIT poll requires encoded velocity=torque=0")

-- A writer that counts its sends: the frames on the wire, and `hardware_tx_attempts`.
pub record Counted : Type 0 where
  pub wire : Wire
  pub hardware_tx_attempts : ℕ

module _ (os : Bytes → SendOutcome) where
  -- `sent = send(frame); self.hardware_tx_attempts += 1; if sent != len(frame): raise`
  unfoldable pub count_send : Bytes → Counted → Outcome Counted
  count_send frame s =
      let handed = frame ∷ s.wire in
      elim (os frame) [
        | sent n ↦ (
          short_write frame n,
          record { wire = handed; hardware_tx_attempts = suc s.hardware_tx_attempts },
        )
        | failed ↦ (err os_error, record s { wire = handed })
      ]

  -- A frame that was built is sent; where building it raised, nothing was sent.
  abbrev pub send_built : Result Bytes → Counted → Outcome Counted
  send_built (ok frame) s = count_send frame s
  send_built (err e) s = (err e, s)

  unfoldable pub send_zero_gain_poll : ℕ → Bytes → Counted → Outcome Counted
  send_zero_gain_poll can_id payload = send_built do
    require (leb can_id max_standard_id)
        (value_error "zero-gain poll requires an 11-bit standard CAN ID")
    validate_zero_gain_mit_payload payload
    canfd_pack can_id payload

abbrev pub mem : ℕ → List ℕ → Bool
mem x [] = false
mem x (y ∷ ys) = x == y || mem x ys

abbrev pub parameter_can_id : ℕ
parameter_can_id = 0x7ff

abbrev pub read_opcode : ℕ
read_opcode = 0x33

-- `SocketCanDamiaoRegisterReader.ALLOWED_REGISTER_IDS`
abbrev pub mit_range_registers : List ℕ
mit_range_registers = 21 ∷ 22 ∷ 23 ∷ []

-- `SocketCanDamiaoCommissioningRegisterReader.ALLOWED_REGISTER_IDS`
abbrev pub commissioning_registers : List ℕ
commissioning_registers = 2 ∷ 3 ∷ 6 ∷ 13 ∷ 14 ∷ 36 ∷ []

-- The allowlist checks of the register reader's constructor.
unfoldable pub allowlist : List ℕ → Result (List ℕ)
allowlist ids = do
  require (ltb 0 (length ids)) (value_error "at least one motor CAN ID must be allowed")
  require (all (λ i. leb i max_standard_id) ids)
      (value_error "motor allowlist requires 11-bit standard CAN IDs")
  ok ids

-- The same of the set-zero writer's constructor.
unfoldable pub set_zero_allowlist : List ℕ → Result (List ℕ)
set_zero_allowlist ids = do
  require (ltb 0 (length ids)) (value_error "at least one set-zero CAN ID must be allowed")
  require (all (λ i. leb i max_standard_id) ids)
      (value_error "set-zero allowlist requires 11-bit standard CAN IDs")
  ok ids

-- The eight bytes of a register read request.
abbrev pub read_request : ℕ → ℕ → Bytes
read_request motor register =
    motor % 256 ∷ motor / 256 % 256 ∷ read_opcode ∷ register ∷ 0 ∷ 0 ∷ 0 ∷ 0 ∷ []

-- `SET_ZERO_PAYLOAD`, `ENABLE_PAYLOAD` and `DISABLE_PAYLOAD`
abbrev pub special : ℕ → Bytes
special code = replicate 7 0xff ++ code ∷ []

abbrev pub set_zero_payload : Bytes
set_zero_payload = special 0xfe

abbrev pub enable_payload : Bytes
enable_payload = special 0xfc

abbrev pub disable_payload : Bytes
disable_payload = special 0xfd

module _ (os : Bytes → SendOutcome) (allowed : List ℕ) where
  -- `send_read_request` of both register readers: `registers` is the class's register allowlist.
  unfoldable pub send_read_request : List ℕ → ℕ → ℕ → Counted → Outcome Counted
  send_read_request registers motor register = send_built os do
    require (mem motor allowed) (value_error "motor CAN ID is outside the register-read allowlist")
    require (mem register registers) (value_error "register may not be read")
    canfd_pack parameter_can_id (read_request motor register)

  -- `SocketCanDamiaoCommissioningRegisterReader.send_read_request`
  unfoldable pub send_commissioning_read_request : ℕ → ℕ → Counted → Outcome Counted
  unfolding send_read_request
  send_commissioning_read_request = send_read_request commissioning_registers

  unfoldable pub send_set_zero : ℕ → Counted → Outcome Counted
  send_set_zero can_id = send_built os do
    require (mem can_id allowed) (value_error "CAN ID is not in the set-zero allowlist")
    canfd_pack can_id set_zero_payload
