-- ===== src/SocketCan/MitWriter.antt =====
-- The two MIT writers of socketcan.py: one for a single motor, one for a fixed group of motors.
use text.Mathlib.Text.{◌==◌ as str_eq}
use open_sprite_runtime.Prelude.{
  ℕ, suc, Bool, true, not, ◌&&◌, ◌||◌, String, Option, none, some, List, [], ◌∷◌, leb, ◌==◌,
  if◌then◌else◌, length, all, any, map,
}
use open_sprite_runtime.Prelude.Result.{Result, ok, err, value_error, os_error, require, ◌>>◌}
use open_sprite_runtime.Bytes.{Bytes}
use open_sprite_runtime.Damiao.Encoded.{EncodedDamiaoMitCommand}
use open_sprite_runtime.SocketCan.{max_standard_id, canfd_pack}
use open_sprite_runtime.SocketCan.Writer.{
  SendOutcome, sent, failed, Wire, Outcome, short_write, enable_payload, disable_payload,
}

pub record SingleMotorMitWriter : Type 0 where
  pub interface : String
  pub motor_name : String
  pub can_id : ℕ
  pub wire : Wire
  pub command_tx_attempts : ℕ
  pub enable_attempts : ℕ
  pub disable_attempts : ℕ

-- `not motor_name`
abbrev pub is_empty : String → Bool
is_empty name = str_eq name ""

unfoldable pub new_single_writer : String → String → ℕ → Result SingleMotorMitWriter
new_single_writer interface motor_name can_id = do
  require (not (is_empty motor_name) && leb can_id max_standard_id)
      (value_error "single-motor writer requires one named 11-bit CAN endpoint")
  ok (record {
    interface = interface;
    motor_name = motor_name;
    can_id = can_id;
    wire = [];
    command_tx_attempts = 0;
    enable_attempts = 0;
    disable_attempts = 0;
  })

-- `_send_payload`: the frame's result, and the wire behind it.
abbrev pub handed : (Bytes → SendOutcome) → Wire → Result Bytes → Result (Unit {0}) × Wire
handed os wire (err e) = (err e, wire)
handed os wire (ok frame) =
    (elim (os frame) [ sent n ↦ short_write frame n | failed ↦ err os_error ], frame ∷ wire)

unfoldable pub send_payload : (Bytes → SendOutcome) → ℕ → Bytes → Wire → Result (Unit {0}) × Wire
send_payload os can_id payload wire = handed os wire do
  require (length payload == 8) (value_error "MIT payload must contain exactly eight bytes")
  canfd_pack can_id payload

-- The counter after a send: it is raised only behind a send that did not.
abbrev pub counted : Result (Unit {0}) → ℕ → ℕ
counted (ok _) n = suc n
counted (err _) n = n

module _ (os : Bytes → SendOutcome) where
  unfoldable pub single_send_command :
      EncodedDamiaoMitCommand → SingleMotorMitWriter → Outcome SingleMotorMitWriter
  single_send_command command w =
      let (r, wire) = send_payload os w.can_id command.payload w.wire in
      if not (str_eq command.motor_name w.motor_name)
        || not (str_eq command.interface w.interface)
        || not (command.can_id == w.can_id)
      then (err (value_error "encoded MIT command is outside the single-motor allowlist"), w)
      else (r, record w { wire = wire; command_tx_attempts = counted r w.command_tx_attempts })

  unfoldable pub single_send_enable : SingleMotorMitWriter → Outcome SingleMotorMitWriter
  single_send_enable w =
      let (r, wire) = send_payload os w.can_id enable_payload w.wire in
      (r, record w { wire = wire; enable_attempts = counted r w.enable_attempts })

  unfoldable pub single_send_disable : SingleMotorMitWriter → Outcome SingleMotorMitWriter
  single_send_disable w =
      let (r, wire) = send_payload os w.can_id disable_payload w.wire in
      (r, record w { wire = wire; disable_attempts = counted r w.disable_attempts })

-- A dictionary keyed by motor names, in insertion order.
module _ {ℓ} {V : Type ℓ} where
  unfoldable pub get : List (String × V) → String → Option V
  get [] name = none
  get ((k, v) ∷ rest) name = if str_eq k name then some v else get rest name

-- `counts[name] += 1`; a name that is not there raises KeyError, which no caller reaches.
unfoldable pub bump : List (String × ℕ) → String → List (String × ℕ)
bump [] name = []
bump ((k, n) ∷ rest) name = if str_eq k name then (k, suc n) ∷ rest else (k, n) ∷ bump rest name

pub record MotorGroupMitWriter : Type 0 where
  pub interface : String
  pub can_id_by_name : List (String × ℕ)
  pub wire : Wire
  pub command_tx_attempts : List (String × ℕ)
  pub enable_attempts : List (String × ℕ)
  pub disable_attempts : List (String × ℕ)

abbrev pub distinct_names : List (String × ℕ) → Bool
distinct_names [] = true
distinct_names ((k, v) ∷ rest) = not (any (λ e. str_eq k e.0) rest) && distinct_names rest

abbrev pub distinct_ids : List (String × ℕ) → Bool
distinct_ids [] = true
distinct_ids ((k, v) ∷ rest) = not (any (λ e. v == e.1) rest) && distinct_ids rest

abbrev pub zero_counts : List (String × ℕ) → List (String × ℕ)
zero_counts = map (λ e. (e.0, 0))

unfoldable pub new_group_writer : String → List (String × ℕ) → Result MotorGroupMitWriter
new_group_writer interface endpoints = do
  require (leb 2 (length endpoints) && leb (length endpoints) 8)
      (value_error "motor-group writer requires 2..8 endpoints")
  require (distinct_names endpoints)
      (value_error "motor-group writer endpoint names must be unique")
  require (distinct_ids endpoints) (value_error "motor-group writer CAN IDs must be unique")
  require (all (λ e. not (is_empty e.0) && leb e.1 max_standard_id) endpoints)
      (value_error "motor-group writer requires named 11-bit CAN endpoints")
  ok (record {
    interface = interface;
    can_id_by_name = endpoints;
    wire = [];
    command_tx_attempts = zero_counts endpoints;
    enable_attempts = zero_counts endpoints;
    disable_attempts = zero_counts endpoints;
  })

abbrev pub counted_at : Result (Unit {0}) → String → List (String × ℕ) → List (String × ℕ)
counted_at (ok _) name counts = bump counts name
counted_at (err _) name counts = counts

module _ (os : Bytes → SendOutcome) where
  abbrev pub send_to : Option ℕ → Bytes → Wire → Result (Unit {0}) × Wire
  send_to none payload wire =
      (err (value_error "motor is outside the fixed motor-group allowlist"), wire)
  send_to (some can_id) payload wire = send_payload os can_id payload wire

  -- `_send_payload` of the group writer
  unfoldable pub group_send_payload :
      String → Bytes → MotorGroupMitWriter → Result (Unit {0}) × Wire
  unfolding get
  group_send_payload name payload w = send_to (get w.can_id_by_name name) payload w.wire

  -- `expected_can_id is None or command.interface != ... or command.can_id != expected_can_id`
  abbrev pub outside : Option ℕ → EncodedDamiaoMitCommand → String → Bool
  outside none command interface = true
  outside (some expected) command interface =
      not (str_eq command.interface interface) || not (command.can_id == expected)

  unfoldable pub group_send_command :
      EncodedDamiaoMitCommand → MotorGroupMitWriter → Outcome MotorGroupMitWriter
  unfolding group_send_payload bump get
  group_send_command command w =
      let (r, wire) = group_send_payload command.motor_name command.payload w in
      if outside (get w.can_id_by_name command.motor_name) command w.interface
      then (err (value_error "encoded MIT command is outside the motor-group allowlist"), w)
      else (
        r,
        record w {
          wire = wire;
          command_tx_attempts = counted_at r command.motor_name w.command_tx_attempts;
        },
      )

  unfoldable pub group_send_enable : String → MotorGroupMitWriter → Outcome MotorGroupMitWriter
  unfolding group_send_payload bump
  group_send_enable name w =
      let (r, wire) = group_send_payload name enable_payload w in
      (r, record w { wire = wire; enable_attempts = counted_at r name w.enable_attempts })

  unfoldable pub group_send_disable : String → MotorGroupMitWriter → Outcome MotorGroupMitWriter
  unfolding group_send_payload bump
  group_send_disable name w =
      let (r, wire) = group_send_payload name disable_payload w in
      (r, record w { wire = wire; disable_attempts = counted_at r name w.disable_attempts })
