-- ===== src/SocketCan/MitWire.antt =====
-- What the two MIT writers can put on the bus, and what their counters count.
use text.Mathlib.Text.{◌==◌ as str_eq}
use open_sprite_runtime.Prelude.{
  ℕ, ◌≤◌, ◌≡◌, refl, Bool, true, false, not, ◌||◌, String, List, [], ◌∷◌, ◌==◌, if◌then◌else◌,
  length, All, ==_iff, arith,
}
use open_sprite_runtime.Prelude.Result.{Result, ok, err, require, value_error, require-eq-ok, ◌>>◌}
use open_sprite_runtime.Bytes.{Bytes}
use open_sprite_runtime.Damiao.Encoded.{EncodedDamiaoMitCommand}
use open_sprite_runtime.SocketCan.{canfd_pack}
use open_sprite_runtime.SocketCan.Loopback.{canfd_pack-Carries}
use open_sprite_runtime.SocketCan.Writer.{
  SendOutcome, Wire, Outcome, enable_payload, disable_payload,
}
use open_sprite_runtime.SocketCan.MitWriter.{
  SingleMotorMitWriter, handed, send_payload, counted, single_send_command, single_send_enable,
  single_send_disable,
}
use open_sprite_runtime.SocketCan.Wire.{Frame, Emits}

module _ (os : Bytes → SendOutcome) where
  handed-All :
      {Q : Bytes → Type 0} (wire : Wire) (built : Result Bytes)
      → ((frame : Bytes) → built ≡ ok frame → Q frame)
      → All Q wire
      → All Q (handed os wire built).1
  handed-All wire (err e) new old = old
  handed-All wire (ok frame) new old = (new frame refl, old)

  -- `_send_payload` adds at most one frame, which carries the identifier and the eight bytes.
  pub send_payload-Emits :
      (P : ℕ → Bytes → Type 0) (can_id : ℕ) (payload : Bytes) (wire : Wire)
      → can_id ≤ 0x7ff
      → (length payload ≡ 8 → P can_id payload)
      → Emits P wire
      → Emits P (send_payload os can_id payload wire).1
  unfolding send_payload
  send_payload-Emits P can_id payload wire low p old = handed-All wire _ new old
    where
      new :
          (frame : Bytes)
          → (require
                (length payload == 8)
                (value_error "MIT payload must contain exactly eight bytes")
              >> canfd_pack can_id payload)
            ≡ ok frame
          → Frame P frame
      new frame e =
          let (size, e1) = require-eq-ok (length payload == 8) _ _ e in
          record {
            id = can_id;
            payload = payload;
            carries = canfd_pack-Carries can_id payload (omega arith) e1;
            holds = p ((==_iff (length payload) 8).0 size);
          }

-- The calls that a client can make of a single-motor writer.
pub data SingleCall : Type 0 where
  command : EncodedDamiaoMitCommand → SingleCall
  enable disable : SingleCall

pub single_call : (Bytes → SendOutcome) → SingleCall → SingleMotorMitWriter → SingleMotorMitWriter
single_call os (command c) w = (single_send_command os c w).1
single_call os enable w = (single_send_enable os w).1
single_call os disable w = (single_send_disable os w).1

pub single_calls :
    List (SingleCall × (Bytes → SendOutcome)) → SingleMotorMitWriter → SingleMotorMitWriter
single_calls [] w = w
single_calls ((c, os) ∷ rest) w = single_calls rest (single_call os c w)

-- A frame for the one motor.
abbrev pub IsFor : ℕ → ℕ → Bytes → Type 0
IsFor own id payload = (id ≡ own) × (length payload ≡ 8)

-- The writer's motor is fixed, its identifier has 11 bits, and every frame on its wire is for it.
pub record IsConfined (motor_name interface : String) (own : ℕ) (w : SingleMotorMitWriter)
    : Type 0 where
  pub same_name : w.motor_name ≡ motor_name
  pub same_interface : w.interface ≡ interface
  pub same_id : w.can_id ≡ own
  pub emitted : Emits (IsFor own) w.wire

module _ (name interface : String) (own : ℕ) (low : own ≤ 0x7ff) where
  special-IsConfined :
      (os : Bytes → SendOutcome) (payload : Bytes) (w : SingleMotorMitWriter)
      → IsConfined name interface own w
      → Emits (IsFor own) (send_payload os w.can_id payload w.wire).1
  special-IsConfined os payload w c =
      rw c.same_id
        (send_payload-Emits os (IsFor own) own payload w.wire low (λ size. (refl, size)) c.emitted)

  single_call-IsConfined :
      (os : Bytes → SendOutcome) (c : SingleCall) (w : SingleMotorMitWriter)
      → IsConfined name interface own w
      → IsConfined name interface own (single_call os c w)
  unfolding single_call single_send_command single_send_enable single_send_disable
  single_call-IsConfined os (command c) w conf = by_test (
      not (str_eq c.motor_name w.motor_name)
      || not (str_eq c.interface w.interface)
      || not (c.can_id == w.can_id))
    where
      by_test :
          (b : Bool)
          → IsConfined name interface own
              (if◌then◌else◌ {A = Outcome SingleMotorMitWriter} b
                (err (value_error "encoded MIT command is outside the single-motor allowlist"), w)
                (
                  (send_payload os w.can_id c.payload w.wire).0,
                  record w {
                    wire = (send_payload os w.can_id c.payload w.wire).1;
                    command_tx_attempts =
                        counted (send_payload os w.can_id c.payload w.wire).0 w.command_tx_attempts;
                  },
                )).1
      by_test true = conf
      by_test false = record {
        same_name = conf.same_name;
        same_interface = conf.same_interface;
        same_id = conf.same_id;
        emitted = special-IsConfined os c.payload w conf;
      }
  single_call-IsConfined os enable w conf = record {
    same_name = conf.same_name;
    same_interface = conf.same_interface;
    same_id = conf.same_id;
    emitted = special-IsConfined os enable_payload w conf;
  }
  single_call-IsConfined os disable w conf = record {
    same_name = conf.same_name;
    same_interface = conf.same_interface;
    same_id = conf.same_id;
    emitted = special-IsConfined os disable_payload w conf;
  }

  -- Whatever sequence of commands, enables and disables a client asks for, and whatever the socket
  -- does with each frame, a single-motor writer keeps its motor, and every frame that it hands to its
  -- socket carries that motor's identifier and eight bytes, if that held before and the identifier
  -- has 11 bits, as its constructor checks.
  pub single_calls-IsConfined :
      (calls : List (SingleCall × (Bytes → SendOutcome))) (w : SingleMotorMitWriter)
      → IsConfined name interface own w
      → IsConfined name interface own (single_calls calls w)
  unfolding single_calls
  single_calls-IsConfined [] w c = c
  single_calls-IsConfined ((call, os) ∷ rest) w c =
      single_calls-IsConfined rest (single_call os call w) (single_call-IsConfined os call w c)
