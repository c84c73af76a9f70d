-- ===== src/SocketCan/GroupWire.antt =====
-- What the motor-group writer can put on the bus.
use open_sprite_runtime.Prelude.{
  ℕ, ◌≤◌, ◌≡◌, Bool, true, false, inl, inr, String, some, List, [], ◌∷◌, leb, if◌then◌else◌, length,
  not, ◌&&◌, all, Option-cases, &&-true, arith,
}
use open_sprite_runtime.Prelude.Result.{err, value_error}
use open_sprite_runtime.Bytes.{Bytes}
use open_sprite_runtime.Damiao.Encoded.{EncodedDamiaoMitCommand}
use open_sprite_runtime.SocketCan.{max_standard_id}
use open_sprite_runtime.SocketCan.Writer.{
  SendOutcome, Wire, Outcome, enable_payload, disable_payload,
}
use open_sprite_runtime.SocketCan.MitWriter.{
  get, MotorGroupMitWriter, is_empty, outside, counted_at, send_to, group_send_payload,
  group_send_command, group_send_enable, group_send_disable,
}
use open_sprite_runtime.SocketCan.Wire.{Emits}
use open_sprite_runtime.SocketCan.MitWire.{send_payload-Emits}

-- The calls that a client can make of a motor-group writer.
pub data GroupCall : Type 0 where
  command : EncodedDamiaoMitCommand → GroupCall
  enable disable : String → GroupCall

pub group_call : (Bytes → SendOutcome) → GroupCall → MotorGroupMitWriter → MotorGroupMitWriter
group_call os (command c) w = (group_send_command os c w).1
group_call os (enable name) w = (group_send_enable os name w).1
group_call os (disable name) w = (group_send_disable os name w).1

pub group_calls :
    List (GroupCall × (Bytes → SendOutcome)) → MotorGroupMitWriter → MotorGroupMitWriter
group_calls [] w = w
group_calls ((c, os) ∷ rest) w = group_calls rest (group_call os c w)

-- A frame for a motor of the group.
pub record IsForGroup (endpoints : List (String × ℕ)) (id : ℕ) (payload : Bytes) : Type 0 where
  pub motor : String
  pub addressed : get endpoints motor ≡ some id
  pub size : length payload ≡ 8

abbrev pub IsStandard : List (String × ℕ) → Type 0
IsStandard endpoints = all (λ e. not (is_empty e.0) && leb e.1 max_standard_id) endpoints ≡ true

pub get-le :
    (endpoints : List (String × ℕ)) (name : String) (id : ℕ)
    → IsStandard endpoints
    → get endpoints name ≡ some id
    → id ≤ 0x7ff
unfolding get
get-le [] name id h e = absurd (ground arith)
get-le ((k, v) ∷ rest) name id h e =
    let (first, later) =
      &&-true (not (is_empty k) && leb v max_standard_id)
        (all (λ e. not (is_empty e.0) && leb e.1 max_standard_id) rest) h in
    let (_, small) = &&-true (not (is_empty k)) (leb v max_standard_id) first in
    ground (arith, get-le rest name id later)

-- The endpoints are fixed, and every frame on the wire is for one of them.
pub record IsConfined (endpoints : List (String × ℕ)) (w : MotorGroupMitWriter) : Type 0 where
  pub same_endpoints : w.can_id_by_name ≡ endpoints
  pub emitted : Emits (IsForGroup endpoints) w.wire

module _ (endpoints : List (String × ℕ)) (standard : IsStandard endpoints) where
  send_to-Emits :
      (os : Bytes → SendOutcome) (name : String) (payload : Bytes) (wire : Wire)
      → Emits (IsForGroup endpoints) wire
      → Emits (IsForGroup endpoints) (send_to os (get endpoints name) payload wire).1
  send_to-Emits os name payload wire old = elim (Option-cases (get endpoints name)) [
    | inl e ↦ rw e old
    | inr (id, e) ↦ rw e (
        send_payload-Emits os (IsForGroup endpoints) id payload wire
          (get-le endpoints name id standard e)
          (λ size. record { motor = name; addressed = e; size = size }) old)
  ]

  group_send_payload-Emits :
      (os : Bytes → SendOutcome) (name : String) (payload : Bytes) (w : MotorGroupMitWriter)
      → IsConfined endpoints w
      → Emits (IsForGroup endpoints) (group_send_payload os name payload w).1
  unfolding group_send_payload
  group_send_payload-Emits os name payload w c =
      rw c.same_endpoints (send_to-Emits os name payload w.wire c.emitted)

  group_call-IsConfined :
      (os : Bytes → SendOutcome) (call : GroupCall) (w : MotorGroupMitWriter)
      → IsConfined endpoints w
      → IsConfined endpoints (group_call os call w)
  unfolding group_call group_send_command group_send_enable group_send_disable
  group_call-IsConfined os (enable name) w c = record {
    same_endpoints = c.same_endpoints;
    emitted = group_send_payload-Emits os name enable_payload w c;
  }
  group_call-IsConfined os (disable name) w c = record {
    same_endpoints = c.same_endpoints;
    emitted = group_send_payload-Emits os name disable_payload w c;
  }
  group_call-IsConfined os (command cmd) w c =
      by_test (outside os (get w.can_id_by_name cmd.motor_name) cmd w.interface)
    where
      by_test :
          (b : Bool)
          → IsConfined endpoints
              (if◌then◌else◌ {A = Outcome MotorGroupMitWriter} b
                (err (value_error "encoded MIT command is outside the motor-group allowlist"), w)
                (
                  (group_send_payload os cmd.motor_name cmd.payload w).0,
                  record w {
                    wire = (group_send_payload os cmd.motor_name cmd.payload w).1;
                    command_tx_attempts =
                        counted_at
                          (group_send_payload os cmd.motor_name cmd.payload w).0
                          cmd.motor_name
                          w.command_tx_attempts;
                  },
                )).1
      by_test true = c
      by_test false = record {
        same_endpoints = c.same_endpoints;
        emitted = group_send_payload-Emits os cmd.motor_name cmd.payload w c;
      }

  -- Whatever sequence of commands, enables and disables a client asks for, and whatever the socket
  -- does with each frame, a motor-group writer keeps its endpoints, and every frame that it hands to
  -- its socket carries the identifier of one of them and eight bytes, if that held before and the
  -- endpoints are named and have 11-bit identifiers, as its constructor checks.
  pub group_calls-IsConfined :
      (calls : List (GroupCall × (Bytes → SendOutcome))) (w : MotorGroupMitWriter)
      → IsConfined endpoints w
      → IsConfined endpoints (group_calls calls w)
  unfolding group_calls
  group_calls-IsConfined [] w c = c
  group_calls-IsConfined ((call, os) ∷ rest) w c =
      group_calls-IsConfined rest (group_call os call w) (group_call-IsConfined os call w c)
