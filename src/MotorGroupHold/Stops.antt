-- ===== src/MotorGroupHold/Stops.antt =====
-- src/open_sprite_runtime/motor_group_hold.py: how often a motor is disabled, and what each call of
-- the writer adds.
use open_sprite_runtime.Prelude.{
  ℕ, suc, ◌≤◌, ◌≡◌, refl, Bool, true, false, ◌&&◌, String, Option, none, some, [], ◌∷◌, ◌==◌,
  if◌then◌else◌, ==_refl, arith,
}
use open_sprite_runtime.Prelude.Result.{Result, ok, err, value_error}
use open_sprite_runtime.Bytes.{Bytes}
use open_sprite_runtime.SocketCan.{canfd_pack}
use open_sprite_runtime.SocketCan.Loopback.{canfd_pack-fits}
use open_sprite_runtime.SocketCan.Hands.{wire-handed}
use open_sprite_runtime.SocketCan.Writer.{SendOutcome, Wire, Outcome, disable_payload}
use open_sprite_runtime.SocketCan.MitWriter.{
  get, MotorGroupMitWriter, handed, send_payload, send_to, group_send_payload, outside, counted_at,
  group_send_command, group_send_disable,
}
use open_sprite_runtime.Damiao.Encoded.{EncodedDamiaoMitCommand}

pub same_bytes : Bytes → Bytes → Bool
same_bytes [] [] = true
same_bytes [] (_ ∷ _) = false
same_bytes (_ ∷ _) [] = false
same_bytes (a ∷ xs) (b ∷ ys) = a == b && same_bytes xs ys

same_bytes_refl : (a : Bytes) → same_bytes a a ≡ true
unfolding same_bytes
same_bytes_refl [] = refl
same_bytes_refl (a ∷ xs) = rw (==_refl a, same_bytes_refl xs) refl

abbrev pub is_frame : Result Bytes → Bytes → Bool
is_frame (ok packed) frame = same_bytes packed frame
is_frame (err x) frame = false

-- How many frames on the wire are the disable frame for an identifier.
pub disables : ℕ → Wire → ℕ
disables id [] = 0
disables id (frame ∷ rest) =
    let later = disables id rest in
    if is_frame (canfd_pack id disable_payload) frame then suc later else later

disables-more :
    (id : ℕ) (frame : Bytes) (wire : Wire) → disables id wire ≤ disables id (frame ∷ wire)
unfolding disables
disables-more id frame wire = ground arith

disables-handed :
    (os : Bytes → SendOutcome) (id : ℕ) (wire : Wire) (built : Result Bytes)
    → disables id wire ≤ disables id (handed os wire built).1
disables-handed os id wire (err x) = omega arith
disables-handed os id wire (ok frame) = disables-more id frame wire

disables-send_to :
    (os : Bytes → SendOutcome) (id : ℕ) (wire : Wire) (other : Option ℕ) (payload : Bytes)
    → disables id wire ≤ disables id (send_to os other payload wire).1
unfolding send_payload
disables-send_to os id wire none payload = omega arith
disables-send_to os id wire (some other) payload = disables-handed os id wire _

disables-packed :
    (id : ℕ) (wire : Wire) {frame : Bytes}
    → canfd_pack id disable_payload ≡ ok frame
    → disables id (frame ∷ wire) ≡ suc (disables id wire)
unfolding disables
disables-packed id wire {frame} e = rw (e, same_bytes_refl frame) refl

disables-send_payload :
    (os : Bytes → SendOutcome) (id : ℕ) (wire : Wire)
    → id ≤ 0x7ff
    → disables id (send_payload os id disable_payload wire).1 ≡ suc (disables id wire)
unfolding send_payload
disables-send_payload os id wire low =
    let fits = canfd_pack-fits id disable_payload (omega arith) in
    rw (wire-handed os wire (canfd_pack id disable_payload) fits) (disables-packed id wire fits)

-- At least `n` disable frames for an identifier are on the wire, and the motor has it.
pub record Disabled (name : String) (id n : ℕ) (w : MotorGroupMitWriter) : Type 0 where
  pub addressed : get w.can_id_by_name name ≡ some id
  pub enough : n ≤ disables id w.wire

module _ (name : String) (id : ℕ) (low : id ≤ 0x7ff) where
  pub group_send_command-Disabled :
      (os : Bytes → SendOutcome) (n : ℕ) (c : EncodedDamiaoMitCommand) (w : MotorGroupMitWriter)
      → Disabled name id n w
      → Disabled name id n (group_send_command os c w).1
  unfolding group_send_command group_send_payload
  group_send_command-Disabled os n c w d =
      by_test (outside os (get w.can_id_by_name c.motor_name) c w.interface)
    where
      by_test :
          (b : Bool)
          → Disabled name id n
              (if◌then◌else◌ {A = Outcome MotorGroupMitWriter} b
                (err (value_error "encoded MIT command is outside the motor-group allowlist"), w)
                (
                  (group_send_payload os c.motor_name c.payload w).0,
                  record w {
                    wire = (group_send_payload os c.motor_name c.payload w).1;
                    command_tx_attempts =
                        counted_at
                          (group_send_payload os c.motor_name c.payload w).0
                          c.motor_name
                          w.command_tx_attempts;
                  },
                )).1
      by_test true = d
      by_test false = record {
        addressed = d.addressed;
        enough = omega (
          arith,
          d.enough,
          disables-send_to os id w.wire (get w.can_id_by_name c.motor_name) c.payload,
        );
      }

  pub group_send_disable-any :
      (os : Bytes → SendOutcome) (n : ℕ) (other : String) (w : MotorGroupMitWriter)
      → Disabled name id n w
      → Disabled name id n (group_send_disable os other w).1
  unfolding group_send_disable group_send_payload
  group_send_disable-any os n other w d = record {
    addressed = d.addressed;
    enough = omega (
      arith,
      d.enough,
      disables-send_to os id w.wire (get w.can_id_by_name other) disable_payload,
    );
  }

  pub group_send_disable-own :
      (os : Bytes → SendOutcome) (n : ℕ) (w : MotorGroupMitWriter)
      → Disabled name id n w
      → Disabled name id (suc n) (group_send_disable os name w).1
  unfolding group_send_disable group_send_payload
  group_send_disable-own os n w d = record {
    addressed = d.addressed;
    enough = rw (d.addressed) (omega (arith, d.enough, disables-send_payload os id w.wire low));
  }
