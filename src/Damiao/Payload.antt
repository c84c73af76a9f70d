-- ===== src/Damiao/Payload.antt =====
-- The raw fields of an MIT command and of a feedback frame, packed and read back.
use open_sprite_runtime.Prelude.{ℕ, ◌+◌, ◌*◌, ◌<◌, ◌≡◌, refl, length, arith}
use open_sprite_runtime.Bytes.{Bytes, IsBytes}
use open_sprite_runtime.SocketCan.Writer.{at, velocity_raw, kp_raw, kd_raw, torque_raw}
use open_sprite_runtime.Damiao.Command.{mit_payload}

-- The sixteen-bit position of an MIT command.
abbrev pub position_raw : Bytes → ℕ
position_raw d = at d 0 * 256 + at d 1

-- A payload of eight bytes says these five raw fields.
pub record Says (d : Bytes) (position velocity kp kd torque : ℕ) : Type 0 where
  pub size : length d ≡ 8
  pub bytes : IsBytes d
  pub says_position : position_raw d ≡ position
  pub says_velocity : velocity_raw d ≡ velocity
  pub says_kp : kp_raw d ≡ kp
  pub says_kd : kd_raw d ≡ kd
  pub says_torque : torque_raw d ≡ torque

-- Packing a sixteen-bit position and four twelve-bit fields loses nothing: the eight bytes say the
-- same five fields.
pub mit_payload-Says :
    (position velocity kp kd torque : ℕ)
    → position < 65536
    → velocity < 4096
    → kp < 4096
    → kd < 4096
    → torque < 4096
    → Says (mit_payload position velocity kp kd torque) position velocity kp kd torque
unfolding mit_payload
mit_payload-Says position velocity kp kd torque hp hv hkp hkd ht = record {
  size = refl;
  bytes = omega arith;
  says_position = omega arith;
  says_velocity = omega arith;
  says_kp = omega arith;
  says_kd = omega arith;
  says_torque = omega arith;
}
