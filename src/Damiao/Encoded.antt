-- ===== src/Damiao/Encoded.antt =====
-- src/open_sprite_runtime/damiao.py: an encoded MIT command, which has no transport capability.
use open_sprite_runtime.Prelude.{ℕ, String}
use open_sprite_runtime.Bytes.{Bytes}

pub record EncodedDamiaoMitCommand : Type 0 where
  pub motor_name : String
  pub interface : String
  pub can_id : ℕ
  pub payload : Bytes
