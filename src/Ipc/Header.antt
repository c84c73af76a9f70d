-- ===== src/Ipc/Header.antt =====
-- The fields that both packets share: the header and the signed timestamp.
use open_sprite_runtime.Prelude.{ℕ, ◌<◌, ◌≡◌, ap, ◌∙◌, true, ==_refl, arith}
use open_sprite_runtime.Prelude.Int.{ℤ}
use open_sprite_runtime.Bytes.{
  Bytes, span, le_bytes, le_value, le_value-le_bytes, signed_value, signed_word, FitsSigned,
}
use open_sprite_runtime.Bytes.Signed.{signed_value-signed_word, signed_word-lt}
use open_sprite_runtime.Ipc.{magic, version, header_matches}

-- The stored words of a packet's integers.
abbrev pub timestamp_bytes : ℤ → Bytes
timestamp_bytes t = le_bytes 8 (signed_word 8 t)

pub timestamp_lem : (t : ℤ) → FitsSigned 8 t → signed_value 8 (le_value (timestamp_bytes t)) ≡ t
timestamp_lem t h =
    ap (signed_value 8) (le_value-le_bytes 8 (signed_word 8 t) (signed_word-lt 8 t h))
    ∙ signed_value-signed_word 7 t h

-- The header that is written is the header that is asked for.
pub header_matches_self :
    (kind : ℕ)
    → kind < span 2
    → header_matches kind magic (le_bytes 2 version) (le_bytes 2 kind) ≡ true
header_matches_self kind h =
    rw (le_value-le_bytes 2 kind h, le_value-le_bytes 2 version (omega arith)) (==_refl kind)
