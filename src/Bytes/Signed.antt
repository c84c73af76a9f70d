-- ===== src/Bytes/Signed.antt =====
-- Two's complement fields: what is packed reads back, and every word is a packed integer.
use open_sprite_runtime.Prelude.{ℕ, suc, ◌<◌, ◌≡◌, refl, arith}
use open_sprite_runtime.Prelude.Int.{ℤ, pos, negsuc}
use open_sprite_runtime.Prelude.Result.{ok}
use open_sprite_runtime.Bytes.{
  Bytes, span, le_bytes, pack_unsigned, pack_signed, signed_value, signed_word, FitsSigned,
}

pub signed_value-signed_word :
    (k : ℕ) (z : ℤ) → FitsSigned (suc k) z → signed_value (suc k) (signed_word (suc k) z) ≡ z
unfolding signed_value signed_word
signed_value-signed_word k (pos n) h = ground arith
signed_value-signed_word k (negsuc n) h = ground arith

pub signed_word-lt : (k : ℕ) (z : ℤ) → FitsSigned k z → signed_word k z < span k
unfolding signed_word
signed_word-lt k (pos n) h = omega arith
signed_word-lt k (negsuc n) h = omega arith

pub signed_word-signed_value : (k w : ℕ) → w < span k → signed_word k (signed_value k w) ≡ w
unfolding signed_value signed_word
signed_word-signed_value k w h = ground arith

pub signed_value-FitsSigned :
    (k w : ℕ) → w < span (suc k) → FitsSigned (suc k) (signed_value (suc k) w)
unfolding signed_value
signed_value-FitsSigned k w h = ground arith

pub pack_signed-fits :
    (k : ℕ) (z : ℤ) → FitsSigned k z → pack_signed k z ≡ ok (le_bytes k (signed_word k z))
unfolding pack_signed signed_word
pack_signed-fits k (pos n) h = ground arith
pack_signed-fits k (negsuc n) h = ground arith

pub pack_signed-eq-ok :
    (k : ℕ) (z : ℤ) {b : Bytes}
    → pack_signed k z ≡ ok b
    → FitsSigned k z × (b ≡ le_bytes k (signed_word k z))
unfolding pack_signed signed_word
pack_signed-eq-ok k (pos n) h = ground arith
pack_signed-eq-ok k (negsuc n) h = ground arith

pub pack_unsigned-fits : (k n : ℕ) → n < span k → pack_unsigned k (pos n) ≡ ok (le_bytes k n)
unfolding pack_unsigned
pack_unsigned-fits k n h = ground arith

pub pack_unsigned-eq-ok :
    (k : ℕ) (z : ℤ) {b : Bytes}
    → pack_unsigned k z ≡ ok b
    → (n : ℕ) × (z ≡ pos n) × (n < span k) × (b ≡ le_bytes k n)
unfolding pack_unsigned
pack_unsigned-eq-ok k (pos n) h = (n, refl, ground arith, ground arith)
pack_unsigned-eq-ok k (negsuc n) h = ground arith
