-- ===== src/Damiao.antt =====
-- src/open_sprite_runtime/damiao.py: the MIT command and feedback codecs, and the feedback decoder
-- that is keyed by interface and Master ID.
pub mod Encoded
pub mod Command
pub mod Decode
pub mod Payload
pub mod Quantize
pub mod Feedback
pub mod Decoder
pub mod Profile
pub mod Bounded
