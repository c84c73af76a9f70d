-- ===== src/Tests/ImuRuns.antt =====
-- Runs of the IMU stream decoder and of the drain of its port.
use open_sprite_runtime.Prelude.{
  ℕ, zero, suc, ◌+◌, ◌≤◌, ◌<◌, ◌≡◌, ◌↔◌, refl, [], ◌∷◌, ◌++◌, length, none, arith,
}
use open_sprite_runtime.Prelude.Result.{ok, err, value_error}
use open_sprite_runtime.Bytes.{Bytes, le_value}
use open_sprite_runtime.Bytes.Struct.{split}
use open_sprite_runtime.Yahboom.{
  YahboomPacket, YahboomStreamDecoder, feed, iterate, stop, decode_frame, decode_payload, loop,
  find_header, at_header, build_report_rate_command, byte_at,
}
use open_sprite_runtime.Yahboom.Chunks.{then_feed, feed-append}
use open_sprite_runtime.Yahboom.Frames.{feed-frame, decode_frame-build_report_rate_command}
use open_sprite_runtime.Yahboom.Drained.{feed-drained, length-buffer-feed}
use open_sprite_runtime.ImuReceive.{
  Poll, ImuReceiver, round, batch_after, drain_imu, require_fresh_imu,
}
use open_sprite_runtime.ImuReceive.Exact.{IsDrain, drain_imu-Reads}
use open_sprite_runtime.ImuReceive.Fresh.{AreFresh, drain_imu-AreFresh, require_fresh_imu_iff}
use open_sprite_runtime.Tests.Floats.{naturals}

abbrev decoder : YahboomStreamDecoder naturals
decoder = record { maximum_frame_length = 64; buffer = []; rejected_frame_count = 0 }

-- A report of Euler angles, three zero floats.
abbrev euler_body : Bytes
euler_body = 0x7e ∷ 0x23 ∷ 17 ∷ 0x26 ∷ 0 ∷ 0 ∷ 0 ∷ 0 ∷ 0 ∷ 0 ∷ 0 ∷ 0 ∷ 0 ∷ 0 ∷ 0 ∷ 0 ∷ []

abbrev euler_frame : Bytes
euler_frame = euler_body ++ 0xd8 ∷ []

feed-append_example :
    feed naturals decoder (euler_body ++ 0xd8 ∷ [])
    ≡ then_feed naturals (feed naturals decoder euler_body) (0xd8 ∷ [])
feed-append_example = feed-append naturals decoder euler_body (0xd8 ∷ [])

feed-frame_example :
    feed naturals decoder ((0 ∷ 0x23 ∷ []) ++ euler_frame)
    ≡ (decoder, YahboomPacket.euler (0 ∷ 0 ∷ 0 ∷ []) ∷ [])
unfolding decode_frame decode_payload split le_value
feed-frame_example =
    feed-frame naturals decoder (0 ∷ 0x23 ∷ []) euler_frame refl (omega arith, (omega arith, tt))
      refl (omega arith)

feed-drained_example :
    iterate naturals 64 (feed naturals decoder euler_body).0.buffer
    ≡ stop (feed naturals decoder euler_body).0.buffer
feed-drained_example = feed-drained naturals decoder euler_body

length-buffer-feed_example : length (feed naturals decoder euler_body).0.buffer < 64
length-buffer-feed_example = length-buffer-feed naturals decoder euler_body (omega arith)

decode_frame-build_report_rate_command_example :
    (frame : Bytes) × (build_report_rate_command 50 ≡ ok frame)
    × (length frame ≡ 7)
    × (byte_at frame 4 ≡ 50)
    × (decode_frame naturals frame ≡ err (value_error "unsupported Yahboom frame function"))
decode_frame-build_report_rate_command_example =
    decode_frame-build_report_rate_command naturals 50 (omega arith) (omega arith)

-- A port with one report pending, which is then empty.
abbrev port : ℕ → Poll
port zero = record { pending = 17; now_ns = 1000; payload = euler_frame }
port (suc i) = record { pending = 0; now_ns = 2000; payload = [] }

abbrev honest : (i : ℕ) → length (port i).payload ≤ (port i).pending
honest zero = omega arith
honest (suc i) = omega arith

abbrev receiver : ImuReceiver naturals
receiver = record { decoder = decoder; partial_received_ns = none }

drain_imu-Reads_example :
    IsDrain naturals port decoder (drain_imu naturals port 1000 3000 (λ i. 4000) receiver)
unfolding drain_imu round feed loop iterate find_header at_header decode_frame decode_payload
    batch_after
drain_imu-Reads_example = drain_imu-Reads naturals port 1000 3000 (λ i. 4000) receiver honest refl

drain_imu-AreFresh_example :
    AreFresh naturals
      (λ i. 4000)
      0
      (drain_imu naturals port 1000 3000 (λ i. 4000) receiver).accepted
drain_imu-AreFresh_example = drain_imu-AreFresh naturals (λ i. 4000) port 1000 3000 receiver

require_fresh_imu_iff_example :
    (require_fresh_imu 10 20 30 15 ≡ ok tt)
    ↔ ((0 < 10) × (10 ≤ 30) × (30 ≤ 10 + 15) × (0 < 20) × (20 ≤ 30) × (30 ≤ 20 + 15))
require_fresh_imu_iff_example = require_fresh_imu_iff 10 20 30 15
