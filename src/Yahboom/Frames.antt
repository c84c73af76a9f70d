-- ===== src/Yahboom/Frames.antt =====
-- Whole frames: what the stream decoder makes of a valid one behind noise, and the report-rate
-- command against the decoder's own checks.
use open_sprite_runtime.Prelude.{
  ℕ, ◌%◌, ◌≤◌, ◌≡◌, ◌≢◌, refl, sym, ap, ◌∙◌, [], ◌∷◌, ◌++◌, append-nil, length, take, drop, All,
  take-append_all, drop-append_all, arith,
}
use open_sprite_runtime.Prelude.Result.{ok, err, value_error}
use open_sprite_runtime.Bytes.{Bytes}
use open_sprite_runtime.Float.{FloatOps}
use open_sprite_runtime.Yahboom.{
  header_0, header_1, byte_at, sum, YahboomPacket, stop, accept, decode_frame, decode_payload,
  at_header, iterate, YahboomStreamDecoder, feed, build_report_rate_command, find_header,
  function_report_rate, configuration_guard,
}
use open_sprite_runtime.Yahboom.Seek.{seek}
use open_sprite_runtime.Yahboom.Iterate.{iterate-seek}
use open_sprite_runtime.Yahboom.Chunks.{run-accept, loop-stop}

-- Bytes that cannot begin a header.
abbrev pub IsNoise : Bytes → Type 0
IsNoise = All (λ b. b ≢ header_0)

take_whole : (bs : Bytes) → take (length bs) bs ≡ bs
take_whole bs = ap (take (length bs)) (sym (append-nil bs)) ∙ take-append_all bs []

drop_whole : (bs : Bytes) → drop (length bs) bs ≡ []
drop_whole bs = ap (drop (length bs)) (sym (append-nil bs)) ∙ drop-append_all bs []

abbrev report_rate_body : ℕ → Bytes
report_rate_body rate =
    header_0 ∷ header_1 ∷ 0x07 ∷ function_report_rate ∷ rate ∷ configuration_guard ∷ []

abbrev report_rate_frame : ℕ → Bytes
report_rate_frame rate = report_rate_body rate ++ sum (report_rate_body rate) % 256 ∷ []

module _ (F : FloatOps) where
  -- What the checks of `decode_frame` say of a frame.
  decode_frame-shape :
      (frame : Bytes) {p : YahboomPacket F}
      → decode_frame F frame ≡ ok p
      → (5 ≤ length frame)
        × (byte_at frame 2 ≡ length frame)
        × (byte_at frame 0 ≡ header_0)
        × (byte_at frame 1 ≡ header_1)
  unfolding decode_frame
  decode_frame-shape [] h = ground arith
  decode_frame-shape (a ∷ []) h = ground arith
  decode_frame-shape (a ∷ b ∷ bs) h = ground arith

  seek-noise :
      (noise rest : Bytes)
      → IsNoise noise
      → seek (noise ++ (header_0 ∷ header_1 ∷ rest)) ≡ header_0 ∷ header_1 ∷ rest
  unfolding seek
  seek-noise [] rest h = refl
  seek-noise (a ∷ []) rest h = ground (arith, h.0)
  seek-noise (a ∷ b ∷ noise) rest h = ground (arith, h.0, seek-noise (b ∷ noise) rest h.1)

  seek-frame :
      (noise frame : Bytes)
      → IsNoise noise
      → 2 ≤ length frame
      → byte_at frame 0 ≡ header_0
      → byte_at frame 1 ≡ header_1
      → seek (noise ++ frame) ≡ frame
  seek-frame noise [] h long e f = absurd (omega arith)
  seek-frame noise (a ∷ []) h long e f = absurd (omega arith)
  seek-frame noise (a ∷ b ∷ rest) h long e f = rw (e, f) (seek-noise noise rest h)

  module _ (maximum : ℕ) where
    at_header-frame :
        (frame : Bytes) {p : YahboomPacket F}
        → decode_frame F frame ≡ ok p
        → length frame ≤ maximum
        → at_header F maximum frame ≡ accept p []
    unfolding at_header
    at_header-frame frame e fits =
        let (long, size, h0, h1) = decode_frame-shape frame e in
        ground (arith, take_whole frame, drop_whole frame)

    iterate-frame :
        (noise frame : Bytes) {p : YahboomPacket F}
        → IsNoise noise
        → decode_frame F frame ≡ ok p
        → length frame ≤ maximum
        → iterate F maximum (noise ++ frame) ≡ accept p []
    iterate-frame noise frame h e fits =
        let (long, size, h0, h1) = decode_frame-shape frame e in
        iterate-seek F maximum (noise ++ frame)
        ∙ ap (at_header F maximum) (seek-frame noise frame h (omega arith) h0 h1)
        ∙ at_header-frame frame e fits

  round-nil : (maximum : ℕ) → iterate F maximum [] ≡ stop []
  unfolding iterate find_header
  round-nil maximum = refl

  -- A valid frame that is not longer than the limit, behind bytes none of which can begin a header,
  -- is decoded to its packet: nothing is rejected, and the buffer is empty again.
  pub feed-frame :
      (d : YahboomStreamDecoder F) (noise frame : Bytes) {p : YahboomPacket F}
      → d.buffer ≡ []
      → IsNoise noise
      → decode_frame F frame ≡ ok p
      → length frame ≤ d.maximum_frame_length
      → feed F d (noise ++ frame) ≡ (d, p ∷ [])
  unfolding feed
  feed-frame d noise frame {p} empty h e fits = rw empty (
      run-accept F d (noise ++ frame) p (iterate-frame d.maximum_frame_length noise frame h e fits)
      ∙ ap (λ r. (r.0, p ∷ r.1)) (loop-stop F 0 d [] (round-nil d.maximum_frame_length)))

  -- The report-rate command for a rate from 10 to 100 Hz is a frame of seven bytes that passes the
  -- decoder's own header, length and checksum checks, and carries the rate; the decoder then refuses
  -- its function, which only the sensor understands.
  pub decode_frame-build_report_rate_command :
      (rate : ℕ)
      → 10 ≤ rate
      → rate ≤ 100
      → (frame : Bytes) × (build_report_rate_command rate ≡ ok frame)
        × (length frame ≡ 7)
        × (byte_at frame 4 ≡ rate)
        × (decode_frame F frame ≡ err (value_error "unsupported Yahboom frame function"))
  unfolding build_report_rate_command decode_frame decode_payload
  decode_frame-build_report_rate_command rate lo hi =
      (report_rate_frame rate, ground arith, refl, refl, ground arith)
