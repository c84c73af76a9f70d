-- ===== src/Yahboom.antt =====
-- src/open_sprite_runtime/yahboom_imu.py: the serial protocol of the Yahboom IMU, its
-- report-rate command, the decoder of one frame and the resynchronising stream decoder.
pub mod Seek
pub mod Iterate
pub mod Chunks
pub mod Drained
pub mod Frames
use open_sprite_runtime.Prelude.{
  ℕ, zero, suc, ◌+◌, ◌*◌, ◌%◌, Bool, true, false, not, ◌&&◌, ◌||◌, Option, none, some, List, [],
  ◌∷◌, ◌++◌, ltb, leb, ◌==◌, if◌then◌else◌, length, take, drop, get_or, map,
}
use open_sprite_runtime.Prelude.Int.{ℤ}
use open_sprite_runtime.Prelude.Result.{Result, ok, err, value_error, require, ◌>>=◌, ◌>>◌}
use open_sprite_runtime.Bytes.{Bytes, le_value, signed_value}
use open_sprite_runtime.Bytes.Struct.{split}
use open_sprite_runtime.Float.{FloatOps, ratio, lit}

abbrev pub header_0 : ℕ
header_0 = 0x7e

abbrev pub header_1 : ℕ
header_1 = 0x23

abbrev pub function_raw_imu : ℕ
function_raw_imu = 0x04

abbrev pub function_quaternion : ℕ
function_quaternion = 0x16

abbrev pub function_euler : ℕ
function_euler = 0x26

abbrev pub function_report_rate : ℕ
function_report_rate = 0x60

abbrev pub configuration_guard : ℕ
configuration_guard = 0x5f

-- `sum(frame)`
abbrev pub sum : Bytes → ℕ
sum [] = 0
sum (b ∷ bs) = b + sum bs

-- `build_report_rate_command` of an integer rate.
unfoldable pub build_report_rate_command : ℕ → Result Bytes
build_report_rate_command rate = do
  require (leb 10 rate && leb rate 100) (value_error "rate_hz must be in [10, 100]")
  let frame = header_0 ∷ header_1 ∷ 0x07 ∷ function_report_rate ∷ rate ∷ configuration_guard ∷ []
  ok (frame ++ sum frame % 256 ∷ [])

-- `frame[2]`, `frame[3]`, and `frame[-1]` of a frame that is not empty.
abbrev pub byte_at : Bytes → ℕ → ℕ
byte_at bs i = get_or bs i 0

abbrev pub last : Bytes → ℕ
last [] = 0
last (b ∷ []) = b
last (b ∷ c ∷ bs) = last (c ∷ bs)

-- `frame[:-1]`
abbrev pub init : Bytes → Bytes
init [] = []
init (b ∷ []) = []
init (b ∷ c ∷ bs) = b ∷ init (c ∷ bs)

-- `frame[:2] == FRAME_HEADER`
abbrev pub starts_with_header : Bytes → Bool
starts_with_header (a ∷ b ∷ bs) = a == header_0 && b == header_1
starts_with_header _ = false

-- `bytearray.find(FRAME_HEADER)`; none is -1.
unfoldable pub find_header : Bytes → Option ℕ
find_header [] = none
find_header (a ∷ []) = none
find_header (a ∷ b ∷ bs) =
    if a == header_0 && b == header_1
    then some 0
    else elim (find_header (b ∷ bs)) [ none ↦ none | some i ↦ some (suc i) ]

-- What is left where no header was found: a last byte that may begin one.
abbrev pub keep_tail : Bytes → Bytes
keep_tail [] = []
keep_tail (a ∷ []) = if a == header_0 then a ∷ [] else []
keep_tail (a ∷ b ∷ bs) = keep_tail (b ∷ bs)

module _ (F : FloatOps) where
  pub data YahboomPacket : Type 0 where
    raw_imu : (acceleration angular_velocity magnetic_field : List F.Carrier) → YahboomPacket
    quaternion : (wxyz : List F.Carrier) → YahboomPacket
    euler : (roll_pitch_yaw : List F.Carrier) → YahboomPacket

  abbrev pub acceleration_scale_g : F.Carrier
  acceleration_scale_g = ratio F 16 32767

  -- 9.80665
  abbrev pub standard_gravity : F.Carrier
  standard_gravity = ratio F 980665 100000

  abbrev pub angular_velocity_scale : F.Carrier
  angular_velocity_scale = F.mul (ratio F 2000 32767) (F.div F.pi (lit F 180))

  abbrev pub magnetic_field_scale : F.Carrier
  magnetic_field_scale = ratio F 800 32767

  -- `struct.unpack("<9h", payload)`
  abbrev pub unpack_shorts : Bytes → List ℤ
  unpack_shorts payload =
      map (λ w. signed_value 2 (le_value w))
        (split (2 ∷ 2 ∷ 2 ∷ 2 ∷ 2 ∷ 2 ∷ 2 ∷ 2 ∷ 2 ∷ []) payload)

  abbrev pub unpack_floats : List ℕ → Bytes → List F.Carrier
  unpack_floats format payload = map (λ w. F.of_f32 (le_value w)) (split format payload)

  unfoldable pub raw_imu_of : Bytes → YahboomPacket
  raw_imu_of payload =
      let raw = unpack_shorts payload in
      raw_imu
        (map (λ v. F.mul (F.mul (F.of_int v) acceleration_scale_g) standard_gravity) (take 3 raw))
        (map (λ v. F.mul (F.of_int v) angular_velocity_scale) (take 3 (drop 3 raw)))
        (map (λ v. F.mul (F.of_int v) magnetic_field_scale) (take 3 (drop 6 raw)))

  -- The dispatch of `decode_frame` on the function byte and the payload's length.
  unfoldable pub decode_payload : ℕ → Bytes → Result YahboomPacket
  decode_payload function payload =
      if function == function_raw_imu && length payload == 18
      then ok (raw_imu_of payload)
      else if function == function_quaternion && length payload == 16
      then ok (quaternion (unpack_floats (4 ∷ 4 ∷ 4 ∷ 4 ∷ []) payload))
      else if function == function_euler && length payload == 12
      then ok (euler (unpack_floats (4 ∷ 4 ∷ 4 ∷ []) payload))
      else err (value_error "unsupported Yahboom frame function")

  unfoldable pub decode_frame : Bytes → Result YahboomPacket
  decode_frame frame = do
    require (leb 5 (length frame) && starts_with_header frame)
        (value_error "invalid Yahboom frame header")
    require (byte_at frame 2 == length frame) (value_error "Yahboom frame length mismatch")
    require (sum (init frame) % 256 == last frame) (value_error "Yahboom frame checksum mismatch")
    decode_payload (byte_at frame 3) (init (drop 4 frame))

  -- How one round of `feed`'s loop leaves the buffer: a `break`, or a `continue` behind a rejected
  -- byte, or the end of the body behind a decoded frame.
  pub data Round : Type 0 where
    stop : Bytes → Round
    reject : Bytes → Round
    accept : YahboomPacket → Bytes → Round

  -- `try: packets.append(decode_frame(frame)) except ValueError`
  abbrev pub decoded : Result YahboomPacket → Bytes → Bytes → Round
  decoded (ok packet) rejected accepted = accept packet accepted
  decoded (err e) rejected accepted = reject rejected

  -- The loop's body behind `del self.buffer[:start]`.
  unfoldable pub at_header : ℕ → Bytes → Round
  at_header maximum buffer =
      let size = byte_at buffer 2 in
      if ltb (length buffer) 3
      then stop buffer
      else if ltb size 5 || ltb maximum size
      then reject (drop 1 buffer)
      else if ltb (length buffer) size
      then stop buffer
      else decoded (decode_frame (take size buffer)) (drop 1 buffer) (drop size buffer)

  unfoldable pub iterate : ℕ → Bytes → Round
  iterate maximum buffer = elim (find_header buffer) [
    | none ↦ stop (keep_tail buffer)
    | some start ↦ at_header maximum (drop start buffer)
  ]

  pub record YahboomStreamDecoder : Type 0 where
    pub maximum_frame_length : ℕ
    pub buffer : Bytes
    pub rejected_frame_count : ℕ

  unfoldable pub new_decoder : ℕ → Result YahboomStreamDecoder
  new_decoder maximum = do
    require (leb 5 maximum && leb maximum 255)
        (value_error "maximum_frame_length must be in [5, 255]")
    ok (record { maximum_frame_length = maximum; buffer = []; rejected_frame_count = 0 })

  abbrev pub Fed : Type 0
  Fed = YahboomStreamDecoder × List YahboomPacket

  -- the decoder behind `self.rejected_frame_count += 1` and `del self.buffer[0]`
  abbrev pub rejecting : YahboomStreamDecoder → Bytes → YahboomStreamDecoder
  rejecting d rest = record d { buffer = rest; rejected_frame_count = suc d.rejected_frame_count }

  abbrev pub appending : YahboomPacket → Fed → Fed
  appending packet (d, packets) = (d, packet ∷ packets)

  -- `while True` on fuel. Every round that does not break takes a byte off the buffer, so more fuel
  -- than bytes is never used up. The packets are listed in the order of the rounds.
  unfoldable pub loop : ℕ → YahboomStreamDecoder → Fed
  loop zero d = (d, [])
  loop (suc fuel) d = elim (iterate d.maximum_frame_length d.buffer) [
    | stop rest ↦ (record d { buffer = rest }, [])
    | reject rest ↦ loop fuel (rejecting d rest)
    | accept packet rest ↦ appending packet (loop fuel (record d { buffer = rest }))
  ]

  unfoldable pub feed : YahboomStreamDecoder → Bytes → Fed
  feed d chunk =
      let buffer = d.buffer ++ chunk in loop (suc (length buffer)) (record d { buffer = buffer })
