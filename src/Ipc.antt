-- ===== src/Ipc.antt =====
-- src/open_sprite_runtime/native_ipc.py: the packets between the policy process and the native
-- state and safety loop. A double is its 64-bit pattern, so finiteness and sign are read off it.
pub mod Vectors
pub mod Hash
pub mod Header
pub mod StateTrip
pub mod TargetTrip
use open_sprite_runtime.Prelude.{
  ℕ, zero, suc, ◌+◌, ◌*◌, ◌/◌, ◌%◌, ◌<◌, ◌≡◌, Bool, true, false, not, ◌&&◌, ◌||◌, List, [], ◌∷◌,
  ◌++◌, ltb, leb, ◌==◌, length, take, drop, replicate, map, all, any, All, bit_xor,
}
use open_sprite_runtime.Prelude.Int.{ℤ, pos}
use open_sprite_runtime.Prelude.Result.{
  Result, ok, err, value_error, struct_error, require, raise_if, ◌>>=◌, ◌>>◌,
}
use open_sprite_runtime.Bytes.{
  Bytes, le_bytes, le_value, bytes_eq, pack_unsigned, pack_signed, signed_value,
}
use open_sprite_runtime.Bytes.Struct.{join, split, total}

-- b"SPRT"
abbrev pub magic : Bytes
magic = b'S' ∷ b'P' ∷ b'R' ∷ b'T' ∷ []

abbrev pub version : ℕ
version = 1

abbrev pub state_kind : ℕ
state_kind = 1

abbrev pub target_kind : ℕ
target_kind = 2

abbrev pub joint_count : ℕ
joint_count = 31

-- A double by its bit pattern: sign, eleven exponent bits, fifty-two fraction bits.
abbrev pub Double : Type 0
Double = ℕ

abbrev pub IsDouble : Double → Type 0
IsDouble d = d < 0x1_0000_0000_0000_0000

-- `math.isfinite`
abbrev pub is_finite : Double → Bool
is_finite d = not (d / 0x10_0000_0000_0000 % 2048 == 2047)

-- `value < 0.0` of a finite value: the sign bit is set, and the value is not -0.0.
abbrev pub is_negative : Double → Bool
is_negative d = leb 0x8000_0000_0000_0000 d && not (d == 0x8000_0000_0000_0000)

-- "<4sHHQqQ62d"
abbrev pub state_format : List ℕ
state_format = 4 ∷ 2 ∷ 2 ∷ 8 ∷ 8 ∷ 8 ∷ replicate 62 8

-- "<4sHHQqQQ155d"
abbrev pub target_format : List ℕ
target_format = 4 ∷ 2 ∷ 2 ∷ 8 ∷ 8 ∷ 8 ∷ 8 ∷ replicate 155 8

abbrev pub fnv_offset : ℕ
fnv_offset = 0xcbf2_9ce4_8422_2325

-- `result ^= byte; result = (result * 0x100000001B3) & 0xFFFFFFFFFFFFFFFF`
unfoldable pub fnv_byte : ℕ → ℕ → ℕ
fnv_byte result byte = bit_xor result byte * 0x100_0000_01b3 % 0x1_0000_0000_0000_0000

unfoldable pub fnv : ℕ → Bytes → ℕ
unfolding fnv_byte
fnv result [] = result
fnv result (b ∷ bs) = fnv (fnv_byte result b) bs

-- A name is its UTF-8 encoding, in which only "\0" has a zero byte.
abbrev pub is_ipc_name : Bytes → Bool
is_ipc_name name = ltb 0 (length name) && all (λ b. not (b == 0)) name

-- `len(set(selected)) == len(selected)`
abbrev pub distinct : List Bytes → Bool
distinct [] = true
distinct (name ∷ names) = not (any (bytes_eq name) names) && distinct names

unfoldable pub hash_names : ℕ → List Bytes → Result ℕ
unfolding fnv
hash_names result [] = ok result
hash_names result (name ∷ names) = do
  require (is_ipc_name name) (value_error "IPC names must be non-empty and contain no NUL")
  hash_names (fnv result (name ++ 0 ∷ [])) names

unfoldable pub ordered_name_hash : List Bytes → Result ℕ
unfolding hash_names
ordered_name_hash names = do
  require (length names == joint_count && distinct names)
      (value_error "ordered IPC name list must contain 31 unique names")
  hash_names fnv_offset names

unfoldable pub vector : List Double → Result (List Double)
vector values = do
  require (length values == joint_count && all is_finite values)
      (value_error "must contain 31 finite values")
  ok values

pub record NativeStatePacket : Type 0 where
  pub sequence : ℤ
  pub monotonic_ns : ℤ
  pub motor_order_hash : ℤ
  pub position_rad : List Double
  pub velocity_rad_s : List Double

-- The fields that `_STATE.pack` and `_TARGET.pack` write in front of the doubles.
abbrev pub header : ℕ → List Bytes → List Bytes
header kind rest = magic ∷ le_bytes 2 version ∷ le_bytes 2 kind ∷ rest

unfoldable pub pack_state : NativeStatePacket → Result Bytes
pack_state p = do
  position ← vector p.position_rad
  velocity ← vector p.velocity_rad_s
  sequence ← pack_unsigned 8 p.sequence
  timestamp ← pack_signed 8 p.monotonic_ns
  name_hash ← pack_unsigned 8 p.motor_order_hash
  ok (
      join (
        header state_kind
          (sequence ∷ timestamp ∷ name_hash ∷ map (le_bytes 8) (position ++ velocity))))

-- `(magic, version, kind) != (MAGIC, VERSION, KIND)`
abbrev pub header_matches : ℕ → Bytes → Bytes → Bytes → Bool
header_matches expected m v k = bytes_eq m magic && le_value v == version && le_value k == expected

-- The body of `unpack` behind `_STATE.unpack`. The last clause is not reached: the format has six
-- fields in front of its doubles.
unfoldable pub state_of_fields : List Bytes → Result NativeStatePacket
state_of_fields (m ∷ v ∷ k ∷ sequence ∷ timestamp ∷ name_hash ∷ values) = do
  require (header_matches state_kind m v k) (value_error "native state packet header mismatch")
  position ← vector (take joint_count (map le_value values))
  velocity ← vector (drop joint_count (map le_value values))
  ok (record {
    sequence = pos (le_value sequence);
    monotonic_ns = signed_value 8 (le_value timestamp);
    motor_order_hash = pos (le_value name_hash);
    position_rad = position;
    velocity_rad_s = velocity;
  })
state_of_fields _ = err struct_error

unfoldable pub unpack_state : Bytes → Result NativeStatePacket
unpack_state payload = do
  require (length payload == total state_format)
      (value_error "native state packet must be 528 bytes")
  state_of_fields (split state_format payload)

pub record PolicyTargetPacket : Type 0 where
  pub sequence : ℤ
  pub monotonic_ns : ℤ
  pub joint_order_hash : ℤ
  pub source_state_sequence : ℤ
  pub position_rad : List Double
  pub velocity_rad_s : List Double
  pub kp : List Double
  pub kd : List Double
  pub feedforward_torque_nm : List Double

unfoldable pub pack_target : PolicyTargetPacket → Result Bytes
pack_target p = do
  position ← vector p.position_rad
  velocity ← vector p.velocity_rad_s
  kp ← vector p.kp
  kd ← vector p.kd
  feedforward ← vector p.feedforward_torque_nm
  raise_if (any is_negative kp || any is_negative kd)
      (value_error "policy target Kp/Kd must be non-negative")
  sequence ← pack_unsigned 8 p.sequence
  timestamp ← pack_signed 8 p.monotonic_ns
  name_hash ← pack_unsigned 8 p.joint_order_hash
  source ← pack_unsigned 8 p.source_state_sequence
  ok (
      join (
        header target_kind (
          sequence
          ∷ timestamp
          ∷ name_hash
          ∷ source
          ∷ map (le_bytes 8) (position ++ (velocity ++ (kp ++ (kd ++ feedforward)))))))

-- `values[index * 31 : (index + 1) * 31]`
abbrev pub slice : ℕ → List Double → List Double
slice index values = take joint_count (drop (index * joint_count) values)

unfoldable pub target_of_fields : List Bytes → Result PolicyTargetPacket
target_of_fields (m ∷ v ∷ k ∷ sequence ∷ timestamp ∷ name_hash ∷ source ∷ fields) = do
  require (header_matches target_kind m v k) (value_error "policy target packet header mismatch")
  let values = map le_value fields
  position ← vector (slice 0 values)
  velocity ← vector (slice 1 values)
  kp ← vector (slice 2 values)
  kd ← vector (slice 3 values)
  feedforward ← vector (slice 4 values)
  raise_if (any is_negative kp || any is_negative kd)
      (value_error "policy target Kp/Kd must be non-negative")
  ok (record {
    sequence = pos (le_value sequence);
    monotonic_ns = signed_value 8 (le_value timestamp);
    joint_order_hash = pos (le_value name_hash);
    source_state_sequence = pos (le_value source);
    position_rad = position;
    velocity_rad_s = velocity;
    kp = kp;
    kd = kd;
    feedforward_torque_nm = feedforward;
  })
target_of_fields _ = err struct_error

unfoldable pub unpack_target : Bytes → Result PolicyTargetPacket
unpack_target payload = do
  require (length payload == total target_format)
      (value_error "policy target packet must be 1288 bytes")
  target_of_fields (split target_format payload)
