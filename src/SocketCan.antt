-- ===== src/SocketCan.antt =====
-- src/open_sprite_runtime/socketcan.py: CAN frames on the wire, the receiver, and the writers that
-- can each emit one kind of frame only. The host is little-endian, as "=" formats are native.
-- CAN identifiers are natural numbers: the negative ones that the code refuses are not represented.
pub mod Receipt
pub mod Writer
pub mod MitWriter
pub mod Open
pub mod Wire
pub mod MitWire
pub mod GroupWire
pub mod Loopback
pub mod Hands
use open_sprite_runtime.Prelude.{
  ℕ, zero, suc, ◌+◌, ◌*◌, ◌/◌, ◌%◌, Bool, true, false, not, ◌&&◌, ◌||◌, String, List, [], ◌∷◌, ◌++◌,
  ltb, leb, ◌==◌, if◌then◌else◌, length, take, drop, replicate, map, get_or,
}
use open_sprite_runtime.Prelude.Int.{ℤ, pos, ◌+ℤ◌, ◌-ℤ◌, ◌*ℤ◌, leb_ℤ, ltb_ℤ}
use open_sprite_runtime.Prelude.Result.{
  Result, ok, err, value_error, runtime_error, struct_error, socket_can_timestamp_error, require,
  raise_if, ◌>>=◌, ◌>>◌,
}
use open_sprite_runtime.Bytes.{Bytes, le_value, pack_unsigned, signed_value}
use open_sprite_runtime.Bytes.Struct.{join, split, total}

-- SOL_SOCKET and SO_TIMESTAMPING_LINUX_64
abbrev pub sol_socket : ℕ
sol_socket = 1

abbrev pub so_timestamping_linux_64 : ℕ
so_timestamping_linux_64 = 37

-- CANFD_FRAME, "=IBBBB64s"
abbrev pub canfd_format : List ℕ
canfd_format = 4 ∷ 1 ∷ 1 ∷ 1 ∷ 1 ∷ 64 ∷ []

-- CAN_FRAME, "=IB3x8s"
abbrev pub can_format : List ℕ
can_format = 4 ∷ 1 ∷ 3 ∷ 8 ∷ []

-- `id & CAN_ID_MASK` and the flags above it, bits 31, 30 and 29.
abbrev pub can_id_of : ℕ → ℕ
can_id_of raw = raw % 0x2000_0000

abbrev pub bit : ℕ → ℕ → Bool
bit weight raw = raw / weight % 2 == 1

abbrev pub max_standard_id : ℕ
max_standard_id = 0x7ff

-- `data.ljust(64, b"\0")` as the field `64s`
abbrev pub field_64 : Bytes → Bytes
field_64 bytes = take 64 (bytes ++ replicate 64 0)

-- `CANFD_FRAME.pack(can_id, 8, 0x01, 0, 0, data.ljust(64, b"\0"))`
unfoldable pub canfd_pack : ℕ → Bytes → Result Bytes
canfd_pack can_id payload = do
  raw ← pack_unsigned 4 (pos can_id)
  ok (join (raw ∷ (8 ∷ []) ∷ (0x01 ∷ []) ∷ (0 ∷ []) ∷ (0 ∷ []) ∷ field_64 payload ∷ []))

pub record ReceivedCanFrame : Type 0 where
  pub interface : String
  pub can_id : ℕ
  pub payload : Bytes
  pub is_extended : Bool
  pub is_remote : Bool
  pub is_error : Bool
  pub is_fd : Bool
  pub bit_rate_switch : Bool
  pub error_state_indicator : Bool
  pub software_timestamp_ns : ℤ
  pub hardware_timestamp_ns : ℤ
  pub userspace_receive_timestamp_ns : ℤ

unfoldable pub userspace_queue_age_ns : ReceivedCanFrame → ℤ
userspace_queue_age_ns f = f.userspace_receive_timestamp_ns -ℤ f.software_timestamp_ns

-- One control message: its level, its type and its bytes.
pub record Ancillary : Type 0 where
  pub level : ℕ
  pub kind : ℕ
  pub payload : Bytes

-- `values[i] * 1_000_000_000 + values[i + 1]`
abbrev pub nanoseconds : ℤ → ℤ → ℤ
nanoseconds seconds rest = seconds *ℤ pos 1_000_000_000 +ℤ rest

-- The timestamps in a payload of 48 bytes or more, `struct.unpack_from("=6q", payload)`.
unfoldable pub timestamps_of : List ℤ → Result (ℤ × ℤ)
timestamps_of (s0 ∷ n0 ∷ s1 ∷ n1 ∷ s2 ∷ n2 ∷ []) = do
  let software = nanoseconds s0 n0
  let raw_hardware = nanoseconds s2 n2
  require (ltb_ℤ (pos 0) software)
      (socket_can_timestamp_error "kernel software RX timestamp is missing")
  require (ltb_ℤ (pos 0) raw_hardware)
      (socket_can_timestamp_error "raw hardware RX timestamp is missing")
  ok (software, raw_hardware)
timestamps_of _ = err struct_error

unfoldable pub socket_timestamps_ns : List Ancillary → Result (ℤ × ℤ)
socket_timestamps_ns [] = err (socket_can_timestamp_error "SCM_TIMESTAMPING evidence is missing")
socket_timestamps_ns (a ∷ rest) =
    let later = socket_timestamps_ns rest in
    if not (a.level == sol_socket) || not (a.kind == so_timestamping_linux_64)
    then later
    else if ltb (length a.payload) 48
    then err (socket_can_timestamp_error "SCM_TIMESTAMPING payload is too short")
    else timestamps_of
        (map (λ w. signed_value 8 (le_value w)) (split (8 ∷ 8 ∷ 8 ∷ 8 ∷ 8 ∷ 8 ∷ []) a.payload))

-- What the two frame formats give: identifier word, length, the three FD flags and the data field.
pub record RawFrame : Type 0 where
  pub raw_id : ℕ
  pub size : ℕ
  pub is_fd : Bool
  pub bit_rate_switch : Bool
  pub error_state_indicator : Bool
  pub field : Bytes

unfoldable pub canfd_fields : List Bytes → Result RawFrame
canfd_fields (raw ∷ size ∷ flags ∷ r0 ∷ r1 ∷ field ∷ []) = ok (record {
  raw_id = le_value raw;
  size = le_value size;
  is_fd = true;
  bit_rate_switch = bit 1 (le_value flags);
  error_state_indicator = bit 2 (le_value flags);
  field = field;
})
canfd_fields _ = err struct_error

unfoldable pub can_fields : List Bytes → Result RawFrame
can_fields (raw ∷ size ∷ padding ∷ field ∷ []) = ok (record {
  raw_id = le_value raw;
  size = le_value size;
  is_fd = false;
  bit_rate_switch = false;
  error_state_indicator = false;
  field = field;
})
can_fields _ = err struct_error

unfoldable pub unpack_frame : Bytes → Result RawFrame
unfolding canfd_fields can_fields
unpack_frame payload =
    if length payload == total canfd_format
    then canfd_fields (split canfd_format payload)
    else if length payload == total can_format
    then can_fields (split can_format payload)
    else err (runtime_error "unexpected SocketCAN frame size")

-- `SocketCanReceiver.receive`, from what `recvmsg` and the clock return.
unfoldable pub receive : String → Bytes → List Ancillary → ℤ → Result ReceivedCanFrame
receive interface payload ancillary clock_ns = do
  stamps ← socket_timestamps_ns ancillary
  raise_if (ltb_ℤ clock_ns stamps.0)
      (runtime_error "kernel RX timestamp is in the future relative to userspace")
  raw ← unpack_frame payload
  raise_if (ltb (length raw.field) raw.size) (runtime_error "invalid CAN payload length")
  ok (record {
    interface = interface;
    can_id = can_id_of raw.raw_id;
    payload = take raw.size raw.field;
    is_extended = bit 0x8000_0000 raw.raw_id;
    is_remote = bit 0x4000_0000 raw.raw_id;
    is_error = bit 0x2000_0000 raw.raw_id;
    is_fd = raw.is_fd;
    bit_rate_switch = raw.bit_rate_switch;
    error_state_indicator = raw.error_state_indicator;
    software_timestamp_ns = stamps.0;
    hardware_timestamp_ns = stamps.1;
    userspace_receive_timestamp_ns = clock_ns;
  })
