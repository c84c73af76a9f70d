-- ===== src/SocketCan/Loopback.antt =====
-- What a receiver makes of a frame that a writer packed.
use open_sprite_runtime.Prelude.{
  ℕ, ◌<◌, ◌≤◌, ◌≡◌, refl, sym, ap, ◌∙◌, true, false, String, List, [], ◌∷◌, ◌++◌, length, take,
  replicate, length-take, length-append, take-append_all, take-take, arith,
}
use open_sprite_runtime.Prelude.Int.{ℤ, ◌≤ℤ◌, ltb_ℤ}
use open_sprite_runtime.Prelude.Result.{ok, ok_injective}
use open_sprite_runtime.Bytes.{Bytes, span, le_bytes, le_value, length-le_bytes, le_value-le_bytes}
use open_sprite_runtime.Bytes.Signed.{pack_unsigned-fits}
use open_sprite_runtime.Bytes.Struct.{join, Widths, split-join, length-join}
use open_sprite_runtime.SocketCan.{
  canfd_format, can_id_of, bit, field_64, canfd_pack, Ancillary, socket_timestamps_ns, RawFrame,
  unpack_frame, receive,
}

-- The fields that `canfd_pack` joins.
abbrev fd_fields : ℕ → Bytes → List Bytes
fd_fields id field = le_bytes 4 id ∷ (8 ∷ []) ∷ (0x01 ∷ []) ∷ (0 ∷ []) ∷ (0 ∷ []) ∷ field ∷ []

abbrev zeros : Bytes
zeros = replicate 64 0

length-field_64 : (payload : Bytes) → length (field_64 payload) ≡ 64
length-field_64 payload =
    omega (arith, length-take 64 (payload ++ zeros), length-append payload zeros)

-- What a CAN-FD frame with bit-rate switching says: its identifier word and eight bytes of data.
abbrev pub raw_frame : ℕ → Bytes → RawFrame
raw_frame id payload = record {
  raw_id = id;
  size = 8;
  is_fd = true;
  bit_rate_switch = true;
  error_state_indicator = false;
  field = field_64 payload;
}

-- A frame on the wire carries an identifier and eight bytes.
abbrev pub Carries : Bytes → ℕ → Bytes → Type 0
Carries frame id payload = unpack_frame frame ≡ ok (raw_frame id payload)

unpack_frame-join :
    (id : ℕ) (field : Bytes)
    → id < span 4
    → length field ≡ 64
    → unpack_frame (join (fd_fields id field))
      ≡ ok (record {
        raw_id = id;
        size = 8;
        is_fd = true;
        bit_rate_switch = true;
        error_state_indicator = false;
        field = field;
      })
unfolding unpack_frame le_value
unpack_frame-join id field h long =
    let fields = fd_fields id field in
    let fits : Widths canfd_format fields =
      (length-le_bytes 4 id, (refl, (refl, (refl, (refl, (long, tt)))))) in
    rw (
      length-join canfd_format fields fits,
      split-join canfd_format fields fits,
      le_value-le_bytes 4 id h,
    )

pub canfd_pack-fits :
    (id : ℕ) (payload : Bytes)
    → id < span 4
    → canfd_pack id payload ≡ ok (join (fd_fields id (field_64 payload)))
unfolding canfd_pack
canfd_pack-fits id payload h = rw (pack_unsigned-fits 4 id h)

pub canfd_pack-Carries :
    (id : ℕ) (payload : Bytes) {frame : Bytes}
    → id < span 4
    → canfd_pack id payload ≡ ok frame
    → Carries frame id payload
canfd_pack-Carries id payload h e =
    rw (ok_injective (sym e ∙ canfd_pack-fits id payload h))
      (unpack_frame-join id (field_64 payload) h (length-field_64 payload))

take-field_64 : (payload : Bytes) → length payload ≡ 8 → take 8 (field_64 payload) ≡ payload
take-field_64 payload h =
    take-take 8 64 (payload ++ replicate 64 0) (omega arith)
    ∙ ap (λ n. take n (payload ++ replicate 64 0)) (sym h)
    ∙ take-append_all payload (replicate 64 0)

-- A frame that was packed for an 11-bit identifier and eight bytes is received, with timestamp
-- evidence that is not in the future, as a standard CAN-FD data frame with bit-rate switching that
-- has that identifier, those bytes and those timestamps.
pub receive-canfd_pack :
    (interface : String) (id : ℕ) (payload : Bytes) (ancillary : List Ancillary)
    (software hardware clock : ℤ) {frame : Bytes}
    → id ≤ 0x7ff
    → length payload ≡ 8
    → socket_timestamps_ns ancillary ≡ ok (software, hardware)
    → software ≤ℤ clock
    → canfd_pack id payload ≡ ok frame
    → receive interface frame ancillary clock
      ≡ ok (record {
        interface = interface;
        can_id = id;
        payload = payload;
        is_extended = false;
        is_remote = false;
        is_error = false;
        is_fd = true;
        bit_rate_switch = true;
        error_state_indicator = false;
        software_timestamp_ns = software;
        hardware_timestamp_ns = hardware;
        userspace_receive_timestamp_ns = clock;
      })
unfolding receive
receive-canfd_pack interface id payload ancillary software hardware clock low eight stamps past e =
    rw (
      stamps,
      not_future software clock past,
      canfd_pack-Carries id payload (omega arith) e,
      length-field_64 payload,
      take-field_64 payload eight,
      standard_id id low,
      top_clear id low,
      remote_clear id low,
      error_clear id low,
    )
  where
    not_future : (s c : ℤ) → s ≤ℤ c → ltb_ℤ c s ≡ false
    not_future s c h = ground arith

    standard_id : (i : ℕ) → i ≤ 0x7ff → can_id_of i ≡ i
    standard_id i h = omega arith

    top_clear : (i : ℕ) → i ≤ 0x7ff → bit 0x8000_0000 i ≡ false
    top_clear i h = ground arith

    remote_clear : (i : ℕ) → i ≤ 0x7ff → bit 0x4000_0000 i ≡ false
    remote_clear i h = ground arith

    error_clear : (i : ℕ) → i ≤ 0x7ff → bit 0x2000_0000 i ≡ false
    error_clear i h = ground arith
