-- ===== src/DamiaoRegisters.antt =====
-- src/open_sprite_runtime/damiao_registers.py: requests and responses of the read-only register
-- transactions, and the loops that collect the registers.
pub mod Response
pub mod Collect
pub mod Account
use open_sprite_runtime.Prelude.{
  ℕ, ◌+◌, ◌*◌, ◌/◌, ◌%◌, Bool, true, false, not, ◌&&◌, ◌||◌, String, List, [], ◌∷◌, ◌==◌, leb,
  length, drop, take, get_or, if◌then◌else◌,
}
use open_sprite_runtime.Prelude.Result.{
  Exception, Result, ok, err, value_error, require, raise_if, ◌>>=◌, ◌>>◌,
}
use open_sprite_runtime.Bytes.{Bytes, le_value}
use open_sprite_runtime.Float.{FloatOps, zero_float}
use open_sprite_runtime.SocketCan.{ReceivedCanFrame}
use open_sprite_runtime.SocketCan.Writer.{
  mem, read_opcode, read_request, mit_range_registers, commissioning_registers,
}

unfoldable pub build_read_request : ℕ → ℕ → Result Bytes
build_read_request command_can_id register_id = do
  require (leb command_can_id 0x7ff)
      (value_error "Damiao command CAN ID must be an 11-bit standard ID")
  require (mem register_id mit_range_registers)
      (value_error "only PMAX/VMAX/TMAX registers 21/22/23 may be read")
  ok (read_request command_can_id register_id)

-- The names of `MIT_RANGE_REGISTERS` and of `COMMISSIONING_REGISTERS`.
unfoldable pub register_name : ℕ → String
register_name register =
    if register == 21
    then "PMAX"
    else if register == 22
    then "VMAX"
    else if register == 23
    then "TMAX"
    else if register == 2
    then "OT_Value"
    else if register == 3
    then "OC_Value"
    else if register == 6
    then "MAX_SPD"
    else if register == 13
    then "hw_ver"
    else if register == 14
    then "sw_ver"
    else "sub_ver"

-- `value_type == "uint32"` of a commissioning register
abbrev pub is_uint32 : ℕ → Bool
is_uint32 register = register == 13 || register == 14 || register == 36

abbrev pub payload_byte : ReceivedCanFrame → ℕ → ℕ
payload_byte frame i = get_or frame.payload i 0

-- `struct.unpack("<I", frame.data[4:8])`
abbrev pub word : ReceivedCanFrame → ℕ
word frame = le_value (take 4 (drop 4 frame.payload))

-- The checks that both decoders make of a frame, in their order.
unfoldable pub check_response : ReceivedCanFrame → ℕ → ℕ → ℕ → Result (Unit {0})
check_response frame command master register = do
  require (frame.can_id == master)
      (value_error "register response arbitration ID does not match Master ID")
  raise_if (not frame.is_fd || not frame.bit_rate_switch)
      (value_error "register response must be CAN-FD with bit-rate switching")
  require (length frame.payload == 8)
      (value_error "register response must contain exactly eight bytes")
  require (payload_byte frame 0 + payload_byte frame 1 * 256 == command)
      (value_error "register response payload command CAN ID mismatch")
  require (payload_byte frame 2 == read_opcode)
      (value_error "register response is not a read response")
  require (payload_byte frame 3 == register) (value_error "register response RID mismatch")

module _ (F : FloatOps) where
  -- `float | int`
  pub data Value : Type 0 where
    float_value : F.Carrier → Value
    int_value : ℕ → Value

  pub record DamiaoRegisterValue : Type 0 where
    pub master_id : ℕ
    pub register_id : ℕ
    pub register_name : String
    pub value : Value

  -- `value = struct.unpack("<f", ...)` and its test
  unfoldable pub positive_float : ReceivedCanFrame → Result Value
  positive_float frame = do
    raise_if
        (not (F.is_finite (F.of_f32 (word frame))) || F.leb (F.of_f32 (word frame)) (zero_float F))
        (value_error "register value must be finite and positive")
    ok (float_value (F.of_f32 (word frame)))

  unfoldable pub decode_read_response : ReceivedCanFrame → ℕ → ℕ → ℕ → Result DamiaoRegisterValue
  unfolding check_response positive_float
  decode_read_response frame command master register = do
    check_response frame command master register
    require (mem register mit_range_registers) (value_error "unexpected register ID")
    value ← positive_float frame
    ok (record {
      master_id = master;
      register_id = register;
      register_name = register_name register;
      value = value;
    })

  unfoldable pub decode_commissioning_read_response :
      ReceivedCanFrame → ℕ → ℕ → ℕ → Result DamiaoRegisterValue
  unfolding check_response positive_float
  decode_commissioning_read_response frame command master register = do
    require (mem register commissioning_registers)
        (value_error "unexpected commissioning register ID")
    check_response frame command master register
    value ← if is_uint32 register then ok (int_value (word frame)) else positive_float frame
    ok (record {
      master_id = master;
      register_id = register;
      register_name = register_name register;
      value = value;
    })
