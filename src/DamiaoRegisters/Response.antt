-- ===== src/DamiaoRegisters/Response.antt =====
-- What the response decoders of damiao_registers.py accept.
use open_sprite_runtime.Prelude.{
  ℕ, ◌+◌, ◌*◌, ◌≡◌, sym, ap, ◌∙◌, true, false, not, ◌||◌, ◌==◌, length, arith,
}
use open_sprite_runtime.Prelude.Result.{
  ok, require-eq-ok, raise_if-eq-ok, >>=-eq-ok, ok_injective, require-true,
}
use open_sprite_runtime.Float.{FloatOps, zero_float}
use open_sprite_runtime.SocketCan.{ReceivedCanFrame}
use open_sprite_runtime.SocketCan.Writer.{mem, read_opcode, mit_range_registers}
use open_sprite_runtime.DamiaoRegisters.{
  DamiaoRegisterValue, Value, float_value, check_response, positive_float, decode_read_response,
  payload_byte, word,
}

-- A frame that answers the read of a register of one motor.
pub record Answers (f : ReceivedCanFrame) (command master register : ℕ) : Type 0 where
  pub from_master : f.can_id ≡ master
  pub is_fd : f.is_fd ≡ true
  pub is_switched : f.bit_rate_switch ≡ true
  pub size : length f.payload ≡ 8
  pub for_command : payload_byte f 0 + payload_byte f 1 * 256 ≡ command
  pub is_read : payload_byte f 2 ≡ read_opcode
  pub is_register : payload_byte f 3 ≡ register

check_response-Answers :
    (f : ReceivedCanFrame) (command master register : ℕ)
    → check_response f command master register ≡ ok tt
    → Answers f command master register
unfolding check_response
check_response-Answers f command master register h =
    let (a, h1) = require-eq-ok (f.can_id == master) _ _ h in
    let (b, h2) = raise_if-eq-ok (not f.is_fd || not f.bit_rate_switch) _ _ h1 in
    let (c, h3) = require-eq-ok (length f.payload == 8) _ _ h2 in
    let (d, h4) = require-eq-ok (payload_byte f 0 + payload_byte f 1 * 256 == command) _ _ h3 in
    let (e, h5) = require-eq-ok (payload_byte f 2 == read_opcode) _ _ h4 in
    let g = require-true (payload_byte f 3 == register) _ h5 in
    record {
      from_master = ground arith;
      is_fd = ground arith;
      is_switched = ground arith;
      size = ground arith;
      for_command = ground arith;
      is_read = ground arith;
      is_register = ground arith;
    }

module _ (F : FloatOps) where
  -- What a value of a register may be.
  pub record IsPositive (f : ReceivedCanFrame) (v : Value F) : Type 0 where
    pub value_is : v ≡ float_value (F.of_f32 (word f))
    pub finite : F.is_finite (F.of_f32 (word f)) ≡ true
    pub positive : F.leb (F.of_f32 (word f)) (zero_float F) ≡ false

  positive_float-IsPositive :
      (f : ReceivedCanFrame) {v : Value F} → positive_float F f ≡ ok v → IsPositive f v
  unfolding positive_float
  positive_float-IsPositive f h =
      let (a, h1) =
        raise_if-eq-ok
          (not (F.is_finite (F.of_f32 (word f))) || F.leb (F.of_f32 (word f)) (zero_float F)) _ _
          h in
      record { value_is = sym (ok_injective h1); finite = ground arith; positive = ground arith }

  -- A value that is decoded for an MIT-range register was carried by an eight-byte CAN-FD frame of
  -- the motor's Master ID that answers the read of this register of this motor; the register is
  -- allowed, and the value is the frame's 32-bit float, finite and positive.
  pub decode_read_response-Answers :
      (f : ReceivedCanFrame) (command master register : ℕ) {v : DamiaoRegisterValue F}
      → decode_read_response F f command master register ≡ ok v
      → Answers f command master register
        × (mem register mit_range_registers ≡ true)
        × (v.master_id ≡ master)
        × (v.register_id ≡ register)
        × IsPositive f v.value
  unfolding decode_read_response
  decode_read_response-Answers f command master register h =
      let (_, checked, h1) = >>=-eq-ok (check_response f command master register) _ h in
      let (allowed, h2) = require-eq-ok (mem register mit_range_registers) _ _ h1 in
      let (value, read, h3) = >>=-eq-ok (positive_float F f) _ h2 in
      let same = sym (ok_injective h3) in
      let p = positive_float-IsPositive f read in
      (
        check_response-Answers f command master register checked,
        allowed,
        ap (λ v. v.master_id) same,
        ap (λ v. v.register_id) same,
        record {
          value_is = ap (λ v. v.value) same ∙ p.value_is;
          finite = p.finite;
          positive = p.positive;
        },
      )
