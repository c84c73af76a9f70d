-- ===== src/Ipc/StateTrip.antt =====
-- A packed native state packet reads back as itself.
use open_sprite_runtime.Prelude.{
  ℕ, ◌<◌, ◌≡◌, refl, ◌∙◌, List, ◌∷◌, ◌++◌, replicate, map, All, length-append, arith,
}
use open_sprite_runtime.Prelude.Int.{ℤ, pos}
use open_sprite_runtime.Prelude.Result.{ok, >>=-eq-ok}
use open_sprite_runtime.Bytes.{
  Bytes, span, le_bytes, length-le_bytes, le_value-le_bytes, pack_unsigned, pack_signed,
  signed_word, FitsSigned,
}
use open_sprite_runtime.Bytes.Signed.{pack_signed-eq-ok, pack_unsigned-eq-ok}
use open_sprite_runtime.Bytes.Struct.{join, Widths, split-join, length-join}
use open_sprite_runtime.Ipc.{
  Double, IsDouble, vector, header, state_format, state_kind, NativeStatePacket, pack_state,
  state_of_fields, unpack_state,
}
use open_sprite_runtime.Ipc.Vectors.{
  IsVector, vector-eq-ok, vector-IsVector, map-le_value-le_bytes, Widths-doubles, All-append,
  take_first, drop_first,
}
use open_sprite_runtime.Ipc.Header.{timestamp_bytes, timestamp_lem, header_matches_self}

module _ (n : ℕ) (t : ℤ) (m : ℕ) (ps vs : List Double) where
  abbrev state_fields : List Bytes
  state_fields =
      header state_kind
        (le_bytes 8 n ∷ timestamp_bytes t ∷ le_bytes 8 m ∷ map (le_bytes 8) (ps ++ vs))

  abbrev state_packet : NativeStatePacket
  state_packet = record {
    sequence = pos n;
    monotonic_ns = t;
    motor_order_hash = pos m;
    position_rad = ps;
    velocity_rad_s = vs;
  }

  module _ (hn : n < span 8) (ht : FitsSigned 8 t) (hm : m < span 8) (hp : IsVector ps)
      (hv : IsVector vs) (dp : All IsDouble ps) (dv : All IsDouble vs) where
    Widths-state_fields : Widths state_format state_fields
    Widths-state_fields =
        let doubles : Widths (replicate 62 8) (map (le_bytes 8) (ps ++ vs)) =
          Widths-doubles 62 (ps ++ vs) (omega (arith, length-append ps vs, hp.count, hv.count)) in
        (
          refl,
          (
            length-le_bytes 2 1,
            (
              length-le_bytes 2 1,
              (
                length-le_bytes 8 n,
                (length-le_bytes 8 (signed_word 8 t), (length-le_bytes 8 m, doubles)),
              ),
            ),
          ),
        )

    state_of_fields-pack : state_of_fields state_fields ≡ ok state_packet
    unfolding state_of_fields
    state_of_fields-pack = rw (
      header_matches_self 1 (omega arith),
      map-le_value-le_bytes (ps ++ vs) (All-append ps vs dp dv),
      take_first ps vs hp.count,
      drop_first ps vs hp.count,
      vector-IsVector ps hp,
      vector-IsVector vs hv,
      le_value-le_bytes 8 n hn,
      le_value-le_bytes 8 m hm,
      timestamp_lem t ht,
    )

    unpack_state-join : unpack_state (join state_fields) ≡ ok state_packet
    unfolding unpack_state
    unpack_state-join =
        rw
          (
            length-join state_format state_fields Widths-state_fields,
            split-join state_format state_fields Widths-state_fields,
          )
          state_of_fields-pack

-- What a successful pack says of the packet, and what it wrote.
record StatePacked (p : NativeStatePacket) (b : Bytes) : Type 0 where
  sequence_word : ℕ
  hash_word : ℕ
  sequence_is : p.sequence ≡ pos sequence_word
  hash_is : p.motor_order_hash ≡ pos hash_word
  sequence_fits : sequence_word < span 8
  timestamp_fits : FitsSigned 8 p.monotonic_ns
  hash_fits : hash_word < span 8
  position_vector : IsVector p.position_rad
  velocity_vector : IsVector p.velocity_rad_s
  written :
      b ≡ join (state_fields sequence_word p.monotonic_ns hash_word p.position_rad p.velocity_rad_s)

pack_state-StatePacked : (p : NativeStatePacket) {b : Bytes} → pack_state p ≡ ok b → StatePacked p b
unfolding pack_state
pack_state-StatePacked p h =
    let (ps, ep, h1) = >>=-eq-ok (vector p.position_rad) _ h in
    let (vs, ev, h2) = >>=-eq-ok (vector p.velocity_rad_s) _ h1 in
    let (s, es, h3) = >>=-eq-ok (pack_unsigned 8 p.sequence) _ h2 in
    let (t, et, h4) = >>=-eq-ok (pack_signed 8 p.monotonic_ns) _ h3 in
    let (m, em, h5) = >>=-eq-ok (pack_unsigned 8 p.motor_order_hash) _ h4 in
    let (n, n_is, n_fits, s_is) = pack_unsigned-eq-ok 8 p.sequence es in
    let (k, k_is, k_fits, m_is) = pack_unsigned-eq-ok 8 p.motor_order_hash em in
    let (t_fits, t_is) = pack_signed-eq-ok 8 p.monotonic_ns et in
    let (pv, p_is) = vector-eq-ok p.position_rad ep in
    let (vv, v_is) = vector-eq-ok p.velocity_rad_s ev in
    record {
      sequence_word = n;
      hash_word = k;
      sequence_is = n_is;
      hash_is = k_is;
      sequence_fits = n_fits;
      timestamp_fits = t_fits;
      hash_fits = k_fits;
      position_vector = pv;
      velocity_vector = vv;
      written = cc;
    }

-- A native state packet that packs, with its doubles 64-bit patterns, unpacks from the bytes that
-- were written to the very same packet.
pub unpack_state-pack_state :
    (p : NativeStatePacket) {b : Bytes}
    → All IsDouble p.position_rad
    → All IsDouble p.velocity_rad_s
    → pack_state p ≡ ok b
    → unpack_state b ≡ ok p
unpack_state-pack_state p dp dv h =
    let k = pack_state-StatePacked p h in
    rw k.written (
      unpack_state-join k.sequence_word p.monotonic_ns k.hash_word p.position_rad p.velocity_rad_s
        k.sequence_fits k.timestamp_fits k.hash_fits k.position_vector k.velocity_vector dp dv
      ∙ cc (k.sequence_is, k.hash_is))
