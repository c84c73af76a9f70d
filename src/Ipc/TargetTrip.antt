-- ===== src/Ipc/TargetTrip.antt =====
-- A packed policy target packet reads back as itself.
use open_sprite_runtime.Prelude.{
  ℕ, ◌<◌, ◌≡◌, refl, ap, sym, ◌∙◌, false, ◌||◌, List, ◌∷◌, ◌++◌, length, drop, replicate, map, any,
  All, length-append, arith,
}
use open_sprite_runtime.Prelude.Int.{ℤ, pos}
use open_sprite_runtime.Prelude.Result.{ok, raise_if-eq-ok, ok_injective, >>=-eq-ok}
use open_sprite_runtime.Bytes.{
  Bytes, span, le_bytes, length-le_bytes, le_value-le_bytes, pack_unsigned, pack_signed,
  signed_word, FitsSigned,
}
use open_sprite_runtime.Bytes.Signed.{pack_signed-eq-ok, pack_unsigned-eq-ok}
use open_sprite_runtime.Bytes.Struct.{join, Widths, split-join, length-join}
use open_sprite_runtime.Ipc.{
  Double, IsDouble, is_negative, vector, header, target_format, target_kind, PolicyTargetPacket,
  pack_target, target_of_fields, unpack_target,
}
use open_sprite_runtime.Ipc.Vectors.{
  IsVector, vector-eq-ok, vector-IsVector, map-le_value-le_bytes, Widths-doubles, take_first,
  drop_first, drop-drop, take_all,
}
use open_sprite_runtime.Ipc.Header.{timestamp_bytes, timestamp_lem, header_matches_self}

module _ (n : ℕ) (t : ℤ) (m s : ℕ) (ps vs kp kd ff : List Double) where
  abbrev target_doubles : List Double
  target_doubles = ps ++ (vs ++ (kp ++ (kd ++ ff)))

  abbrev target_fields : List Bytes
  target_fields = header target_kind (
      le_bytes 8 n
      ∷ timestamp_bytes t
      ∷ le_bytes 8 m
      ∷ le_bytes 8 s
      ∷ map (le_bytes 8) target_doubles)

  abbrev target_packet : PolicyTargetPacket
  target_packet = record {
    sequence = pos n;
    monotonic_ns = t;
    joint_order_hash = pos m;
    source_state_sequence = pos s;
    position_rad = ps;
    velocity_rad_s = vs;
    kp = kp;
    kd = kd;
    feedforward_torque_nm = ff;
  }

  module _ (hn : n < span 8) (ht : FitsSigned 8 t) (hm : m < span 8) (hs : s < span 8)
      (hp : IsVector ps) (hv : IsVector vs) (hk : IsVector kp) (hd : IsVector kd) (hf : IsVector ff)
      (gains : (any is_negative kp || any is_negative kd) ≡ false)
      (doubles : All IsDouble target_doubles) where
    length-target_doubles : length target_doubles ≡ 155
    length-target_doubles = omega (
      arith,
      length-append ps (vs ++ (kp ++ (kd ++ ff))),
      length-append vs (kp ++ (kd ++ ff)),
      length-append kp (kd ++ ff),
      length-append kd ff,
      hp.count,
      hv.count,
      hk.count,
      hd.count,
      hf.count,
    )

    Widths-target_fields : Widths target_format target_fields
    Widths-target_fields =
        let fields : Widths (replicate 155 8) (map (le_bytes 8) target_doubles) =
          Widths-doubles 155 target_doubles length-target_doubles in
        (
          refl,
          (
            length-le_bytes 2 1,
            (
              length-le_bytes 2 2,
              (
                length-le_bytes 8 n,
                (
                  length-le_bytes 8 (signed_word 8 t),
                  (length-le_bytes 8 m, (length-le_bytes 8 s, fields)),
                ),
              ),
            ),
          ),
        )

    rest_1 : drop 31 target_doubles ≡ vs ++ (kp ++ (kd ++ ff))
    rest_1 = drop_first ps (vs ++ (kp ++ (kd ++ ff))) hp.count

    rest_2 : drop 62 target_doubles ≡ kp ++ (kd ++ ff)
    rest_2 =
        drop-drop 31 31 target_doubles
        ∙ ap (drop 31) rest_1
        ∙ drop_first vs (kp ++ (kd ++ ff)) hv.count

    rest_3 : drop 93 target_doubles ≡ kd ++ ff
    rest_3 =
        drop-drop 62 31 target_doubles ∙ ap (drop 31) rest_2 ∙ drop_first kp (kd ++ ff) hk.count

    rest_4 : drop 124 target_doubles ≡ ff
    rest_4 = drop-drop 93 31 target_doubles ∙ ap (drop 31) rest_3 ∙ drop_first kd ff hd.count

    target_of_fields-pack : target_of_fields target_fields ≡ ok target_packet
    unfolding target_of_fields
    target_of_fields-pack = rw (
      header_matches_self 2 (omega arith),
      map-le_value-le_bytes target_doubles doubles,
      take_first ps (vs ++ (kp ++ (kd ++ ff))) hp.count,
      rest_1,
      rest_2,
      rest_3,
      rest_4,
      take_first vs (kp ++ (kd ++ ff)) hv.count,
      take_first kp (kd ++ ff) hk.count,
      take_first kd ff hd.count,
      take_all ff hf.count,
      vector-IsVector ps hp,
      vector-IsVector vs hv,
      vector-IsVector kp hk,
      vector-IsVector kd hd,
      vector-IsVector ff hf,
      gains,
      le_value-le_bytes 8 n hn,
      le_value-le_bytes 8 m hm,
      le_value-le_bytes 8 s hs,
      timestamp_lem t ht,
    )

    unpack_target-join : unpack_target (join target_fields) ≡ ok target_packet
    unfolding unpack_target
    unpack_target-join =
        rw
          (
            length-join target_format target_fields Widths-target_fields,
            split-join target_format target_fields Widths-target_fields,
          )
          target_of_fields-pack

-- What a successful pack says of the packet, and what it wrote.
record TargetPacked (p : PolicyTargetPacket) (b : Bytes) : Type 0 where
  sequence_word : ℕ
  hash_word : ℕ
  source_word : ℕ
  sequence_is : p.sequence ≡ pos sequence_word
  hash_is : p.joint_order_hash ≡ pos hash_word
  source_is : p.source_state_sequence ≡ pos source_word
  sequence_fits : sequence_word < span 8
  timestamp_fits : FitsSigned 8 p.monotonic_ns
  hash_fits : hash_word < span 8
  source_fits : source_word < span 8
  position_vector : IsVector p.position_rad
  velocity_vector : IsVector p.velocity_rad_s
  kp_vector : IsVector p.kp
  kd_vector : IsVector p.kd
  feedforward_vector : IsVector p.feedforward_torque_nm
  gains : (any is_negative p.kp || any is_negative p.kd) ≡ false
  written :
      b
      ≡ join (
          target_fields sequence_word p.monotonic_ns hash_word source_word p.position_rad
            p.velocity_rad_s p.kp p.kd p.feedforward_torque_nm)

pack_target-TargetPacked :
    (p : PolicyTargetPacket) {b : Bytes} → pack_target p ≡ ok b → TargetPacked p b
unfolding pack_target
pack_target-TargetPacked p h =
    let (ps, ep, h1) = >>=-eq-ok (vector p.position_rad) _ h in
    let (vs, ev, h2) = >>=-eq-ok (vector p.velocity_rad_s) _ h1 in
    let (kp, ekp, h3) = >>=-eq-ok (vector p.kp) _ h2 in
    let (kd, ekd, h4) = >>=-eq-ok (vector p.kd) _ h3 in
    let (ff, eff, h5) = >>=-eq-ok (vector p.feedforward_torque_nm) _ h4 in
    let (gains, h6) = raise_if-eq-ok (any is_negative kp || any is_negative kd) _ _ h5 in
    let (s, es, h7) = >>=-eq-ok (pack_unsigned 8 p.sequence) _ h6 in
    let (t, et, h8) = >>=-eq-ok (pack_signed 8 p.monotonic_ns) _ h7 in
    let (m, em, h9) = >>=-eq-ok (pack_unsigned 8 p.joint_order_hash) _ h8 in
    let (src, esrc, h10) = >>=-eq-ok (pack_unsigned 8 p.source_state_sequence) _ h9 in
    let (n, n_is, n_fits, s_is) = pack_unsigned-eq-ok 8 p.sequence es in
    let (k, k_is, k_fits, m_is) = pack_unsigned-eq-ok 8 p.joint_order_hash em in
    let (o, o_is, o_fits, src_is) = pack_unsigned-eq-ok 8 p.source_state_sequence esrc in
    let (t_fits, t_is) = pack_signed-eq-ok 8 p.monotonic_ns et in
    let (pv, p_is) = vector-eq-ok p.position_rad ep in
    let (vv, v_is) = vector-eq-ok p.velocity_rad_s ev in
    let (kpv, kp_is) = vector-eq-ok p.kp ekp in
    let (kdv, kd_is) = vector-eq-ok p.kd ekd in
    let (ffv, ff_is) = vector-eq-ok p.feedforward_torque_nm eff in
    record {
      sequence_word = n;
      hash_word = k;
      source_word = o;
      sequence_is = n_is;
      hash_is = k_is;
      source_is = o_is;
      sequence_fits = n_fits;
      timestamp_fits = t_fits;
      hash_fits = k_fits;
      source_fits = o_fits;
      position_vector = pv;
      velocity_vector = vv;
      kp_vector = kpv;
      kd_vector = kdv;
      feedforward_vector = ffv;
      gains = sym (λ i. any is_negative (kp_is i) || any is_negative (kd_is i)) ∙ gains;
      written = sym (ok_injective h10) ∙ (λ i. join (
          header target_kind (
            s_is i
            ∷ t_is i
            ∷ m_is i
            ∷ src_is i
            ∷ map (le_bytes 8) (p_is i ++ (v_is i ++ (kp_is i ++ (kd_is i ++ ff_is i)))))));
    }

-- The doubles of a policy target are 64-bit patterns.
abbrev pub TargetDoubles : PolicyTargetPacket → Type 0
TargetDoubles p =
    All IsDouble
      (p.position_rad ++ (p.velocity_rad_s ++ (p.kp ++ (p.kd ++ p.feedforward_torque_nm))))

-- A policy target packet that packs, with its doubles 64-bit patterns, unpacks from the bytes that
-- were written to the very same packet.
pub unpack_target-pack_target :
    (p : PolicyTargetPacket) {b : Bytes}
    → TargetDoubles p
    → pack_target p ≡ ok b
    → unpack_target b ≡ ok p
unpack_target-pack_target p doubles h =
    let k = pack_target-TargetPacked p h in
    rw k.written (
      unpack_target-join k.sequence_word p.monotonic_ns k.hash_word k.source_word p.position_rad
        p.velocity_rad_s p.kp p.kd p.feedforward_torque_nm k.sequence_fits k.timestamp_fits
        k.hash_fits k.source_fits k.position_vector k.velocity_vector k.kp_vector k.kd_vector
        k.feedforward_vector k.gains doubles
      ∙ cc (k.sequence_is, k.hash_is, k.source_is))
