-- ===== src/Tests/IpcRuns.antt =====
-- Runs of the packets of the native IPC.
use open_sprite_runtime.Prelude.{
  ℕ, zero, suc, ◌<◌, ◌≡◌, ◌↔◌, refl, List, [], ◌∷◌, ◌++◌, replicate, All, arith,
}
use open_sprite_runtime.Prelude.Int.{pos}
use open_sprite_runtime.Prelude.Result.{ok}
use open_sprite_runtime.Bytes.{Bytes, le_bytes, pack_unsigned, pack_signed, signed_word}
use open_sprite_runtime.Bytes.Struct.{join}
use open_sprite_runtime.Ipc.{
  Double, IsDouble, vector, header, state_kind, target_kind, NativeStatePacket, pack_state,
  unpack_state, PolicyTargetPacket, pack_target, unpack_target, ordered_name_hash, fnv, fnv_offset,
}
use open_sprite_runtime.Ipc.Hash.{IsNameList, terminated, ordered_name_hash_iff}
use open_sprite_runtime.Ipc.StateTrip.{unpack_state-pack_state}
use open_sprite_runtime.Ipc.TargetTrip.{unpack_target-pack_target}

-- 1.5 and then thirty zeros
abbrev values : List Double
values = 0x3ff8_0000_0000_0000 ∷ replicate 30 0

zeros-IsDouble :
    (n : ℕ) (rest : List Double) → All IsDouble rest → All IsDouble (replicate n 0 ++ rest)
zeros-IsDouble zero rest h = h
zeros-IsDouble (suc n) rest h = (omega arith, zeros-IsDouble n rest h)

values-IsDouble : (rest : List Double) → All IsDouble rest → All IsDouble (values ++ rest)
values-IsDouble rest h = (omega arith, zeros-IsDouble 30 rest h)

abbrev state : NativeStatePacket
state = record {
  sequence = pos 7;
  monotonic_ns = pos 1_000_000;
  motor_order_hash = pos 99;
  position_rad = values;
  velocity_rad_s = values;
}

abbrev words : List Bytes
words = le_bytes 8 0x3ff8_0000_0000_0000 ∷ replicate 30 (le_bytes 8 0)

abbrev state_bytes : Bytes
state_bytes =
    join
      (header state_kind (le_bytes 8 7 ∷ le_bytes 8 1_000_000 ∷ le_bytes 8 99 ∷ (words ++ words)))

unpack_state-pack_state_example : unpack_state state_bytes ≡ ok state
unfolding pack_state vector pack_unsigned pack_signed signed_word
unpack_state-pack_state_example =
    unpack_state-pack_state state (values-IsDouble [] tt) (values-IsDouble [] tt) refl

abbrev target : PolicyTargetPacket
target = record {
  sequence = pos 8;
  monotonic_ns = pos 1_000_000;
  joint_order_hash = pos 99;
  source_state_sequence = pos 7;
  position_rad = values;
  velocity_rad_s = values;
  kp = values;
  kd = values;
  feedforward_torque_nm = values;
}

abbrev target_bytes : Bytes
target_bytes = join (
    header target_kind (
      le_bytes 8 8
      ∷ le_bytes 8 1_000_000
      ∷ le_bytes 8 99
      ∷ le_bytes 8 7
      ∷ (words ++ (words ++ (words ++ (words ++ words))))))

unpack_target-pack_target_example : unpack_target target_bytes ≡ ok target
unfolding pack_target vector pack_unsigned pack_signed signed_word
unpack_target-pack_target_example =
    unpack_target-pack_target target
      (values-IsDouble (values ++ (values ++ (values ++ values))) (
        values-IsDouble (values ++ (values ++ values))
          (values-IsDouble (values ++ values) (values-IsDouble values (values-IsDouble [] tt)))))
      refl

-- The names "A", "AB" and so on are not those of a robot, but they are 31 and distinct.
abbrev names_from : ℕ → Bytes → List Bytes
names_from zero name = []
names_from (suc n) name = name ∷ names_from n (66 ∷ name)

abbrev names : List Bytes
names = names_from 31 (65 ∷ [])

ordered_name_hash_iff_example :
    (ordered_name_hash names ≡ ok 0)
    ↔ (IsNameList names × (0 ≡ fnv fnv_offset (terminated names)) × (0 < 0x1_0000_0000_0000_0000))
ordered_name_hash_iff_example = ordered_name_hash_iff names 0
