-- ===== src/Tests/CanRuns.antt =====
-- Runs of the CAN writers and receivers.
use open_sprite_runtime.Prelude.{
  ℕ, ◌≡◌, ◌≢◌, refl, Bool, true, false, List, [], ◌∷◌, ◌++◌, replicate, String, length, arith,
}
use open_sprite_runtime.Prelude.Int.{ℤ, pos, ◌+ℤ◌, ◌*ℤ◌}
use open_sprite_runtime.Prelude.Result.{ok, err, value_error}
use open_sprite_runtime.Bytes.{Bytes, le_bytes, le_value, signed_value, pack_unsigned}
use open_sprite_runtime.Bytes.Struct.{split, join}
use open_sprite_runtime.SocketCan.{
  Ancillary, canfd_pack, receive, socket_timestamps_ns, timestamps_of,
}
use open_sprite_runtime.SocketCan.Writer.{
  SendOutcome, sent, Counted, send_read_request, send_set_zero, allowlist, mit_range_registers,
}
use open_sprite_runtime.SocketCan.MitWriter.{SingleMotorMitWriter, MotorGroupMitWriter}
use open_sprite_runtime.SocketCan.Wire.{
  Emits, IsZeroGain, run_polls, run_polls-Emits, IsRegisterRead, send_read_request-Emits, IsSetZero,
  send_set_zero-Emits,
}
use open_sprite_runtime.SocketCan.MitWire.{single_calls, single_calls-IsConfined}
use open_sprite_runtime.SocketCan.GroupWire.{group_calls, group_calls-IsConfined}
use open_sprite_runtime.SocketCan.Loopback.{receive-canfd_pack}
use open_sprite_runtime.SocketCan.Open.{
  SocketCall, RxPreflight, ActivePreflight, open_receiver, open_observer, open_zero_gain_poller,
  open_register_reader, open_set_zero_writer, open_single_writer, open_group_writer,
}
use open_sprite_runtime.SocketCan.Open.Leaks.{
  IsTidy, open-IsTidy, closes, open_register_reader-leaks,
}
use open_sprite_runtime.SocketCan.MitWire
use open_sprite_runtime.SocketCan.GroupWire

abbrev takes_all : Bytes → SendOutcome
takes_all frame = sent (length frame)

abbrev idle : Counted
idle = record { wire = []; hardware_tx_attempts = 0 }

-- Position 0x8000 with raw velocity and torque 2047 and no gains.
abbrev zero_gain : Bytes
zero_gain = 0x80 ∷ 0 ∷ 0x7f ∷ 0xf0 ∷ 0 ∷ 0 ∷ 0x07 ∷ 0xff ∷ []

abbrev polls : List (ℕ × Bytes × (Bytes → SendOutcome))
polls = (1, zero_gain, takes_all) ∷ (2, 0xff ∷ [], takes_all) ∷ []

run_polls-Emits_example : Emits IsZeroGain (run_polls polls idle).wire
run_polls-Emits_example = run_polls-Emits polls idle tt

send_read_request-Emits_example :
    Emits
      (IsRegisterRead (3 ∷ []) mit_range_registers)
      (send_read_request takes_all (3 ∷ []) mit_range_registers 3 21 idle).1.wire
send_read_request-Emits_example =
    send_read_request-Emits takes_all (3 ∷ []) mit_range_registers 3 21 idle tt

send_set_zero-Emits_example :
    Emits (IsSetZero (3 ∷ [])) (send_set_zero takes_all (3 ∷ []) 3 idle).1.wire
send_set_zero-Emits_example = send_set_zero-Emits takes_all (3 ∷ []) 3 idle refl tt

abbrev single : SingleMotorMitWriter
single = record {
  interface = "can0";
  motor_name = "hip";
  can_id = 3;
  wire = [];
  command_tx_attempts = 0;
  enable_attempts = 0;
  disable_attempts = 0;
}

single_calls-IsConfined_example :
    MitWire.IsConfined "hip" "can0" 3 (single_calls ((MitWire.enable, takes_all) ∷ []) single)
single_calls-IsConfined_example =
    single_calls-IsConfined "hip" "can0" 3 (omega arith) ((MitWire.enable, takes_all) ∷ []) single
      (record { same_name = refl; same_interface = refl; same_id = refl; emitted = tt })

abbrev endpoints : List (String × ℕ)
endpoints = ("hip", 3) ∷ ("knee", 4) ∷ []

abbrev counts : List (String × ℕ)
counts = ("hip", 0) ∷ ("knee", 0) ∷ []

abbrev group : MotorGroupMitWriter
group = record {
  interface = "can0";
  can_id_by_name = endpoints;
  wire = [];
  command_tx_attempts = counts;
  enable_attempts = counts;
  disable_attempts = counts;
}

group_calls-IsConfined_example :
    GroupWire.IsConfined endpoints (group_calls ((GroupWire.enable "knee", takes_all) ∷ []) group)
group_calls-IsConfined_example =
    group_calls-IsConfined endpoints refl ((GroupWire.enable "knee", takes_all) ∷ []) group
      (record { same_endpoints = refl; emitted = tt })

-- One control message with a software and a hardware timestamp of one second.
abbrev stamped : List Ancillary
stamped =
    record {
      level = 1;
      kind = 37;
      payload = le_bytes 8 1 ++ replicate 24 0 ++ le_bytes 8 1 ++ replicate 8 0;
    }
    ∷ []

abbrev second : ℤ
second = pos 1_000_000_000

abbrev poll_frame : Bytes
poll_frame = le_bytes 4 0x3 ++ 8 ∷ 1 ∷ 0 ∷ 0 ∷ zero_gain ++ replicate 56 0

receive-canfd_pack_example :
    receive "can0" poll_frame stamped second
    ≡ ok (record {
      interface = "can0";
      can_id = 3;
      payload = zero_gain;
      is_extended = false;
      is_remote = false;
      is_error = false;
      is_fd = true;
      bit_rate_switch = true;
      error_state_indicator = false;
      software_timestamp_ns = second;
      hardware_timestamp_ns = second;
      userspace_receive_timestamp_ns = second;
    })
unfolding canfd_pack socket_timestamps_ns le_bytes timestamps_of split ◌+ℤ◌ ◌*ℤ◌ signed_value
    le_value pack_unsigned join
receive-canfd_pack_example =
    receive-canfd_pack "can0" 3 zero_gain stamped second second second (omega arith) refl refl
      (omega arith) refl

abbrev raises : SocketCall → Bool
raises c = false

abbrev rx : RxPreflight
rx = record { passed = true; listen_only_interfaces = "can0" ∷ [] }

abbrev active : ActivePreflight
active = record { passed = true; interface = "can0" }

open-IsTidy_example :
    IsTidy raises (open_receiver raises "can0" rx)
    × IsTidy raises (open_observer raises "can0" active)
    × IsTidy raises (open_zero_gain_poller raises "can0" active)
    × IsTidy raises (open_set_zero_writer raises "can0" active (3 ∷ []))
    × IsTidy raises (open_single_writer raises "can0" active "hip" 3)
    × IsTidy raises (open_group_writer raises "can0" active endpoints)
open-IsTidy_example = open-IsTidy raises "can0" rx active (3 ∷ []) "hip" 3 endpoints

open_register_reader-leaks_example :
    ((open_register_reader raises "can0" active []).0
      ≡ err (value_error "at least one motor CAN ID must be allowed"))
    × (closes (open_register_reader raises "can0" active []).1 ≡ false)
    × ((open_register_reader raises "can0" active []).1 ≢ [])
unfolding allowlist
open_register_reader-leaks_example =
    open_register_reader-leaks raises "can0" active []
      (value_error "at least one motor CAN ID must be allowed") refl refl (λ c. refl) refl
