-- ===== src/Tests/AuditRuns.antt =====
-- Runs of the receive-only audit.
use open_sprite_runtime.Prelude.{ℕ, refl, true, false, List, [], ◌∷◌, All}
use open_sprite_runtime.Prelude.Int.{pos, ◌-ℤ◌}
use open_sprite_runtime.Dict.{item}
use open_sprite_runtime.SocketCan.MitWriter.{get}
use open_sprite_runtime.Damiao.Decode.{decode_damiao_feedback}
use open_sprite_runtime.RxAudit.Report.{audit_passed, report}
use open_sprite_runtime.RxAudit.Verdict.{IsTaken, IsCleared, report-passed}
use open_sprite_runtime.SocketCan.{ReceivedCanFrame}
use open_sprite_runtime.Damiao.Decoder.{keyed, lookup, insert_all, new_decoder}
use open_sprite_runtime.RxAudit.{DamiaoRxAudit, new_audit, no_samples, ingest_all}
use open_sprite_runtime.RxAudit.Rising.{IsSound, ingest_all-IsSound}
use open_sprite_runtime.Tests.Fixed.{thousandths}
use open_sprite_runtime.Tests.HoldRuns.{head_yaw}

-- A frame of an identifier at a time.
abbrev frame_at : ℕ → ℕ → ReceivedCanFrame
frame_at id time = record {
  interface = "kcan3";
  can_id = id;
  payload = 8 ∷ 128 ∷ 0 ∷ 128 ∷ 8 ∷ 0 ∷ 30 ∷ 31 ∷ [];
  is_extended = false;
  is_remote = false;
  is_error = false;
  is_fd = true;
  bit_rate_switch = true;
  error_state_indicator = false;
  software_timestamp_ns = pos time;
  hardware_timestamp_ns = pos time;
  userspace_receive_timestamp_ns = pos time;
}

-- Two samples with a control frame between them, and a frame that nobody expects.
abbrev trace : List ReceivedCanFrame
trace = frame_at 24 1 ∷ frame_at 8 2 ∷ frame_at 24 3 ∷ frame_at 99 4 ∷ []

abbrev audit : DamiaoRxAudit thousandths
audit = record {
  decoder = head_yaw ∷ [];
  feedback_keys = ("kcan3", 24) ∷ [];
  command_keys = ("kcan3", 8) ∷ [];
  minimum_samples_per_motor = 2;
  minimum_feedback_hz = pos 475000;
  maximum_hardware_gap_ms = pos 6000;
  maximum_userspace_queue_age_p99_ms = pos 6000;
  samples = no_samples thousandths (head_yaw ∷ []);
  errors = [];
  unexpected_keys = [];
  observed_control_frames = 0;
  decoded_feedback_frames = 0;
}

ingest_all-IsSound_example : IsSound thousandths (ingest_all thousandths trace audit).1
unfolding new_audit new_decoder insert_all lookup
ingest_all-IsSound_example =
    ingest_all-IsSound thousandths (head_yaw ∷ []) 2 (pos 475000) (pos 6000) (pos 6000) trace
      {a = audit} refl

-- The frames that are expected.
abbrev expected : List ReceivedCanFrame
expected = frame_at 24 1 ∷ frame_at 8 2 ∷ frame_at 24 3 ∷ []

abbrev clean : DamiaoRxAudit thousandths
clean = (ingest_all thousandths expected audit).1

report-passed_example :
    All (IsTaken thousandths (head_yaw ∷ []) clean) expected
    × All
        (λ e.
          IsCleared thousandths
            (head_yaw ∷ [])
            2
            (pos 475000)
            (pos 6000)
            (pos 6000)
            expected
            clean
            e.motor_name)
        (head_yaw ∷ [])
unfolding new_audit new_decoder insert_all lookup audit_passed report ingest_all
    decode_damiao_feedback item get keyed ◌-ℤ◌
report-passed_example =
    report-passed thousandths (head_yaw ∷ []) 2 (pos 475000) (pos 6000) (pos 6000) expected
      {a = audit} {b = clean} refl refl refl
