-- ===== src/DamiaoRegisters/Collect.antt =====
-- src/open_sprite_runtime/damiao_registers.py: the collection of registers, one transaction at a
-- time. What the operating system does with each attempt's frame, and what `receive` answers until
-- the attempt's deadline, is the environment, indexed by the attempts made so far.
use text.Mathlib.Text.{◌==◌ as str_eq}
use open_sprite_runtime.Prelude.{
  ℕ, zero, suc, ◌+◌, Bool, true, false, not, ◌&&◌, ◌||◌, String, Option, none, some, List, [], ◌∷◌,
  ◌==◌, leb, length, all, if◌then◌else◌, map,
}
use open_sprite_runtime.Prelude.Result.{
  Result, ok, err, value_error, runtime_error, key_error, require, ◌>>◌,
}
use open_sprite_runtime.Bytes.{Bytes}
use open_sprite_runtime.Float.{FloatOps, ratio, lit}
use open_sprite_runtime.SocketCan.{ReceivedCanFrame}
use open_sprite_runtime.SocketCan.Writer.{
  SendOutcome, Counted, send_read_request, parameter_can_id, mit_range_registers,
  commissioning_registers,
}
use open_sprite_runtime.SocketCan.Receipt.{Receipt, blocked, untimed, raised, received}
use open_sprite_runtime.SocketCan.MitWriter.{distinct_names, get}
use open_sprite_runtime.Damiao.Command.{DamiaoFeedbackEndpoint}
use open_sprite_runtime.DamiaoRegisters.{
  DamiaoRegisterValue, decode_read_response, decode_commissioning_read_response,
}

-- One attempt: the operating system's answer to the request, and the receipts before the deadline.
pub record Attempt : Type 0 where
  pub os : Bytes → SendOutcome
  pub receipts : List Receipt

-- A register reader: its allowlist, its wire and its counter.
pub record RegisterReader : Type 0 where
  pub allowed : List ℕ
  pub state : Counted

-- `readers`, by interface
abbrev pub Readers : Type 0
Readers = List (String × RegisterReader)

-- The readers, one of which has sent.
unfoldable pub put : Readers → String → Counted → Readers
put [] name c = []
put ((k, r) ∷ rest) name c =
    let later = put rest name c in
    if str_eq k name then (k, record r { state = c }) ∷ rest else (k, r) ∷ later

-- `sum(reader.hardware_tx_attempts for reader in readers.values())`
unfoldable pub tx_count : Readers → ℕ
tx_count [] = 0
tx_count ((_, r) ∷ rest) = r.state.hardware_tx_attempts + tx_count rest

pub record Progress : Type 0 where
  pub readers : Readers
  pub attempts : ℕ
  pub discarded_timestamp_frames : ℕ

abbrev pub Run {ℓ} : Type ℓ → Type ℓ
Run A = Result A × Progress

abbrev pub then_run {ℓ κ} : {A : Type ℓ} {B : Type κ} → Run A → (A → Progress → Run B) → Run B
then_run (ok a, s) k = k a s
then_run (err x, s) k = (err x, s)

module _ (F : FloatOps)
    (decode : ReceivedCanFrame → ℕ → ℕ → ℕ → Result (DamiaoRegisterValue F)) where
  abbrev pub responded :
      Result (DamiaoRegisterValue F) → Result (Option (DamiaoRegisterValue F)) × ℕ
  responded (ok v) = (ok (some v), 0)
  responded (err x) = (err x, 0)

  -- `while monotonic() < deadline`: the response, and the frames discarded for want of a timestamp.
  unfoldable pub await :
      DamiaoFeedbackEndpoint F → ℕ → List Receipt → Result (Option (DamiaoRegisterValue F)) × ℕ
  await e register [] = (ok none, 0)
  await e register (blocked ∷ rest) = await e register rest
  await e register (untimed ∷ rest) = let (found, lost) = await e register rest in (found, suc lost)
  await e register (raised x ∷ rest) = (err x, 0)
  await e register (received frame ∷ rest) =
      let later = await e register rest in
      if frame.can_id == parameter_can_id || not (frame.can_id == e.master_id)
      then later
      else responded (decode frame e.can_id e.master_id register)

  module _ (registers : List ℕ) (env : ℕ → Attempt) where
    abbrev pub awaited :
        DamiaoFeedbackEndpoint F
        → ℕ
        → Result (Unit {0})
        → Progress
        → Run (Option (DamiaoRegisterValue F))
    awaited e register (err x) s = (err x, s)
    awaited e register (ok _) s =
        let (found, lost) = await e register (env s.attempts).receipts in
        (
          found,
          record s {
            attempts = suc s.attempts;
            discarded_timestamp_frames = s.discarded_timestamp_frames + lost;
          },
        )

    abbrev pub send_by :
        Option RegisterReader
        → DamiaoFeedbackEndpoint F
        → ℕ
        → Progress
        → Run (Option (DamiaoRegisterValue F))
    send_by none e register s = (err (key_error "interface"), s)
    send_by (some r) e register s =
        let (sent, c) =
          send_read_request (env s.attempts).os r.allowed registers e.can_id register r.state in
        awaited e register sent (record s { readers = put s.readers e.interface c })

    -- One round of `for _attempt in range(retries)`.
    unfoldable pub attempt :
        DamiaoFeedbackEndpoint F → ℕ → Progress → Run (Option (DamiaoRegisterValue F))
    unfolding await put send_read_request
    attempt e register s = send_by (get s.readers e.interface) e register s

    abbrev pub or_retry :
        (Progress → Run (DamiaoRegisterValue F))
        → Option (DamiaoRegisterValue F)
        → Progress
        → Run (DamiaoRegisterValue F)
    or_retry again none s = again s
    or_retry again (some v) s = (ok v, s)

    unfoldable pub read_register :
        ℕ → DamiaoFeedbackEndpoint F → ℕ → Progress → Run (DamiaoRegisterValue F)
    unfolding attempt
    read_register zero e register s = (err (runtime_error "no valid response"), s)
    read_register (suc retries) e register s =
        then_run (attempt e register s) (or_retry (read_register retries e register))

    -- `for register_id ... in REGISTERS.items()`: the values of one motor.
    unfoldable pub read_registers :
        ℕ → DamiaoFeedbackEndpoint F → List ℕ → Progress → Run (List (DamiaoRegisterValue F))
    unfolding read_register
    read_registers retries e [] s = (ok [], s)
    read_registers retries e (register ∷ rest) s =
        then_run (read_register retries e register s)
          λ v s1. then_run (read_registers retries e rest s1) λ vs s2. (ok (v ∷ vs), s2)

    abbrev pub Motors : Type 0
    Motors = List (String × List (DamiaoRegisterValue F))

    -- `for endpoint in selected`
    unfoldable pub read_motors : ℕ → List (DamiaoFeedbackEndpoint F) → Progress → Run Motors
    unfolding read_registers
    read_motors retries [] s = (ok [], s)
    read_motors retries (e ∷ es) s =
        then_run (read_registers retries e registers s)
          λ vs s1. then_run (read_motors retries es s1) λ ms s2. (ok ((e.motor_name, vs) ∷ ms), s2)

    -- The accounting that closes the collection.
    abbrev pub accounted : Motors → Progress → Run Motors
    accounted motors s =
        if tx_count s.readers == s.attempts
        then (ok motors, s)
        else (err (runtime_error "register reader TX accounting mismatch"), s)

    abbrev pub has_reader : Readers → DamiaoFeedbackEndpoint F → Bool
    has_reader readers e = present (get readers e.interface)
      where
        present : Option RegisterReader → Bool
        present none = false
        present (some _) = true

    -- The checks of the arguments.
    unfoldable pub check_arguments :
        F.Carrier → ℕ → List (DamiaoFeedbackEndpoint F) → Readers → Result (Unit {0})
    check_arguments timeout_s retries selected readers = do
      require
          (F.is_finite timeout_s && F.leb (ratio F 1 100) timeout_s && F.leb timeout_s (lit F 1))
          (value_error "timeout_s must be finite and in [0.01, 1.0]")
      require (leb 1 retries && leb retries 10)
          (value_error "retries must be an integer in [1, 10]")
      require (not (length selected == 0)) (value_error "at least one endpoint is required")
      require (distinct_names (map (λ e. (e.motor_name, e.can_id)) selected))
          (value_error "motor names must be unique")
      require (all (has_reader readers) selected)
          (value_error "every endpoint must have a register reader")

    abbrev pub started : Readers → Progress
    started readers = record { readers = readers; attempts = 0; discarded_timestamp_frames = 0 }

    unfoldable pub collect : F.Carrier → ℕ → List (DamiaoFeedbackEndpoint F) → Readers → Run Motors
    unfolding check_arguments read_motors tx_count
    collect timeout_s retries selected readers =
        then_run (check_arguments timeout_s retries selected readers, started readers)
          λ _ s. then_run (read_motors retries selected s) accounted

module _ (F : FloatOps) where
  unfoldable pub collect_mit_range_registers :
      (ℕ → Attempt)
      → F.Carrier
      → ℕ
      → List (DamiaoFeedbackEndpoint F)
      → Readers
      → Run (List (String × List (DamiaoRegisterValue F)))
  unfolding collect
  collect_mit_range_registers = collect F (decode_read_response F) mit_range_registers

  unfoldable pub collect_commissioning_registers :
      (ℕ → Attempt)
      → F.Carrier
      → ℕ
      → List (DamiaoFeedbackEndpoint F)
      → Readers
      → Run (List (String × List (DamiaoRegisterValue F)))
  unfolding collect
  collect_commissioning_registers =
      collect F (decode_commissioning_read_response F) commissioning_registers
