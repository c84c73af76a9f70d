-- ===== src/SocketCan/Open.antt =====
-- The `open` class methods of socketcan.py: the preflight gate, the socket that is created and set
-- up, and what becomes of it when a step raises. Which call of the operating system raises is a
-- parameter; the calls that were made are recorded in order.
pub mod Leaks
use text.Mathlib.Text.{◌==◌ as str_eq}
use open_sprite_runtime.Prelude.{
  ℕ, Bool, true, false, not, ◌&&◌, ◌||◌, String, List, [], ◌∷◌, ◌++◌, any, if◌then◌else◌,
}
use open_sprite_runtime.Prelude.Result.{
  Exception, Result, ok, err, runtime_error, os_error, ◌>>=◌, ◌>>◌,
}
use open_sprite_runtime.SocketCan.Writer.{allowlist, set_zero_allowlist}
use open_sprite_runtime.SocketCan.MitWriter.{
  SingleMotorMitWriter, new_single_writer, MotorGroupMitWriter, new_group_writer,
}

pub data SocketCall : Type 0 where
  create set_fd_frames set_timestamping bind set_nonblocking close : SocketCall

abbrev pub Calls : Type 0
Calls = List SocketCall

-- The preflight report of the listen-only snapshot, as far as `open` reads it.
pub record RxPreflight : Type 0 where
  pub passed : Bool
  pub listen_only_interfaces : List String

-- The preflight report of one active CAN-FD interface, as far as the `open` methods read it.
pub record ActivePreflight : Type 0 where
  pub passed : Bool
  pub interface : String

-- What an `open` returns or raises, and the socket calls that it made.
abbrev pub Opened : Type 0 → Type 0
Opened A = Result A × Calls

module _ (raises : SocketCall → Bool) where
  -- The calls of the `try` block, up to the first that raises.
  unfoldable pub set_up : Calls → Opened (Unit {0})
  set_up [] = (ok tt, [])
  set_up (c ∷ cs) =
      let (r, made) = set_up cs in if raises c then (err os_error, c ∷ []) else (r, c ∷ made)

  -- `try: … except BaseException: raw_socket.close(); raise`
  abbrev pub closing {ℓ} : {A : Type ℓ} → Result A × Calls → Result A × Calls
  closing (ok a, made) = (ok a, made)
  closing (err e, made) = (err e, made ++ close ∷ [])

  -- The constructor is called behind the set-up, as the last step of the `try` block …
  abbrev pub construct_inside : {A : Type 0} → Result A → Opened (Unit {0}) → Opened A
  construct_inside build (ok _, made) = closing (build, made)
  construct_inside build (err e, made) = closing (err e, made)

  -- … or behind the `try` block, where an exception of its own closes nothing.
  abbrev pub construct_outside : {A : Type 0} → Result A → Opened (Unit {0}) → Opened A
  construct_outside build (ok _, made) = (build, made)
  construct_outside build (err e, made) = closing (err e, made)

  -- The socket is created first; where that raises there is nothing to close.
  abbrev pub created : {A : Type 0} → Opened A → Opened A
  created (r, made) = if raises create then (err os_error, create ∷ []) else (r, create ∷ made)

  abbrev pub full_set_up : Calls
  full_set_up = set_fd_frames ∷ set_timestamping ∷ bind ∷ set_nonblocking ∷ []

  -- `SocketCanReceiver.open`
  unfoldable pub open_receiver : String → RxPreflight → Opened String
  unfolding set_up
  open_receiver interface preflight =
      if not preflight.passed
      then (err (runtime_error "SocketCAN RX preflight did not pass"), [])
      else if not (any (str_eq interface) preflight.listen_only_interfaces)
      then (err (runtime_error "no listen-only preflight evidence"), [])
      else created
          (construct_outside (ok interface) (set_up (set_fd_frames ∷ set_timestamping ∷ bind ∷ [])))

  -- `not preflight.passed or preflight.interface != interface`
  abbrev pub gated : {A : Type 0} → String → ActivePreflight → Opened A → Opened A
  gated interface preflight opened =
      if not preflight.passed || not (str_eq preflight.interface interface)
      then (err (runtime_error "active CAN-FD preflight did not pass"), [])
      else opened

  -- `SocketCanReceiver.open_active_observer`
  unfoldable pub open_observer : String → ActivePreflight → Opened String
  unfolding set_up
  open_observer interface preflight =
      gated interface preflight (created (construct_outside (ok interface) (set_up full_set_up)))

  -- `SocketCanZeroGainPoller.open`
  unfoldable pub open_zero_gain_poller : String → ActivePreflight → Opened String
  unfolding set_up
  open_zero_gain_poller interface preflight =
      gated interface preflight (created (construct_outside (ok interface) (set_up full_set_up)))

  -- `SocketCanDamiaoRegisterReader.open`
  unfoldable pub open_register_reader : String → ActivePreflight → List ℕ → Opened (List ℕ)
  unfolding set_up
  open_register_reader interface preflight ids =
      gated interface preflight (created (construct_outside (allowlist ids) (set_up full_set_up)))

  -- `SocketCanSetZeroWriter.open`
  unfoldable pub open_set_zero_writer : String → ActivePreflight → List ℕ → Opened (List ℕ)
  unfolding set_up
  open_set_zero_writer interface preflight ids =
      gated interface preflight
        (created (construct_inside (set_zero_allowlist ids) (set_up (set_fd_frames ∷ bind ∷ []))))

  -- `SocketCanSingleMotorMitWriter.open`
  unfoldable pub open_single_writer :
      String → ActivePreflight → String → ℕ → Opened SingleMotorMitWriter
  unfolding set_up
  open_single_writer interface preflight name can_id =
      gated interface preflight
        (created (construct_inside (new_single_writer interface name can_id) (set_up full_set_up)))

  -- `SocketCanMotorGroupMitWriter.open`
  unfoldable pub open_group_writer :
      String → ActivePreflight → List (String × ℕ) → Opened MotorGroupMitWriter
  unfolding set_up
  open_group_writer interface preflight endpoints =
      gated interface preflight
        (created (construct_inside (new_group_writer interface endpoints) (set_up full_set_up)))
