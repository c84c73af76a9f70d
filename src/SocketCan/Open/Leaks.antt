-- ===== src/SocketCan/Open/Leaks.antt =====
-- Whether a failed `open` leaves a socket open.
use text.Mathlib.Text.{◌==◌ as str_eq}
use text.Mathlib.TextPositions.{eq_refl}
use open_sprite_runtime.Prelude.{
  ℕ, ◌≡◌, ◌≢◌, refl, Bool, true, false, not, ◌||◌, ◌⊎◌, inl, inr, String, List, [], ◌∷◌, ◌++◌, any,
  if◌then◌else◌, arith,
}
use open_sprite_runtime.Prelude.Result.{Exception, Result, ok, err, os_error, runtime_error}
use open_sprite_runtime.SocketCan.Writer.{allowlist, set_zero_allowlist}
use open_sprite_runtime.SocketCan.MitWriter.{new_single_writer, new_group_writer}
use open_sprite_runtime.SocketCan.Open.{
  SocketCall, create, set_fd_frames, set_timestamping, bind, set_nonblocking, close, Calls,
  ActivePreflight, RxPreflight, Opened, set_up, closing, construct_inside, construct_outside,
  created, gated, full_set_up, open_receiver, open_observer, open_zero_gain_poller,
  open_register_reader, open_set_zero_writer, open_single_writer, open_group_writer,
}

-- The calls end in a close.
abbrev ends_closed : Calls → Bool
ends_closed [] = false
ends_closed (close ∷ []) = true
ends_closed (c ∷ []) = false
ends_closed (c ∷ d ∷ cs) = ends_closed (d ∷ cs)

abbrev pub closes : Calls → Bool
closes [] = false
closes (close ∷ cs) = true
closes (c ∷ cs) = closes cs

-- No socket is leaked: one that is returned was not closed; where the method raises, it made no call,
-- or its only call was the creation, and that is a call that raises, or its last call closed the
-- socket.
abbrev pub IsTidy : {A : Type 0} → (SocketCall → Bool) → Opened A → Type 0
IsTidy raises (ok a, made) = closes made ≡ false
IsTidy raises (err e, made) =
    (made ≡ []) ⊎ ((made ≡ create ∷ []) × (raises create ≡ true)) ⊎ (ends_closed made ≡ true)

-- The same of the calls behind the creation of the socket.
abbrev IsTidyInside : {A : Type 0} → Opened A → Type 0
IsTidyInside (ok a, made) = closes made ≡ false
IsTidyInside (err e, made) = ends_closed made ≡ true

ends_closed-concat : (made : Calls) → ends_closed (made ++ close ∷ []) ≡ true
ends_closed-concat [] = refl
ends_closed-concat (c ∷ []) = ground arith
ends_closed-concat (c ∷ d ∷ cs) = ground (arith, ends_closed-concat (d ∷ cs))

ends_closed-cons : (made : Calls) → ends_closed made ≡ true → ends_closed (create ∷ made) ≡ true
ends_closed-cons [] h = cc
ends_closed-cons (c ∷ cs) h = h

module _ (raises : SocketCall → Bool) where
  -- A set-up closes nothing.
  closes-set_up : (calls : Calls) → closes calls ≡ false → closes (set_up raises calls).1 ≡ false
  unfolding set_up
  closes-set_up [] h = refl
  closes-set_up (close ∷ cs) h = absurd (ground arith)
  closes-set_up (c ∷ cs) h = ground (arith, closes-set_up cs)

  module _ {A : Type 0} (build : Result A) where
    inside-IsTidy :
        (s : Opened (Unit {0}))
        → closes s.1 ≡ false
        → IsTidyInside (construct_inside raises build s)
    inside-IsTidy (ok u, made) h = by_build build
      where
        by_build : (b : Result A) → IsTidyInside (closing raises (b, made))
        by_build (ok a) = h
        by_build (err e) = ends_closed-concat made
    inside-IsTidy (err e, made) h = ends_closed-concat made

  outside-IsTidy :
      {A : Type 0} (a : A) (s : Opened (Unit {0}))
      → closes s.1 ≡ false
      → IsTidyInside (construct_outside raises (ok a) s)
  outside-IsTidy a (ok u, made) h = h
  outside-IsTidy a (err e, made) h = ends_closed-concat made

  created-IsTidy : {A : Type 0} (o : Opened A) → IsTidyInside o → IsTidy raises (created raises o)
  created-IsTidy o h = by_test (raises create) refl o h
    where
      by_test :
          {A : Type 0} (b : Bool)
          → raises create ≡ b
          → (o : Opened A) → IsTidyInside o
          → IsTidy raises (if b then (err os_error, create ∷ []) else (o.0, create ∷ o.1))
      by_test true refused o h = inr (inl (refl, refused))
      by_test false quiet (ok a, made) h = h
      by_test false quiet (err e, made) h = inr (inr (ends_closed-cons made h))

  gated-IsTidy :
      {A : Type 0} (interface : String) (preflight : ActivePreflight) (o : Opened A)
      → IsTidy raises o
      → IsTidy raises (gated raises interface preflight o)
  gated-IsTidy interface preflight o h =
      by_test (not preflight.passed || not (str_eq preflight.interface interface)) h
    where
      by_test :
          (b : Bool)
          → IsTidy raises o
          → IsTidy raises
              (if b then (err (runtime_error "active CAN-FD preflight did not pass"), []) else o)
      by_test true h = inl refl
      by_test false h = h

  -- The receiver, the observer, the zero-gain poller and the set-zero and MIT writers leak no socket,
  -- whichever of their socket calls raises and whatever they are asked to open: where one of these
  -- methods raises, it made no call, or the creation of the socket was its only call and raised, or
  -- its last call closed the socket; and a socket that is returned was not closed.
  pub open-IsTidy :
      (interface : String) (rx : RxPreflight) (preflight : ActivePreflight) (ids : List ℕ)
      (name : String) (can_id : ℕ) (endpoints : List (String × ℕ))
      → IsTidy raises (open_receiver raises interface rx)
        × IsTidy raises (open_observer raises interface preflight)
        × IsTidy raises (open_zero_gain_poller raises interface preflight)
        × IsTidy raises (open_set_zero_writer raises interface preflight ids)
        × IsTidy raises (open_single_writer raises interface preflight name can_id)
        × IsTidy raises (open_group_writer raises interface preflight endpoints)
  unfolding open_receiver open_observer open_zero_gain_poller open_set_zero_writer
      open_single_writer open_group_writer
  open-IsTidy interface rx preflight ids name can_id endpoints = (
    receiver rx.passed (any (str_eq interface) rx.listen_only_interfaces),
    gated-IsTidy interface preflight _
        (created-IsTidy _ (outside-IsTidy interface _ (closes-set_up full refl))),
    gated-IsTidy interface preflight _
        (created-IsTidy _ (outside-IsTidy interface _ (closes-set_up full refl))),
    gated-IsTidy interface preflight _ (
        created-IsTidy _ (
          inside-IsTidy (set_zero_allowlist ids) _
            (closes-set_up (set_fd_frames ∷ bind ∷ []) refl))),
    gated-IsTidy interface preflight _ (
        created-IsTidy _
          (inside-IsTidy (new_single_writer interface name can_id) _ (closes-set_up full refl))),
    gated-IsTidy interface preflight _ (
        created-IsTidy _
          (inside-IsTidy (new_group_writer interface endpoints) _ (closes-set_up full refl))),
  )
    where
      full : Calls
      full = full_set_up raises

      receiver :
          (passed evidence : Bool)
          → IsTidy {A = String} raises (
              if not passed
              then (err (runtime_error "SocketCAN RX preflight did not pass"), [])
              else if not evidence
              then (err (runtime_error "no listen-only preflight evidence"), [])
              else created raises (
                  construct_outside raises
                    (ok interface)
                    (set_up raises (set_fd_frames ∷ set_timestamping ∷ bind ∷ []))))
      receiver false e = inl refl
      receiver true false = inl refl
      receiver true true = created-IsTidy _ (
          outside-IsTidy interface _
            (closes-set_up (set_fd_frames ∷ set_timestamping ∷ bind ∷ []) refl))

  -- With a preflight that passed for its interface and an operating system that raises nothing, a
  -- register reader that is refused for its allowlist has made a socket and leaves it open.
  pub open_register_reader-leaks :
      (interface : String) (preflight : ActivePreflight) (ids : List ℕ) (e : Exception)
      → preflight.passed ≡ true
      → preflight.interface ≡ interface
      → ((c : SocketCall) → raises c ≡ false)
      → allowlist ids ≡ err e
      → ((open_register_reader raises interface preflight ids).0 ≡ err e)
        × (closes (open_register_reader raises interface preflight ids).1 ≡ false)
        × ((open_register_reader raises interface preflight ids).1 ≢ [])
  unfolding open_register_reader
  open_register_reader-leaks interface preflight ids e passed same quiet refused =
      rw
        (
          passed,
          same,
          eq_refl interface,
          quiet create,
          quiet set_fd_frames,
          quiet set_timestamping,
          quiet bind,
          quiet set_nonblocking,
          refused,
        )
        (refl, refl, λ h. cc)
