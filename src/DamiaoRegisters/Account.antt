-- ===== src/DamiaoRegisters/Account.antt =====
-- The accounting of the register collection of damiao_registers.py.
use text.Mathlib.Text.{◌==◌ as str_eq}
use open_sprite_runtime.Prelude.{
  ℕ, zero, suc, ◌+◌, ◌*◌, ◌≤◌, ◌≡◌, refl, ap, subst, ==_refl, Bool, true, false, String, Option,
  none, some, List, [], ◌∷◌, if◌then◌else◌, length, arith,
}
use open_sprite_runtime.Prelude.Result.{Result, ok, err, os_error}
use open_sprite_runtime.Bytes.{Bytes}
use open_sprite_runtime.Float.{FloatOps}
use open_sprite_runtime.SocketCan.{ReceivedCanFrame}
use open_sprite_runtime.SocketCan.Writer.{
  SendOutcome, sent, failed, Outcome, Counted, count_send, send_built, send_read_request,
  short_write,
}
use open_sprite_runtime.SocketCan.MitWriter.{get}
use open_sprite_runtime.Damiao.Command.{DamiaoFeedbackEndpoint}
use open_sprite_runtime.DamiaoRegisters.{DamiaoRegisterValue}
use open_sprite_runtime.DamiaoRegisters.Collect.{
  Attempt, RegisterReader, Readers, Progress, Run, then_run, put, tx_count, await, awaited, send_by,
  attempt, or_retry, read_register, read_registers, read_motors, check_arguments, started, collect,
}

some_injective {ℓ} : {A : Type ℓ} {a b : A} → some a ≡ some b → a ≡ b
some_injective h = cc

send_built-counts :
    (os : Bytes → SendOutcome) (built : Result Bytes) (c : Counted)
    → (send_built os built c).0 ≡ ok tt
    → (send_built os built c).1.hardware_tx_attempts ≡ suc c.hardware_tx_attempts
unfolding count_send
send_built-counts os (err x) c h = cc
send_built-counts os (ok frame) c h = step (os frame) h
  where
    step :
        (o : SendOutcome)
        → ((elim o as (λ x. Outcome Counted) [
          | sent n ↦ (
            short_write frame n,
            record { wire = frame ∷ c.wire; hardware_tx_attempts = suc c.hardware_tx_attempts },
          )
          | failed ↦ (err os_error, record c { wire = frame ∷ c.wire })
        ]).0
            ≡ ok tt)
        → (elim o as (λ x. Outcome Counted) [
          | sent n ↦ (
            short_write frame n,
            record { wire = frame ∷ c.wire; hardware_tx_attempts = suc c.hardware_tx_attempts },
          )
          | failed ↦ (err os_error, record c { wire = frame ∷ c.wire })
        ]).1.hardware_tx_attempts
          ≡ suc c.hardware_tx_attempts
    step (sent n) g = refl
    step failed g = cc

tx_count-put :
    (readers : Readers) (name : String) (r : RegisterReader) (c : Counted)
    → get readers name ≡ some r
    → c.hardware_tx_attempts ≡ suc r.state.hardware_tx_attempts
    → tx_count (put readers name c) ≡ suc (tx_count readers)
unfolding tx_count put get
tx_count-put [] name r c h counted = cc
tx_count-put ((k, q) ∷ rest) name r c h counted =
    step (str_eq k name) (tx_count-put rest name r c) h
  where
    step :
        (b : Bool)
        → (get rest name ≡ some r
            → c.hardware_tx_attempts ≡ suc r.state.hardware_tx_attempts
            → tx_count (put rest name c) ≡ suc (tx_count rest))
        → (if◌then◌else◌ {A = Option RegisterReader} b (some q) (get rest name) ≡ some r)
        → tx_count (
            if◌then◌else◌ {A = Readers} b
              ((k, record q { state = c }) ∷ rest)
              ((k, q) ∷ put rest name c))
          ≡ suc (q.state.hardware_tx_attempts + tx_count rest)
    step true ih g =
        let same : q.state.hardware_tx_attempts ≡ r.state.hardware_tx_attempts =
          ap (λ x. x.state.hardware_tx_attempts) (some_injective g) in
        omega (arith, counted, same)
    step false ih g = omega (arith, ih g counted)

-- What a run that returns has sent: as many frames were counted by the readers as attempts were
-- made, which are at most `k`.
abbrev pub Spends {ℓ} : {A : Type ℓ} → ℕ → Progress → Run A → Type 0
Spends k s (ok a, s') =
    (tx_count s'.readers + s.attempts ≡ tx_count s.readers + s'.attempts)
    × (s'.attempts ≤ s.attempts + k)
Spends k s (err x, s') = Unit

Spends-later {ℓ} :
    {A : Type ℓ} (j k n : ℕ) (s s1 : Progress) (r : Run A)
    → j + k ≤ n
    → tx_count s1.readers + s.attempts ≡ tx_count s.readers + s1.attempts
    → s1.attempts ≤ s.attempts + j
    → Spends k s1 r
    → Spends n s r
Spends-later j k n s s1 (err x, s2) fits spent few g = tt
Spends-later j k n s s1 (ok b, s2) fits spent few (spent2, few2) = (omega arith, omega arith)

then_run-Spends {ℓ κ} :
    {A : Type ℓ} {B : Type κ} (j k n : ℕ) (s : Progress) (m : Run A) (f : A → Progress → Run B)
    → j + k ≤ n
    → Spends j s m
    → ((a : A) (s1 : Progress) → Spends k s1 (f a s1))
    → Spends n s (then_run m f)
then_run-Spends j k n s (err x, s1) f fits h later = tt
then_run-Spends j k n s (ok a, s1) f fits (spent, few) later =
    Spends-later j k n s s1 (f a s1) fits spent few (later a s1)

module _ (F : FloatOps) (decode : ReceivedCanFrame → ℕ → ℕ → ℕ → Result (DamiaoRegisterValue F))
    (registers : List ℕ) (env : ℕ → Attempt) where
  awaited-Spends :
      (e : DamiaoFeedbackEndpoint F) (register : ℕ) (sent : Result (Unit {0})) (s : Progress)
      (before : ℕ)
      → (sent ≡ ok tt → tx_count s.readers ≡ suc before)
      → (s0 : Progress) → tx_count s0.readers ≡ before
      → s0.attempts ≡ s.attempts
      → Spends 1 s0 (awaited F decode registers env e register sent s)
  awaited-Spends e register (err x) s before counted s0 same attempts = tt
  awaited-Spends e register (ok _) s before counted s0 same attempts =
      found (await F decode e register (env s.attempts).receipts).0 _
    where
      found :
          (r : Result (Option (DamiaoRegisterValue F))) (lost : ℕ)
          → Spends 1 s0 (
            r,
            record s {
              attempts = suc s.attempts;
              discarded_timestamp_frames = s.discarded_timestamp_frames + lost;
            },
          )
      found (err x) lost = tt
      found (ok o) lost = (omega (arith, counted refl, same, attempts), omega (arith, attempts))

  send_by-Spends :
      (o : Option RegisterReader) (e : DamiaoFeedbackEndpoint F) (register : ℕ) (s : Progress)
      → get s.readers e.interface ≡ o
      → Spends 1 s (send_by F decode registers env o e register s)
  unfolding send_read_request
  send_by-Spends none e register s h = tt
  send_by-Spends (some r) e register s h =
      awaited-Spends e register _ _ (tx_count s.readers)
        (λ g.
          tx_count-put s.readers e.interface r _ h
            (send_built-counts (env s.attempts).os _ r.state g))
        s refl refl

  attempt-Spends :
      (e : DamiaoFeedbackEndpoint F) (register : ℕ) (s : Progress)
      → Spends 1 s (attempt F decode registers env e register s)
  unfolding attempt
  attempt-Spends e register s = send_by-Spends (get s.readers e.interface) e register s refl

  or_retry-Spends :
      (n : ℕ) (again : Progress → Run (DamiaoRegisterValue F)) (o : Option (DamiaoRegisterValue F))
      (s : Progress)
      → Spends n s (again s)
      → Spends n s (or_retry F decode registers env again o s)
  or_retry-Spends n again none s h = h
  or_retry-Spends n again (some v) s h = (omega arith, omega arith)

  read_register-Spends :
      (retries : ℕ) (e : DamiaoFeedbackEndpoint F) (register : ℕ) (s : Progress)
      → Spends retries s (read_register F decode registers env retries e register s)
  unfolding read_register
  read_register-Spends zero e register s = tt
  read_register-Spends (suc retries) e register s =
      then_run-Spends 1 retries (suc retries) s (attempt F decode registers env e register s) _
        (omega arith) (attempt-Spends e register s)
        λ o s1.
          or_retry-Spends retries (read_register F decode registers env retries e register) o s1
            (read_register-Spends retries e register s1)

  returns-Spends {ℓ} : {A : Type ℓ} (a : A) (s : Progress) → Spends 0 s (ok a, s)
  returns-Spends a s = (omega arith, omega arith)

  read_registers-Spends :
      (retries : ℕ) (e : DamiaoFeedbackEndpoint F) (rs : List ℕ) (s : Progress)
      → Spends (length rs * retries) s (read_registers F decode registers env retries e rs s)
  unfolding read_registers
  read_registers-Spends retries e [] s = (omega arith, omega arith)
  read_registers-Spends retries e (r ∷ rs) s =
      then_run-Spends retries (length rs * retries) _ s
        (read_register F decode registers env retries e r s) _ (ground arith)
        (read_register-Spends retries e r s)
        λ v s1.
          then_run-Spends (length rs * retries) 0 _ s1
            (read_registers F decode registers env retries e rs s1) _ (omega arith)
            (read_registers-Spends retries e rs s1) λ vs s2. returns-Spends (v ∷ vs) s2

  read_motors-Spends :
      (retries : ℕ) (es : List (DamiaoFeedbackEndpoint F)) (s : Progress)
      → Spends
          (length es * (length registers * retries))
          s
          (read_motors F decode registers env retries es s)
  unfolding read_motors
  read_motors-Spends retries [] s = (omega arith, omega arith)
  read_motors-Spends retries (e ∷ es) s =
      then_run-Spends (length registers * retries) (length es * (length registers * retries)) _ s
        (read_registers F decode registers env retries e registers s) _ (ground arith)
        (read_registers-Spends retries e registers s)
        λ vs s1.
          then_run-Spends (length es * (length registers * retries)) 0 _ s1
            (read_motors F decode registers env retries es s1) _ (omega arith)
            (read_motors-Spends retries es s1) λ ms s2. returns-Spends ((e.motor_name, vs) ∷ ms) s2

  -- The accounting at the end of a collection never fails, for readers that have not sent before: a
  -- collection whose arguments pass and whose transactions all return, returns what they read, its
  -- readers have counted exactly as many frames as attempts were made, and these are at most
  -- `retries` for each register of each endpoint.
  pub collect-accounts :
      (timeout_s : F.Carrier) (retries : ℕ) (selected : List (DamiaoFeedbackEndpoint F))
      (readers : Readers) {motors : List (String × List (DamiaoRegisterValue F))} {s : Progress}
      → check_arguments F decode registers env timeout_s retries selected readers ≡ ok tt
      → tx_count readers ≡ 0
      → read_motors F decode registers env retries selected (started F decode registers env readers)
        ≡ (ok motors, s)
      → (collect F decode registers env timeout_s retries selected readers ≡ (ok motors, s))
        × (tx_count s.readers ≡ s.attempts)
        × (s.attempts ≤ length selected * (length registers * retries))
  unfolding collect
  collect-accounts timeout_s retries selected readers {motors} {s} checked fresh run =
      let (spent, few) =
        subst
          (Spends (length selected * (length registers * retries))
            (started F decode registers env readers))
          run (read_motors-Spends retries selected (started F decode registers env readers)) in
      let same : tx_count s.readers ≡ s.attempts = omega (arith, fresh) in
      (rw checked (rw run (rw same (rw (==_refl s.attempts) refl))), same, omega (arith, few))
