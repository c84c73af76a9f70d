-- ===== src/RxAudit/Verdict.antt =====
-- src/open_sprite_runtime/damiao.py: what it means that the report of an audit passed.
use open_sprite_runtime.Prelude.{
  ℕ, ◌≡◌, refl, sym, ap, subst, ◌⊎◌, inl, inr, true, String, some, List, [], ◌∷◌, map, All, Member,
}
use open_sprite_runtime.Prelude.Result.{ok}
use open_sprite_runtime.Float.{FloatOps}
use open_sprite_runtime.SocketCan.MitWriter.{get}
use open_sprite_runtime.SocketCan.{ReceivedCanFrame}
use open_sprite_runtime.Damiao.Command.{DamiaoFeedbackEndpoint}
use open_sprite_runtime.Damiao.Decode.{DamiaoFeedback}
use open_sprite_runtime.RxAudit.{DamiaoRxAudit, new_audit, ingest_all}
use open_sprite_runtime.RxAudit.Report.{audit_passed, report}
use open_sprite_runtime.RxAudit.Rising.{IsSound, ingest_all-IsSound}
use open_sprite_runtime.RxAudit.Setup.{setup_of, fresh, new_audit-eq-ok, ingest_all-setup}
use open_sprite_runtime.RxAudit.Expected.{IsKnown, key_of, knows-map, ingest_all-IsKnown}
use open_sprite_runtime.RxAudit.Kept.{IsKept, IsKeptIfFeedback, ingest_all-IsKept}
use open_sprite_runtime.RxAudit.Traced.{IsSample, names-Member, trace-IsTraced}
use open_sprite_runtime.RxAudit.Names.{get-All}
use open_sprite_runtime.RxAudit.Qualified.{
  IsQualified, Qualifies, All-both, All-map, report-IsQualified,
}

module _ {A : Type 0} where
  All-Member : (P : A → Type 0) (xs : List A) → ((x : A) → Member x xs → P x) → All P xs
  All-Member P [] f = tt
  All-Member P (x ∷ xs) f = (f x (inl refl), All-Member P xs (λ y here. f y (inr here)))

  map-Member :
      {B : Type 0} (f : A → B) (xs : List A) (x : A) → Member x xs → Member (f x) (map f xs)
  map-Member f [] x h = absurd h
  map-Member f (y ∷ xs) x (inl same) = inl (ap f same)
  map-Member f (y ∷ xs) x (inr later) = inr (map-Member f xs x later)

module _ (F : FloatOps) where
  -- A frame of the trace has the interface and the CAN ID of an endpoint, or the interface and the
  -- Master ID of one, and then what it was decoded to is a sample of its motor.
  abbrev pub IsTaken : List (DamiaoFeedbackEndpoint F) → DamiaoRxAudit F → ReceivedCanFrame → Type 0
  IsTaken endpoints b frame =
      (e : DamiaoFeedbackEndpoint F) × Member e endpoints
      × (frame.interface ≡ e.interface)
      × ((frame.can_id ≡ e.can_id) ⊎ ((frame.can_id ≡ e.master_id) × IsKept F endpoints b frame))

  known-IsTaken :
      (endpoints : List (DamiaoFeedbackEndpoint F)) (minimum : ℕ) (rate gap age : F.Carrier)
      (b : DamiaoRxAudit F) (frame : ReceivedCanFrame)
      → IsKnown F (setup_of F (fresh F endpoints minimum rate gap age)) frame
      → IsKeptIfFeedback F (setup_of F (fresh F endpoints minimum rate gap age)) b frame
      → IsTaken endpoints b frame
  known-IsTaken endpoints minimum rate gap age b frame (inr command) kept =
      let (e, here, interface, id) =
        knows-map (λ x. (x.interface, x.can_id)) endpoints (key_of frame) command in
      (e, here, interface, inl id)
  known-IsTaken endpoints minimum rate gap age b frame (inl feedback) (inr kept) =
      let (e, here, interface, id) =
        knows-map (λ x. (x.interface, x.master_id)) endpoints (key_of frame) feedback in
      (e, here, interface, inr (id, kept))
  known-IsTaken endpoints minimum rate gap age b frame (inl feedback) (inl other) = cc

  -- What an audit has of a motor: samples that are qualified, each decoded from a frame of the trace.
  abbrev pub IsCleared :
      List (DamiaoFeedbackEndpoint F)
      → ℕ
      → (rate gap age : F.Carrier) → List ReceivedCanFrame
      → DamiaoRxAudit F
      → String
      → Type 0
  IsCleared endpoints minimum rate gap age frames b name =
      (samples : List (DamiaoFeedback F)) × (get b.samples name ≡ some samples)
      × IsQualified F minimum rate gap age samples
      × All (IsSample F endpoints frames name) samples

  fresh-passed :
      (endpoints : List (DamiaoFeedbackEndpoint F)) (minimum : ℕ) (rate gap age : F.Carrier)
      (frames : List ReceivedCanFrame) (b : DamiaoRxAudit F)
      → IsSound F b
      → ingest_all F frames (fresh F endpoints minimum rate gap age) ≡ (ok tt, b)
      → audit_passed F (report F b) ≡ true
      → All (IsTaken endpoints b) frames
        × All (λ e. IsCleared endpoints minimum rate gap age frames b e.motor_name) endpoints
  fresh-passed endpoints minimum rate gap age frames b sound h passed =
      let a = fresh F endpoints minimum rate gap age in
      let (none_left, qualified) = report-IsQualified F b sound passed in
      let known = ingest_all-IsKnown F frames a b h none_left in
      let same = ingest_all-setup F frames a b h in
      let traced = trace-IsTraced F endpoints minimum rate gap age frames b h in
      let within = subst (λ s. All (λ e. Qualifies F s e.1) b.samples) same qualified in
      let sampled =
        subst (λ s. All (λ e. All (IsSample F s.decoder frames e.0) e.1) b.samples) same
          traced.sampled in
      (
        All-map (λ g. IsKnown F (setup_of F a) g × IsKeptIfFeedback F (setup_of F a) b g)
            (IsTaken endpoints b) frames
            (λ g both. known-IsTaken endpoints minimum rate gap age b g both.0 both.1)
            (All-both (IsKnown F (setup_of F a)) (IsKeptIfFeedback F (setup_of F a) b) frames
              known.1 (ingest_all-IsKept F frames a b h)),
        All-Member (λ e. IsCleared endpoints minimum rate gap age frames b e.motor_name) endpoints
            (λ e here.
              let (samples, found, (within_limits, traces)) =
                get-All
                  (λ name samples.
                    IsQualified F minimum rate gap age samples
                    × All (IsSample F endpoints frames name) samples)
                  b.samples e.motor_name
                  (All-both (λ x. IsQualified F minimum rate gap age x.1)
                    (λ x. All (IsSample F endpoints frames x.0) x.1) b.samples within sampled)
                  (subst (Member e.motor_name) (sym traced.named) (
                    names-Member F endpoints e.motor_name
                      (map-Member (λ x. x.motor_name) endpoints e here))) in
              (samples, found, within_limits, traces)),
      )

  -- If an audit that was built takes in a trace to its end and its report then passes, every frame of
  -- the trace has the interface of an endpoint with its CAN ID, or with its Master ID, and then what
  -- it was decoded to is among the samples of its motor. Every endpoint has samples of its motor,
  -- each decoded from a frame of the trace. They are as many as was demanded, rise in their hardware
  -- timestamps, are of a motor that is disabled or enabled, and keep the limits of rate, gap and
  -- queue age that were given.
  pub report-passed :
      (endpoints : List (DamiaoFeedbackEndpoint F)) (minimum : ℕ) (rate gap age : F.Carrier)
      (frames : List ReceivedCanFrame) {a b : DamiaoRxAudit F}
      → new_audit F endpoints minimum rate gap age ≡ ok a
      → ingest_all F frames a ≡ (ok tt, b)
      → audit_passed F (report F b) ≡ true
      → All (IsTaken endpoints b) frames
        × All (λ e. IsCleared endpoints minimum rate gap age frames b e.motor_name) endpoints
  report-passed endpoints minimum rate gap age frames {a} {b} built h passed =
      fresh-passed endpoints minimum rate gap age frames b
        (subst (IsSound F) (ap (λ r. r.1) h)
          (ingest_all-IsSound F endpoints minimum rate gap age frames built))
        (subst (λ x. ingest_all F frames x ≡ (ok tt, b))
          (new_audit-eq-ok F endpoints minimum rate gap age built) h)
        passed
