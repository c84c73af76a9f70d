-- ===== src/RxAudit/Kept.antt =====
-- src/open_sprite_runtime/damiao.py: the feedback frames of a trace that an audit keeps.
use open_sprite_runtime.Prelude.{
  ◌≡◌, refl, sym, ap, subst, ◌∙◌, true, false, ◌⊎◌, inl, inr, String, Option, some, List, [], ◌∷◌,
  All, Bool-cases,
}
use open_sprite_runtime.Prelude.Result.{Result, ok, err, >>=-eq-ok, ok_injective}
use open_sprite_runtime.Dict.{item}
use open_sprite_runtime.Float.{FloatOps}
use open_sprite_runtime.SocketCan.MitWriter.{get}
use open_sprite_runtime.SocketCan.{ReceivedCanFrame}
use open_sprite_runtime.Damiao.Command.{DamiaoFeedbackEndpoint}
use open_sprite_runtime.Damiao.Decode.{DamiaoFeedback}
use open_sprite_runtime.Damiao.Decoder.{decode}
use open_sprite_runtime.RxAudit.{
  DamiaoRxAudit, knows, accepted, with_samples, ingested, ingest, as_option, ingest_bus_frame,
  goes_on, ingest_all,
}
use open_sprite_runtime.RxAudit.Totals.{item-eq-ok}
use open_sprite_runtime.RxAudit.Setup.{Setup, setup_of, ingest_bus_frame-setup, goes_on-eq-ok}
use open_sprite_runtime.RxAudit.Expected.{key_of}
use open_sprite_runtime.RxAudit.Holds.{Holds, adjust-Holds, adjust-keeps-Holds}

module _ (F : FloatOps) where
  -- A frame was decoded, and its feedback is a sample of its motor.
  abbrev pub IsKept : List (DamiaoFeedbackEndpoint F) → DamiaoRxAudit F → ReceivedCanFrame → Type 0
  IsKept endpoints a frame =
      (f : DamiaoFeedback F) × (decode F endpoints frame ≡ ok f) × Holds a.samples f.motor_name f

  ingest-IsKept :
      (frame : ReceivedCanFrame) (a : DamiaoRxAudit F) {o : Option (DamiaoFeedback F)}
      → (as_option F (ingest F frame a)).0 ≡ ok o
      → IsKept a.decoder (as_option F (ingest F frame a)).1 frame
  unfolding ingest accepted
  ingest-IsKept frame a {o} = by_outcome (with_samples F a (decode F a.decoder frame)) refl
    where
      by_outcome :
          (r : Result (DamiaoFeedback F × List (DamiaoFeedback F)))
          → with_samples F a (decode F a.decoder frame) ≡ r
          → (as_option F (ingested F a r)).0 ≡ ok o
          → IsKept a.decoder (as_option F (ingested F a r)).1 frame
      by_outcome (err x) h g = cc
      by_outcome (ok (f, old)) h g =
          let (e, decoded, h1) = >>=-eq-ok (decode F a.decoder frame) _ h in
          let (samples, found, h2) = >>=-eq-ok (item a.samples e.motor_name) _ h1 in
          let same = ap (λ p. p.0) (ok_injective h2) in
          (
            f,
            decoded ∙ ap ok same,
            adjust-Holds f a.samples f.motor_name (
                subst (λ x. get a.samples x.motor_name ≡ some samples) same
                  (item-eq-ok a.samples e.motor_name found)),
          )

  ingest-keeps :
      (g : ReceivedCanFrame) (a : DamiaoRxAudit F) (name : String) (f : DamiaoFeedback F)
      → Holds a.samples name f
      → Holds (as_option F (ingest F g a)).1.samples name f
  unfolding ingest accepted
  ingest-keeps g a name f h = by_outcome (with_samples F a (decode F a.decoder g))
    where
      by_outcome :
          (r : Result (DamiaoFeedback F × List (DamiaoFeedback F)))
          → Holds (as_option F (ingested F a r)).1.samples name f
      by_outcome (err x) = h
      by_outcome (ok (e, old)) = adjust-keeps-Holds e a.samples e.motor_name name f h

  -- No frame drops a sample.
  ingest_bus_frame-keeps :
      (g : ReceivedCanFrame) (a : DamiaoRxAudit F) (name : String) (f : DamiaoFeedback F)
      → Holds a.samples name f
      → Holds (ingest_bus_frame F g a).1.samples name f
  unfolding ingest_bus_frame
  ingest_bus_frame-keeps g a name f h = elim (Bool-cases (knows a.feedback_keys (key_of g))) [
    | inl feedback ↦ rw feedback (ingest-keeps g a name f h)
    | inr other ↦ elim (Bool-cases (knows a.command_keys (key_of g))) [
      | inl control ↦ rw (other, control) h
      | inr unknown ↦ rw (other, unknown) h
    ]
  ]

  ingest_all-keeps :
      (frames : List ReceivedCanFrame) (a b : DamiaoRxAudit F) (name : String)
      (f : DamiaoFeedback F)
      → ingest_all F frames a ≡ (ok tt, b)
      → Holds a.samples name f
      → Holds b.samples name f
  unfolding ingest_all
  ingest_all-keeps [] a b name f h held = subst (λ r. Holds r.1.samples name f) h held
  ingest_all-keeps (g ∷ rest) a b name f h held =
      ingest_all-keeps rest (ingest_bus_frame F g a).1 b name f
        (goes_on-eq-ok F (ingest_all F rest) (ingest_bus_frame F g a) h)
        (ingest_bus_frame-keeps g a name f held)

  -- A frame of a feedback key is kept by an audit with these endpoints and keys.
  abbrev pub IsKeptIfFeedback : Setup F → DamiaoRxAudit F → ReceivedCanFrame → Type 0
  IsKeptIfFeedback s b frame =
      (knows s.feedback_keys (key_of frame) ≡ false) ⊎ IsKept s.decoder b frame

  goes_on-first :
      (later : DamiaoRxAudit F → Result (Unit {0}) × DamiaoRxAudit F)
      (r : Result (Option (DamiaoFeedback F)) × DamiaoRxAudit F) {b : DamiaoRxAudit F}
      → goes_on F later r ≡ (ok tt, b)
      → (o : Option (DamiaoFeedback F)) × (r.0 ≡ ok o)
  goes_on-first later (ok o, a) h = (o, refl)
  goes_on-first later (err x, a) h = cc

  ingest_bus_frame-feedback :
      (frame : ReceivedCanFrame) (a : DamiaoRxAudit F)
      → knows a.feedback_keys (key_of frame) ≡ true
      → ingest_bus_frame F frame a ≡ as_option F (ingest F frame a)
  unfolding ingest_bus_frame
  ingest_bus_frame-feedback frame a feedback = rw feedback refl

  ingest_bus_frame-IsKept :
      (frame : ReceivedCanFrame) (a : DamiaoRxAudit F) {o : Option (DamiaoFeedback F)}
      → (ingest_bus_frame F frame a).0 ≡ ok o
      → IsKeptIfFeedback (setup_of F a) (ingest_bus_frame F frame a).1 frame
  ingest_bus_frame-IsKept frame a h = elim (Bool-cases (knows a.feedback_keys (key_of frame))) [
    | inl feedback ↦
        let same = ingest_bus_frame-feedback frame a feedback in
        inr (
          subst (λ r. IsKept a.decoder r.1 frame) (sym same)
            (ingest-IsKept frame a (sym (ap (λ r. r.0) same) ∙ h)))
    | inr other ↦ inl other
  ]

  -- A trace that is taken in to its end leaves a sample of each of its feedback frames.
  pub ingest_all-IsKept :
      (frames : List ReceivedCanFrame) (a b : DamiaoRxAudit F)
      → ingest_all F frames a ≡ (ok tt, b)
      → All (IsKeptIfFeedback (setup_of F a) b) frames
  unfolding ingest_all
  ingest_all-IsKept [] a b h = tt
  ingest_all-IsKept (frame ∷ rest) a b h =
      let (o, first) = goes_on-first (ingest_all F rest) (ingest_bus_frame F frame a) h in
      let later = goes_on-eq-ok F (ingest_all F rest) (ingest_bus_frame F frame a) h in
      (
        still (setup_of F a) rest (ingest_bus_frame F frame a).1 b frame later
            (ingest_bus_frame-IsKept frame a first),
        subst (λ s. All (IsKeptIfFeedback s b) rest) (ingest_bus_frame-setup F frame a)
            (ingest_all-IsKept rest (ingest_bus_frame F frame a).1 b later),
      )
    where
      still :
          (s : Setup F) (gs : List ReceivedCanFrame) (c d : DamiaoRxAudit F) (g : ReceivedCanFrame)
          → ingest_all F gs c ≡ (ok tt, d)
          → IsKeptIfFeedback s c g
          → IsKeptIfFeedback s d g
      still s gs c d g e (inl other) = inl other
      still s gs c d g e (inr (f, decoded, held)) =
          inr (f, decoded, ingest_all-keeps gs c d f.motor_name f e held)
