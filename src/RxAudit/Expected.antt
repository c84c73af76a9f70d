-- ===== src/RxAudit/Expected.antt =====
-- src/open_sprite_runtime/damiao.py: the frames of a trace that leave no unexpected key.
use text.Mathlib.Text.{◌==◌ as str_eq}
use text.Mathlib.TextEquality.{eq_iff}
use open_sprite_runtime.Prelude.{
  suc, ◌≡◌, refl, sym, ap, subst, ◌∙◌, Bool, true, false, ◌⊎◌, inl, inr, Option, none, List, [],
  ◌∷◌, ◌||◌, ◌==◌, All, Member, Bool-cases, map, if◌then◌else◌, &&-true, arith,
}
use open_sprite_runtime.Prelude.Result.{Result, ok, err}
use open_sprite_runtime.Float.{FloatOps}
use open_sprite_runtime.SocketCan.{ReceivedCanFrame}
use open_sprite_runtime.Damiao.Decode.{DamiaoFeedback}
use open_sprite_runtime.Damiao.Decoder.{decode}
use open_sprite_runtime.RxAudit.{
  Key, same_key, DamiaoRxAudit, knows, accepted, with_samples, ingested, ingest, as_option, added,
  ingest_bus_frame, ingest_all,
}
use open_sprite_runtime.RxAudit.Setup.{Setup, setup_of, ingest_bus_frame-setup, goes_on-eq-ok}

abbrev pub key_of : ReceivedCanFrame → Key
key_of frame = (frame.interface, frame.can_id)

same_key-path : (x y : Key) → same_key x y ≡ true → (x.0 ≡ y.0) × (x.1 ≡ y.1)
same_key-path (i, m) (j, n) h =
    let (texts, numbers) = &&-true (str_eq i j) (m == n) h in
    ((eq_iff i j).0 texts, ground (arith, numbers))

module _ {A : Type 0} where
  -- A known key is that of a member.
  pub knows-map :
      (f : A → Key) (xs : List A) (key : Key)
      → knows (map f xs) key ≡ true
      → (x : A) × Member x xs × (key.0 ≡ (f x).0) × (key.1 ≡ (f x).1)
  knows-map f [] key h = cc
  knows-map f (x ∷ xs) key h = elim (Bool-cases (same_key key (f x))) [
    | inl same ↦
        let (texts, numbers) = same_key-path key (f x) same in (x, inl refl, texts, numbers)
    | inr other ↦
        let (y, here, texts, numbers) =
          knows-map f xs key (subst (λ b. (b || knows (map f xs) key) ≡ true) other h) in
        (y, inr here, texts, numbers)
  ]

module _ (F : FloatOps) where
  -- The key of a frame is one of the feedback keys or of the command keys.
  abbrev pub IsKnown : Setup F → ReceivedCanFrame → Type 0
  IsKnown s frame =
      (knows s.feedback_keys (key_of frame) ≡ true) ⊎ (knows s.command_keys (key_of frame) ≡ true)

  added-not_nil : (key : Key) (keys : List Key) → added F key keys ≡ [] → ⊥
  added-not_nil key [] h = cc
  added-not_nil key (k ∷ keys) h = by_test (knows (k ∷ keys) key) h
    where
      by_test : (b : Bool) → (if b then k ∷ keys else key ∷ k ∷ keys) ≡ [] → ⊥
      by_test true e = cc
      by_test false e = cc

  -- The unexpected keys that an operation leaves.
  abbrev left : Result (Option (DamiaoFeedback F)) × DamiaoRxAudit F → List Key
  left r = r.1.unexpected_keys

  ingest-unexpected :
      (frame : ReceivedCanFrame) (a : DamiaoRxAudit F)
      → (as_option F (ingest F frame a)).1.unexpected_keys ≡ a.unexpected_keys
  unfolding ingest accepted
  ingest-unexpected frame a = by_outcome (with_samples F a (decode F a.decoder frame))
    where
      by_outcome :
          (r : Result (DamiaoFeedback F × List (DamiaoFeedback F)))
          → (as_option F (ingested F a r)).1.unexpected_keys ≡ a.unexpected_keys
      by_outcome (err x) = refl
      by_outcome (ok (f, old)) = refl

  -- A frame that leaves no unexpected key behind it is known.
  ingest_bus_frame-IsKnown :
      (frame : ReceivedCanFrame) (a : DamiaoRxAudit F)
      → (ingest_bus_frame F frame a).1.unexpected_keys ≡ []
      → (a.unexpected_keys ≡ []) × IsKnown (setup_of F a) frame
  unfolding ingest_bus_frame
  ingest_bus_frame-IsKnown frame a =
      by_tests (knows a.feedback_keys (key_of frame)) (knows a.command_keys (key_of frame)) refl
        refl
    where
      by_tests :
          (feedback control : Bool)
          → knows a.feedback_keys (key_of frame) ≡ feedback
          → knows a.command_keys (key_of frame) ≡ control
          → left (
              if feedback
              then as_option F (ingest F frame a)
              else if control
              then (ok none, record a { observed_control_frames = suc a.observed_control_frames })
              else (
                ok none,
                record a { unexpected_keys = added F (key_of frame) a.unexpected_keys },
              ))
            ≡ []
          → (a.unexpected_keys ≡ []) × IsKnown (setup_of F a) frame
      by_tests true control f c h = (sym (ingest-unexpected frame a) ∙ h, inl f)
      by_tests false true f c h = (h, inr c)
      by_tests false false f c h = absurd (added-not_nil (key_of frame) a.unexpected_keys h)

  -- A trace that is taken in to its end and leaves no unexpected key has known frames only.
  pub ingest_all-IsKnown :
      (frames : List ReceivedCanFrame) (a b : DamiaoRxAudit F)
      → ingest_all F frames a ≡ (ok tt, b)
      → b.unexpected_keys ≡ []
      → (a.unexpected_keys ≡ []) × All (IsKnown (setup_of F a)) frames
  unfolding ingest_all
  ingest_all-IsKnown [] a b h none_left = (ap (λ r. r.1.unexpected_keys) h ∙ none_left, tt)
  ingest_all-IsKnown (frame ∷ rest) a b h none_left =
      let later = goes_on-eq-ok F (ingest_all F rest) (ingest_bus_frame F frame a) h in
      let (none_yet, others) =
        ingest_all-IsKnown rest (ingest_bus_frame F frame a).1 b later none_left in
      let (none_before, known) = ingest_bus_frame-IsKnown frame a none_yet in
      (
        none_before,
        (known, subst (λ s. All (IsKnown s) rest) (ingest_bus_frame-setup F frame a) others),
      )
