-- ===== src/RxAudit/Rising.antt =====
-- src/open_sprite_runtime/damiao.py: what the samples of an audit without errors say.
use text.Mathlib.Text.{◌==◌ as str_eq}
use open_sprite_runtime.Prelude.{
  ℕ, suc, ◌≡◌, refl, sym, ap, subst, ◌∙◌, Bool, true, false, ◌⊎◌, inl, inr, String, Option, some,
  List, [], ◌∷◌, All, Bool-cases, arith, ltb,
}
use open_sprite_runtime.Prelude.Int.{◌<ℤ◌}
use open_sprite_runtime.Prelude.Result.{
  Exception, Result, ok, err, require-eq-ok, raise_if-eq-ok, >>=-eq-ok, ok_injective,
}
use open_sprite_runtime.Dict.{Dict, set, item}
use open_sprite_runtime.Float.{FloatOps}
use open_sprite_runtime.SocketCan.MitWriter.{get}
use open_sprite_runtime.SocketCan.{ReceivedCanFrame}
use open_sprite_runtime.Damiao.Command.{DamiaoFeedbackEndpoint}
use open_sprite_runtime.Damiao.Decode.{DamiaoFeedback}
use open_sprite_runtime.Damiao.Decoder.{new_decoder, decode}
use open_sprite_runtime.RxAudit.{
  DamiaoRxAudit, no_samples, regressed, noted_if, is_faulty, accepted, with_samples, ingested,
  ingest, as_option, ingest_bus_frame, goes_on, ingest_all, knows, new_audit, is_limit,
}
use open_sprite_runtime.RxAudit.Totals.{total, total-adjust, All-adjust, item-eq-ok}

module _ (F : FloatOps) where
  -- A sample is newer than those of its motor before it.
  abbrev pub IsNewer : DamiaoFeedback F → List (DamiaoFeedback F) → Type 0
  IsNewer f [] = Unit
  IsNewer f (last ∷ _) = last.hardware_timestamp_ns <ℤ f.hardware_timestamp_ns

  -- The samples of a motor, the newest first: each is of a motor that is disabled or enabled, and its
  -- hardware timestamp is later than that of the one before.
  abbrev pub Rises : List (DamiaoFeedback F) → Type 0
  Rises [] = Unit
  Rises (f ∷ rest) = ((f.status_code ≡ 0) ⊎ (f.status_code ≡ 1)) × IsNewer f rest × Rises rest

  -- The number of decoded frames is that of the samples, and without an error the samples of every
  -- motor rise.
  pub record IsSound (a : DamiaoRxAudit F) : Type 0 where
    pub counted : total a.samples ≡ a.decoded_feedback_frames
    pub rising : a.errors ≡ [] → All (λ e. Rises e.1) a.samples

  noted_if-nil :
      (b : Bool) (x : Exception) (xs : List Exception)
      → noted_if F b x xs ≡ []
      → (b ≡ false) × (xs ≡ [])
  noted_if-nil true x [] h = cc
  noted_if-nil true x (y ∷ ys) h = cc
  noted_if-nil false x xs h = (refl, h)

  IsNewer-of_test :
      (f : DamiaoFeedback F) (old : List (DamiaoFeedback F))
      → regressed F f old ≡ false
      → IsNewer f old
  IsNewer-of_test f [] h = tt
  IsNewer-of_test f (last ∷ rest) h = ground arith

  accepted-IsSound :
      (f : DamiaoFeedback F) (old : List (DamiaoFeedback F)) (a : DamiaoRxAudit F)
      → get a.samples f.motor_name ≡ some old
      → IsSound a
      → IsSound (accepted F f old a)
  unfolding accepted
  accepted-IsSound f old a known s = record {
    counted = total-adjust f a.samples f.motor_name known ∙ ap suc s.counted;
    rising = λ none_yet.
        let (normal, h) = noted_if-nil (is_faulty F f) _ _ none_yet in
        let (newer, h2) = noted_if-nil (regressed F f old) _ _ h in
        All-adjust Rises f a.samples f.motor_name known
          (λ older. (status normal, IsNewer-of_test f old newer, older)) (s.rising h2);
  }
    where
      status : is_faulty F f ≡ false → (f.status_code ≡ 0) ⊎ (f.status_code ≡ 1)
      status h = ground arith

  ingest-IsSound :
      (frame : ReceivedCanFrame) (a : DamiaoRxAudit F) → IsSound a → IsSound (ingest F frame a).1
  unfolding ingest
  ingest-IsSound frame a s = by_outcome (with_samples F a (decode F a.decoder frame)) known
    where
      known :
          (f : DamiaoFeedback F) (old : List (DamiaoFeedback F))
          → with_samples F a (decode F a.decoder frame) ≡ ok (f, old)
          → get a.samples f.motor_name ≡ some old
      known f old h =
          let (g, _, h1) = >>=-eq-ok (decode F a.decoder frame) _ h in
          let (found, got, h2) = >>=-eq-ok (item a.samples g.motor_name) _ h1 in
          let same = ok_injective h2 in
          subst (λ pair. get a.samples pair.0.motor_name ≡ some pair.1) same
            (item-eq-ok a.samples g.motor_name got)

      by_outcome :
          (r : Result (DamiaoFeedback F × List (DamiaoFeedback F)))
          → ((f : DamiaoFeedback F) (old : List (DamiaoFeedback F))
              → r ≡ ok (f, old)
              → get a.samples f.motor_name ≡ some old)
          → IsSound (ingested F a r).1
      by_outcome (err x) h = s
      by_outcome (ok (f, old)) h = accepted-IsSound f old a (h f old refl) s

  as_option-IsSound :
      (r : Result (DamiaoFeedback F) × DamiaoRxAudit F) → IsSound r.1 → IsSound (as_option F r).1
  as_option-IsSound (ok f, a) s = s
  as_option-IsSound (err x, a) s = s

  ingest_bus_frame-IsSound :
      (frame : ReceivedCanFrame) (a : DamiaoRxAudit F)
      → IsSound a
      → IsSound (ingest_bus_frame F frame a).1
  unfolding ingest_bus_frame
  ingest_bus_frame-IsSound frame a s =
      elim (Bool-cases (knows a.feedback_keys (frame.interface, frame.can_id))) [
        | inl feedback ↦
            rw feedback (as_option-IsSound (ingest F frame a) (ingest-IsSound frame a s))
        | inr other ↦ elim (Bool-cases (knows a.command_keys (frame.interface, frame.can_id))) [
          | inl control ↦ rw (other, control) (record { counted = s.counted; rising = s.rising })
          | inr unknown ↦ rw (other, unknown) (record { counted = s.counted; rising = s.rising })
        ]
      ]

  goes_on-IsSound :
      (later : DamiaoRxAudit F → Result (Unit {0}) × DamiaoRxAudit F)
      (r : Result (Option (DamiaoFeedback F)) × DamiaoRxAudit F)
      → IsSound r.1
      → ((a : DamiaoRxAudit F) → IsSound a → IsSound (later a).1)
      → IsSound (goes_on F later r).1
  goes_on-IsSound later (ok f, a) s go = go a s
  goes_on-IsSound later (err x, a) s go = s

  ingest_all-keeps :
      (frames : List ReceivedCanFrame) (a : DamiaoRxAudit F)
      → IsSound a
      → IsSound (ingest_all F frames a).1
  unfolding ingest_all
  ingest_all-keeps [] a s = s
  ingest_all-keeps (frame ∷ rest) a s =
      goes_on-IsSound (ingest_all F rest) (ingest_bus_frame F frame a)
        (ingest_bus_frame-IsSound frame a s) (ingest_all-keeps rest)

  -- Dictionaries of empty lists.
  abbrev pub AreEmpty : Dict (List (DamiaoFeedback F)) → Type 0
  AreEmpty [] = Unit
  AreEmpty ((k, xs) ∷ rest) = (xs ≡ []) × AreEmpty rest

  set-AreEmpty :
      (d : Dict (List (DamiaoFeedback F))) (name : String) → AreEmpty d → AreEmpty (set d name [])
  unfolding set
  set-AreEmpty [] name h = (refl, tt)
  set-AreEmpty ((k, xs) ∷ rest) name (first, others) = elim (Bool-cases (str_eq k name)) [
    | inl here ↦ rw here (refl, others)
    | inr there ↦ rw there (first, set-AreEmpty rest name others)
  ]

  pub no_samples-AreEmpty : (es : List (DamiaoFeedbackEndpoint F)) → AreEmpty (no_samples F es)
  no_samples-AreEmpty [] = tt
  no_samples-AreEmpty (e ∷ rest) =
      set-AreEmpty (no_samples F rest) e.motor_name (no_samples-AreEmpty rest)

  total-nil : (d : Dict (List (DamiaoFeedback F))) → AreEmpty d → total d ≡ 0
  unfolding total
  total-nil [] h = refl
  total-nil ((k, xs) ∷ rest) (first, others) = rw first (omega (arith, total-nil rest others))

  Rises-nil : (d : Dict (List (DamiaoFeedback F))) → AreEmpty d → All (λ e. Rises e.1) d
  Rises-nil [] h = tt
  Rises-nil ((k, xs) ∷ rest) (first, others) = (subst Rises (sym first) tt, Rises-nil rest others)

  new_audit-IsSound :
      (endpoints : List (DamiaoFeedbackEndpoint F)) (minimum : ℕ) (rate gap age : F.Carrier)
      {a : DamiaoRxAudit F}
      → new_audit F endpoints minimum rate gap age ≡ ok a
      → IsSound a
  unfolding new_audit
  new_audit-IsSound endpoints minimum rate gap age h =
      let (_, _, h1) = >>=-eq-ok (new_decoder F endpoints) _ h in
      let (_, h2) = raise_if-eq-ok _ _ _ h1 in
      let (_, h3) = require-eq-ok (ltb 0 minimum) _ _ h2 in
      let (_, h4) = require-eq-ok (is_limit F rate) _ _ h3 in
      let (_, h5) = require-eq-ok (is_limit F gap) _ _ h4 in
      let (_, h6) = require-eq-ok (is_limit F age) _ _ h5 in
      subst IsSound (ok_injective h6) (record {
        counted = total-nil (no_samples F endpoints) (no_samples-AreEmpty endpoints);
        rising = λ h. Rises-nil (no_samples F endpoints) (no_samples-AreEmpty endpoints);
      })

  -- Through any frames, up to one that raises, an audit that was built counts as decoded just as many frames
  -- as it keeps samples of, and as long as it has noted no error, the samples of every motor are of a motor
  -- that is disabled or enabled and have hardware timestamps that rise.
  pub ingest_all-IsSound :
      (endpoints : List (DamiaoFeedbackEndpoint F)) (minimum : ℕ) (rate gap age : F.Carrier)
      (frames : List ReceivedCanFrame) {a : DamiaoRxAudit F}
      → new_audit F endpoints minimum rate gap age ≡ ok a
      → IsSound (ingest_all F frames a).1
  ingest_all-IsSound endpoints minimum rate gap age frames h =
      ingest_all-keeps frames _ (new_audit-IsSound endpoints minimum rate gap age h)
