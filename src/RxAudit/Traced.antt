-- ===== src/RxAudit/Traced.antt =====
-- src/open_sprite_runtime/damiao.py: the dictionary of samples that a trace leaves in an audit.
use open_sprite_runtime.Prelude.{
  ℕ, ◌≡◌, refl, sym, ap, subst, ◌∙◌, inl, inr, String, List, [], ◌∷◌, All, Member, Bool-cases, map,
  ◌++◌, append_assoc,
}
use open_sprite_runtime.Prelude.Result.{Result, ok, err, >>=-eq-ok, ok_injective}
use open_sprite_runtime.Dict.{Dict, item}
use open_sprite_runtime.Float.{FloatOps}
use open_sprite_runtime.SocketCan.{ReceivedCanFrame}
use open_sprite_runtime.Damiao.Command.{DamiaoFeedbackEndpoint}
use open_sprite_runtime.Damiao.Decode.{DamiaoFeedback}
use open_sprite_runtime.Damiao.Decoder.{decode}
use open_sprite_runtime.RxAudit.{
  DamiaoRxAudit, knows, accepted, with_samples, ingested, ingest, as_option, ingest_bus_frame,
  ingest_all, no_samples,
}
use open_sprite_runtime.RxAudit.Rising.{AreEmpty, no_samples-AreEmpty}
use open_sprite_runtime.RxAudit.Setup.{fresh, goes_on-eq-ok}
use open_sprite_runtime.RxAudit.Expected.{key_of}
use open_sprite_runtime.RxAudit.Names.{
  names, names-adjust, All-adjust_entries, set-Member, set-keeps-Member, Member-append,
}

module _ (F : FloatOps) where
  -- A sample of a motor is what the decoder made of one of the frames.
  abbrev pub IsSample :
      List (DamiaoFeedbackEndpoint F) → List ReceivedCanFrame → String → DamiaoFeedback F → Type 0
  IsSample endpoints frames name f =
      (f.motor_name ≡ name)
      × (frame : ReceivedCanFrame) × Member frame frames
      × (decode F endpoints frame ≡ ok f)

  -- The samples of an audit, under the names of its motors.
  pub record IsTraced (frames : List ReceivedCanFrame) (motors : List String) (a : DamiaoRxAudit F)
      : Type 0 where
    pub named : names a.samples ≡ motors
    pub sampled : All (λ e. All (IsSample a.decoder frames e.0) e.1) a.samples

  module _ (frames : List ReceivedCanFrame) (motors : List String) where
    ingest-IsTraced :
        (frame : ReceivedCanFrame) (a : DamiaoRxAudit F)
        → Member frame frames
        → IsTraced frames motors a
        → IsTraced frames motors (as_option F (ingest F frame a)).1
    unfolding ingest accepted
    ingest-IsTraced frame a here t = by_outcome (with_samples F a (decode F a.decoder frame)) refl
      where
        decoded :
            (f : DamiaoFeedback F) (old : List (DamiaoFeedback F))
            → with_samples F a (decode F a.decoder frame) ≡ ok (f, old)
            → decode F a.decoder frame ≡ ok f
        decoded f old h =
            let (g, got, h1) = >>=-eq-ok (decode F a.decoder frame) _ h in
            let (found, _, h2) = >>=-eq-ok (item a.samples g.motor_name) _ h1 in
            got ∙ ap (λ p. ok p.0) (ok_injective h2)

        by_outcome :
            (r : Result (DamiaoFeedback F × List (DamiaoFeedback F)))
            → with_samples F a (decode F a.decoder frame) ≡ r
            → IsTraced frames motors (as_option F (ingested F a r)).1
        by_outcome (err x) h = t
        by_outcome (ok (f, old)) h = record {
          named = names-adjust (λ xs. f ∷ xs) a.samples f.motor_name ∙ t.named;
          sampled =
              All-adjust_entries (λ name. All (IsSample a.decoder frames name)) (λ xs. f ∷ xs)
                a.samples f.motor_name (λ xs older. ((refl, frame, here, decoded f old h), older))
                t.sampled;
        }

    ingest_bus_frame-IsTraced :
        (frame : ReceivedCanFrame) (a : DamiaoRxAudit F)
        → Member frame frames
        → IsTraced frames motors a
        → IsTraced frames motors (ingest_bus_frame F frame a).1
    unfolding ingest_bus_frame
    ingest_bus_frame-IsTraced frame a here t =
        elim (Bool-cases (knows a.feedback_keys (key_of frame))) [
          | inl feedback ↦ rw feedback (ingest-IsTraced frame a here t)
          | inr other ↦ elim (Bool-cases (knows a.command_keys (key_of frame))) [
            | inl control ↦ rw (other, control) (record { named = t.named; sampled = t.sampled })
            | inr unknown ↦ rw (other, unknown) (record { named = t.named; sampled = t.sampled })
          ]
        ]

    ingest_all-IsTraced :
        (rest : List ReceivedCanFrame) (a b : DamiaoRxAudit F)
        → All (λ frame. Member frame frames) rest
        → ingest_all F rest a ≡ (ok tt, b)
        → IsTraced frames motors a
        → IsTraced frames motors b
    unfolding ingest_all
    ingest_all-IsTraced [] a b here h t = subst (IsTraced frames motors) (ap (λ r. r.1) h) t
    ingest_all-IsTraced (frame ∷ rest) a b (here, others) h t =
        ingest_all-IsTraced rest (ingest_bus_frame F frame a).1 b others
          (goes_on-eq-ok F (ingest_all F rest) (ingest_bus_frame F frame a) h)
          (ingest_bus_frame-IsTraced frame a here t)

  Rest-Member :
      (front rest : List ReceivedCanFrame) → All (λ frame. Member frame (front ++ rest)) rest
  Rest-Member front [] = tt
  Rest-Member front (frame ∷ rest) = (
    Member-append front frame rest,
    subst (λ all. All (λ g. Member g all) rest) (append_assoc front (frame ∷ []) rest)
        (Rest-Member (front ++ frame ∷ []) rest),
  )

  pub names-Member :
      (es : List (DamiaoFeedbackEndpoint F)) (name : String)
      → Member name (map (λ e. e.motor_name) es)
      → Member name (names (no_samples F es))
  names-Member [] name h = absurd h
  names-Member (e ∷ rest) name (inl same) =
      subst (λ n. Member n (names (no_samples F (e ∷ rest)))) (sym same)
        (set-Member (no_samples F rest) e.motor_name [])
  names-Member (e ∷ rest) name (inr later) =
      set-keeps-Member (no_samples F rest) e.motor_name name [] (names-Member rest name later)

  Nothing-sampled :
      (es : List (DamiaoFeedbackEndpoint F)) (frames : List ReceivedCanFrame)
      (d : Dict (List (DamiaoFeedback F)))
      → AreEmpty F d
      → All (λ e. All (IsSample es frames e.0) e.1) d
  Nothing-sampled es frames [] h = tt
  Nothing-sampled es frames ((k, xs) ∷ rest) (first, others) =
      (subst (All (IsSample es frames k)) (sym first) tt, Nothing-sampled es frames rest others)

  -- A trace that an audit takes in to its end leaves samples that come from it, under the names of
  -- the motors of the audit.
  pub trace-IsTraced :
      (endpoints : List (DamiaoFeedbackEndpoint F)) (minimum : ℕ) (rate gap age : F.Carrier)
      (frames : List ReceivedCanFrame) (b : DamiaoRxAudit F)
      → ingest_all F frames (fresh F endpoints minimum rate gap age) ≡ (ok tt, b)
      → IsTraced frames (names (no_samples F endpoints)) b
  trace-IsTraced endpoints minimum rate gap age frames b h =
      ingest_all-IsTraced frames (names (no_samples F endpoints)) frames
        (fresh F endpoints minimum rate gap age) b (Rest-Member [] frames) h
        (record {
          named = refl;
          sampled =
              Nothing-sampled endpoints frames (no_samples F endpoints)
                (no_samples-AreEmpty F endpoints);
        })
