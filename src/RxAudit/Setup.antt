-- ===== src/RxAudit/Setup.antt =====
-- src/open_sprite_runtime/damiao.py: what an audit is built with, which no frame changes.
use open_sprite_runtime.Prelude.{
  ℕ, ◌≡◌, refl, sym, ap, ◌∙◌, [], Option, List, Bool-cases, inl, inr, map, ◌∷◌, ltb,
}
use open_sprite_runtime.Prelude.Result.{
  Result, ok, err, require-eq-ok, raise_if-eq-ok, >>=-eq-ok, ok_injective,
}
use open_sprite_runtime.Float.{FloatOps}
use open_sprite_runtime.SocketCan.{ReceivedCanFrame}
use open_sprite_runtime.Damiao.Command.{DamiaoFeedbackEndpoint}
use open_sprite_runtime.Damiao.Decode.{DamiaoFeedback}
use open_sprite_runtime.Damiao.Decoder.{decode, new_decoder, not_empty, insert_all}
use open_sprite_runtime.Damiao.Feedback.{insert_all-all}
use open_sprite_runtime.RxAudit.{
  Key, DamiaoRxAudit, knows, accepted, with_samples, ingested, ingest, as_option, ingest_bus_frame,
  goes_on, no_samples, new_audit, is_limit, ingest_all,
}

module _ (F : FloatOps) where
  -- The endpoints, the keys and the limits of an audit.
  pub record Setup : Type 0 where
    pub decoder : List (DamiaoFeedbackEndpoint F)
    pub feedback_keys : List Key
    pub command_keys : List Key
    pub minimum_samples_per_motor : ℕ
    pub minimum_feedback_hz : F.Carrier
    pub maximum_hardware_gap_ms : F.Carrier
    pub maximum_userspace_queue_age_p99_ms : F.Carrier

  abbrev pub setup_of : DamiaoRxAudit F → Setup
  setup_of a = record {
    decoder = a.decoder;
    feedback_keys = a.feedback_keys;
    command_keys = a.command_keys;
    minimum_samples_per_motor = a.minimum_samples_per_motor;
    minimum_feedback_hz = a.minimum_feedback_hz;
    maximum_hardware_gap_ms = a.maximum_hardware_gap_ms;
    maximum_userspace_queue_age_p99_ms = a.maximum_userspace_queue_age_p99_ms;
  }

  ingest-setup :
      (frame : ReceivedCanFrame) (a : DamiaoRxAudit F)
      → setup_of (as_option F (ingest F frame a)).1 ≡ setup_of a
  unfolding ingest accepted
  ingest-setup frame a = by_outcome (with_samples F a (decode F a.decoder frame))
    where
      by_outcome :
          (r : Result (DamiaoFeedback F × List (DamiaoFeedback F)))
          → setup_of (as_option F (ingested F a r)).1 ≡ setup_of a
      by_outcome (err x) = refl
      by_outcome (ok (f, old)) = refl

  pub ingest_bus_frame-setup :
      (frame : ReceivedCanFrame) (a : DamiaoRxAudit F)
      → setup_of (ingest_bus_frame F frame a).1 ≡ setup_of a
  unfolding ingest_bus_frame
  ingest_bus_frame-setup frame a =
      elim (Bool-cases (knows a.feedback_keys (frame.interface, frame.can_id))) [
        | inl feedback ↦ rw feedback (ingest-setup frame a)
        | inr other ↦ elim (Bool-cases (knows a.command_keys (frame.interface, frame.can_id))) [
          | inl control ↦ rw (other, control) refl
          | inr unknown ↦ rw (other, unknown) refl
        ]
      ]

  -- Frames are taken in to the end when the first one is, and then the others.
  pub goes_on-eq-ok :
      (later : DamiaoRxAudit F → Result (Unit {0}) × DamiaoRxAudit F)
      (r : Result (Option (DamiaoFeedback F)) × DamiaoRxAudit F) {b : DamiaoRxAudit F}
      → goes_on F later r ≡ (ok tt, b)
      → later r.1 ≡ (ok tt, b)
  goes_on-eq-ok later (ok f, a) h = h
  goes_on-eq-ok later (err x, a) h = cc

  new_decoder-eq-ok :
      (endpoints known : List (DamiaoFeedbackEndpoint F))
      → new_decoder F endpoints ≡ ok known
      → known ≡ endpoints
  unfolding new_decoder
  new_decoder-eq-ok endpoints known h =
      let (all, built, h1) = >>=-eq-ok (insert_all F [] endpoints) _ h in
      let (_, h2) = require-eq-ok (not_empty F all) _ _ h1 in
      sym (ok_injective h2) ∙ insert_all-all F [] endpoints all built

  -- The audit as its constructor leaves it.
  abbrev pub fresh :
      List (DamiaoFeedbackEndpoint F) → ℕ → (rate gap age : F.Carrier) → DamiaoRxAudit F
  fresh endpoints minimum rate gap age = record {
    decoder = endpoints;
    feedback_keys = map (λ (e : DamiaoFeedbackEndpoint F). (e.interface, e.master_id)) endpoints;
    command_keys = map (λ (e : DamiaoFeedbackEndpoint F). (e.interface, e.can_id)) endpoints;
    minimum_samples_per_motor = minimum;
    minimum_feedback_hz = rate;
    maximum_hardware_gap_ms = gap;
    maximum_userspace_queue_age_p99_ms = age;
    samples = no_samples F endpoints;
    errors = [];
    unexpected_keys = [];
    observed_control_frames = 0;
    decoded_feedback_frames = 0;
  }

  pub new_audit-eq-ok :
      (endpoints : List (DamiaoFeedbackEndpoint F)) (minimum : ℕ) (rate gap age : F.Carrier)
      {a : DamiaoRxAudit F}
      → new_audit F endpoints minimum rate gap age ≡ ok a
      → a ≡ fresh endpoints minimum rate gap age
  unfolding new_audit
  new_audit-eq-ok endpoints minimum rate gap age h =
      let (known, built, h1) = >>=-eq-ok (new_decoder F endpoints) _ h in
      let (_, h2) = raise_if-eq-ok _ _ _ h1 in
      let (_, h3) = require-eq-ok (ltb 0 minimum) _ _ h2 in
      let (_, h4) = require-eq-ok (is_limit F rate) _ _ h3 in
      let (_, h5) = require-eq-ok (is_limit F gap) _ _ h4 in
      let (_, h6) = require-eq-ok (is_limit F age) _ _ h5 in
      sym (ok_injective h6)
      ∙ ap (λ d. record (fresh endpoints minimum rate gap age) { decoder = d })
          (new_decoder-eq-ok endpoints known built)

  pub ingest_all-setup :
      (frames : List ReceivedCanFrame) (a b : DamiaoRxAudit F)
      → ingest_all F frames a ≡ (ok tt, b)
      → setup_of b ≡ setup_of a
  unfolding ingest_all
  ingest_all-setup [] a b h = ap (λ r. setup_of r.1) (sym h)
  ingest_all-setup (frame ∷ rest) a b h =
      ingest_all-setup rest (ingest_bus_frame F frame a).1 b
        (goes_on-eq-ok (ingest_all F rest) (ingest_bus_frame F frame a) h)
      ∙ ingest_bus_frame-setup frame a
