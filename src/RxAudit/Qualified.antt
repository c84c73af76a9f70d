-- ===== src/RxAudit/Qualified.antt =====
-- src/open_sprite_runtime/damiao.py: what a passed report says of the samples.
use open_sprite_runtime.Prelude.{
  ℕ, ◌≤◌, ◌≡◌, refl, sym, subst, Bool, true, false, String, List, [], ◌∷◌, ◌++◌, ltb, if◌then◌else◌,
  length, map, All, arith,
}
use open_sprite_runtime.Prelude.Result.{Exception, runtime_error}
use open_sprite_runtime.Dict.{Dict}
use open_sprite_runtime.Float.{FloatOps}
use open_sprite_runtime.Damiao.Decode.{DamiaoFeedback}
use open_sprite_runtime.RxAudit.{DamiaoRxAudit}
use open_sprite_runtime.RxAudit.Report.{
  insert, sorted, less_key, less_string, audit_passed, feedback_rate, maximum_gap, milliseconds,
  percentile_99, queue_ages, exceeds, when, motor_errors, missing_of, gathered, by_name,
  missing_motors, missing_errors, report,
}
use open_sprite_runtime.RxAudit.Rising.{Rises, IsSound}
use open_sprite_runtime.RxAudit.Setup.{Setup, setup_of}

module _ {A : Type 0} where
  append-eq-nil : (xs ys : List A) → xs ++ ys ≡ [] → (xs ≡ []) × (ys ≡ [])
  append-eq-nil [] ys h = (refl, h)
  append-eq-nil (x ∷ xs) ys h = cc

  insert-All :
      (P : A → Type 0) (less : A → A → Bool) (x : A) (xs : List A)
      → All P (insert less x xs)
      → P x × All P xs
  insert-All P less x [] h = h
  insert-All P less x (y ∷ ys) h = by_test (less y x) (insert-All P less x ys) h
    where
      by_test :
          (b : Bool)
          → (All P (insert less x ys) → P x × All P ys)
          → All P (if b then y ∷ insert less x ys else x ∷ y ∷ ys)
          → P x × All P (y ∷ ys)
      by_test true later (first, others) = let (px, rest) = later others in (px, (first, rest))
      by_test false later (px, rest) = (px, rest)

  -- What holds of every member of a sorted list holds of every member.
  sorted-All :
      (P : A → Type 0) (less : A → A → Bool) (xs : List A) → All P (sorted less xs) → All P xs
  sorted-All P less [] h = tt
  sorted-All P less (x ∷ xs) h =
      let (px, rest) = insert-All P less x (sorted less xs) h in (px, sorted-All P less xs rest)

  sorted-eq-nil : (less : A → A → Bool) (xs : List A) → sorted less xs ≡ [] → xs ≡ []
  sorted-eq-nil less [] h = refl
  sorted-eq-nil less (x ∷ xs) h =
      absurd (sorted-All (λ y. ⊥) less (x ∷ xs) (subst (All (λ y. ⊥)) (sym h) tt)).0

  pub All-both : (P Q : A → Type 0) (xs : List A) → All P xs → All Q xs → All (λ x. P x × Q x) xs
  All-both P Q [] p q = tt
  All-both P Q (x ∷ xs) (px, ps) (qx, qs) = ((px, qx), All-both P Q xs ps qs)

  pub All-map : (P Q : A → Type 0) (xs : List A) → ((x : A) → P x → Q x) → All P xs → All Q xs
  All-map P Q [] f p = tt
  All-map P Q (x ∷ xs) f (px, ps) = (f x px, All-map P Q xs f ps)

map-eq-nil : {A B : Type 0} (f : A → B) (xs : List A) → map f xs ≡ [] → xs ≡ []
map-eq-nil f [] h = refl
map-eq-nil f (x ∷ xs) h = cc

module _ (F : FloatOps) where
  gathered-eq-nil :
      {B : Type 0} (a : DamiaoRxAudit F) (f : String → List (DamiaoFeedback F) → List B)
      (d : Dict (List (DamiaoFeedback F)))
      → gathered F a f d ≡ []
      → All (λ e. f e.0 e.1 ≡ []) d
  gathered-eq-nil a f [] h = tt
  gathered-eq-nil a f ((name, samples) ∷ rest) h =
      let (first, others) = append-eq-nil (f name samples) (gathered F a f rest) h in
      (first, gathered-eq-nil a f rest others)

  when-false : (b : Bool) (message : String) → when F b message ≡ [] → b ≡ false
  when-false true message h = cc
  when-false false message h = refl

  -- The samples of a motor that an audit passes: they rise, there are enough of them, and their rate,
  -- their largest gap and their age in the queue are within the limits.
  pub record IsQualified (minimum : ℕ) (rate gap age : F.Carrier)
      (samples : List (DamiaoFeedback F)) : Type 0 where
    pub rises : Rises F samples
    pub enough : minimum ≤ length samples
    pub fast : F.ltb (feedback_rate F samples) rate ≡ false
    pub dense : F.ltb gap (milliseconds F (maximum_gap F samples)) ≡ false
    pub young : exceeds F (percentile_99 F (queue_ages F samples)) age ≡ false

  -- The samples are qualified by the limits of an audit.
  abbrev pub Qualifies : Setup F → List (DamiaoFeedback F) → Type 0
  Qualifies s =
      IsQualified s.minimum_samples_per_motor s.minimum_feedback_hz s.maximum_hardware_gap_ms
        s.maximum_userspace_queue_age_p99_ms

  qualified :
      (a : DamiaoRxAudit F) (name : String) (samples : List (DamiaoFeedback F))
      → Rises F samples
      → missing_of F a name samples ≡ []
      → motor_errors F a samples ≡ []
      → Qualifies (setup_of F a) samples
  unfolding motor_errors
  qualified a name [] r m h = cc
  qualified a name (f ∷ rest) r m h =
      let samples = f ∷ rest in
      let (h123, h4) =
        append-eq-nil _
          (when F
            (exceeds F (percentile_99 F (queue_ages F samples))
              a.maximum_userspace_queue_age_p99_ms)
            _)
          h in
      let (h12, h3) =
        append-eq-nil _
          (when F (F.ltb a.maximum_hardware_gap_ms (milliseconds F (maximum_gap F samples))) _)
          h123 in
      let (h1, h2) =
        append-eq-nil (when F (ltb (length samples) a.minimum_samples_per_motor) _) _ h12 in
      let few = when-false (ltb (length samples) a.minimum_samples_per_motor) _ h1 in
      record {
        rises = r;
        enough = ground (arith, few);
        fast = when-false (F.ltb (feedback_rate F samples) a.minimum_feedback_hz) _ h2;
        dense =
            when-false (F.ltb a.maximum_hardware_gap_ms (milliseconds F (maximum_gap F samples))) _
              h3;
        young =
            when-false
              (exceeds F (percentile_99 F (queue_ages F samples))
                a.maximum_userspace_queue_age_p99_ms)
              _ h4;
      }

  audit_passed-errors :
      (xs : List Exception) → (elim xs [ [] ↦ true | _ ∷ _ ↦ false ]) ≡ true → xs ≡ []
  audit_passed-errors [] h = refl
  audit_passed-errors (x ∷ xs) h = cc

  missing_errors-nil :
      (a : DamiaoRxAudit F) (names : List String) → missing_errors F a names ≡ [] → names ≡ []
  missing_errors-nil a [] h = refl
  missing_errors-nil a (name ∷ names) h = cc

  pub report-IsQualified :
      (a : DamiaoRxAudit F)
      → IsSound F a
      → audit_passed F (report F a) ≡ true
      → (a.unexpected_keys ≡ []) × All (λ e. Qualifies (setup_of F a) e.1) a.samples
  unfolding audit_passed report
  report-IsQualified a s h =
      let unexpected =
        map (λ key. runtime_error "unexpected CAN endpoint") (sorted less_key a.unexpected_keys) in
      let motors = gathered F a (λ name samples. motor_errors F a samples) (by_name F a) in
      let none_at_all = audit_passed-errors _ h in
      let (h123, h4) =
        append-eq-nil (a.errors ++ unexpected ++ motors) (missing_errors F a (missing_motors F a))
          none_at_all in
      let (h12, h3) = append-eq-nil (a.errors ++ unexpected) motors h123 in
      let (h1, h2) = append-eq-nil a.errors unexpected h12 in
      let less = λ (x : String × List (DamiaoFeedback F)) (y : String × List (DamiaoFeedback F)).
        less_string x.0 y.0 in
      let present =
        sorted-All (λ e. missing_of F a e.0 e.1 ≡ []) less a.samples
          (gathered-eq-nil a (missing_of F a) (by_name F a)
            (missing_errors-nil a (missing_motors F a) h4)) in
      let faultless =
        sorted-All (λ e. motor_errors F a e.1 ≡ []) less a.samples
          (gathered-eq-nil a (λ name samples. motor_errors F a samples) (by_name F a) h3) in
      (
        sorted-eq-nil less_key a.unexpected_keys
            (map-eq-nil _ (sorted less_key a.unexpected_keys) h2),
        All-map _ (λ e. Qualifies (setup_of F a) e.1) a.samples
            (λ e all_three. qualified a e.0 e.1 all_three.0 all_three.1.0 all_three.1.1)
            (All-both (λ e. Rises F e.1) _ a.samples (s.rising h1)
              (All-both (λ e. missing_of F a e.0 e.1 ≡ []) (λ e. motor_errors F a e.1 ≡ [])
                a.samples present faultless)),
      )
