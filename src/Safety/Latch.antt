-- ===== src/Safety/Latch.antt =====
-- Latched faults over any sequence of evaluations and clears.
use open_sprite_runtime.Prelude.{
  ◌≡◌, refl, sym, ap, ◌∙◌, Bool, true, false, not, ◌&&◌, ◌||◌, inl, inr, List, [], ◌∷◌, All,
  Bool-cases, arith,
}
use open_sprite_runtime.Prelude.Result.{Result, ok, err}
use open_sprite_runtime.Float.{FloatOps}
use open_sprite_runtime.Safety.{
  Blocker, BlockerSet, latching, SafetyInputs, SafetyDecision, SafetySupervisor, failing,
  clear_latched_faults, evaluate,
}
use open_sprite_runtime.Safety.Gate.{evaluate-eq-ok, evaluate-permitted_iff}

module _ (F : FloatOps) where
  -- One call of a supervisor: an evaluation, which changes nothing if it raises, or a clear.
  pub data Call : Type 0 where
    evaluates : SafetyInputs F → Call
    clears : BlockerSet → Call

  abbrev after :
      SafetySupervisor F → Result (SafetyDecision F × SafetySupervisor F) → SafetySupervisor F
  after s (ok (d, s')) = s'
  after s (err e) = s

  unfoldable pub call : SafetySupervisor F → Call → SafetySupervisor F
  call s (evaluates i) = after s (evaluate F i s)
  call s (clears healthy) = clear_latched_faults F healthy s

  unfoldable pub calls : SafetySupervisor F → List Call → SafetySupervisor F
  calls s [] = s
  calls s (c ∷ cs) = calls (call s c) cs

  -- No call clears this fault.
  abbrev pub Keeps : Blocker → Call → Type 0
  Keeps f (evaluates i) = Unit
  Keeps f (clears healthy) = healthy f ≡ false

  after-latched :
      (f : Blocker) (i : SafetyInputs F) (s : SafetySupervisor F)
      (r : Result (SafetyDecision F × SafetySupervisor F))
      → evaluate F i s ≡ r
      → s.latched f ≡ true
      → (after s r).latched f ≡ true
  after-latched f i s (err e) same h = h
  after-latched f i s (ok (d, s')) same h =
      let (_, _, decided) = evaluate-eq-ok F i s same in ap (λ r. r.1.latched f) decided ∙ rw h

  call-latched :
      (f : Blocker) (s : SafetySupervisor F) (c : Call)
      → Keeps f c
      → s.latched f ≡ true
      → (call s c).latched f ≡ true
  unfolding call clear_latched_faults
  call-latched f s (evaluates i) k h = after-latched f i s (evaluate F i s) refl h
  call-latched f s (clears healthy) k h = rw (h, k)

  calls-latched :
      (f : Blocker) (s : SafetySupervisor F) (cs : List Call)
      → All (Keeps f) cs
      → s.latched f ≡ true
      → (calls s cs).latched f ≡ true
  unfolding calls
  calls-latched f s [] k h = h
  calls-latched f s (c ∷ cs) (k, ks) h = calls-latched f (call s c) cs ks (call-latched f s c k h)

  -- After an evaluation in which a latching fault failed, no later evaluation permits transmission,
  -- through any sequence of evaluations and clears none of which names that fault as healthy, even
  -- if every check is ready again.
  pub latched-blocks :
      (f : Blocker) (s s1 s2 : SafetySupervisor F) (bad later : SafetyInputs F)
      (d1 d2 : SafetyDecision F) (cs : List Call)
      → latching f ≡ true
      → failing F s.limits bad f ≡ true
      → evaluate F bad s ≡ ok (d1, s1)
      → All (Keeps f) cs
      → evaluate F later (calls s1 cs) ≡ ok (d2, s2)
      → d2.hardware_tx_permitted ≡ false
  latched-blocks f s s1 s2 bad later d1 d2 cs lf fails e1 k e2 =
      let (_, _, decided) = evaluate-eq-ok F bad s e1 in
      let latched : s1.latched f ≡ true =
        ap (λ r. r.1.latched f) decided ∙ set (s.latched f) fails in
      elim (Bool-cases d2.hardware_tx_permitted) [
        | inr no_tx ↦ no_tx
        | inl tx ↦ cc (
          calls-latched f s1 cs k latched,
          ((evaluate-permitted_iff F later (calls s1 cs) s2 d2 e2).0 tx).none_latched f,
        )
      ]
    where
      set :
          (old : Bool)
          → failing F s.limits bad f ≡ true
          → (old || (failing F s.limits bad f && latching f)) ≡ true
      set true h = refl
      set false h = rw (h, lf)

  -- Only latching faults are ever latched.
  abbrev pub OnlyLatching : SafetySupervisor F → Type 0
  OnlyLatching s = (b : Blocker) → s.latched b ≡ true → latching b ≡ true

  call-OnlyLatching : (s : SafetySupervisor F) (c : Call) → OnlyLatching s → OnlyLatching (call s c)
  unfolding call clear_latched_faults
  call-OnlyLatching s (clears healthy) h b l = h b (ground arith)
  call-OnlyLatching s (evaluates i) h b l = by_result (evaluate F i s) refl l
    where
      by_result :
          (r : Result (SafetyDecision F × SafetySupervisor F))
          → evaluate F i s ≡ r
          → (after s r).latched b ≡ true
          → latching b ≡ true
      by_result (err e) same l = h b l
      by_result (ok (d, s')) same l =
          let (_, _, decided) = evaluate-eq-ok F i s same in
          split_or (s.latched b) (failing F s.limits i b) refl
            (sym (ap (λ r. r.1.latched b) decided) ∙ l)
        where
          split_or :
              (old dyn : Bool)
              → s.latched b ≡ old
              → (old || (dyn && latching b)) ≡ true
              → latching b ≡ true
          split_or old dyn e l = ground (arith, h b)

  pub calls-OnlyLatching :
      (s : SafetySupervisor F) (cs : List Call) → OnlyLatching s → OnlyLatching (calls s cs)
  unfolding calls
  calls-OnlyLatching s [] h = h
  calls-OnlyLatching s (c ∷ cs) h = calls-OnlyLatching (call s c) cs (call-OnlyLatching s c h)

  -- A supervisor that began with no fault latched, after any calls: a clear takes away exactly the
  -- faults that it names, and leaves the other latched faults as they were.
  pub clear-calls :
      (s : SafetySupervisor F) (cs : List Call) (healthy : BlockerSet) (b : Blocker)
      → ((f : Blocker) → s.latched f ≡ false)
      → (clear_latched_faults F healthy (calls s cs)).latched b
        ≡ ((calls s cs).latched b && not (healthy b))
  unfolding clear_latched_faults
  clear-calls s cs healthy b fresh =
      exact ((calls s cs).latched b) (calls-OnlyLatching s cs (λ f l. cc (fresh f, l)) b)
    where
      exact :
          (l : Bool)
          → (l ≡ true → latching b ≡ true)
          → (l && not (healthy b && latching b)) ≡ (l && not (healthy b))
      exact false only = refl
      exact true only = rw (only refl) (drop_true (healthy b))
        where
          drop_true : (h : Bool) → not (h && true) ≡ not h
          drop_true true = refl
          drop_true false = refl
