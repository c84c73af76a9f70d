-- ===== src/Prelude/Action.antt =====
-- A method of an object: it takes the state, and it returns or raises. The state comes back after a
-- raise too, since what was written stays written.
use open_sprite_runtime.Prelude.{◌≡◌, refl}
use open_sprite_runtime.Prelude.Result.{Exception, Result, ok, err}

abbrev pub Action {ℓ} : Type 0 → Type ℓ → Type ℓ
Action S A = S → Result A × S

module _ {S : Type 0} where
  abbrev pub pure {ℓ} : {A : Type ℓ} → A → Action S A
  pure a s = (ok a, s)

  -- A computation that reads no state.
  abbrev pub lift {ℓ} : {A : Type ℓ} → Result A → Action S A
  lift r s = (r, s)

  abbrev pub modify : (S → S) → Action S (Unit {0})
  modify f s = (ok tt, f s)

  -- A computation that reads the state.
  abbrev pub reads {ℓ} : {A : Type ℓ} → (S → Result A) → Action S A
  reads f s = (f s, s)

  abbrev pub bound {ℓ κ} :
      {A : Type ℓ} {B : Type κ} → (A → Action S B) → Result A × S → Result B × S
  bound f (ok a, s) = f a s
  bound f (err x, s) = (err x, s)

  infixl 5 ◌>>=◌ ◌>>◌
  abbrev pub ◌>>=◌ {ℓ κ} : {A : Type ℓ} {B : Type κ} → Action S A → (A → Action S B) → Action S B
  ◌>>=◌ m f s = bound f (m s)

  abbrev pub ◌>>◌ {ℓ} : {B : Type ℓ} → Action S (Unit {0}) → Action S B → Action S B
  m >> k = m >>= λ done. k

  -- `R` where the action returned, `Q` where it raised.
  abbrev pub After {ℓ} : {A : Type ℓ} → (R Q : S → Type 0) → Result A × S → Type 0
  After R Q (ok a, s) = R s
  After R Q (err x, s) = Q s

  pub After-always {ℓ} :
      {A : Type ℓ} (R Q : S → Type 0) (r : Result A) (s : S) → R s → Q s → After R Q (r, s)
  After-always R Q (ok a) s h k = h
  After-always R Q (err x) s h k = k

  -- From a state of which `P` holds, the action returns in one of which `R` holds, or raises in one
  -- of which `Q` holds.
  pub record Leads {ℓ} {A : Type ℓ} (P R Q : S → Type 0) (m : Action S A) : Type 0 where
    pub leads : (s : S) → P s → After R Q (m s)

  module _ {M R Q : S → Type 0} where
    bound-After {ℓ κ} :
        {A : Type ℓ} {B : Type κ} (f : A → Action S B) (r : Result A × S)
        → After M Q r
        → ((a : A) → Leads M R Q (f a))
        → After R Q (bound f r)
    bound-After f (ok a, s) h k = (k a).leads s h
    bound-After f (err x, s) h k = h

  module _ {P M R Q : S → Type 0} where
    pub >>=-Leads {ℓ κ} :
        {A : Type ℓ} {B : Type κ} (m : Action S A) (f : A → Action S B)
        → Leads P M Q m
        → ((a : A) → Leads M R Q (f a))
        → Leads P R Q (m >>= f)
    >>=-Leads m f h k = record { leads = λ s p. bound-After f (m s) (h.leads s p) k }

    pub modify-Leads {ℓ} :
        {B : Type ℓ} (g : S → S) (k : Action S B)
        → ((s : S) → P s → M (g s))
        → Leads M R Q k
        → Leads P R Q (modify g >> k)
    modify-Leads g k keep h = record { leads = λ s p. h.leads (g s) (keep s p) }

  module _ {P R Q : S → Type 0} where
    -- What a computation returned is known behind it.
    pub lift-Leads {ℓ κ} :
        {A : Type ℓ} {B : Type κ} (r : Result A) (f : A → Action S B)
        → ((s : S) → P s → Q s)
        → ((a : A) → r ≡ ok a → Leads P R Q (f a))
        → Leads P R Q (lift r >>= f)
    lift-Leads (ok a) f weaken k = record { leads = λ s p. (k a refl).leads s p }
    lift-Leads (err x) f weaken k = record { leads = λ s p. weaken s p }

    -- A computation at the end.
    pub last-Leads {ℓ} :
        {A : Type ℓ} (r : Result A)
        → ((s : S) → P s → Q s)
        → ((a : A) → r ≡ ok a → (s : S) → P s → R s)
        → Leads P R Q (lift r)
    last-Leads (ok a) weaken k = record { leads = λ s p. k a refl s p }
    last-Leads (err x) weaken k = record { leads = λ s p. weaken s p }

    -- What a computation read is not used.
    pub reads-Leads {ℓ κ} :
        {A : Type ℓ} {B : Type κ} (r : S → Result A) (f : A → Action S B)
        → ((s : S) → P s → Q s)
        → ((a : A) → Leads P R Q (f a))
        → Leads P R Q (reads r >>= f)
    reads-Leads r f weaken k = record {
      leads = λ s p. (lift-Leads (r s) f weaken (λ a e. k a)).leads s p;
    }

    pub last_modify-Leads : (g : S → S) → ((s : S) → P s → R (g s)) → Leads P R Q (modify g)
    last_modify-Leads g h = record { leads = λ s p. h s p }

    pub pure-Leads {ℓ} : {A : Type ℓ} (a : A) → ((s : S) → P s → R s) → Leads P R Q (pure a)
    pure-Leads a h = record { leads = λ s p. h s p }

  -- What holds of the outcomes of the last action, and where an exception skips it.
  module _ {ℓ κ} {A : Type ℓ} {B : Type κ} (E : Result B × S → Type 0) where
    bound-last :
        (f : A → Action S B) (r : Result A × S)
        → ((x : Exception) (s : S) → E (err x, s))
        → ((a : A) (s : S) → E (f a s))
        → E (bound f r)
    bound-last f (ok a, s) skip h = h a s
    bound-last f (err x, s) skip h = skip x s

    pub >>=-last :
        (m : Action S A) (f : A → Action S B)
        → ((x : Exception) (s : S) → E (err x, s))
        → ((a : A) (s : S) → E (f a s))
        → (s : S) → E ((m >>= f) s)
    >>=-last m f skip h s = bound-last f (m s) skip h
