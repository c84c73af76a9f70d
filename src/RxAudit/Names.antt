-- ===== src/RxAudit/Names.antt =====
-- Dictionaries: the names, and what holds of the entries, when one is set or changed.
use text.Mathlib.Text.{◌==◌ as str_eq}
use text.Mathlib.TextEquality.{eq_iff}
use open_sprite_runtime.Prelude.{
  ◌≡◌, refl, sym, ap, subst, ◌∙◌, true, false, inl, inr, String, some, List, [], ◌∷◌, All, Member,
  Bool-cases, ◌++◌,
}
use open_sprite_runtime.Dict.{Dict, set, adjust}
use open_sprite_runtime.SocketCan.MitWriter.{get}

abbrev pub names {ℓ} : {V : Type ℓ} → Dict V → List String
names [] = []
names ((k, v) ∷ rest) = k ∷ names rest

not_itself : (k name : String) → name ≡ k → str_eq k name ≡ false → ⊥
not_itself k name same there = true≢false (sym ((eq_iff k name).1 (sym same)) ∙ there)
  where
    true≢false : true ≡ false → ⊥
    true≢false e = cc

module _ {A : Type 0} where
  pub names-adjust : (f : A → A) (d : Dict A) (name : String) → names (adjust f d name) ≡ names d
  unfolding adjust
  names-adjust f [] name = refl
  names-adjust f ((k, v) ∷ rest) name = elim (Bool-cases (str_eq k name)) [
    | inl here ↦ rw here refl
    | inr there ↦ rw there (ap (λ ks. k ∷ ks) (names-adjust f rest name))
  ]

  -- What holds of every entry holds after one is changed, if it holds of the changed one.
  pub All-adjust_entries :
      (P : String → A → Type 0) (f : A → A) (d : Dict A) (name : String)
      → ((v : A) → P name v → P name (f v))
      → All (λ e. P e.0 e.1) d
      → All (λ e. P e.0 e.1) (adjust f d name)
  unfolding adjust
  All-adjust_entries P f [] name step h = tt
  All-adjust_entries P f ((k, v) ∷ rest) name step (first, others) =
      elim (Bool-cases (str_eq k name)) [
        | inl here ↦
            let same = (eq_iff k name).0 here in
            rw here
              (subst (λ n. P n (f v)) (sym same) (step v (subst (λ n. P n v) same first)), others)
        | inr there ↦ rw there (first, All-adjust_entries P f rest name step others)
      ]

  pub set-Member : (d : Dict A) (name : String) (v : A) → Member name (names (set d name v))
  unfolding set
  set-Member [] name v = inl refl
  set-Member ((k, old) ∷ rest) name v = elim (Bool-cases (str_eq k name)) [
    | inl here ↦ rw here (inl (sym ((eq_iff k name).0 here)))
    | inr there ↦ rw there (inr (set-Member rest name v))
  ]

  pub set-keeps-Member :
      (d : Dict A) (name other : String) (v : A)
      → Member other (names d)
      → Member other (names (set d name v))
  unfolding set
  set-keeps-Member [] name other v h = absurd h
  set-keeps-Member ((k, old) ∷ rest) name other v h = elim (Bool-cases (str_eq k name)) [
    | inl here ↦ rw here h
    | inr there ↦ rw there (elim h [
      | inl first ↦ inl first
      | inr later ↦ inr (set-keeps-Member rest name other v later)
    ])
  ]

  -- A name of a dictionary is found, with what holds of its entry.
  pub get-All :
      (P : String → A → Type 0) (d : Dict A) (name : String)
      → All (λ e. P e.0 e.1) d
      → Member name (names d)
      → (v : A) × (get d name ≡ some v) × P name v
  unfolding get
  get-All P [] name _ h = absurd h
  get-All P ((k, v) ∷ rest) name (first, others) h = elim (Bool-cases (str_eq k name)) [
    | inl here ↦ rw here (v, refl, subst (λ n. P n v) ((eq_iff k name).0 here) first)
    | inr there ↦ rw there (elim h [
      | inl same ↦ absurd (not_itself k name same there)
      | inr later ↦ get-All P rest name others later
    ])
  ]

pub Member-append :
    {A : Type 0} (front : List A) (x : A) (rest : List A) → Member x (front ++ x ∷ rest)
Member-append [] x rest = inl refl
Member-append (y ∷ front) x rest = inr (Member-append front x rest)
