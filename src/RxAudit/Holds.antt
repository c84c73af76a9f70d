-- ===== src/RxAudit/Holds.antt =====
-- Dictionaries of lists: what a name holds, before and after a value is put in front of a list.
use text.Mathlib.Text.{◌==◌ as str_eq}
use open_sprite_runtime.Prelude.{
  ◌≡◌, refl, sym, subst, true, false, inl, inr, String, some, List, [], ◌∷◌, if◌then◌else◌, Member,
  Bool-cases,
}
use open_sprite_runtime.Dict.{Dict, adjust}
use open_sprite_runtime.SocketCan.MitWriter.{get}

module _ {A : Type 0} where
  -- A member of the list of a name.
  abbrev pub Holds : Dict (List A) → String → A → Type 0
  Holds d name x = (xs : List A) × (get d name ≡ some xs) × Member x xs

  Holds-first :
      (k : String) (xs : List A) (rest : Dict (List A)) (name : String) (x : A)
      → str_eq k name ≡ true
      → Holds ((k, xs) ∷ rest) name x
      → Member x xs
  unfolding get
  Holds-first k xs rest name x here (ys, found, h) =
      subst (Member x)
        (sym (some_eq (subst (λ b. (if b then some xs else get rest name) ≡ some ys) here found))) h
    where
      some_eq : {ys : List A} → some xs ≡ some ys → xs ≡ ys
      some_eq e = cc

  Holds-later :
      (k : String) (xs : List A) (rest : Dict (List A)) (name : String) (x : A)
      → str_eq k name ≡ false
      → Holds ((k, xs) ∷ rest) name x
      → Holds rest name x
  unfolding get
  Holds-later k xs rest name x there (ys, found, h) =
      (ys, subst (λ b. (if b then some xs else get rest name) ≡ some ys) there found, h)

  first-Holds :
      (k : String) (xs : List A) (rest : Dict (List A)) (name : String) (x : A)
      → str_eq k name ≡ true
      → Member x xs
      → Holds ((k, xs) ∷ rest) name x
  unfolding get
  first-Holds k xs rest name x here h = rw here (xs, refl, h)

  later-Holds :
      (k : String) (xs : List A) (rest : Dict (List A)) (name : String) (x : A)
      → str_eq k name ≡ false
      → Holds rest name x
      → Holds ((k, xs) ∷ rest) name x
  unfolding get
  later-Holds k xs rest name x there h = rw there h

  -- A name that is found holds what is put in front of its list.
  pub adjust-Holds :
      (x : A) (d : Dict (List A)) (name : String) {old : List A}
      → get d name ≡ some old
      → Holds (adjust (λ xs. x ∷ xs) d name) name x
  unfolding adjust get
  adjust-Holds x [] name h = cc
  adjust-Holds x ((k, xs) ∷ rest) name {old} h = elim (Bool-cases (str_eq k name)) [
    | inl here ↦ rw here (first-Holds k (x ∷ xs) rest name x here (inl refl))
    | inr there ↦
        let found = subst (λ b. (if b then some xs else get rest name) ≡ some old) there h in
        rw there (
          later-Holds k xs (adjust (λ zs. x ∷ zs) rest name) name x there
            (adjust-Holds x rest name found))
  ]

  -- What a name holds is still there when another value is put in.
  pub adjust-keeps-Holds :
      (x : A) (d : Dict (List A)) (name other : String) (y : A)
      → Holds d other y
      → Holds (adjust (λ xs. x ∷ xs) d name) other y
  unfolding adjust
  adjust-keeps-Holds x [] name other y h = h
  adjust-keeps-Holds x ((k, xs) ∷ rest) name other y h = elim (Bool-cases (str_eq k name)) [
    | inl changed ↦ elim (Bool-cases (str_eq k other)) [
      | inl here ↦
          rw changed
            (first-Holds k (x ∷ xs) rest other y here (inr (Holds-first k xs rest other y here h)))
      | inr there ↦
          rw changed
            (later-Holds k (x ∷ xs) rest other y there (Holds-later k xs rest other y there h))
    ]
    | inr same ↦ elim (Bool-cases (str_eq k other)) [
      | inl here ↦ rw same (
          first-Holds k xs (adjust (λ zs. x ∷ zs) rest name) other y here
            (Holds-first k xs rest other y here h))
      | inr there ↦ rw same (
          later-Holds k xs (adjust (λ zs. x ∷ zs) rest name) other y there
            (adjust-keeps-Holds x rest name other y (Holds-later k xs rest other y there h)))
    ]
  ]
