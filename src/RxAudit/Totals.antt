-- ===== src/RxAudit/Totals.antt =====
-- Dictionaries of lists: how many values they hold, and what holds of their lists, when a value is put
-- in front of one.
use text.Mathlib.Text.{◌==◌ as str_eq}
use open_sprite_runtime.Prelude.{
  ℕ, suc, ◌+◌, ◌≡◌, sym, subst, Bool, true, false, inl, inr, String, Option, some, List, [], ◌∷◌,
  if◌then◌else◌, length, All, Bool-cases, Option-cases, arith,
}
use open_sprite_runtime.Prelude.Result.{ok}
use open_sprite_runtime.Dict.{Dict, adjust, item}
use open_sprite_runtime.SocketCan.MitWriter.{get}

module _ {A : Type 0} where
  -- How many values the lists of a dictionary hold.
  unfoldable pub total : Dict (List A) → ℕ
  total [] = 0
  total ((k, xs) ∷ rest) = length xs + total rest

  pub total-adjust :
      (x : A) (d : Dict (List A)) (name : String) {old : List A}
      → get d name ≡ some old
      → total (adjust (λ xs. x ∷ xs) d name) ≡ suc (total d)
  unfolding total adjust get
  total-adjust x [] name h = cc
  total-adjust x ((k, xs) ∷ rest) name h = elim (Bool-cases (str_eq k name)) [
    | inl here ↦ rw here (omega arith)
    | inr there ↦ rw there (omega (arith, total-adjust x rest name (elsewhere there h)))
  ]
    where
      elsewhere :
          {b : Bool} {o : Option (List A)} {old : List A}
          → b ≡ false
          → (if b then some xs else o) ≡ some old
          → o ≡ some old
      elsewhere {b} {o} {old} e g = subst (λ c. (if c then some xs else o) ≡ some old) e g

  pub All-adjust :
      (P : List A → Type 0) (x : A) (d : Dict (List A)) (name : String) {old : List A}
      → get d name ≡ some old
      → (P old → P (x ∷ old))
      → All (λ e. P e.1) d
      → All (λ e. P e.1) (adjust (λ xs. x ∷ xs) d name)
  unfolding adjust get
  All-adjust P x [] name h step all_old = all_old
  All-adjust P x ((k, xs) ∷ rest) name {old} h step (first, others) =
      by_test (str_eq k name) (All-adjust P x rest name) h
    where
      some_eq : some xs ≡ some old → xs ≡ old
      some_eq e = cc

      by_test :
          (b : Bool)
          → (get rest name ≡ some old
              → (P old → P (x ∷ old))
              → All (λ e. P e.1) rest
              → All (λ e. P e.1) (adjust (λ ys. x ∷ ys) rest name))
          → (if b then some xs else get rest name) ≡ some old
          → All
              (λ e. P e.1)
              (if b then (k, x ∷ xs) ∷ rest else (k, xs) ∷ adjust (λ ys. x ∷ ys) rest name)
      by_test true later g =
          (subst (λ ys. P (x ∷ ys)) (sym (some_eq g)) (step (subst P (some_eq g) first)), others)
      by_test false later g = (first, later g step others)

  pub item-eq-ok :
      (d : Dict (List A)) (name : String) {old : List A}
      → item d name ≡ ok old
      → get d name ≡ some old
  unfolding item
  item-eq-ok d name h = elim (Option-cases (get d name)) [ inl missing ↦ cc | inr (v, found) ↦ cc ]
