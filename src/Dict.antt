-- ===== src/Dict.antt =====
-- Python's dictionaries with keys of strings, in the order of insertion.
use text.Mathlib.Text.{◌==◌ as str_eq}
use open_sprite_runtime.Prelude.{
  Bool, ◌&&◌, String, Option, none, some, List, [], ◌∷◌, any, all, if◌then◌else◌,
}
use open_sprite_runtime.Prelude.Result.{Result, ok, err, key_error}
use open_sprite_runtime.SocketCan.MitWriter.{get}

abbrev pub Dict {ℓ} : Type ℓ → Type ℓ
Dict V = List (String × V)

module _ {ℓ} {V : Type ℓ} where
  -- `d[name] = v`
  unfoldable pub set : Dict V → String → V → Dict V
  set [] name v = (name, v) ∷ []
  set ((k, old) ∷ rest) name v =
      let later = set rest name v in if str_eq k name then (k, v) ∷ rest else (k, old) ∷ later

  -- `d[name] = f(d[name])`; a name that is not there raises KeyError, which no caller reaches.
  unfoldable pub adjust : (V → V) → Dict V → String → Dict V
  adjust f [] name = []
  adjust f ((k, v) ∷ rest) name =
      let later = adjust f rest name in if str_eq k name then (k, f v) ∷ rest else (k, v) ∷ later

  -- `d[name]`
  unfoldable pub item : Dict V → String → Result V
  unfolding get
  item d name = found (get d name)
    where
      found : Option V → Result V
      found none = err (key_error "")
      found (some v) = ok v

  abbrev pub has : String → Dict V → Bool
  has name = any (λ e. str_eq e.0 name)

  -- `set(d) == set(names)`
  abbrev pub covers : Dict V → List String → Bool
  covers d names = all (λ e. any (str_eq e.0) names) d && all (λ name. has name d) names
