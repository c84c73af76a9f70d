-- ===== src/Bytes/Struct.antt =====
-- `struct.Struct` as a list of field widths: packing joins the fields, unpacking splits them off.
use open_sprite_runtime.Prelude.{
  ℕ, ◌+◌, ◌≡◌, refl, sym, List, [], ◌∷◌, ◌++◌, length, take, drop, length-append, length-drop,
  take-append_all, drop-append_all, take-append-drop, arith,
}
use open_sprite_runtime.Bytes.{Bytes}

-- The width in bytes of a format.
abbrev pub total : List ℕ → ℕ
total [] = 0
total (w ∷ ws) = w + total ws

unfoldable pub join : List Bytes → Bytes
join [] = []
join (f ∷ fs) = f ++ join fs

unfoldable pub split : List ℕ → Bytes → List Bytes
split [] bs = []
split (w ∷ ws) bs = take w bs ∷ split ws (drop w bs)

-- The fields have the widths of the format.
abbrev pub Widths : List ℕ → List Bytes → Type 0
Widths [] [] = Unit {0}
Widths (w ∷ ws) (f ∷ fs) = (length f ≡ w) × Widths ws fs
Widths _ _ = ⊥

pub split-join : (ws : List ℕ) (fs : List Bytes) → Widths ws fs → split ws (join fs) ≡ fs
unfolding split join
split-join [] [] h = refl
split-join (w ∷ ws) (f ∷ fs) h =
    rw (sym h.0)
      (rw (take-append_all f (join fs), drop-append_all f (join fs), split-join ws fs h.1))
split-join [] (f ∷ fs) h = elim h [ ]
split-join (w ∷ ws) [] h = elim h [ ]

pub join-split : (ws : List ℕ) (bs : Bytes) → length bs ≡ total ws → join (split ws bs) ≡ bs
unfolding split join
join-split [] [] h = refl
join-split [] (b ∷ bs) h = absurd (omega arith)
join-split (w ∷ ws) bs h =
    rw (join-split ws (drop w bs) (omega (arith, length-drop w bs))) (take-append-drop w bs)

pub length-join : (ws : List ℕ) (fs : List Bytes) → Widths ws fs → length (join fs) ≡ total ws
unfolding join
length-join [] [] h = refl
length-join (w ∷ ws) (f ∷ fs) h =
    omega (arith, h.0, length-append f (join fs), length-join ws fs h.1)
length-join [] (f ∷ fs) h = elim h [ ]
length-join (w ∷ ws) [] h = elim h [ ]
