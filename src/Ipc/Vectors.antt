-- ===== src/Ipc/Vectors.antt =====
-- The 31-vectors of a packet: what `_vector` accepts, and its doubles as struct fields.
use open_sprite_runtime.Prelude.{
  ℕ, zero, suc, ◌+◌, ◌≡◌, refl, ap, ap₂, sym, ◌∙◌, true, ◌&&◌, List, [], ◌∷◌, ◌++◌, ==_iff, ◌==◌,
  length, take, drop, replicate, map, all, All, &&-true, take-append_all, drop-append_all,
  append-nil, arith,
}
use open_sprite_runtime.Prelude.Result.{ok, require-eq-ok}
use open_sprite_runtime.Bytes.{le_bytes, le_value, length-le_bytes, le_value-le_bytes}
use open_sprite_runtime.Bytes.Struct.{Widths}
use open_sprite_runtime.Ipc.{Double, IsDouble, is_finite, joint_count, vector}

-- A 31-vector of finite doubles.
pub record IsVector (vs : List Double) : Type 0 where
  pub count : length vs ≡ 31
  pub finite : all is_finite vs ≡ true

pub vector-eq-ok :
    (vs : List Double) {ws : List Double} → vector vs ≡ ok ws → IsVector vs × (ws ≡ vs)
unfolding vector
vector-eq-ok vs h =
    let (test, same) = require-eq-ok (length vs == joint_count && all is_finite vs) _ (ok vs) h in
    let (n, f) = &&-true (length vs == joint_count) (all is_finite vs) test in
    (record { count = (==_iff (length vs) 31).0 n; finite = f }, cc)

pub vector-IsVector : (vs : List Double) → IsVector vs → vector vs ≡ ok vs
unfolding vector
vector-IsVector vs v = rw (v.finite, (==_iff (length vs) 31).1 v.count)

pub map-le_value-le_bytes :
    (vs : List Double) → All IsDouble vs → map le_value (map (le_bytes 8) vs) ≡ vs
map-le_value-le_bytes [] h = refl
map-le_value-le_bytes (v ∷ vs) h =
    ap₂ ◌∷◌ (le_value-le_bytes 8 v (omega arith)) (map-le_value-le_bytes vs h.1)

pub Widths-doubles :
    (n : ℕ) (vs : List Double) → length vs ≡ n → Widths (replicate n 8) (map (le_bytes 8) vs)
Widths-doubles zero [] h = tt
Widths-doubles zero (v ∷ vs) h = absurd (omega arith)
Widths-doubles (suc n) [] h = absurd (omega arith)
Widths-doubles (suc n) (v ∷ vs) h = (length-le_bytes 8 v, Widths-doubles n vs (omega arith))

pub All-append : (xs ys : List Double) → All IsDouble xs → All IsDouble ys → All IsDouble (xs ++ ys)
All-append [] ys h k = k
All-append (x ∷ xs) ys h k = (h.0, All-append xs ys h.1 k)

-- A vector in front is cut off whole.
pub take_first : (xs ys : List Double) → length xs ≡ 31 → take 31 (xs ++ ys) ≡ xs
take_first xs ys h = rw (sym h) (take-append_all xs ys)

pub drop_first : (xs ys : List Double) → length xs ≡ 31 → drop 31 (xs ++ ys) ≡ ys
drop_first xs ys h = rw (sym h) (drop-append_all xs ys)

pub drop-drop : (a b : ℕ) (xs : List Double) → drop (a + b) xs ≡ drop b (drop a xs)
drop-drop zero b xs = rw (zero_plus b)
  where
    zero_plus : (k : ℕ) → zero + k ≡ k
    zero_plus k = omega arith
drop-drop (suc a) zero [] = rw (plus_zero a)
  where
    plus_zero : (k : ℕ) → suc k + zero ≡ suc k
    plus_zero k = omega arith
drop-drop (suc a) (suc b) [] = rw (plus_suc a b)
  where
    plus_suc : (k l : ℕ) → suc k + suc l ≡ suc (k + suc l)
    plus_suc k l = omega arith
drop-drop (suc a) b (x ∷ xs) = rw (suc_plus a b) (drop-drop a b xs)
  where
    suc_plus : (k l : ℕ) → suc k + l ≡ suc (k + l)
    suc_plus k l = omega arith

pub take_all : (xs : List Double) → length xs ≡ 31 → take 31 xs ≡ xs
take_all xs h = ap (take 31) (sym (append-nil xs)) ∙ take_first xs [] h
