-- ===== src/Yahboom/Seek.antt =====
-- Where the stream decoder finds the next header, as a recursion on the buffer.
use open_sprite_runtime.Prelude.{
  ℕ, zero, suc, ◌≤◌, ◌≡◌, refl, ◌&&◌, none, some, [], ◌∷◌, ◌++◌, ◌==◌, if◌then◌else◌, length, drop,
  arith,
}
use open_sprite_runtime.Bytes.{Bytes}
use open_sprite_runtime.Yahboom.{header_0, header_1, find_header, keep_tail}

-- The buffer from its first header on, or a last byte that may begin one.
unfoldable pub seek : Bytes → Bytes
seek [] = []
seek (a ∷ []) = if a == header_0 then a ∷ [] else []
seek (a ∷ b ∷ bs) =
    let rest = seek (b ∷ bs) in if a == header_0 && b == header_1 then a ∷ b ∷ bs else rest

pub seek-keep_tail : (bs : Bytes) → find_header bs ≡ none → seek bs ≡ keep_tail bs
unfolding seek find_header
seek-keep_tail [] h = refl
seek-keep_tail (a ∷ []) h = refl
seek-keep_tail (a ∷ b ∷ bs) h = ground (arith, seek-keep_tail (b ∷ bs))

pub seek-drop : (bs : Bytes) (i : ℕ) → find_header bs ≡ some i → seek bs ≡ drop i bs
unfolding seek find_header
seek-drop [] i h = ground arith
seek-drop (a ∷ []) i h = ground arith
seek-drop (a ∷ b ∷ bs) zero h = ground arith
seek-drop (a ∷ b ∷ bs) (suc i) h = ground (arith, seek-drop (b ∷ bs) i)

pub length-keep_tail : (bs : Bytes) → length (keep_tail bs) ≤ 1
length-keep_tail [] = omega arith
length-keep_tail (a ∷ []) = ground arith
length-keep_tail (a ∷ b ∷ bs) = length-keep_tail (b ∷ bs)

pub length-seek-le : (bs : Bytes) → length (seek bs) ≤ length bs
unfolding seek
length-seek-le [] = omega arith
length-seek-le (a ∷ []) = ground arith
length-seek-le (a ∷ b ∷ bs) = ground (arith, length-seek-le (b ∷ bs))

-- Bytes that arrive later do not change what was skipped.
pub seek-append : (xs ys : Bytes) → seek (xs ++ ys) ≡ seek (seek xs ++ ys)
unfolding seek
seek-append [] ys = refl
seek-append (a ∷ []) [] = ground arith
seek-append (a ∷ []) (b ∷ ys) = ground arith
seek-append (a ∷ b ∷ xs) ys = ground (arith, seek-append (b ∷ xs) ys)

-- A buffer of two bytes or more that was sought begins with a header, and stays as it is.
pub seek-append_long : (xs ys : Bytes) → 2 ≤ length (seek xs) → seek (seek xs ++ ys) ≡ seek xs ++ ys
unfolding seek
seek-append_long [] ys h = absurd (omega arith)
seek-append_long (a ∷ []) ys h = ground arith
seek-append_long (a ∷ b ∷ xs) ys h = ground (arith, seek-append_long (b ∷ xs) ys)
