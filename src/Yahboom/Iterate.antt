-- ===== src/Yahboom/Iterate.antt =====
-- One round of the stream decoder's loop, on a buffer and on that buffer with more bytes behind.
use open_sprite_runtime.Prelude.{
  ℕ, zero, suc, ◌≤◌, ◌<◌, ◌≡◌, refl, sym, ap, ◌∙◌, inl, inr, [], ◌∷◌, ◌++◌, length, get_or,
  Option-cases, take-append_le, drop-append_le, length-append, length-drop, arith,
}
use open_sprite_runtime.Bytes.{Bytes}
use open_sprite_runtime.Float.{FloatOps}
use open_sprite_runtime.Yahboom.{
  byte_at, find_header, keep_tail, YahboomPacket, stop, reject, accept, at_header, iterate,
}
use open_sprite_runtime.Yahboom.Seek.{
  seek, seek-keep_tail, seek-drop, length-keep_tail, length-seek-le, seek-append, seek-append_long,
}

pub get_or-append : (xs ys : Bytes) (i : ℕ) → i < length xs → get_or (xs ++ ys) i 0 ≡ get_or xs i 0
get_or-append [] ys i h = absurd (omega arith)
get_or-append (x ∷ xs) ys zero h = refl
get_or-append (x ∷ xs) ys (suc i) h = get_or-append xs ys i (omega arith)

module _ (F : FloatOps) (maximum : ℕ) where
  at_header-short : (bs : Bytes) → length bs ≤ 1 → at_header F maximum bs ≡ stop bs
  unfolding at_header
  at_header-short bs h = ground arith

  pub iterate-seek : (bs : Bytes) → iterate F maximum bs ≡ at_header F maximum (seek bs)
  unfolding iterate
  iterate-seek bs = elim (Option-cases (find_header bs)) [
    | inl e ↦
        rw (e, iterate, seek-keep_tail bs e)
          (sym (at_header-short (keep_tail bs) (length-keep_tail bs)))
    | inr (i, e) ↦ rw (e, iterate, seek-drop bs i e)
  ]

  -- A rejected byte and an accepted frame shorten the buffer, and were decided by bytes in it.
  pub at_header-reject :
      (bs ys : Bytes) {rest : Bytes}
      → at_header F maximum bs ≡ reject rest
      → (length rest < length bs)
        × (2 ≤ length bs)
        × (at_header F maximum (bs ++ ys) ≡ reject (rest ++ ys))
  unfolding at_header
  at_header-reject bs ys h =
      let size = byte_at bs 2 in
      ground (
        arith,
        length-append bs ys,
        get_or-append bs ys 2,
        take-append_le size bs ys,
        drop-append_le size bs ys,
        drop-append_le 1 bs ys,
        length-drop 1 bs,
      )

  pub at_header-accept :
      (bs ys : Bytes) {rest : Bytes} {packet : YahboomPacket F}
      → at_header F maximum bs ≡ accept packet rest
      → (length rest < length bs)
        × (2 ≤ length bs)
        × (at_header F maximum (bs ++ ys) ≡ accept packet (rest ++ ys))
  unfolding at_header
  at_header-accept bs ys h =
      let size = byte_at bs 2 in
      ground (
        arith,
        length-append bs ys,
        get_or-append bs ys 2,
        take-append_le size bs ys,
        drop-append_le size bs ys,
        drop-append_le 1 bs ys,
        length-drop size bs,
      )

  pub at_header-stop : (bs : Bytes) {rest : Bytes} → at_header F maximum bs ≡ stop rest → rest ≡ bs
  unfolding at_header
  at_header-stop bs h = ground arith

  at_header-stop_short :
      (bs : Bytes) {rest : Bytes}
      → 5 ≤ maximum
      → at_header F maximum bs ≡ stop rest
      → length rest < maximum
  unfolding at_header
  at_header-stop_short bs wide h = ground arith

  -- The same for a whole round of the loop.
  pub iterate-reject :
      (bs ys : Bytes) {rest : Bytes}
      → iterate F maximum bs ≡ reject rest
      → (length rest < length bs) × (iterate F maximum (bs ++ ys) ≡ reject (rest ++ ys))
  iterate-reject bs ys h =
      let (short, long, same) = at_header-reject (seek bs) ys (sym (iterate-seek bs) ∙ h) in
      (
        omega (arith, length-seek-le bs),
        iterate-seek (bs ++ ys)
            ∙ ap (at_header F maximum) (seek-append bs ys ∙ seek-append_long bs ys long)
            ∙ same,
      )

  pub iterate-accept :
      (bs ys : Bytes) {rest : Bytes} {packet : YahboomPacket F}
      → iterate F maximum bs ≡ accept packet rest
      → (length rest < length bs) × (iterate F maximum (bs ++ ys) ≡ accept packet (rest ++ ys))
  iterate-accept bs ys h =
      let (short, long, same) = at_header-accept (seek bs) ys (sym (iterate-seek bs) ∙ h) in
      (
        omega (arith, length-seek-le bs),
        iterate-seek (bs ++ ys)
            ∙ ap (at_header F maximum) (seek-append bs ys ∙ seek-append_long bs ys long)
            ∙ same,
      )

  -- A round that breaks leaves a buffer that stands for the one it found, whatever arrives later.
  pub iterate-stop :
      (bs ys : Bytes) {rest : Bytes}
      → iterate F maximum bs ≡ stop rest
      → iterate F maximum (bs ++ ys) ≡ iterate F maximum (rest ++ ys)
  iterate-stop bs ys h =
      iterate-seek (bs ++ ys)
      ∙ ap (at_header F maximum) (
          seek-append bs ys
          ∙ ap (λ r. seek (r ++ ys)) (sym (at_header-stop (seek bs) (sym (iterate-seek bs) ∙ h))))
      ∙ sym (iterate-seek (_ ++ ys))

  -- A round that breaks on a buffer leaves less than the longest frame.
  pub iterate-stop_short :
      (bs : Bytes) {rest : Bytes}
      → 5 ≤ maximum
      → iterate F maximum bs ≡ stop rest
      → length rest < maximum
  iterate-stop_short bs wide h = at_header-stop_short (seek bs) wide (sym (iterate-seek bs) ∙ h)
