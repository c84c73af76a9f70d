-- ===== src/Yahboom/Drained.antt =====
-- What the stream decoder leaves in its buffer.
use open_sprite_runtime.Prelude.{
  ℕ, zero, suc, ◌≤◌, ◌<◌, ◌≡◌, sym, ap, subst, ◌∙◌, [], ◌++◌, append-nil, length, arith,
}
use open_sprite_runtime.Bytes.{Bytes}
use open_sprite_runtime.Float.{FloatOps}
use open_sprite_runtime.Yahboom.{stop, iterate, YahboomStreamDecoder, rejecting, feed}
use open_sprite_runtime.Yahboom.Iterate.{
  iterate-reject, iterate-accept, iterate-stop, iterate-stop_short,
}
use open_sprite_runtime.Yahboom.Chunks.{round, run, Round-cases, loop-stop, run-reject, run-accept}

module _ (F : FloatOps) where
  -- A further round on the buffer that a break left would break again and leave it as it is.
  round-stop_again :
      (d : YahboomStreamDecoder F) (bs rest : Bytes)
      → round F d bs ≡ stop rest
      → round F d rest ≡ stop rest
  round-stop_again d bs rest e =
      let same = iterate-stop F d.maximum_frame_length bs [] e in
      ap (round F d) (sym (append-nil rest)) ∙ sym same ∙ ap (round F d) (append-nil bs) ∙ e

  run-drained :
      (n : ℕ) (d : YahboomStreamDecoder F) (bs : Bytes)
      → length bs < n
      → round F d (run F d bs).0.buffer ≡ stop (run F d bs).0.buffer
  run-drained zero d bs h = elim h [ ]
  run-drained (suc n) d bs h =
      let ih = run-drained n in
      Round-cases F (round F d bs)
        (λ rest e.
          subst (λ r. round F d r.0.buffer ≡ stop r.0.buffer) (sym (loop-stop F (length bs) d bs e))
            (round-stop_again d bs rest e))
        (λ rest e.
          let (short, same) = iterate-reject F d.maximum_frame_length bs [] e in
          subst (λ r. round F d r.0.buffer ≡ stop r.0.buffer) (sym (run-reject F d bs e))
            (ih (rejecting F d rest) rest (omega arith)))
        (λ p rest e.
          let (short, same) = iterate-accept F d.maximum_frame_length bs [] e in
          subst (λ r. round F d r.0.buffer ≡ stop r.0.buffer) (sym (run-accept F d bs p e))
            (ih d rest (omega arith)))

  -- The loop of `feed` ends by a `break`: one more round on the buffer that it leaves would break
  -- at once and change nothing.
  pub feed-drained :
      (d : YahboomStreamDecoder F) (chunk : Bytes)
      → iterate F d.maximum_frame_length (feed F d chunk).0.buffer ≡ stop (feed F d chunk).0.buffer
  unfolding feed
  feed-drained d chunk =
      run-drained (suc (length (d.buffer ++ chunk))) d (d.buffer ++ chunk) (omega arith)

  -- Whatever arrives, `feed` leaves fewer bytes in the buffer than the longest frame has, for a
  -- decoder whose longest frame has five bytes or more.
  pub length-buffer-feed :
      (d : YahboomStreamDecoder F) (chunk : Bytes)
      → 5 ≤ d.maximum_frame_length
      → length (feed F d chunk).0.buffer < d.maximum_frame_length
  length-buffer-feed d chunk wide =
      iterate-stop_short F d.maximum_frame_length (feed F d chunk).0.buffer wide
        (feed-drained d chunk)
