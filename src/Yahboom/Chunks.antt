-- ===== src/Yahboom/Chunks.antt =====
-- The stream decoder's loop: it ends by its own `break`, and how the input is cut into chunks does
-- not show.
use open_sprite_runtime.Prelude.{
  ℕ, zero, suc, ◌<◌, ◌≡◌, refl, sym, ap, ◌∙◌, [], ◌++◌, append_assoc, length, arith,
}
use open_sprite_runtime.Bytes.{Bytes}
use open_sprite_runtime.Float.{FloatOps}
use open_sprite_runtime.Yahboom.{
  YahboomPacket, Round, stop, reject, accept, iterate, YahboomStreamDecoder, Fed, rejecting,
  appending, loop, feed,
}
use open_sprite_runtime.Yahboom.Iterate.{iterate-reject, iterate-accept, iterate-stop}

module _ (F : FloatOps) where
  abbrev pub holding : YahboomStreamDecoder F → Bytes → YahboomStreamDecoder F
  holding d bs = record d { buffer = bs }

  abbrev pub round : YahboomStreamDecoder F → Bytes → Round F
  round d bs = iterate F d.maximum_frame_length bs

  -- The loop with the fuel that `feed` gives it.
  abbrev pub run : YahboomStreamDecoder F → Bytes → Fed F
  run d bs = loop F (suc (length bs)) (holding d bs)

  shorter_reject :
      (d : YahboomStreamDecoder F) (bs : Bytes) {rest : Bytes}
      → round d bs ≡ reject rest
      → length rest < length bs
  shorter_reject d bs h = (iterate-reject F d.maximum_frame_length bs [] h).0

  shorter_accept :
      (d : YahboomStreamDecoder F) (bs : Bytes) {rest : Bytes} {p : YahboomPacket F}
      → round d bs ≡ accept p rest
      → length rest < length bs
  shorter_accept d bs h = (iterate-accept F d.maximum_frame_length bs [] h).0

  module _ (fuel : ℕ) (d : YahboomStreamDecoder F) (bs : Bytes) {rest : Bytes} where
    pub loop-stop : round d bs ≡ stop rest → loop F (suc fuel) (holding d bs) ≡ (holding d rest, [])
    unfolding loop
    loop-stop h = rw (h, loop)

    loop-reject :
        round d bs ≡ reject rest
        → loop F (suc fuel) (holding d bs) ≡ loop F fuel (rejecting F d rest)
    unfolding loop
    loop-reject h = rw (h, loop)

    loop-accept :
        (p : YahboomPacket F)
        → round d bs ≡ accept p rest
        → loop F (suc fuel) (holding d bs) ≡ appending F p (loop F fuel (holding d rest))
    unfolding loop
    loop-accept p h = rw (h, loop)

  -- A case split on a round that keeps its equation.
  pub Round-cases {ℓ} :
      {P : Type ℓ} (o : Round F)
      → ((rest : Bytes) → o ≡ stop rest → P)
      → ((rest : Bytes) → o ≡ reject rest → P)
      → ((p : YahboomPacket F) (rest : Bytes) → o ≡ accept p rest → P)
      → P
  Round-cases (stop rest) s r a = s rest refl
  Round-cases (reject rest) s r a = r rest refl
  Round-cases (accept p rest) s r a = a p rest refl

  -- More fuel than bytes gives one result.
  loop-fuel :
      (f g : ℕ) (d : YahboomStreamDecoder F) (bs : Bytes)
      → length bs < f
      → length bs < g
      → loop F f (holding d bs) ≡ loop F g (holding d bs)
  loop-fuel zero g d bs hf hg = elim hf [ ]
  loop-fuel (suc f) zero d bs hf hg = elim hg [ ]
  loop-fuel (suc f) (suc g) d bs hf hg =
      let ih = loop-fuel f g in
      Round-cases (round d bs) (λ rest e. loop-stop f d bs e ∙ sym (loop-stop g d bs e))
        (λ rest e.
          let short = shorter_reject d bs e in
          loop-reject f d bs e
          ∙ ih (rejecting F d rest) rest (omega arith) (omega arith)
          ∙ sym (loop-reject g d bs e))
        (λ p rest e.
          let short = shorter_accept d bs e in
          loop-accept f d bs p e
          ∙ ap (appending F p) (ih d rest (omega arith) (omega arith))
          ∙ sym (loop-accept g d bs p e))

  module _ (d : YahboomStreamDecoder F) (bs : Bytes) {rest : Bytes} where
    pub run-reject : round d bs ≡ reject rest → run d bs ≡ run (rejecting F d rest) rest
    run-reject e =
        let short = shorter_reject d bs e in
        loop-reject (length bs) d bs e
        ∙ loop-fuel (length bs) (suc (length rest)) (rejecting F d rest) rest (omega arith)
            (omega arith)

    pub run-accept :
        (p : YahboomPacket F) → round d bs ≡ accept p rest → run d bs ≡ appending F p (run d rest)
    run-accept p e =
        let short = shorter_accept d bs e in
        loop-accept (length bs) d bs p e
        ∙ ap (appending F p)
            (loop-fuel (length bs) (suc (length rest)) d rest (omega arith) (omega arith))

  -- Buffers on which the next round does the same run the same.
  pub run-round :
      (d : YahboomStreamDecoder F) (bs cs : Bytes) → round d bs ≡ round d cs → run d bs ≡ run d cs
  run-round d bs cs same =
      Round-cases (round d cs)
        (λ rest e. loop-stop (length bs) d bs (same ∙ e) ∙ sym (loop-stop (length cs) d cs e))
        (λ rest e. run-reject d bs (same ∙ e) ∙ sym (run-reject d cs e))
        (λ p rest e. run-accept d bs p (same ∙ e) ∙ sym (run-accept d cs p e))

  -- What feeding one more chunk adds to what was decoded before.
  abbrev pub then_feed : Fed F → Bytes → Fed F
  then_feed (d, packets) chunk = let (d', more) = feed F d chunk in (d', packets ++ more)

  run-append :
      (n : ℕ) (d : YahboomStreamDecoder F) (bs ys : Bytes)
      → length bs < n
      → run d (bs ++ ys) ≡ then_feed (run d bs) ys
  unfolding feed
  run-append zero d bs ys h = elim h [ ]
  run-append (suc n) d bs ys h =
      let ih = run-append n in
      Round-cases (round d bs)
        (λ rest e.
          run-round d (bs ++ ys) (rest ++ ys) (iterate-stop F d.maximum_frame_length bs ys e)
          ∙ sym (ap (λ r. then_feed r ys) (loop-stop (length bs) d bs e)))
        (λ rest e.
          let (short, same) = iterate-reject F d.maximum_frame_length bs ys e in
          run-reject d (bs ++ ys) same
          ∙ ih (rejecting F d rest) rest ys (omega arith)
          ∙ sym (ap (λ r. then_feed r ys) (run-reject d bs e)))
        (λ p rest e.
          let (short, same) = iterate-accept F d.maximum_frame_length bs ys e in
          run-accept d (bs ++ ys) p same
          ∙ ap (appending F p) (ih d rest ys (omega arith))
          ∙ sym (ap (λ r. then_feed r ys) (run-accept d bs p e)))

  -- Feeding two chunks one after the other decodes the same packets, counts the same rejected
  -- bytes and leaves the same buffer as feeding them at once.
  pub feed-append :
      (d : YahboomStreamDecoder F) (xs ys : Bytes)
      → feed F d (xs ++ ys) ≡ then_feed (feed F d xs) ys
  unfolding feed
  feed-append d xs ys =
      ap (run d) (sym (append_assoc d.buffer xs ys))
      ∙ run-append (suc (length (d.buffer ++ xs))) d (d.buffer ++ xs) ys (omega arith)
