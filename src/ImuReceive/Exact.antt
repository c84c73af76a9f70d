-- ===== src/ImuReceive/Exact.antt =====
-- What the drain of imu_receive.py commits, against one feed of the bytes that it read.
use open_sprite_runtime.Prelude.{
  ℕ, zero, suc, ◌+◌, ◌-◌, ◌≤◌, ◌<◌, ◌≡◌, ◌≢◌, refl, sym, ap, ◌∙◌, subst, ◌⊎◌, inl, inr, Bool, true,
  false, ◌||◌, List, [], ◌∷◌, ◌++◌, ltb, ◌==◌, if◌then◌else◌, length, map, length-append, ==_iff,
  arith,
}
use open_sprite_runtime.Prelude.Result.{Exception, Result, ok, err}
use open_sprite_runtime.Bytes.{Bytes}
use open_sprite_runtime.Float.{FloatOps}
use open_sprite_runtime.Yahboom.{YahboomPacket, YahboomStreamDecoder, feed, Fed}
use open_sprite_runtime.Yahboom.Chunks.{then_feed, feed-append}
use open_sprite_runtime.ImuReceive.{
  Poll, ImuReceiver, Stamped, Batch, Drained, Read, Step, leave, again, raised, proceed, stamp,
  packet_time, counted, round, batch_after, receiver_after, read_rounds, commit, committing,
  is_partial_stale, empty_batch, drain_imu, is_empty, maximum_bytes, maximum_age_ns,
}

module _ (F : FloatOps) where
  abbrev pub packets_of : List (Stamped F) → List (YahboomPacket F)
  packets_of stamped = map (λ s. s.0) stamped

  -- Reading these bytes takes one decoder to another and to these packets: in one feed, or, where
  -- there is nothing to read, with no feed.
  abbrev pub Reads : YahboomStreamDecoder F → Bytes → Fed F → Type 0
  Reads d bytes fed = ((bytes ≡ []) × (fed ≡ (d, []))) ⊎ (feed F d bytes ≡ fed)

  Reads-append :
      (d : YahboomStreamDecoder F) (bytes more : Bytes) (fed : Fed F)
      → Reads d bytes fed
      → feed F d (bytes ++ more) ≡ then_feed F fed more
  Reads-append d bytes more fed (inl (none_read, same)) = rw none_read (rw same refl)
  Reads-append d bytes more fed (inr once) =
      feed-append F d bytes more ∙ ap (λ f. then_feed F f more) once

  packets_of-later : (t : ℕ) (ps : List (YahboomPacket F)) → packets_of (map (λ q. (q, t)) ps) ≡ ps
  packets_of-later t [] = refl
  packets_of-later t (p ∷ ps) = ap (λ qs. p ∷ qs) (packets_of-later t ps)

  packets_of-stamp :
      (first later : ℕ) (ps : List (YahboomPacket F)) → packets_of (stamp F first later ps) ≡ ps
  packets_of-stamp first later [] = refl
  packets_of-stamp first later (p ∷ ps) = ap (λ qs. p ∷ qs) (packets_of-later later ps)

  packets_of-append :
      (xs ys : List (Stamped F)) → packets_of (xs ++ ys) ≡ packets_of xs ++ packets_of ys
  packets_of-append [] ys = refl
  packets_of-append (x ∷ xs) ys = ap (λ qs. x.0 ∷ qs) (packets_of-append xs ys)

  -- What the port returned in its first rounds, one payload behind the other.
  pub joined : (ℕ → Poll) → ℕ → Bytes
  joined port zero = []
  joined port (suc k) = joined port k ++ (port k).payload

  -- What the first `k` rounds have read and decoded: all that the port returned, and something in
  -- each of them.
  pub record IsBatch (d : YahboomStreamDecoder F) (port : ℕ → Poll) (k : ℕ) (b : Batch F)
      : Type 0 where
    pub size : b.total ≡ length (joined port k)
    pub bounded : length (joined port k) ≤ maximum_bytes
    pub some_read : (i : ℕ) → i < k → (port i).payload ≢ []
    pub reads : Reads d (joined port k) (b.receiver.decoder, packets_of b.packets)

  -- The port has nothing to read, or returns nothing.
  abbrev pub IsDry : Poll → Type 0
  IsDry p = (p.pending ≡ 0) ⊎ (p.payload ≡ [])

  module _ (d : YahboomStreamDecoder F) (port : ℕ → Poll) (started : ℕ) where
    batch_after-IsBatch :
        (k : ℕ) (b : Batch F) (counts : ℕ × ℕ)
        → IsBatch d port k b
        → (port k).payload ≢ []
        → b.total + length (port k).payload ≤ maximum_bytes
        → IsBatch d port (suc k) (batch_after F started (port k).payload b counts)
    unfolding batch_after receiver_after joined
    batch_after-IsBatch k b (raws, quaternions) i some_more fits =
        let payload = (port k).payload in
        let fed = feed F b.receiver.decoder payload in
        let first = packet_time started b.receiver.partial_received_ns in
        record {
          size = ap (λ n. n + length payload) i.size ∙ sym (length-append (joined port k) payload);
          bounded = omega (arith, length-append (joined port k) payload, i.size);
          some_read = λ n below. earlier n (n == k) refl below;
          reads = inr (
              Reads-append d (joined port k) payload _ i.reads
              ∙ ap (λ ps. (fed.0, ps))
                  (sym (
                    packets_of-append b.packets (stamp F first started fed.1)
                    ∙ ap (λ ps. packets_of b.packets ++ ps)
                        (packets_of-stamp first started fed.1))));
        }
      where
        earlier : (n : ℕ) (c : Bool) → (n == k) ≡ c → n < suc k → (port n).payload ≢ []
        earlier n true same below =
            subst (λ m. (port m).payload ≢ []) (sym ((==_iff n k).0 same)) some_more
        earlier n false other below = i.some_read n (ground arith)

    -- What a round says of the batch.
    abbrev StepKeeps : ℕ → Step F → Type 0
    StepKeeps k leave = IsDry (port k)
    StepKeeps k (again b) = IsBatch d port (suc k) b
    StepKeeps k (raised x r) = Unit

    counted-Keeps :
        (k : ℕ) (b : Batch F) (counts : Result (ℕ × ℕ))
        → IsBatch d port k b
        → (port k).payload ≢ []
        → b.total + length (port k).payload ≤ maximum_bytes
        → StepKeeps k (counted F started (port k).payload b counts)
    counted-Keeps k b (ok counts) i some_more fits = batch_after-IsBatch k b counts i some_more fits
    counted-Keeps k b (err x) i some_more fits = tt

    if-Keeps :
        (k : ℕ) (c : Bool) (s t : Step F)
        → (c ≡ true → StepKeeps k s)
        → (c ≡ false → StepKeeps k t)
        → StepKeeps k (if◌then◌else◌ {A = Step F} c s t)
    if-Keeps k true s t hs ht = hs refl
    if-Keeps k false s t hs ht = ht refl

    is_empty-true : (bytes : Bytes) → is_empty bytes ≡ true → bytes ≡ []
    is_empty-true [] h = refl
    is_empty-true (x ∷ xs) h = cc

    is_empty-false : (bytes : Bytes) → is_empty bytes ≡ false → bytes ≢ []
    is_empty-false [] h = cc
    is_empty-false (x ∷ xs) h = λ e. cc

    round-Keeps :
        (k : ℕ) (b : Batch F)
        → length (port k).payload ≤ (port k).pending
        → IsBatch d port k b
        → StepKeeps k (round F started (port k) b)
    unfolding round
    round-Keeps k b honest i =
        let p = port k in
        if-Keeps k (p.pending == 0) _ _ (λ none_pending. inl ((==_iff p.pending 0).0 none_pending))
          λ some_pending.
            if-Keeps k
              (ltb maximum_bytes (b.total + p.pending) || ltb maximum_age_ns (p.now_ns - started)) _
              _ (λ late. tt)
              λ within.
                if-Keeps k (is_empty p.payload) _ _
                  (λ none_read. inr (is_empty-true p.payload none_read))
                  λ some_more.
                    counted-Keeps k b _ i (is_empty-false p.payload some_more) (ground arith)

    -- The loop was left by a break, in a round in which the port is dry.
    abbrev ReadKeeps : Read F → Type 0
    ReadKeeps (err x, r) = Unit
    ReadKeeps (ok b, r) = (k : ℕ) × (k ≤ 7) × IsDry (port k) × IsBatch d port k b × (b.receiver ≡ r)

    proceed-Keeps :
        (next : Batch F → Read F) (k : ℕ) (b : Batch F) (s : Step F)
        → k ≤ 7
        → IsBatch d port k b
        → StepKeeps k s
        → ((b' : Batch F) → IsBatch d port (suc k) b' → ReadKeeps (next b'))
        → ReadKeeps (proceed F next b s)
    proceed-Keeps next k b leave low i dry step = (k, low, dry, i, refl)
    proceed-Keeps next k b (again b') low i kept step = step b' kept
    proceed-Keeps next k b (raised x r) low i kept step = tt

    read_rounds-Keeps :
        (rounds k : ℕ) (b : Batch F)
        → ((i : ℕ) → length (port i).payload ≤ (port i).pending)
        → rounds + k ≡ 8
        → IsBatch d port k b
        → ReadKeeps (read_rounds F port started rounds k b)
    unfolding read_rounds
    read_rounds-Keeps zero k b honest eight i = tt
    read_rounds-Keeps (suc rounds) k b honest eight i =
        proceed-Keeps (read_rounds F port started rounds (suc k)) k b (round F started (port k) b)
          (omega (arith, eight)) i (round-Keeps k b (honest k) i)
          λ b' i'. read_rounds-Keeps rounds (suc k) b' honest (omega (arith, eight)) i'

  commit-all :
      (clock : ℕ → ℕ) (n : ℕ) (packets : List (Stamped F))
      → (commit F clock n packets).0 ≡ ok tt
      → (commit F clock n packets).1 ≡ packets
  unfolding commit
  commit-all clock n [] h = refl
  commit-all clock n ((p, received) ∷ rest) h =
      step (ltb maximum_age_ns (clock n - received)) _ (commit-all clock (suc n) rest) h
    where
      step :
          (c : Bool) (x : Exception)
          → ((commit F clock (suc n) rest).0 ≡ ok tt → (commit F clock (suc n) rest).1 ≡ rest)
          → ((if◌then◌else◌ {A = Result (Unit {0}) × List (Stamped F)} c
                (err x, [])
                (
                  (commit F clock (suc n) rest).0,
                  (p, received) ∷ (commit F clock (suc n) rest).1,
                )).0
              ≡ ok tt)
          → (if◌then◌else◌ {A = Result (Unit {0}) × List (Stamped F)} c
              (err x, [])
              ((commit F clock (suc n) rest).0, (p, received) ∷ (commit F clock (suc n) rest).1)).1
            ≡ (p, received) ∷ rest
      step true x ih g = cc
      step false x ih g = ap (λ qs. (p, received) ∷ qs) (ih g)

  -- The drain that ended well: what it read, and what it made of it.
  pub record IsDrain (port : ℕ → Poll) (d : YahboomStreamDecoder F) (x : Drained F) : Type 0 where
    pub rounds : ℕ
    pub few : rounds ≤ 7
    pub dry : IsDry (port rounds)
    pub some_read : (i : ℕ) → i < rounds → (port i).payload ≢ []
    pub bounded : length (joined port rounds) ≤ maximum_bytes
    pub reads : Reads d (joined port rounds) (x.receiver.decoder, packets_of x.accepted)

  abbrev Drains : (ℕ → Poll) → YahboomStreamDecoder F → Drained F → Type 0
  Drains port d x = x.outcome ≡ ok tt → IsDrain port d x

  if-Drains :
      (port : ℕ → Poll) (d : YahboomStreamDecoder F) (c : Bool) (x y : Drained F)
      → Drains port d x
      → Drains port d y
      → Drains port d (if◌then◌else◌ {A = Drained F} c x y)
  if-Drains port d true x y hx hy = hx
  if-Drains port d false x y hx hy = hy

  committing-Drains :
      (port : ℕ → Poll) (d : YahboomStreamDecoder F) (clock : ℕ → ℕ) (started checked_ns : ℕ)
      (read : Read F)
      → ReadKeeps d port started read
      → Drains port d (committing F clock started checked_ns read)
  committing-Drains port d clock started checked_ns (err x, r) kept = λ h. cc
  committing-Drains port d clock started checked_ns (ok b, r) (k, few, dry, i, same) =
      if-Drains port d (ltb maximum_age_ns (checked_ns - started)) _ _ (λ h. cc)
        λ h. record {
          rounds = k;
          few = few;
          dry = dry;
          some_read = i.some_read;
          bounded = i.bounded;
          reads =
              subst
                (λ q.
                  Reads d (joined port k) (q.decoder, packets_of (commit F clock 0 b.packets).1))
                same
                (subst (λ ps. Reads d (joined port k) (b.receiver.decoder, packets_of ps))
                  (sym (commit-all clock 0 b.packets h)) i.reads);
        }

  -- A drain that ends without an exception has read, in at most seven rounds, all that the port returned
  -- before the first round in which it has nothing to read or returns nothing. That is at most 256 bytes, and
  -- the packets it handed to `accept` and the decoder it leaves are those of one feed of the payloads joined in
  -- their order, or it read nothing, accepted nothing and left the decoder as it was. The port never returns
  -- more bytes than were asked for.
  pub drain_imu-Reads :
      (port : ℕ → Poll) (started checked_ns : ℕ) (clock : ℕ → ℕ) (r : ImuReceiver F)
      → ((i : ℕ) → length (port i).payload ≤ (port i).pending)
      → (drain_imu F port started checked_ns clock r).outcome ≡ ok tt
      → IsDrain port r.decoder (drain_imu F port started checked_ns clock r)
  unfolding drain_imu joined
  drain_imu-Reads port started checked_ns clock r honest =
      if-Drains port r.decoder (is_partial_stale F started r) _ _ (λ h. cc)
        (committing-Drains port r.decoder clock started checked_ns
          (read_rounds F port started 8 0 (empty_batch F r))
          (read_rounds-Keeps r.decoder port started 8 0 (empty_batch F r) honest refl (record {
            size = refl;
            bounded = omega arith;
            some_read = λ n below. absurd (omega (arith, below));
            reads = inl (refl, refl);
          })))
