-- ===== src/Damiao/Feedback.antt =====
-- Which endpoint the decoder of damiao.py uses for a frame.
use text.Mathlib.TextPositions.{compare_refl}
use open_sprite_runtime.Prelude.{
  ℕ, ◌≡◌, refl, sym, subst, ap, ◌∙◌, Bool, true, false, String, Option, none, some, List, [], ◌∷◌,
  ◌++◌, if◌then◌else◌, append_assoc, append-nil, ==_refl,
}
use open_sprite_runtime.Prelude.Result.{Result, ok, require-eq-ok, >>=-eq-ok, ok_injective}
use open_sprite_runtime.Float.{FloatOps}
use open_sprite_runtime.SocketCan.{ReceivedCanFrame}
use open_sprite_runtime.Damiao.Command.{DamiaoFeedbackEndpoint}
use open_sprite_runtime.Damiao.Decode.{decode_damiao_feedback}
use open_sprite_runtime.Damiao.Decoder.{
  keyed, lookup, unless_known, not_empty, insert_all, new_decoder, decode_as, decode,
}

module _ (F : FloatOps) where
  keyed_self : (e : DamiaoFeedbackEndpoint F) → keyed F e.interface e.master_id e ≡ true
  unfolding keyed
  keyed_self e = rw (compare_refl e.interface) (==_refl e.master_id)

  if-then :
      {A : Type 0} (b : Bool) (x : A) (l m : Option A) (e : A)
      → (l ≡ some e → m ≡ some e)
      → (if b then some x else l) ≡ some e
      → (if b then some x else m) ≡ some e
  if-then true x l m e step h = h
  if-then false x l m e step h = step h

  if-free :
      {A : Type 0} (b : Bool) (x : A) (l m : Option A) (e : A)
      → (l ≡ none → m ≡ some e)
      → (if b then some x else l) ≡ none
      → (if b then some x else m) ≡ some e
  if-free true x l m e step h = cc
  if-free false x l m e step h = step h

  -- An endpoint that is found stays found when more are inserted behind it.
  lookup-append :
      (known more : List (DamiaoFeedbackEndpoint F)) (i : String) (m : ℕ)
      (e : DamiaoFeedbackEndpoint F)
      → lookup F known i m ≡ some e
      → lookup F (known ++ more) i m ≡ some e
  unfolding lookup
  lookup-append [] more i m e h = cc
  lookup-append (k ∷ known) more i m e h =
      if-then (keyed F i m k) k (lookup F known i m) (lookup F (known ++ more) i m) e
        (lookup-append known more i m e) h

  -- An endpoint that is inserted under a free key is found there.
  lookup-inserted :
      (known : List (DamiaoFeedbackEndpoint F)) (e : DamiaoFeedbackEndpoint F)
      → lookup F known e.interface e.master_id ≡ none
      → lookup F (known ++ e ∷ []) e.interface e.master_id ≡ some e
  unfolding lookup
  lookup-inserted [] e h = rw (keyed_self e) refl
  lookup-inserted (k ∷ known) e h =
      if-free (keyed F e.interface e.master_id k) k (lookup F known e.interface e.master_id)
        (lookup F (known ++ e ∷ []) e.interface e.master_id) e (lookup-inserted known e) h

  unless_known-ok :
      (found : Option (DamiaoFeedbackEndpoint F)) (rest : Result (List (DamiaoFeedbackEndpoint F)))
      (all : List (DamiaoFeedbackEndpoint F))
      → unless_known F found rest ≡ ok all
      → (found ≡ none) × (rest ≡ ok all)
  unless_known-ok none rest all h = (refl, h)
  unless_known-ok (some old) rest all h = cc

  -- The dictionary is the endpoints in their order.
  pub insert_all-all :
      (known es : List (DamiaoFeedbackEndpoint F)) (all : List (DamiaoFeedbackEndpoint F))
      → insert_all F known es ≡ ok all
      → all ≡ known ++ es
  unfolding insert_all
  insert_all-all known [] all h = sym (ok_injective h) ∙ sym (append-nil known)
  insert_all-all known (e ∷ es) all h =
      let (_, later) =
        unless_known-ok (lookup F known e.interface e.master_id) (insert_all F (known ++ e ∷ []) es)
          all h in
      insert_all-all (known ++ e ∷ []) es all later ∙ append_assoc known (e ∷ []) es

  -- An endpoint of the list is found under its key when the loop is through.
  insert_all-finds :
      (known front back : List (DamiaoFeedbackEndpoint F)) (e : DamiaoFeedbackEndpoint F)
      (all : List (DamiaoFeedbackEndpoint F))
      → insert_all F known (front ++ e ∷ back) ≡ ok all
      → lookup F all e.interface e.master_id ≡ some e
  unfolding insert_all
  insert_all-finds known [] back e all h =
      let (free, later) =
        unless_known-ok (lookup F known e.interface e.master_id)
          (insert_all F (known ++ e ∷ []) back) all h in
      subst (λ r. lookup F r e.interface e.master_id ≡ some e)
        (sym (insert_all-all (known ++ e ∷ []) back all later))
        (lookup-append (known ++ e ∷ []) back e.interface e.master_id e
          (lookup-inserted known e free))
  insert_all-finds known (f ∷ front) back e all h =
      let (_, later) =
        unless_known-ok (lookup F known f.interface f.master_id)
          (insert_all F (known ++ f ∷ []) (front ++ e ∷ back)) all h in
      insert_all-finds (known ++ f ∷ []) front back e all later

  -- A decoder that was built holds exactly the configured endpoints, and it decodes a frame that has
  -- the interface and Master ID of any one of them, wherever in the list it stands, as a frame of
  -- that endpoint.
  pub decode-configured :
      (front back : List (DamiaoFeedbackEndpoint F)) (e : DamiaoFeedbackEndpoint F)
      (known : List (DamiaoFeedbackEndpoint F)) (frame : ReceivedCanFrame)
      → new_decoder F (front ++ e ∷ back) ≡ ok known
      → frame.interface ≡ e.interface
      → frame.can_id ≡ e.master_id
      → (known ≡ front ++ e ∷ back) × (decode F known frame ≡ decode_damiao_feedback F frame e)
  unfolding new_decoder decode
  decode-configured front back e known frame h i m =
      let (all, built, h1) = >>=-eq-ok (insert_all F [] (front ++ e ∷ back)) _ h in
      let (_, h2) = require-eq-ok (not_empty F all) _ _ h1 in
      let same = ok_injective h2 in
      let found =
        subst (λ r. lookup F r e.interface e.master_id ≡ some e) same
          (insert_all-finds [] front back e all built) in
      (
        sym same ∙ insert_all-all [] (front ++ e ∷ back) all built,
        ap (λ o. decode_as F o frame)
            (ap (λ j. lookup F known j frame.can_id) i
              ∙ ap (λ n. lookup F known e.interface n) m
              ∙ found),
      )
