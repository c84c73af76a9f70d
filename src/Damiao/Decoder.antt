-- ===== src/Damiao/Decoder.antt =====
-- src/open_sprite_runtime/damiao.py: `DamiaoFeedbackDecoder`. The dictionary of endpoints is an
-- association list in the order of insertion, keyed by interface and Master ID.
use text.Mathlib.Text.{◌==◌ as str_eq}
use open_sprite_runtime.Prelude.{
  ℕ, Bool, true, false, ◌&&◌, String, Option, none, some, List, [], ◌∷◌, ◌++◌, ◌==◌, if◌then◌else◌,
}
use open_sprite_runtime.Prelude.Result.{Result, ok, err, value_error, require, ◌>>=◌, ◌>>◌}
use open_sprite_runtime.Float.{FloatOps}
use open_sprite_runtime.SocketCan.{ReceivedCanFrame}
use open_sprite_runtime.Damiao.Command.{DamiaoFeedbackEndpoint}
use open_sprite_runtime.Damiao.Decode.{DamiaoFeedback, decode_damiao_feedback}

module _ (F : FloatOps) where
  -- The key `(endpoint.interface, endpoint.master_id)` against a frame's or another endpoint's.
  unfoldable pub keyed : String → ℕ → DamiaoFeedbackEndpoint F → Bool
  keyed interface master_id e = str_eq e.interface interface && e.master_id == master_id

  -- `self._endpoints.get((interface, can_id))`
  unfoldable pub lookup :
      List (DamiaoFeedbackEndpoint F) → String → ℕ → Option (DamiaoFeedbackEndpoint F)
  lookup [] interface master_id = none
  lookup (e ∷ es) interface master_id =
      let rest = lookup es interface master_id in
      if keyed interface master_id e then some e else rest

  -- `if key in self._endpoints: raise ...`
  abbrev pub unless_known :
      Option (DamiaoFeedbackEndpoint F)
      → Result (List (DamiaoFeedbackEndpoint F))
      → Result (List (DamiaoFeedbackEndpoint F))
  unless_known none rest = rest
  unless_known (some old) rest = err (value_error "duplicate Damiao feedback endpoint")

  -- The loop of the constructor over the dictionary built so far.
  unfoldable pub insert_all :
      List (DamiaoFeedbackEndpoint F)
      → List (DamiaoFeedbackEndpoint F)
      → Result (List (DamiaoFeedbackEndpoint F))
  unfolding lookup
  insert_all known [] = ok known
  insert_all known (e ∷ es) =
      let rest = insert_all (known ++ e ∷ []) es in
      unless_known (lookup known e.interface e.master_id) rest

  abbrev pub not_empty : List (DamiaoFeedbackEndpoint F) → Bool
  not_empty [] = false
  not_empty (_ ∷ _) = true

  -- `DamiaoFeedbackDecoder(endpoints)`
  unfoldable pub new_decoder :
      List (DamiaoFeedbackEndpoint F) → Result (List (DamiaoFeedbackEndpoint F))
  unfolding insert_all
  new_decoder endpoints = do
    known ← insert_all [] endpoints
    require (not_empty known) (value_error "at least one Damiao feedback endpoint is required")
    ok known

  abbrev pub decode_as :
      Option (DamiaoFeedbackEndpoint F) → ReceivedCanFrame → Result (DamiaoFeedback F)
  decode_as none frame = err (value_error "unconfigured Damiao feedback endpoint")
  decode_as (some endpoint) frame = decode_damiao_feedback F frame endpoint

  -- `decode`
  unfoldable pub decode :
      List (DamiaoFeedbackEndpoint F) → ReceivedCanFrame → Result (DamiaoFeedback F)
  unfolding lookup
  decode known frame = decode_as (lookup known frame.interface frame.can_id) frame
