-- ===== src/Protocol/Props/Normalize.antt =====
-- protocol/props.go: `NormalizeProps` and `MergeNormalized`.
use a2ui_persistent_daemon.Base.{
  Bool, true, false, Option, none, some, List, [], ◌∷◌, String, same, if◌then◌else◌,
}
use a2ui_persistent_daemon.Maps.{Map, lookup, insert, delete}
use a2ui_persistent_daemon.Protocol.Types.{
  NodeType, Error, new_error, Result, ok, err, ◌>>=◌, MutationPolicy, is_valid, box, text, viewport,
  table, input, actions, progress, other,
}
use a2ui_persistent_daemon.Protocol.Json.{Json}
use a2ui_persistent_daemon.Protocol.Props.Schema.{validate_normalized, or_empty, known_keys}

unfoldable pub allowed_props : NodeType → List String
allowed_props box =
    "dir" ∷ "padding" ∷ "gap" ∷ "border" ∷ "style" ∷ "variant" ∷ "align" ∷ "responsive" ∷ "flex"
    ∷ []
allowed_props text = "text" ∷ "style" ∷ "variant" ∷ "flex" ∷ []
allowed_props viewport = "height" ∷ "wrap" ∷ "follow_tail" ∷ "scrollable" ∷ "flex" ∷ []
allowed_props table =
    "columns" ∷ "rows" ∷ "selectable" ∷ "row_ids" ∷ "action" ∷ "variant" ∷ "flex" ∷ []
allowed_props input = "placeholder" ∷ "value" ∷ "force" ∷ "action" ∷ "flex" ∷ []
allowed_props actions = "items" ∷ "variant" ∷ "flex" ∷ []
allowed_props progress = "value" ∷ "label" ∷ "variant" ∷ "state" ∷ "flex" ∷ []
allowed_props (other s) = []

unfoldable pub defaults_source : NodeType → String
defaults_source box =
    "{\"dir\":\"col\",\"padding\":0,\"gap\":0,\"border\":\"none\",\"style\":{},\"variant\":\"plain\",\"align\":\"start\",\"responsive\":\"none\"}"
defaults_source text = "{\"text\":\"\",\"style\":{},\"variant\":\"body\"}"
defaults_source viewport =
    "{\"height\":10,\"wrap\":true,\"follow_tail\":false,\"scrollable\":false}"
defaults_source table =
    "{\"columns\":[],\"rows\":[],\"selectable\":false,\"action\":\"\",\"variant\":\"normal\"}"
defaults_source input = "{\"placeholder\":\"\",\"value\":\"\",\"action\":\"\"}"
defaults_source actions = "{\"items\":[],\"variant\":\"inline\"}"
defaults_source progress = "{\"value\":0,\"label\":\"\",\"variant\":\"bar\",\"state\":\"normal\"}"
defaults_source (other s) = ""

-- `for k, v := range patch { base[k] = v }`
unfoldable pub overlay : Map String → Map String → Map String
overlay base [] = base
overlay base ((k, v) ∷ patch) = overlay (insert k v base) patch

-- Go on with a value where a check found nothing.
abbrev pub accept {ℓ} : {A : Type ℓ} → Option Error → A → Result A
accept none a = ok a
accept (some e) a = err e

abbrev unknown_type : NodeType → Option Error
unknown_type t = if is_valid t then none else some (new_error "schema.unknown_type")

abbrev pub no_policy : MutationPolicy
no_policy = record { force_input_value = false }

module _ (j : Json) where
  unfoldable pub defaults : NodeType → Map String
  unfolding defaults_source
  defaults t = or_empty (j.object (defaults_source t)).0

  -- The error of `json.Unmarshal`, or a nil map after it.
  abbrev object_patch : Option (Map String) × Bool → Result (Map String)
  object_patch (some patch, true) = ok patch
  object_patch _ = err (new_error "schema.invalid_props")

  -- The object that the raw properties decode to.
  unfoldable pub decode_patch : String → Result (Map String)
  decode_patch raw =
      if same (j.trim_space raw) ""
      then ok []
      else if same (j.trim_space raw) "null"
      then err (new_error "schema.invalid_props")
      else object_patch (j.object (j.trim_space raw))

  -- `force` of an input is taken out of the patch.
  unfoldable pub take_force : NodeType → Map String → Result (Map String × MutationPolicy)
  take_force input patch = elim (lookup "force" patch) [
    | none ↦ ok (patch, no_policy)
    | some v ↦
        if (j.boolean v).1
        then ok (delete "force" patch, record { force_input_value = (j.boolean v).0 })
        else err (new_error "schema.invalid_props")
  ]
  take_force _ patch = ok (patch, no_policy)

  -- A full set of properties starts from the defaults.
  unfoldable pub complete : NodeType → Bool → Map String → Map String
  unfolding defaults overlay
  complete t true patch = overlay (defaults t) patch
  complete t false patch = patch

  unfoldable pub normalize_props : NodeType → String → Bool → Result (Map String × MutationPolicy)
  unfolding decode_patch take_force complete allowed_props validate_normalized known_keys
  normalize_props t raw full = do
    _ ← accept (unknown_type t) t
    patch ← decode_patch raw
    _ ← accept (known_keys (allowed_props t) patch) patch
    (rest, policy) ← take_force t patch
    accept (validate_normalized j t (complete t full rest)) (complete t full rest, policy)

  unfoldable pub merge_normalized :
      NodeType → Map String → String → Result (Map String × MutationPolicy)
  unfolding normalize_props
  merge_normalized t current raw = do
    (patch, policy) ← normalize_props t raw false
    accept (validate_normalized j t (overlay current patch)) (overlay current patch, policy)
