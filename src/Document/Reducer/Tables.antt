-- ===== src/Document/Reducer/Tables.antt =====
-- document/reducer.go: `explicitPropKeys` and `validateTableLimits`.
use a2ui_persistent_daemon.Base.{
  Bool, true, false, Option, none, List, [], ◌∷◌, String, len, same, ◌==◌, exceeds, length,
  if◌then◌else◌,
}
use a2ui_persistent_daemon.Maps.{Map, insert}
use a2ui_persistent_daemon.Protocol.Types.{Error, table, eqb_type, ◌<|>◌}
use a2ui_persistent_daemon.Protocol.Limits.{Limits}
use a2ui_persistent_daemon.Protocol.Json.{Json}
use a2ui_persistent_daemon.Protocol.Props.Schema.{entry, or_empty}
use a2ui_persistent_daemon.Protocol.Validate.{refuse_if}
use a2ui_persistent_daemon.Document.Types.{Node}

-- The keys of a patch but `force`, which is never retained.
unfoldable pub explicit_keys : Map String → Map Bool → Map Bool
explicit_keys [] out = out
explicit_keys ((k, v) ∷ m) out = explicit_keys m (if same k "force" then out else insert k true out)

abbrev decoded_keys : Option (Map String) × Bool → Map Bool
unfolding explicit_keys
decoded_keys (m, true) = explicit_keys (or_empty m) []
decoded_keys (m, false) = []

module _ (j : Json) where
  unfoldable pub explicit_prop_keys : String → Map Bool
  unfolding decoded_keys
  explicit_prop_keys raw = if len raw == 0 then [] else decoded_keys (j.object raw)

  -- `if raw := n.Props[key]; len(raw) > 0 { _ = json.Unmarshal(raw, &list) }`
  abbrev pub raw_list : Node → String → List String
  raw_list n key = if len (entry n.props key) == 0 then [] else (j.raws (entry n.props key)).0

  unfoldable pub validate_table_limits : Node → Limits → Option Error
  validate_table_limits n limits =
      if eqb_type n.type table
      then refuse_if (exceeds (length (raw_list n "columns")) limits.max_table_columns)
          "resource.table_columns_limit"
        <|> refuse_if (exceeds (length (raw_list n "rows")) limits.max_table_rows)
            "resource.table_rows_limit"
      else none
