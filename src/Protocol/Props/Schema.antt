-- ===== src/Protocol/Props/Schema.antt =====
-- protocol/props.go: `validateNormalized`, the schema of each component.
use Prim.Native.String.{count}
use a2ui_persistent_daemon.Base.{
  not, ◌||◌, ◌&&◌, Option, none, some, List, [], ◌∷◌, String, is_negative, below_one, ◌==◌, same,
  length, if◌then◌else◌,
}
use a2ui_persistent_daemon.Names.{mem}
use a2ui_persistent_daemon.Maps.{Map, lookup}
use a2ui_persistent_daemon.Protocol.Types.{
  NodeType, Error, new_error, ◌<|>◌, box, text, viewport, table, input, actions, progress, other,
}
use a2ui_persistent_daemon.Protocol.Json.{Json}
use a2ui_persistent_daemon.Protocol.Props.Fields.{
  bad, check, when_set, int_field, str_field, bool_field, validate_enum, validate_flex,
  validate_style,
}

-- `m[key]`: the entry, or the zero value.
abbrev pub entry : Map String → String → String
entry m key = elim (lookup key m) [ none ↦ "" | some v ↦ v ]

-- `for k := range m { if k is none of … { return unknown_property } }`
unfoldable pub known_keys : List String → Map String → Option Error
known_keys allowed [] = none
known_keys allowed ((k, v) ∷ m) =
    if mem k allowed then known_keys allowed m else some (new_error "schema.unknown_property")

-- Ranging over a nil map does nothing, and its entries are the zero value.
abbrev pub or_empty : Option (Map String) → Map String
or_empty none = []
or_empty (some m) = m

module _ (j : Json) where
  unfoldable pub check_column : Map String → Option Error
  unfolding known_keys
  check_column c =
      known_keys ("title" ∷ "width" ∷ []) c
      <|> elim (lookup "title" c) [
        | none ↦ bad
        | some raw ↦ check ((j.string raw).1 && not (same (j.string raw).0 ""))
      ]
      <|> when_set c "width" (λ raw. check ((j.integer raw).1 && not (below_one (j.integer raw).0)))

  unfoldable pub check_columns : List (Option (Map String)) → Option Error
  unfolding check_column
  check_columns [] = none
  check_columns (c ∷ cs) = check_column (or_empty c) <|> check_columns cs

  unfoldable pub check_item : Map String → Option Error
  unfolding known_keys
  check_item it =
      known_keys ("key" ∷ "label" ∷ "action" ∷ "args" ∷ []) it
      <|> check (
          (j.string (entry it "key")).1
          && count (j.string (entry it "key")).0 == 1
          && (j.string (entry it "label")).1
          && not (same (j.string (entry it "label")).0 "")
          && (j.string (entry it "action")).1
          && not (same (j.string (entry it "action")).0 ""))
      <|> when_set it "args" (λ raw. check (j.object raw).1)

  unfoldable pub check_items : List (Option (Map String)) → Option Error
  unfolding check_item
  check_items [] = none
  check_items (it ∷ its) = check_item (or_empty it) <|> check_items its

  unfoldable pub check_row_ids : List String → List String → Option Error
  check_row_ids [] seen = none
  check_row_ids (id ∷ ids) seen =
      if same id "" || mem id seen then bad else check_row_ids ids (id ∷ seen)

  -- `rows` stays nil where the property is absent.
  unfoldable pub table_rows_of : Map String → List (List String)
  table_rows_of p = elim (lookup "rows" p) [ none ↦ [] | some v ↦ (j.matrix v).0 ]

  unfoldable pub validate_row_ids : Map String → String → Option Error
  unfolding check_row_ids table_rows_of
  validate_row_ids p v =
      check ((j.strings v).1 && length (j.strings v).0 == length (table_rows_of p))
      <|> check_row_ids (j.strings v).0 []

  -- The `switch` on the node type.
  unfoldable pub validate_type : NodeType → Map String → Option Error
  unfolding int_field str_field bool_field validate_enum validate_style check_columns check_items
      validate_row_ids
  validate_type box p =
      validate_enum j p "variant" ("plain" ∷ "panel" ∷ "card" ∷ "section" ∷ [])
      <|> validate_enum j p "align" ("start" ∷ "center" ∷ "end" ∷ "stretch" ∷ [])
      <|> validate_enum j p "responsive" ("none" ∷ "stack" ∷ [])
      <|> validate_enum j p "dir" ("col" ∷ "row" ∷ [])
      <|> int_field j p "padding" is_negative
      <|> int_field j p "gap" is_negative
      <|> validate_enum j p "border" ("none" ∷ "rounded" ∷ "normal" ∷ [])
      <|> when_set p "style" (validate_style j)
  validate_type text p =
      validate_enum j p "variant" ("body" ∷ "title" ∷ "subtitle" ∷ "label" ∷ "code" ∷ "muted" ∷ [])
      <|> str_field j p "text"
      <|> when_set p "style" (validate_style j)
  validate_type viewport p =
      int_field j p "height" below_one
      <|> bool_field j p "wrap"
      <|> bool_field j p "follow_tail"
      <|> bool_field j p "scrollable"
  validate_type table p =
      validate_enum j p "variant" ("normal" ∷ "compact" ∷ "dense" ∷ [])
      <|> bool_field j p "selectable"
      <|> when_set p "columns" (λ v. if (j.objects v).1 then check_columns (j.objects v).0 else bad)
      <|> when_set p "rows" (λ v. check (j.matrix v).1)
      <|> str_field j p "action"
      <|> when_set p "row_ids" (validate_row_ids p)
  validate_type input p =
      str_field j p "placeholder" <|> str_field j p "value" <|> str_field j p "action"
  validate_type actions p =
      validate_enum j p "variant" ("inline" ∷ "toolbar" ∷ "list" ∷ [])
      <|> when_set p "items" (λ v. if (j.objects v).1 then check_items (j.objects v).0 else bad)
  validate_type progress p =
      validate_enum j p "variant" ("bar" ∷ "compact" ∷ "spinner" ∷ [])
      <|> validate_enum j p "state" ("normal" ∷ "loading" ∷ "success" ∷ "error" ∷ [])
      <|> when_set p "value" (λ v. check (j.unit_float v))
      <|> str_field j p "label"
  validate_type (other s) p = none

  unfoldable pub validate_normalized : NodeType → Map String → Option Error
  unfolding validate_flex validate_type
  validate_normalized t p = when_set p "flex" (validate_flex j) <|> validate_type t p
