-- ===== src/Runtime/Selection/Rows.antt =====
-- runtime/table_selection.go: reading the rows of a table, and the methods on the selection.
use a2ui_persistent_daemon.Base.{
  ℕ, zero, suc, ◌-◌, Bool, false, not, ◌&&◌, Option, none, some, List, [], ◌∷◌, String, len, ℤ, pos,
  negsuc, ◌+ℤ◌, same, ◌==◌, leb, u64_suc, eqb_ℤ, length, if◌then◌else◌,
}
use a2ui_persistent_daemon.Maps.{Map, lookup, insert, delete, has}
use a2ui_persistent_daemon.Protocol.Types.{Error, new_error, table, eqb_type}
use a2ui_persistent_daemon.Protocol.Json.{Json}
use a2ui_persistent_daemon.Protocol.Props.Schema.{entry}
use a2ui_persistent_daemon.Document.Types.{Node, Document}
use a2ui_persistent_daemon.Runtime.State.{State, TableSelection, prop_bool}

-- `ids[i]`, which is read in range only.
abbrev pub get_or_empty : List String → ℕ → String
get_or_empty [] i = ""
get_or_empty (x ∷ xs) zero = x
get_or_empty (x ∷ xs) (suc i) = get_or_empty xs i

-- The index brought into `[0, rows)`.
unfoldable pub clamp_index : ℕ → ℤ → ℕ
clamp_index rows (negsuc i) = 0
clamp_index rows (pos i) = if leb rows i then rows - 1 else i

unfoldable pub index_of : String → ℕ → List String → Option ℕ
index_of x i [] = none
index_of x i (y ∷ ys) = if same y x then some i else index_of x (suc i) ys

module _ (j : Json) where
  unfoldable pub table_rows : Node → List (List String)
  table_rows n = if len (entry n.props "rows") == 0 then [] else (j.matrix (entry n.props "rows")).0

  unfoldable pub table_row_ids : Node → List String
  table_row_ids n =
      if len (entry n.props "row_ids") == 0 then [] else (j.strings (entry n.props "row_ids")).0

  abbrev pub row_id_at : List String → ℕ → ℕ → String
  row_id_at ids rows i = if length ids == rows then get_or_empty ids i else ""

  unfoldable pub table_selection_at : Node → ℤ → Option TableSelection
  unfolding clamp_index
  table_selection_at n index =
      if length (table_rows n) == 0
      then none
      else some (record {
        index = pos (clamp_index (length (table_rows n)) index);
        row_id =
            row_id_at (table_row_ids n) (length (table_rows n))
              (clamp_index (length (table_rows n)) index);
      })

  abbrev pub is_selectable : Node → Bool
  is_selectable n = eqb_type n.type table && prop_bool j n "selectable"

  -- The search for the row id that was selected before.
  unfoldable pub kept_row : Node → TableSelection → Option TableSelection
  unfolding index_of
  kept_row n current =
      if not (same current.row_id "") && length (table_row_ids n) == length (table_rows n)
      then elim (index_of current.row_id 0 (table_row_ids n)) [
        | none ↦ none
        | some i ↦ some (record { index = pos i; row_id = current.row_id })
      ]
      else none

  abbrev pub reselect : Node → Option TableSelection → Option TableSelection
  unfolding kept_row table_selection_at
  reselect n none = table_selection_at n (pos 0)
  reselect n (some current) = elim (kept_row n current) [
    | none ↦ table_selection_at n current.index
    | some sel ↦ some sel
  ]

  unfoldable pub reconcile_selection : Node → Option TableSelection → Option TableSelection
  unfolding kept_row table_selection_at
  reconcile_selection n current =
      if is_selectable n && not (length (table_rows n) == 0) then reselect n current else none

  -- The first loop of `reconcileTableSelections`: entries of nodes that are no selectable table go.
  unfoldable pub drop_stale :
      Map Node → Map TableSelection → Map TableSelection → Map TableSelection
  drop_stale nodes [] out = out
  drop_stale nodes ((id, sel) ∷ m) out = drop_stale nodes m (elim (lookup id nodes) [
    | none ↦ delete id out
    | some n ↦ if is_selectable n && not (length (table_rows n) == 0) then out else delete id out
  ])

  abbrev pub put_selection :
      String → Option TableSelection → Map TableSelection → Map TableSelection
  put_selection id none out = delete id out
  put_selection id (some sel) out = insert id sel out

  -- The second loop: each selectable table of the document.
  unfoldable pub refresh : Map Node → Map TableSelection → Map TableSelection
  unfolding reconcile_selection
  refresh [] out = out
  refresh ((id, n) ∷ m) out = refresh m (
      if is_selectable n then put_selection id (reconcile_selection n (lookup id out)) out else out)

  unfoldable pub reconcile_table_selections : Map Node → Map TableSelection → Map TableSelection
  unfolding drop_stale refresh
  reconcile_table_selections nodes sels = refresh nodes (drop_stale nodes sels sels)

  abbrev pub eqb_selection : TableSelection → TableSelection → Bool
  eqb_selection a b = eqb_ℤ a.index b.index && same a.row_id b.row_id

  abbrev pub with_selections : State → Map TableSelection → State
  with_selections s sels = record s {
    table_selections = sels;
    render_generation = u64_suc s.render_generation;
  }

  abbrev same_selection : Option TableSelection → TableSelection → Bool
  same_selection none next = false
  same_selection (some current) next = eqb_selection current next

  -- The body of `SetTableSelection` for a selectable table.
  unfoldable pub select_row : State → String → Option TableSelection → State × Option Error
  select_row s id none = (
    if has id s.table_selections then with_selections s (delete id s.table_selections) else s,
    none,
  )
  select_row s id (some next) = (
    if same_selection (lookup id s.table_selections) next
        then s
        else with_selections s (insert id next s.table_selections),
    none,
  )

  -- The checks that `SetTableSelection` and `MoveTableSelection` begin with.
  abbrev pub check_table : Option Node → Option Error
  check_table none = some (new_error "document.node_not_found")
  check_table (some n) =
      if eqb_type n.type table
      then if prop_bool j n "selectable" then none else some (new_error "runtime.not_selectable")
      else some (new_error "runtime.not_table")

  abbrev pub set_on_node : State → String → ℤ → Option Node → State × Option Error
  unfolding select_row table_selection_at
  set_on_node s id index none = (s, check_table none)
  set_on_node s id index (some n) = elim (check_table (some n)) [
    | none ↦ select_row s id (table_selection_at n index)
    | some e ↦ (s, some e)
  ]

  unfoldable pub set_table_selection : State → Document → String → ℤ → State × Option Error
  unfolding select_row table_selection_at
  set_table_selection s d id index = set_on_node s id index (lookup id d.nodes)

  abbrev current_index : Option TableSelection → ℤ
  current_index none = pos 0
  current_index (some sel) = sel.index

  abbrev pub move_on_node : State → Document → String → ℤ → Option Node → State × Option Error
  unfolding set_table_selection
  move_on_node s d id delta none = (s, check_table none)
  move_on_node s d id delta (some n) = elim (check_table (some n)) [
    | none ↦
        if length (table_rows n) == 0
        then (s, none)
        else set_table_selection s d id (current_index (lookup id s.table_selections) +ℤ delta)
    | some e ↦ (s, some e)
  ]

  unfoldable pub move_table_selection : State → Document → String → ℤ → State × Option Error
  unfolding set_table_selection
  move_table_selection s d id delta = move_on_node s d id delta (lookup id d.nodes)
