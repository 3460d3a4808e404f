-- ===== src/Tests/Interaction.antt =====
-- runtime: focus, selections and the event broker at sample values.
use a2ui_persistent_daemon.Base.{
  same, same_iff, arith, ◌≢◌, true, ◌≡◌, ◌≤◌, refl, some, String, List, [], ◌∷◌, ◌++◌, map, pos,
  length,
}
use a2ui_persistent_daemon.Maps.{Map}
use a2ui_persistent_daemon.Document.Types.{Document, Node, zero_node, effect_of}
use a2ui_persistent_daemon.Document.Reducer.Outcome.{Outcome, done}
use a2ui_persistent_daemon.Protocol.Types.{NodeType, OpType, Operation, event}
use a2ui_persistent_daemon.Runtime.State.{State, new_state, TableSelection}
use a2ui_persistent_daemon.Runtime.Events.Broker.{critical, coalescible}
use a2ui_persistent_daemon.Runtime.Events.History.{Call, enqueues, batches, nexts, depth-run-le}
use a2ui_persistent_daemon.Runtime.Events.Reliable.{critical-run, payload}
use a2ui_persistent_daemon.Runtime.Events.Numbering.{outputs-run, numbered}
use a2ui_persistent_daemon.Runtime.Reconcile.Focus.{FocusOk, reconcile-FocusOk}
use a2ui_persistent_daemon.Runtime.Selection.Bounds.{
  Selects, reconcile_table_selections-Selects, reconcile_table_selections_follows,
}
use a2ui_persistent_daemon.Runtime.Selection.Rows.{is_selectable}
use a2ui_persistent_daemon.Tests.Sample.{sample, operation}
use a2ui_persistent_daemon.Document.Reducer.Apply.{check_changed, dispatch}
use a2ui_persistent_daemon.Maps.{delete, insert, keys, lookup, map_eqb, subset_eqb, total}
use a2ui_persistent_daemon.Names.{mem}
use a2ui_persistent_daemon.Protocol.Props.Schema.{
  check_column, check_columns, check_item, check_items, check_row_ids, known_keys, table_rows_of,
  validate_normalized, validate_row_ids, validate_type,
}
use a2ui_persistent_daemon.Runtime.Events.Broker.{
  choose, depth, enqueue, enqueue_critical_batch, new_event_broker, next, next_from, push_all,
}
use a2ui_persistent_daemon.Runtime.Events.History.{run, step}
use a2ui_persistent_daemon.Runtime.Events.Numbering.{outputs}
use a2ui_persistent_daemon.Runtime.Events.Reliable.{observe, run_log}
use a2ui_persistent_daemon.Runtime.Reconcile.{
  carry_over, fall_back, focus_needs_fallback, forget_all, projection_changed, reconcile,
  refresh_inputs, request_focus, stamp,
}
use a2ui_persistent_daemon.Runtime.Selection.Rows.{
  clamp_index, drop_stale, index_of, kept_row, move_table_selection, reconcile_selection,
  reconcile_table_selections, refresh, select_row, set_table_selection, table_row_ids, table_rows,
  table_selection_at,
}
use a2ui_persistent_daemon.Runtime.State.{
  focusable, needs_publish, prop_bool, prop_string, publish, set_input_value, set_local_focus,
}
use a2ui_persistent_daemon.Runtime.Tree.{
  bind_children, bind_items, bind_node, build_bindings, collect_children, first_focusable,
  first_of_children, focusable_ids,
}

-- A table with two rows and an input under the root.
abbrev table_node : Node
table_node = record zero_node {
  id = "t";
  type = NodeType.table;
  parent = "root";
  props = ("selectable", "true") ∷ ("rows", "…") ∷ ("row_ids", "…") ∷ [];
}

abbrev input_node : Node
input_node = record zero_node { id = "i"; type = NodeType.input; parent = "root" }

abbrev form : Document
form = record {
  revision = 2;
  nodes =
      ("root", record zero_node { id = "root"; type = NodeType.box; children = "t" ∷ "i" ∷ [] })
      ∷ ("t", table_node)
      ∷ ("i", input_node)
      ∷ [];
  total_text_bytes = pos 0;
}

abbrev focus_input : Operation
focus_input = operation OpType.focus "i"

abbrev state_of : Outcome State → State
state_of (done s) = s
state_of _ = new_state

abbrev reconciled : Outcome State
reconciled = reconcile sample 5 new_state form form focus_input (effect_of focus_input)

reconciled_focus : (state_of reconciled).focused_id ≡ "i"
unfolding bind_children bind_items bind_node build_bindings carry_over check_changed check_column
    check_columns check_item check_items check_row_ids choose clamp_index collect_children delete
    depth dispatch drop_stale enqueue enqueue_critical_batch fall_back first_focusable
    first_of_children focus_needs_fallback focusable focusable_ids forget_all index_of insert
    kept_row keys known_keys lookup map_eqb mem move_table_selection needs_publish new_event_broker
    next next_from observe outputs projection_changed prop_bool prop_string publish push_all
    reconcile reconcile_selection reconcile_table_selections refresh refresh_inputs request_focus
    run run_log select_row set_input_value set_local_focus set_table_selection stamp step subset_eqb
    table_row_ids table_rows table_rows_of table_selection_at same total validate_normalized
    validate_row_ids validate_type
reconciled_focus = refl

reconcile-FocusOk_example : FocusOk sample form.nodes (state_of reconciled).focused_id
unfolding bind_children bind_items bind_node build_bindings carry_over check_changed check_column
    check_columns check_item check_items check_row_ids choose clamp_index collect_children delete
    depth dispatch drop_stale enqueue enqueue_critical_batch fall_back first_focusable
    first_of_children focus_needs_fallback focusable focusable_ids forget_all index_of insert
    kept_row keys known_keys lookup map_eqb mem move_table_selection needs_publish new_event_broker
    next next_from observe outputs projection_changed prop_bool prop_string publish push_all
    reconcile reconcile_selection reconcile_table_selections refresh refresh_inputs request_focus
    run run_log select_row set_input_value set_local_focus set_table_selection stamp step subset_eqb
    table_row_ids table_rows table_rows_of table_selection_at same total validate_normalized
    validate_row_ids validate_type
reconcile-FocusOk_example =
    reconcile-FocusOk sample 5 new_state (state_of reconciled) form form focus_input
      (effect_of focus_input) refl

reconcile_table_selections-Selects_example :
    (n : Node) × (lookup "t" form.nodes ≡ some n)
    × (is_selectable sample n ≡ true)
    × Selects sample n (record { index = pos 0; row_id = "x" })
unfolding bind_children bind_items bind_node build_bindings carry_over check_changed check_column
    check_columns check_item check_items check_row_ids choose clamp_index collect_children delete
    depth dispatch drop_stale enqueue enqueue_critical_batch fall_back first_focusable
    first_of_children focus_needs_fallback focusable focusable_ids forget_all index_of insert
    kept_row keys known_keys lookup map_eqb mem move_table_selection needs_publish new_event_broker
    next next_from observe outputs projection_changed prop_bool prop_string publish push_all
    reconcile reconcile_selection reconcile_table_selections refresh refresh_inputs request_focus
    run run_log select_row set_input_value set_local_focus set_table_selection stamp step subset_eqb
    table_row_ids table_rows table_rows_of table_selection_at same total validate_normalized
    validate_row_ids validate_type
reconcile_table_selections-Selects_example =
    reconcile_table_selections-Selects sample form.nodes [] "t"
      (record { index = pos 0; row_id = "x" }) (refl, (refl, (refl, _))) refl

-- A selection of the row `y` when it was the first.
abbrev moved : Map TableSelection
moved = ("t", record { index = pos 0; row_id = "y" }) ∷ []

named : ◌≢◌ {A = String} "y" ""
unfolding same
named e = ground (arith, same_iff "y" "")

reconcile_table_selections_follows_example :
    (sel : TableSelection) × (lookup "t" (reconcile_table_selections sample form.nodes moved)
      ≡ some sel)
    × (sel.row_id ≡ "y")
    × Selects sample table_node sel
unfolding bind_children bind_items bind_node build_bindings carry_over check_changed check_column
    check_columns check_item check_items check_row_ids choose clamp_index collect_children delete
    depth dispatch drop_stale enqueue enqueue_critical_batch fall_back first_focusable
    first_of_children focus_needs_fallback focusable focusable_ids forget_all index_of insert
    kept_row keys known_keys lookup map_eqb mem move_table_selection needs_publish new_event_broker
    next next_from observe outputs projection_changed prop_bool prop_string publish push_all
    reconcile reconcile_selection reconcile_table_selections refresh refresh_inputs request_focus
    run run_log select_row set_input_value set_local_focus set_table_selection stamp step subset_eqb
    table_row_ids table_rows table_rows_of table_selection_at same total validate_normalized
    validate_row_ids validate_type
reconcile_table_selections_follows_example =
    reconcile_table_selections_follows sample form.nodes moved "t" table_node
      (record { index = pos 0; row_id = "y" }) (refl, (refl, (refl, _))) refl refl refl named refl
      refl

-- Four events at a broker for two.
abbrev calls : List Call
calls =
    enqueues (event "submit") critical
    ∷ enqueues (event "resize") coalescible
    ∷ enqueues (event "select") critical
    ∷ nexts
    ∷ batches (event "committed" ∷ [])
    ∷ nexts
    ∷ nexts
    ∷ []

critical-run_example :
    let b = run (new_event_broker (pos 2)) calls in
    let l = run_log (new_event_broker (pos 2)) calls (record { accepted = []; sent = [] }) in
    l.accepted ≡ l.sent ++ map payload b.critical
critical-run_example = critical-run (pos 2) calls

outputs-run_example :
    let sent = outputs (new_event_broker (pos 2)) calls in
    map (λ ev. ev.seq) sent ≡ numbered 0 (length sent)
outputs-run_example = outputs-run (pos 2) calls

depth-run-le_example : depth (run (new_event_broker (pos 2)) calls) ≤ 2
depth-run-le_example = depth-run-le (pos 2) calls
