-- ===== src/Tests/Engines.antt =====
-- engine: operations and publications at sample values.
use a2ui_persistent_daemon.Base.{
  ◌<◌, ◌+◌, length, same, true, false, ◌≡◌, ◌≢◌, ◌⊎◌, refl, Option, none, some, pos,
}
use a2ui_persistent_daemon.Document.Reducer.Outcome.{Outcome, done}
use a2ui_persistent_daemon.Document.Reducer.Apply as Reducer
use a2ui_persistent_daemon.Runtime.Events.Broker as Broker
use a2ui_persistent_daemon.Runtime.State as State
use a2ui_persistent_daemon.Protocol.Types.{NodeType, OpType, Operation, Error}
use a2ui_persistent_daemon.Engine.Core.{Engine, new, apply}
use a2ui_persistent_daemon.Engine.Commits.{Accepted, OnlyEvents, apply-lem}
use a2ui_persistent_daemon.Engine.Publication.{Published, publish_locked-lem}
use a2ui_persistent_daemon.Document.Reducer.Outcome.{diverges}
use a2ui_persistent_daemon.Document.Tree.Shape.{IsTree}
use a2ui_persistent_daemon.Document.Tree.Sound.{validate_invariants-IsTree}
use a2ui_persistent_daemon.Engine.Returns.{engine_apply-returns}
use a2ui_persistent_daemon.Ipc.Messages.{IpcError}
use a2ui_persistent_daemon.Daemon.Publication.{ack_publication, ack_publication-lem}
use a2ui_persistent_daemon.Tests.Sample.{sample, limits, operation, add}
use a2ui_persistent_daemon.Document.Children.{child_index, insert_child, remove_child}
use a2ui_persistent_daemon.Document.Invariants.{
  check_node, check_sizes, check_visited, root_ok, unmark, validate_invariants, walk, walk_children,
}
use a2ui_persistent_daemon.Document.Reducer.Apply.{check_changed, dispatch}
use a2ui_persistent_daemon.Document.Reducer.Edit.{
  apply_props, apply_remove, apply_text, mark_all, mark_explicit, remove_first, sweep, sweep_all,
}
use a2ui_persistent_daemon.Document.Reducer.Tables.{
  explicit_keys, explicit_prop_keys, validate_table_limits,
}
use a2ui_persistent_daemon.Document.Reducer.Upsert.{
  apply_upsert, create_node, explicit_eqb, list_eqb, place, props_eqb, retarget, rewrite_node,
  update_node, upsert_at, would_create_cycle,
}
use a2ui_persistent_daemon.Engine.Core.{
  activate_table_selection, commit_doc, emit_error, engine_move_table_selection,
  engine_set_table_selection, focus_on, handle_key, needs_publish_locked, next_event,
  publish_generation, publish_locked, set_input, submit,
}
use a2ui_persistent_daemon.Maps.{delete, insert, keys, lookup, map_eqb, subset_eqb, total}
use a2ui_persistent_daemon.Names.{mem}
use a2ui_persistent_daemon.Protocol.Limits.{
  check_fields, effective_limits, or_default, validate_limits,
}
use a2ui_persistent_daemon.Protocol.Props.Fields.{
  bool_field, check_flex, check_style, flex_bounds, flex_fields, int_field, str_field, style_fields,
  validate_enum, validate_flex, validate_style,
}
use a2ui_persistent_daemon.Protocol.Props.Normalize.{
  allowed_props, complete, decode_patch, defaults, defaults_source, merge_normalized,
  normalize_props, overlay, take_force,
}
use a2ui_persistent_daemon.Protocol.Props.Schema.{
  check_column, check_columns, check_item, check_items, check_row_ids, known_keys, table_rows_of,
  validate_normalized, validate_row_ids, validate_type,
}
use a2ui_persistent_daemon.Protocol.Validate.{validate_fields, validate_operation}
use a2ui_persistent_daemon.Runtime.Events.Broker.{
  choose, depth, enqueue, enqueue_critical_batch, new_event_broker, next_from, push_all,
}
use a2ui_persistent_daemon.Runtime.Events.Numbering.{outputs}
use a2ui_persistent_daemon.Runtime.Events.Reliable.{observe, run_log}
use a2ui_persistent_daemon.Runtime.Reconcile.{
  carry_over, fall_back, focus_needs_fallback, forget_all, projection_changed, reconcile,
  refresh_inputs, request_focus, stamp,
}
use a2ui_persistent_daemon.Runtime.Selection.Rows.{
  clamp_index, drop_stale, index_of, kept_row, move_table_selection, reconcile_selection,
  reconcile_table_selections, refresh, select_row, set_table_selection, table_row_ids, table_rows,
  table_selection_at,
}
use a2ui_persistent_daemon.Runtime.State.{
  focusable, needs_publish, prop_bool, prop_string, set_input_value, set_local_focus,
}
use a2ui_persistent_daemon.Runtime.Tree.{
  bind_children, bind_items, bind_node, build_bindings, collect_children, first_focusable,
  first_of_children, focusable_ids,
}

abbrev started : Engine
started = new sample limits (pos 4)

abbrev engine_of : Outcome (Engine × Option Error) → Engine
engine_of (done (e, o)) = e
engine_of _ = started

-- A box is added and the change is committed.
abbrev with_box : Engine
with_box = engine_of (apply sample started (add "a" NodeType.box))

abbrev committing : Operation
committing = record (operation OpType.commit "") { frame = "f" }

abbrev with_commit : Engine
with_commit = engine_of (apply sample with_box committing)

apply-lem_example :
    ((◌≡◌ {A = Option Error} none none) × Accepted sample with_box committing with_commit)
    ⊎ ((err : Error) × (◌≡◌ {A = Option Error} none (some err)) × OnlyEvents with_box with_commit)
unfolding same Reducer.new Reducer.apply apply new Broker.next State.publish
    activate_table_selection allowed_props apply_props apply_remove apply_text apply_upsert
    bind_children bind_items bind_node bool_field build_bindings carry_over check_changed
    check_column check_columns check_fields check_flex check_item check_items check_node
    check_row_ids check_sizes check_style check_visited child_index choose clamp_index
    collect_children commit_doc complete create_node decode_patch defaults defaults_source delete
    depth dispatch drop_stale effective_limits emit_error engine_move_table_selection
    engine_set_table_selection enqueue enqueue_critical_batch explicit_eqb explicit_keys
    explicit_prop_keys fall_back first_focusable first_of_children flex_bounds flex_fields
    focus_needs_fallback focus_on focusable focusable_ids forget_all handle_key index_of insert
    insert_child int_field kept_row keys known_keys list_eqb lookup map_eqb mark_all mark_explicit
    mem merge_normalized move_table_selection needs_publish needs_publish_locked new_event_broker
    next_event next_from normalize_props observe or_default outputs overlay place projection_changed
    prop_bool prop_string props_eqb publish_generation publish_locked push_all reconcile
    reconcile_selection reconcile_table_selections refresh refresh_inputs remove_child remove_first
    request_focus retarget rewrite_node root_ok run_log select_row set_input set_input_value
    set_local_focus set_table_selection stamp str_field style_fields submit subset_eqb sweep
    sweep_all table_row_ids table_rows table_rows_of table_selection_at take_force total unmark
    update_node upsert_at validate_enum validate_fields validate_flex validate_invariants
    validate_limits validate_normalized validate_operation validate_row_ids validate_style
    validate_table_limits validate_type walk walk_children would_create_cycle
apply-lem_example = apply-lem sample with_box with_commit committing none refl

publish_locked-lem_example :
    ((needs_publish_locked with_commit ≡ false)
      × (◌≡◌ {A = Option Error} none none)
      × ((publish_locked with_commit).0 ≡ with_commit))
    ⊎ ((needs_publish_locked with_commit ≡ true)
        × (◌≡◌ {A = Option Error} none none)
        × Published with_commit (publish_locked with_commit).0)
    ⊎ ((err : Error) × (◌≡◌ {A = Option Error} none (some err))
        × ((publish_locked with_commit).0 ≡ with_commit)
        × (with_commit.broker.cap < depth with_commit.broker + length with_commit.pending_commits))
unfolding same Reducer.new Reducer.apply apply new Broker.next State.publish
    activate_table_selection allowed_props apply_props apply_remove apply_text apply_upsert
    bind_children bind_items bind_node bool_field build_bindings carry_over check_changed
    check_column check_columns check_fields check_flex check_item check_items check_node
    check_row_ids check_sizes check_style check_visited child_index choose clamp_index
    collect_children commit_doc complete create_node decode_patch defaults defaults_source delete
    depth dispatch drop_stale effective_limits emit_error engine_move_table_selection
    engine_set_table_selection enqueue enqueue_critical_batch explicit_eqb explicit_keys
    explicit_prop_keys fall_back first_focusable first_of_children flex_bounds flex_fields
    focus_needs_fallback focus_on focusable focusable_ids forget_all handle_key index_of insert
    insert_child int_field kept_row keys known_keys list_eqb lookup map_eqb mark_all mark_explicit
    mem merge_normalized move_table_selection needs_publish needs_publish_locked new_event_broker
    next_event next_from normalize_props observe or_default outputs overlay place projection_changed
    prop_bool prop_string props_eqb publish_generation publish_locked push_all reconcile
    reconcile_selection reconcile_table_selections refresh refresh_inputs remove_child remove_first
    request_focus retarget rewrite_node root_ok run_log select_row set_input set_input_value
    set_local_focus set_table_selection stamp str_field style_fields submit subset_eqb sweep
    sweep_all table_row_ids table_rows table_rows_of table_selection_at take_force total unmark
    update_node upsert_at validate_enum validate_fields validate_flex validate_invariants
    validate_limits validate_normalized validate_operation validate_row_ids validate_style
    validate_table_limits validate_type walk walk_children would_create_cycle
publish_locked-lem_example = publish_locked-lem with_commit (publish_locked with_commit).0 none refl

-- The acknowledgement of the frame that is current.
abbrev acked : Engine
acked = (publish_generation with_commit 2).0

-- A client acknowledges the frame that is current, and nobody interferes.
abbrev ack : Engine × Option IpcError
ack = ack_publication (λ e. e) with_commit 2

ack_publication-lem_example :
    ((ack.1 ≡ none)
      × (2 ≡ with_commit.publication_generation)
      × (needs_publish_locked with_commit ≡ false)
      × (ack.0 ≡ with_commit))
    ⊎ ((ack.1 ≡ none)
        × (2 ≡ with_commit.publication_generation)
        × (2 ≡ with_commit.publication_generation)
        × Published with_commit ack.0)
    ⊎ ((ack.1 ≢ none) × (2 ≢ with_commit.publication_generation) × (ack.0 ≡ with_commit))
    ⊎ ((ack.1 ≢ none) × (2 ≡ with_commit.publication_generation) × (ack.0 ≡ with_commit))
ack_publication-lem_example = ack_publication-lem (λ e. e) with_commit ack.0 2 ack.1 refl

started-IsTree : IsTree started.limits started.doc
unfolding same Reducer.new Reducer.apply apply new Broker.next State.publish
    activate_table_selection allowed_props apply_props apply_remove apply_text apply_upsert
    bind_children bind_items bind_node bool_field build_bindings carry_over check_changed
    check_column check_columns check_fields check_flex check_item check_items check_node
    check_row_ids check_sizes check_style check_visited child_index choose clamp_index
    collect_children commit_doc complete create_node decode_patch defaults defaults_source delete
    depth dispatch drop_stale effective_limits emit_error engine_move_table_selection
    engine_set_table_selection enqueue enqueue_critical_batch explicit_eqb explicit_keys
    explicit_prop_keys fall_back first_focusable first_of_children flex_bounds flex_fields
    focus_needs_fallback focus_on focusable focusable_ids forget_all handle_key index_of insert
    insert_child int_field kept_row keys known_keys list_eqb lookup map_eqb mark_all mark_explicit
    mem merge_normalized move_table_selection needs_publish needs_publish_locked new_event_broker
    next_event next_from normalize_props observe or_default outputs overlay place projection_changed
    prop_bool prop_string props_eqb publish_generation publish_locked push_all reconcile
    reconcile_selection reconcile_table_selections refresh refresh_inputs remove_child remove_first
    request_focus retarget rewrite_node root_ok run_log select_row set_input set_input_value
    set_local_focus set_table_selection stamp str_field style_fields submit subset_eqb sweep
    sweep_all table_row_ids table_rows table_rows_of table_selection_at take_force total unmark
    update_node upsert_at validate_enum validate_fields validate_flex validate_invariants
    validate_limits validate_normalized validate_operation validate_row_ids validate_style
    validate_table_limits validate_type walk walk_children would_create_cycle
started-IsTree = validate_invariants-IsTree started.doc started.limits refl

engine_apply-returns_example : apply sample started (add "a" NodeType.box) ≢ diverges
engine_apply-returns_example =
    engine_apply-returns sample started (add "a" NodeType.box) started-IsTree
