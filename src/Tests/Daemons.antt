-- ===== src/Tests/Daemons.antt =====
-- daemon: an envelope at sample values.
use a2ui_persistent_daemon.Base.{[], pos, none, false, same, ◌≡◌, ◌⊎◌, refl}
use a2ui_persistent_daemon.Document.Reducer.Outcome.{Outcome, done}
use a2ui_persistent_daemon.Document.Reducer.Apply as Reducer
use a2ui_persistent_daemon.Runtime.Events.Broker as Broker
use a2ui_persistent_daemon.Runtime.State as State
use a2ui_persistent_daemon.Protocol.Types.{NodeType}
use a2ui_persistent_daemon.Engine.Core.{new, apply}
use a2ui_persistent_daemon.Protocol.Types.{ok}
use a2ui_persistent_daemon.Session.Core as Session
use a2ui_persistent_daemon.Daemon.Agent.{
  Daemon, Envelope, EnvelopeKind, Codec, Reply, handle_envelope,
}
use a2ui_persistent_daemon.Daemon.Exact.{Applied, handle_envelope-Applied}
use a2ui_persistent_daemon.Tests.Sample.{sample, limits, add}
use a2ui_persistent_daemon.Document.Children.{child_index, insert_child, remove_child}
use a2ui_persistent_daemon.Document.Invariants.{
  check_node, check_sizes, check_visited, root_ok, unmark, validate_invariants, walk, walk_children,
}
use a2ui_persistent_daemon.Document.Reducer.Apply.{check_changed, dispatch}
use a2ui_persistent_daemon.Document.Reducer.Edit.{
  apply_props, apply_remove, apply_text, mark_all, mark_explicit, remove_first, sweep, sweep_all,
}
use a2ui_persistent_daemon.Document.Reducer.Tables.{
  explicit_keys, explicit_prop_keys, validate_table_limits,
}
use a2ui_persistent_daemon.Document.Reducer.Upsert.{
  apply_upsert, create_node, explicit_eqb, list_eqb, place, props_eqb, retarget, rewrite_node,
  update_node, upsert_at, would_create_cycle,
}
use a2ui_persistent_daemon.Engine.Core.{
  activate_table_selection, commit_doc, emit_error, engine_move_table_selection,
  engine_set_table_selection, focus_on, handle_key, needs_publish_locked, next_event,
  publish_generation, publish_locked, set_input, submit,
}
use a2ui_persistent_daemon.Maps.{delete, insert, keys, lookup, map_eqb, subset_eqb, total}
use a2ui_persistent_daemon.Names.{mem}
use a2ui_persistent_daemon.Protocol.Limits.{
  check_fields, effective_limits, or_default, validate_limits,
}
use a2ui_persistent_daemon.Protocol.Props.Fields.{
  bool_field, check_flex, check_style, flex_bounds, flex_fields, int_field, str_field, style_fields,
  validate_enum, validate_flex, validate_style,
}
use a2ui_persistent_daemon.Protocol.Props.Normalize.{
  allowed_props, complete, decode_patch, defaults, defaults_source, merge_normalized,
  normalize_props, overlay, take_force,
}
use a2ui_persistent_daemon.Protocol.Props.Schema.{
  check_column, check_columns, check_item, check_items, check_row_ids, known_keys, table_rows_of,
  validate_normalized, validate_row_ids, validate_type,
}
use a2ui_persistent_daemon.Protocol.Validate.{validate_fields, validate_operation}
use a2ui_persistent_daemon.Runtime.Events.Broker.{
  choose, depth, enqueue, enqueue_critical_batch, new_event_broker, next_from, push_all,
}
use a2ui_persistent_daemon.Runtime.Events.Numbering.{outputs}
use a2ui_persistent_daemon.Runtime.Events.Reliable.{observe, run_log}
use a2ui_persistent_daemon.Runtime.Reconcile.{
  carry_over, fall_back, focus_needs_fallback, forget_all, projection_changed, reconcile,
  refresh_inputs, request_focus, stamp,
}
use a2ui_persistent_daemon.Runtime.Selection.Rows.{
  clamp_index, drop_stale, index_of, kept_row, move_table_selection, reconcile_selection,
  reconcile_table_selections, refresh, select_row, set_table_selection, table_row_ids, table_rows,
  table_selection_at,
}
use a2ui_persistent_daemon.Runtime.State.{
  focusable, needs_publish, prop_bool, prop_string, set_input_value, set_local_focus,
}
use a2ui_persistent_daemon.Runtime.Tree.{
  bind_children, bind_items, bind_node, build_bindings, collect_children, first_focusable,
  first_of_children, focusable_ids,
}

-- The wire carries one operation.
abbrev codec : Codec
codec = record {
  decode_hello = λ payload. ok (record { versions = []; features = [] });
  decode_operation = λ payload. ok (add "a" NodeType.box);
  encode_ack = λ ack. ok "{}";
}

abbrev daemon : Daemon
daemon = record {
  session = record (Session.new "s" limits) { state = Session.ready };
  engine = new sample limits (pos 4);
  updates = false;
}

abbrev first_mutation : Envelope
first_mutation = record { session = "s"; kind = EnvelopeKind.operation; seq = 1; payload = "…" }

abbrev daemon_of : Outcome Reply → Daemon
daemon_of (done (d, ack, o)) = d
daemon_of _ = daemon

abbrev after : Daemon
after = daemon_of (handle_envelope sample codec daemon first_mutation)

handle_envelope-Applied_example :
    (after.engine ≡ daemon.engine) ⊎ Applied sample codec daemon first_mutation after
unfolding Session.new Session.accept_mutation handle_envelope same Reducer.new Reducer.apply apply
    new Broker.next State.publish activate_table_selection allowed_props apply_props apply_remove
    apply_text apply_upsert bind_children bind_items bind_node bool_field build_bindings carry_over
    check_changed check_column check_columns check_fields check_flex check_item check_items
    check_node check_row_ids check_sizes check_style check_visited child_index choose clamp_index
    collect_children commit_doc complete create_node decode_patch defaults defaults_source delete
    depth dispatch drop_stale effective_limits emit_error engine_move_table_selection
    engine_set_table_selection enqueue enqueue_critical_batch explicit_eqb explicit_keys
    explicit_prop_keys fall_back first_focusable first_of_children flex_bounds flex_fields
    focus_needs_fallback focus_on focusable focusable_ids forget_all handle_key index_of insert
    insert_child int_field kept_row keys known_keys list_eqb lookup map_eqb mark_all mark_explicit
    mem merge_normalized move_table_selection needs_publish needs_publish_locked new_event_broker
    next_event next_from normalize_props observe or_default outputs overlay place projection_changed
    prop_bool prop_string props_eqb publish_generation publish_locked push_all reconcile
    reconcile_selection reconcile_table_selections refresh refresh_inputs remove_child remove_first
    request_focus retarget rewrite_node root_ok run_log select_row set_input set_input_value
    set_local_focus set_table_selection stamp str_field style_fields submit subset_eqb sweep
    sweep_all table_row_ids table_rows table_rows_of table_selection_at take_force total unmark
    update_node upsert_at validate_enum validate_fields validate_flex validate_invariants
    validate_limits validate_normalized validate_operation validate_row_ids validate_style
    validate_table_limits validate_type walk walk_children would_create_cycle
handle_envelope-Applied_example =
    handle_envelope-Applied sample codec daemon after first_mutation none none refl
