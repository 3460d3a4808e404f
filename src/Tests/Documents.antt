-- ===== src/Tests/Documents.antt =====
-- document: the reducer at sample values.
use a2ui_persistent_daemon.Base.{
  same, true, ◌≡◌, refl, ◌↔◌, none, some, String, List, [], ◌∷◌, pos, suc, length,
}
use a2ui_persistent_daemon.Document.Types.{Document, Node, Effect, zero_node, effect_of}
use a2ui_persistent_daemon.Document.Reducer.Outcome.{done}
use a2ui_persistent_daemon.Protocol.Types.{NodeType, OpType, Operation}
use a2ui_persistent_daemon.Document.Reducer.Commit.{Committed, apply-Committed}
use a2ui_persistent_daemon.Document.Reducer.Outcome.{panics}
use a2ui_persistent_daemon.Document.Reducer.Reach.{Reachable, reachable-IsTree}
use a2ui_persistent_daemon.Document.Reducer.Nil.Panic.{root_props-panics}
use a2ui_persistent_daemon.Document.Tree.Shape.{IsTree}
use a2ui_persistent_daemon.Document.Tree.Complete.{validate_invariants_iff}
use a2ui_persistent_daemon.Document.Children.{Placed, insert_child-lem}
use a2ui_persistent_daemon.Protocol.Limits.{effective_limits-lem, Limits}
use a2ui_persistent_daemon.Protocol.Props.Normalize.{no_policy}
use a2ui_persistent_daemon.Document.Reducer.Outcome.{diverges}
use a2ui_persistent_daemon.Document.Reducer.Returns.Total.{apply-returns}
use a2ui_persistent_daemon.Base.{◌≢◌}
use a2ui_persistent_daemon.Tests.Sample.{sample, limits, operation, add}
use a2ui_persistent_daemon.Document.Children.{child_index, insert_child, remove_child}
use a2ui_persistent_daemon.Document.Invariants.{
  check_node, check_sizes, check_visited, root_ok, unmark, validate_invariants, walk, walk_children,
}
use a2ui_persistent_daemon.Document.Reducer.Apply.{apply, check_changed, dispatch, new}
use a2ui_persistent_daemon.Document.Reducer.Edit.{
  apply_props, apply_remove, apply_text, mark_all, mark_explicit, remove_first, sweep, sweep_all,
}
use a2ui_persistent_daemon.Document.Reducer.Tables.{
  explicit_keys, explicit_prop_keys, validate_table_limits,
}
use a2ui_persistent_daemon.Document.Reducer.Upsert.{
  apply_upsert, create_node, explicit_eqb, list_eqb, place, props_eqb, retarget, rewrite_node,
  update_node, upsert_at, would_create_cycle,
}
use a2ui_persistent_daemon.Maps.{delete, insert, keys, lookup, map_eqb, subset_eqb, total}
use a2ui_persistent_daemon.Names.{mem}
use a2ui_persistent_daemon.Protocol.Limits.{
  check_fields, effective_limits, or_default, validate_limits,
}
use a2ui_persistent_daemon.Protocol.Props.Fields.{
  bool_field, check_flex, check_style, flex_bounds, flex_fields, int_field, str_field, style_fields,
  validate_enum, validate_flex, validate_style,
}
use a2ui_persistent_daemon.Protocol.Props.Normalize.{
  allowed_props, complete, decode_patch, defaults, defaults_source, merge_normalized,
  normalize_props, overlay, take_force,
}
use a2ui_persistent_daemon.Protocol.Props.Schema.{
  check_column, check_columns, check_item, check_items, check_row_ids, known_keys, table_rows_of,
  validate_normalized, validate_row_ids, validate_type,
}
use a2ui_persistent_daemon.Protocol.Validate.{validate_fields, validate_operation}

-- The initial document, and the one with a box under its root.
abbrev pub root : Node
root = record zero_node { id = "root"; type = NodeType.box }

abbrev pub with_box : Document
with_box = record {
  revision = 1;
  nodes =
      ("root", record root { children = "a" ∷ [] })
      ∷ ("a", record root { id = "a"; parent = "root"; explicit_props = some [] })
      ∷ [];
  total_text_bytes = pos 0;
}

abbrev pub add_box : Effect
add_box = record (effect_of (add "a" NodeType.box)) { changed = true }

pub adds_box : apply sample (new sample) (add "a" NodeType.box) limits ≡ done (with_box, add_box)
unfolding allowed_props apply apply_props apply_remove apply_text apply_upsert bool_field
    check_changed check_column check_columns check_fields check_flex check_item check_items
    check_node check_row_ids check_sizes check_style check_visited child_index complete create_node
    decode_patch defaults defaults_source delete dispatch effective_limits explicit_eqb
    explicit_keys explicit_prop_keys flex_bounds flex_fields insert insert_child int_field keys
    known_keys list_eqb lookup map_eqb mark_all mark_explicit mem merge_normalized new
    normalize_props or_default overlay place props_eqb remove_child remove_first retarget
    rewrite_node root_ok str_field style_fields subset_eqb sweep sweep_all table_rows_of take_force
    same total unmark update_node upsert_at validate_enum validate_fields validate_flex
    validate_invariants validate_limits validate_normalized validate_operation validate_row_ids
    validate_style validate_table_limits validate_type walk walk_children would_create_cycle
adds_box = refl

pub starts : validate_invariants (new sample) limits ≡ none
unfolding allowed_props apply apply_props apply_remove apply_text apply_upsert bool_field
    check_changed check_column check_columns check_fields check_flex check_item check_items
    check_node check_row_ids check_sizes check_style check_visited child_index complete create_node
    decode_patch defaults defaults_source delete dispatch effective_limits explicit_eqb
    explicit_keys explicit_prop_keys flex_bounds flex_fields insert insert_child int_field keys
    known_keys list_eqb lookup map_eqb mark_all mark_explicit mem merge_normalized new
    normalize_props or_default overlay place props_eqb remove_child remove_first retarget
    rewrite_node root_ok str_field style_fields subset_eqb sweep sweep_all table_rows_of take_force
    same total unmark update_node upsert_at validate_enum validate_fields validate_flex
    validate_invariants validate_limits validate_normalized validate_operation validate_row_ids
    validate_style validate_table_limits validate_type walk walk_children would_create_cycle
starts = refl

apply-Committed_example : Committed limits (new sample) with_box add_box
apply-Committed_example =
    apply-Committed sample (new sample) with_box (add "a" NodeType.box) limits add_box adds_box

reachable-IsTree_example : IsTree limits with_box
reachable-IsTree_example =
    reachable-IsTree sample limits with_box starts
      (Reachable.step (add "a" NodeType.box) Reachable.start adds_box)

validate_invariants_iff_example :
    (validate_invariants with_box limits ≡ none) ↔ IsTree limits with_box
unfolding keys mem same
validate_invariants_iff_example = validate_invariants_iff with_box limits (refl, (refl, _))

abbrev two : List String
two = "a" ∷ "b" ∷ []

insert_child-lem_example :
    Placed two "c" (some (pos 1)) (insert_child two "c" (some (pos 1)))
    × (length (insert_child two "c" (some (pos 1))) ≡ suc (length two))
    × (remove_child (insert_child two "c" (some (pos 1))) "c" ≡ two)
unfolding mem same
insert_child-lem_example = insert_child-lem two "c" (some (pos 1)) refl

-- Limits without one on the number of nodes.
abbrev partial_limits : Limits
partial_limits = record limits { max_nodes = pos 0 }

effective_limits-lem_example :
    (validate_limits (effective_limits partial_limits) ≡ none)
    × ((validate_limits partial_limits ≡ none) ↔ (effective_limits partial_limits ≡ partial_limits))
effective_limits-lem_example = effective_limits-lem partial_limits

-- `{"op":"props","id":"root","props":{"gap":1}}` on the initial document
abbrev gap : Operation
gap = record (operation OpType.props "root") { props = "{\"gap\":1}" }

root_props-panics_example : apply sample (new sample) gap limits ≡ panics
unfolding allowed_props apply apply_props apply_remove apply_text apply_upsert bool_field
    check_changed check_column check_columns check_fields check_flex check_item check_items
    check_node check_row_ids check_sizes check_style check_visited child_index complete create_node
    decode_patch defaults defaults_source delete dispatch effective_limits explicit_eqb
    explicit_keys explicit_prop_keys flex_bounds flex_fields insert insert_child int_field keys
    known_keys list_eqb lookup map_eqb mark_all mark_explicit mem merge_normalized new
    normalize_props or_default overlay place props_eqb remove_child remove_first retarget
    rewrite_node root_ok str_field style_fields subset_eqb sweep sweep_all table_rows_of take_force
    same total unmark update_node upsert_at validate_enum validate_fields validate_flex
    validate_invariants validate_limits validate_normalized validate_operation validate_row_ids
    validate_style validate_table_limits validate_type walk walk_children would_create_cycle
root_props-panics_example =
    root_props-panics sample (new sample) gap limits root (("gap", "1") ∷ []) no_policy "gap" true
      [] Reachable.start refl refl refl refl refl refl

apply-returns_example : apply sample with_box (operation OpType.remove "a") limits ≢ diverges
apply-returns_example = apply-returns sample limits with_box (operation OpType.remove "a") (
    reachable-IsTree sample limits with_box starts
      (Reachable.step (add "a" NodeType.box) Reachable.start adds_box))
