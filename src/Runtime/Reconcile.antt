-- ===== src/Runtime/Reconcile.antt =====
-- runtime/state.go: `Reconcile`, which brings the interaction state in line with a new document.
pub mod Focus
pub mod Returns
use a2ui_persistent_daemon.Base.{
  ℕ, Bool, true, false, not, ◌||◌, ◌&&◌, Option, none, some, List, [], ◌∷◌, String, same, u64_suc,
  if◌then◌else◌,
}
use a2ui_persistent_daemon.Maps.{Map, lookup, insert, delete, has, map_eqb}
use a2ui_persistent_daemon.Protocol.Types.{
  NodeType, OpType, Operation, Error, new_error, MutationPolicy, input, eqb_type, upsert, props,
  remove, focus,
}
use a2ui_persistent_daemon.Protocol.Json.{Json}
use a2ui_persistent_daemon.Document.Types.{Node, Document, Effect}
use a2ui_persistent_daemon.Document.Reducer.Outcome.{
  Outcome, done, refused, panics, diverges, ◌>>=◌,
}
use a2ui_persistent_daemon.Runtime.State.{State, Binding, TableSelection, prop_string, focusable}
use a2ui_persistent_daemon.Runtime.Selection.Rows.{reconcile_table_selections, eqb_selection}
use a2ui_persistent_daemon.Runtime.Tree.{first_focusable, build_bindings}

-- `if cand.FocusedID == id { cand.FocusedID = "" }`, with the input value of the node deleted.
abbrev pub forget : String → State → State
forget id s = record s {
  input_values = delete id s.input_values;
  focused_id = if same s.focused_id id then "" else s.focused_id;
}

unfoldable pub forget_all : List String → State → State
forget_all [] s = s
forget_all (id ∷ ids) s = forget_all ids (forget id s)

abbrev pub is_focus : OpType → Bool
is_focus focus = true
is_focus _ = false

-- `focusNeedsFallback`
unfoldable pub focus_needs_fallback : OpType → Effect → Bool
focus_needs_fallback remove eff = true
focus_needs_fallback props eff = true
focus_needs_fallback upsert eff = true
focus_needs_fallback _ eff = eff.type_changed

abbrev eqb_binding : Binding → Binding → Bool
eqb_binding a b =
    same a.node_id b.node_id
    && (same a.key b.key
        && (same a.label b.label && (same a.action b.action && same a.args b.args)))

module _ (j : Json) where
  abbrev was_input : Option Node → Bool
  was_input none = false
  was_input (some old) = eqb_type old.type input

  -- The loop over the inputs of the new document: a new input, a forced value or a missing entry takes
  -- the value of the properties.
  unfoldable pub refresh_inputs : Map Node → Operation → Effect → Map Node → Map String → Map String
  refresh_inputs prev op eff [] values = values
  refresh_inputs prev op eff ((id, n) ∷ m) values = refresh_inputs prev op eff m (
      if eqb_type n.type input
        && (not (was_input (lookup id prev))
            || (eff.policy.force_input_value && same id op.id || not (has id values)))
      then insert id (prop_string j n "value") values
      else values)

  abbrev pub can_focus : Option Node → Bool
  can_focus none = false
  can_focus (some n) = focusable j n

  abbrev focus_target : State → String → Option Node → Outcome State
  focus_target s id none = refused (new_error "runtime.node_not_found")
  focus_target s id (some n) =
      if focusable j n
      then done (record s { focused_id = id })
      else refused (new_error "runtime.not_focusable")

  -- `if op.Op == OpFocus { … }`
  unfoldable pub request_focus : State → Document → Operation → Outcome State
  request_focus s next op =
      let target = focus_target s op.id (lookup op.id next.nodes) in
      if is_focus op.op then target else done s

  -- The focus does not stay on a node that is gone or cannot have it.
  abbrev pub drop_focus : State → Document → State
  drop_focus s next = record s {
    focused_id =
        if same s.focused_id "" || can_focus (lookup s.focused_id next.nodes)
        then s.focused_id
        else "";
  }

  -- The fuel is that of `firstFocusable`.
  unfoldable pub fall_back : ℕ → Bool → State → Document → Operation → Effect → Outcome State
  unfolding focus_needs_fallback
  fall_back fuel had_focus s next op eff =
      let first = (do
        id ← first_focusable j next.nodes fuel "root"
        done (record s { focused_id = id })) in
      if had_focus && (same s.focused_id "" && focus_needs_fallback op.op eff)
      then first
      else done s

  unfoldable pub projection_changed : State → State → Effect → Bool
  projection_changed s cand eff =
      eff.changed
      || (not (same cand.focused_id s.focused_id)
          || (not (map_eqb same cand.input_values s.input_values)
              || (not (map_eqb (eqb_selection j) cand.table_selections s.table_selections)
                  || not (map_eqb eqb_binding cand.bindings s.bindings))))

  -- The last part of `Reconcile`, from `cand.Bindings = bindings` on.
  unfoldable pub stamp : State → State → Document → Effect → State
  unfolding projection_changed
  stamp s cand next eff =
      let dirty : ℕ = if eff.changed then next.revision else cand.dirty_revision in
      let moved = projection_changed s cand eff in
      record cand {
        dirty_revision = dirty;
        render_generation = if moved then u64_suc s.render_generation else cand.render_generation;
        publication_generation =
            if moved then u64_suc s.publication_generation else cand.publication_generation;
      }

  -- The state after the deletions and the loop over the inputs.
  unfoldable pub carry_over : State → Document → Document → Operation → Effect → State
  unfolding forget_all refresh_inputs
  carry_over s prev next op eff =
      let kept = forget_all eff.removed s in
      let typed : State = if eff.type_changed then forget op.id kept else kept in
      record typed { input_values = refresh_inputs prev.nodes op eff next.nodes typed.input_values }

  -- The state is replaced at the end only, so an error leaves it as it was.
  unfoldable pub reconcile : ℕ → State → Document → Document → Operation → Effect → Outcome State
  unfolding carry_over request_focus fall_back stamp
  reconcile fuel s prev next op eff = do
    asked ← request_focus (carry_over s prev next op eff) next op
    focused ← fall_back fuel (not (same s.focused_id "")) (drop_focus asked next) next op eff
    bindings ← build_bindings j next.nodes fuel "root" []
    done (
        stamp s
          (record focused {
            table_selections = reconcile_table_selections j next.nodes focused.table_selections;
            bindings = bindings;
          })
          next eff)
