-- ===== src/Runtime/Tree.antt =====
-- runtime/state.go and runtime/bindings.go: the walks over the document. A recursion over children has no
-- bound in the source; here it takes fuel, and `diverges` says that the fuel ran out.
use a2ui_persistent_daemon.Base.{
  ℕ, zero, suc, not, ◌&&◌, Option, none, some, List, [], ◌∷◌, ◌++◌, String, len, same, ◌==◌,
  if◌then◌else◌,
}
use a2ui_persistent_daemon.Maps.{Map, lookup, insert, has}
use a2ui_persistent_daemon.Protocol.Types.{new_error, actions, eqb_type}
use a2ui_persistent_daemon.Protocol.Json.{Json, ActionItem}
use a2ui_persistent_daemon.Protocol.Props.Schema.{entry}
use a2ui_persistent_daemon.Document.Types.{Node, node_at}
use a2ui_persistent_daemon.Document.Reducer.Outcome.{Outcome, done, refused, diverges, ◌>>=◌}
use a2ui_persistent_daemon.Runtime.State.{Binding, focusable}

-- The first child for which the walk finds something.
unfoldable pub first_of_children : (String → Outcome String) → List String → Outcome String
first_of_children f [] = done ""
first_of_children f (c ∷ cs) =
    let rest = first_of_children f cs in do found ← f c; if same found "" then rest else done found

unfoldable pub collect_children :
    (String → Outcome (List String)) → List String → Outcome (List String)
collect_children f [] = done []
collect_children f (c ∷ cs) = do first ← f c; rest ← collect_children f cs; done (first ++ rest)

unfoldable pub bind_children :
    (String → Map Binding → Outcome (Map Binding))
    → List String
    → Map Binding
    → Outcome (Map Binding)
bind_children f [] out = done out
bind_children f (c ∷ cs) out = do next ← f c out; bind_children f cs next

-- The loop over the items of one node: a key that is taken is a conflict.
unfoldable pub bind_items : String → List ActionItem → Map Binding → Outcome (Map Binding)
bind_items id [] out = done out
bind_items id (it ∷ its) out =
    let rest = bind_items id its (
      insert it.key
        (record {
          node_id = id;
          key = it.key;
          label = it.label;
          action = it.action;
          args = it.args;
        })
        out) in
    if has it.key out then refused (new_error "runtime.binding_conflict") else rest

module _ (j : Json) (m : Map Node) where
  abbrev first_at : (String → Outcome String) → String → Option Node → Outcome String
  first_at f id none = done ""
  first_at f id (some n) =
      let rest = first_of_children f n.children in
      if not (same id "root") && focusable j n then done id else rest

  unfoldable pub first_focusable : ℕ → String → Outcome String
  unfolding first_of_children
  first_focusable zero id = diverges
  first_focusable (suc fuel) id = first_at (first_focusable fuel) id (lookup id m)

  abbrev ids_at : (String → Outcome (List String)) → String → Option Node → Outcome (List String)
  ids_at f id none = done []
  ids_at f id (some n) = do
    below ← collect_children f n.children
    done (if not (same id "root") && focusable j n then id ∷ below else below)

  -- `FocusableIDs`, from a node on.
  unfoldable pub focusable_ids : ℕ → String → Outcome (List String)
  unfolding collect_children
  focusable_ids zero id = diverges
  focusable_ids (suc fuel) id = ids_at (focusable_ids fuel) id (lookup id m)

  unfoldable pub bind_node : String → Node → Map Binding → Outcome (Map Binding)
  unfolding bind_items
  bind_node id n out =
      if eqb_type n.type actions && not (len (entry n.props "items") == 0)
      then if (j.action_items (entry n.props "items")).1
        then bind_items id (j.action_items (entry n.props "items")).0 out
        else refused (new_error "runtime.invalid_actions")
      else done out

  -- The walk of `buildBindings`; a missing node reads as the zero value.
  unfoldable pub build_bindings : ℕ → String → Map Binding → Outcome (Map Binding)
  unfolding bind_node bind_children
  build_bindings zero id out = diverges
  build_bindings (suc fuel) id out = do
    next ← bind_node id (node_at m id) out
    bind_children (build_bindings fuel) (node_at m id).children next
