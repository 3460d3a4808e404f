-- ===== src/Document/Reducer/Upsert.antt =====
-- document/reducer.go: `wouldCreateCycle` and `applyUpsert`.
use a2ui_persistent_daemon.Base.{
  ℕ, zero, suc, Bool, true, false, not, ◌||◌, ◌&&◌, Option, none, some, List, [], ◌∷◌, String, len,
  same, if◌then◌else◌, pos, ◌-ℤ◌,
}
use a2ui_persistent_daemon.Maps.{Map, lookup, insert, map_eqb}
use a2ui_persistent_daemon.Protocol.Types.{new_error, Operation, eqb_type, is_container}
use a2ui_persistent_daemon.Protocol.Limits.{Limits}
use a2ui_persistent_daemon.Protocol.Json.{Json}
use a2ui_persistent_daemon.Protocol.Props.Normalize.{normalize_props}
use a2ui_persistent_daemon.Protocol.Validate.{refuse_if}
use a2ui_persistent_daemon.Document.Types.{Node, Document, Effect, node_at}
use a2ui_persistent_daemon.Document.Children.{remove_child, insert_child}
use a2ui_persistent_daemon.Document.Invariants.{is_nil, levels}
use a2ui_persistent_daemon.Document.Reducer.Outcome.{
  Outcome, done, refused, diverges, ◌>>=◌, require, try,
}
use a2ui_persistent_daemon.Document.Reducer.Tables.{explicit_prop_keys, validate_table_limits}

-- The loop of `wouldCreateCycle` along the parents, on fuel; `none` if the fuel runs out.
unfoldable pub would_create_cycle : ℕ → Map Node → String → String → Option Bool
would_create_cycle zero m id current = none
would_create_cycle (suc fuel) m id current =
    let next : Option Bool = elim (lookup current m) [
      | none ↦ some false
      | some n ↦ would_create_cycle fuel m id n.parent
    ] in
    if same current "" then some false else if same current id then some true else next

-- Enough for a tree: its depth, the root, and the empty parent of the root.
abbrev pub fuel_of : Limits → ℕ
fuel_of limits = suc (suc (levels limits))

abbrev pub set_children : Node → List String → Node
set_children n cs = record n { children = cs }

unfoldable pub list_eqb : List String → List String → Bool
list_eqb [] [] = true
list_eqb (x ∷ xs) (y ∷ ys) = same x y && list_eqb xs ys
list_eqb _ _ = false

abbrev bool_eqb : Bool → Bool → Bool
bool_eqb true b = b
bool_eqb false b = not b

-- `reflect.DeepEqual` on the two kinds of maps; a nil map is not an empty one.
unfoldable pub props_eqb : Map String → Map String → Bool
props_eqb a b = map_eqb same a b

unfoldable pub explicit_eqb : Option (Map Bool) → Option (Map Bool) → Bool
explicit_eqb none none = true
explicit_eqb (some a) (some b) = map_eqb bool_eqb a b
explicit_eqb _ _ = false

-- The nodes, the parent of the upserted node, and whether the topology changed.
pub record Placement : Type 0 where
  pub nodes : Map Node
  pub parent : String
  pub moved : Bool

-- `if parentChanged { … } else { … }`
unfoldable pub place : Map Node → Operation → Node → String → Node → Placement
unfolding list_eqb
place m op n target_id target =
    if same target_id n.parent
    then if list_eqb (node_at m n.parent).children
        (insert_child (remove_child (node_at m n.parent).children op.id) op.id op.index)
      then record { nodes = m; parent = n.parent; moved = false }
      else record {
        nodes =
            insert n.parent
              (set_children (node_at m n.parent)
                (insert_child (remove_child (node_at m n.parent).children op.id) op.id op.index))
              m;
        parent = n.parent;
        moved = true;
      }
    else record {
      nodes = insert target_id (set_children target (insert_child target.children op.id op.index)) (
          insert n.parent
            (set_children (node_at m n.parent) (remove_child (node_at m n.parent).children op.id))
            m);
      parent = target_id;
      moved = true;
    }

abbrev pub refuse_cycle : Option Bool → Outcome (Unit {0})
refuse_cycle none = diverges
refuse_cycle (some true) = refused (new_error "document.cycle")
refuse_cycle (some false) = done tt

abbrev pub find_parent : Option Node → Outcome Node
find_parent none = refused (new_error "document.parent_not_found")
find_parent (some p) = done p

abbrev pub or_else : String → String → String
or_else s fallback = if same s "" then fallback else s

abbrev is_some {ℓ} : {A : Type ℓ} → Option A → Bool
is_some none = false
is_some (some a) = true

-- `if topologyRequested { … }`
unfoldable pub retarget : ℕ → Map Node → Operation → Node → Outcome Placement
unfolding would_create_cycle place
retarget fuel m op n =
    let target_id = or_else op.parent n.parent in
    let requested = (do
      target ← find_parent (lookup target_id m)
      _ ← refuse_cycle (would_create_cycle fuel m op.id target_id)
      _ ← require (refuse_if (not (is_container target.type)) "document.parent_not_container")
      done (place m op n target_id target)) in
    if not (same target_id n.parent) || is_some op.index
    then requested
    else done (record { nodes = m; parent = n.parent; moved = false })

abbrev pub new_node : Operation → Map String → Map Bool → Node
new_node op normalized explicit = record {
  id = op.id;
  type = op.type;
  parent = or_else op.parent "root";
  children = [];
  props = normalized;
  explicit_props = some explicit;
  text = "";
}

-- The node as the branch of an existing node leaves it.
abbrev pub rewritten : Operation → Node → Placement → Map String → Map Bool → Node
rewritten op n p normalized explicit = record n {
  type = op.type;
  parent = p.parent;
  props = if props_eqb n.props normalized then n.props else normalized;
  explicit_props =
      if explicit_eqb n.explicit_props (some explicit) then n.explicit_props else some explicit;
  text = if eqb_type n.type op.type then n.text else "";
}

module _ (j : Json) where
  -- The branch of an existing node `n`, from `typeChanged` on.
  unfoldable pub rewrite_node :
      Document
      → Operation
      → Effect
      → Limits
      → Node
      → Placement
      → Map String
      → Map Bool
      → Outcome (Document × Effect)
  unfolding props_eqb explicit_eqb
  rewrite_node d op eff limits n p normalized explicit =
      let type_changed = not (eqb_type n.type op.type) in
      let props_changed = not (props_eqb n.props normalized) in
      let explicit_changed = not (explicit_eqb n.explicit_props (some explicit)) in
      let n' = rewritten op n p normalized explicit in
      let freed = if type_changed then len n.text else 0 in
      let eff' : Effect = record eff { type_changed = type_changed || eff.type_changed } in
      do
        _ ← require (
            refuse_if (type_changed && (not (is_nil n.children) && not (is_container op.type)))
              "document.parent_not_container")
        _ ← require (validate_table_limits j n' limits)
        done (
            if p.moved || (type_changed || (props_changed || explicit_changed))
            then (
              record d {
                nodes = insert op.id n' p.nodes;
                total_text_bytes = d.total_text_bytes -ℤ pos freed;
              },
              record eff' { changed = true },
            )
            else (record d { nodes = p.nodes }, eff'))

  unfoldable pub update_node :
      Document
      → Operation
      → Effect
      → Limits
      → Node
      → Map String
      → Map Bool
      → Outcome (Document × Effect)
  unfolding retarget rewrite_node
  update_node d op eff limits n normalized explicit = do
    p ← retarget (fuel_of limits) d.nodes op n
    rewrite_node d op eff limits n p normalized explicit

  -- The branch of a new node.
  unfoldable pub create_node :
      Document → Operation → Effect → Limits → Map String → Map Bool → Outcome (Document × Effect)
  create_node d op eff limits normalized explicit =
      let parent_id = or_else op.parent "root" in
      let n = new_node op normalized explicit in
      do
        p ← find_parent (lookup parent_id d.nodes)
        _ ← require (refuse_if (not (is_container p.type)) "document.parent_not_container")
        _ ← require (validate_table_limits j n limits)
        done (
          record d {
            nodes =
                insert parent_id (set_children p (insert_child p.children op.id op.index))
                  (insert op.id n d.nodes);
          },
          record eff { changed = true },
        )

  -- `if exists { … }` and what follows it.
  unfoldable pub upsert_at :
      Document
      → Operation
      → Effect
      → Limits
      → Map String
      → Map Bool
      → Option Node
      → Outcome (Document × Effect)
  unfolding update_node create_node
  upsert_at d op eff limits normalized explicit none =
      create_node d op eff limits normalized explicit
  upsert_at d op eff limits normalized explicit (some n) =
      update_node d op eff limits n normalized explicit

  unfoldable pub apply_upsert : Document → Operation → Effect → Limits → Outcome (Document × Effect)
  unfolding upsert_at
  apply_upsert d op eff limits = do
    _ ← require (refuse_if (same op.id "root") "document.root_immutable")
    (normalized, policy) ← try (normalize_props j op.type op.props true)
    upsert_at d op (record eff { policy = policy }) limits normalized
        (explicit_prop_keys j op.props) (lookup op.id d.nodes)
