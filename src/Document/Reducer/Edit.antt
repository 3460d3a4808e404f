-- ===== src/Document/Reducer/Edit.antt =====
-- document/reducer.go: `applyProps`, `applyText` and `applyRemove`.
use Prim.Native.String.{◌++◌ as ◌+++◌}
use a2ui_persistent_daemon.Base.{
  ℕ, zero, suc, ◌+◌, Bool, true, not, ◌||◌, ◌&&◌, Option, none, some, List, [], ◌∷◌, ◌++◌, String,
  len, same, exceeds, if◌then◌else◌, ℤ, pos, leb_ℤ, ◌+ℤ◌, ◌-ℤ◌,
}
use a2ui_persistent_daemon.Maps.{Map, lookup, insert, delete}
use a2ui_persistent_daemon.Protocol.Types.{new_error, Operation, eqb_type, text, viewport}
use a2ui_persistent_daemon.Protocol.Limits.{Limits}
use a2ui_persistent_daemon.Protocol.Json.{Json}
use a2ui_persistent_daemon.Protocol.Props.Normalize.{merge_normalized}
use a2ui_persistent_daemon.Protocol.Validate.{refuse_if}
use a2ui_persistent_daemon.Document.Types.{Node, Document, Effect, node_at}
use a2ui_persistent_daemon.Document.Reducer.Outcome.{
  Outcome, done, refused, panics, diverges, ◌>>=◌, require, try,
}
use a2ui_persistent_daemon.Document.Reducer.Tables.{explicit_prop_keys, validate_table_limits}
use a2ui_persistent_daemon.Document.Reducer.Upsert.{props_eqb, explicit_eqb, set_children}

abbrev pub find_node : Option Node → Outcome Node
find_node none = refused (new_error "document.node_not_found")
find_node (some n) = done n

-- `for key := range keys { explicit[key] = true }`: a write to a nil map panics.
unfoldable pub mark_all : Map Bool → Map Bool → Map Bool
mark_all out [] = out
mark_all out ((k, v) ∷ more) = mark_all (insert k true out) more

unfoldable pub mark_explicit : Option (Map Bool) → Map Bool → Outcome (Option (Map Bool))
unfolding mark_all
mark_explicit none [] = done none
mark_explicit none (x ∷ more) = panics
mark_explicit (some out) more = done (some (mark_all out more))

unfoldable pub remove_first : List String → String → List String
remove_first [] id = []
remove_first (c ∷ cs) id = if same c id then cs else c ∷ remove_first cs id

-- What `sweep` works on: the nodes, the retained text, and the names removed so far.
pub record Sweep : Type 0 where
  pub nodes : Map Node
  pub total_text_bytes : ℤ
  pub removed : List String

unfoldable pub sweep_all : (String → Sweep → Option Sweep) → List String → Sweep → Option Sweep
sweep_all f [] s = some s
sweep_all f (c ∷ cs) s = elim (f c s) [ none ↦ none | some t ↦ sweep_all f cs t ]

abbrev pub drop_node : String → Node → Sweep → Sweep
drop_node id n s = record {
  nodes = delete id s.nodes;
  total_text_bytes = s.total_text_bytes -ℤ pos (len n.text);
  removed = s.removed ++ id ∷ [];
}

-- The recursion of `sweep` on fuel; `none` if the fuel runs out. The node is read before its children
-- are swept.
unfoldable pub sweep : ℕ → String → Sweep → Option Sweep
unfolding sweep_all
sweep zero id s = none
sweep (suc fuel) id s = elim (sweep_all (sweep fuel) (node_at s.nodes id).children s) [
  | none ↦ none
  | some t ↦ some (drop_node id (node_at s.nodes id) t)
]

module _ (j : Json) where
  unfoldable pub apply_props : Document → Operation → Effect → Limits → Outcome (Document × Effect)
  unfolding mark_explicit props_eqb explicit_eqb
  apply_props d op eff limits = do
    n ← find_node (lookup op.id d.nodes)
    (merged, policy) ← try (merge_normalized j n.type n.props op.props)
    explicit ← mark_explicit n.explicit_props (explicit_prop_keys j op.props)
    let eff' = record eff { policy = policy }
    let n' = record n { props = merged; explicit_props = explicit }
    let changed = (do
      _ ← require (validate_table_limits j n' limits)
      done (record d { nodes = insert op.id n' d.nodes }, record eff' { changed = true }))
    if props_eqb n.props merged && explicit_eqb n.explicit_props explicit
        then done (d, eff')
        else changed

unfoldable pub apply_text : Document → Operation → Effect → Limits → Outcome (Document × Effect)
apply_text d op eff limits = do
  n ← find_node (lookup op.id d.nodes)
  _ ← require (
      refuse_if (not (eqb_type n.type text || eqb_type n.type viewport))
        "document.text_unsupported")
  let appended = (do
    _ ← require (
        refuse_if (exceeds (len n.text + len op.text) limits.max_text_bytes_per_node)
          "resource.text_too_large")
    _ ← require (
        refuse_if
          (not (leb_ℤ (d.total_text_bytes +ℤ pos (len op.text)) limits.max_total_text_bytes))
          "resource.text_too_large")
    done (
      record d {
        nodes = insert op.id (record n { text = n.text +++ op.text }) d.nodes;
        total_text_bytes = d.total_text_bytes +ℤ pos (len op.text);
      },
      record eff { changed = true },
    ))
  if same op.text "" then done (d, eff) else appended

abbrev pub swept : Document → Effect → Option Sweep → Outcome (Document × Effect)
swept d eff none = diverges
swept d eff (some s) = done (
  record d { nodes = s.nodes; total_text_bytes = s.total_text_bytes },
  record eff { removed = s.removed; changed = true },
)

-- The fuel is an argument: the source's recursion has none.
unfoldable pub apply_remove : ℕ → Document → Operation → Effect → Outcome (Document × Effect)
unfolding remove_first sweep
apply_remove fuel d op eff = do
  _ ← require (refuse_if (same op.id "root") "document.root_immutable")
  n ← find_node (lookup op.id d.nodes)
  let p = node_at d.nodes n.parent
  swept d eff (
      sweep fuel op.id (record {
        nodes = insert n.parent (set_children p (remove_first p.children op.id)) d.nodes;
        total_text_bytes = d.total_text_bytes;
        removed = eff.removed;
      }))
