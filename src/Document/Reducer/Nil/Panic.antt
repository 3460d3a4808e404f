-- ===== src/Document/Reducer/Nil/Panic.antt =====
-- document/reducer.go: `applyProps` on the root writes to a nil map.
use a2ui_persistent_daemon.Base.{◌≡◌, sym, subst, Bool, none, some, String, arith, ◌∷◌}
use a2ui_persistent_daemon.Maps.{Map, lookup}
use a2ui_persistent_daemon.Protocol.Types.{Operation, props, ok, MutationPolicy}
use a2ui_persistent_daemon.Protocol.Limits.{Limits}
use a2ui_persistent_daemon.Protocol.Json.{Json}
use a2ui_persistent_daemon.Protocol.Validate.{validate_operation}
use a2ui_persistent_daemon.Protocol.Props.Normalize.{merge_normalized}
use a2ui_persistent_daemon.Document.Types.{Node, Document}
use a2ui_persistent_daemon.Document.Reducer.Tables.{explicit_prop_keys}
use a2ui_persistent_daemon.Document.Reducer.Outcome.{panics}
use a2ui_persistent_daemon.Document.Reducer.Edit.{apply_props, mark_explicit}
use a2ui_persistent_daemon.Document.Reducer.Apply.{apply, new}
use a2ui_persistent_daemon.Document.Reducer.Nil.Nodes.{RootNil}
use a2ui_persistent_daemon.Document.Reducer.Nil.Ops.{apply-RootNil}
use a2ui_persistent_daemon.Document.Reducer.Reach.{Reachable}

module _ (j : Json) where
  -- `props` that names a property, sent to a node whose `ExplicitProps` is nil, writes to the nil map.
  nil_explicit-panics :
      (d : Document) (op : Operation) (limits : Limits) (n : Node) (merged : Map String)
      (policy : MutationPolicy) (k : String) (v : Bool) (more : Map Bool)
      → op.op ≡ props
      → validate_operation j op limits ≡ none
      → lookup op.id d.nodes ≡ some n
      → n.explicit_props ≡ none
      → merge_normalized j n.type n.props op.props ≡ ok (merged, policy)
      → explicit_prop_keys j op.props ≡ (k, v) ∷ more
      → apply j d op limits ≡ panics
  unfolding apply apply_props mark_explicit
  nil_explicit-panics d op limits n merged policy k v more o valid found nil merge named =
      ground arith

  new-RootNil : RootNil (new j).nodes
  unfolding new lookup
  new-RootNil = ground arith

  reachable-RootNil : {limits : Limits} {d : Document} → Reachable j limits d → RootNil d.nodes
  reachable-RootNil Reachable.start = new-RootNil
  reachable-RootNil {limits} (Reachable.step {d} {next} {eff} op r h) =
      apply-RootNil j d next op limits eff (reachable-RootNil r) h

  -- In every document that operations lead to from `New`, a valid `props` on the root whose patch fits
  -- and names at least one property (other than `force`) makes `Apply` write to a nil map, which panics.
  pub root_props-panics :
      (d : Document) (op : Operation) (limits : Limits) (n : Node) (merged : Map String)
      (policy : MutationPolicy) (k : String) (v : Bool) (more : Map Bool)
      → Reachable j limits d
      → op.op ≡ props
      → op.id ≡ "root"
      → validate_operation j op limits ≡ none
      → lookup "root" d.nodes ≡ some n
      → merge_normalized j n.type n.props op.props ≡ ok (merged, policy)
      → explicit_prop_keys j op.props ≡ (k, v) ∷ more
      → apply j d op limits ≡ panics
  root_props-panics d op limits n merged policy k v more r o root valid found merge named =
      nil_explicit-panics d op limits n merged policy k v more o valid
        (subst (λ x. lookup x d.nodes ≡ some n) (sym root) found) (root_nil (reachable-RootNil r))
        merge named
    where
      root_nil : RootNil d.nodes → n.explicit_props ≡ none
      root_nil h = ground arith
