-- ===== src/Document/Reducer/Nil/Ops.antt =====
-- document/reducer.go: no operation gives the root a map of explicit properties.
use a2ui_persistent_daemon.Base.{
  ◌⊎◌, ◌≡◌, subst, Bool, true, false, String, arith, inl, inr, Option-cases, same, same_iff,
}
use a2ui_persistent_daemon.Maps.{Map, lookup, insert}
use a2ui_persistent_daemon.Protocol.Types.{Operation, OpType, upsert, props, text, remove}
use a2ui_persistent_daemon.Protocol.Limits.{Limits}
use a2ui_persistent_daemon.Protocol.Json.{Json}
use a2ui_persistent_daemon.Protocol.Validate.{validate_operation, refuse_if}
use a2ui_persistent_daemon.Protocol.Props.Normalize.{normalize_props, merge_normalized}
use a2ui_persistent_daemon.Document.Types.{Node, Document, Effect, effect_of}
use a2ui_persistent_daemon.Document.Children.{insert_child}
use a2ui_persistent_daemon.Document.Reducer.Tables.{explicit_prop_keys}
use a2ui_persistent_daemon.Document.Reducer.Outcome.{done, require, try}
use a2ui_persistent_daemon.Document.Reducer.Upsert.{
  Placement, apply_upsert, upsert_at, update_node, create_node, rewrite_node, retarget, fuel_of,
  set_children, or_else, new_node, rewritten,
}
use a2ui_persistent_daemon.Document.Reducer.Edit.{apply_props, mark_explicit}
use a2ui_persistent_daemon.Document.Reducer.Apply.{apply, dispatch, check_changed}
use a2ui_persistent_daemon.Document.Reducer.Commit.{>>=-eq-done, tagged-eq-done}
use a2ui_persistent_daemon.Document.Reducer.Nil.Nodes.{
  insert-RootNil, retarget-RootNil, root_of_refuse, marked_nil, apply_text-RootNil,
  apply_remove-RootNil, RootNil,
}

module _ (j : Json) where
  rewrite_node_cases :
      (d : Document) (op : Operation) (eff : Effect) (limits : Limits) (n : Node) (p : Placement)
      (normalized : Map String) (explicit : Map Bool) (cand : Document) (eff' : Effect)
      → rewrite_node j d op eff limits n p normalized explicit ≡ done (cand, eff')
      → (cand.nodes ≡ p.nodes)
        ⊎ (cand.nodes ≡ insert op.id (rewritten op n p normalized explicit) p.nodes)
  unfolding rewrite_node
  rewrite_node_cases d op eff limits n p normalized explicit cand eff' e = ground arith

  rewrite_node-RootNil :
      (d : Document) (op : Operation) (eff : Effect) (limits : Limits) (n : Node) (p : Placement)
      (normalized : Map String) (explicit : Map Bool) (cand : Document) (eff' : Effect)
      → same op.id "root" ≡ false
      → RootNil p.nodes
      → rewrite_node j d op eff limits n p normalized explicit ≡ done (cand, eff')
      → RootNil cand.nodes
  unfolding rewrite_node
  rewrite_node-RootNil d op eff limits n p normalized explicit cand eff' r h e =
      elim (rewrite_node_cases d op eff limits n p normalized explicit cand eff' e) [
        | inl k ↦ rw k h
        | inr k ↦ rw k (
            insert-RootNil op.id (rewritten op n p normalized explicit) p.nodes h
              (λ q. ground arith))
      ]

  create_node-RootNil :
      (d : Document) (op : Operation) (eff : Effect) (limits : Limits) (normalized : Map String)
      (explicit : Map Bool) (cand : Document) (eff' : Effect)
      → same op.id "root" ≡ false
      → RootNil d.nodes
      → create_node j d op eff limits normalized explicit ≡ done (cand, eff')
      → RootNil cand.nodes
  unfolding create_node
  create_node-RootNil d op eff limits normalized explicit cand eff' r h e =
      elim (Option-cases (lookup (or_else op.parent "root") d.nodes)) [
        | inl q ↦ ground arith
        | inr (p, q) ↦
            let m1 = insert op.id (new_node op normalized explicit) d.nodes in
            let cs = insert_child p.children op.id op.index in
            let eq : insert (or_else op.parent "root") (set_children p cs) m1 ≡ cand.nodes =
              ground arith in
            subst RootNil eq (
              insert-RootNil (or_else op.parent "root") (set_children p cs) m1
                (insert-RootNil op.id (new_node op normalized explicit) d.nodes h
                  (λ k. ground arith))
                (λ k. ground (arith, same_iff (or_else op.parent "root") "root")))
      ]

  apply_props-RootNil :
      (d : Document) (op : Operation) (eff : Effect) (limits : Limits) (cand : Document)
      (eff' : Effect)
      → RootNil d.nodes
      → apply_props j d op eff limits ≡ done (cand, eff')
      → RootNil cand.nodes
  unfolding apply_props
  apply_props-RootNil d op eff limits cand eff' h e = elim (Option-cases (lookup op.id d.nodes)) [
    | inl q ↦ ground arith
    | inr (n, q) ↦
        let ((merged, policy), m, rest) =
          >>=-eq-done (try (merge_normalized j n.type n.props op.props)) _
            (rw (q, apply_props) at e) in
        let (explicit, x, last) =
          >>=-eq-done (mark_explicit n.explicit_props (explicit_prop_keys j op.props)) _ rest in
        let v : Node = record n { props = merged; explicit_props = explicit } in
        let cases : (cand.nodes ≡ d.nodes) ⊎ (cand.nodes ≡ insert op.id v d.nodes) = ground arith in
        elim cases [
          | inl k ↦ rw k h
          | inr k ↦ rw k (
              insert-RootNil op.id v d.nodes h (λ p.
                marked_nil n.explicit_props _ explicit (ground (arith, same_iff op.id "root")) x))
        ]
  ]

  upsert-RootNil :
      (d : Document) (op : Operation) (eff : Effect) (limits : Limits) (cand : Document)
      (eff' : Effect)
      → RootNil d.nodes
      → apply_upsert j d op eff limits ≡ done (cand, eff')
      → RootNil cand.nodes
  unfolding apply_upsert upsert_at update_node
  upsert-RootNil d op eff limits cand eff' h e =
      let (u, allowed, rest) =
        >>=-eq-done (require (refuse_if (same op.id "root") "document.root_immutable")) _ e in
      let ((normalized, policy), normal, last) =
        >>=-eq-done (try (normalize_props j op.type op.props true)) _ rest in
      let r = root_of_refuse op.id u allowed in
      elim (Option-cases (lookup op.id d.nodes)) [
        | inl q ↦
            create_node-RootNil d op (record eff { policy = policy }) limits normalized
              (explicit_prop_keys j op.props) cand eff' r h (rw q at last)
        | inr (n, q) ↦
            let (p, placed, rewrite) =
              >>=-eq-done (retarget (fuel_of limits) d.nodes op n) _ (rw q at last) in
            rewrite_node-RootNil d op (record eff { policy = policy }) limits n p normalized
              (explicit_prop_keys j op.props) cand eff' r
              (retarget-RootNil (fuel_of limits) d.nodes op n p h placed) rewrite
      ]

  dispatch-RootNil :
      (o : OpType) (d : Document) (op : Operation) (eff : Effect) (limits : Limits)
      (cand : Document) (eff' : Effect)
      → RootNil d.nodes
      → dispatch j o d op eff limits ≡ done (cand, eff')
      → RootNil cand.nodes
  unfolding dispatch
  dispatch-RootNil upsert d op eff limits cand eff' h e =
      upsert-RootNil d op eff limits cand eff' h e
  dispatch-RootNil props d op eff limits cand eff' h e =
      apply_props-RootNil d op eff limits cand eff' h e
  dispatch-RootNil text d op eff limits cand eff' h e =
      apply_text-RootNil d op eff limits cand eff' h e
  dispatch-RootNil remove d op eff limits cand eff' h e =
      apply_remove-RootNil (fuel_of limits) d op eff cand eff' h e
  dispatch-RootNil _ d op eff limits cand eff' h e = ground arith

  -- The root's map stays nil under every operation.
  pub apply-RootNil :
      (d next : Document) (op : Operation) (limits : Limits) (eff : Effect)
      → RootNil d.nodes
      → apply j d op limits ≡ done (next, eff)
      → RootNil next.nodes
  unfolding apply check_changed
  apply-RootNil d next op limits eff h e =
      let (u, valid, rest) =
        >>=-eq-done (require (validate_operation j op limits)) _ (tagged-eq-done j op _ e) in
      let ((cand, eff'), dispatched, checked) =
        >>=-eq-done (dispatch j op.op d op (effect_of op) limits) _ rest in
      let eq : cand.nodes ≡ next.nodes = ground arith in
      subst RootNil eq (dispatch-RootNil op.op d op (effect_of op) limits cand eff' h dispatched)
