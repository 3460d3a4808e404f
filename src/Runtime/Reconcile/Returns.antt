-- ===== src/Runtime/Reconcile/Returns.antt =====
-- runtime/state.go and runtime/bindings.go: the walks of `Reconcile` end on a tree.
use a2ui_persistent_daemon.Base.{
  ℕ, zero, suc, ◌≡◌, refl, subst, inl, inr, true, List, [], ◌∷◌, String, arith, Option-cases, All,
}
use a2ui_persistent_daemon.Maps.{Map, lookup, has}
use a2ui_persistent_daemon.Protocol.Types.{Operation}
use a2ui_persistent_daemon.Protocol.Limits.{Limits}
use a2ui_persistent_daemon.Protocol.Json.{Json, ActionItem}
use a2ui_persistent_daemon.Document.Types.{Node, Document, Effect, node_at}
use a2ui_persistent_daemon.Document.Tree.Shape.{IsTree, Grows, ChildOf}
use a2ui_persistent_daemon.Document.Reducer.Upsert.{fuel_of}
use a2ui_persistent_daemon.Document.Reducer.Returns.Grown.{node-Grows}
use a2ui_persistent_daemon.Document.Reducer.Returns.Total.{
  returns, >>=-returns, if-returns, returning,
}
use a2ui_persistent_daemon.Runtime.State.{State, Binding}
use a2ui_persistent_daemon.Runtime.Tree.{
  first_of_children, first_focusable, bind_children, bind_items, bind_node, build_bindings,
}
use a2ui_persistent_daemon.Runtime.Reconcile.{reconcile, request_focus, fall_back}

bind_items-returns :
    (id : String) (its : List ActionItem) (out : Map Binding)
    → returns (bind_items id its out) ≡ true
unfolding bind_items
bind_items-returns id [] out = refl
bind_items-returns id (it ∷ its) out =
    if-returns (has it.key out) _ _ refl (bind_items-returns id its _)

module _ (j : Json) (limits : Limits) (m : Map Node) where
  first_of_children-returns :
      (n : ℕ) (id : String)
      → ((c : String) → Grows limits m n c → returns (first_focusable j m n c) ≡ true)
      → (cs : List String) → All (λ c. ChildOf m id c × Grows limits m n c) cs
      → returns (first_of_children (first_focusable j m n) cs) ≡ true
  unfolding first_of_children
  first_of_children-returns n id each [] a = refl
  first_of_children-returns n id each (c ∷ cs) ((child, g), a) =
      let here = each c g in
      let later = first_of_children-returns n id each cs a in
      search (returning, here, later) depth 8

  first_focusable-returns :
      (n : ℕ) (id : String) → Grows limits m n id → returns (first_focusable j m n id) ≡ true
  unfolding first_focusable
  first_focusable-returns zero id g = absurd g
  first_focusable-returns (suc n) id (node, found, good, all) =
      let below =
        first_of_children-returns n id (λ c g. first_focusable-returns n c g) node.children all in
      ground (arith, below)

  bind_node-returns :
      (id : String) (n : Node) (out : Map Binding) → returns (bind_node j m id n out) ≡ true
  unfolding bind_node
  bind_node-returns id n out = search (returning, bind_items-returns) depth 8

  bind_children-returns :
      (n : ℕ) (id : String)
      → ((c : String) (out : Map Binding)
          → Grows limits m n c
          → returns (build_bindings j m n c out) ≡ true)
      → (cs : List String) (out : Map Binding) → All (λ c. ChildOf m id c × Grows limits m n c) cs
      → returns (bind_children (build_bindings j m n) cs out) ≡ true
  unfolding bind_children
  bind_children-returns n id each [] out a = refl
  bind_children-returns n id each (c ∷ cs) out ((child, g), a) =
      >>=-returns (build_bindings j m n c out) _ (each c out g)
        (λ next h. bind_children-returns n id each cs next a)

  build_bindings-returns :
      (n : ℕ) (id : String) (out : Map Binding)
      → Grows limits m n id
      → returns (build_bindings j m n id out) ≡ true
  unfolding build_bindings
  build_bindings-returns zero id out g = absurd g
  build_bindings-returns (suc n) id out (node, found, good, all) =
      >>=-returns (bind_node j m id (node_at m id) out) _ (bind_node-returns id (node_at m id) out)
        (λ next h.
          subst (λ cs. returns (bind_children (build_bindings j m n) cs next) ≡ true) (ground arith)
            (bind_children-returns n id (λ c o g. build_bindings-returns n c o g) node.children next
              all))

module _ (j : Json) where
  request_focus-returns :
      (s : State) (next : Document) (op : Operation) → returns (request_focus j s next op) ≡ true
  unfolding request_focus
  request_focus-returns s next op = elim (Option-cases (lookup op.id next.nodes)) [
    | inl e ↦ ground arith
    | inr (n, e) ↦ ground arith
  ]

  -- On a tree within the limits `Reconcile` comes to an end.
  pub reconcile-returns :
      (limits : Limits) (s : State) (prev next : Document) (op : Operation) (eff : Effect)
      → IsTree limits next
      → returns (reconcile j (fuel_of limits) s prev next op eff) ≡ true
  unfolding reconcile fall_back
  reconcile-returns limits s prev next op eff t =
      let root = node-Grows limits next "root" t.root t t.root_found in
      let first = first_focusable-returns j limits next.nodes (fuel_of limits) "root" root in
      let bindings = build_bindings-returns j limits next.nodes (fuel_of limits) "root" [] root in
      search (returning, request_focus-returns, first, bindings) depth 14
