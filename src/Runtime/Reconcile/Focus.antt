-- ===== src/Runtime/Reconcile/Focus.antt =====
-- runtime/state.go: where the focus is after `Reconcile`.
use a2ui_persistent_daemon.Base.{
  ℕ, zero, suc, ◌≡◌, subst, ◌⊎◌, inl, inr, Bool, true, not, ◌&&◌, List, [], ◌∷◌, String, same,
  same_iff, arith, Bool-cases, Option-cases,
}
use a2ui_persistent_daemon.Maps.{Map, lookup}
use a2ui_persistent_daemon.Protocol.Types.{Operation}
use a2ui_persistent_daemon.Protocol.Json.{Json}
use a2ui_persistent_daemon.Document.Types.{Node, Document, Effect}
use a2ui_persistent_daemon.Document.Reducer.Outcome.{Outcome, done}
use a2ui_persistent_daemon.Document.Reducer.Commit.{>>=-eq-done}
use a2ui_persistent_daemon.Runtime.State.{State, focusable}
use a2ui_persistent_daemon.Runtime.Tree.{first_focusable, first_of_children, build_bindings}
use a2ui_persistent_daemon.Runtime.Reconcile.{
  reconcile, carry_over, request_focus, drop_focus, fall_back, stamp, can_focus,
  focus_needs_fallback,
}

module _ (j : Json) where
  -- There is no focus, or it is on a node that can have it.
  abbrev pub FocusOk : Map Node → String → Type 0
  FocusOk m id = (id ≡ "") ⊎ (can_focus j (lookup id m) ≡ true)

  first_of_children-FocusOk :
      (m : Map Node) (f : String → Outcome String) (cs : List String) (id : String)
      → ((c x : String) → f c ≡ done x → FocusOk m x)
      → first_of_children f cs ≡ done id
      → FocusOk m id
  unfolding first_of_children
  first_of_children-FocusOk m f [] id ok h = inl (ground arith)
  first_of_children-FocusOk m f (c ∷ cs) id ok h =
      let (found, e, rest) = >>=-eq-done (f c) _ h in
      elim (Bool-cases (same found "")) [
        | inl q ↦ first_of_children-FocusOk m f cs id ok (ground arith)
        | inr q ↦ subst (FocusOk m) (ground arith) (ok c found e)
      ]

  first_focusable-FocusOk :
      (m : Map Node) (fuel : ℕ) (start id : String)
      → first_focusable j m fuel start ≡ done id
      → FocusOk m id
  unfolding first_focusable
  first_focusable-FocusOk m zero start id h = cc
  first_focusable-FocusOk m (suc fuel) start id h = elim (Option-cases (lookup start m)) [
    | inl e ↦ inl (ground arith)
    | inr (n, e) ↦ elim (Bool-cases (not (same start "root") && focusable j n)) [
      | inl q ↦ inr (ground arith)
      | inr q ↦
          first_of_children-FocusOk m (first_focusable j m fuel) n.children id
            (first_focusable-FocusOk m fuel) (ground arith)
    ]
  ]

  drop_focus-FocusOk :
      (s : State) (next : Document) → FocusOk next.nodes (drop_focus j s next).focused_id
  drop_focus-FocusOk s next = elim (Bool-cases (same s.focused_id "")) [
    | inl q ↦ inl (ground (arith, same_iff s.focused_id ""))
    | inr q ↦ elim (Bool-cases (can_focus j (lookup s.focused_id next.nodes))) [
      | inl k ↦ inr (rw (q, k) k)
      | inr k ↦ inl (rw (q, k))
    ]
  ]

  fall_back-FocusOk :
      (fuel : ℕ) (had : Bool) (s t : State) (next : Document) (op : Operation) (eff : Effect)
      → FocusOk next.nodes s.focused_id
      → fall_back j fuel had s next op eff ≡ done t
      → FocusOk next.nodes t.focused_id
  unfolding fall_back
  fall_back-FocusOk fuel had s t next op eff h e =
      elim (Bool-cases (had && (same s.focused_id "" && focus_needs_fallback op.op eff))) [
        | inl q ↦
            let (id, first, last) =
              >>=-eq-done (first_focusable j next.nodes fuel "root") _ (rw (q, fall_back) at e) in
            subst (FocusOk next.nodes) (ground arith)
              (first_focusable-FocusOk next.nodes fuel "root" id first)
        | inr q ↦ subst (FocusOk next.nodes) (ground arith) h
      ]

  -- After `Reconcile` has accepted a document, the focus is empty or on a node of the new document that
  -- can have it: an input, a selectable table, or a scrollable viewport.
  pub reconcile-FocusOk :
      (fuel : ℕ) (s t : State) (prev next : Document) (op : Operation) (eff : Effect)
      → reconcile j fuel s prev next op eff ≡ done t
      → FocusOk next.nodes t.focused_id
  unfolding reconcile stamp
  reconcile-FocusOk fuel s t prev next op eff h =
      let (asked, a, h1) =
        >>=-eq-done (request_focus j (carry_over j s prev next op eff) next op) _ h in
      let (focused, f, h2) =
        >>=-eq-done
          (fall_back j fuel (not (same s.focused_id "")) (drop_focus j asked next) next op eff) _
          h1 in
      let (bindings, b, last) = >>=-eq-done (build_bindings j next.nodes fuel "root" []) _ h2 in
      let eq : focused.focused_id ≡ t.focused_id = ground arith in
      subst (FocusOk next.nodes) eq (
        fall_back-FocusOk fuel _ (drop_focus j asked next) focused next op eff
          (drop_focus-FocusOk asked next) f)
