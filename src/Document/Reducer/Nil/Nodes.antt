-- ===== src/Document/Reducer/Nil/Nodes.antt =====
-- document/reducer.go: the steps of the reducer that write no root with a map, over the nodes alone.
use Prim.Native.String.{◌++◌ as ◌+++◌}
use a2ui_persistent_daemon.Base.{
  ◌⊎◌, ℕ, zero, suc, ◌≡◌, sym, subst, Bool, true, false, Option, none, some, String, arith, inl,
  inr, Bool-cases, Option-cases, same, same_iff, [], List, ◌∷◌,
}
use a2ui_persistent_daemon.Maps.{Map, lookup, insert, delete, lookup-insert, lookup-delete}
use a2ui_persistent_daemon.Protocol.Types.{Operation}
use a2ui_persistent_daemon.Protocol.Limits.{Limits}
use a2ui_persistent_daemon.Protocol.Validate.{refuse_if}
use a2ui_persistent_daemon.Document.Types.{Node, Document, Effect, node_at}
use a2ui_persistent_daemon.Document.Children.{insert_child, remove_child}
use a2ui_persistent_daemon.Document.Reducer.Outcome.{done, require}
use a2ui_persistent_daemon.Document.Reducer.Upsert.{
  Placement, retarget, place, set_children, list_eqb, or_else,
}
use a2ui_persistent_daemon.Document.Reducer.Edit.{
  apply_text, apply_remove, mark_explicit, Sweep, sweep, sweep_all, remove_first, drop_node,
}

-- The root has the nil map. (A missing node reads as the zero value, which has it too.)
abbrev pub RootNil : Map Node → Type 0
RootNil m = (node_at m "root").explicit_props ≡ none

pub insert-RootNil :
    (k : String) (v : Node) (m : Map Node)
    → RootNil m
    → (same k "root" ≡ true → v.explicit_props ≡ none)
    → RootNil (insert k v m)
insert-RootNil k v m h hv = ground (arith, lookup-insert k "root" v m, hv)

pub delete-RootNil : (k : String) (m : Map Node) → RootNil m → RootNil (delete k m)
delete-RootNil k m h = ground (arith, lookup-delete k "root" m)

-- Writing a node back with other children.
pub set_children-RootNil :
    (k : String) (cs : List String) (m : Map Node)
    → RootNil m
    → RootNil (insert k (set_children (node_at m k) cs) m)
set_children-RootNil k cs m h =
    insert-RootNil k (set_children (node_at m k) cs) m h
      λ e. subst (λ x. (node_at m x).explicit_props ≡ none) (sym ((same_iff k "root").0 e)) h

pub sweep_all-RootNil :
    (f : ℕ) (cs : List String) (s t : Sweep)
    → ((c : String) (s' t' : Sweep) → RootNil s'.nodes → sweep f c s' ≡ some t' → RootNil t'.nodes)
    → RootNil s.nodes
    → sweep_all (sweep f) cs s ≡ some t
    → RootNil t.nodes
unfolding sweep_all
sweep_all-RootNil f [] s t ih h e = ground arith
sweep_all-RootNil f (c ∷ cs) s t ih h e = elim (Option-cases (sweep f c s)) [
  | inl none' ↦ ground arith
  | inr (s', e') ↦ sweep_all-RootNil f cs s' t ih (ih c s s' h e') (ground arith)
]

pub sweep-RootNil :
    (f : ℕ) (id : String) (s t : Sweep) → RootNil s.nodes → sweep f id s ≡ some t → RootNil t.nodes
unfolding sweep
sweep-RootNil zero id s t h e = cc
sweep-RootNil (suc f) id s t h e =
    elim (Option-cases (sweep_all (sweep f) (node_at s.nodes id).children s)) [
      | inl none' ↦ ground arith
      | inr (s', e') ↦
          let h' = sweep_all-RootNil f _ s s' (sweep-RootNil f) h e' in
          let eq : drop_node id (node_at s.nodes id) s' ≡ t = ground arith in
          subst (λ (r : Sweep). RootNil r.nodes) eq (delete-RootNil id s'.nodes h')
    ]

pub place-RootNil :
    (m : Map Node) (op : Operation) (n : Node) (target_id : String) (target : Node)
    → RootNil m
    → lookup target_id m ≡ some target
    → RootNil (place m op n target_id target).nodes
unfolding place
place-RootNil m op n target_id target h e = elim (Bool-cases (same target_id n.parent)) [
  | inl p ↦
      elim (Bool-cases (list_eqb old (insert_child (remove_child old op.id) op.id op.index))) [
        | inl q ↦ rw (p, q) h
        | inr q ↦
            rw (p, q)
              (set_children-RootNil n.parent (insert_child (remove_child old op.id) op.id op.index)
                m h)
      ]
  | inr p ↦ rw p (
      insert-RootNil target_id (set_children target (insert_child target.children op.id op.index))
        (insert n.parent (set_children (node_at m n.parent) (remove_child old op.id)) m)
        (set_children-RootNil n.parent (remove_child old op.id) m h) is_nil)
]
  where
    old : List String
    old = (node_at m n.parent).children

    is_nil : same target_id "root" ≡ true → target.explicit_props ≡ none
    is_nil q = ground (arith, same_iff target_id "root")

pub retarget_cases :
    (fuel : ℕ) (m : Map Node) (op : Operation) (n : Node) (p : Placement) (target : Node)
    → lookup (or_else op.parent n.parent) m ≡ some target
    → retarget fuel m op n ≡ done p
    → (p.nodes ≡ m) ⊎ (p.nodes ≡ (place m op n (or_else op.parent n.parent) target).nodes)
unfolding retarget
retarget_cases fuel m op n p target q e = ground arith

pub retarget-RootNil :
    (fuel : ℕ) (m : Map Node) (op : Operation) (n : Node) (p : Placement)
    → RootNil m
    → retarget fuel m op n ≡ done p
    → RootNil p.nodes
unfolding retarget
retarget-RootNil fuel m op n p h e =
    let target_id = or_else op.parent n.parent in
    elim (Option-cases (lookup target_id m)) [
      | inl q ↦ subst RootNil (ground arith) h
      | inr (target, q) ↦ elim (retarget_cases fuel m op n p target q e) [
        | inl k ↦ rw k h
        | inr k ↦ rw k (place-RootNil m op n target_id target h q)
      ]
    ]

pub root_of_refuse :
    (id : String) (u : Unit {0})
    → require (refuse_if (same id "root") "document.root_immutable") ≡ done u
    → same id "root" ≡ false
root_of_refuse id u h = ground arith

pub marked_nil :
    (o : Option (Map Bool)) (keys : Map Bool) (e : Option (Map Bool))
    → o ≡ none
    → mark_explicit o keys ≡ done e
    → e ≡ none
unfolding mark_explicit
marked_nil none [] e n h = ground arith
marked_nil none (x ∷ keys) e n h = cc
marked_nil (some o) keys e n h = cc

pub apply_text-RootNil :
    (d : Document) (op : Operation) (eff : Effect) (limits : Limits) (cand : Document)
    (eff' : Effect)
    → RootNil d.nodes
    → apply_text d op eff limits ≡ done (cand, eff')
    → RootNil cand.nodes
unfolding apply_text
apply_text-RootNil d op eff limits cand eff' h e = elim (Option-cases (lookup op.id d.nodes)) [
  | inl q ↦ ground arith
  | inr (n, q) ↦
      let v : Node = record n { text = n.text +++ op.text } in
      let cases : (cand.nodes ≡ d.nodes) ⊎ (cand.nodes ≡ insert op.id v d.nodes) = ground arith in
      elim cases [
        | inl k ↦ rw k h
        | inr k ↦
            rw k (insert-RootNil op.id v d.nodes h (λ p. ground (arith, same_iff op.id "root")))
      ]
]

pub apply_remove-RootNil :
    (fuel : ℕ) (d : Document) (op : Operation) (eff : Effect) (cand : Document) (eff' : Effect)
    → RootNil d.nodes
    → apply_remove fuel d op eff ≡ done (cand, eff')
    → RootNil cand.nodes
unfolding apply_remove
apply_remove-RootNil fuel d op eff cand eff' h e = elim (Option-cases (lookup op.id d.nodes)) [
  | inl q ↦ ground arith
  | inr (n, q) ↦
      let start : Sweep = record {
        nodes =
            insert n.parent
              (set_children (node_at d.nodes n.parent)
                (remove_first (node_at d.nodes n.parent).children op.id))
              d.nodes;
        total_text_bytes = d.total_text_bytes;
        removed = eff.removed;
      } in
      elim (Option-cases (sweep fuel op.id start)) [
        | inl k ↦ ground arith
        | inr (t, k) ↦
            let eq : t.nodes ≡ cand.nodes = ground arith in
            subst RootNil eq (
              sweep-RootNil fuel op.id start t
                (set_children-RootNil n.parent
                  (remove_first (node_at d.nodes n.parent).children op.id) d.nodes h)
                k)
      ]
]
