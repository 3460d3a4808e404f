-- ===== src/Document/Reducer/Returns/Grown.antt =====
-- The subtrees of a document, as the recursions over it meet them.
use a2ui_persistent_daemon.Base.{
  ℕ, zero, suc, ◌≡◌, subst, inl, inr, true, some, List, [], ◌∷◌, String, arith, same, Bool-cases,
  All,
}
use a2ui_persistent_daemon.Names.{mem, mem-append, same-eq}
use a2ui_persistent_daemon.Maps.{Map, lookup, has_of_lookup}
use a2ui_persistent_daemon.Protocol.Limits.{Limits}
use a2ui_persistent_daemon.Document.Types.{Node, Document}
use a2ui_persistent_daemon.Document.Invariants.{levels}
use a2ui_persistent_daemon.Document.Tree.Shape.{IsTree, Grows, ChildOf, preorder, flat}
use a2ui_persistent_daemon.Document.Reducer.Upsert.{fuel_of}

module _ (limits : Limits) (m : Map Node) where
  children-suc :
      (n : ℕ) (id : String)
      → ((c : String) → Grows limits m n c → Grows limits m (suc n) c)
      → (cs : List String) → All (λ c. ChildOf m id c × Grows limits m n c) cs
      → All (λ c. ChildOf m id c × Grows limits m (suc n) c) cs
  children-suc n id up [] a = a
  children-suc n id up (c ∷ cs) ((child, g), a) = ((child, up c g), children-suc n id up cs a)

  pub Grows-suc : (n : ℕ) (id : String) → Grows limits m n id → Grows limits m (suc n) id
  Grows-suc zero id g = absurd g
  Grows-suc (suc n) id (node, found, good, all) =
      (node, found, good, children-suc n id (λ c g. Grows-suc n c g) node.children all)

  children_below :
      (n : ℕ) (id x : String)
      → ((c : String) → Grows limits m n c → mem x (preorder n m c) ≡ true → Grows limits m n x)
      → (cs : List String) → All (λ c. ChildOf m id c × Grows limits m n c) cs
      → mem x (flat (preorder n m) cs) ≡ true
      → Grows limits m n x
  children_below n id x below [] a h = unfold mem in (absurd cc)
  children_below n id x below (c ∷ cs) ((child, g), a) h =
      elim (Bool-cases (mem x (preorder n m c))) [
        | inl e ↦ below c g e
        | inr e ↦
            children_below n id x below cs a
              (ground (arith, mem-append x (preorder n m c) (flat (preorder n m) cs)))
      ]

  Grows-below :
      (n : ℕ) (id x : String)
      → Grows limits m n id
      → mem x (preorder n m id) ≡ true
      → Grows limits m n x
  Grows-below zero id x g h = absurd g
  Grows-below (suc n) id x (node, found, good, all) h = elim (Bool-cases (same id x)) [
    | inl here ↦ subst (Grows limits m (suc n)) (same-eq id x here) (node, found, good, all)
    | inr apart ↦ Grows-suc n x (
        children_below n id x (λ c g inside. Grows-below n c x g inside) node.children all
          (unfold mem in (ground arith)))
  ]

-- Every node of a tree has a subtree that the fuel suffices for.
pub node-Grows :
    (limits : Limits) (d : Document) (id : String) (n : Node)
    → IsTree limits d
    → lookup id d.nodes ≡ some n
    → Grows limits d.nodes (fuel_of limits) id
node-Grows limits d id n t found = Grows-suc limits d.nodes (suc (levels limits)) id (
    Grows-suc limits d.nodes (levels limits) id (
      Grows-below limits d.nodes (levels limits) "root" id t.grows
        (t.covers id (has_of_lookup id d.nodes n found))))
