-- ===== src/Document/Reducer/Returns/Climb.antt =====
-- document/reducer.go: `wouldCreateCycle` climbs from any node of a tree to the top.
use a2ui_persistent_daemon.Base.{
  ℕ, zero, suc, ◌+◌, ◌≡◌, refl, sym, subst, inl, inr, Bool, true, false, Option, none, some, List,
  [], ◌∷◌, String, arith, same, Bool-cases, Option-cases, ◌∙◌, if◌then◌else◌, All,
}
use a2ui_persistent_daemon.Names.{mem, mem-append, same-eq}
use a2ui_persistent_daemon.Maps.{Map, lookup, has_of_lookup}
use a2ui_persistent_daemon.Protocol.Limits.{Limits}
use a2ui_persistent_daemon.Document.Types.{Node, Document}
use a2ui_persistent_daemon.Document.Invariants.{levels}
use a2ui_persistent_daemon.Document.Tree.Shape.{IsTree, Grows, ChildOf, preorder, flat}
use a2ui_persistent_daemon.Document.Reducer.Upsert.{would_create_cycle, fuel_of}

module _ (m : Map Node) where
  -- The loop ends, whatever node it looks for.
  abbrev pub Climbs : ℕ → String → Type 0
  Climbs k current = (x : String) → (b : Bool) × (would_create_cycle k m x current ≡ some b)

  -- One turn of the loop, with the rest of it as an argument.
  abbrev climb_by : (String → Option Bool) → String → String → Option Node → Option Bool
  climb_by f x current none =
      if same current "" then some false else if same current x then some true else some false
  climb_by f x current (some n) =
      if same current "" then some false else if same current x then some true else f n.parent

  climb_by-eq :
      (k : ℕ) (x current : String)
      → would_create_cycle (suc k) m x current
        ≡ climb_by (would_create_cycle k m x) x current (lookup current m)
  unfolding would_create_cycle
  climb_by-eq k x current = elim (Option-cases (lookup current m)) [
    | inl e ↦ ground arith
    | inr (n, e) ↦ ground arith
  ]

  climb_by_mono :
      (f g : String → Option Bool) (x current : String) (o : Option Node) (b : Bool)
      → ((c : String) → f c ≡ some b → g c ≡ some b)
      → climb_by f x current o ≡ some b
      → climb_by g x current o ≡ some b
  climb_by_mono f g x current none b h e = e
  climb_by_mono f g x current (some n) b h e = ground (arith, h n.parent)

  climb-suc :
      (k : ℕ) (x current : String) (b : Bool)
      → would_create_cycle k m x current ≡ some b
      → would_create_cycle (suc k) m x current ≡ some b
  climb-suc zero x current b h = unfold would_create_cycle in (cc)
  climb-suc (suc k) x current b h =
      climb_by-eq (suc k) x current
      ∙ climb_by_mono (would_create_cycle k m x) (would_create_cycle (suc k) m x) x current
          (lookup current m) b (λ c. climb-suc k x c b) (sym (climb_by-eq k x current) ∙ h)

  Climbs-suc : (k : ℕ) (current : String) → Climbs k current → Climbs (suc k) current
  Climbs-suc k current h x = let (b, e) = h x in (b, climb-suc k x current b e)

  Climbs-add : (n k : ℕ) (current : String) → Climbs k current → Climbs (n + k) current
  Climbs-add zero k current h = subst (λ n. Climbs n current) (omega arith) h
  Climbs-add (suc n) k current h =
      subst (λ i. Climbs i current) (omega arith)
        (Climbs-suc (n + k) current (Climbs-add n k current h))

  Climbs-empty : Climbs 1 ""
  unfolding would_create_cycle same
  Climbs-empty x = (false, refl)

  Climbs-child :
      (k : ℕ) (c : String) (n : Node) → lookup c m ≡ some n → Climbs k n.parent → Climbs (suc k) c
  unfolding would_create_cycle
  Climbs-child k c n found h x =
      let (b, e) = h x in
      elim (Bool-cases (same c "")) [
        | inl top ↦ (false, ground arith)
        | inr named ↦ elim (Bool-cases (same c x)) [
          | inl here ↦ (true, ground arith)
          | inr apart ↦ (b, ground arith)
        ]
      ]

  module _ (limits : Limits) where
    -- What lies under the children of a node climbs, if what lies under each child does.
    children-Climbs :
        (n k : ℕ) (id : String)
        → ((c x : String)
            → ChildOf m id c
            → Grows limits m n c
            → mem x (preorder n m c) ≡ true
            → Climbs k x)
        → (cs : List String) (x : String) → All (λ c. ChildOf m id c × Grows limits m n c) cs
        → mem x (flat (preorder n m) cs) ≡ true
        → Climbs k x
    children-Climbs n k id below [] x a h = unfold mem in (cc)
    children-Climbs n k id below (c ∷ cs) x ((child, grows), a) h =
        elim (Bool-cases (mem x (preorder n m c))) [
          | inl e ↦ below c x child grows e
          | inr e ↦
              children-Climbs n k id below cs x a
                (ground (arith, mem-append x (preorder n m c) (flat (preorder n m) cs)))
        ]

    -- What lies under a node climbs as the node does, with one more turn for each level.
    below-Climbs :
        (n k : ℕ) (id x : String)
        → Grows limits m n id
        → Climbs k id
        → mem x (preorder n m id) ≡ true
        → Climbs (n + k) x
    below-Climbs zero k id x g h e = absurd g
    below-Climbs (suc n) k id x (node, found, good, all) h e = elim (Bool-cases (same id x)) [
      | inl same_id ↦ subst (Climbs (suc n + k)) (same-eq id x same_id) (Climbs-add (suc n) k id h)
      | inr apart ↦
          subst (λ i. Climbs i x) (omega arith)
            (children-Climbs n (n + suc k) id
              (λ c y child grows inside.
                below-Climbs n (suc k) c y grows
                  (Climbs-child k c child.child child.found (subst (Climbs k) (sym child.back) h))
                  inside)
              node.children x all (unfold mem in (ground arith)))
    ]

-- In a tree the loop of `wouldCreateCycle` ends from every node.
pub node-Climbs :
    (limits : Limits) (d : Document) (id : String) (n : Node)
    → IsTree limits d
    → lookup id d.nodes ≡ some n
    → Climbs d.nodes (fuel_of limits) id
node-Climbs limits d id n t found =
    subst (λ i. Climbs d.nodes i id) (omega arith)
      (below-Climbs d.nodes limits (levels limits) 2 "root" id t.grows
        (Climbs-child d.nodes 1 "root" t.root t.root_found
          (subst (Climbs d.nodes 1) (sym t.root_parent) (Climbs-empty d.nodes)))
        (t.covers id (has_of_lookup id d.nodes n found)))
