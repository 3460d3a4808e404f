-- ===== src/Document/Reducer/Returns/Sweeps.antt =====
-- document/reducer.go: the recursion of `applyRemove` ends on a tree, also while nodes go.
use a2ui_persistent_daemon.Base.{
  ℕ, zero, suc, ◌≡◌, refl, subst, inl, inr, true, Option, some, List, [], ◌∷◌, String, arith, same,
  Bool-cases, All,
}
use a2ui_persistent_daemon.Names.{mem, Within, same-eq, same_refl}
use a2ui_persistent_daemon.Maps.{Map, insert, delete, lookup-insert, lookup-delete}
use a2ui_persistent_daemon.Protocol.Limits.{Limits}
use a2ui_persistent_daemon.Document.Types.{Node, node_at}
use a2ui_persistent_daemon.Document.Tree.Shape.{Grows, ChildOf}
use a2ui_persistent_daemon.Document.Reducer.Edit.{Sweep, sweep, sweep_all, drop_node, remove_first}
use a2ui_persistent_daemon.Document.Reducer.Upsert.{set_children}

-- No node of the second map has a child that it has not in the first.
abbrev pub Shrinks : Map Node → Map Node → Type 0
Shrinks m m' = (id : String) → Within (node_at m' id).children (node_at m id).children

Shrinks-delete : (m m' : Map Node) (id : String) → Shrinks m m' → Shrinks m (delete id m')
Shrinks-delete m m' id h x c e = elim (Bool-cases (same id x)) [
  | inl gone ↦ unfold mem in (ground (arith, lookup-delete id x m'))
  | inr kept ↦ h x c (ground (arith, lookup-delete id x m'))
]

remove_first-Within : (cs : List String) (id : String) → Within (remove_first cs id) cs
unfolding mem remove_first
remove_first-Within [] id x h = h
remove_first-Within (c ∷ cs) id x h = ground (arith, remove_first-Within cs id x)

-- What `applyRemove` does to the parent.
pub Shrinks-unlink :
    (m : Map Node) (parent id : String)
    → Shrinks m (
        insert parent
          (set_children (node_at m parent) (remove_first (node_at m parent).children id))
          m)
Shrinks-unlink m parent id x c h = elim (Bool-cases (same parent x)) [
  | inl here ↦
      subst (λ p. mem c (node_at m p).children ≡ true) (same-eq parent x here)
        (remove_first-Within (node_at m parent).children id c (
          ground (
            arith,
            lookup-insert parent x
                (set_children (node_at m parent) (remove_first (node_at m parent).children id)) m,
          )))
  | inr apart ↦ ground (
    arith,
    lookup-insert parent x
        (set_children (node_at m parent) (remove_first (node_at m parent).children id)) m,
  )
]

-- A run of the recursion that ends, and what it leaves.
abbrev pub Ends : Map Node → Option Sweep → Type 0
Ends m o = (t : Sweep) × (o ≡ some t) × Shrinks m t.nodes

sweep_all-Ends :
    (m : Map Node) (f : String → Sweep → Option Sweep) (cs : List String) (s : Sweep)
    → ((c : String) (s : Sweep) → mem c cs ≡ true → Shrinks m s.nodes → Ends m (f c s))
    → Shrinks m s.nodes
    → Ends m (sweep_all f cs s)
unfolding sweep_all
sweep_all-Ends m f [] s each h = (s, refl, h)
sweep_all-Ends m f (c ∷ cs) s each h =
    let (t, e, shrunk) = each c s (unfold mem in (ground (arith, same_refl c))) h in
    let (u, e', shrunk') =
      sweep_all-Ends m f cs t (λ d r i. each d r (unfold mem in (ground arith))) shrunk in
    (u, ground arith, shrunk')

module _ (limits : Limits) (m : Map Node) where
  grown_child :
      (n : ℕ) (id c : String) (cs : List String)
      → All (λ c. ChildOf m id c × Grows limits m n c) cs
      → mem c cs ≡ true
      → Grows limits m n c
  unfolding mem
  grown_child n id c [] a h = absurd cc
  grown_child n id c (d ∷ cs) ((child, g), a) h = elim (Bool-cases (same d c)) [
    | inl e ↦ subst (Grows limits m n) (same-eq d c e) g
    | inr e ↦ grown_child n id c cs a (ground arith)
  ]

  pub sweep-Ends :
      (n : ℕ) (id : String) (s : Sweep)
      → Grows limits m n id
      → Shrinks m s.nodes
      → Ends m (sweep n id s)
  unfolding sweep
  sweep-Ends zero id s g h = absurd g
  sweep-Ends (suc n) id s (node, found, good, all) h =
      let (t, e, shrunk) =
        sweep_all-Ends m (sweep n) (node_at s.nodes id).children s
          (λ c r inside.
            sweep-Ends n c r (grown_child n id c node.children all (ground (arith, h id c inside))))
          h in
      (drop_node id (node_at s.nodes id) t, ground arith, Shrinks-delete m t.nodes id shrunk)
