-- ===== src/Document/Tree/Shape.antt =====
-- The shape of a document: a tree below `root` that holds each node once.
use a2ui_persistent_daemon.Base.{
  ℕ, zero, suc, ◌≡◌, ◌⊎◌, true, false, some, List, [], ◌∷◌, ◌++◌, String, exceeds, length, All, pos,
  leb_ℤ,
}
use a2ui_persistent_daemon.Names.{mem, Distinct}
use a2ui_persistent_daemon.Maps.{Map, lookup, has, total}
use a2ui_persistent_daemon.Protocol.Types.{box, is_valid, is_container}
use a2ui_persistent_daemon.Protocol.Limits.{Limits}
use a2ui_persistent_daemon.Document.Types.{Node, Document, node_at}
use a2ui_persistent_daemon.Document.Invariants.{levels, text_bytes, node_bytes}

-- A node that is filed under its own name, of a known type, with no more children than allowed, and
-- with children only if it is a container.
pub record NodeOk (limits : Limits) (id : String) (n : Node) : Type 0 where
  pub named : n.id ≡ id
  pub typed : is_valid n.type ≡ true
  pub narrow : exceeds (length n.children) limits.max_children ≡ false
  pub contains : (n.children ≡ []) ⊎ (is_container n.type ≡ true)

-- The child exists and names its parent.
pub record ChildOf (m : Map Node) (id c : String) : Type 0 where
  pub child : Node
  pub found : lookup c m ≡ some child
  pub back : child.parent ≡ id

module _ (limits : Limits) (m : Map Node) where
  -- Below a node everything is as it should be, for at most so many levels.
  abbrev pub Grows : ℕ → String → Type 0
  Grows zero id = ⊥
  Grows (suc n) id =
      (node : Node) × (lookup id m ≡ some node)
      × NodeOk limits id node
      × All (λ c. ChildOf m id c × Grows n c) node.children

abbrev pub flat : (String → List String) → List String → List String
flat f [] = []
flat f (c ∷ cs) = f c ++ flat f cs

-- The names of the nodes under a node, itself first, in tree order.
abbrev pub preorder : ℕ → Map Node → String → List String
preorder zero m id = []
preorder (suc n) m id = id ∷ flat (preorder n m) (node_at m id).children

pub record IsTree (limits : Limits) (d : Document) : Type 0 where
  pub root : Node
  pub root_found : lookup "root" d.nodes ≡ some root
  pub root_type : root.type ≡ box
  pub root_id : root.id ≡ "root"
  pub root_parent : root.parent ≡ ""
  pub grows : Grows limits d.nodes (levels limits) "root"
  pub once : Distinct (preorder (levels limits) d.nodes "root")
  pub covers :
      (x : String) → has x d.nodes ≡ true → mem x (preorder (levels limits) d.nodes "root") ≡ true
  pub few : exceeds (length d.nodes) limits.max_nodes ≡ false
  pub small : exceeds (total node_bytes d.nodes) limits.max_document_bytes ≡ false
  pub accounted : pos (text_bytes d.nodes) ≡ d.total_text_bytes
  pub text_small : leb_ℤ d.total_text_bytes limits.max_total_text_bytes ≡ true
