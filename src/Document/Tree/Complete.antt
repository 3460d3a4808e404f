-- ===== src/Document/Tree/Complete.antt =====
-- `Validate` of document/invariants.go accepts every tree.
use a2ui_persistent_daemon.Base.{
  ℕ, zero, suc, ◌≡◌, refl, sym, ◌∙◌, ap, subst, ◌↔◌, inl, inr, true, false, none, some, List, [],
  ◌∷◌, ◌++◌, String, arith, same, same_iff, Bool-cases, append_assoc, append-nil, length, All,
  exceeds, pos, leb_ℤ, eqb_ℤ_iff,
}
use a2ui_persistent_daemon.Names.{mem, Distinct, mem-append, Within, length-Within, same_refl}
use a2ui_persistent_daemon.Maps.{Map, lookup, keys, length-keys, total}
use a2ui_persistent_daemon.Protocol.Types.{Result, ok, box}
use a2ui_persistent_daemon.Protocol.Limits.{Limits}
use a2ui_persistent_daemon.Document.Types.{Node, Document, node_at}
use a2ui_persistent_daemon.Document.Invariants.{
  Marks, check_node, is_child_of, walk_children, walk, walk_node, unmark, enter, leave, levels,
  root_ok, check_visited, check_sizes, validate_invariants, text_bytes, node_bytes,
}
use a2ui_persistent_daemon.Document.Tree.Shape.{NodeOk, ChildOf, Grows, flat, preorder, IsTree}
use a2ui_persistent_daemon.Document.Tree.Sound.{Grows-Within, validate_invariants-IsTree}

NodeOk-check_node :
    (limits : Limits) (id : String) (n : Node) → NodeOk limits id n → check_node limits id n ≡ none
unfolding check_node
NodeOk-check_node limits id n k = ground (arith, same_iff n.id id)

ChildOf-is_child_of : (m : Map Node) (id c : String) → ChildOf m id c → is_child_of m id c ≡ true
ChildOf-is_child_of m id c k = rw (k.found, is_child_of) ((same_iff k.child.parent id).1 k.back)

Distinct-append_left : (xs ys : List String) → Distinct (xs ++ ys) → Distinct xs
unfolding mem
Distinct-append_left [] ys d = tt
Distinct-append_left (x ∷ xs) ys d = ground (arith, Distinct-append_left xs ys, mem-append x xs ys)

-- In a list without repetition a name that begins the second part is not in the first.
Distinct-middle :
    (xs : List String) (y : String) (ys : List String) → Distinct (xs ++ y ∷ ys) → mem y xs ≡ false
unfolding mem
Distinct-middle [] y ys d = refl
Distinct-middle (x ∷ xs) y ys d =
    ground (arith, Distinct-middle xs y ys, mem-append x xs (y ∷ ys), same_iff x y, same_refl y)

mem-unmark : (id x : String) (xs : List String) → mem x (unmark id xs) ≡ true → mem x xs ≡ true
unfolding mem unmark
mem-unmark id x [] h = h
mem-unmark id x (y ∷ ys) h = ground (arith, mem-unmark id x ys)

-- A walk that succeeds, and the marks that it leaves.
record Returns (r : Result Marks) (s : Marks) (names : List String) : Type 0 where
  marks : Marks
  returned : r ≡ ok marks
  listed : marks.visited ≡ s.visited ++ names
  entered : Within marks.seen marks.visited

enter-Within :
    (s : Marks) (id : String)
    → Within s.seen s.visited
    → Within (enter id s).seen (enter id s).visited
unfolding mem
enter-Within s id w x h = elim (Bool-cases (same id x)) [
  | inl p ↦ ground (arith, mem-append x s.visited (id ∷ []))
  | inr p ↦ ground (arith, mem-append x s.visited (id ∷ []), w x)
]

not_seen :
    (id : String) (s : Marks)
    → Within s.seen s.visited
    → mem id s.visited ≡ false
    → mem id s.seen ≡ false
not_seen id s w new = elim (Bool-cases (mem id s.seen)) [
  | inl p ↦ ground (arith, w id p)
  | inr p ↦ p
]

module _ (limits : Limits) (m : Map Node) where
  walk-step :
      (n : ℕ) (id : String) (s : Marks) (node : Node) (t : Marks)
      → mem id s.seen ≡ false
      → mem id s.visited ≡ false
      → lookup id m ≡ some node
      → check_node limits id node ≡ none
      → walk_children m (walk limits m n) id node.children (enter id s) ≡ ok t
      → walk limits m (suc n) id s ≡ leave id t
  unfolding walk
  walk-step n id s node t unseen new e good inner = rw (unseen, new, e, walk_node, good, inner)

  walk_children-Returns :
      (n : ℕ) (id : String) (cs : List String) (s : Marks)
      → ((c : String) (t : Marks)
          → Grows limits m n c
          → Within t.seen t.visited
          → Distinct (t.visited ++ preorder n m c)
          → Returns (walk limits m n c t) t (preorder n m c))
      → All (λ c. ChildOf m id c × Grows limits m n c) cs
      → Within s.seen s.visited
      → Distinct (s.visited ++ flat (preorder n m) cs)
      → Returns (walk_children m (walk limits m n) id cs s) s (flat (preorder n m) cs)
  unfolding walk_children
  walk_children-Returns n id [] s ih a w d = record {
    marks = s;
    returned = refl;
    listed = sym (append-nil s.visited);
    entered = w;
  }
  walk_children-Returns n id (c ∷ cs) s ih a w d =
      let regroup = append_assoc s.visited (preorder n m c) (flat (preorder n m) cs) in
      let d' : Distinct ((s.visited ++ preorder n m c) ++ flat (preorder n m) cs) =
        subst Distinct (sym regroup) d in
      let first = ih c s a.0.1 w (Distinct-append_left _ _ d') in
      let rest =
        walk_children-Returns n id cs first.marks ih a.1 first.entered
          (subst (λ l. Distinct (l ++ flat (preorder n m) cs)) (sym first.listed) d') in
      record {
        marks = rest.marks;
        returned = rw (ChildOf-is_child_of m id c a.0.0, first.returned) rest.returned;
        listed = rest.listed ∙ ap (λ l. l ++ flat (preorder n m) cs) first.listed ∙ regroup;
        entered = rest.entered;
      }

  walk-Returns :
      (n : ℕ) (id : String) (s : Marks)
      → Grows limits m n id
      → Within s.seen s.visited
      → Distinct (s.visited ++ preorder n m id)
      → Returns (walk limits m n id s) s (preorder n m id)
  unfolding walk
  walk-Returns zero id s g w d = absurd g
  walk-Returns (suc n) id s (node, e, good, below) w d =
      let here : node_at m id ≡ node = rw (e, node_at) in
      let d' : Distinct (s.visited ++ id ∷ flat (preorder n m) node.children) =
        subst (λ (k : Node). Distinct (s.visited ++ id ∷ flat (preorder n m) k.children)) here d in
      let new = Distinct-middle s.visited id _ d' in
      let regroup = append_assoc s.visited (id ∷ []) (flat (preorder n m) node.children) in
      let inner =
        walk_children-Returns n id node.children (enter id s) (walk-Returns n) below
          (enter-Within s id w) (subst Distinct (sym regroup) d') in
      record {
        marks = record (inner.marks) { seen = unmark id inner.marks.seen };
        returned =
            walk-step n id s node inner.marks (not_seen id s w new) new e
              (NodeOk-check_node limits id node good) inner.returned;
        listed =
            inner.listed
            ∙ regroup
            ∙ ap (λ (k : Node). s.visited ++ id ∷ flat (preorder n m) k.children) (sym here);
        entered = λ x h. inner.entered x (mem-unmark id x inner.marks.seen h);
      }

root_ok_of :
    (m : Map Node) (r : Node)
    → lookup "root" m ≡ some r
    → r.type ≡ box
    → r.id ≡ "root"
    → r.parent ≡ ""
    → root_ok m ≡ true
unfolding root_ok
root_ok_of m r e t i p = rw (e, root_ok) (ground (arith, same_refl "root", same_refl ""))

accept :
    (d : Document) (limits : Limits) (s : Marks)
    → root_ok d.nodes ≡ true
    → exceeds (length d.nodes) limits.max_nodes ≡ false
    → walk limits d.nodes (levels limits) "root" (record { seen = []; visited = [] }) ≡ ok s
    → length s.visited ≡ length d.nodes
    → exceeds (total node_bytes d.nodes) limits.max_document_bytes ≡ false
    → pos (text_bytes d.nodes) ≡ d.total_text_bytes
    → leb_ℤ d.total_text_bytes limits.max_total_text_bytes ≡ true
    → validate_invariants d limits ≡ none
unfolding validate_invariants check_visited check_sizes
accept d limits s r few w n small acc txt =
    let same = (eqb_ℤ_iff (pos (text_bytes d.nodes)) d.total_text_bytes).1 acc in ground arith

IsTree-validate_invariants :
    (d : Document) (limits : Limits)
    → Distinct (keys d.nodes)
    → IsTree limits d
    → validate_invariants d limits ≡ none
unfolding mem
IsTree-validate_invariants d limits u t =
    let walked =
      walk-Returns limits d.nodes (levels limits) "root" (record { seen = []; visited = [] })
        t.grows (λ x h. h) t.once in
    accept d limits walked.marks
      (root_ok_of d.nodes t.root t.root_found t.root_type t.root_id t.root_parent) t.few
      walked.returned
      (ap length walked.listed
        ∙ omega (
          arith,
          length-Within _ (keys d.nodes) t.once
              (Grows-Within limits d.nodes (levels limits) "root" t.grows),
          length-Within (keys d.nodes) _ u t.covers,
          length-keys d.nodes,
        ))
      t.small t.accounted t.text_small

-- The validation accepts a document exactly if it is a tree under `root`: every node is reached from
-- the root within the depth limit and exactly once, parents and children name one another, only
-- containers have children, and the counts and sizes are within their limits. (The keys of a Go map
-- are distinct.)
pub validate_invariants_iff :
    (d : Document) (limits : Limits)
    → Distinct (keys d.nodes)
    → (validate_invariants d limits ≡ none) ↔ IsTree limits d
validate_invariants_iff d limits u =
    (validate_invariants-IsTree d limits, IsTree-validate_invariants d limits u)
