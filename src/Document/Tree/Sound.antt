-- ===== src/Document/Tree/Sound.antt =====
-- `Validate` of document/invariants.go accepts trees only.
use a2ui_persistent_daemon.Base.{
  ℕ, zero, suc, ◌≡◌, refl, sym, ◌∙◌, ap, subst, inl, inr, true, false, ◌||◌, ◌&&◌, none, some, List,
  [], ◌∷◌, String, arith, same, same_iff, Bool-cases, Option-cases, length, All, exceeds, pos,
  leb_ℤ, eqb_ℤ_iff,
}
use a2ui_persistent_daemon.Names.{mem, Distinct, mem-append, Within, Within-of_length}
use a2ui_persistent_daemon.Maps.{Map, lookup, keys, has, has_of_lookup, length-keys, total}
use a2ui_persistent_daemon.Protocol.Types.{Result, ok, err, NodeType, eqb_type, box}
use a2ui_persistent_daemon.Protocol.Limits.{Limits}
use a2ui_persistent_daemon.Document.Types.{Node, Document, node_at}
use a2ui_persistent_daemon.Document.Invariants.{
  Marks, walk, levels, root_ok, check_visited, check_sizes, validate_invariants, text_bytes,
  node_bytes,
}
use a2ui_persistent_daemon.Document.Tree.Shape.{ChildOf, Grows, flat, preorder, IsTree}
use a2ui_persistent_daemon.Document.Tree.Walk.{walk-Visits}

module _ (limits : Limits) (m : Map Node) where
  flat-Within :
      (n : ℕ) (id : String) (cs : List String)
      → ((c : String) → Grows limits m n c → Within (preorder n m c) (keys m))
      → All (λ c. ChildOf m id c × Grows limits m n c) cs
      → Within (flat (preorder n m) cs) (keys m)
  unfolding mem
  flat-Within n id [] ih a x h = cc
  flat-Within n id (c ∷ cs) ih a x h = elim (Bool-cases (mem x (preorder n m c))) [
    | inl here ↦ ih c a.0.1 x here
    | inr there ↦
        flat-Within n id cs ih a.1 x
          (ground (arith, mem-append x (preorder n m c) (flat (preorder n m) cs)))
  ]

  -- The listing of a tree names existing nodes only.
  pub Grows-Within : (n : ℕ) (id : String) → Grows limits m n id → Within (preorder n m id) (keys m)
  unfolding mem
  Grows-Within zero id g x h = absurd g
  Grows-Within (suc n) id (node, e, good, below) x h = elim (Bool-cases (same id x)) [
    | inl p ↦ subst (λ y. has y m ≡ true) ((same_iff id x).0 p) (has_of_lookup id m node e)
    | inr p ↦
        let here : node_at m id ≡ node = rw (e, node_at) in
        flat-Within n id node.children (Grows-Within n) below x (
          subst (λ (k : Node). mem x (flat (preorder n m) k.children) ≡ true) here
            (rw (p, ◌||◌) at h))
  ]

pub record RootOk (m : Map Node) : Type 0 where
  pub root : Node
  pub found : lookup "root" m ≡ some root
  pub type : root.type ≡ box
  pub id : root.id ≡ "root"
  pub parent : root.parent ≡ ""

eqb_type-box : (t : NodeType) → eqb_type t box ≡ true → t ≡ box
eqb_type-box t h = ground arith

root_ok-RootOk : (m : Map Node) → root_ok m ≡ true → RootOk m
unfolding root_ok
root_ok-RootOk m h = elim (Option-cases (lookup "root" m)) [
  | inl e ↦ ground arith
  | inr (r, e) ↦
      let (t, i, p) = facts r (rw (e, root_ok) at h) in
      record { root = r; found = e; type = t; id = i; parent = p }
]
  where
    facts :
        (r : Node)
        → (eqb_type r.type box && same r.id "root" && same r.parent "") ≡ true
        → (r.type ≡ box) × (r.id ≡ "root") × (r.parent ≡ "")
    facts r k = (
      eqb_type-box r.type (ground arith),
      (same_iff r.id "root").0 (ground arith),
      (same_iff r.parent "").0 (ground arith),
    )

-- The checks that `validateInvariants` has made when it returns nil.
pub record Passed (d : Document) (limits : Limits) : Type 0 where
  pub root_good : root_ok d.nodes ≡ true
  pub few : exceeds (length d.nodes) limits.max_nodes ≡ false
  pub marks : Marks
  pub walked :
      walk limits d.nodes (levels limits) "root" (record { seen = []; visited = [] }) ≡ ok marks
  pub all_seen : length marks.visited ≡ length d.nodes
  pub small : exceeds (total node_bytes d.nodes) limits.max_document_bytes ≡ false
  pub accounted : pos (text_bytes d.nodes) ≡ d.total_text_bytes
  pub text_small : leb_ℤ d.total_text_bytes limits.max_total_text_bytes ≡ true

passed :
    (d : Document) (limits : Limits) (r : Result Marks)
    → walk limits d.nodes (levels limits) "root" (record { seen = []; visited = [] }) ≡ r
    → validate_invariants d limits ≡ none
    → Passed d limits
unfolding validate_invariants check_visited check_sizes
passed d limits (err e) w h = ground arith
passed d limits (ok s) w h = record {
  root_good = ground arith;
  few = ground arith;
  marks = s;
  walked = w;
  all_seen = ground arith;
  small = ground arith;
  accounted = (eqb_ℤ_iff (pos (text_bytes d.nodes)) d.total_text_bytes).0 (ground arith);
  text_small = ground arith;
}

-- A document that the validation accepts is a tree under `root`: every node is reached from the root
-- within the depth limit and exactly once, parents and children name one another, only containers
-- have children, and the counts and sizes are within their limits.
pub validate_invariants-IsTree :
    (d : Document) (limits : Limits) → validate_invariants d limits ≡ none → IsTree limits d
validate_invariants-IsTree d limits h =
    let p = passed d limits _ refl h in
    let r = root_ok-RootOk d.nodes p.root_good in
    let v = walk-Visits limits d.nodes (levels limits) "root" _ p.marks p.walked in
    let once = subst Distinct v.listed (v.fresh tt) in
    record {
      root = r.root;
      root_found = r.found;
      root_type = r.type;
      root_id = r.id;
      root_parent = r.parent;
      grows = v.grown;
      once = once;
      covers =
          Within-of_length (preorder (levels limits) d.nodes "root") (keys d.nodes) once
            (Grows-Within limits d.nodes (levels limits) "root" v.grown)
            (ap length (sym v.listed) ∙ p.all_seen ∙ sym (length-keys d.nodes));
      few = p.few;
      small = p.small;
      accounted = p.accounted;
      text_small = p.text_small;
    }
