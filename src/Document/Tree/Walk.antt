-- ===== src/Document/Tree/Walk.antt =====
-- The walk of document/invariants.go accepts a tree only, and visits it in tree order.
use a2ui_persistent_daemon.Base.{
  ℕ, zero, suc, ◌≡◌, refl, sym, ◌∙◌, ap, subst, inl, inr, Bool, true, false, Option, none, some,
  List, [], ◌∷◌, ◌++◌, String, arith, same_iff, Option-cases, append_assoc, append-nil, All,
  if◌then◌else◌,
}
use a2ui_persistent_daemon.Names.{mem, Distinct, mem-append}
use a2ui_persistent_daemon.Maps.{Map, lookup}
use a2ui_persistent_daemon.Protocol.Types.{Error, Result, ok, err, ◌>>=◌}
use a2ui_persistent_daemon.Protocol.Limits.{Limits}
use a2ui_persistent_daemon.Document.Types.{Node, node_at}
use a2ui_persistent_daemon.Document.Invariants.{
  Marks, check_node, is_child_of, walk_children, walk, walk_node, enter, leave,
}
use a2ui_persistent_daemon.Document.Tree.Shape.{NodeOk, ChildOf, Grows, flat, preorder}

check_node-NodeOk :
    (limits : Limits) (id : String) (n : Node) → check_node limits id n ≡ none → NodeOk limits id n
unfolding check_node
check_node-NodeOk limits id n h = record {
  named = ground (arith, same_iff n.id id);
  typed = ground arith;
  narrow = ground arith;
  contains = ground arith;
}

is_child_of-ChildOf : (m : Map Node) (id c : String) → is_child_of m id c ≡ true → ChildOf m id c
is_child_of-ChildOf m id c h = elim (Option-cases (lookup c m)) [
  | inl e ↦ ground arith
  | inr (n, e) ↦ record {
    child = n;
    found = e;
    back = (same_iff n.parent id).0 (rw (e, is_child_of) at h);
  }
]

-- What a walk that succeeds has done: the marks it leaves, from the names it has listed.
pub record Visits (limits : Limits) (m : Map Node) (n : ℕ) (id : String) (s s' : Marks)
    : Type 0 where
  pub grown : Grows limits m n id
  pub listed : s'.visited ≡ s.visited ++ preorder n m id
  pub fresh : Distinct s.visited → Distinct s'.visited

pub record VisitsAll (limits : Limits) (m : Map Node) (n : ℕ) (id : String) (cs : List String)
    (s s' : Marks) : Type 0 where
  pub grown : All (λ c. ChildOf m id c × Grows limits m n c) cs
  pub listed : s'.visited ≡ s.visited ++ flat (preorder n m) cs
  pub fresh : Distinct s.visited → Distinct s'.visited

Distinct-snoc :
    (x : String) (xs : List String) → mem x xs ≡ false → Distinct xs → Distinct (xs ++ x ∷ [])
unfolding mem
Distinct-snoc x [] h d = (refl, tt)
Distinct-snoc x (y ∷ xs) h d =
    ground (arith, Distinct-snoc x xs, mem-append y xs (x ∷ []), same_iff y x, same_iff x y)

>>=-eq-ok {ℓ κ} :
    {A : Type ℓ} {B : Type κ} (r : Result A) (f : A → Result B) {b : B}
    → (r >>= f) ≡ ok b
    → (a : A) × (r ≡ ok a) × (f a ≡ ok b)
>>=-eq-ok (ok a) f h = (a, refl, h)
>>=-eq-ok (err e) f h = cc

split {ℓ} :
    {A : Type ℓ} {a : A} (e : Error) (b : Bool) (r : Result A)
    → (if b then r else err e) ≡ ok a
    → (b ≡ true) × (r ≡ ok a)
split e true r h = (refl, h)
split e false r h = cc

split_not {ℓ} :
    {A : Type ℓ} {a : A} (e : Error) (b : Bool) (r : Result A)
    → (if b then err e else r) ≡ ok a
    → (b ≡ false) × (r ≡ ok a)
split_not e true r h = cc
split_not e false r h = (refl, h)

module _ (limits : Limits) (m : Map Node) where
  walk_children-VisitsAll :
      (n : ℕ) (id : String) (cs : List String) (s s' : Marks)
      → ((c : String) (t t' : Marks) → walk limits m n c t ≡ ok t' → Visits limits m n c t t')
      → walk_children m (walk limits m n) id cs s ≡ ok s'
      → VisitsAll limits m n id cs s s'
  unfolding walk_children
  walk_children-VisitsAll n id [] s s' walked h = record {
    grown = tt;
    listed = ground (arith, append-nil s.visited);
    fresh = λ d. ground arith;
  }
  walk_children-VisitsAll n id (c ∷ cs) s s' walked h =
      let (child, rest) =
        split _ (is_child_of m id c)
          (walk limits m n c s >>= walk_children m (walk limits m n) id cs) h in
      let (t, first, later) =
        >>=-eq-ok (walk limits m n c s) (walk_children m (walk limits m n) id cs) rest in
      let v = walked c s t first in
      let w = walk_children-VisitsAll n id cs t s' walked later in
      record {
        grown = ((is_child_of-ChildOf m id c child, v.grown), w.grown);
        listed =
            w.listed
            ∙ ap (λ l. l ++ flat (preorder n m) cs) v.listed
            ∙ append_assoc s.visited (preorder n m c) (flat (preorder n m) cs);
        fresh = λ d. w.fresh (v.fresh d);
      }

  node_at-eq : (id : String) (node : Node) → lookup id m ≡ some node → node_at m id ≡ node
  node_at-eq id node e = rw (e, node_at)

  entered-Visits :
      (n : ℕ) (id : String) (s s' : Marks) (node : Node)
      → ((c : String) (t t' : Marks) → walk limits m n c t ≡ ok t' → Visits limits m n c t t')
      → mem id s.visited ≡ false
      → lookup id m ≡ some node
      → NodeOk limits id node
      → (walk_children m (walk limits m n) id node.children (enter id s) >>= leave id) ≡ ok s'
      → Visits limits m (suc n) id s s'
  entered-Visits n id s s' node walked new e good h =
      let (t, first, last) =
        >>=-eq-ok (walk_children m (walk limits m n) id node.children (enter id s)) (leave id) h in
      let v = walk_children-VisitsAll n id node.children (enter id s) t walked first in
      let same_visited : s'.visited ≡ t.visited = ground arith in
      record {
        grown = (node, e, good, v.grown);
        listed =
            same_visited
            ∙ v.listed
            ∙ append_assoc s.visited (id ∷ []) (flat (preorder n m) node.children)
            ∙ ap (λ (x : Node). s.visited ++ id ∷ flat (preorder n m) x.children)
                (sym (node_at-eq id node e));
        fresh = λ d. subst Distinct (sym same_visited) (v.fresh (Distinct-snoc id s.visited new d));
      }

  walk_node-Visits :
      (n : ℕ) (id : String) (s s' : Marks) (o : Option Node)
      → ((c : String) (t t' : Marks) → walk limits m n c t ≡ ok t' → Visits limits m n c t t')
      → mem id s.visited ≡ false
      → lookup id m ≡ o
      → walk_node limits m (walk limits m n) id s o ≡ ok s'
      → Visits limits m (suc n) id s s'
  walk_node-Visits n id s s' none walked new e h = cc
  walk_node-Visits n id s s' (some node) walked new e h =
      elim (Option-cases (check_node limits id node)) [
        | inr (x, bad) ↦ ground arith
        | inl good ↦
            entered-Visits n id s s' node walked new e (check_node-NodeOk limits id node good)
              (rw (good, walk_node) at h)
      ]

  pub walk-Visits :
      (n : ℕ) (id : String) (s s' : Marks)
      → walk limits m n id s ≡ ok s'
      → Visits limits m n id s s'
  unfolding walk
  walk-Visits zero id s s' h = cc
  walk-Visits (suc n) id s s' h =
      let (unseen, rest) = split_not _ (mem id s.seen) _ h in
      let (new, last) = split_not _ (mem id s.visited) _ rest in
      walk_node-Visits n id s s' (lookup id m) (walk-Visits n) new refl last
