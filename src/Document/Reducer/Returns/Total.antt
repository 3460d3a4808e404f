-- ===== src/Document/Reducer/Returns/Total.antt =====
-- document/reducer.go: `Apply` returns on every tree.
use a2ui_persistent_daemon.Base.{
  ℕ, ◌≡◌, ◌≢◌, refl, inl, inr, Bool, true, false, Option, none, some, [], ◌∷◌, String, arith, same,
  Option-cases, if◌then◌else◌,
}
use a2ui_persistent_daemon.Maps.{Map, lookup, insert}
use a2ui_persistent_daemon.Protocol.Types.{
  Operation, OpType, upsert, props, text, remove, focus, commit, unknown, Error, Result, ok, err,
}
use a2ui_persistent_daemon.Protocol.Limits.{Limits}
use a2ui_persistent_daemon.Protocol.Json.{Json}
use a2ui_persistent_daemon.Protocol.Validate.{refuse_if}
use a2ui_persistent_daemon.Document.Types.{Node, Document, Effect, node_at}
use a2ui_persistent_daemon.Document.Tree.Shape.{IsTree}
use a2ui_persistent_daemon.Document.Reducer.Outcome.{
  Outcome, done, refused, panics, diverges, ◌>>=◌, require, try,
}
use a2ui_persistent_daemon.Document.Reducer.Upsert.{
  retarget, fuel_of, refuse_cycle, find_parent, or_else, set_children, update_node, rewrite_node,
  create_node, upsert_at, apply_upsert, Placement,
}
use a2ui_persistent_daemon.Document.Reducer.Edit.{
  find_node, apply_props, apply_text, apply_remove, mark_explicit, Sweep, remove_first, swept,
}
use a2ui_persistent_daemon.Document.Reducer.Apply.{apply, dispatch, check_changed, tagged}
use a2ui_persistent_daemon.Document.Reducer.Returns.Climb.{node-Climbs}
use a2ui_persistent_daemon.Document.Reducer.Returns.Grown.{node-Grows}
use a2ui_persistent_daemon.Document.Reducer.Returns.Sweeps.{Ends, sweep-Ends, Shrinks-unlink}

-- Whether the code comes to an end: with a result, an error or a panic.
abbrev pub returns {ℓ} : {A : Type ℓ} → Outcome A → Bool
returns (done a) = true
returns (refused e) = true
returns panics = true
returns diverges = false

pub >>=-returns :
    {A B : Type 0} (r : Outcome A) (f : A → Outcome B)
    → returns r ≡ true
    → ((a : A) → r ≡ done a → returns (f a) ≡ true)
    → returns (r >>= f) ≡ true
>>=-returns (done a) f h k = k a refl
>>=-returns (refused e) f h k = refl
>>=-returns panics f h k = refl
>>=-returns diverges f h k = h

pub require-returns : (o : Option Error) → returns (require o) ≡ true
require-returns none = refl
require-returns (some e) = refl

pub try-returns : {A : Type 0} (r : Result A) → returns (try r) ≡ true
try-returns (ok a) = refl
try-returns (err e) = refl

pub if-returns :
    {A : Type 0} (b : Bool) (x y : Outcome A)
    → returns x ≡ true
    → returns y ≡ true
    → returns (if b then x else y) ≡ true
if-returns true x y h k = h
if-returns false x y h k = k

pub done-returns : {A : Type 0} (a : A) → returns (done a) ≡ true
done-returns a = refl

pub find_parent-returns : (o : Option Node) → returns (find_parent o) ≡ true
find_parent-returns none = refl
find_parent-returns (some n) = refl

pub find_node-returns : (o : Option Node) → returns (find_node o) ≡ true
find_node-returns none = refl
find_node-returns (some n) = refl

pub ruleset returning = (
  >>=-returns, require-returns, try-returns, if-returns, done-returns, find_parent-returns,
  find_node-returns,
)

find_parent-found : (o : Option Node) (n : Node) → find_parent o ≡ done n → o ≡ some n
find_parent-found none n h = cc
find_parent-found (some m) n h = ground arith

find_node-found : (o : Option Node) (n : Node) → find_node o ≡ done n → o ≡ some n
find_node-found none n h = cc
find_node-found (some m) n h = ground arith

refuse_cycle-returns : (o : Option Bool) (b : Bool) → o ≡ some b → returns (refuse_cycle o) ≡ true
refuse_cycle-returns o b h = ground arith

retarget-returns :
    (limits : Limits) (d : Document) (op : Operation) (n : Node)
    → IsTree limits d
    → returns (retarget (fuel_of limits) d.nodes op n) ≡ true
unfolding retarget
retarget-returns limits d op n t =
    elim (Option-cases (lookup (or_else op.parent n.parent) d.nodes)) [
      | inl e ↦ ground arith
      | inr (target, e) ↦
          let (b, ends) = node-Climbs limits d (or_else op.parent n.parent) target t e op.id in
          ground arith
    ]

swept-returns :
    (d : Document) (eff : Effect) (m : Map Node) (o : Option Sweep)
    → Ends m o
    → returns (swept d eff o) ≡ true
swept-returns d eff m o (t, e, h) = ground arith

apply_remove-returns :
    (limits : Limits) (d : Document) (op : Operation) (eff : Effect)
    → IsTree limits d
    → returns (apply_remove (fuel_of limits) d op eff) ≡ true
unfolding apply_remove
apply_remove-returns limits d op eff t =
    >>=-returns (require (refuse_if (same op.id "root") "document.root_immutable")) _
      (require-returns _)
      (λ u h.
        >>=-returns (find_node (lookup op.id d.nodes)) _ (find_node-returns (lookup op.id d.nodes))
          (λ n found. swept-returns d eff d.nodes _ (
            sweep-Ends limits d.nodes (fuel_of limits) op.id
              (record {
                nodes =
                    insert n.parent
                      (set_children (node_at d.nodes n.parent)
                        (remove_first (node_at d.nodes n.parent).children op.id))
                      d.nodes;
                total_text_bytes = d.total_text_bytes;
                removed = eff.removed;
              })
              (node-Grows limits d op.id n t (find_node-found (lookup op.id d.nodes) n found))
              (Shrinks-unlink d.nodes n.parent op.id))))

apply_text-returns :
    (limits : Limits) (d : Document) (op : Operation) (eff : Effect)
    → returns (apply_text d op eff limits) ≡ true
unfolding apply_text
apply_text-returns limits d op eff = search returning depth 12

mark_explicit-returns :
    (o : Option (Map Bool)) (more : Map Bool) → returns (mark_explicit o more) ≡ true
unfolding mark_explicit
mark_explicit-returns none [] = refl
mark_explicit-returns none (x ∷ more) = refl
mark_explicit-returns (some out) more = refl

module _ (j : Json) where
  apply_props-returns :
      (limits : Limits) (d : Document) (op : Operation) (eff : Effect)
      → returns (apply_props j d op eff limits) ≡ true
  unfolding apply_props
  apply_props-returns limits d op eff = search (returning, mark_explicit-returns) depth 12

  rewrite_node-returns :
      (limits : Limits) (d : Document) (op : Operation) (eff : Effect) (n : Node) (p : Placement)
      (normalized : Map String) (explicit : Map Bool)
      → returns (rewrite_node j d op eff limits n p normalized explicit) ≡ true
  unfolding rewrite_node
  rewrite_node-returns limits d op eff n p normalized explicit = search returning

  create_node-returns :
      (limits : Limits) (d : Document) (op : Operation) (eff : Effect) (normalized : Map String)
      (explicit : Map Bool)
      → returns (create_node j d op eff limits normalized explicit) ≡ true
  unfolding create_node
  create_node-returns limits d op eff normalized explicit = search returning

  upsert_at-returns :
      (limits : Limits) (d : Document) (op : Operation) (eff : Effect) (normalized : Map String)
      (explicit : Map Bool) (o : Option Node)
      → IsTree limits d
      → returns (upsert_at j d op eff limits normalized explicit o) ≡ true
  unfolding upsert_at update_node
  upsert_at-returns limits d op eff normalized explicit none t =
      create_node-returns limits d op eff normalized explicit
  upsert_at-returns limits d op eff normalized explicit (some n) t =
      >>=-returns _ _ (retarget-returns limits d op n t)
        (λ p h. rewrite_node-returns limits d op eff n p normalized explicit)

  apply_upsert-returns :
      (limits : Limits) (d : Document) (op : Operation) (eff : Effect)
      → IsTree limits d
      → returns (apply_upsert j d op eff limits) ≡ true
  unfolding apply_upsert
  apply_upsert-returns limits d op eff t = search (returning, upsert_at-returns)

  dispatch-returns :
      (o : OpType) (limits : Limits) (d : Document) (op : Operation) (eff : Effect)
      → IsTree limits d
      → returns (dispatch j o d op eff limits) ≡ true
  unfolding dispatch
  dispatch-returns upsert limits d op eff t = apply_upsert-returns limits d op eff t
  dispatch-returns props limits d op eff t = apply_props-returns limits d op eff
  dispatch-returns text limits d op eff t = apply_text-returns limits d op eff
  dispatch-returns remove limits d op eff t = apply_remove-returns limits d op eff t
  dispatch-returns focus limits d op eff t = search returning
  dispatch-returns commit limits d op eff t = refl
  dispatch-returns (unknown s) limits d op eff t = refl

  check_changed-returns :
      (revision : ℕ) (limits : Limits) (d : Document) (eff : Effect)
      → returns (check_changed j revision limits (d, eff)) ≡ true
  unfolding check_changed
  check_changed-returns revision limits d eff = search returning

  tagged-returns :
      {A : Type 0} (op : Operation) (r : Outcome A)
      → returns r ≡ true
      → returns (tagged op r) ≡ true
  tagged-returns op (done a) h = refl
  tagged-returns op (refused e) h = refl
  tagged-returns op panics h = refl
  tagged-returns op diverges h = h

  -- On a tree within the limits every operation comes to an end: the fuel of the model suffices for the
  -- loops of `wouldCreateCycle` and of the removal of a subtree.
  pub apply-returns :
      (limits : Limits) (d : Document) (op : Operation)
      → IsTree limits d
      → apply j d op limits ≢ diverges
  unfolding apply
  apply-returns limits d op t h =
      let good : returns (apply j d op limits) ≡ true =
        search (returning, tagged-returns, dispatch-returns, check_changed-returns) depth 12 in
      ground arith
