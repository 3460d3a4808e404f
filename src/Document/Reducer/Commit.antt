-- ===== src/Document/Reducer/Commit.antt =====
-- What `Apply` of document/reducer.go hands to its caller: the very same document, or a tree under the
-- next revision.
use a2ui_persistent_daemon.Base.{
  ◌∙◌, ◌⊎◌, ℕ, ◌≡◌, refl, ap, subst, Bool, true, false, Option, none, some, String, arith, inl, inr,
  Bool-cases, Option-cases, u64_suc, same,
}
use a2ui_persistent_daemon.Maps.{Map, lookup}
use a2ui_persistent_daemon.Protocol.Types.{Error, Operation, OpType, upsert, remove}
use a2ui_persistent_daemon.Protocol.Limits.{Limits}
use a2ui_persistent_daemon.Protocol.Json.{Json}
use a2ui_persistent_daemon.Protocol.Validate.{validate_operation, refuse_if}
use a2ui_persistent_daemon.Protocol.Props.Normalize.{normalize_props}
use a2ui_persistent_daemon.Document.Reducer.Tables.{explicit_prop_keys}
use a2ui_persistent_daemon.Document.Types.{Node, Document, Effect, effect_of}
use a2ui_persistent_daemon.Document.Invariants.{validate_invariants}
use a2ui_persistent_daemon.Document.Tree.Shape.{IsTree}
use a2ui_persistent_daemon.Document.Tree.Sound.{validate_invariants-IsTree}
use a2ui_persistent_daemon.Document.Reducer.Outcome.{
  Outcome, done, refused, panics, diverges, ◌>>=◌, require, try,
}
use a2ui_persistent_daemon.Document.Reducer.Upsert.{
  Placement, apply_upsert, upsert_at, update_node, create_node, rewrite_node, retarget, fuel_of,
}
use a2ui_persistent_daemon.Document.Reducer.Edit.{apply_props, apply_text, apply_remove}
use a2ui_persistent_daemon.Document.Reducer.Apply.{apply, dispatch, check_changed, tagged}

pub >>=-eq-done {ℓ κ} :
    {A : Type ℓ} {B : Type κ} (r : Outcome A) (f : A → Outcome B) {b : B}
    → (r >>= f) ≡ done b
    → (a : A) × (r ≡ done a) × (f a ≡ done b)
>>=-eq-done (done a) f h = (a, refl, h)
>>=-eq-done (refused e) f h = cc
>>=-eq-done panics f h = cc
>>=-eq-done diverges f h = cc

retarget_unmoved :
    (fuel : ℕ) (m : Map Node) (op : Operation) (n : Node) (p : Placement)
    → retarget fuel m op n ≡ done p
    → p.moved ≡ false
    → p.nodes ≡ m
unfolding retarget
retarget_unmoved fuel m op n p h k = ground arith

-- What a caller of `Apply` gets: the document itself, or a tree that is one revision further.
abbrev pub Committed : Limits → Document → Document → Effect → Type 0
Committed limits current next eff =
    ((eff.changed ≡ false) × (next ≡ current))
    ⊎ ((eff.changed ≡ true) × (next.revision ≡ u64_suc current.revision) × IsTree limits next)

-- The revision is no part of the shape.
revise-IsTree :
    (limits : Limits) (d : Document) (revision : ℕ)
    → validate_invariants d limits ≡ none
    → IsTree limits (record d { revision = revision })
unfolding validate_invariants
revise-IsTree limits d revision h =
    validate_invariants-IsTree (record d { revision = revision }) limits h

module _ (j : Json) where
  rewrite_node_unchanged :
      (d : Document) (op : Operation) (eff : Effect) (limits : Limits) (n : Node) (p : Placement)
      (normalized : Map String) (explicit : Map Bool) (cand : Document) (eff' : Effect)
      → rewrite_node j d op eff limits n p normalized explicit ≡ done (cand, eff')
      → eff'.changed ≡ false
      → (p.moved ≡ false) × (cand ≡ record d { nodes = p.nodes })
  unfolding rewrite_node
  rewrite_node_unchanged d op eff limits n p normalized explicit cand eff' h k = ground arith

  update_node_unchanged :
      (d : Document) (op : Operation) (eff : Effect) (limits : Limits) (n : Node)
      (normalized : Map String) (explicit : Map Bool) (cand : Document) (eff' : Effect)
      → update_node j d op eff limits n normalized explicit ≡ done (cand, eff')
      → eff'.changed ≡ false
      → cand ≡ d
  unfolding update_node
  update_node_unchanged d op eff limits n normalized explicit cand eff' h k =
      let (p, placed, rest) = >>=-eq-done (retarget (fuel_of limits) d.nodes op n) _ h in
      let (unmoved, e) =
        rewrite_node_unchanged d op eff limits n p normalized explicit cand eff' rest k in
      e
      ∙ ap (λ (m : Map Node). record d { nodes = m })
          (retarget_unmoved (fuel_of limits) d.nodes op n p placed unmoved)

  create_node_changed :
      (d : Document) (op : Operation) (eff : Effect) (limits : Limits) (normalized : Map String)
      (explicit : Map Bool) (cand : Document) (eff' : Effect)
      → create_node j d op eff limits normalized explicit ≡ done (cand, eff')
      → eff'.changed ≡ true
  unfolding create_node
  create_node_changed d op eff limits normalized explicit cand eff' h = ground arith

  upsert_at_unchanged :
      (d : Document) (op : Operation) (eff : Effect) (limits : Limits) (normalized : Map String)
      (explicit : Map Bool) (o : Option Node) (cand : Document) (eff' : Effect)
      → upsert_at j d op eff limits normalized explicit o ≡ done (cand, eff')
      → eff'.changed ≡ false
      → cand ≡ d
  unfolding upsert_at
  upsert_at_unchanged d op eff limits normalized explicit none cand eff' h k =
      cc (create_node_changed d op eff limits normalized explicit cand eff' h)
  upsert_at_unchanged d op eff limits normalized explicit (some n) cand eff' h k =
      update_node_unchanged d op eff limits n normalized explicit cand eff' h k

  upsert_unchanged :
      (d : Document) (op : Operation) (eff : Effect) (limits : Limits) (cand : Document)
      (eff' : Effect)
      → apply_upsert j d op eff limits ≡ done (cand, eff')
      → eff'.changed ≡ false
      → cand ≡ d
  unfolding apply_upsert
  upsert_unchanged d op eff limits cand eff' h k =
      let (u, allowed, rest) =
        >>=-eq-done (require (refuse_if (same op.id "root") "document.root_immutable")) _ h in
      let ((normalized, policy), normal, last) =
        >>=-eq-done (try (normalize_props j op.type op.props true)) _ rest in
      upsert_at_unchanged d op (record eff { policy = policy }) limits normalized
        (explicit_prop_keys j op.props) (lookup op.id d.nodes) cand eff' last k

  dispatch_unchanged :
      (o : OpType) (d : Document) (op : Operation) (eff : Effect) (limits : Limits)
      (cand : Document) (eff' : Effect)
      → dispatch j o d op eff limits ≡ done (cand, eff')
      → eff'.changed ≡ false
      → cand ≡ d
  unfolding dispatch apply_props apply_text apply_remove
  dispatch_unchanged upsert d op eff limits cand eff' h k =
      upsert_unchanged d op eff limits cand eff' h k
  dispatch_unchanged remove d op eff limits cand eff' h k = ground arith
  dispatch_unchanged _ d op eff limits cand eff' h k = ground arith

  pub tagged-eq-done :
      {A : Type 0} (op : Operation) (r : Outcome A) {a : A} → tagged op r ≡ done a → r ≡ done a
  tagged-eq-done op (done a) h = h
  tagged-eq-done op (refused e) h = cc
  tagged-eq-done op panics h = cc
  tagged-eq-done op diverges h = cc

  check_changed-Committed :
      (limits : Limits) (current cand next : Document) (eff eff' : Effect)
      → (eff.changed ≡ false → cand ≡ current)
      → check_changed j current.revision limits (cand, eff) ≡ done (next, eff')
      → Committed limits current next eff'
  unfolding check_changed
  check_changed-Committed limits current cand next eff eff' same_doc h =
      elim (Bool-cases eff.changed) [
        | inl c ↦ inr (changed_part c (Option-cases (validate_invariants cand limits)))
        | inr c ↦ inl (ground (arith, same_doc c))
      ]
    where
      revised :
          eff.changed ≡ true
          → validate_invariants cand limits ≡ none
          → record cand { revision = u64_suc current.revision } ≡ next
      revised c good = ground arith

      changed_part :
          eff.changed ≡ true
          → (validate_invariants cand limits ≡ none)
            ⊎ ((e : Error) × (validate_invariants cand limits ≡ some e))
          → (eff'.changed ≡ true) × (next.revision ≡ u64_suc current.revision) × IsTree limits next
      changed_part c (inr (e, bad)) = ground arith
      changed_part c (inl good) = (
        ground arith,
        ground arith,
        subst (IsTree limits) (revised c good) (revise-IsTree limits cand _ good),
      )

  -- An operation that `Apply` accepts either changes nothing, and the document is the same, or it leads
  -- to a document under the next revision that is a tree within the limits, whatever the document was
  -- before.
  pub apply-Committed :
      (current next : Document) (op : Operation) (limits : Limits) (eff : Effect)
      → apply j current op limits ≡ done (next, eff)
      → Committed limits current next eff
  unfolding apply
  apply-Committed current next op limits eff h =
      let (u, valid, rest) =
        >>=-eq-done (require (validate_operation j op limits)) _ (tagged-eq-done op _ h) in
      let ((cand, eff'), dispatched, checked) =
        >>=-eq-done (dispatch j op.op current op (effect_of op) limits) _ rest in
      check_changed-Committed limits current cand next eff' eff
        (dispatch_unchanged op.op current op (effect_of op) limits cand eff' dispatched) checked
