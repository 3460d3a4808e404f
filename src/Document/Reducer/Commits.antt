-- ===== src/Document/Reducer/Commits.antt =====
-- document/reducer.go: which operations mark a commit.
use a2ui_persistent_daemon.Base.{
  ℕ, ◌≡◌, ◌∙◌, Bool, true, false, ◌||◌, Option, none, some, String, arith, same,
}
use a2ui_persistent_daemon.Maps.{Map, lookup}
use a2ui_persistent_daemon.Protocol.Types.{Operation, OpType, upsert, remove, commit}
use a2ui_persistent_daemon.Protocol.Limits.{Limits}
use a2ui_persistent_daemon.Protocol.Json.{Json}
use a2ui_persistent_daemon.Protocol.Validate.{validate_operation, refuse_if}
use a2ui_persistent_daemon.Protocol.Props.Normalize.{normalize_props}
use a2ui_persistent_daemon.Document.Types.{Node, Document, Effect, effect_of}
use a2ui_persistent_daemon.Document.Reducer.Tables.{explicit_prop_keys}
use a2ui_persistent_daemon.Document.Reducer.Outcome.{done, require, try}
use a2ui_persistent_daemon.Document.Reducer.Upsert.{
  Placement, apply_upsert, upsert_at, update_node, create_node, rewrite_node, retarget, fuel_of,
}
use a2ui_persistent_daemon.Document.Reducer.Edit.{apply_props, apply_text, apply_remove}
use a2ui_persistent_daemon.Document.Reducer.Apply.{apply, dispatch, check_changed}
use a2ui_persistent_daemon.Document.Reducer.Commit.{>>=-eq-done, tagged-eq-done}

abbrev pub is_commit : OpType → Bool
is_commit commit = true
is_commit _ = false

module _ (j : Json) where
  rewrite_node-commit :
      (d : Document) (op : Operation) (eff : Effect) (limits : Limits) (n : Node) (p : Placement)
      (normalized : Map String) (explicit : Map Bool) (cand : Document) (eff' : Effect)
      → rewrite_node j d op eff limits n p normalized explicit ≡ done (cand, eff')
      → eff'.commit ≡ eff.commit
  unfolding rewrite_node
  rewrite_node-commit d op eff limits n p normalized explicit cand eff' h = ground arith

  create_node-commit :
      (d : Document) (op : Operation) (eff : Effect) (limits : Limits) (normalized : Map String)
      (explicit : Map Bool) (cand : Document) (eff' : Effect)
      → create_node j d op eff limits normalized explicit ≡ done (cand, eff')
      → eff'.commit ≡ eff.commit
  unfolding create_node
  create_node-commit d op eff limits normalized explicit cand eff' h = ground arith

  upsert_at-commit :
      (d : Document) (op : Operation) (eff : Effect) (limits : Limits) (normalized : Map String)
      (explicit : Map Bool) (o : Option Node) (cand : Document) (eff' : Effect)
      → upsert_at j d op eff limits normalized explicit o ≡ done (cand, eff')
      → eff'.commit ≡ eff.commit
  unfolding upsert_at update_node
  upsert_at-commit d op eff limits normalized explicit none cand eff' h =
      create_node-commit d op eff limits normalized explicit cand eff' h
  upsert_at-commit d op eff limits normalized explicit (some n) cand eff' h =
      let (p, placed, rest) = >>=-eq-done (retarget (fuel_of limits) d.nodes op n) _ h in
      rewrite_node-commit d op eff limits n p normalized explicit cand eff' rest

  apply_upsert-commit :
      (d : Document) (op : Operation) (eff : Effect) (limits : Limits) (cand : Document)
      (eff' : Effect)
      → apply_upsert j d op eff limits ≡ done (cand, eff')
      → eff'.commit ≡ eff.commit
  unfolding apply_upsert
  apply_upsert-commit d op eff limits cand eff' h =
      let (u, allowed, rest) =
        >>=-eq-done (require (refuse_if (same op.id "root") "document.root_immutable")) _ h in
      let ((normalized, policy), normal, last) =
        >>=-eq-done (try (normalize_props j op.type op.props true)) _ rest in
      upsert_at-commit d op (record eff { policy = policy }) limits normalized
        (explicit_prop_keys j op.props) (lookup op.id d.nodes) cand eff' last

  dispatch-commit :
      (o : OpType) (d : Document) (op : Operation) (eff : Effect) (limits : Limits)
      (cand : Document) (eff' : Effect)
      → dispatch j o d op eff limits ≡ done (cand, eff')
      → eff'.commit ≡ (is_commit o || eff.commit)
  unfolding dispatch apply_props apply_text apply_remove
  dispatch-commit upsert d op eff limits cand eff' h =
      apply_upsert-commit d op eff limits cand eff' h
  dispatch-commit remove d op eff limits cand eff' h = ground arith
  dispatch-commit _ d op eff limits cand eff' h = ground arith

  check_changed-commit :
      (revision : ℕ) (limits : Limits) (cand next : Document) (eff eff' : Effect)
      → check_changed j revision limits (cand, eff) ≡ done (next, eff')
      → eff'.commit ≡ eff.commit
  unfolding check_changed
  check_changed-commit revision limits cand next eff eff' h = ground arith

  -- The effect of an accepted operation marks a commit exactly if the operation is one.
  pub apply-commit :
      (current next : Document) (op : Operation) (limits : Limits) (eff : Effect)
      → apply j current op limits ≡ done (next, eff)
      → eff.commit ≡ is_commit op.op
  unfolding apply
  apply-commit current next op limits eff h =
      let (u, valid, rest) =
        >>=-eq-done (require (validate_operation j op limits)) _ (tagged-eq-done j op _ h) in
      let ((cand, eff'), dispatched, checked) =
        >>=-eq-done (dispatch j op.op current op (effect_of op) limits) _ rest in
      check_changed-commit current.revision limits cand next eff' eff checked
      ∙ dispatch-commit op.op current op (effect_of op) limits cand eff' dispatched
      ∙ or_false (is_commit op.op)
    where
      or_false : (b : Bool) → (b || false) ≡ b
      or_false b = ground arith
