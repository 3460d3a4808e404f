-- ===== src/Document/Reducer/Apply.antt =====
-- document/reducer.go: `Apply`.
use a2ui_persistent_daemon.Base.{ℕ, true, String, u64_suc, if◌then◌else◌, ◌∷◌, [], pos}
use a2ui_persistent_daemon.Maps.{Map, lookup}
use a2ui_persistent_daemon.Protocol.Types.{
  Error, Operation, OpType, upsert, props, text, remove, focus, commit, unknown, NodeType,
  MutationPolicy, Result, ok, err,
}
use a2ui_persistent_daemon.Protocol.Limits.{Limits}
use a2ui_persistent_daemon.Protocol.Json.{Json}
use a2ui_persistent_daemon.Protocol.Validate.{validate_operation}
use a2ui_persistent_daemon.Protocol.Props.Normalize.{normalize_props}
use a2ui_persistent_daemon.Document.Types.{Document, Effect, effect_of, zero_node}
use a2ui_persistent_daemon.Document.Invariants.{validate_invariants}
use a2ui_persistent_daemon.Document.Reducer.Outcome.{
  Outcome, done, refused, panics, diverges, ◌>>=◌, require,
}
use a2ui_persistent_daemon.Document.Reducer.Upsert.{apply_upsert, fuel_of}
use a2ui_persistent_daemon.Document.Reducer.Edit.{apply_props, apply_text, apply_remove, find_node}

-- `err.Seq = op.Seq; err.NodeID = op.ID`
abbrev pub tag : Operation → Error → Error
tag op e = record e { seq = op.seq; node_id = op.id }

abbrev pub tagged {ℓ} : {A : Type ℓ} → Operation → Outcome A → Outcome A
tagged op (done a) = done a
tagged op (refused e) = refused (tag op e)
tagged op panics = panics
tagged op diverges = diverges

module _ (j : Json) where
  -- The `switch` on the operation; an unknown one has been refused before.
  unfoldable pub dispatch :
      OpType → Document → Operation → Effect → Limits → Outcome (Document × Effect)
  dispatch upsert d op eff limits = apply_upsert j d op eff limits
  dispatch props d op eff limits = apply_props j d op eff limits
  dispatch text d op eff limits = apply_text d op eff limits
  dispatch remove d op eff limits = apply_remove (fuel_of limits) d op eff
  dispatch focus d op eff limits = do _ ← find_node (lookup op.id d.nodes); done (d, eff)
  dispatch commit d op eff limits = done (d, record eff { commit = true })
  dispatch (unknown s) d op eff limits = done (d, eff)

  -- `if eff.Changed { … }`
  unfoldable pub check_changed : ℕ → Limits → Document × Effect → Outcome (Document × Effect)
  check_changed revision limits (cand, eff) =
      let checked = (do
        _ ← require (validate_invariants cand limits)
        done (record cand { revision = u64_suc revision }, eff)) in
      if eff.changed then checked else done (cand, eff)

  -- A refused operation leaves the caller with the current document.
  unfoldable pub apply : Document → Operation → Limits → Outcome (Document × Effect)
  unfolding dispatch check_changed
  apply current op limits = tagged op (do
    _ ← require (validate_operation j op limits)
    (cand, eff) ← dispatch op.op current op (effect_of op) limits
    check_changed current.revision limits (cand, eff))

  abbrev root_props : Result (Map String × MutationPolicy) → Map String
  root_props (ok (p, _)) = p
  root_props (err e) = []

  -- `New`
  unfoldable pub new : Document
  new = record {
    revision = 0;
    nodes =
        (
          "root",
          record zero_node {
            id = "root";
            type = NodeType.box;
            props = root_props (normalize_props j NodeType.box "{}" true);
          },
        )
        ∷ [];
    total_text_bytes = pos 0;
  }
