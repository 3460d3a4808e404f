-- ===== src/Engine/Returns.antt =====
-- engine/engine.go: `Apply` returns, and keeps a document that is a tree one.
use a2ui_persistent_daemon.Base.{◌≡◌, ◌≢◌, refl, sym, subst, inl, inr, true, arith}
use a2ui_persistent_daemon.Protocol.Types.{Operation}
use a2ui_persistent_daemon.Protocol.Json.{Json}
use a2ui_persistent_daemon.Document.Types.{Document, Effect}
use a2ui_persistent_daemon.Document.Tree.Shape.{IsTree}
use a2ui_persistent_daemon.Document.Reducer.Outcome.{Outcome, done, refused, panics, diverges}
use a2ui_persistent_daemon.Document.Reducer.Apply as Reducer
use a2ui_persistent_daemon.Document.Reducer.Commit.{Committed, apply-Committed}
use a2ui_persistent_daemon.Document.Reducer.Returns.Total.{returns, if-returns, apply-returns}
use a2ui_persistent_daemon.Runtime.State.{State}
use a2ui_persistent_daemon.Runtime.Reconcile.Returns.{reconcile-returns}
use a2ui_persistent_daemon.Engine.Core.{Engine, apply, after_reduce, after_reconcile, commits_full}

module _ (j : Json) where
  after_reconcile-returns :
      (e : Engine) (op : Operation) (next : Document) (eff : Effect) (r : Outcome State)
      → returns r ≡ true
      → returns (after_reconcile j e op next eff r) ≡ true
  after_reconcile-returns e op next eff (done s) h = refl
  after_reconcile-returns e op next eff (refused err) h = refl
  after_reconcile-returns e op next eff panics h = refl
  after_reconcile-returns e op next eff diverges h = h

  Committed-IsTree :
      (e : Engine) (next : Document) (eff : Effect)
      → IsTree e.limits e.doc
      → Committed e.limits e.doc next eff
      → IsTree e.limits next
  Committed-IsTree e next eff t c = elim c [
    | inl (_, same_doc) ↦ subst (IsTree e.limits) (sym same_doc) t
    | inr (_, _, t') ↦ t'
  ]

  after_reduce-returns :
      (e : Engine) (op : Operation) (r : Outcome (Document × Effect))
      → IsTree e.limits e.doc
      → Reducer.apply j e.doc op e.limits ≡ r
      → returns (after_reduce j e op r) ≡ true
  after_reduce-returns e op (done (next, eff)) t h = if-returns (commits_full j e eff) _ _ refl (
      after_reconcile-returns e op next eff _ (
        reconcile-returns j e.limits e.state e.doc next op eff
          (Committed-IsTree e next eff t (apply-Committed j e.doc next op e.limits eff h))))
  after_reduce-returns e op (refused err) t h = refl
  after_reduce-returns e op panics t h = refl
  after_reduce-returns e op diverges t h = absurd (apply-returns j e.limits e.doc op t h)

  -- Where the document is a tree within the limits, `Apply` of the engine comes to an end on every
  -- operation: with nil, with an error that it reports, or with a panic.
  pub engine_apply-returns :
      (e : Engine) (op : Operation) → IsTree e.limits e.doc → apply j e op ≢ diverges
  unfolding apply
  engine_apply-returns e op t h =
      let good = after_reduce-returns e op (Reducer.apply j e.doc op e.limits) t refl in
      absurd (ground arith)
