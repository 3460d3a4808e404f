-- ===== src/Engine/Commits.antt =====
-- engine/engine.go: what `Apply` does to the engine on every branch, and the bound on pending commits.
use a2ui_persistent_daemon.Base.{
  ◌+◌, ◌≤◌, ◌≡◌, refl, sym, subst, ◌∙◌, ◌⊎◌, inl, inr, true, false, Option, none, some, [], ◌∷◌,
  ◌++◌, arith, length, Bool-cases, ◌≢◌,
}
use a2ui_persistent_daemon.Protocol.Types.{
  Event, event, Error, new_error, Operation, OpType, commit,
}
use a2ui_persistent_daemon.Protocol.Json.{Json}
use a2ui_persistent_daemon.Document.Types.{Document, Effect}
use a2ui_persistent_daemon.Document.Reducer.Outcome.{Outcome, done, refused, panics, diverges}
use a2ui_persistent_daemon.Document.Reducer.Apply as Reducer
use a2ui_persistent_daemon.Document.Reducer.Commit.{Committed, apply-Committed}
use a2ui_persistent_daemon.Document.Reducer.Commits.{is_commit, apply-commit}
use a2ui_persistent_daemon.Document.Reducer.Upsert.{fuel_of}
use a2ui_persistent_daemon.Runtime.Events.Broker.{critical, enqueue}
use a2ui_persistent_daemon.Runtime.State.{State}
use a2ui_persistent_daemon.Runtime.Reconcile.{reconcile}
use a2ui_persistent_daemon.Engine.Core.{
  Engine, emit_error, commit_doc, after_reduce, after_reconcile, commits_full, apply, related,
}

abbrev error_event : Operation → Error → Event
error_event op perr = record (event "error") {
  id = op.id;
  code = perr.code;
  related_seq = related op;
}

-- Everything but the event queue is as it was.
pub record OnlyEvents (e e' : Engine) : Type 0 where
  pub same_doc : e'.doc ≡ e.doc
  pub same_state : e'.state ≡ e.state
  pub same_limits : e'.limits ≡ e.limits
  pub same_pending : e'.pending_commits ≡ e.pending_commits
  pub same_max : e'.max_pending_commits ≡ e.max_pending_commits
  pub same_generation : e'.publication_generation ≡ e.publication_generation

emit_error-OnlyEvents :
    (e : Engine) (op : Operation) (perr : Error)
    → OnlyEvents e (emit_error e op perr).0
      × ((err : Error) × ((emit_error e op perr).1 ≡ some err))
unfolding emit_error
emit_error-OnlyEvents e op perr = (
  record {
    same_doc = refl;
    same_state = refl;
    same_limits = refl;
    same_pending = refl;
    same_max = refl;
    same_generation = refl;
  },
  reported (enqueue e.broker (error_event op perr) critical).1,
)
  where
    reported :
        (o : Option Error)
        → (err : Error) × (◌≡◌ {A = Option Error}
            (elim o [ none ↦ some perr | some berr ↦ some berr ])
            (some err))
    reported none = (perr, refl)
    reported (some berr) = (berr, refl)

emitted :
    (e e' : Engine) (op : Operation) (perr : Error) (o : Option Error)
    → ◌≡◌ {A = Outcome (Engine × Option Error)} (done (emit_error e op perr)) (done (e', o))
    → (err : Error) × (o ≡ some err) × OnlyEvents e e'
emitted e e' op perr o h =
    let (only, (err, r)) = emit_error-OnlyEvents e op perr in
    let engine : (emit_error e op perr).0 ≡ e' = ground arith in
    let error : (emit_error e op perr).1 ≡ o = ground arith in
    (err, sym error ∙ r, subst (OnlyEvents e) engine only)

is_commit-cases :
    (o : OpType) → ((is_commit o ≡ true) × (o ≡ commit)) ⊎ ((is_commit o ≡ false) × (o ≢ commit))
is_commit-cases commit = inl (refl, refl)
is_commit-cases _ = ground arith

module _ (j : Json) where
  -- What an accepted operation does.
  pub record Accepted (e : Engine) (op : Operation) (e' : Engine) : Type 0 where
    pub eff : Effect
    pub reduced : Committed e.limits e.doc e'.doc eff
    pub marked : eff.commit ≡ is_commit op.op
    pub reconciled : reconcile j (fuel_of e.limits) e.state e.doc e'.doc op eff ≡ done e'.state
    pub same_broker : e'.broker ≡ e.broker
    pub same_limits : e'.limits ≡ e.limits
    pub same_max : e'.max_pending_commits ≡ e.max_pending_commits
    pub pending :
        ((op.op ≢ commit) × (e'.pending_commits ≡ e.pending_commits))
        ⊎ ((op.op ≡ commit)
            × (length e.pending_commits + 1 ≤ e.max_pending_commits)
            × (e'.pending_commits
                ≡ e.pending_commits ++ (record { through = related op; frame = op.frame }) ∷ []))

  after_reconcile-lem :
      (e e' : Engine) (op : Operation) (next : Document) (eff : Effect) (r : Outcome State)
      (o : Option Error)
      → Committed e.limits e.doc next eff
      → eff.commit ≡ is_commit op.op
      → commits_full j e eff ≡ false
      → reconcile j (fuel_of e.limits) e.state e.doc next op eff ≡ r
      → after_reconcile j e op next eff r ≡ done (e', o)
      → ((o ≡ none) × Accepted e op e') ⊎ ((err : Error) × (o ≡ some err) × OnlyEvents e e')
  unfolding commit_doc
  after_reconcile-lem e e' op next eff (done s) o c marked full rec h =
      let doc : next ≡ e'.doc = ground arith in
      let state : s ≡ e'.state = ground arith in
      inl (
        ground arith,
        record {
          eff = eff;
          marked = marked;
          reduced = subst (λ d. Committed e.limits e.doc d eff) doc c;
          reconciled =
              subst (λ d. reconcile j (fuel_of e.limits) e.state e.doc d op eff ≡ done e'.state) doc
                (subst (λ t. reconcile j (fuel_of e.limits) e.state e.doc next op eff ≡ done t)
                  state rec);
          same_broker = ground arith;
          same_limits = ground arith;
          same_max = ground arith;
          pending = elim (is_commit-cases op.op) [
            | inl (marks, k) ↦ inr (k, ground arith, ground arith)
            | inr (keeps, k) ↦ inl (k, ground arith)
          ];
        },
      )
  after_reconcile-lem e e' op next eff (refused err) o c marked full rec h =
      inr (emitted e e' op err o h)
  after_reconcile-lem e e' op next eff panics o c marked full rec h = cc
  after_reconcile-lem e e' op next eff diverges o c marked full rec h = cc

  after_reduce-lem :
      (e e' : Engine) (op : Operation) (r : Outcome (Document × Effect)) (o : Option Error)
      → Reducer.apply j e.doc op e.limits ≡ r
      → after_reduce j e op r ≡ done (e', o)
      → ((o ≡ none) × Accepted e op e') ⊎ ((err : Error) × (o ≡ some err) × OnlyEvents e e')
  after_reduce-lem e e' op (done (next, eff)) o red h = elim (Bool-cases (commits_full j e eff)) [
    | inl full ↦ inr (emitted e e' op (new_error "runtime.backpressure_exceeded") o (ground arith))
    | inr room ↦
        after_reconcile-lem e e' op next eff _ o (apply-Committed j e.doc next op e.limits eff red)
          (apply-commit j e.doc next op e.limits eff red) room refl (ground arith)
  ]
  after_reduce-lem e e' op (refused err) o red h = inr (emitted e e' op err o h)
  after_reduce-lem e e' op panics o red h = cc
  after_reduce-lem e e' op diverges o red h = cc

  -- `Apply` either reports an error and changes nothing but the event queue; or it returns nil, and then the
  -- document is the old one or a tree under the next revision, the state is the reconciled one, no event is
  -- queued, and the pending commits are those from before, with one more at their end, for which there was room,
  -- exactly if the operation was a commit.
  pub apply-lem :
      (e e' : Engine) (op : Operation) (o : Option Error)
      → apply j e op ≡ done (e', o)
      → ((o ≡ none) × Accepted e op e') ⊎ ((err : Error) × (o ≡ some err) × OnlyEvents e e')
  unfolding apply
  apply-lem e e' op o h = after_reduce-lem e e' op (Reducer.apply j e.doc op e.limits) o refl h
