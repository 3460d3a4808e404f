-- ===== src/Engine/Publication.antt =====
-- engine/engine.go and runtime/publication.go: acknowledging a published frame.
use a2ui_persistent_daemon.Base.{
  ℕ, ◌≤◌, ◌≡◌, refl, subst, ◌⊎◌, ◌≢◌, inl, inr, Bool, true, false, Option, none, some, List, [],
  ◌∷◌, ◌++◌, map, arith, append-nil, Bool-cases, ◌<◌, ◌+◌, length, length-map, ◌==◌,
}
use a2ui_persistent_daemon.Protocol.Types.{Event, Error}
use a2ui_persistent_daemon.Runtime.Events.Broker.{EventBroker, depth, enqueue_critical_batch}
use a2ui_persistent_daemon.Runtime.Events.Reliable.{payload, map-push_all}
use a2ui_persistent_daemon.Runtime.State.{State, publish, needs_publish}
use a2ui_persistent_daemon.Engine.Core.{
  Engine, needs_publish_locked, publish_locked, publish_generation, committed_event,
  committed_revision, published, acknowledged,
}

-- `Publish` acknowledges everything: nothing is left to publish, and the published revision is not behind.
publish-done :
    (s : State)
    → (needs_publish (publish s) ≡ false) × (s.dirty_revision ≤ (publish s).published_revision)
unfolding publish needs_publish
publish-done s = (ground arith, ground arith)

-- The events that a publication acknowledges commits by.
abbrev pub acknowledgements : Engine → List Event
acknowledgements e = map (committed_event (committed_revision e.state)) e.pending_commits

-- A publication that was made: the event queue has the acknowledgements at its end, in the order of the
-- commits, and nothing is left to publish.
pub record Published (e e' : Engine) : Type 0 where
  pub acknowledged_all :
      map payload e'.broker.critical
      ≡ map payload e.broker.critical ++ map payload (acknowledgements e)
  pub nothing_pending : e'.pending_commits ≡ []
  pub nothing_left : needs_publish_locked e' ≡ false
  pub revision_kept : e.state.dirty_revision ≤ e'.state.published_revision
  pub same_doc : e'.doc ≡ e.doc
  pub same_generation : e'.publication_generation ≡ e.publication_generation

batch_lem :
    (b b' : EventBroker) (evs : List Event)
    → enqueue_critical_batch b evs ≡ (b', none)
    → map payload b'.critical ≡ map payload b.critical ++ map payload evs
unfolding enqueue_critical_batch
batch_lem b b' [] h = ground (arith, append-nil (map payload b.critical))
batch_lem b b' (ev ∷ evs) h = ground (arith, map-push_all b (ev ∷ evs))

batch_refused :
    (b b' : EventBroker) (evs : List Event) (err : Error)
    → enqueue_critical_batch b evs ≡ (b', some err)
    → (b' ≡ b) × (b.cap < depth b + length evs)
unfolding enqueue_critical_batch
batch_refused b b' [] err h = cc
batch_refused b b' (ev ∷ evs) err h = (ground arith, ground arith)

published-lem :
    (e e' : Engine) (b : EventBroker) (o o' : Option Error)
    → enqueue_critical_batch e.broker (acknowledgements e) ≡ (b, o)
    → published e (b, o) ≡ (e', o')
    → ((o' ≡ none) × Published e e')
      ⊎ ((err : Error) × (o' ≡ some err)
          × (e' ≡ e)
          × (e.broker.cap < depth e.broker + length e.pending_commits))
unfolding needs_publish_locked
published-lem e e' b none o' batch h = inl (
  ground arith,
  record {
    acknowledged_all = ground (arith, batch_lem e.broker b (acknowledgements e) batch);
    nothing_pending = ground arith;
    nothing_left = ground (arith, publish-done e.state);
    revision_kept = ground (arith, publish-done e.state);
    same_doc = ground arith;
    same_generation = ground arith;
  },
)
published-lem e e' b (some err) o' batch h =
    let (same, full) = batch_refused e.broker b (acknowledgements e) err batch in
    inr (
      err,
      ground arith,
      ground arith,
      ground (arith, length-map (committed_event (committed_revision e.state)) e.pending_commits),
    )

-- `Publish` with nothing to publish does nothing. Otherwise it either acknowledges every pending commit, in
-- their order and at the end of the event queue, and nothing is left to publish; or the queue has no room
-- for all of them, and it returns an error with nothing changed.
pub publish_locked-lem :
    (e e' : Engine) (o : Option Error)
    → publish_locked e ≡ (e', o)
    → ((needs_publish_locked e ≡ false) × (o ≡ none) × (e' ≡ e))
      ⊎ ((needs_publish_locked e ≡ true) × (o ≡ none) × Published e e')
      ⊎ ((err : Error) × (o ≡ some err)
          × (e' ≡ e)
          × (e.broker.cap < depth e.broker + length e.pending_commits))
unfolding publish_locked
publish_locked-lem e e' o h = elim (Bool-cases (needs_publish_locked e)) [
  | inl needed ↦ elim (published-lem e e' _ _ o refl (ground arith)) [
    | inl p ↦ inr (inl (needed, p.0, p.1))
    | inr r ↦ inr (inr r)
  ]
  | inr idle ↦ inl (idle, ground arith, ground arith)
]

pub publish_generation-lem :
    (e e' : Engine) (generation : ℕ) (ok : Bool) (o : Option Error)
    → publish_generation e generation ≡ (e', ok, o)
    → ((ok ≡ true)
        × (o ≡ none)
        × (generation ≡ e.publication_generation)
        × (needs_publish_locked e ≡ true)
        × Published e e')
      ⊎ ((ok ≡ false)
          × (o ≡ none)
          × (e' ≡ e)
          × ((generation ≢ e.publication_generation) ⊎ (needs_publish_locked e ≡ false)))
      ⊎ ((err : Error) × (ok ≡ false) × (o ≡ some err) × (e' ≡ e))
unfolding publish_generation
publish_generation-lem e e' generation ok o h =
    elim (Bool-cases (generation == e.publication_generation)) [
      | inr stale ↦ inr (inl (ground arith, ground arith, ground arith, inl (ground arith)))
      | inl current ↦ elim (Bool-cases (needs_publish_locked e)) [
        | inr idle ↦ inr (inl (ground arith, ground arith, ground arith, inr idle))
        | inl needed ↦ made current needed (publish_locked e) refl (ground arith)
      ]
    ]
  where
    made :
        (generation == e.publication_generation) ≡ true
        → needs_publish_locked e ≡ true
        → (r : Engine × Option Error) → publish_locked e ≡ r
        → acknowledged r ≡ (e', ok, o)
        → ((ok ≡ true)
            × (o ≡ none)
            × (generation ≡ e.publication_generation)
            × (needs_publish_locked e ≡ true)
            × Published e e')
          ⊎ ((ok ≡ false)
              × (o ≡ none)
              × (e' ≡ e)
              × ((generation ≢ e.publication_generation) ⊎ (needs_publish_locked e ≡ false)))
          ⊎ ((err : Error) × (ok ≡ false) × (o ≡ some err) × (e' ≡ e))
    made c n (e1, none) pl ack = elim (publish_locked-lem e e1 none pl) [
      | inl idle ↦ cc
      | inr (inl p) ↦
          inl (ground arith, ground arith, ground arith, n, subst (Published e) (ground arith) p.2)
      | inr (inr refused) ↦ ground arith
    ]
    made c n (e1, some err) pl ack = elim (publish_locked-lem e e1 (some err) pl) [
      | inl idle ↦ ground arith
      | inr (inl p) ↦ ground arith
      | inr (inr refused) ↦ inr (inr (err, ground arith, ground arith, ground arith))
    ]
