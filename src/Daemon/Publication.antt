-- ===== src/Daemon/Publication.antt =====
-- daemon/publication.go: a client acknowledges a frame. Between the two calls of the engine, each under the
-- engine's lock, others may call it.
use a2ui_persistent_daemon.Base.{
  ℕ, ◌≡◌, ◌≢◌, ◌⊎◌, inl, inr, subst, refl, Bool, true, false, not, Option, none, some, ◌==◌, arith,
  Bool-cases, if◌then◌else◌,
}
use a2ui_persistent_daemon.Protocol.Types.{Error}
use a2ui_persistent_daemon.Engine.Core.{Engine, publish_generation, needs_publish_locked}
use a2ui_persistent_daemon.Engine.Snapshot.{publication_generation}
use a2ui_persistent_daemon.Engine.Publication.{Published, publish_generation-lem}
use a2ui_persistent_daemon.Ipc.Messages.{IpcError, new_error}

-- `semanticIPCError`
abbrev pub semantic_ipc_error : Option Error → Option IpcError
semantic_ipc_error none = none
semantic_ipc_error (some e) = some (record { code = e.code; recoverable = e.recoverable })

abbrev pub stale : Option IpcError
stale = some (new_error "ipc.stale_publication")

abbrev pub acknowledged : Engine × Bool × Option Error → Engine × Option IpcError
acknowledged (e, published, some perr) = (e, semantic_ipc_error (some perr))
acknowledged (e, true, none) = (e, none)
acknowledged (e, false, none) = (e, stale)

-- `between` is what others do to the engine after its generation was read.
unfoldable pub ack_publication : (Engine → Engine) → Engine → ℕ → Engine × Option IpcError
ack_publication between e generation =
    let (current, pending) = publication_generation e in
    let published = acknowledged (publish_generation (between e) generation) in
    if not (generation == current) then (e, stale) else if not pending then (e, none) else published

acknowledged-lem :
    (m e' : Engine) (generation : ℕ) (o : Option IpcError)
    → acknowledged (publish_generation m generation) ≡ (e', o)
    → ((o ≡ none)
        × (generation ≡ m.publication_generation)
        × (needs_publish_locked m ≡ true)
        × Published m e')
      ⊎ ((o ≢ none) × (e' ≡ m))
acknowledged-lem m e' generation o h = split (publish_generation m generation) refl h
  where
    split :
        (r : Engine × Bool × Option Error)
        → publish_generation m generation ≡ r
        → acknowledged r ≡ (e', o)
        → ((o ≡ none)
            × (generation ≡ m.publication_generation)
            × (needs_publish_locked m ≡ true)
            × Published m e')
          ⊎ ((o ≢ none) × (e' ≡ m))
    split (e1, ok, some perr) p a = elim (publish_generation-lem m e1 generation ok (some perr) p) [
      | inl x ↦ ground arith
      | inr (inl x) ↦ ground arith
      | inr (inr x) ↦ inr (ground arith, ground arith)
    ]
    split (e1, true, none) p a = elim (publish_generation-lem m e1 generation true none p) [
      | inl (x, y, g, n, made) ↦ inl (ground arith, g, n, subst (Published m) (ground arith) made)
      | inr (inl x) ↦ ground arith
      | inr (inr x) ↦ ground arith
    ]
    split (e1, false, none) p a = elim (publish_generation-lem m e1 generation false none p) [
      | inl x ↦ ground arith
      | inr (inl x) ↦ inr (ground arith, ground arith)
      | inr (inr x) ↦ ground arith
    ]

-- A frame that is acknowledged without an error is the current one: either it was already published, and
-- nothing changed; or it was still the current one after what others did in between, and now it is published. With
-- an error, nothing was done to the engine but what others did, if anything.
pub ack_publication-lem :
    (between : Engine → Engine) (e e' : Engine) (generation : ℕ) (o : Option IpcError)
    → ack_publication between e generation ≡ (e', o)
    → ((o ≡ none)
        × (generation ≡ e.publication_generation)
        × (needs_publish_locked e ≡ false)
        × (e' ≡ e))
      ⊎ ((o ≡ none)
          × (generation ≡ e.publication_generation)
          × (generation ≡ (between e).publication_generation)
          × Published (between e) e')
      ⊎ ((o ≢ none) × (generation ≢ e.publication_generation) × (e' ≡ e))
      ⊎ ((o ≢ none) × (generation ≡ e.publication_generation) × (e' ≡ between e))
unfolding ack_publication
ack_publication-lem between e e' generation o h =
    elim (Bool-cases (generation == e.publication_generation)) [
      | inr old ↦ inr (inr (inl (ground arith, ground arith, ground arith)))
      | inl current ↦ elim (Bool-cases (needs_publish_locked e)) [
        | inr idle ↦ inl (ground arith, ground arith, idle, ground arith)
        | inl needed ↦ elim (acknowledged-lem (between e) e' generation o (ground arith)) [
          | inl (x, y, n, made) ↦ inr (inl (x, ground arith, y, made))
          | inr (x, y) ↦ inr (inr (inr (x, ground arith, y)))
        ]
      ]
    ]
