-- ===== src/Daemon/Exact.antt =====
-- daemon/agent.go: an envelope reaches the engine exactly as the next operation of the session.
use a2ui_persistent_daemon.Base.{
  ℕ, ◌≡◌, refl, ap, ◌⊎◌, inl, inr, Bool, true, false, not, ◌&&◌, Option, none, some, eqb_ℤ, same,
  arith, Bool-cases,
}
use a2ui_persistent_daemon.Protocol.Types.{Operation, Error, Result, ok, err}
use a2ui_persistent_daemon.Protocol.Json.{Json}
use a2ui_persistent_daemon.Protocol.Handshake.{Hello, HelloAck}
use a2ui_persistent_daemon.Document.Reducer.Outcome.{Outcome, done, refused, panics, diverges}
use a2ui_persistent_daemon.Session.Core.{
  SessionState, new_state, ready, draining, closed, Session, negotiate, accept_mutation, accept_in,
}
use a2ui_persistent_daemon.Engine.Core.{Engine, apply}
use a2ui_persistent_daemon.Daemon.Agent.{
  EnvelopeKind, hello, operation, telemetry, hello_ack, event, unknown, Envelope, Daemon, Codec,
  to_int64, negotiated, greet, applied, mutate, handle_kind, handle_envelope,
}

accept_in-ready :
    (st : SessionState) (s s' : Session) (seq : ℕ)
    → accept_in st s seq ≡ (s', false, none)
    → (st ≡ ready) × (seq ≡ s.expected_mutation)
accept_in-ready ready s s' seq h = (refl, ground arith)
accept_in-ready new_state s s' seq h = cc
accept_in-ready draining s s' seq h = cc
accept_in-ready closed s s' seq h = cc

accept_mutation-ready :
    (s s' : Session) (seq : ℕ)
    → accept_mutation s seq ≡ (s', false, none)
    → (s.state ≡ ready) × (seq ≡ s.expected_mutation)
unfolding accept_mutation
accept_mutation-ready s s' seq h = accept_in-ready s.state s s' seq h

module _ (j : Json) (c : Codec) where
  -- The envelope's operation was applied.
  pub record Applied (d : Daemon) (env : Envelope) (d' : Daemon) : Type 0 where
    pub op : Operation
    pub is_operation : env.kind ≡ operation
    pub decoded : c.decode_operation env.payload ≡ ok op
    pub numbered : eqb_ℤ op.seq (to_int64 env.seq) ≡ true
    pub fresh : (accept_mutation d.session env.seq).1 ≡ false
    pub let_through : (accept_mutation d.session env.seq).2 ≡ none
    pub ready : d.session.state ≡ SessionState.ready
    pub expected : env.seq ≡ d.session.expected_mutation
    pub error : Option Error
    pub result : apply j d.engine op ≡ done (d'.engine, error)

  greet-engine : (d : Daemon) (r : Result Hello) → (greet c d r).0.engine ≡ d.engine
  greet-engine d (err e) = refl
  greet-engine d (ok h) = negotiated-engine (negotiate d.session h)
    where
      negotiated-engine : (r : Session × Result HelloAck) → (negotiated c d r).0.engine ≡ d.engine
      negotiated-engine (s, err e) = refl
      negotiated-engine (s, ok ack) = ground arith

  applied-engine :
      (d d' : Daemon) (r : Outcome (Engine × Option Error)) (a : Option Envelope) (o : Option Error)
      → applied j d r ≡ done (d', a, o)
      → (x : Option Error) × (r ≡ done (d'.engine, x))
  applied-engine d d' (done (e, none)) a o h = (none, ground arith)
  applied-engine d d' (done (e, some perr)) a o h = (some perr, ground arith)
  applied-engine d d' (refused perr) a o h = cc
  applied-engine d d' panics a o h = cc
  applied-engine d d' diverges a o h = cc

  mutate-Applied :
      (d d' : Daemon) (env : Envelope) (m : Result Operation) (r : Session × Bool × Option Error)
      (a : Option Envelope) (o : Option Error)
      → env.kind ≡ operation
      → c.decode_operation env.payload ≡ m
      → accept_mutation d.session env.seq ≡ r
      → mutate j d env.seq m r ≡ done (d', a, o)
      → (d'.engine ≡ d.engine) ⊎ Applied d env d'
  mutate-Applied d d' env m (s, duplicate, some e) a o k dec acc h = inl (ground arith)
  mutate-Applied d d' env m (s, true, none) a o k dec acc h = inl (ground arith)
  mutate-Applied d d' env (err e) (s, false, none) a o k dec acc h = inl (ground arith)
  mutate-Applied d d' env (ok op) (s, false, none) a o k dec acc h =
      elim (Bool-cases (eqb_ℤ op.seq (to_int64 env.seq))) [
        | inr n ↦ inl (ground arith)
        | inl n ↦
            let (x, e) =
              applied-engine (record d { session = s }) d' (apply j d.engine op) a o
                (ground arith) in
            inr (record {
              op = op;
              is_operation = k;
              decoded = dec;
              numbered = n;
              fresh = ap (λ r. r.1) acc;
              let_through = ap (λ r. r.2) acc;
              ready = (accept_mutation-ready d.session s env.seq acc).0;
              expected = (accept_mutation-ready d.session s env.seq acc).1;
              error = x;
              result = e;
            })
      ]

  handle_kind-Applied :
      (d d' : Daemon) (env : Envelope) (k : EnvelopeKind) (a : Option Envelope) (o : Option Error)
      → env.kind ≡ k
      → handle_kind j c d env k ≡ done (d', a, o)
      → (d'.engine ≡ d.engine) ⊎ Applied d env d'
  handle_kind-Applied d d' env hello a o k h =
      inl (ground (arith, greet-engine d (c.decode_hello env.payload)))
  handle_kind-Applied d d' env operation a o k h =
      mutate-Applied d d' env (c.decode_operation env.payload) (accept_mutation d.session env.seq) a
        o k refl refl h
  handle_kind-Applied d d' env telemetry a o k h = inl (ground arith)
  handle_kind-Applied d d' env hello_ack a o k h = inl (ground arith)
  handle_kind-Applied d d' env event a o k h = inl (ground arith)
  handle_kind-Applied d d' env (unknown s) a o k h = inl (ground arith)

  -- An envelope leaves the engine alone, or it carried an operation under its own number, which was the one
  -- that the session expected and let through without an error, in the state READY, and the engine is what applying that operation once makes of it.
  pub handle_envelope-Applied :
      (d d' : Daemon) (env : Envelope) (a : Option Envelope) (o : Option Error)
      → handle_envelope j c d env ≡ done (d', a, o)
      → (d'.engine ≡ d.engine) ⊎ Applied d env d'
  unfolding handle_envelope
  handle_envelope-Applied d d' env a o h =
      elim (Bool-cases (not (same env.session "") && not (same env.session d.session.id))) [
        | inl e ↦ inl (ground arith)
        | inr e ↦ handle_kind-Applied d d' env env.kind a o refl (ground arith)
      ]
