-- ===== src/Daemon/Clients/Interactions.antt =====
-- daemon/interactions.go: what a client's interaction does to the engine.
use a2ui_persistent_daemon.Base.{◌≡◌, Option, none, some}
use a2ui_persistent_daemon.Protocol.Types.{Error, Event}
use a2ui_persistent_daemon.Protocol.Json.{Json}
use a2ui_persistent_daemon.Document.Types.{Document}
use a2ui_persistent_daemon.Runtime.State.{Binding, State}
use a2ui_persistent_daemon.Engine.Core.{
  Engine, focus_on, set_input, submit, engine_move_table_selection, activate_table_selection,
  handle_key,
}
use a2ui_persistent_daemon.Ipc.Messages.{
  IpcError, new_error, Interaction, InteractionType, focus, input_set, input_submit, table_move,
  table_activate, action_key, unknown, validate_interaction,
}
use a2ui_persistent_daemon.Daemon.Publication.{semantic_ipc_error}

abbrev pub reported : Engine × Option Error → Engine × Option IpcError
reported (e, perr) = (e, semantic_ipc_error perr)

-- The registered actions and the decoding of props are arguments, as they are of the engine's methods.
module _ (j : Json) (dispatch : Binding → Event) where
  abbrev pub perform : Engine → Interaction → InteractionType → Engine × Option IpcError
  perform e i focus = reported (focus_on j e i.id)
  perform e i input_set = reported (set_input e i.id i.value)
  perform e i input_submit = reported (submit j e i.id)
  perform e i table_move = reported (engine_move_table_selection j e i.id i.delta)
  perform e i table_activate = reported (activate_table_selection j e i.id)
  perform e i action_key = reported (handle_key dispatch e i.key)
  perform e i (unknown t) = (e, some (new_error "ipc.invalid_interaction"))

  abbrev performed : Engine → Option Interaction → Engine × Option IpcError
  performed e none = (e, none)
  performed e (some i) = perform e i i.type

  -- A nil interaction does not validate.
  unfoldable pub handle_interaction : Engine → Option Interaction → Engine × Option IpcError
  handle_interaction e i = elim (validate_interaction i) [
    | some ierr ↦ (e, some ierr)
    | none ↦ performed e i
  ]

  abbrev pub SameState : State → State → Type 0
  SameState s s' =
      (s'.bindings ≡ s.bindings)
      × (s'.publication_generation ≡ s.publication_generation)
      × (s'.published_generation ≡ s.published_generation)

  -- What a client cannot change.
  pub record SameView (e e' : Engine) : Type 0 where
    pub doc : e'.doc ≡ e.doc
    pub limits : e'.limits ≡ e.limits
    pub pending_commits : e'.pending_commits ≡ e.pending_commits
    pub publication : e'.publication_generation ≡ e.publication_generation
    pub same_state : SameState e.state e'.state

  -- A method that checks before it does anything.
  abbrev checked : Engine → Option Error → Engine × Option Error → Engine × Option Error
  checked e o r = elim o as (λ x. Engine × Option Error) [ none ↦ r | some perr ↦ (e, some perr) ]
