-- ===== src/Engine/Core.antt =====
-- engine/engine.go: the state of the engine and its methods.
use a2ui_persistent_daemon.Base.{
  ℕ, Bool, true, false, not, ◌||◌, ◌&&◌, Option, none, some, List, [], ◌∷◌, ◌++◌, map, String, ℤ,
  pos, pos_part, below_one, exceeds, leb, ltb, ◌==◌, length, u64_suc, if◌then◌else◌,
}
use a2ui_persistent_daemon.Maps.{lookup}
use a2ui_persistent_daemon.Protocol.Types.{
  Event, event, Error, new_error, Operation, input, table, eqb_type,
}
use a2ui_persistent_daemon.Protocol.Limits.{Limits, effective_limits}
use a2ui_persistent_daemon.Protocol.Json.{Json}
use a2ui_persistent_daemon.Protocol.Props.Schema.{entry}
use a2ui_persistent_daemon.Document.Types.{Node, Document, Effect}
use a2ui_persistent_daemon.Document.Reducer.Outcome.{Outcome, done, refused, panics, diverges}
use a2ui_persistent_daemon.Document.Reducer.Upsert.{fuel_of}
use a2ui_persistent_daemon.Document.Reducer.Apply as Reducer
use a2ui_persistent_daemon.Runtime.Events.Broker.{
  EventBroker, critical, new_event_broker, enqueue, enqueue_critical_batch, next,
}
use a2ui_persistent_daemon.Runtime.State.{
  State, Binding, TableSelection, new_state, set_local_focus, set_input_value, needs_publish,
  publish,
}
use a2ui_persistent_daemon.Runtime.Selection.Rows.{set_table_selection, move_table_selection}
use a2ui_persistent_daemon.Runtime.Reconcile.{reconcile}

pub record CommitRequest : Type 0 where
  pub through : ℕ
  pub frame : String

pub record Engine : Type 0 where
  pub doc : Document
  pub state : State
  pub broker : EventBroker
  pub limits : Limits
  pub pending_commits : List CommitRequest
  pub max_pending_commits : ℕ
  pub publication_generation : ℕ

-- `uint64(max64(op.Seq, 0))`
abbrev pub related : Operation → ℕ
related op = pos_part op.seq

-- The event capacity: within the limits, and the limit where none is given.
abbrev pub event_capacity : Limits → ℤ → ℕ
event_capacity limits capacity =
    if below_one capacity
    then pos_part limits.max_pending_events
    else if exceeds (pos_part capacity) limits.max_pending_events
    then pos_part limits.max_pending_events
    else pos_part capacity

module _ (j : Json) where
  unfoldable pub new : Limits → ℤ → Engine
  new configured capacity =
      let limits = effective_limits configured in
      let events = event_capacity limits capacity in
      record {
        doc = Reducer.new j;
        state = new_state;
        broker = new_event_broker (pos events);
        limits = limits;
        pending_commits = [];
        max_pending_commits =
            if ltb events (pos_part limits.max_pending_mutations)
            then events
            else pos_part limits.max_pending_mutations;
        publication_generation = 0;
      }

-- A full event queue replaces the error.
unfoldable pub emit_error : Engine → Operation → Error → Engine × Option Error
emit_error e op perr =
    let ev : Event = record (event "error") {
      id = op.id;
      code = perr.code;
      related_seq = related op;
    } in
    let (broker, refusal) = enqueue e.broker ev critical in
    (record e { broker = broker }, elim refusal [ none ↦ some perr | some berr ↦ some berr ])

unfoldable pub needs_publish_locked : Engine → Bool
needs_publish_locked e = needs_publish e.state || not (length e.pending_commits == 0)

module _ (j : Json) where
  -- The end of `Apply`, once the state is reconciled.
  unfoldable pub commit_doc : Engine → Operation → Document → Effect → State → Engine
  commit_doc e op next eff state = record e {
    doc = next;
    state = state;
    pending_commits =
        if eff.commit
        then e.pending_commits ++ (record { through = related op; frame = op.frame }) ∷ []
        else e.pending_commits;
    publication_generation =
        if not (state.publication_generation == e.state.publication_generation) || eff.commit
        then u64_suc e.publication_generation
        else e.publication_generation;
  }

  abbrev pub after_reconcile :
      Engine → Operation → Document → Effect → Outcome State → Outcome (Engine × Option Error)
  after_reconcile e op next eff (done state) = done (commit_doc e op next eff state, none)
  after_reconcile e op next eff (refused rerr) = done (emit_error e op rerr)
  after_reconcile e op next eff panics = panics
  after_reconcile e op next eff diverges = diverges

  abbrev pub commits_full : Engine → Effect → Bool
  commits_full e eff = eff.commit && leb e.max_pending_commits (length e.pending_commits)

  abbrev pub after_reduce :
      Engine → Operation → Outcome (Document × Effect) → Outcome (Engine × Option Error)
  after_reduce e op (done (next, eff)) =
      let reconciled =
        after_reconcile e op next eff (reconcile j (fuel_of e.limits) e.state e.doc next op eff) in
      if commits_full e eff
      then done (emit_error e op (new_error "runtime.backpressure_exceeded"))
      else reconciled
  after_reduce e op (refused perr) = done (emit_error e op perr)
  after_reduce e op panics = panics
  after_reduce e op diverges = diverges

  unfoldable pub apply : Engine → Operation → Outcome (Engine × Option Error)
  unfolding emit_error commit_doc
  apply e op = after_reduce e op (Reducer.apply j e.doc op e.limits)

-- `committed` events for all pending commits, under the later of the two revisions.
abbrev pub committed_revision : State → ℕ
committed_revision s =
    if ltb s.dirty_revision s.published_revision then s.published_revision else s.dirty_revision

abbrev pub committed_event : ℕ → CommitRequest → Event
committed_event revision req = record (event "committed") {
  revision = revision;
  through_seq = req.through;
  frame = req.frame;
}

abbrev pub published : Engine → EventBroker × Option Error → Engine × Option Error
published e (broker, some berr) = (record e { broker = broker }, some berr)
published e (broker, none) =
    (record e { broker = broker; state = publish e.state; pending_commits = [] }, none)

unfoldable pub publish_locked : Engine → Engine × Option Error
unfolding needs_publish_locked
publish_locked e =
    let all = published e (
      enqueue_critical_batch e.broker
        (map (committed_event (committed_revision e.state)) e.pending_commits)) in
    if needs_publish_locked e then all else (e, none)

-- `Publish`
abbrev pub publish_now : Engine → Engine × Option Error
publish_now e = publish_locked e

abbrev pub acknowledged : Engine × Option Error → Engine × Bool × Option Error
acknowledged (e, none) = (e, true, none)
acknowledged (e, some perr) = (e, false, some perr)

unfoldable pub publish_generation : Engine → ℕ → Engine × Bool × Option Error
unfolding needs_publish_locked publish_locked
publish_generation e generation =
    let all = acknowledged (publish_locked e) in
    if not (generation == e.publication_generation) || not (needs_publish_locked e)
    then (e, false, none)
    else all

unfoldable pub next_event : Engine → Engine × Option Event
next_event e = let (broker, ev) = next e.broker in (record e { broker = broker }, ev)

abbrev pub with_state : Engine → State → Engine
with_state e s = record e { state = s }

-- The checks of a method on an input.
abbrev pub check_input : Option Node → Option Error
check_input none = some (new_error "document.node_not_found")
check_input (some n) = if eqb_type n.type input then none else some (new_error "runtime.not_input")

unfoldable pub set_input : Engine → String → String → Engine × Option Error
set_input e id value = elim (check_input (lookup id e.doc.nodes)) [
  | none ↦ (with_state e (set_input_value e.state id value).0, none)
  | some perr ↦ (e, some perr)
]

abbrev pub emit : Engine → Event → Engine × Option Error
emit e ev =
    let (broker, refusal) = enqueue e.broker ev critical in (record e { broker = broker }, refusal)

module _ (j : Json) where
  abbrev pub action_of : Option Node → String
  action_of none = ""
  action_of (some n) = (j.string (entry n.props "action")).0

  unfoldable pub submit : Engine → String → Engine × Option Error
  submit e id = elim (check_input (lookup id e.doc.nodes)) [
    | none ↦ emit e (record (event "submit") {
      id = id;
      action = action_of (lookup id e.doc.nodes);
      value = entry e.state.input_values id;
    })
    | some perr ↦ (e, some perr)
  ]

  -- `ActivateTableSelection` decodes `selectable` without looking at its length first.
  abbrev pub check_selectable : Option Node → Option Error
  check_selectable none = some (new_error "document.node_not_found")
  check_selectable (some n) =
      if eqb_type n.type table
      then if (j.boolean (entry n.props "selectable")).0
        then none
        else some (new_error "runtime.not_selectable")
      else some (new_error "runtime.not_table")

  abbrev pub activate : Engine → String → Option TableSelection → Engine × Option Error
  activate e id none = (e, none)
  activate e id (some sel) = emit e (record (event "select") {
    id = id;
    row = sel.index;
    row_id = sel.row_id;
    action = action_of (lookup id e.doc.nodes);
  })

  unfoldable pub activate_table_selection : Engine → String → Engine × Option Error
  activate_table_selection e id = elim (check_selectable (lookup id e.doc.nodes)) [
    | none ↦ activate e id (lookup id e.state.table_selections)
    | some perr ↦ (e, some perr)
  ]

  unfoldable pub engine_set_table_selection : Engine → String → ℤ → Engine × Option Error
  engine_set_table_selection e id index =
      let (s, perr) = set_table_selection j e.state e.doc id index in (with_state e s, perr)

  unfoldable pub engine_move_table_selection : Engine → String → ℤ → Engine × Option Error
  engine_move_table_selection e id delta =
      let (s, perr) = move_table_selection j e.state e.doc id delta in (with_state e s, perr)

  -- `Engine.Focus`
  unfoldable pub focus_on : Engine → String → Engine × Option Error
  focus_on e id = let (s, perr) = set_local_focus j e.state e.doc id in (with_state e s, perr)

-- `HandleKey`, with what the action registry makes of a binding as an argument.
unfoldable pub handle_key : (Binding → Event) → Engine → String → Engine × Option Error
handle_key dispatch e key = elim (lookup key e.state.bindings) [
  | none ↦ (e, none)
  | some binding ↦ emit e (dispatch binding)
]
