-- ===== src/Runtime/Events/Reliable.antt =====
-- runtime/events.go: critical events are a queue that loses, repeats and reorders nothing.
use a2ui_persistent_daemon.Base.{
  ℕ, ◌≡◌, refl, sym, ap, ◌∙◌, Option, none, some, List, [], ◌∷◌, ◌++◌, map, ℤ, pos, arith,
  append_assoc, append-nil,
}
use mathlib.Core.List.{map-append}
use a2ui_persistent_daemon.Protocol.Types.{Event, Error}
use a2ui_persistent_daemon.Runtime.Events.Broker.{
  critical, coalescible, telemetry, unknown, EventBroker, new_event_broker, enqueue,
  enqueue_critical_batch, push_all, push_critical, next, next_from, order,
}
use a2ui_persistent_daemon.Runtime.Events.History.{Call, enqueues, batches, nexts, step, run}

-- An event without the numbers that the broker stamps on it.
abbrev pub payload : Event → Event
payload ev = record ev { v = pos 0; seq = 0 }

-- The critical events that were accepted, and those that were delivered.
pub record Log : Type 0 where
  pub accepted : List Event
  pub sent : List Event

-- `Enqueue` and `EnqueueCriticalBatch` accept by returning nil.
abbrev pub note_accepted : Log → Option Error → List Event → Log
note_accepted l none evs = record l { accepted = l.accepted ++ map payload evs }
note_accepted l (some e) evs = l

-- `Next` delivers a critical event exactly if one waits.
abbrev pub note_sent : Log → List Event → Option Event → Log
note_sent l [] o = l
note_sent l (w ∷ ws) none = l
note_sent l (w ∷ ws) (some ev) = record l { sent = l.sent ++ payload ev ∷ [] }

unfoldable pub observe : EventBroker → Call → Log → Log
observe b (enqueues ev critical) l = note_accepted l (enqueue b ev critical).1 (ev ∷ [])
observe b (enqueues ev class) l = l
observe b (batches evs) l = note_accepted l (enqueue_critical_batch b evs).1 evs
observe b nexts l = note_sent l b.critical (next b).1

unfoldable pub run_log : EventBroker → List Call → Log → Log
run_log b [] l = l
run_log b (c ∷ cs) l = run_log (step b c) cs (observe b c l)

-- What was accepted is what was delivered and then what waits, in this order.
abbrev pub Accounts : EventBroker → Log → Type 0
Accounts b l = l.accepted ≡ l.sent ++ map payload b.critical

pub map-push_all :
    (b : EventBroker) (evs : List Event)
    → map payload (push_all b evs).critical ≡ map payload b.critical ++ map payload evs
unfolding push_all
map-push_all b [] = sym (append-nil (map payload b.critical))
map-push_all b (ev ∷ evs) =
    map-push_all (push_critical b ev) evs
    ∙ ap (λ l. l ++ map payload evs) (map-append payload b.critical (order b ev ∷ []))
    ∙ append_assoc (map payload b.critical) (payload ev ∷ []) (map payload evs)

enqueue_critical-Accounts :
    (b : EventBroker) (ev : Event) (l : Log)
    → Accounts b l
    → Accounts (enqueue b ev critical).0 (note_accepted l (enqueue b ev critical).1 (ev ∷ []))
unfolding enqueue
enqueue_critical-Accounts b ev l h = ground (
  arith,
  map-append payload b.critical (order b ev ∷ []),
  append_assoc l.sent (map payload b.critical) (payload ev ∷ []),
)

batch-Accounts :
    (b : EventBroker) (evs : List Event) (l : Log)
    → Accounts b l
    → Accounts
        (enqueue_critical_batch b evs).0
        (note_accepted l (enqueue_critical_batch b evs).1 evs)
unfolding enqueue_critical_batch
batch-Accounts b [] l h = ground (arith, append-nil l.accepted)
batch-Accounts b (ev ∷ evs) l h = ground (
  arith,
  map-push_all b (ev ∷ evs),
  append_assoc l.sent (map payload b.critical) (map payload (ev ∷ evs)),
)

-- The other classes leave the critical queue alone.
enqueue_other-critical :
    (b : EventBroker) (ev : Event) (n : ℕ)
    → ((enqueue b ev coalescible).0.critical ≡ b.critical)
      × ((enqueue b ev telemetry).0.critical ≡ b.critical)
      × ((enqueue b ev (unknown n)).0.critical ≡ b.critical)
unfolding enqueue
enqueue_other-critical b ev n = (ground arith, ground arith, refl)

next_from-Accounts :
    (b : EventBroker) (waiting : List Event) (l : Log)
    → b.critical ≡ waiting
    → Accounts b l
    → Accounts (next_from b waiting).0 (note_sent l waiting (next_from b waiting).1)
unfolding next_from
next_from-Accounts b [] l e h = ground arith
next_from-Accounts b (ev ∷ rest) l e h =
    ground (arith, append_assoc l.sent (payload ev ∷ []) (map payload rest))

step-Accounts :
    (b : EventBroker) (c : Call) (l : Log) → Accounts b l → Accounts (step b c) (observe b c l)
unfolding step observe next
step-Accounts b (enqueues ev critical) l h = enqueue_critical-Accounts b ev l h
step-Accounts b (enqueues ev coalescible) l h = ground (arith, enqueue_other-critical b ev 0)
step-Accounts b (enqueues ev telemetry) l h = ground (arith, enqueue_other-critical b ev 0)
step-Accounts b (enqueues ev (unknown n)) l h = ground (arith, enqueue_other-critical b ev n)
step-Accounts b (batches evs) l h = batch-Accounts b evs l h
step-Accounts b nexts l h = next_from-Accounts b b.critical l refl h

run-Accounts :
    (b : EventBroker) (cs : List Call) (l : Log)
    → Accounts b l
    → Accounts (run b cs) (run_log b cs l)
unfolding run run_log
run-Accounts b [] l h = h
run-Accounts b (c ∷ cs) l h = run-Accounts (step b c) cs (observe b c l) (step-Accounts b c l h)

-- Over any calls on a new broker, the critical events that were accepted are, in the order of their
-- acceptance and each once, those that were delivered followed by those that still wait.
pub critical-run :
    (capacity : ℤ) (cs : List Call)
    → let b = run (new_event_broker capacity) cs in
      let l = run_log (new_event_broker capacity) cs (record { accepted = []; sent = [] }) in
      l.accepted ≡ l.sent ++ map payload b.critical
unfolding new_event_broker
critical-run capacity cs =
    run-Accounts (new_event_broker capacity) cs (record { accepted = []; sent = [] }) refl
