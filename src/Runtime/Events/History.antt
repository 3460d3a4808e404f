-- ===== src/Runtime/Events/History.antt =====
-- runtime/events.go: what holds of the broker over every sequence of calls.
use a2ui_persistent_daemon.Base.{
  ◌+◌, ◌-◌, ◌≤◌, ◌≡◌, refl, ◌∙◌, List, [], ◌∷◌, ℤ, arith, length, length-append, u64_suc, below_one,
  pos_part, if◌then◌else◌,
}
use a2ui_persistent_daemon.Maps.{length-insert, length-delete-le}
use a2ui_persistent_daemon.Protocol.Types.{Event}
use a2ui_persistent_daemon.Runtime.Events.Broker.{
  EventClass, critical, coalescible, telemetry, unknown, EventBroker, new_event_broker, depth,
  enqueue, enqueue_critical_batch, push_all, push_critical, next, choose, coalesce_key, zero_event,
  tail,
}

pub data Call : Type 0 where
  enqueues : Event → EventClass → Call
  batches : List Event → Call
  nexts : Call

unfoldable pub step : EventBroker → Call → EventBroker
step b (enqueues ev class) = (enqueue b ev class).0
step b (batches evs) = (enqueue_critical_batch b evs).0
step b nexts = (next b).0

unfoldable pub run : EventBroker → List Call → EventBroker
run b [] = b
run b (c ∷ cs) = run (step b c) cs

-- The queues together hold at most `cap` events.
abbrev pub IsBounded : EventBroker → Type 0
IsBounded b = depth b ≤ b.cap

pub push_all_lem :
    (b : EventBroker) (evs : List Event)
    → (length (push_all b evs).critical ≡ length b.critical + length evs)
      × ((push_all b evs).coalesced ≡ b.coalesced)
      × ((push_all b evs).telemetry ≡ b.telemetry)
      × ((push_all b evs).cap ≡ b.cap)
unfolding push_all
push_all_lem b [] = (omega arith, refl, refl, refl)
push_all_lem b (ev ∷ evs) =
    let (l, c, t, k) = push_all_lem (push_critical b ev) evs in
    (
      omega
          (arith, l, length-append {0} b.critical (record ev { seq = u64_suc b.next_order } ∷ [])),
      c,
      t,
      k,
    )

length-tail : (xs : List Event) → length (tail xs) ≡ length xs - 1
length-tail [] = omega arith
length-tail (x ∷ xs) = omega arith

enqueue-IsBounded :
    (b : EventBroker) (ev : Event) (class : EventClass)
    → IsBounded b
    → IsBounded (enqueue b ev class).0
unfolding enqueue
enqueue-IsBounded b ev critical h =
    ground (arith, length-append b.critical (record ev { seq = u64_suc b.next_order } ∷ []))
enqueue-IsBounded b ev coalescible h =
    ground (
      arith,
      length-insert (coalesce_key ev) (record ev { seq = u64_suc b.next_order }) b.coalesced,
    )
enqueue-IsBounded b ev telemetry h = ground (
  arith,
  length-append b.telemetry (record ev { seq = u64_suc b.next_order } ∷ []),
  length-append (tail b.telemetry) (record ev { seq = u64_suc b.next_order } ∷ []),
  length-tail b.telemetry,
)
enqueue-IsBounded b ev (unknown c) h = h

batch-IsBounded :
    (b : EventBroker) (evs : List Event) → IsBounded b → IsBounded (enqueue_critical_batch b evs).0
unfolding enqueue_critical_batch
batch-IsBounded b [] h = h
batch-IsBounded b (ev ∷ evs) h = ground (arith, push_all_lem b (ev ∷ evs))

next-IsBounded : (b : EventBroker) → IsBounded b → IsBounded (next b).0
unfolding next depth
next-IsBounded b h =
    ground (arith, length-delete-le (choose "" zero_event b.coalesced).0 b.coalesced)

pub step-cap : (b : EventBroker) (c : Call) → (step b c).cap ≡ b.cap
unfolding step enqueue enqueue_critical_batch next
step-cap b (enqueues ev critical) = ground arith
step-cap b (enqueues ev class) = ground arith
step-cap b (batches []) = refl
step-cap b (batches (ev ∷ evs)) = ground (arith, push_all_lem b (ev ∷ evs))
step-cap b nexts = ground arith

pub step-IsBounded : (b : EventBroker) (c : Call) → IsBounded b → IsBounded (step b c)
unfolding step
step-IsBounded b (enqueues ev class) h = enqueue-IsBounded b ev class h
step-IsBounded b (batches evs) h = batch-IsBounded b evs h
step-IsBounded b nexts h = next-IsBounded b h

run-IsBounded : (b : EventBroker) (cs : List Call) → IsBounded b → IsBounded (run b cs)
unfolding run
run-IsBounded b [] h = h
run-IsBounded b (c ∷ cs) h = run-IsBounded (step b c) cs (step-IsBounded b c h)

run-cap : (b : EventBroker) (cs : List Call) → (run b cs).cap ≡ b.cap
unfolding run
run-cap b [] = refl
run-cap b (c ∷ cs) = run-cap (step b c) cs ∙ step-cap b c

pub new_event_broker-IsBounded : (capacity : ℤ) → IsBounded (new_event_broker capacity)
unfolding new_event_broker depth
new_event_broker-IsBounded capacity = omega arith

pub new_event_broker-cap :
    (capacity : ℤ)
    → (new_event_broker capacity).cap ≡ (if below_one capacity then 1 else pos_part capacity)
unfolding new_event_broker
new_event_broker-cap capacity = refl

-- After any calls on a new broker the events waiting in its three queues are at most its capacity,
-- which is what `NewEventBroker` was given, or 1 if that is less than 1.
pub depth-run-le :
    (capacity : ℤ) (cs : List Call)
    → depth (run (new_event_broker capacity) cs)
      ≤ (if below_one capacity then 1 else pos_part capacity)
depth-run-le capacity cs = omega (
  arith,
  run-IsBounded (new_event_broker capacity) cs (new_event_broker-IsBounded capacity),
  run-cap (new_event_broker capacity) cs,
  new_event_broker-cap capacity,
)
