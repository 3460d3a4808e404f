-- ===== src/Runtime/Events/Numbering.antt =====
-- runtime/events.go: the numbers that `Next` puts on the events it delivers.
use a2ui_persistent_daemon.Base.{
  ℕ, zero, suc, ◌≡◌, refl, subst, Option, none, some, List, [], ◌∷◌, map, ℤ, arith, length, u64_suc,
}
use a2ui_persistent_daemon.Protocol.Types.{Event}
use a2ui_persistent_daemon.Runtime.Events.Broker.{
  EventClass, critical, coalescible, telemetry, unknown, EventBroker, new_event_broker, enqueue,
  enqueue_critical_batch, push_all, push_critical, next, next_from,
}
use a2ui_persistent_daemon.Runtime.Events.History.{Call, enqueues, batches, nexts, step}

-- The events that a history delivers.
unfoldable pub outputs : EventBroker → List Call → List Event
outputs b [] = []
outputs b (nexts ∷ cs) = elim (next b).1 [
  | none ↦ outputs (step b nexts) cs
  | some ev ↦ ev ∷ outputs (step b nexts) cs
]
outputs b (c ∷ cs) = outputs (step b c) cs

-- `n` numbers that follow `start`, as a `uint64` counts.
abbrev pub numbered : ℕ → ℕ → List ℕ
numbered start zero = []
numbered start (suc n) = u64_suc start ∷ numbered (u64_suc start) n

push_all-next_seq : (b : EventBroker) (evs : List Event) → (push_all b evs).next_seq ≡ b.next_seq
unfolding push_all
push_all-next_seq b [] = refl
push_all-next_seq b (ev ∷ evs) = push_all-next_seq (push_critical b ev) evs

enqueue-next_seq :
    (b : EventBroker) (ev : Event) (class : EventClass)
    → (enqueue b ev class).0.next_seq ≡ b.next_seq
unfolding enqueue
enqueue-next_seq b ev critical = ground arith
enqueue-next_seq b ev coalescible = ground arith
enqueue-next_seq b ev telemetry = ground arith
enqueue-next_seq b ev (unknown c) = refl

batch-next_seq :
    (b : EventBroker) (evs : List Event) → (enqueue_critical_batch b evs).0.next_seq ≡ b.next_seq
unfolding enqueue_critical_batch
batch-next_seq b [] = refl
batch-next_seq b (ev ∷ evs) = ground (arith, push_all-next_seq b (ev ∷ evs))

next-none : (b : EventBroker) → (next b).1 ≡ none → (next b).0.next_seq ≡ b.next_seq
unfolding next next_from
next-none b h = ground arith

next-some :
    (b : EventBroker) (ev : Event)
    → (next b).1 ≡ some ev
    → (ev.seq ≡ u64_suc b.next_seq) × ((next b).0.next_seq ≡ u64_suc b.next_seq)
unfolding next next_from
next-some b ev h = (ground arith, ground arith)

-- The numbers of `events`, from where the counter stands.
abbrev Numbered : ℕ → List Event → Type 0
Numbered start events = map (λ ev. ev.seq) events ≡ numbered start (length events)

next-Numbered :
    (b : EventBroker) (rest : List Event) (o : Option Event)
    → (next b).1 ≡ o
    → Numbered (next b).0.next_seq rest
    → Numbered b.next_seq (elim o as (λ x. List Event) [ none ↦ rest | some ev ↦ ev ∷ rest ])
next-Numbered b rest none h later = subst (λ n. Numbered n rest) (next-none b h) later
next-Numbered b rest (some ev) h later =
    let (number, counter) = next-some b ev h in
    let later' = subst (λ n. Numbered n rest) counter later in ground (arith, later', number)

outputs-Numbered : (b : EventBroker) (cs : List Call) → Numbered b.next_seq (outputs b cs)
unfolding outputs step
outputs-Numbered b [] = refl
outputs-Numbered b (enqueues ev class ∷ cs) =
    subst (λ n. Numbered n (outputs (enqueue b ev class).0 cs)) (enqueue-next_seq b ev class)
      (outputs-Numbered (enqueue b ev class).0 cs)
outputs-Numbered b (batches evs ∷ cs) =
    subst (λ n. Numbered n (outputs (enqueue_critical_batch b evs).0 cs)) (batch-next_seq b evs)
      (outputs-Numbered (enqueue_critical_batch b evs).0 cs)
outputs-Numbered b (nexts ∷ cs) =
    next-Numbered b (outputs (next b).0 cs) (next b).1 refl (outputs-Numbered (next b).0 cs)

-- `Next` numbers the events it delivers, over any calls on a new broker, 1, 2, 3 and so on without a gap,
-- as a `uint64` counts, whichever of the three queues they come from.
pub outputs-run :
    (capacity : ℤ) (cs : List Call)
    → let sent = outputs (new_event_broker capacity) cs in
      map (λ ev. ev.seq) sent ≡ numbered 0 (length sent)
unfolding new_event_broker
outputs-run capacity cs = outputs-Numbered (new_event_broker capacity) cs
