-- ===== src/Runtime/Events/Broker.antt =====
-- runtime/events.go: the state of the broker and its methods.
use Prim.Native.String.{◌++◌ as ◌+++◌}
use a2ui_persistent_daemon.Base.{
  ℕ, ◌+◌, Bool, true, false, not, ◌&&◌, Option, none, some, List, [], ◌∷◌, ◌++◌, String, ℤ,
  below_one, pos_part, same, leb, ltb, length, u64_suc, if◌then◌else◌,
}
use a2ui_persistent_daemon.Maps.{Map, insert, delete, has}
use a2ui_persistent_daemon.Protocol.Types.{Event, Error, new_error, version, event}

pub data EventClass : Type 0 where
  critical coalescible telemetry : EventClass
  unknown : ℕ → EventClass

pub record EventBroker : Type 0 where
  pub cap : ℕ
  pub next_order : ℕ
  pub next_seq : ℕ
  pub critical : List Event
  pub coalesced : Map Event
  pub telemetry : List Event

unfoldable pub new_event_broker : ℤ → EventBroker
new_event_broker capacity = record {
  cap = if below_one capacity then 1 else pos_part capacity;
  next_order = 0;
  next_seq = 0;
  critical = [];
  coalesced = [];
  telemetry = [];
}

-- `b.order(ev)`: the counter is a field of the broker, and goes first.
abbrev pub ordered : EventBroker → EventBroker
ordered b = record b { next_order = u64_suc b.next_order }

abbrev pub order : EventBroker → Event → Event
order b ev = record ev { seq = u64_suc b.next_order }

unfoldable pub depth : EventBroker → ℕ
depth b = length b.critical + length b.coalesced + length b.telemetry

abbrev pub backpressure : Option Error
backpressure = some (new_error "runtime.backpressure_exceeded")

abbrev pub push_critical : EventBroker → Event → EventBroker
push_critical b ev = record (ordered b) { critical = b.critical ++ order b ev ∷ [] }

abbrev pub coalesce_key : Event → String
coalesce_key ev = ev.ev +++ "|" +++ ev.id

abbrev pub tail : List Event → List Event
tail [] = []
tail (x ∷ xs) = xs

abbrev pub push_telemetry : EventBroker → List Event → Event → EventBroker
push_telemetry b queue ev = record (ordered b) { telemetry = queue ++ order b ev ∷ [] }

abbrev is_empty : List Event → Bool
is_empty [] = true
is_empty (x ∷ xs) = false

unfoldable pub enqueue : EventBroker → Event → EventClass → EventBroker × Option Error
unfolding depth
enqueue b ev critical =
    if leb b.cap (depth b) then (b, backpressure) else (push_critical b ev, none)
enqueue b ev coalescible =
    if not (has (coalesce_key ev) b.coalesced) && leb b.cap (depth b) then (b, backpressure) else (
      record (ordered b) { coalesced = insert (coalesce_key ev) (order b ev) b.coalesced },
      none,
    )
enqueue b ev telemetry =
    if leb b.cap (depth b)
    then if is_empty b.telemetry then (b, none) else (push_telemetry b (tail b.telemetry) ev, none)
    else (push_telemetry b b.telemetry ev, none)
enqueue b ev (unknown c) = (b, some (new_error "runtime.invalid_event_class"))

unfoldable pub push_all : EventBroker → List Event → EventBroker
push_all b [] = b
push_all b (ev ∷ evs) = push_all (push_critical b ev) evs

-- All of the events or none.
unfoldable pub enqueue_critical_batch : EventBroker → List Event → EventBroker × Option Error
unfolding depth push_all
enqueue_critical_batch b [] = (b, none)
enqueue_critical_batch b (ev ∷ evs) =
    if ltb b.cap (depth b + length (ev ∷ evs))
    then (b, backpressure)
    else (push_all b (ev ∷ evs), none)

abbrev pub delivered : EventBroker → EventBroker
delivered b = record b { next_seq = u64_suc b.next_seq }

abbrev pub deliver : EventBroker → Event → Event
deliver b ev = record ev { v = version; seq = u64_suc b.next_seq }

-- The loop of `Next` over the coalesced events, with what it has chosen so far.
unfoldable pub choose : String → Event → Map Event → String × Event
choose key chosen [] = (key, chosen)
choose key chosen ((k, ev) ∷ m) =
    choose (if same key "" then k else if ltb ev.seq chosen.seq then k else key)
      (if same key "" then ev else if ltb ev.seq chosen.seq then ev else chosen) m

-- `var chosen protocol.Event`
abbrev pub zero_event : Event
zero_event = event ""

abbrev next_telemetry : EventBroker → List Event → EventBroker × Option Event
next_telemetry b [] = (b, none)
next_telemetry b (ev ∷ rest) = (delivered (record b { telemetry = rest }), some (deliver b ev))

abbrev next_coalesced : EventBroker → Map Event → EventBroker × Option Event
unfolding choose
next_coalesced b [] = next_telemetry b b.telemetry
next_coalesced b (e ∷ m) =
    let (key, chosen) = choose "" zero_event (e ∷ m) in
    (delivered (record b { coalesced = delete key b.coalesced }), some (deliver b chosen))

unfoldable pub next_from : EventBroker → List Event → EventBroker × Option Event
unfolding choose
next_from b [] = next_coalesced b b.coalesced
next_from b (ev ∷ rest) = (delivered (record b { critical = rest }), some (deliver b ev))

unfoldable pub next : EventBroker → EventBroker × Option Event
unfolding next_from
next b = next_from b b.critical
