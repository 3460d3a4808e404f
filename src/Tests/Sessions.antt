-- ===== src/Tests/Sessions.antt =====
-- session: negotiation and mutations at sample values.
use a2ui_persistent_daemon.Base.{same, ◌≡◌, ◌≤◌, ◌<◌, ◌⊎◌, refl, List, [], ◌∷◌, pos, length}
use a2ui_persistent_daemon.Names.{mem}
use a2ui_persistent_daemon.Protocol.Types.{Error, Result, ok, err}
use a2ui_persistent_daemon.Protocol.Limits.{
  effective_limits, or_default, validate_limits, check_fields,
}
use a2ui_persistent_daemon.Protocol.Handshake.{
  Hello, HelloAck, validate_hello, check_versions, check_features, mem_int, all_node_types,
}
use a2ui_persistent_daemon.Session.Core.{
  Session, new_state, new, negotiate, ready, sort, insert_sorted, supported_features, available,
}
use a2ui_persistent_daemon.Session.Sequence.{
  Call, negotiates, accepts, drains, run, accepted, count_from, accepted-run,
}
use a2ui_persistent_daemon.Session.States.{rank, run-forward}
use a2ui_persistent_daemon.Session.Negotiation.{Agreed, negotiate-lem}
use a2ui_persistent_daemon.Tests.Sample.{limits}

abbrev hello : Hello
hello = record {
  versions = pos 2 ∷ pos 1 ∷ [];
  features = "udp-telemetry" ∷ "sixel" ∷ "commit-barrier" ∷ [];
}

-- The ack has the common features in order.
abbrev ack : HelloAck
ack = record {
  version = pos 1;
  features = "commit-barrier" ∷ "udp-telemetry" ∷ [];
  components = all_node_types;
  limits = limits;
}

abbrev greeted : Session
greeted = record (new "s" limits) { version = pos 1; features = ack.features; state = ready }

negotiate-lem_example :
    ((a : HelloAck) × (◌≡◌ {A = Result HelloAck} (ok ack) (ok a))
      × Agreed (new "s" limits) hello a greeted)
    ⊎ ((e : Error) × (◌≡◌ {A = Result HelloAck} (ok ack) (err e)) × (greeted ≡ new "s" limits))
unfolding new negotiate sort insert_sorted supported_features available mem same validate_hello
    check_versions check_features mem_int effective_limits or_default validate_limits check_fields
negotiate-lem_example = negotiate-lem (new "s" limits) greeted hello (ok ack) refl refl

-- A mutation is sent twice, and later one is left out.
abbrev calls : List Call
calls = negotiates hello ∷ accepts 1 ∷ accepts 1 ∷ accepts 2 ∷ accepts 4 ∷ accepts 3 ∷ drains ∷ []

-- The same calls up to the gap.
abbrev until_gap : List Call
until_gap = negotiates hello ∷ accepts 1 ∷ accepts 1 ∷ accepts 2 ∷ []

accepted-run_example :
    (accepted (new "s" limits) until_gap
      ≡ count_from 1 (length (accepted (new "s" limits) until_gap)))
    × ((4 ≤ (run (new "s" limits) until_gap).expected_mutation)
        ⊎ ((run (new "s" limits) until_gap).state ≡ new_state)
        ⊎ (accepted (run (new "s" limits) until_gap) (accepts 4 ∷ accepts 3 ∷ []) ≡ []))
accepted-run_example = accepted-run "s" limits until_gap 4 (accepts 3 ∷ [])

run-forward_example :
    (rank (new "s" limits).state ≤ rank (run (new "s" limits) calls).state)
    × ((rank (new "s" limits).state < 2) ⊎ (accepted (new "s" limits) calls ≡ []))
run-forward_example = run-forward (new "s" limits) calls
