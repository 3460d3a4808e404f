-- ===== src/Session/Core.antt =====
-- session/session.go: the state of a session and its methods.
use Prim.Native.Nat.{Ordering}
use Prim.Native.String.{compare}
use a2ui_persistent_daemon.Base.{
  ℕ, Bool, true, false, Option, none, some, List, [], ◌∷◌, String, ℤ, pos, ltb, ◌==◌, u64_suc,
  if◌then◌else◌,
}
use a2ui_persistent_daemon.Names.{mem}
use a2ui_persistent_daemon.Protocol.Types.{Error, new_error, fatal_error, Result, ok, err}
use a2ui_persistent_daemon.Protocol.Limits.{Limits, effective_limits}
use a2ui_persistent_daemon.Protocol.Handshake.{
  Hello, HelloAck, validate_hello, mem_int, all_node_types,
}

pub data SessionState : Type 0 where
  new_state ready draining closed : SessionState

pub record Session : Type 0 where
  pub id : String
  pub state : SessionState
  pub limits : Limits
  pub version : ℤ
  pub expected_mutation : ℕ
  pub features : List String

unfoldable pub new : String → Limits → Session
new id limits = record {
  id = id;
  state = new_state;
  limits = effective_limits limits;
  version = pos 0;
  expected_mutation = 1;
  features = [];
}

-- `sort.Strings`
unfoldable pub insert_sorted : String → List String → List String
insert_sorted x [] = x ∷ []
insert_sorted x (y ∷ ys) = elim (compare x y) [
  | Ordering.gt ↦ y ∷ insert_sorted x ys
  | _ ↦ x ∷ y ∷ ys
]

unfoldable pub sort : List String → List String
unfolding insert_sorted
sort [] = []
sort (x ∷ xs) = insert_sorted x (sort xs)

unfoldable pub available : List String
available =
    "commit-barrier" ∷ "incremental-props" ∷ "action-events" ∷ "bounded-resources" ∷ "udp-telemetry"
    ∷ []

-- The loop over the requested features.
unfoldable pub supported_features : List String → List String
supported_features [] = []
supported_features (f ∷ fs) =
    if mem f available then f ∷ supported_features fs else supported_features fs

abbrev pub negotiated : Session → Hello → Session × Result HelloAck
negotiated s h =
    let features = sort (supported_features h.features) in
    (
      record s { version = pos 1; features = features; state = ready },
      ok (record {
        version = pos 1;
        features = features;
        components = all_node_types;
        limits = s.limits;
      }),
    )

abbrev pub negotiate_checked : Session → Hello → Option Error → Session × Result HelloAck
negotiate_checked s h (some e) = (s, err e)
negotiate_checked s h none =
    if mem_int (pos 1) h.versions
    then negotiated s h
    else (s, err (fatal_error "protocol.version_mismatch"))

abbrev pub negotiate_in : SessionState → Session → Hello → Session × Result HelloAck
negotiate_in new_state s h = negotiate_checked s h (validate_hello h)
negotiate_in _ s h = (s, err (new_error "protocol.invalid_state"))

unfoldable pub negotiate : Session → Hello → Session × Result HelloAck
negotiate s h = negotiate_in s.state s h

-- The Boolean of the result says that the mutation is a duplicate.
abbrev pub accept_in : SessionState → Session → ℕ → Session × Bool × Option Error
accept_in ready s seq =
    if seq == 0
    then (record s { state = closed }, false, some (fatal_error "protocol.invalid_sequence"))
    else if ltb seq s.expected_mutation
    then (s, true, none)
    else if ltb s.expected_mutation seq
    then (record s { state = closed }, false, some (fatal_error "protocol.sequence_gap"))
    else (record s { expected_mutation = u64_suc s.expected_mutation }, false, none)
accept_in _ s seq = (s, false, some (new_error "protocol.invalid_state"))

unfoldable pub accept_mutation : Session → ℕ → Session × Bool × Option Error
accept_mutation s seq = accept_in s.state s seq

abbrev pub drain_in : SessionState → Session → Session
drain_in ready s = record s { state = draining }
drain_in _ s = s

unfoldable pub drain : Session → Session
drain s = drain_in s.state s

unfoldable pub close : Session → Session
close s = record s { state = closed }
