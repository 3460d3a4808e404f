-- ===== src/Daemon/Agent.antt =====
-- daemon/agent.go: the handling of one envelope.
use a2ui_persistent_daemon.Base.{
  ℕ, ◌-◌, ◌+◌, Bool, true, false, not, ◌&&◌, Option, none, some, String, ℤ, pos, negsuc, eqb_ℤ, ltb,
  same, u64_mod, if◌then◌else◌,
}
use a2ui_persistent_daemon.Protocol.Types.{Operation, Error, new_error, Result, ok, err}
use a2ui_persistent_daemon.Protocol.Json.{Json}
use a2ui_persistent_daemon.Protocol.Handshake.{Hello, HelloAck}
use a2ui_persistent_daemon.Document.Reducer.Outcome.{Outcome, done, refused, panics, diverges}
use a2ui_persistent_daemon.Session.Core.{Session, negotiate, accept_mutation}
use a2ui_persistent_daemon.Engine.Core.{Engine, apply}

pub data EnvelopeKind : Type 0 where
  hello hello_ack operation event telemetry : EnvelopeKind
  unknown : String → EnvelopeKind

pub record Envelope : Type 0 where
  pub session : String
  pub kind : EnvelopeKind
  pub seq : ℕ
  pub payload : String

-- The state that an envelope can change: the session, the engine, and whether a snapshot is signalled.
pub record Daemon : Type 0 where
  pub session : Session
  pub engine : Engine
  pub updates : Bool

-- The decoding of a payload as a message of each kind, and the encoding of the answer.
pub record Codec : Type 0 where
  pub decode_hello : String → Result Hello
  pub decode_operation : String → Result Operation
  pub encode_ack : HelloAck → Result String

-- `int64(seq)` of a `uint64`
abbrev pub to_int64 : ℕ → ℤ
to_int64 n = if ltb n 9223372036854775808 then pos n else negsuc (u64_mod - (n + 1))

abbrev pub Reply : Type 0
Reply = Daemon × Option Envelope × Option Error

abbrev pub answer : Daemon → Result String → Reply
answer d (ok payload) = (
  d,
  some (record { session = d.session.id; kind = hello_ack; seq = 0; payload = payload }),
  none,
)
answer d (err e) = (d, none, some e)

module _ (c : Codec) where
  abbrev pub negotiated : Daemon → Session × Result HelloAck → Reply
  negotiated d (s, ok ack) = answer (record d { session = s }) (c.encode_ack ack)
  negotiated d (s, err e) = (record d { session = s }, none, some e)

  abbrev pub greet : Daemon → Result Hello → Reply
  greet d (ok h) = negotiated d (negotiate d.session h)
  greet d (err e) = (d, none, some e)

module _ (j : Json) where
  abbrev pub applied : Daemon → Outcome (Engine × Option Error) → Outcome Reply
  applied d (done (e, none)) = done (record d { engine = e; updates = true }, none, none)
  applied d (done (e, some perr)) = done (record d { engine = e }, none, some perr)
  applied d (refused perr) = refused perr
  applied d panics = panics
  applied d diverges = diverges

  abbrev pub operate : Daemon → ℕ → Result Operation → Outcome Reply
  operate d seq (err e) = done (d, none, some e)
  operate d seq (ok op) =
      let result = applied d (apply j d.engine op) in
      if eqb_ℤ op.seq (to_int64 seq)
      then result
      else done (d, none, some (new_error "protocol.sequence_mismatch"))

  -- The session has counted the mutation before it is decoded.
  abbrev pub mutate : Daemon → ℕ → Result Operation → Session × Bool × Option Error → Outcome Reply
  mutate d seq decoded (s, duplicate, some e) = done (record d { session = s }, none, some e)
  mutate d seq decoded (s, true, none) = done (record d { session = s }, none, none)
  mutate d seq decoded (s, false, none) = operate (record d { session = s }) seq decoded

  -- The `switch` on the kind.
  abbrev pub handle_kind : Codec → Daemon → Envelope → EnvelopeKind → Outcome Reply
  handle_kind c d env hello = done (greet c d (c.decode_hello env.payload))
  handle_kind c d env operation =
      mutate d env.seq (c.decode_operation env.payload) (accept_mutation d.session env.seq)
  handle_kind c d env telemetry = done (d, none, none)
  handle_kind c d env _ = done (d, none, some (new_error "protocol.unsupported_kind"))

  unfoldable pub handle_envelope : Codec → Daemon → Envelope → Outcome Reply
  handle_envelope c d env =
      let handled = handle_kind c d env env.kind in
      if not (same env.session "") && not (same env.session d.session.id)
      then done (d, none, some (new_error "protocol.session_mismatch"))
      else handled
