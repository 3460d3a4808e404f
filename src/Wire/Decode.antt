-- ===== src/Wire/Decode.antt =====
-- wire/json.go: the decoding of a record. A text is opaque; what Go's JSON decoder makes of it is given.
use a2ui_persistent_daemon.Base.{
  ℕ, ◌-◌, Bool, true, false, not, Option, none, some, List, String, ℤ, ◌+◌, pos, negsuc,
  is_negative, eqb_ℤ, u64_mod, same, ◌==◌, len, if◌then◌else◌,
}
use a2ui_persistent_daemon.Maps.{Map, has}
use a2ui_persistent_daemon.Protocol.Types.{
  Operation, Event, Error, new_error, version, Result, ok, err, ◌>>=◌,
}
use a2ui_persistent_daemon.Protocol.Handshake.{Hello, HelloAck, validate_hello, validate_hello_ack}
use a2ui_persistent_daemon.Daemon.Agent.{
  EnvelopeKind, hello, hello_ack, operation, event, telemetry, unknown,
}
use a2ui_persistent_daemon.Wire.Keys.Scan.{Token, reject_duplicate_keys}

pub record Envelope : Type 0 where
  pub v : ℤ
  pub session : String
  pub kind : EnvelopeKind
  pub seq : ℕ
  pub payload : String

-- A call of the decoder: a value, or an error, whose text says that a field is unknown or something else.
pub data Decoded {ℓ} (A : Type ℓ) : Type ℓ where
  decoded : A → Decoded A
  unknown_field other_error : Decoded A

-- `json.Unmarshal` as an object's members, where `null` gives the nil map.
pub data Probe : Type 0 where
  members : Map String → Probe
  null failed : Probe

-- Go's decoders. The second call of `Decode` in `strictDecode` gives `none` at the end of the input.
pub record Decoders : Type 0 where
  pub trim_space : String → String
  pub tokens : String → List Token
  pub unmarshal_object : String → Probe
  pub decode_envelope : String → Decoded Envelope
  pub decode_hello : String → Decoded Hello
  pub decode_hello_ack : String → Decoded HelloAck
  pub decode_operation : String → Decoded Operation
  pub decode_event : String → Decoded Event
  pub decode_members : String → Decoded (Option (Map String))
  pub decode_second : String → Option (Decoded Hello)

-- `uint64(seq)` of an `int64`
abbrev pub to_uint64 : ℤ → ℕ
to_uint64 (pos n) = n
to_uint64 (negsuc n) = u64_mod - (n + 1)

-- `wireDecodeError`
abbrev pub wire_decode_error : Bool → Error
wire_decode_error true = new_error "wire.unknown_field"
wire_decode_error false = new_error "wire.malformed"

abbrev pub refuse_if {ℓ} : {A : Type ℓ} → Bool → String → A → Result A
refuse_if true code a = err (new_error code)
refuse_if false code a = ok a

abbrev pub checked_by {ℓ} : {A : Type ℓ} → Option Error → A → Result A
checked_by none a = ok a
checked_by (some e) a = err e

module _ (d : Decoders) where
  abbrev pub nothing_more {ℓ} : {A : Type ℓ} → Option (Decoded Hello) → A → Result A
  nothing_more none a = ok a
  nothing_more (some unknown_field) a = err (wire_decode_error true)
  nothing_more (some _) a = err (wire_decode_error false)

  -- `strictDecode`, with the error that its callers make of its error.
  unfoldable pub strict_decode {ℓ} : {A : Type ℓ} → (String → Decoded A) → String → Result A
  strict_decode decode raw = elim (decode raw) [
    | unknown_field ↦ err (wire_decode_error true)
    | other_error ↦ err (wire_decode_error false)
    | decoded a ↦ nothing_more (d.decode_second raw) a
  ]

  unfoldable pub strict_unmarshal {ℓ} : {A : Type ℓ} → (String → Decoded A) → String → Result A
  unfolding strict_decode reject_duplicate_keys
  strict_unmarshal decode raw =
      let trimmed = d.trim_space raw in
      let value = (do
        _ ← checked_by (reject_duplicate_keys (d.tokens trimmed)) trimmed
        strict_decode decode trimmed) in
      if len trimmed == 0 then err (new_error "wire.empty") else value

  unfoldable pub object_probe : String → Result (Map String)
  object_probe raw = elim (d.unmarshal_object raw) [
    | members m ↦ ok m
    | null ↦ err (new_error "wire.malformed")
    | failed ↦ err (new_error "wire.malformed")
  ]

  abbrev pub require : String → Map String → Result (Map String)
  require field probe = refuse_if (not (has field probe)) "wire.missing_field" probe

  unfoldable pub decode_legacy_operation : String → Result Operation
  unfolding strict_decode object_probe
  decode_legacy_operation raw = do
    probe ← object_probe raw
    _ ← require "v" probe
    _ ← require "seq" probe
    _ ← require "op" probe
    op ← strict_decode d.decode_operation raw
    _ ← refuse_if (not (eqb_ℤ op.v version)) "protocol.version_mismatch" op
    refuse_if (is_negative op.seq) "protocol.invalid_sequence" op

  unfoldable pub decode_direct_event : String → Result Event
  unfolding strict_decode object_probe
  decode_direct_event raw = do
    probe ← object_probe raw
    _ ← require "v" probe
    _ ← require "seq" probe
    _ ← require "ev" probe
    ev ← strict_decode d.decode_event raw
    _ ← refuse_if (not (eqb_ℤ ev.v version)) "protocol.version_mismatch" ev
    refuse_if (same ev.ev "") "wire.missing_field" ev

  abbrev pub is_object : Option (Map String) → Bool
  is_object none = false
  is_object (some m) = true

  -- The `switch` of `validateEnvelopePayload`; a success gives the envelope.
  abbrev pub validate_kind : Envelope → Map String → EnvelopeKind → Result Envelope
  validate_kind env probe hello = do
    h ← strict_unmarshal d.decode_hello env.payload
    checked_by (validate_hello h) env
  validate_kind env probe hello_ack = do
    ack ← strict_unmarshal d.decode_hello_ack env.payload
    checked_by (validate_hello_ack ack) env
  validate_kind env probe operation = do
    _ ← require "seq" probe
    op ← decode_legacy_operation env.payload
    refuse_if (not (to_uint64 op.seq == env.seq)) "protocol.sequence_mismatch" env
  validate_kind env probe event = do
    _ ← require "seq" probe
    ev ← decode_direct_event env.payload
    refuse_if (not (ev.seq == env.seq)) "protocol.sequence_mismatch" env
  validate_kind env probe telemetry = do
    _ ← require "seq" probe
    payload ← strict_unmarshal d.decode_members env.payload
    refuse_if (not (is_object payload)) "wire.malformed" env
  validate_kind env probe (unknown k) = err (new_error "wire.unknown_kind")

  unfoldable pub validate_envelope_payload : Envelope → Map String → Result Envelope
  unfolding strict_unmarshal decode_legacy_operation decode_direct_event validate_hello
      validate_hello_ack
  validate_envelope_payload env probe = do
    _ ← require "payload" probe
    validate_kind env probe env.kind

  abbrev pub decode_as_envelope : String → Map String → Result Envelope
  decode_as_envelope raw probe = do
    _ ← require "v" probe
    env ← strict_decode d.decode_envelope raw
    _ ← refuse_if (not (eqb_ℤ env.v version)) "protocol.version_mismatch" env
    validate_envelope_payload env probe

  abbrev pub decode_as_operation : String → Result Envelope
  decode_as_operation raw = do
    op ← decode_legacy_operation raw
    ok (record { v = op.v; session = ""; kind = operation; seq = to_uint64 op.seq; payload = raw })

  abbrev pub decode_as_event : String → Result Envelope
  decode_as_event raw = do
    ev ← decode_direct_event raw
    ok (record { v = ev.v; session = ""; kind = event; seq = ev.seq; payload = raw })

  abbrev pub decode_probed : String → Map String → Result Envelope
  decode_probed raw probe =
      if has "kind" probe
      then decode_as_envelope raw probe
      else if has "op" probe
      then decode_as_operation raw
      else if has "ev" probe
      then decode_as_event raw
      else err (new_error "wire.malformed")

  unfoldable pub decode_record : String → Result Envelope
  unfolding validate_envelope_payload strict_decode object_probe decode_legacy_operation
      decode_direct_event reject_duplicate_keys
  decode_record raw =
      let trimmed = d.trim_space raw in
      let env = (do
        _ ← checked_by (reject_duplicate_keys (d.tokens trimmed)) trimmed
        probe ← object_probe trimmed
        decode_probed trimmed probe) in
      if len trimmed == 0 then err (new_error "wire.empty") else env
