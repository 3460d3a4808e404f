-- ===== src/Wire/Sound.antt =====
-- wire/json.go: what a record that was decoded is known to be.
use a2ui_persistent_daemon.Base.{
  ◌≡◌, refl, subst, inl, inr, Bool, true, false, not, Option, none, some, String, is_negative,
  eqb_ℤ, same, ◌==◌, len, arith, Bool-cases, if◌then◌else◌,
}
use a2ui_persistent_daemon.Maps.{Map, has}
use a2ui_persistent_daemon.Protocol.Types.{
  Operation, Event, Error, new_error, version, Result, ok, err, ◌>>=◌,
}
use a2ui_persistent_daemon.Protocol.Handshake.{Hello, HelloAck, validate_hello, validate_hello_ack}
use a2ui_persistent_daemon.Daemon.Agent.{
  EnvelopeKind, hello, hello_ack, operation, event, telemetry, unknown,
}
use a2ui_persistent_daemon.Wire.Keys.Scan.{reject_duplicate_keys}
use a2ui_persistent_daemon.Wire.Decode.{
  Envelope, Decoders, to_uint64, checked_by, refuse_if, strict_unmarshal, strict_decode,
  object_probe, require, decode_legacy_operation, decode_direct_event, validate_kind,
  validate_envelope_payload, decode_as_envelope, decode_as_operation, decode_as_event,
  decode_probed, decode_record, is_object,
}

-- The first of two steps that succeed together did.
bind_ok :
    {A B : Type 0} (r : Result A) (f : A → Result B) (b : B)
    → (r >>= f) ≡ ok b
    → (a : A) × (r ≡ ok a) × (f a ≡ ok b)
bind_ok (ok a) f b h = (a, refl, h)
bind_ok (err e) f b h = cc

refuse_if-ok :
    {A : Type 0} (test : Bool) (code : String) (a b : A)
    → refuse_if test code a ≡ ok b
    → (test ≡ false) × (a ≡ b)
refuse_if-ok true code a b h = cc
refuse_if-ok false code a b h = (refl, cc)

checked_by-ok :
    {A : Type 0} (e : Option Error) (a b : A) → checked_by e a ≡ ok b → (e ≡ none) × (a ≡ b)
checked_by-ok none a b h = (refl, cc)
checked_by-ok (some e) a b h = cc

ok-injective : (a b : Envelope) → ok a ≡ ok b → a ≡ b
ok-injective a b h = cc

else-ok :
    (test : Bool) (e : Error) (r : Result Envelope) (a : Envelope)
    → (if test then err e else r) ≡ ok a
    → r ≡ ok a
else-ok true e r a h = cc
else-ok false e r a h = h

module _ (d : Decoders) where
  -- What is known of the payload, by the kind.
  abbrev pub Fits : Envelope → EnvelopeKind → Type 0
  Fits env hello =
      (h : Hello) × (strict_unmarshal d d.decode_hello env.payload ≡ ok h)
      × (validate_hello h ≡ none)
  Fits env hello_ack =
      (ack : HelloAck) × (strict_unmarshal d d.decode_hello_ack env.payload ≡ ok ack)
      × (validate_hello_ack ack ≡ none)
  Fits env operation =
      (op : Operation) × (decode_legacy_operation d env.payload ≡ ok op)
      × (eqb_ℤ op.v version ≡ true)
      × (is_negative op.seq ≡ false)
      × (to_uint64 op.seq ≡ env.seq)
  Fits env event =
      (ev : Event) × (decode_direct_event d env.payload ≡ ok ev)
      × (eqb_ℤ ev.v version ≡ true)
      × (same ev.ev "" ≡ false)
      × (ev.seq ≡ env.seq)
  Fits env telemetry =
      (p : Option (Map String)) × (strict_unmarshal d d.decode_members env.payload ≡ ok p)
      × (is_object d p ≡ true)
  Fits env (unknown k) = ⊥

  decode_legacy_operation-ok :
      (raw : String) (op : Operation)
      → decode_legacy_operation d raw ≡ ok op
      → (eqb_ℤ op.v version ≡ true) × (is_negative op.seq ≡ false)
  unfolding decode_legacy_operation
  decode_legacy_operation-ok raw op h =
      let (probe, _, h1) = bind_ok (object_probe d raw) _ op h in
      let (_, _, h2) = bind_ok (require d "v" probe) _ op h1 in
      let (_, _, h3) = bind_ok (require d "seq" probe) _ op h2 in
      let (_, _, h4) = bind_ok (require d "op" probe) _ op h3 in
      let (op', _, h5) = bind_ok (strict_decode d d.decode_operation raw) _ op h4 in
      ground (arith, h5)

  decode_direct_event-ok :
      (raw : String) (ev : Event)
      → decode_direct_event d raw ≡ ok ev
      → (eqb_ℤ ev.v version ≡ true) × (same ev.ev "" ≡ false)
  unfolding decode_direct_event
  decode_direct_event-ok raw ev h =
      let (probe, _, h1) = bind_ok (object_probe d raw) _ ev h in
      let (_, _, h2) = bind_ok (require d "v" probe) _ ev h1 in
      let (_, _, h3) = bind_ok (require d "seq" probe) _ ev h2 in
      let (_, _, h4) = bind_ok (require d "ev" probe) _ ev h3 in
      let (ev', _, h5) = bind_ok (strict_decode d d.decode_event raw) _ ev h4 in ground (arith, h5)

  validate_kind-Fits :
      (env env' : Envelope) (probe : Map String) (k : EnvelopeKind)
      → validate_kind d env probe k ≡ ok env'
      → (env ≡ env') × Fits env k
  validate_kind-Fits env env' probe hello h =
      let (m, e, h1) = bind_ok (strict_unmarshal d d.decode_hello env.payload) _ env' h in
      let (valid, same_env) = checked_by-ok (validate_hello m) env env' h1 in
      (same_env, (m, e, valid))
  validate_kind-Fits env env' probe hello_ack h =
      let (m, e, h1) = bind_ok (strict_unmarshal d d.decode_hello_ack env.payload) _ env' h in
      let (valid, same_env) = checked_by-ok (validate_hello_ack m) env env' h1 in
      (same_env, (m, e, valid))
  validate_kind-Fits env env' probe operation h =
      let (_, _, h1) = bind_ok (require d "seq" probe) _ env' h in
      let (op, e, h2) = bind_ok (decode_legacy_operation d env.payload) _ env' h1 in
      let (agrees, same_env) = refuse_if-ok _ _ env env' h2 in
      let (v, positive) = decode_legacy_operation-ok env.payload op e in
      (same_env, (op, e, v, positive, ground (arith, agrees)))
  validate_kind-Fits env env' probe event h =
      let (_, _, h1) = bind_ok (require d "seq" probe) _ env' h in
      let (ev, e, h2) = bind_ok (decode_direct_event d env.payload) _ env' h1 in
      let (agrees, same_env) = refuse_if-ok _ _ env env' h2 in
      let (v, named) = decode_direct_event-ok env.payload ev e in
      (same_env, (ev, e, v, named, ground (arith, agrees)))
  validate_kind-Fits env env' probe telemetry h =
      let (_, _, h1) = bind_ok (require d "seq" probe) _ env' h in
      let (p, e, h2) = bind_ok (strict_unmarshal d d.decode_members env.payload) _ env' h1 in
      let (agrees, same_env) = refuse_if-ok _ _ env env' h2 in
      (same_env, (p, e, ground (arith, agrees)))
  validate_kind-Fits env env' probe (unknown k) h = cc

  abbrev pub Sound : Envelope → Type 0
  Sound env = (eqb_ℤ env.v version ≡ true) × Fits env env.kind

  decode_as_envelope-Sound :
      (raw : String) (probe : Map String) (env : Envelope)
      → decode_as_envelope d raw probe ≡ ok env
      → Sound env
  unfolding validate_envelope_payload
  decode_as_envelope-Sound raw probe env h =
      let (_, _, h1) = bind_ok (require d "v" probe) _ env h in
      let (env1, _, h2) = bind_ok (strict_decode d d.decode_envelope raw) _ env h1 in
      let (_, v, h3) =
        bind_ok (refuse_if (not (eqb_ℤ env1.v version)) "protocol.version_mismatch" env1) _ env
          h2 in
      let (_, _, h4) = bind_ok (require d "payload" probe) _ env h3 in
      let (same_env, fits) = validate_kind-Fits env1 env probe env1.kind h4 in
      let (current, _) = refuse_if-ok (not (eqb_ℤ env1.v version)) _ env1 _ v in
      subst Sound same_env (ground (arith, current), fits)

  decode_as_operation-Sound :
      (raw : String) (env : Envelope) → decode_as_operation d raw ≡ ok env → Sound env
  decode_as_operation-Sound raw env h =
      let (op, e, h1) = bind_ok (decode_legacy_operation d raw) _ env h in
      let (v, positive) = decode_legacy_operation-ok raw op e in
      subst Sound (ok-injective _ env h1) (v, (op, e, v, positive, refl))

  decode_as_event-Sound :
      (raw : String) (env : Envelope) → decode_as_event d raw ≡ ok env → Sound env
  decode_as_event-Sound raw env h =
      let (ev, e, h1) = bind_ok (decode_direct_event d raw) _ env h in
      let (v, named) = decode_direct_event-ok raw ev e in
      subst Sound (ok-injective _ env h1) (v, (ev, e, v, named, refl))

  decode_probed-Sound :
      (raw : String) (probe : Map String) (env : Envelope)
      → decode_probed d raw probe ≡ ok env
      → Sound env
  decode_probed-Sound raw probe env h = elim (Bool-cases (has "kind" probe)) [
    | inl a ↦ decode_as_envelope-Sound raw probe env (ground (arith, a, h))
    | inr a ↦ elim (Bool-cases (has "op" probe)) [
      | inl b ↦ decode_as_operation-Sound raw env (ground (arith, a, b, h))
      | inr b ↦ elim (Bool-cases (has "ev" probe)) [
        | inl c ↦ decode_as_event-Sound raw env (ground (arith, a, b, c, h))
        | inr c ↦ ground (arith, a, b, c, h)
      ]
    ]
  ]

  -- A record that is decoded has no key twice in an object, and the version of the protocol. Its payload decodes as
  -- what its kind says and passes that kind's checks: a hello or its acknowledgement is valid, an operation is of
  -- this version with a sequence number that is not negative and is the envelope's, an event is named and has the
  -- envelope's number, telemetry is an object. A record of another kind is not decoded.
  pub decode_record-Sound :
      (raw : String) (env : Envelope)
      → decode_record d raw ≡ ok env
      → (reject_duplicate_keys (d.tokens (d.trim_space raw)) ≡ none) × Sound env
  unfolding decode_record
  decode_record-Sound raw env h =
      let trimmed = d.trim_space raw in
      let checked = checked_by (reject_duplicate_keys (d.tokens trimmed)) trimmed in
      let h0 =
        else-ok (len trimmed == 0) (new_error "wire.empty") (checked >>= unambiguous trimmed) env
          h in
      let (_, unique, h1) = bind_ok checked (unambiguous trimmed) env h0 in
      let (probe, _, h2) = bind_ok (object_probe d trimmed) (decode_probed d trimmed) env h1 in
      (
        (checked_by-ok (reject_duplicate_keys (d.tokens trimmed)) trimmed _ unique).0,
        decode_probed-Sound trimmed probe env h2,
      )
    where
      unambiguous : String → String → Result Envelope
      unambiguous trimmed s = object_probe d trimmed >>= decode_probed d trimmed
