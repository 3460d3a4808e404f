-- ===== src/Tests/Records.antt =====
-- wire and ipc: records at sample values.
use a2ui_persistent_daemon.Base.{
  ◌+◌, ◌≡◌, refl, true, false, none, some, [], ◌∷◌, ◌++◌, map, length, pos, arith, same,
  if◌then◌else◌, ◌==◌, pos_part, ltb, ◌*◌,
}
use a2ui_persistent_daemon.Protocol.Types.{new_error}
use a2ui_persistent_daemon.Protocol.Limits.{effective_limits, or_default}
use a2ui_persistent_daemon.Protocol.Types.{NodeType}
use a2ui_persistent_daemon.Daemon.Agent.{operation}
use a2ui_persistent_daemon.Base.{max_int}
use a2ui_persistent_daemon.Ipc.Budget.{record_limit-exact}
use a2ui_persistent_daemon.Ipc.Budget as Budget
use a2ui_persistent_daemon.Wire.Slices.{
  full, line, last, at_end, record_read, unframed, line_limit, read_line,
}
use a2ui_persistent_daemon.Wire.Lines.{joined, kept_of, read_line-content, read_line-split}
use a2ui_persistent_daemon.Wire.Keys.Scan.{
  text, scalar, open_object, close_object, parse_value, scan_fuel, reject_duplicate_keys,
}
use a2ui_persistent_daemon.Wire.Keys.Fuel.{Ends, scan_fuel_enough}
use a2ui_persistent_daemon.Wire.Keys.Distinct.{
  Value, atom, object, member, none_left, write_value, distinct, reject_duplicate_keys-exact,
}
use a2ui_persistent_daemon.Wire.Decode.{
  Envelope, Decoders, Probe, decoded, unknown_field, decode_record, decode_legacy_operation,
  validate_envelope_payload, object_probe, strict_decode, strict_unmarshal,
}
use a2ui_persistent_daemon.Wire.Sound.{Sound, decode_record-Sound}
use a2ui_persistent_daemon.Maps.{lookup, keys}
use a2ui_persistent_daemon.Names.{mem}
use a2ui_persistent_daemon.Tests.Sample.{limits, add}

record_limit-exact_example :
    let exact =
      pos_part (effective_limits limits).max_document_bytes * 8
      + pos_part (effective_limits limits).max_message_bytes in
    Budget.record_limit limits ≡ pos (if ltb max_int exact then max_int else exact)
unfolding effective_limits or_default
record_limit-exact_example = record_limit-exact limits (omega arith)

-- `{"a":1}` with its frame, cut after four bytes.
read_line-content_example :
    (read_line
        (pos 5)
        (map full ((123 ∷ 34 ∷ 97 ∷ 34 ∷ []) ∷ []) ++ line (58 ∷ 49 ∷ 125 ∷ 13 ∷ 10 ∷ []) ∷ [])
      ≡ (
        record_read (
            kept_of
              (line_limit (pos 5))
              (line_limit (pos 5))
              (joined ((123 ∷ 34 ∷ 97 ∷ 34 ∷ []) ∷ []) ++ unframed (58 ∷ 49 ∷ 125 ∷ 13 ∷ 10 ∷ []))),
        [],
      ))
    × (read_line
          (pos 5)
          (map full ((123 ∷ 34 ∷ 97 ∷ 34 ∷ []) ∷ []) ++ last (58 ∷ 49 ∷ 125 ∷ 13 ∷ 10 ∷ []) ∷ [])
        ≡ (
          (if length (joined ((123 ∷ 34 ∷ 97 ∷ 34 ∷ []) ∷ []) ++ 58 ∷ 49 ∷ 125 ∷ 13 ∷ 10 ∷ []) == 0
              then at_end
              else record_read (
                  kept_of
                    (line_limit (pos 5))
                    (line_limit (pos 5))
                    (joined ((123 ∷ 34 ∷ 97 ∷ 34 ∷ []) ∷ []) ++ 58 ∷ 49 ∷ 125 ∷ 13 ∷ 10 ∷ []))),
          [],
        ))
read_line-content_example =
    read_line-content (pos 5) ((123 ∷ 34 ∷ 97 ∷ 34 ∷ []) ∷ []) (58 ∷ 49 ∷ 125 ∷ 13 ∷ 10 ∷ []) []

read_line-split_example :
    (read_line (pos 2) (line ((123 ∷ 125 ∷ []) ++ 13 ∷ 10 ∷ []) ∷ [])
      ≡ (record_read (123 ∷ 125 ∷ [], false), []))
    × (read_line (pos 2) (full ((123 ∷ 125 ∷ []) ++ 13 ∷ []) ∷ line (10 ∷ []) ∷ [])
        ≡ (record_read (123 ∷ 125 ∷ [], true), []))
read_line-split_example = read_line-split (pos 2) (123 ∷ 125 ∷ []) [] refl

abbrev twice : Value
twice = object (member "a" atom (member "a" atom none_left))

scan_fuel_enough_example :
    Ends
      (length (write_value twice []))
      (parse_value (scan_fuel (write_value twice [])) (write_value twice []))
scan_fuel_enough_example = scan_fuel_enough (write_value twice [])

reject_duplicate_keys-exact_example :
    (reject_duplicate_keys (write_value twice [])
      ≡ (if distinct twice then none else some (new_error "wire.duplicate_key")))
    × (reject_duplicate_keys (write_value twice (scalar ∷ []))
        ≡ some (new_error (if distinct twice then "wire.malformed" else "wire.duplicate_key")))
reject_duplicate_keys-exact_example = reject_duplicate_keys-exact twice scalar []

-- The decoders know one record.
abbrev decoders : Decoders
decoders = record {
  trim_space = λ raw. raw;
  tokens = λ raw.
      open_object
      ∷ text "op"
      ∷ text "create"
      ∷ text "v"
      ∷ scalar
      ∷ text "seq"
      ∷ scalar
      ∷ close_object
      ∷ [];
  unmarshal_object = λ raw. Probe.members (("op", "\"upsert\"") ∷ ("v", "1") ∷ ("seq", "1") ∷ []);
  decode_envelope = λ raw. unknown_field;
  decode_hello = λ raw. unknown_field;
  decode_hello_ack = λ raw. unknown_field;
  decode_operation = λ raw. decoded (add "a" NodeType.box);
  decode_event = λ raw. unknown_field;
  decode_members = λ raw. unknown_field;
  decode_second = λ raw. none;
}

abbrev received : Envelope
received = record { v = pos 1; session = ""; kind = operation; seq = 1; payload = "{…}" }

decode_record-Sound_example :
    (reject_duplicate_keys (decoders.tokens (decoders.trim_space "{…}")) ≡ none)
    × Sound decoders received
unfolding decode_record decode_legacy_operation validate_envelope_payload object_probe strict_decode
    strict_unmarshal reject_duplicate_keys parse_value same lookup mem keys
decode_record-Sound_example = decode_record-Sound decoders "{…}" received refl
