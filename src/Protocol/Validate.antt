-- ===== src/Protocol/Validate.antt =====
-- protocol/validate.go: `ValidateOperation`.
use a2ui_persistent_daemon.Base.{
  Bool, true, false, Option, none, some, String, len, pos, eqb_ℤ, is_negative, exceeds, same, ◌==◌,
  if◌then◌else◌,
}
use a2ui_persistent_daemon.Maps.{Map}
use a2ui_persistent_daemon.Protocol.Types.{
  Operation, OpType, Error, new_error, Result, ok, err, ◌<|>◌, is_valid, upsert, props, text,
  remove, focus, commit, unknown,
}
use a2ui_persistent_daemon.Protocol.Limits.{Limits}
use a2ui_persistent_daemon.Protocol.Json.{Json}
use a2ui_persistent_daemon.Protocol.Props.Normalize.{normalize_props}

-- `if bad { return NewError(code, …) }`
abbrev pub refuse_if : Bool → String → Option Error
refuse_if true code = some (new_error code)
refuse_if false code = none

abbrev pub error_of {ℓ} : {A : Type ℓ} → Result A → Option Error
error_of (ok a) = none
error_of (err e) = some e

-- `json.Unmarshal(raw, &x) != nil || x == nil` for a map `x`
abbrev pub not_object : Option (Map String) × Bool → Bool
not_object (some m, true) = false
not_object _ = true

module _ (j : Json) where
  -- The `switch` on the operation.
  unfoldable pub validate_fields : OpType → Operation → Limits → Option Error
  validate_fields upsert op limits =
      refuse_if (same op.id "") "schema.missing_field"
      <|> refuse_if (if is_valid op.type then false else true) "schema.unknown_type"
      <|> refuse_if (exceeds (len op.props) limits.max_message_bytes) "resource.message_too_large"
      <|> error_of (normalize_props j op.type op.props true)
  validate_fields props op limits =
      refuse_if (exceeds (len op.props) limits.max_message_bytes) "resource.message_too_large"
      <|> refuse_if (same op.id "") "schema.missing_field"
      <|> refuse_if (len op.props == 0) "schema.missing_field"
      <|> refuse_if (not_object (j.object op.props)) "schema.invalid_props"
  validate_fields text op limits =
      refuse_if (same op.id "") "schema.missing_field"
      <|> refuse_if (exceeds (len op.text) limits.max_text_bytes_per_node) "resource.text_too_large"
  validate_fields remove op limits = refuse_if (same op.id "") "schema.missing_field"
  validate_fields focus op limits = refuse_if (same op.id "") "schema.missing_field"
  validate_fields commit op limits = none
  validate_fields (unknown s) op limits = some (new_error "protocol.unknown_op")

  unfoldable pub validate_operation : Operation → Limits → Option Error
  unfolding validate_fields
  validate_operation op limits =
      refuse_if (if eqb_ℤ op.v (pos 1) then false else true) "protocol.version_mismatch"
      <|> refuse_if (is_negative op.seq) "protocol.invalid_sequence"
      <|> validate_fields op.op op limits
