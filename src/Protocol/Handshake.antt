-- ===== src/Protocol/Handshake.antt =====
-- protocol/types.go and protocol/validate.go: the hello messages and their checks.
use a2ui_persistent_daemon.Base.{
  Bool, false, Option, none, some, List, [], ◌∷◌, String, ℤ, pos, below_one, eqb_ℤ, same,
  if◌then◌else◌, ◌||◌,
}
use a2ui_persistent_daemon.Names.{mem}
use a2ui_persistent_daemon.Protocol.Types.{
  NodeType, box, text, viewport, table, input, actions, progress, is_valid, eqb_type, Error,
  new_error, ◌<|>◌,
}
use a2ui_persistent_daemon.Protocol.Limits.{Limits, validate_limits}

pub record Hello : Type 0 where
  pub versions : List ℤ
  pub features : List String

pub record HelloAck : Type 0 where
  pub version : ℤ
  pub features : List String
  pub components : List NodeType
  pub limits : Limits

abbrev pub all_node_types : List NodeType
all_node_types = box ∷ text ∷ viewport ∷ table ∷ input ∷ actions ∷ progress ∷ []

unfoldable pub mem_int : ℤ → List ℤ → Bool
mem_int x [] = false
mem_int x (y ∷ ys) = eqb_ℤ y x || mem_int x ys

unfoldable pub mem_type : NodeType → List NodeType → Bool
mem_type x [] = false
mem_type x (y ∷ ys) = eqb_type y x || mem_type x ys

-- The loops carry the set of what they have seen.
unfoldable pub check_versions : List ℤ → List ℤ → Option Error
check_versions [] seen = none
check_versions (x ∷ xs) seen =
    if below_one x || mem_int x seen
    then some (new_error "schema.invalid_hello")
    else check_versions xs (x ∷ seen)

unfoldable pub check_features : String → List String → List String → Option Error
check_features code [] seen = none
check_features code (x ∷ xs) seen =
    if same x "" || mem x seen then some (new_error code) else check_features code xs (x ∷ seen)

unfoldable pub check_components : List NodeType → List NodeType → Option Error
check_components [] seen = none
check_components (x ∷ xs) seen =
    if is_valid x
    then if mem_type x seen
      then some (new_error "schema.invalid_hello_ack")
      else check_components xs (x ∷ seen)
    else some (new_error "schema.unknown_type")

unfoldable pub validate_hello : Hello → Option Error
unfolding check_versions check_features
validate_hello h = elim h.versions [
  | [] ↦ some (new_error "schema.missing_field")
  | _ ∷ _ ↦ check_versions h.versions [] <|> check_features "schema.invalid_hello" h.features []
]

unfoldable pub validate_hello_ack : HelloAck → Option Error
unfolding check_features check_components
validate_hello_ack ack =
    if eqb_ℤ ack.version (pos 1)
    then check_features "schema.invalid_hello_ack" ack.features []
      <|> check_components ack.components []
      <|> validate_limits ack.limits
    else some (new_error "protocol.version_mismatch")
