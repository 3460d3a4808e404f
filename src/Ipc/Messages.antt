-- ===== src/Ipc/Messages.antt =====
-- ipc/protocol.go: the messages between the daemon and a terminal client, and their validation.
use a2ui_persistent_daemon.Base.{
  ℕ, Bool, true, false, not, ◌&&◌, Option, none, some, String, ℤ, pos, eqb_ℤ, same, ◌==◌,
  if◌then◌else◌,
}
use a2ui_persistent_daemon.Maps.{lookup}
use a2ui_persistent_daemon.Document.Types.{Node}
use a2ui_persistent_daemon.Engine.Snapshot.{PresentationSnapshot}

pub data Kind : Type 0 where
  hello hello_ack interaction frame_published detach detach_ack snapshot error : Kind
  unknown : String → Kind

pub data InteractionType : Type 0 where
  focus input_set input_submit table_move table_activate action_key : InteractionType
  unknown : String → InteractionType

pub record Interaction : Type 0 where
  pub type : InteractionType
  pub id : String
  pub value : String
  pub delta : ℤ
  pub key : String

-- `Error`, without its text.
pub record IpcError : Type 0 where
  pub code : String
  pub recoverable : Bool

abbrev pub new_error : String → IpcError
new_error code = record { code = code; recoverable = true }

-- `Snapshot` has the presentation as its only field.
pub record Message : Type 0 where
  pub v : ℤ
  pub kind : Kind
  pub request_id : String
  pub client : String
  pub client_id : String
  pub interactive : Bool
  pub interaction : Option Interaction
  pub snapshot : Option PresentationSnapshot
  pub publication_generation : ℕ
  pub error : Option IpcError

-- `Message{V: Version, Kind: kind}`
abbrev pub message : Kind → Message
message kind = record {
  v = pos 1;
  kind = kind;
  request_id = "";
  client = "";
  client_id = "";
  interactive = false;
  interaction = none;
  snapshot = none;
  publication_generation = 0;
  error = none;
}

abbrev invalid_interaction : Option IpcError
invalid_interaction = some (new_error "ipc.invalid_interaction")

abbrev invalid_message : Option IpcError
invalid_message = some (new_error "ipc.invalid_message")

abbrev required : Bool → Option IpcError → Option IpcError
required true e = none
required false e = e

abbrev check_type : Interaction → InteractionType → Option IpcError
check_type i action_key = required (not (same i.key "")) invalid_interaction
check_type i (unknown t) = invalid_interaction
check_type i _ = required (not (same i.id "")) invalid_interaction

unfoldable pub validate_interaction : Option Interaction → Option IpcError
validate_interaction none = invalid_interaction
validate_interaction (some i) = check_type i i.type

abbrev has_root : Option Node → Bool
has_root none = false
has_root (some n) = true

abbrev check_snapshot : Option PresentationSnapshot → Option IpcError
check_snapshot none = invalid_message
check_snapshot (some p) =
    if not (has_root (lookup "root" p.document.nodes))
    then invalid_message
    else required (not (p.publication_pending && p.publication_generation == 0)) invalid_message

abbrev check_error : Option IpcError → Option IpcError
check_error none = invalid_message
check_error (some e) = required (not (same e.code "")) invalid_message

abbrev check_kind : Message → Kind → Option IpcError
check_kind m hello = required (not (same m.client "")) invalid_message
check_kind m hello_ack = required (not (same m.client_id "") && m.interactive) invalid_message
check_kind m interaction = validate_interaction m.interaction
check_kind m frame_published = required (not (m.publication_generation == 0)) invalid_message
check_kind m detach = none
check_kind m detach_ack = required (not (same m.request_id "")) invalid_message
check_kind m snapshot = check_snapshot m.snapshot
check_kind m error = check_error m.error
check_kind m (unknown k) = invalid_message

unfoldable pub validate_message : Message → Option IpcError
unfolding validate_interaction
validate_message m =
    if not (eqb_ℤ m.v (pos 1)) then some (new_error "ipc.version_mismatch") else check_kind m m.kind
