-- ===== src/Protocol/Types.antt =====
-- protocol/types.go and protocol/errors.go: node and operation types, operations, events, errors.
-- A Go string type with named constants is a data type with one more constructor for any other text.
-- The texts of error messages and paths are left out: nothing branches on them.
use a2ui_persistent_daemon.Base.{ℕ, Bool, true, false, Option, String, ℤ, pos, same}

abbrev pub version : ℤ
version = pos 1

pub data NodeType : Type 0 where
  box text viewport table input actions progress : NodeType
  other : String → NodeType

pub data OpType : Type 0 where
  upsert props text remove focus commit : OpType
  unknown : String → OpType

-- `NodeType.Valid`
abbrev pub is_valid : NodeType → Bool
is_valid (NodeType.other s) = false
is_valid NodeType.box = true
is_valid _ = true

-- `NodeType.Container`
abbrev pub is_container : NodeType → Bool
is_container NodeType.box = true
is_container NodeType.viewport = true
is_container _ = false

-- `==` on node types
abbrev pub eqb_type : NodeType → NodeType → Bool
eqb_type NodeType.box NodeType.box = true
eqb_type NodeType.text NodeType.text = true
eqb_type NodeType.viewport NodeType.viewport = true
eqb_type NodeType.table NodeType.table = true
eqb_type NodeType.input NodeType.input = true
eqb_type NodeType.actions NodeType.actions = true
eqb_type NodeType.progress NodeType.progress = true
eqb_type (NodeType.other s) (NodeType.other t) = same s t
eqb_type _ _ = false

pub record Operation : Type 0 where
  pub v : ℤ
  pub seq : ℤ
  pub op : OpType
  pub id : String
  pub type : NodeType
  pub parent : String
  pub index : Option ℤ
  pub text : String
  pub frame : String
  pub props : String

pub record MutationPolicy : Type 0 where
  pub force_input_value : Bool

pub record Error : Type 0 where
  pub code : String
  pub recoverable : Bool
  pub seq : ℤ
  pub node_id : String

abbrev pub new_error : String → Error
new_error code = record { code = code; recoverable = true; seq = pos 0; node_id = "" }

-- `e := NewError(...); e.Recoverable = false`
abbrev pub fatal_error : String → Error
fatal_error code = record (new_error code) { recoverable = false }

pub data Result {ℓ} (A : Type ℓ) : Type ℓ where
  ok : A → Result A
  err : Error → Result A

infixl 5 ◌>>=◌
abbrev pub ◌>>=◌ {ℓ κ} : {A : Type ℓ} {B : Type κ} → Result A → (A → Result B) → Result B
ok a >>= f = f a
err e >>= f = err e

-- The first error of two checks made in turn.
infixr 4 ◌<|>◌
abbrev pub ◌<|>◌ : Option Error → Option Error → Option Error
Option.none <|> f = f
Option.some e <|> f = Option.some e

-- An event on its way to the agent; the fields that the modelled code reads or sets.
pub record Event : Type 0 where
  pub v : ℤ
  pub seq : ℕ
  pub ev : String
  pub id : String
  pub code : String
  pub action : String
  pub value : String
  pub row : ℤ
  pub row_id : String
  pub revision : ℕ
  pub related_seq : ℕ
  pub through_seq : ℕ
  pub frame : String

-- The zero value with its `Ev` field set.
abbrev pub event : String → Event
event ev = record {
  v = pos 0;
  seq = 0;
  ev = ev;
  id = "";
  code = "";
  action = "";
  value = "";
  row = pos 0;
  row_id = "";
  revision = 0;
  related_seq = 0;
  through_seq = 0;
  frame = "";
}
