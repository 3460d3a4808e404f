-- ===== src/Document/Types.antt =====
-- document/document.go: nodes, documents and effects. A value is never changed in place here, so the
-- copies that `Clone` makes are the values themselves.
use a2ui_persistent_daemon.Base.{ℕ, Bool, false, Option, none, some, List, [], String, ℤ}
use a2ui_persistent_daemon.Maps.{Map, lookup}
use a2ui_persistent_daemon.Protocol.Types.{NodeType, MutationPolicy, other, Operation}
use a2ui_persistent_daemon.Protocol.Props.Normalize.{no_policy}

pub record Node : Type 0 where
  pub id : String
  pub type : NodeType
  pub parent : String
  pub children : List String
  pub props : Map String
  -- `none` is the nil map
  pub explicit_props : Option (Map Bool)
  pub text : String

pub record Document : Type 0 where
  pub revision : ℕ
  pub nodes : Map Node
  pub total_text_bytes : ℤ

pub record Effect : Type 0 where
  pub changed : Bool
  pub commit : Bool
  pub frame : String
  pub through_seq : ℤ
  pub removed : List String
  pub type_changed : Bool
  pub policy : MutationPolicy

-- The zero value of `Node`, which a read of a missing key gives.
abbrev pub zero_node : Node
zero_node = record {
  id = "";
  type = other "";
  parent = "";
  children = [];
  props = [];
  explicit_props = none;
  text = "";
}

-- `d.Nodes[id]` without the second result.
abbrev pub node_at : Map Node → String → Node
node_at m id = elim (lookup id m) [ none ↦ zero_node | some n ↦ n ]

-- `Effect{Frame: op.Frame, ThroughSeq: op.Seq}`
abbrev pub effect_of : Operation → Effect
effect_of op = record {
  changed = false;
  commit = false;
  frame = op.frame;
  through_seq = op.seq;
  removed = [];
  type_changed = false;
  policy = no_policy;
}
