-- ===== src/Tests/Sample.antt =====
-- A decoder of JSON that knows a few texts, limits, and a few operations.
use a2ui_persistent_daemon.Base.{true, none, some, [], ◌∷◌, String, pos, same, if◌then◌else◌}
use a2ui_persistent_daemon.Protocol.Types.{Operation, OpType, NodeType, other}
use a2ui_persistent_daemon.Protocol.Limits.{Limits, default_limits}
use a2ui_persistent_daemon.Protocol.Json.{Json}

abbrev pub sample : Json
sample = record {
  object =
      λ raw. if same raw "{\"gap\":1}" then (some (("gap", "1") ∷ []), true) else (some [], true);
  objects = λ raw. ([], true);
  raws = λ raw. ([], true);
  string = λ raw. (raw, true);
  strings = λ raw. ("x" ∷ "y" ∷ [], true);
  matrix = λ raw. (("1" ∷ []) ∷ ("2" ∷ []) ∷ [], true);
  integer = λ raw. (pos 1, true);
  boolean = λ raw. (same raw "true", true);
  action_items = λ raw. ([], true);
  unit_float = λ raw. true;
  trim_space = λ raw. raw;
}

abbrev pub limits : Limits
limits = record default_limits { max_depth = pos 3 }

abbrev pub operation : OpType → String → Operation
operation op id = record {
  v = pos 1;
  seq = pos 1;
  op = op;
  id = id;
  type = other "";
  parent = "";
  index = none;
  text = "";
  frame = "";
  props = "";
}

abbrev pub add : String → NodeType → Operation
add id type = record (operation OpType.upsert id) { type = type; parent = "root" }
