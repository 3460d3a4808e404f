-- ===== src/Runtime/State.antt =====
-- runtime/state.go and runtime/publication.go: the interaction state, its local changes, and the record of
-- what a renderer has published.
use a2ui_persistent_daemon.Base.{
  ℕ, Bool, true, false, ◌||◌, ◌&&◌, Option, none, some, [], String, len, ℤ, same, ◌==◌, ltb,
  u64_suc, if◌then◌else◌,
}
use a2ui_persistent_daemon.Maps.{Map, lookup, insert}
use a2ui_persistent_daemon.Protocol.Types.{Error, new_error, input, table, viewport, eqb_type}
use a2ui_persistent_daemon.Protocol.Json.{Json}
use a2ui_persistent_daemon.Protocol.Props.Schema.{entry}
use a2ui_persistent_daemon.Document.Types.{Node, Document}

pub record Binding : Type 0 where
  pub node_id : String
  pub key : String
  pub label : String
  pub action : String
  pub args : String

pub record TableSelection : Type 0 where
  pub index : ℤ
  pub row_id : String

pub record State : Type 0 where
  pub focused_id : String
  pub input_values : Map String
  pub table_selections : Map TableSelection
  pub bindings : Map Binding
  pub dirty_revision : ℕ
  pub published_revision : ℕ
  pub render_generation : ℕ
  pub publication_generation : ℕ
  pub published_generation : ℕ

-- `NewState`
abbrev pub new_state : State
new_state = record {
  focused_id = "";
  input_values = [];
  table_selections = [];
  bindings = [];
  dirty_revision = 0;
  published_revision = 0;
  render_generation = 0;
  publication_generation = 0;
  published_generation = 0;
}

module _ (j : Json) where
  unfoldable pub prop_string : Node → String → String
  prop_string n key = if len (entry n.props key) == 0 then "" else (j.string (entry n.props key)).0

  unfoldable pub prop_bool : Node → String → Bool
  prop_bool n key =
      if len (entry n.props key) == 0 then false else (j.boolean (entry n.props key)).0

  unfoldable pub focusable : Node → Bool
  unfolding prop_bool
  focusable n =
      eqb_type n.type input
      || (eqb_type n.type table && prop_bool n "selectable")
      || (eqb_type n.type viewport && prop_bool n "scrollable")

  abbrev focus_node : State → String → Option Node → State × Option Error
  focus_node s id none = (s, some (new_error "runtime.node_not_found"))
  focus_node s id (some n) =
      if focusable n
      then if same s.focused_id id
        then (s, none)
        else (record s { focused_id = id; render_generation = u64_suc s.render_generation }, none)
      else (s, some (new_error "runtime.not_focusable"))

  unfoldable pub set_local_focus : State → Document → String → State × Option Error
  unfolding focusable
  set_local_focus s d id = focus_node s id (lookup id d.nodes)

-- The read of a missing key is the empty text.
unfoldable pub set_input_value : State → String → String → State × Bool
set_input_value s id value = if same (entry s.input_values id) value then (s, false) else (
  record s {
    input_values = insert id value s.input_values;
    render_generation = u64_suc s.render_generation;
  },
  true,
)

unfoldable pub needs_publish : State → Bool
needs_publish s = ltb s.published_generation s.publication_generation

unfoldable pub publish : State → State
publish s = record s {
  published_generation =
      if ltb s.published_generation s.publication_generation
      then s.publication_generation
      else s.published_generation;
  published_revision =
      if ltb s.published_revision s.dirty_revision then s.dirty_revision else s.published_revision;
}
