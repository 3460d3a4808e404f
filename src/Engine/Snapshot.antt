-- ===== src/Engine/Snapshot.antt =====
-- engine/engine.go: what the engine shows to a renderer. Values are immutable, so a clone is the value itself.
use a2ui_persistent_daemon.Base.{ℕ, Bool, String}
use a2ui_persistent_daemon.Maps.{Map}
use a2ui_persistent_daemon.Document.Types.{Document}
use a2ui_persistent_daemon.Runtime.State.{Binding, TableSelection}
use a2ui_persistent_daemon.Engine.Core.{Engine, needs_publish_locked}

pub record PresentationSnapshot : Type 0 where
  pub document : Document
  pub focused_id : String
  pub input_values : Map String
  pub table_selections : Map TableSelection
  pub bindings : Map Binding
  pub render_generation : ℕ
  pub publication_generation : ℕ
  pub publication_pending : Bool

abbrev pub presentation_snapshot : Engine → PresentationSnapshot
presentation_snapshot e = record {
  document = e.doc;
  focused_id = e.state.focused_id;
  input_values = e.state.input_values;
  table_selections = e.state.table_selections;
  bindings = e.state.bindings;
  render_generation = e.state.render_generation;
  publication_generation = e.publication_generation;
  publication_pending = needs_publish_locked e;
}

-- `PublicationGeneration`
abbrev pub publication_generation : Engine → ℕ × Bool
publication_generation e = (e.publication_generation, needs_publish_locked e)
