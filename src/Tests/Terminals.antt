-- ===== src/Tests/Terminals.antt =====
-- adapter/bubbletea and layout: texts, tables, keys and rows.
use a2ui_persistent_daemon.Base.{
  Bool, same, ◌⊎◌, false, map, ℕ, ◌+◌, ◌≡◌, ◌↔◌, ◌≤◌, ◌<◌, refl, true, List, [], ◌∷◌, length, none,
  some, pos, negsuc, arith,
}
use a2ui_persistent_daemon.Terminal.Utf8.{Bytes}
use a2ui_persistent_daemon.Terminal.Sanitize.Machine.{
  normal, scan, sanitize_text, sanitize_single_line_text,
}
use a2ui_persistent_daemon.Terminal.Sanitize.Clean.{
  Clean, Spelled, sanitize_text-Clean, sanitize_text_iff,
}
use a2ui_persistent_daemon.Terminal.Sanitize.Line.{is_unfit, sanitize_single_line_text-Spelled}
use a2ui_persistent_daemon.Terminal.Sanitize.Fuel.{scan_enough}
use a2ui_persistent_daemon.Terminal.Table.Widths.{
  TableColumn, preferred_width, column_separator_width, shrink_to_floors, at_most,
}
use a2ui_persistent_daemon.Terminal.Table.Window.{
  visible_row_window, selected_in, visible_row_window-shows,
}
use a2ui_persistent_daemon.Terminal.Table.Shrink.{Shrunk, Fits, shrink_to_floors-Fits}
use a2ui_persistent_daemon.Terminal.Table.Plan.{LayoutInput, separator_total, plan_table_layout}
use a2ui_persistent_daemon.Terminal.Table.Modes.{Suits, plan_table_layout-Suits}
use a2ui_persistent_daemon.Terminal.Keys.Router.{
  Key, caret_in, ViewportMetrics, handle_viewport_key,
}
use a2ui_persistent_daemon.Terminal.Keys.Input.{Field, press}
use a2ui_persistent_daemon.Terminal.Keys.Erase.{erase, typed-erase}
use a2ui_persistent_daemon.Terminal.Keys.Scroll.{Scrolled, handle_viewport_key-Scrolled}
use a2ui_persistent_daemon.Layout.Row.{
  FlexConstraint, min_of, content_of, allocate_row, row_in_range, allocate_in_range, shrink,
  shrink_round, sum_widths, sum_minima, grow, grow_pass, granted, give_left, give_at, best_from,
  settle, sum_grants, total_grow, gap_extent, first_width,
}
use a2ui_persistent_daemon.Layout.Bounds.{total_width, allocate_row-fits}

-- A red `Hi`, then a line feed and an eight-bit control.
abbrev red : Bytes
red = 27 ∷ 91 ∷ 51 ∷ 49 ∷ 109 ∷ 72 ∷ 105 ∷ 10 ∷ 194 ∷ 155 ∷ []

sanitize_text-Clean_example : Clean (sanitize_text red)
sanitize_text-Clean_example = sanitize_text-Clean red

sanitize_text_iff_example : Clean red ↔ (sanitize_text red ≡ red)
sanitize_text_iff_example = sanitize_text_iff red

sanitize_single_line_text-Spelled_example : Spelled is_unfit (sanitize_single_line_text red)
sanitize_single_line_text-Spelled_example = sanitize_single_line_text-Spelled red

scan_enough_example : scan 10 normal 0 red ≡ scan 12 normal 0 red
scan_enough_example = scan_enough 10 12 normal 0 red (omega arith) (omega arith)

visible_row_window-shows_example :
    let (start, stop) = visible_row_window 10 (pos 7) (negsuc 0) 3 in
    (start ≤ selected_in 10 (pos 7))
    × (selected_in 10 (pos 7) < stop)
    × (stop ≤ 10)
    × (stop ≡ start + at_most 10 3)
visible_row_window-shows_example =
    visible_row_window-shows 10 (pos 7) (negsuc 0) 3 (omega arith) (omega arith)

abbrev widths : List ℕ
widths = 12 ∷ 20 ∷ 8 ∷ []

abbrev floors : List ℕ
floors = 9 ∷ 15 ∷ 6 ∷ []

shrink_to_floors-Fits_example :
    Shrunk (shrink_to_floors widths floors (pos 33)) widths floors
    × Fits widths floors 33 (shrink_to_floors widths floors (pos 33))
shrink_to_floors-Fits_example = shrink_to_floors-Fits widths floors 33 (omega arith)

abbrev column : TableColumn
column = record { title = 72 ∷ 105 ∷ []; width = pos 20 }

abbrev input : LayoutInput
input = record {
  available_width = pos 40;
  available_height = pos 10;
  columns = column ∷ column ∷ [];
  row_count = 10;
  selectable = true;
  selected_row = pos 7;
  row_offset = pos 0;
  variant = "normal";
}

plan_table_layout-Suits_example : Suits length input 40 (plan_table_layout length input)
unfolding separator_total column_separator_width same preferred_width
plan_table_layout-Suits_example =
    plan_table_layout-Suits length input 40 refl (omega arith) (omega arith) (omega arith)

-- `ab` with the caret between the two.
abbrev field : Field
field = record { value = 97 ∷ 98 ∷ []; caret = some 1 }

typed-erase_example :
    erase 2 (press field (Key.runes (120 ∷ 121 ∷ [])))
    ≡ record { value = 97 ∷ 98 ∷ []; caret = some (caret_in (some 1) (97 ∷ 98 ∷ [])) }
typed-erase_example = typed-erase field (120 ∷ 121 ∷ [])

abbrev metrics : ViewportMetrics
metrics = record { visible_lines = 5; offset = 6; max_offset = 7 }

handle_viewport_key-Scrolled_example :
    Scrolled metrics true Key.page_down (handle_viewport_key metrics none true Key.page_down)
handle_viewport_key-Scrolled_example = handle_viewport_key-Scrolled metrics none true Key.page_down

-- A label of fixed size and two columns that share the rest.
abbrev row : List FlexConstraint
row =
    record { grow = pos 0; basis = pos 10; min_width = pos 4; max_width = pos 0 }
    ∷ record { grow = pos 1; basis = pos 0; min_width = pos 3; max_width = pos 12 }
    ∷ record { grow = pos 2; basis = pos 0; min_width = pos 3; max_width = pos 0 }
    ∷ []

allocate_row-fits_example :
    let content = content_of (pos 40) (pos 1) row in
    (widths : List ℕ) × (fits : Bool) × (allocate_row (pos 40) (pos 1) row ≡ some (widths, fits))
    × (((fits ≡ true) × (total_width (map min_of row) ≤ content) × (total_width widths ≤ content))
        ⊎ ((fits ≡ false) × (content < total_width (map min_of row)) × (widths ≡ map min_of row)))
unfolding row_in_range gap_extent sum_widths sum_minima first_width
allocate_row-fits_example = allocate_row-fits (pos 40) (pos 1) row refl (omega arith)

allocate_row_row : allocate_row (pos 40) (pos 1) row ≡ some (10 ∷ 10 ∷ 18 ∷ [], true)
unfolding allocate_row row_in_range allocate_in_range shrink shrink_round sum_widths sum_minima grow
    grow_pass granted give_left give_at best_from settle sum_grants total_grow gap_extent
    first_width
allocate_row_row = refl
