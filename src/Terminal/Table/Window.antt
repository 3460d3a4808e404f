-- ===== src/Terminal/Table/Window.antt =====
-- adapter/bubbletea/table_layout.go: the rows that are shown.
use a2ui_persistent_daemon.Base.{
  ℕ, ◌+◌, ◌-◌, ◌≤◌, ◌<◌, ◌≡◌, ◌||◌, ℤ, pos, pos_part, ltb, leb, ◌==◌, arith, if◌then◌else◌,
}
use a2ui_persistent_daemon.Terminal.Table.Widths.{at_most}

-- The selected row, brought into range; there is a row.
abbrev pub selected_in : ℕ → ℤ → ℕ
selected_in row_count selected = at_most (row_count - 1) (pos_part selected)

abbrev pub scrolled : ℕ → ℕ → ℕ → ℕ
scrolled selected offset capacity =
    if ltb selected offset
    then selected
    else if leb (offset + capacity) selected
    then selected - capacity + 1
    else offset

unfoldable pub visible_row_window : ℕ → ℤ → ℤ → ℕ → ℕ × ℕ
visible_row_window row_count selected offset capacity =
    let shown = at_most row_count capacity in
    let max_start = row_count - shown in
    let start =
      at_most max_start
        (scrolled (selected_in row_count selected) (at_most max_start (pos_part offset)) shown) in
    if row_count == 0 || capacity == 0 then (0, 0) else (start, start + shown)

-- Where there are rows and room, the rows shown are as many as fit, all of the table, and the selected row is
-- among them.
pub visible_row_window-shows :
    (row_count : ℕ) (selected offset : ℤ) (capacity : ℕ)
    → 0 < row_count
    → 0 < capacity
    → let (start, stop) = visible_row_window row_count selected offset capacity in
      (start ≤ selected_in row_count selected)
      × (selected_in row_count selected < stop)
      × (stop ≤ row_count)
      × (stop ≡ start + at_most row_count capacity)
unfolding visible_row_window
visible_row_window-shows row_count selected offset capacity h k = ground arith

-- An offset that resulted from a window gives the same window again.
pub visible_row_window-fixed :
    (row_count : ℕ) (selected offset : ℤ) (capacity : ℕ)
    → visible_row_window row_count selected
        (pos (visible_row_window row_count selected offset capacity).0)
        capacity
      ≡ visible_row_window row_count selected offset capacity
unfolding visible_row_window
visible_row_window-fixed row_count selected offset capacity = ground arith
