-- ===== src/Terminal/Table/Plan.antt =====
-- adapter/bubbletea/table_layout.go: `planTableLayout` and adapter/bubbletea/table_metrics.go.
use a2ui_persistent_daemon.Base.{
  ℕ, zero, suc, ◌+◌, ◌-◌, ◌*◌, ◌/◌, Bool, false, not, ◌||◌, List, [], ◌∷◌, String, ℤ, below_one,
  pos, pos_part, sub_ℕ, int_of, leb_ℤ, quot_ℤ, ltb, leb, ◌==◌, same, length, if◌then◌else◌,
}
use a2ui_persistent_daemon.Terminal.Utf8.{Bytes}
use a2ui_persistent_daemon.Terminal.Table.Widths.{
  TableColumn, at_least, at_most, min_column_width, preferred_widths, readable_widths, title_width,
  column_separator_width, total_width, shrink_to_floors, rest_of,
}
use a2ui_persistent_daemon.Terminal.Table.Window.{visible_row_window}

pub data TableMode : Type 0 where
  full compressed master_detail records : TableMode

pub record LayoutInput : Type 0 where
  pub available_width : ℤ
  pub available_height : ℤ
  pub columns : List TableColumn
  pub row_count : ℕ
  pub selectable : Bool
  pub selected_row : ℤ
  pub row_offset : ℤ
  pub variant : String

pub record LayoutPlan : Type 0 where
  pub mode : TableMode
  pub column_widths : List ℕ
  pub readable_widths : List ℕ
  pub visible_cols : List ℕ
  pub left_pane_width : ℕ
  pub right_pane_width : ℕ
  pub row_start : ℕ
  pub row_end : ℕ

unfoldable pub visible_row_capacity : LayoutInput → TableMode → ℕ
visible_row_capacity i mode =
    let height = at_least 1 (pos_part i.available_height) in
    if i.row_count == 0
    then 0
    else at_most i.row_count (
        at_least 1 (elim mode [
          | records ↦ height / at_least 1 (length i.columns + 1)
          | _ ↦ height - (if same i.variant "dense" then 1 else 2)
        ]))

unfoldable pub finish_plan : LayoutInput → LayoutPlan → LayoutPlan
unfolding visible_row_window visible_row_capacity
finish_plan i plan =
    let (start, stop) =
      visible_row_window i.row_count i.selected_row i.row_offset
        (visible_row_capacity i plan.mode) in
    record plan { row_start = start; row_end = stop }

unfoldable pub column_indexes : ℕ → ℕ → List ℕ
column_indexes start zero = []
column_indexes start (suc n) = start ∷ column_indexes (suc start) n

-- `allColumnIndexes`
abbrev pub all_column_indexes : ℕ → List ℕ
all_column_indexes count = column_indexes 0 count

abbrev pub prefix_width : LayoutInput → ℕ
prefix_width i = if i.selectable then 2 else 0

unfoldable pub separator_total : LayoutInput → ℕ
separator_total i = column_separator_width i.variant * (length i.columns - 1)

-- `masterMin`
abbrev pub master_min : List ℕ → ℕ
master_min [] = 2 + min_column_width
master_min (r ∷ rs) = 2 + r

abbrev value_floor : List ℕ → ℕ
value_floor [] = min_column_width
value_floor (r ∷ rs) = r

-- The loop of `masterColumnPrefix`, up to its `break`.
unfoldable pub columns_that_fit : ℕ → ℕ → ℕ → ℕ → List ℕ → List ℕ
columns_that_fit available separator i used [] = []
columns_that_fit available separator i used (w ∷ ws) =
    let extra = at_least min_column_width w + (if i == 0 then 0 else separator) in
    let more = i ∷ columns_that_fit available separator (suc i) (used + extra) ws in
    if ltb available (used + extra) then [] else more

abbrev first_at_least : List ℕ → List ℕ
first_at_least [] = 0 ∷ []
first_at_least (c ∷ cs) = c ∷ cs

unfoldable pub master_column_prefix : List ℕ → ℕ → ℕ → ℕ → List ℕ
unfolding columns_that_fit
master_column_prefix [] pane prefix separator = []
master_column_prefix (w ∷ ws) pane prefix separator =
    if ltb (pane - prefix) min_column_width
    then []
    else first_at_least (columns_that_fit (pane - prefix) separator 0 0 (w ∷ ws))

module _ (display_width : Bytes → ℕ) where
  -- The loop for `detailMin`.
  unfoldable pub detail_min_from : ℕ → List TableColumn → List ℕ → ℕ
  detail_min_from least [] readable = least
  detail_min_from least (col ∷ cols) readable =
      detail_min_from (at_least (title_width display_width col + 2 + value_floor readable) least)
        cols (rest_of readable)

  abbrev pub detail_min : List TableColumn → List ℕ → ℕ
  detail_min cols readable = detail_min_from min_column_width cols readable

  unfoldable pub master_detail_eligible : LayoutInput → ℕ → List ℕ → Bool
  master_detail_eligible i available readable =
      if not i.selectable
        || (i.row_count == 0 || (ltb (length i.columns) 4 || length readable == 0))
      then false
      else leb (master_min readable + 3 + detail_min i.columns readable) available

  -- Called where `master_detail_eligible` holds, so nothing below is negative. A readable width is 2 ^ 61 at most, or
  -- that of a title, so that the sums for the panes do not wrap around.
  unfoldable pub pane_widths : LayoutInput → ℕ → List ℕ → ℕ × ℕ
  pane_widths i available readable =
      let left =
        at_most (available - 3 - detail_min i.columns readable)
          (at_least (master_min readable) (pos_part (quot_ℤ (int_of (available * 2)) 5))) in
      (left, available - 3 - left)

  abbrev pub base_plan : LayoutInput → LayoutPlan
  base_plan i = record {
    mode = full;
    column_widths = preferred_widths i.columns;
    readable_widths = readable_widths display_width i.columns;
    visible_cols = all_column_indexes (length i.columns);
    left_pane_width = 0;
    right_pane_width = 0;
    row_start = 0;
    row_end = 0;
  }

  abbrev pub detail_plan : LayoutInput → ℕ → LayoutPlan
  detail_plan i available =
      let readable = readable_widths display_width i.columns in
      let (left, right) = pane_widths i available readable in
      record (base_plan i) {
        mode = master_detail;
        left_pane_width = left;
        right_pane_width = right;
        visible_cols =
            master_column_prefix readable left (prefix_width i) (column_separator_width i.variant);
      }

  abbrev pub compressed_plan : LayoutInput → ℕ → LayoutPlan
  compressed_plan i available = record (base_plan i) {
    mode = compressed;
    column_widths =
        shrink_to_floors (preferred_widths i.columns) (readable_widths display_width i.columns)
          (sub_ℕ available (prefix_width i + separator_total i));
  }

  abbrev pub records_plan : LayoutInput → LayoutPlan
  records_plan i = record (base_plan i) { mode = records }

  -- With a positive width; the sums wrap around.
  unfoldable pub plan_in : LayoutInput → ℕ → LayoutPlan
  unfolding shrink_to_floors master_detail_eligible pane_widths master_column_prefix separator_total
  plan_in i available =
      let chrome = prefix_width i + separator_total i in
      let widths = preferred_widths i.columns in
      let readable = readable_widths display_width i.columns in
      if leb_ℤ (int_of (chrome + total_width widths)) (pos available)
      then base_plan i
      else if leb_ℤ (int_of (chrome + total_width readable)) (pos available)
      then compressed_plan i available
      else if master_detail_eligible i available readable
      then detail_plan i available
      else records_plan i

  unfoldable pub plan_table_layout : LayoutInput → LayoutPlan
  unfolding plan_in finish_plan
  plan_table_layout i = finish_plan i (
      if length i.columns == 0 || below_one i.available_width
      then base_plan i
      else plan_in i (pos_part i.available_width))
