-- ===== src/Terminal/Table/Widths.antt =====
-- adapter/bubbletea/table_layout.go: the widths of columns.
use a2ui_persistent_daemon.Base.{
  ℕ, zero, suc, ◌+◌, ◌-◌, ◌*◌, Bool, true, ◌&&◌, ◌||◌, Option, none, some, List, [], ◌∷◌, map,
  String, ℤ, pos, pos_part, int_of, leb_ℤ, quot_ℤ, ltb, ◌==◌, same, if◌then◌else◌,
}
use a2ui_persistent_daemon.Terminal.Utf8.{Bytes}
use a2ui_persistent_daemon.Terminal.Sanitize.Machine.{sanitize_single_line_text}

pub record TableColumn : Type 0 where
  pub title : Bytes
  pub width : ℤ

abbrev pub at_least : ℕ → ℕ → ℕ
at_least floor n = if ltb n floor then floor else n

abbrev pub at_most : ℕ → ℕ → ℕ
at_most cap n = if ltb cap n then cap else n

-- `tableMinColumnWidth`
abbrev pub min_column_width : ℕ
min_column_width = 3

unfoldable pub preferred_width : TableColumn → ℕ
preferred_width col = at_least min_column_width (pos_part col.width)

abbrev pub preferred_widths : List TableColumn → List ℕ
preferred_widths cols = map preferred_width cols

-- The product and the sum wrap around.
unfoldable pub ceil_mul_div : ℕ → ℕ → ℕ → ℤ
ceil_mul_div value numerator denominator =
    if value == 0 || (numerator == 0 || denominator == 0)
    then pos 0
    else quot_ℤ (int_of (value * numerator + denominator - 1)) denominator

-- The display width of a text is Lip Gloss's.
module _ (display_width : Bytes → ℕ) where
  abbrev pub title_width : TableColumn → ℕ
  title_width col = display_width (sanitize_single_line_text col.title)

  unfoldable pub readable_width : TableColumn → ℕ
  unfolding preferred_width ceil_mul_div
  readable_width col =
      let preferred = preferred_width col in
      let floor = at_least min_column_width (pos_part (ceil_mul_div preferred 3 4)) in
      let observed = at_most preferred (title_width col) in
      at_most preferred (if ltb floor observed then observed else floor)

  abbrev pub readable_widths : List TableColumn → List ℕ
  readable_widths cols = map readable_width cols

unfoldable pub column_separator_width : String → ℕ
column_separator_width variant = if same variant "compact" || same variant "dense" then 1 else 3

abbrev pub total_width : List ℕ → ℕ
total_width [] = 0
total_width (w ∷ ws) = w + total_width ws

-- The loop's sums wrap around: what is left is the last 64 bits of the total.
unfoldable pub sum_widths : List ℕ → ℤ
sum_widths ws = int_of (total_width ws)

-- The floor of the first column of `floors`, and the others.
abbrev pub floor_of : List ℕ → ℕ
floor_of [] = min_column_width
floor_of (f ∷ fs) = at_least min_column_width f

abbrev pub rest_of : List ℕ → List ℕ
rest_of [] = []
rest_of (f ∷ fs) = fs

abbrev pub is_wider : ℕ → Option (ℕ × ℕ) → Bool
is_wider w none = true
is_wider w (some (i, v)) = ltb v w

-- The first of the widest columns above their floors, with its width.
unfoldable pub widest_from : ℕ → List ℕ → List ℕ → Option (ℕ × ℕ) → Option (ℕ × ℕ)
widest_from i [] floors best = best
widest_from i (w ∷ ws) floors best =
    widest_from (suc i) ws (rest_of floors)
      (if ltb (floor_of floors) w && is_wider w best then some (i, w) else best)

unfoldable pub narrow_at : ℕ → List ℕ → List ℕ
narrow_at i [] = []
narrow_at zero (w ∷ ws) = (w - 1) ∷ ws
narrow_at (suc i) (w ∷ ws) = w ∷ narrow_at i ws

-- The loop on fuel: each turn takes one from the total.
unfoldable pub shrink_loop : ℕ → List ℕ → ℤ → List ℕ → List ℕ
unfolding sum_widths widest_from narrow_at
shrink_loop zero floors budget out = out
shrink_loop (suc fuel) floors budget out =
    let narrowed : List ℕ = elim (widest_from 0 out floors none) [
      | none ↦ out
      | some (i, w) ↦ shrink_loop fuel floors budget (narrow_at i out)
    ] in
    if leb_ℤ (sum_widths out) budget then out else narrowed

unfoldable pub shrink_to_floors : List ℕ → List ℕ → ℤ → List ℕ
unfolding shrink_loop
shrink_to_floors widths floors budget = shrink_loop (total_width widths) floors budget widths
