-- ===== src/Terminal/Table/Modes.antt =====
-- adapter/bubbletea/table_layout.go: what each presentation mode promises of the widths.
use a2ui_persistent_daemon.Base.{
  ℕ, ◌+◌, ◌-◌, ◌≤◌, ◌<◌, ◌≡◌, refl, sym, ap, subst, inl, inr, Bool, true, false, ◌||◌, List, [],
  ◌∷◌, length, pos, pos_part, sub_ℕ, max_int, int_of, int_of_small, leb_ℤ, below_one, ◌==◌, arith,
  if◌then◌else◌,
}
use a2ui_persistent_daemon.Terminal.Utf8.{Bytes}
use a2ui_persistent_daemon.Terminal.Table.Widths.{
  TableColumn, preferred_width, preferred_widths, readable_width, readable_widths, total_width,
  shrink_to_floors,
}
use a2ui_persistent_daemon.Terminal.Table.Shrink.{AtFloors, Shrunk, shrink_to_floors-Fits}
use a2ui_persistent_daemon.Terminal.Table.Plan.{
  full, compressed, master_detail, records, LayoutInput, LayoutPlan, prefix_width, separator_total,
  master_min, detail_min, master_detail_eligible, pane_widths, base_plan, compressed_plan,
  records_plan, detail_plan, plan_in, plan_table_layout, finish_plan,
}

module _ (display_width : Bytes → ℕ) where
  readable_width-bounds :
      (col : TableColumn)
      → (3 ≤ readable_width display_width col)
        × (readable_width display_width col ≤ preferred_width col)
  unfolding readable_width preferred_width
  readable_width-bounds col = ground arith

  -- Columns at their floors are no wider together than the readable widths.
  sum-AtFloors :
      (ws : List ℕ) (cols : List TableColumn)
      → Shrunk ws (preferred_widths cols) (readable_widths display_width cols)
      → AtFloors ws (readable_widths display_width cols)
      → total_width ws ≤ total_width (readable_widths display_width cols)
  sum-AtFloors [] [] s low = omega arith
  sum-AtFloors [] (c ∷ cols) s low = absurd s
  sum-AtFloors (w ∷ ws) [] s low = absurd s
  sum-AtFloors (w ∷ ws) (c ∷ cols) (a, b, s) (l, low) =
      let rest = sum-AtFloors ws cols s low in let bounds = readable_width-bounds c in ground arith

  total-readable-le :
      (cols : List TableColumn)
      → total_width (readable_widths display_width cols) ≤ total_width (preferred_widths cols)
  total-readable-le [] = omega arith
  total-readable-le (c ∷ cols) = omega (arith, readable_width-bounds c, total-readable-le cols)

  -- What the widths of a plan promise, in the mode it chose.
  abbrev pub Suits : LayoutInput → ℕ → LayoutPlan → Type 0
  Suits i available p =
      let chrome = prefix_width i + separator_total i in
      let readable = readable_widths display_width i.columns in
      elim p.mode [
        | full ↦
            (p.column_widths ≡ preferred_widths i.columns)
            × (chrome + total_width p.column_widths ≤ available)
        | compressed ↦
            Shrunk p.column_widths (preferred_widths i.columns) readable
            × (chrome + total_width p.column_widths ≡ available)
        | master_detail ↦
            (p.left_pane_width + 3 + p.right_pane_width ≡ available)
            × (master_min readable ≤ p.left_pane_width)
            × (detail_min display_width i.columns readable ≤ p.right_pane_width)
        | records ↦ available < chrome + total_width readable
      ]

  compressed-exact :
      (cols : List TableColumn) (chrome budget available : ℕ)
      → available < chrome + total_width (preferred_widths cols)
      → chrome + total_width (readable_widths display_width cols) ≤ available
      → budget ≡ available - chrome
      → total_width (preferred_widths cols) ≤ max_int
      → chrome
          + total_width (
              shrink_to_floors
                (preferred_widths cols)
                (readable_widths display_width cols)
                (pos budget))
        ≡ available
  compressed-exact cols chrome budget available over fits e h =
      let (shrunk, result) =
        shrink_to_floors-Fits (preferred_widths cols) (readable_widths display_width cols) budget
          h in
      elim result [
        | inl (low, same) ↦ omega arith
        | inr (inl exact) ↦ omega arith
        | inr (inr (high, low)) ↦ omega (arith, sum-AtFloors _ cols shrunk low)
      ]

  panes-bounds :
      (i : LayoutInput) (available : ℕ) (readable : List ℕ)
      → master_detail_eligible display_width i available readable ≡ true
      → let (left, right) = pane_widths display_width i available readable in
        (left + 3 + right ≡ available)
        × (master_min readable ≤ left)
        × (detail_min display_width i.columns readable ≤ right)
  unfolding pane_widths master_detail_eligible
  panes-bounds i available readable h = ground arith

  if-Suits :
      (i : LayoutInput) (available : ℕ) (test : Bool) (p q : LayoutPlan)
      → (test ≡ true → Suits i available p)
      → (test ≡ false → Suits i available q)
      → Suits i available (if test then p else q)
  if-Suits i available true p q yes_case no_case = yes_case refl
  if-Suits i available false p q yes_case no_case = no_case refl

  plan_in-Suits :
      (i : LayoutInput) (available : ℕ)
      → prefix_width i + separator_total i + total_width (preferred_widths i.columns) ≤ max_int
      → Suits i available (plan_in display_width i available)
  unfolding plan_in
  plan_in-Suits i available small =
      let widths = preferred_widths i.columns in
      let readable = readable_widths display_width i.columns in
      let chrome = prefix_width i + separator_total i in
      let budget = available - chrome in
      let wide_sum : int_of (chrome + total_width widths) ≡ pos (chrome + total_width widths) =
        int_of_small (chrome + total_width widths) small in
      let readable_sum : int_of (chrome + total_width readable)
          ≡ pos (chrome + total_width readable) =
        int_of_small (chrome + total_width readable) (omega (arith, total-readable-le i.columns)) in
      let fits = leb_ℤ (int_of (chrome + total_width readable)) (pos available) in
      let eligible = master_detail_eligible display_width i available readable in
      let compress = compressed_plan display_width i available in
      let split = detail_plan display_width i available in
      let list = records_plan display_width i in
      let narrow = if eligible then split else list in
      if-Suits i available (leb_ℤ (int_of (chrome + total_width widths)) (pos available))
        (base_plan display_width i) (if fits then compress else narrow) (λ h. (refl, ground arith))
        (λ over.
          if-Suits i available fits compress narrow
            (λ h.
              let narrow_enough : chrome + total_width readable ≤ available = ground arith in
              let exact : sub_ℕ available chrome ≡ pos budget = ground arith in
              let room : total_width widths ≤ max_int = omega arith in
              subst
                (λ b.
                  Shrunk (shrink_to_floors widths readable b) widths readable
                  × (chrome + total_width (shrink_to_floors widths readable b) ≡ available))
                (sym exact)
                (
                  (shrink_to_floors-Fits widths readable budget room).0,
                  compressed-exact i.columns chrome budget available (ground arith) narrow_enough
                      refl room,
                ))
            (λ wide.
              if-Suits i available eligible split list (panes-bounds i available readable)
                (λ h. ground arith)))

  -- Of a table with columns, in a positive width, where the sum of the preferred widths, the separators and the
  -- prefix is an `int`: in full mode every column has its preferred width and the table
  -- fits. In compressed mode the table is exactly as wide as the terminal, and no column is wider than
  -- preferred or narrower than readable. In master-detail mode the panes and the rule between them fill
  -- the width exactly and each has its minimum. Records are shown only where the readable widths do not fit.
  pub plan_table_layout-Suits :
      (i : LayoutInput) (available : ℕ)
      → i.available_width ≡ pos available
      → 0 < available
      → 0 < length i.columns
      → prefix_width i + separator_total i + total_width (preferred_widths i.columns) ≤ max_int
      → Suits i available (plan_table_layout display_width i)
  unfolding plan_table_layout finish_plan
  plan_table_layout-Suits i available w h k small =
      if-Suits i available (length i.columns == 0 || below_one i.available_width)
        (base_plan display_width i) (plan_in display_width i (pos_part i.available_width))
        (λ t.
          let wide : below_one i.available_width ≡ false =
            subst (λ z. below_one z ≡ false) (sym w) (ground arith) in
          ground arith)
        (λ t.
          subst (λ n. Suits i available (plan_in display_width i n)) (ap pos_part (sym w))
            (plan_in-Suits i available small))
