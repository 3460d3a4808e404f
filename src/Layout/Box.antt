-- ===== src/Layout/Box.antt =====
-- layout/layout.go: the metrics of a box, and the height of a viewport.
use a2ui_persistent_daemon.Base.{
  ℕ, ◌+◌, ◌-◌, ◌*◌, ◌≤◌, ◌≡◌, ◌⊎◌, not, ◌&&◌, String, ℤ, pos_part, below_one, ltb, same, arith,
  if◌then◌else◌,
}

-- `Box` without its direction and gap, which nothing here reads.
pub record Box : Type 0 where
  pub padding : ℤ
  pub border : String

pub record Metrics : Type 0 where
  pub outer_width : ℕ
  pub outer_height : ℕ
  pub content_width : ℕ
  pub content_height : ℕ
  pub border_inset : ℕ
  pub padding_inset : ℕ

abbrev pub one_at_least : ℤ → ℕ
one_at_least n = if below_one n then 1 else pos_part n

abbrev pub border_of : Box → ℕ
border_of b = if not (same b.border "none") && not (same b.border "") then 1 else 0

-- What is left of a side between the insets, one cell at least.
abbrev pub inner : ℕ → Box → ℕ
inner outer b =
    let left = outer - 2 * border_of b - 2 * pos_part b.padding in if ltb left 1 then 1 else left

unfoldable pub compute_box : ℤ → ℤ → Box → Metrics
compute_box width height b = record {
  outer_width = one_at_least width;
  outer_height = one_at_least height;
  content_width = inner (one_at_least width) b;
  content_height = inner (one_at_least height) b;
  border_inset = border_of b;
  padding_inset = pos_part b.padding;
}

unfoldable pub clamp_viewport_height : ℤ → ℤ → ℕ
clamp_viewport_height requested available =
    if ltb (one_at_least available) (one_at_least requested)
    then one_at_least available
    else one_at_least requested

-- The content is one cell at least, in either direction; beyond that it and its insets fill the box.
compute_box-lem :
    (width height : ℤ) (b : Box)
    → let m = compute_box width height b in
      let inset = 2 * (m.border_inset + m.padding_inset) in
      ((m.content_width ≡ 1) ⊎ (m.content_width + inset ≡ m.outer_width))
      × ((m.content_height ≡ 1) ⊎ (m.content_height + inset ≡ m.outer_height))
      × (1 ≤ m.content_width)
      × (1 ≤ m.content_height)
unfolding compute_box
compute_box-lem width height b = ground arith
