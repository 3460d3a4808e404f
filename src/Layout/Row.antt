-- ===== src/Layout/Row.antt =====
-- layout/layout.go and layout/flex.go: `AllocateRow`. The children go with their widths in one list.
use a2ui_persistent_daemon.Base.{
  ℕ, zero, suc, ◌+◌, ◌-◌, ◌*◌, ◌/◌, ◌%◌, Bool, true, false, not, ◌&&◌, ◌||◌, Option, none, some,
  List, [], ◌∷◌, map, length, ℤ, pos_part, below_one, ltb, leb, ◌==◌, neg_part, max_int,
  if◌then◌else◌,
}

pub record FlexConstraint : Type 0 where
  pub grow : ℤ
  pub basis : ℤ
  pub min_width : ℤ
  pub max_width : ℤ

-- `GapExtent`
unfoldable pub gap_extent : ℤ → ℕ → ℕ
gap_extent gap children =
    if below_one gap || ltb children 2 then 0 else pos_part gap * (children - 1)

abbrev pub min_of : FlexConstraint → ℕ
min_of c = if below_one c.min_width then 1 else pos_part c.min_width

abbrev pub capped : FlexConstraint → ℕ → ℕ
capped c w =
    if not (below_one c.max_width) && ltb (pos_part c.max_width) w then pos_part c.max_width else w

abbrev pub based : FlexConstraint → ℕ
based c = if ltb (pos_part c.basis) (min_of c) then min_of c else pos_part c.basis

unfoldable pub first_width : FlexConstraint → ℕ
first_width c = if ltb (capped c (based c)) 1 then 1 else capped c (based c)

-- A child with its width, what the pass grants it, and the remainder that it has in `fractions`, none for -1.
pub record Cell : Type 0 where
  pub child : FlexConstraint
  pub width : ℕ
  pub grant : ℕ
  pub rem : Option ℕ

abbrev pub cell : FlexConstraint → Cell
cell c = record { child = c; width = first_width c; grant = 0; rem = none }

unfoldable pub sum_widths : List Cell → ℕ
sum_widths [] = 0
sum_widths (c ∷ cs) = c.width + sum_widths cs

unfoldable pub sum_minima : List Cell → ℕ
sum_minima [] = 0
sum_minima (c ∷ cs) = min_of c.child + sum_minima cs

-- One round over the widths, where the sum was this before, while it is above the content.
unfoldable pub shrink_round : ℕ → ℕ → List Cell → List Cell
shrink_round content total [] = []
shrink_round content total (c ∷ cs) =
    let narrowed = record c { width = c.width - 1 } ∷ shrink_round content (total - 1) cs in
    let kept = c ∷ shrink_round content total cs in
    if leb total content then c ∷ cs else if ltb (min_of c.child) c.width then narrowed else kept

abbrev pub is_wide : Cell → Bool
is_wide c = ltb (min_of c.child) c.width

-- Whether a round changes anything, where the sum is above the content.
abbrev pub any_wide : List Cell → Bool
any_wide [] = false
any_wide (c ∷ cs) = is_wide c || any_wide cs

-- The loop on fuel: each round takes one from the sum at least.
unfoldable pub shrink : ℕ → ℕ → List Cell → List Cell
unfolding sum_widths shrink_round
shrink zero content cells = cells
shrink (suc fuel) content cells =
    let rest = shrink fuel content (shrink_round content (sum_widths cells) cells) in
    if leb (sum_widths cells) content || not (any_wide cells) then cells else rest

abbrev pub grow_of : FlexConstraint → ℕ
grow_of c = pos_part c.grow

-- `c.MaxWidth > 0 && w >= c.MaxWidth`
abbrev pub at_cap : FlexConstraint → ℕ → Bool
at_cap c w = not (below_one c.max_width) && leb (pos_part c.max_width) w

abbrev pub active : Cell → Bool
active c = ltb 0 (grow_of c.child) && not (at_cap c.child c.width)

unfoldable pub total_grow : List Cell → ℕ
total_grow [] = 0
total_grow (c ∷ cs) = (if active c then grow_of c.child else 0) + total_grow cs

abbrev pub share : ℕ → ℕ → Cell → ℕ
share spare total c = capped c.child (c.width + spare * grow_of c.child / total) - c.width

-- The proportional shares of a pass.
unfoldable pub granted : ℕ → ℕ → List Cell → List Cell
granted spare total [] = []
granted spare total (c ∷ cs) =
    (if active c
      then record c { grant = share spare total c; rem = some (spare * grow_of c.child % total) }
      else record c { grant = 0; rem = none })
    ∷ granted spare total cs

unfoldable pub sum_grants : List Cell → ℕ
sum_grants [] = 0
sum_grants (c ∷ cs) = c.grant + sum_grants cs

abbrev pub beats : Option ℕ → Option ℕ → Bool
beats none best = false
beats (some r) none = true
beats (some r) (some best) = ltb best r

-- The index of the first of the greatest remainders, of the children that may grow.
unfoldable pub best_from : ℕ → List Cell → Option (ℕ × ℕ) → Option (ℕ × ℕ)
best_from i [] best = best
best_from i (c ∷ cs) best = best_from (suc i) cs (candidate c.rem)
  where
    best_rem : Option (ℕ × ℕ) → Option ℕ
    best_rem none = none
    best_rem (some (j, r)) = some r

    candidate : Option ℕ → Option (ℕ × ℕ)
    candidate none = best
    candidate (some r) =
        if not (at_cap c.child (c.width + c.grant)) && beats (some r) (best_rem best)
        then some (i, r)
        else best

unfoldable pub give_at : ℕ → List Cell → List Cell
give_at i [] = []
give_at zero (c ∷ cs) = record c { grant = c.grant + 1; rem = none } ∷ cs
give_at (suc i) (c ∷ cs) = c ∷ give_at i cs

-- The loop over what is left of the spare width.
unfoldable pub give_left : ℕ → List Cell → List Cell
unfolding best_from give_at
give_left zero cells = cells
give_left (suc left) cells = elim (best_from 0 cells none) [
  | none ↦ cells
  | some (i, r) ↦ give_left left (give_at i cells)
]

unfoldable pub settle : List Cell → List Cell
settle [] = []
settle (c ∷ cs) = record c { width = c.width + c.grant } ∷ settle cs

unfoldable pub grow_pass : ℕ → List Cell → List Cell
unfolding granted sum_grants give_left total_grow
grow_pass spare cells =
    let shares = granted spare (total_grow cells) cells in
    give_left (spare - sum_grants shares) shares

-- The passes on fuel: each but the last grants one at least.
unfoldable pub grow : ℕ → ℕ → List Cell → List Cell
unfolding grow_pass settle
grow zero spare cells = cells
grow (suc fuel) spare cells =
    let cells' = grow_pass spare cells in
    let rest = grow fuel (spare - sum_grants cells') (settle cells') in
    if spare == 0 || total_grow cells == 0 || sum_grants cells' == 0 then cells else rest

abbrev pub widths_of : List Cell → List ℕ
widths_of cells = map (λ c. c.width) cells

abbrev pub content_of : ℤ → ℤ → List FlexConstraint → ℕ
content_of available gap children = pos_part available - gap_extent gap (length children)

-- The body of `AllocateRow`, on numbers that do not wrap around.
unfoldable pub allocate_in_range : ℤ → ℤ → List FlexConstraint → List ℕ × Bool
unfolding shrink grow sum_minima
allocate_in_range available gap children =
    let content = content_of available gap children in
    let cells = map cell children in
    let shrunk = shrink (sum_widths cells) content cells in
    let spare = content - sum_widths shrunk in
    if length children == 0
    then ([], true)
    else if ltb content (sum_minima cells)
    then (map min_of children, false)
    else (widths_of (grow spare spare shrunk), true)

abbrev pub sum_grow : List FlexConstraint → ℕ
sum_grow [] = 0
sum_grow (c ∷ cs) = grow_of c + sum_grow cs

-- Every sum and product that `AllocateRow` makes is an `int`: the gaps, what they leave of the row, the sums of the
-- minima and of the first widths, and the width times what the children grow by.
unfoldable pub row_in_range : ℤ → ℤ → List FlexConstraint → Bool
unfolding gap_extent sum_widths sum_minima
row_in_range available gap children =
    leb (neg_part available + gap_extent gap (length children)) max_int
    && leb (sum_minima (map cell children)) max_int
    && leb (sum_widths (map cell children)) max_int
    && leb (content_of available gap children * sum_grow children) max_int

-- `AllocateRow` where nothing wraps around. What the code makes of numbers that do wrap is not modelled: that
-- is none.
unfoldable pub allocate_row : ℤ → ℤ → List FlexConstraint → Option (List ℕ × Bool)
unfolding allocate_in_range row_in_range
allocate_row available gap children =
    if row_in_range available gap children
    then some (allocate_in_range available gap children)
    else none
