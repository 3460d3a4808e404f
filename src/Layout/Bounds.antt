-- ===== src/Layout/Bounds.antt =====
-- layout/flex.go: a row's children are no wider together than the row.
use a2ui_persistent_daemon.Base.{
  ℕ, zero, suc, ◌+◌, ◌-◌, ◌*◌, ◌/◌, ◌≤◌, ◌<◌, ◌≡◌, refl, ap, ◌∙◌, ◌⊎◌, inl, inr, Bool, true, false,
  not, ◌||◌, Option, none, some, List, [], ◌∷◌, map, length, ℤ, ltb, leb, ◌==◌, arith, Bool-cases,
}
use native.Mathlib.Nat.{
  mul-zero, mul-le-mul_right, div-mul-le_self, add-mul, mul-add, le_of_mul-le-mul_right,
}
use a2ui_persistent_daemon.Layout.Row.{
  FlexConstraint, Cell, cell, min_of, grow_of, active, share, sum_widths, sum_minima, shrink_round,
  any_wide, shrink, total_grow, granted, sum_grants, best_from, give_at, give_left, settle,
  grow_pass, grow, content_of, allocate_in_range, row_in_range, allocate_row, widths_of,
}

narrow_lem : (cells : List Cell) → any_wide cells ≡ false → sum_widths cells ≤ sum_minima cells
unfolding sum_widths sum_minima
narrow_lem [] h = omega arith
narrow_lem (c ∷ cs) h = ground (arith, narrow_lem cs (ground arith))

-- What a round does: the minima stay, the sum does not rise, and it falls where it is too much.
abbrev Round : ℕ → ℕ → List Cell → List Cell → Type 0
Round content total cells cells' =
    (sum_minima cells' ≡ sum_minima cells)
    × (sum_widths cells' ≤ sum_widths cells)
    × ((total ≤ content) ⊎ (any_wide cells ≡ false) ⊎ (sum_widths cells' < sum_widths cells))

shrink_round-Round :
    (content total : ℕ) (cells : List Cell)
    → Round content total cells (shrink_round content total cells)
unfolding sum_widths sum_minima shrink_round
shrink_round-Round content total [] = (refl, omega arith, inr (inl refl))
shrink_round-Round content total (c ∷ cs) =
    let narrower = shrink_round-Round content (total - 1) cs in
    let same = shrink_round-Round content total cs in
    elim (Bool-cases (leb total content)) [
      | inl fits ↦ ground arith
      | inr over ↦ elim (Bool-cases (ltb (min_of c.child) c.width)) [
        | inl wide ↦ ground arith
        | inr narrow ↦ ground arith
      ]
    ]

shrink-le :
    (fuel content : ℕ) (cells : List Cell)
    → sum_widths cells ≤ fuel
    → sum_minima cells ≤ content
    → sum_widths (shrink fuel content cells) ≤ content
unfolding shrink
shrink-le zero content cells h k = omega (arith, h)
shrink-le (suc fuel) content cells h k =
    let (same, less, falls) = shrink_round-Round content (sum_widths cells) cells in
    elim (Bool-cases (leb (sum_widths cells) content || not (any_wide cells))) [
      | inl stops ↦ ground (arith, narrow_lem cells)
      | inr goes ↦
          let rest =
            shrink-le fuel content (shrink_round content (sum_widths cells) cells) (ground arith)
              (omega (arith, same, k)) in
          ground arith
    ]

share-le : (spare total : ℕ) (c : Cell) → share spare total c ≤ spare * grow_of c.child / total
share-le spare total c = ground arith

-- The shares, multiplied out, are within what there is to share.
granted-le :
    (spare total : ℕ) (cells : List Cell)
    → sum_grants (granted spare total cells) * total ≤ spare * total_grow cells
unfolding granted sum_grants total_grow
granted-le spare total [] = omega (arith, mul-zero spare)
granted-le spare total (c ∷ cs) = elim (Bool-cases (active c)) [
  | inl grows ↦
      let one = mul-le-mul_right total (share-le spare total c) in
      let whole = div-mul-le_self (spare * grow_of c.child) total in
      let rest = granted-le spare total cs in
      ground (
        arith,
        one,
        whole,
        rest,
        add-mul (share spare total c) (sum_grants (granted spare total cs)) total,
        mul-add spare (grow_of c.child) (total_grow cs),
      )
  | inr still ↦ let rest = granted-le spare total cs in ground (arith, rest)
]

granted-widths :
    (spare total : ℕ) (cells : List Cell)
    → sum_widths (granted spare total cells) ≡ sum_widths cells
unfolding granted sum_widths
granted-widths spare total [] = refl
granted-widths spare total (c ∷ cs) = elim (Bool-cases (active c)) [
  | inl grows ↦ ground (arith, granted-widths spare total cs)
  | inr still ↦ ground (arith, granted-widths spare total cs)
]

give_at-le :
    (i : ℕ) (cells : List Cell)
    → (sum_grants (give_at i cells) ≤ sum_grants cells + 1)
      × (sum_widths (give_at i cells) ≡ sum_widths cells)
unfolding give_at sum_grants sum_widths
give_at-le i [] = (omega arith, refl)
give_at-le zero (c ∷ cs) = (omega arith, refl)
give_at-le (suc i) (c ∷ cs) =
    let (a, b) = give_at-le i cs in (omega (arith, a), ap (λ n. c.width + n) b)

give_left-le :
    (left : ℕ) (cells : List Cell)
    → (sum_grants (give_left left cells) ≤ sum_grants cells + left)
      × (sum_widths (give_left left cells) ≡ sum_widths cells)
unfolding give_left
give_left-le zero cells = (omega arith, refl)
give_left-le (suc left) cells =
    split (best_from 0 cells none) (λ i. give_left-le left (give_at i cells))
  where
    split :
        (o : Option (ℕ × ℕ))
        → ((i : ℕ)
            → (sum_grants (give_left left (give_at i cells)) ≤ sum_grants (give_at i cells) + left)
              × (sum_widths (give_left left (give_at i cells)) ≡ sum_widths (give_at i cells)))
        → let r = elim o as (λ x. List Cell) [
          | none ↦ cells
          | some x ↦ give_left left (give_at x.0 cells)
        ] in
          (sum_grants r ≤ sum_grants cells + suc left) × (sum_widths r ≡ sum_widths cells)
    split none rest = (omega arith, refl)
    split (some (i, r)) rest =
        let (a, b) = give_at-le i cells in let (a', b') = rest i in (omega (arith, a, a'), b' ∙ b)

-- A pass grants no more than what is spare, and the widths are those from before.
grow_pass-le :
    (spare : ℕ) (cells : List Cell)
    → 0 < total_grow cells
    → (sum_grants (grow_pass spare cells) ≤ spare)
      × (sum_widths (grow_pass spare cells) ≡ sum_widths cells)
unfolding grow_pass
grow_pass-le spare cells h =
    let shares = granted spare (total_grow cells) cells in
    let within = le_of_mul-le-mul_right (granted-le spare (total_grow cells) cells) h in
    let (a, b) = give_left-le (spare - sum_grants shares) shares in
    (omega (arith, within, a), b ∙ granted-widths spare (total_grow cells) cells)

settle-widths :
    (cells : List Cell) → sum_widths (settle cells) ≡ sum_widths cells + sum_grants cells
unfolding settle sum_widths sum_grants
settle-widths [] = refl
settle-widths (c ∷ cs) = omega (arith, settle-widths cs)

grow-le :
    (fuel spare : ℕ) (cells : List Cell)
    → sum_widths (grow fuel spare cells) ≤ sum_widths cells + spare
unfolding grow
grow-le zero spare cells = omega arith
grow-le (suc fuel) spare cells =
    let cells' = grow_pass spare cells in
    elim (Bool-cases (spare == 0 || total_grow cells == 0 || sum_grants cells' == 0)) [
      | inl stops ↦ ground (arith, stops)
      | inr goes ↦
          let (a, b) = grow_pass-le spare cells (ground (arith, goes)) in
          let rest = grow-le fuel (spare - sum_grants cells') (settle cells') in
          ground (arith, goes, a, b, rest, settle-widths cells')
    ]

-- More fuel than spare width changes nothing: each pass that goes on grants one at least.
grow_enough :
    (f g spare : ℕ) (cells : List Cell)
    → spare ≤ f
    → spare ≤ g
    → grow f spare cells ≡ grow g spare cells
unfolding grow
grow_enough zero zero spare cells h k = refl
grow_enough zero (suc g) spare cells h k = ground arith
grow_enough (suc f) zero spare cells h k = ground arith
grow_enough (suc f) (suc g) spare cells h k =
    let cells' = grow_pass spare cells in
    elim (Bool-cases (spare == 0 || total_grow cells == 0 || sum_grants cells' == 0)) [
      | inl stops ↦ ground (arith, stops)
      | inr goes ↦
          let rest =
            grow_enough f g (spare - sum_grants cells') (settle cells') (ground (arith, goes))
              (ground (arith, goes)) in
          ground (arith, goes, rest)
    ]

abbrev pub total_width : List ℕ → ℕ
total_width [] = 0
total_width (w ∷ ws) = w + total_width ws

total_width-widths_of : (cells : List Cell) → total_width (widths_of cells) ≡ sum_widths cells
unfolding sum_widths
total_width-widths_of [] = refl
total_width-widths_of (c ∷ cs) = ap (λ n. c.width + n) (total_width-widths_of cs)

total_width-minima :
    (children : List FlexConstraint)
    → total_width (map min_of children) ≡ sum_minima (map cell children)
unfolding sum_minima
total_width-minima [] = refl
total_width-minima (c ∷ cs) = ap (λ n. min_of c + n) (total_width-minima cs)

allocate_in_range-fits :
    (available gap : ℤ) (children : List FlexConstraint)
    → 0 < length children
    → let content = content_of available gap children in
      let (widths, fits) = allocate_in_range available gap children in
      ((fits ≡ true)
        × (total_width (map min_of children) ≤ content)
        × (total_width widths ≤ content))
      ⊎ ((fits ≡ false)
          × (content < total_width (map min_of children))
          × (widths ≡ map min_of children))
unfolding allocate_in_range
allocate_in_range-fits available gap children h =
    let content = content_of available gap children in
    let cells = map cell children in
    let shrunk = shrink (sum_widths cells) content cells in
    let minima = total_width-minima children in
    elim (Bool-cases (ltb content (sum_minima cells))) [
      | inl over ↦
          inr (ground (arith, over, h), ground (arith, over, minima), ground (arith, over, h))
      | inr fits ↦
          let narrow =
            shrink-le (sum_widths cells) content cells (omega arith) (ground (arith, fits)) in
          let wide = grow-le (content - sum_widths shrunk) (content - sum_widths shrunk) shrunk in
          let sum =
            total_width-widths_of
              (grow (content - sum_widths shrunk) (content - sum_widths shrunk) shrunk) in
          inl (
            ground (arith, fits, h),
            ground (arith, fits, minima),
            ground (arith, fits, h, narrow, wide, sum),
          )
    ]

-- Where no sum or product wraps around, a row with children gets widths: it fits exactly if the minima fit in it between the gaps, and then the widths do. If it does not
-- fit, each child has its minimum.
pub allocate_row-fits :
    (available gap : ℤ) (children : List FlexConstraint)
    → row_in_range available gap children ≡ true
    → 0 < length children
    → let content = content_of available gap children in
      (widths : List ℕ) × (fits : Bool) × (allocate_row available gap children
        ≡ some (widths, fits))
      × (((fits ≡ true)
            × (total_width (map min_of children) ≤ content)
            × (total_width widths ≤ content))
          ⊎ ((fits ≡ false)
              × (content < total_width (map min_of children))
              × (widths ≡ map min_of children)))
unfolding allocate_row
allocate_row-fits available gap children within h =
    let (widths, fits) = allocate_in_range available gap children in
    (widths, fits, ground (arith, within), allocate_in_range-fits available gap children h)
