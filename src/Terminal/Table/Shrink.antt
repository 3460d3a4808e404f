-- ===== src/Terminal/Table/Shrink.antt =====
-- adapter/bubbletea/table_layout.go: what `shrinkTableWidthsToFloors` makes of the widths.
use a2ui_persistent_daemon.Base.{
  ℕ, zero, suc, ◌+◌, ◌≤◌, ◌<◌, ◌≡◌, refl, ap, subst, ◌⊎◌, inl, inr, ◌&&◌, Option, none, some, List,
  [], ◌∷◌, true, false, pos, max_int, int_of, leb_ℤ, int_of_small, ltb, arith, Bool-cases,
}
use a2ui_persistent_daemon.Terminal.Table.Widths.{
  at_most, floor_of, rest_of, is_wider, widest_from, narrow_at, total_width, sum_widths,
  shrink_loop, shrink_to_floors,
}

-- The column with this index is wider than its floor.
abbrev Wide : ℕ → List ℕ → List ℕ → Type 0
Wide i [] floors = ⊥
Wide zero (w ∷ ws) floors = floor_of floors < w
Wide (suc i) (w ∷ ws) floors = Wide i ws (rest_of floors)

-- No column is.
abbrev pub AtFloors : List ℕ → List ℕ → Type 0
AtFloors [] floors = Unit {0}
AtFloors (w ∷ ws) floors = (w ≤ floor_of floors) × AtFloors ws (rest_of floors)

-- Each column has lost width only down to its floor.
abbrev pub Shrunk : List ℕ → List ℕ → List ℕ → Type 0
Shrunk [] [] floors = Unit {0}
Shrunk [] (v ∷ vs) floors = ⊥
Shrunk (w ∷ ws) [] floors = ⊥
Shrunk (w ∷ ws) (v ∷ vs) floors =
    (w ≤ v) × (at_most (floor_of floors) v ≤ w) × Shrunk ws vs (rest_of floors)

widest_from-Wide :
    (k : ℕ) (ws floors : List ℕ) (best : Option (ℕ × ℕ)) (i w : ℕ)
    → widest_from k ws floors best ≡ some (i, w)
    → (best ≡ some (i, w)) ⊎ ((j : ℕ) × (i ≡ k + j) × Wide j ws floors)
unfolding widest_from
widest_from-Wide k [] floors best i w h = inl h
widest_from-Wide k (v ∷ ws) floors best i w h =
    elim (widest_from-Wide (suc k) ws (rest_of floors) _ i w h) [
      | inr (j, e, wide) ↦ inr (suc j, omega arith, wide)
      | inl e ↦ elim (Bool-cases (ltb (floor_of floors) v && is_wider v best)) [
        | inl t ↦ inr (0, ground arith, ground arith)
        | inr t ↦ inl (ground arith)
      ]
    ]

widest_from-AtFloors :
    (k : ℕ) (ws floors : List ℕ) (best : Option (ℕ × ℕ))
    → widest_from k ws floors best ≡ none
    → (best ≡ none) × AtFloors ws floors
unfolding widest_from
widest_from-AtFloors k [] floors best h = (h, _)
widest_from-AtFloors k (v ∷ ws) floors best h =
    let (e, low) = widest_from-AtFloors (suc k) ws (rest_of floors) _ h in
    elim (Bool-cases (ltb (floor_of floors) v && is_wider v best)) [
      | inl t ↦ ground arith
      | inr t ↦ let b : best ≡ none = ground arith in (b, (ground arith, low))
    ]

sum-narrow_at :
    (i : ℕ) (ws floors : List ℕ)
    → Wide i ws floors
    → total_width (narrow_at i ws) + 1 ≡ total_width ws
unfolding narrow_at
sum-narrow_at i [] floors h = absurd h
sum-narrow_at zero (w ∷ ws) floors h = omega arith
sum-narrow_at (suc i) (w ∷ ws) floors h = omega (arith, sum-narrow_at i ws (rest_of floors) h)

narrow_at-Shrunk :
    (i : ℕ) (ws vs floors : List ℕ)
    → Wide i ws floors
    → Shrunk ws vs floors
    → Shrunk (narrow_at i ws) vs floors
unfolding narrow_at
narrow_at-Shrunk i [] vs floors h s = absurd h
narrow_at-Shrunk zero (w ∷ ws) [] floors h s = s
narrow_at-Shrunk zero (w ∷ ws) (v ∷ vs) floors h (a, b, s) = (omega arith, ground arith, s)
narrow_at-Shrunk (suc i) (w ∷ ws) [] floors h s = s
narrow_at-Shrunk (suc i) (w ∷ ws) (v ∷ vs) floors h (a, b, s) =
    (a, b, narrow_at-Shrunk i ws vs (rest_of floors) h s)

Shrunk-refl : (ws floors : List ℕ) → Shrunk ws ws floors
Shrunk-refl [] floors = _
Shrunk-refl (w ∷ ws) floors = (omega arith, ground arith, Shrunk-refl ws (rest_of floors))

-- Either the widths were narrow enough and stay; or they lose exactly what is too much; or every column
-- is down to its floor.
abbrev pub Fits : List ℕ → List ℕ → ℕ → List ℕ → Type 0
Fits widths floors budget result =
    ((total_width widths ≤ budget) × (result ≡ widths))
    ⊎ (total_width result ≡ budget)
    ⊎ ((budget < total_width result) × AtFloors result floors)

-- The budget is overrun by one turn's cut at least.
Fits-narrowed :
    (out out' floors : List ℕ) (budget : ℕ) (result : List ℕ)
    → budget < total_width out
    → total_width out' + 1 ≡ total_width out
    → Fits out' floors budget result
    → Fits out floors budget result
Fits-narrowed out out' floors budget result h e (inl (low, same)) =
    inr (inl (omega (arith, ap total_width same)))
Fits-narrowed out out' floors budget result h e (inr (inl exact)) = inr (inl exact)
Fits-narrowed out out' floors budget result h e (inr (inr low)) = inr (inr low)

shrink_loop-Fits :
    (fuel : ℕ) (floors : List ℕ) (budget : ℕ) (out widths : List ℕ)
    → total_width out ≤ fuel
    → total_width out ≤ max_int
    → Shrunk out widths floors
    → Shrunk (shrink_loop fuel floors (pos budget) out) widths floors
      × Fits out floors budget (shrink_loop fuel floors (pos budget) out)
unfolding shrink_loop sum_widths
shrink_loop-Fits zero floors budget out widths h m s = (s, inl (omega arith, refl))
shrink_loop-Fits (suc fuel) floors budget out widths h m s =
    elim (Bool-cases (leb_ℤ (int_of (total_width out)) (pos budget))) [
      | inl fits ↦ subst Good (ground arith) (s, inl (below fits, refl))
      | inr over ↦ subst Good (ground arith) (
          turned (widest_from 0 out floors none) refl (above over) (λ i wide.
            shrink_loop-Fits fuel floors budget (narrow_at i out) widths
              (omega (arith, sum-narrow_at i out floors wide))
              (omega (arith, sum-narrow_at i out floors wide))
              (narrow_at-Shrunk i out widths floors wide s)))
    ]
  where
    Good : List ℕ → Type 0
    Good r = Shrunk r widths floors × Fits out floors budget r

    below : leb_ℤ (int_of (total_width out)) (pos budget) ≡ true → total_width out ≤ budget
    below fits = ground (arith, int_of_small (total_width out) m)

    above : leb_ℤ (int_of (total_width out)) (pos budget) ≡ false → budget < total_width out
    above over = ground (arith, int_of_small (total_width out) m)

    turned :
        (o : Option (ℕ × ℕ))
        → widest_from 0 out floors none ≡ o
        → budget < total_width out
        → ((i : ℕ)
            → Wide i out floors
            → Shrunk (shrink_loop fuel floors (pos budget) (narrow_at i out)) widths floors
              × Fits
                  (narrow_at i out)
                  floors
                  budget
                  (shrink_loop fuel floors (pos budget) (narrow_at i out)))
        → Good (elim o as (λ x. List ℕ) [
          | none ↦ out
          | some x ↦ shrink_loop fuel floors (pos budget) (narrow_at x.0 out)
        ])
    turned none e over rest = (s, inr (inr (over, (widest_from-AtFloors 0 out floors none e).1)))
    turned (some (i, w)) e over rest = elim (widest_from-Wide 0 out floors none i w e) [
      | inl x ↦ cc
      | inr (j, same, wide) ↦
          let wide' : Wide i out floors = subst (λ n. Wide n out floors) (omega arith) wide in
          let (kept, fits) = rest i wide' in
          (
            kept,
            Fits-narrowed out (narrow_at i out) floors budget _ over
                (sum-narrow_at i out floors wide') fits,
          )
    ]

-- Where the sum of the widths is an `int`, each column keeps its width or its floor at least. If the widths fit the budget they stay as they are;
-- else they are cut down to the budget exactly, or, where the floors do not allow that, every column is down
-- to its floor.
pub shrink_to_floors-Fits :
    (widths floors : List ℕ) (budget : ℕ)
    → total_width widths ≤ max_int
    → Shrunk (shrink_to_floors widths floors (pos budget)) widths floors
      × Fits widths floors budget (shrink_to_floors widths floors (pos budget))
unfolding shrink_to_floors
shrink_to_floors-Fits widths floors budget h =
    shrink_loop-Fits (total_width widths) floors budget widths widths (omega arith) h
      (Shrunk-refl widths floors)
