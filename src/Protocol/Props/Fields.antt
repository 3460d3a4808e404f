-- ===== src/Protocol/Props/Fields.antt =====
-- protocol/props.go: the closures of `validateNormalized` that check one property.
use a2ui_persistent_daemon.Base.{
  Bool, true, false, not, ◌||◌, ◌&&◌, Option, none, some, List, [], ◌∷◌, String, ℤ, is_negative,
  below_one, pos_part, neg_part, ltb, same, if◌then◌else◌, ◌+◌,
}
use a2ui_persistent_daemon.Names.{mem}
use a2ui_persistent_daemon.Maps.{Map, lookup, insert}
use a2ui_persistent_daemon.Protocol.Types.{Error, new_error, Result, ok, err}
use a2ui_persistent_daemon.Protocol.Json.{Json}

abbrev pub bad : Option Error
bad = some (new_error "schema.invalid_props")

-- `a < b` on Go integers.
abbrev pub ltb_ℤ : ℤ → ℤ → Bool
ltb_ℤ a b = ltb (pos_part a + neg_part b) (pos_part b + neg_part a)

abbrev pub check : Bool → Option Error
check b = if b then none else bad

-- `if v, ok := p[name]; ok { if e := f(v); e != nil { return e } }`
abbrev pub when_set : Map String → String → (String → Option Error) → Option Error
when_set p name f = elim (lookup name p) [ none ↦ none | some v ↦ f v ]

module _ (j : Json) where
  unfoldable pub int_field : Map String → String → (ℤ → Bool) → Option Error
  int_field p name too_small =
      when_set p name λ v. check ((j.integer v).1 && not (too_small (j.integer v).0))

  unfoldable pub str_field : Map String → String → Option Error
  str_field p name = when_set p name λ v. check (j.string v).1

  unfoldable pub bool_field : Map String → String → Option Error
  bool_field p name = when_set p name λ v. check (j.boolean v).1

  -- The empty text passes, so that an absent property does.
  unfoldable pub validate_enum : Map String → String → List String → Option Error
  validate_enum p name allowed =
      when_set p name
        λ v. check ((j.string v).1 && (same (j.string v).0 "" || mem (j.string v).0 allowed))

  -- The loop of `validateFlex`; `vals` maps the properties seen to their values.
  unfoldable pub flex_fields : Map String → Map ℤ → Result (Map ℤ)
  flex_fields [] vals = ok vals
  flex_fields ((k, v) ∷ m) vals =
      let rest = flex_fields m (insert k (j.integer v).0 vals) in
      if mem k ("grow" ∷ "basis" ∷ [])
      then if (j.integer v).1 && not (is_negative (j.integer v).0)
        then rest
        else err (new_error "schema.invalid_props")
      else if mem k ("min_width" ∷ "max_width" ∷ [])
      then if (j.integer v).1 && not (below_one (j.integer v).0)
        then rest
        else err (new_error "schema.invalid_props")
      else err (new_error "schema.unknown_property")

  unfoldable pub flex_bounds : Map ℤ → Option Error
  flex_bounds vals = elim (lookup "min_width" vals) [
    | none ↦ none
    | some min ↦ elim (lookup "max_width" vals) [
      | none ↦ none
      | some max ↦ check (not (ltb_ℤ max min))
    ]
  ]

  unfoldable pub check_flex : Option (Map String) × Bool → Option Error
  unfolding flex_fields flex_bounds
  check_flex (none, good) = bad
  check_flex (some m, false) = bad
  check_flex (some m, true) = elim (flex_fields m []) [
    | ok vals ↦ flex_bounds vals
    | err e ↦ some e
  ]

  unfoldable pub validate_flex : String → Option Error
  unfolding check_flex
  validate_flex raw = check_flex (j.object raw)

  -- The loop of `validateStyle`.
  unfoldable pub style_fields : Map String → Option Error
  style_fields [] = none
  style_fields ((k, v) ∷ m) =
      let rest = style_fields m in
      if mem k ("fg" ∷ "bg" ∷ [])
      then if (j.string v).1
        then if mem (j.string v).0 ("" ∷ "primary" ∷ "warn" ∷ "error" ∷ "muted" ∷ [])
          then rest
          else some (new_error "schema.invalid_color")
        else bad
      else if mem k ("bold" ∷ "dim" ∷ [])
      then if (j.boolean v).1 then rest else bad
      else some (new_error "schema.unknown_property")

  unfoldable pub check_style : Option (Map String) × Bool → Option Error
  unfolding style_fields
  check_style (m, false) = bad
  check_style (none, true) = none
  check_style (some m, true) = style_fields m

  unfoldable pub validate_style : String → Option Error
  unfolding check_style
  validate_style raw = check_style (j.object raw)
