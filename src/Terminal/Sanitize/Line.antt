-- ===== src/Terminal/Sanitize/Line.antt =====
-- adapter/bubbletea/sanitize.go: what `SanitizeSingleLineText` leaves fits on one line.
use a2ui_persistent_daemon.Base.{
  ℕ, zero, suc, ◌≤◌, ◌≡◌, refl, sym, ap, subst, inl, inr, Bool, false, ◌||◌, [], ◌∷◌, ◌++◌, ltb,
  length, length-append, arith, Bool-cases, if◌then◌else◌,
}
use a2ui_persistent_daemon.Terminal.Utf8.{Bytes, rune, invalid, Decoded, Encodes}
use a2ui_persistent_daemon.Terminal.Sanitize.Machine.{
  is_space, has_space, spaced, single_line, sanitize_text, sanitize_single_line_text,
}
use a2ui_persistent_daemon.Terminal.Sanitize.Clean.{
  is_forbidden, Spelled, Clean, ascii-Encodes, decode_rune-above, decode_rune-below,
  sanitize_text-Clean,
}

-- No line feed and no tab either.
abbrev pub is_unfit : ℕ → Bool
is_unfit r = is_forbidden r || is_space r

has_space-append : (xs ys : Bytes) → has_space (xs ++ ys) ≡ false → has_space ys ≡ false
unfolding has_space
has_space-append [] ys h = h
has_space-append (x ∷ xs) ys h = has_space-append xs ys (ground arith)

first_unspaced : (r b : ℕ) (bs : Bytes) → Encodes r b bs → is_space b ≡ false → is_space r ≡ false
first_unspaced r b bs enc h = elim (Bool-cases (ltb b 128)) [
  | inl k ↦ ground (arith, decode_rune-below r b (bs ++ []) (b ∷ bs) [] k (enc.decodes []))
  | inr k ↦ ground (arith, decode_rune-above r b (bs ++ []) (b ∷ bs) [] k (enc.decodes []))
]

-- A text that has none is as it was.
unspaced-Spelled : {s : Bytes} → Clean s → has_space s ≡ false → Spelled is_unfit s
unfolding has_space
unspaced-Spelled Spelled.end h = Spelled.end
unspaced-Spelled (Spelled.char r b bs rest enc free e c) h =
    let here : has_space (b ∷ (bs ++ rest)) ≡ false = subst (λ w. has_space w ≡ false) e h in
    Spelled.char r b bs rest enc (ground (arith, first_unspaced r b bs enc (ground arith))) e
      (unspaced-Spelled c (has_space-append bs rest (ground arith)))

-- One code point of the loop.
chunk-Spelled :
    (r b : ℕ) (bs w : Bytes)
    → Encodes r b bs
    → is_forbidden r ≡ false
    → Spelled is_unfit w
    → Spelled is_unfit ((if is_space r then 32 ∷ [] else b ∷ bs) ++ w)
chunk-Spelled r b bs w enc free c = elim (Bool-cases (is_space r)) [
  | inl h ↦ Spelled.char 32 32 [] w (ascii-Encodes 32 refl) refl (ground arith) c
  | inr h ↦ Spelled.char r b bs w enc (ground arith) (ground arith) c
]

spaced-Spelled :
    {s : Bytes} → Clean s → (fuel : ℕ) → length s ≤ fuel → Spelled is_unfit (spaced fuel s)
unfolding spaced
spaced-Spelled Spelled.end zero h = Spelled.end
spaced-Spelled Spelled.end (suc fuel) h = Spelled.end
spaced-Spelled (Spelled.char r b bs rest enc free e c) zero h = absurd (omega (arith, ap length e))
spaced-Spelled (Spelled.char r b bs rest enc free e c) (suc fuel) h =
    let later = spaced-Spelled c fuel (omega (arith, ap length e, length-append bs rest)) in
    subst (λ w. Spelled is_unfit (spaced (suc fuel) w)) (sym e)
      (subst
        (λ (d : Decoded). Spelled is_unfit (elim d as (λ x. Bytes) [
          | rune r' bs' t ↦ (if is_space r' then 32 ∷ [] else bs') ++ spaced fuel t
          | invalid ↦ (239 ∷ 191 ∷ 189 ∷ []) ++ spaced fuel (bs ++ rest)
        ]))
        (sym (enc.decodes rest)) (chunk-Spelled r b bs (spaced fuel rest) enc free later))

single_line-Spelled : (s : Bytes) → Clean s → Spelled is_unfit (single_line s)
single_line-Spelled s c = elim (Bool-cases (has_space s)) [
  | inl h ↦ subst (Spelled is_unfit) (ground arith) (spaced-Spelled c (length s) (omega arith))
  | inr h ↦ subst (Spelled is_unfit) (ground arith) (unspaced-Spelled c h)
]

-- Whatever the text, what is left is well-formed UTF-8 without controls and overrides, and without line
-- feeds and tabs.
pub sanitize_single_line_text-Spelled : (s : Bytes) → Spelled is_unfit (sanitize_single_line_text s)
unfolding sanitize_single_line_text
sanitize_single_line_text-Spelled s = single_line-Spelled (sanitize_text s) (sanitize_text-Clean s)
