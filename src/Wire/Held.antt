-- ===== src/Wire/Held.antt =====
-- wire/ndjson.go and ipc/codec.go: `appendPart`, and what is held after it.
use a2ui_persistent_daemon.Base.{
  ℕ, zero, suc, ◌+◌, ◌-◌, ◌≤◌, ◌≡◌, refl, sym, ap, subst, ◌∙◌, Bool, true, false, [], ◌∷◌, ◌++◌,
  length, length-append, take, append-nil, ltb, arith, if◌then◌else◌,
}
use a2ui_persistent_daemon.Wire.Slices.{Bytes, Kept, append_line, append_record}

pub take_none : (k : ℕ) → take {A = ℕ} k [] ≡ []
take_none zero = refl
take_none (suc k) = refl

pub take_all : (k : ℕ) (xs : Bytes) → length xs ≤ k → take k xs ≡ xs
take_all k [] h = take_none k
take_all zero (x ∷ xs) h = absurd (omega (arith, h))
take_all (suc k) (x ∷ xs) h = ap (λ r. x ∷ r) (take_all k xs (omega arith))

pub take-append : (k : ℕ) (xs ys : Bytes) → take k (xs ++ ys) ≡ take k xs ++ take (k - length xs) ys
take-append k [] ys =
    ap (λ m. take m ys) (omega arith) ∙ ap (λ r. r ++ take (k - 0) ys) (sym (take_none k))
take-append zero (x ∷ xs) ys = ap (λ m. take m ys) {x = 0} {y = 0 - suc (length xs)} (omega arith)
take-append (suc k) (x ∷ xs) ys =
    ap (λ r. x ∷ r)
      (take-append k xs ys
        ∙ ap (λ m. take k xs ++ take m ys) {x = k - length xs} {y = suc k - suc (length xs)}
            (omega arith))

-- Of the bytes so far, the first ones are kept, and it is known whether there are too many.
abbrev pub Held : ℕ → ℕ → Bytes → Kept → Type 0
Held k max content (buf, too_large) =
    (buf ≡ take k content) × (too_large ≡ ltb max (length content))

-- Both ways to append a part.
abbrev appended : ℕ → ℕ → Kept → Bytes → Kept
appended k max (buf, too_large) part =
    if too_large
    then (buf, true)
    else if ltb max (length buf + length part)
    then (buf ++ take (k - length buf) part, true)
    else (buf ++ part, false)

appended-Held :
    (k max : ℕ)
    → max ≤ k
    → k ≤ max + 1
    → (content part : Bytes) (s : Kept) → Held k max content s
    → Held k max (content ++ part) (appended k max s part)
appended-Held k max h h' content part (buf, true) (e, t) = (
  e
      ∙ sym (append-nil (take k content))
      ∙ ap (λ m. take k content ++ take m part) {x = 0} {y = k - length content} (ground (arith, t))
      ∙ sym (take-append k content part),
  ground (arith, t, length-append content part),
)
appended-Held k max h h' content part (buf, false) (e, t) =
    chosen (e ∙ take_all k content (ground (arith, t))) (ltb max (length buf + length part)) refl
  where
    lengths : buf ≡ content → length (content ++ part) ≡ length buf + length part
    lengths whole = length-append content part ∙ ap (λ r. length r + length part) (sym whole)

    chosen :
        buf ≡ content
        → (test : Bool) → ltb max (length buf + length part) ≡ test
        → Held k max
            (content ++ part)
            (if test then (buf ++ take (k - length buf) part, true) else (buf ++ part, false))
    chosen whole true r = (
      ap (λ x. x ++ take (k - length x) part) whole
          ∙ ap (λ x. x ++ take (k - length content) part) (sym whole ∙ e)
          ∙ sym (take-append k content part),
      sym r ∙ ap (ltb max) (sym (lengths whole)),
    )
    chosen whole false r = (
      ap (λ x. x ++ part) whole
          ∙ sym (take_all k (content ++ part) (ground (arith, r, lengths whole))),
      sym r ∙ ap (ltb max) (sym (lengths whole)),
    )

-- Both readers append like this to what they hold.
pub append_line-Held :
    (max : ℕ) (content part : Bytes) (s : Kept)
    → Held max max content s
    → Held max max (content ++ part) (append_line max s part)
unfolding append_line
append_line-Held max content part s h =
    subst (Held max max (content ++ part)) (agrees s h)
      (appended-Held max max (omega arith) (omega arith) content part s h)
  where
    agrees : (s : Kept) → Held max max content s → appended max max s part ≡ append_line max s part
    agrees (buf, true) h = refl
    agrees (buf, false) (e, t) =
        let whole : buf ≡ content = e ∙ take_all max content (ground (arith, t)) in
        let short : length buf ≤ max =
          subst (λ r. length r ≤ max) (sym whole) (ground (arith, t)) in
        ap
          (λ test.
            if test then (buf ++ take (max - length buf) part, true) else (buf ++ part, false))
          {x = ltb max (length buf + length part)} {y = ltb (max - length buf) (length part)}
          (ground arith)

pub append_record-Held :
    (max : ℕ) (content part : Bytes) (s : Kept)
    → Held (max + 1) max content s
    → Held (max + 1) max (content ++ part) (append_record max s part)
unfolding append_record
append_record-Held max content part s h =
    subst (Held (max + 1) max (content ++ part)) (agrees s)
      (appended-Held (max + 1) max (omega arith) (omega arith) content part s h)
  where
    agrees : (s : Kept) → appended (max + 1) max s part ≡ append_record max s part
    agrees (buf, true) = refl
    agrees (buf, false) = refl
