-- ===== src/Terminal/Utf8.antt =====
-- Go's `utf8.DecodeRuneInString`, as adapter/bubbletea/sanitize.go uses it. A text is its list of bytes.
use a2ui_persistent_daemon.Base.{
  ℕ, ◌+◌, ◌-◌, ◌*◌, ◌≡◌, inl, inr, Bool-cases, Bool, true, false, ◌&&◌, List, [], ◌∷◌, ◌++◌, arith,
  leb, ltb, ◌==◌, if◌then◌else◌,
}

abbrev pub Bytes : Type 0
Bytes = List ℕ

-- A code point, the bytes that encode it, and the rest of the text; or `RuneError` of size 1.
pub data Decoded : Type 0 where
  rune : ℕ → Bytes → Bytes → Decoded
  invalid : Decoded

abbrev pub between : ℕ → ℕ → ℕ → Bool
between lo hi b = leb lo b && leb b hi

abbrev pub is_continuation : ℕ → Bool
is_continuation b = between 128 191 b

-- The second byte excludes overlong forms, surrogates, and what lies above U+10FFFF.
abbrev pub second_ok : ℕ → ℕ → Bool
second_ok b0 b1 =
    if b0 == 224
    then between 160 191 b1
    else if b0 == 237
    then between 128 159 b1
    else if b0 == 240
    then between 144 191 b1
    else if b0 == 244
    then between 128 143 b1
    else is_continuation b1

unfoldable pub decode_two : ℕ → Bytes → Decoded
decode_two b0 [] = invalid
decode_two b0 (b1 ∷ s) =
    if is_continuation b1 then rune ((b0 - 192) * 64 + (b1 - 128)) (b0 ∷ b1 ∷ []) s else invalid

unfoldable pub decode_three : ℕ → Bytes → Decoded
decode_three b0 (b1 ∷ b2 ∷ s) =
    if second_ok b0 b1 && is_continuation b2
    then rune ((b0 - 224) * 4096 + (b1 - 128) * 64 + (b2 - 128)) (b0 ∷ b1 ∷ b2 ∷ []) s
    else invalid
decode_three b0 _ = invalid

unfoldable pub decode_four : ℕ → Bytes → Decoded
decode_four b0 (b1 ∷ b2 ∷ b3 ∷ s) =
    if second_ok b0 b1 && (is_continuation b2 && is_continuation b3)
    then rune ((b0 - 240) * 262144 + (b1 - 128) * 4096 + (b2 - 128) * 64 + (b3 - 128))
        (b0 ∷ b1 ∷ b2 ∷ b3 ∷ []) s
    else invalid
decode_four b0 _ = invalid

unfoldable pub decode_rune : ℕ → Bytes → Decoded
unfolding decode_two decode_three decode_four
decode_rune b s =
    if ltb b 128
    then rune b (b ∷ []) s
    else if between 194 223 b
    then decode_two b s
    else if between 224 239 b
    then decode_three b s
    else if between 240 244 b
    then decode_four b s
    else invalid

-- The bytes of a code point, whatever follows them.
pub record Encodes (r b : ℕ) (bs : Bytes) : Type 0 where
  pub decodes : (u : Bytes) → decode_rune b (bs ++ u) ≡ rune r (b ∷ bs) u

-- What was decoded stands at the front, and is decoded so before any other text.
pub record Split (r b : ℕ) (s taken t : Bytes) : Type 0 where
  pub bs : Bytes
  pub taken_eq : taken ≡ b ∷ bs
  pub splits : s ≡ bs ++ t
  pub encodes : Encodes r b bs

one-Split :
    (r b : ℕ) (s taken t : Bytes)
    → ltb b 128 ≡ true
    → decode_rune b s ≡ rune r taken t
    → Split r b s taken t
unfolding decode_rune
one-Split r b s taken t h e = record {
  bs = [];
  taken_eq = ground arith;
  splits = ground arith;
  encodes = record { decodes = λ u. ground arith };
}

two-Split :
    (r b : ℕ) (s taken t : Bytes)
    → ltb b 128 ≡ false
    → between 194 223 b ≡ true
    → decode_rune b s ≡ rune r taken t
    → Split r b s taken t
unfolding decode_rune decode_two
two-Split r b [] taken t h k e = absurd (ground arith)
two-Split r b (b1 ∷ s) taken t h k e = record {
  bs = b1 ∷ [];
  taken_eq = ground arith;
  splits = ground arith;
  encodes = record { decodes = λ u. ground arith };
}

three-Split :
    (r b : ℕ) (s taken t : Bytes)
    → ltb b 128 ≡ false
    → between 194 223 b ≡ false
    → between 224 239 b ≡ true
    → decode_rune b s ≡ rune r taken t
    → Split r b s taken t
unfolding decode_rune decode_three
three-Split r b [] taken t h k l e = absurd (ground arith)
three-Split r b (b1 ∷ []) taken t h k l e = absurd (ground arith)
three-Split r b (b1 ∷ b2 ∷ s) taken t h k l e = record {
  bs = b1 ∷ b2 ∷ [];
  taken_eq = ground arith;
  splits = ground arith;
  encodes = record { decodes = λ u. ground arith };
}

four-Split :
    (r b : ℕ) (s taken t : Bytes)
    → ltb b 128 ≡ false
    → between 194 223 b ≡ false
    → between 224 239 b ≡ false
    → decode_rune b s ≡ rune r taken t
    → Split r b s taken t
unfolding decode_rune decode_four
four-Split r b [] taken t h k l e = absurd (ground arith)
four-Split r b (b1 ∷ []) taken t h k l e = absurd (ground arith)
four-Split r b (b1 ∷ b2 ∷ []) taken t h k l e = absurd (ground arith)
four-Split r b (b1 ∷ b2 ∷ b3 ∷ s) taken t h k l e = record {
  bs = b1 ∷ b2 ∷ b3 ∷ [];
  taken_eq = ground arith;
  splits = ground arith;
  encodes = record { decodes = λ u. ground arith };
}

pub decode_rune-Split :
    (r b : ℕ) (s taken t : Bytes) → decode_rune b s ≡ rune r taken t → Split r b s taken t
decode_rune-Split r b s taken t e = elim (Bool-cases (ltb b 128)) [
  | inl h ↦ one-Split r b s taken t h e
  | inr h ↦ elim (Bool-cases (between 194 223 b)) [
    | inl k ↦ two-Split r b s taken t h k e
    | inr k ↦ elim (Bool-cases (between 224 239 b)) [
      | inl l ↦ three-Split r b s taken t h k l e
      | inr l ↦ four-Split r b s taken t h k l e
    ]
  ]
]
