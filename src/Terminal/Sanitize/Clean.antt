-- ===== src/Terminal/Sanitize/Clean.antt =====
-- adapter/bubbletea/sanitize.go: nothing that controls a terminal passes `SanitizeText`.
use a2ui_persistent_daemon.Base.{
  ℕ, zero, suc, ◌≤◌, ◌≡◌, refl, sym, ap, subst, ◌⊎◌, ◌↔◌, inl, inr, Bool, true, false, not, ◌&&◌,
  ◌||◌, [], ◌∷◌, ◌++◌, ltb, ◌==◌, length, length-append, arith, Bool-cases,
}
use a2ui_persistent_daemon.Terminal.Utf8.{
  Bytes, Decoded, rune, invalid, between, decode_rune, decode_two, decode_three, decode_four,
  Encodes, decode_rune-Split,
}
use a2ui_persistent_daemon.Terminal.Sanitize.Machine.{
  ScanState, normal, esc, csi, osc, osc_esc, control, Turn, turn, is_bidi, rune_turn, normal_turn,
  string_turn, take_turn, scan, sanitize_text,
}

-- The code points that act on a terminal: controls but line feed and tab, DEL, eight-bit controls, and the
-- directional overrides and isolates.
abbrev pub is_forbidden : ℕ → Bool
is_forbidden r =
    (ltb r 32 && not (r == 10 || r == 9))
    || (between 127 159 r || (between 8234 8238 r || between 8294 8297 r))

-- Well-formed UTF-8 without the code points that a test names.
pub data Spelled (bad : ℕ → Bool) : Bytes → Type 0 where
  end : Spelled bad []
  char :
      (r b : ℕ) (bs rest : Bytes) {s : Bytes}
      → Encodes r b bs
      → bad r ≡ false
      → s ≡ b ∷ (bs ++ rest)
      → Spelled bad rest
      → Spelled bad s

abbrev pub Clean : Bytes → Type 0
Clean = Spelled is_forbidden

-- What one turn writes: nothing, or one allowed code point.
data Chunk : Bytes → Type 0 where
  nothing : {w : Bytes} → w ≡ [] → Chunk w
  one :
      (r b : ℕ) (bs : Bytes) {w : Bytes}
      → Encodes r b bs
      → is_forbidden r ≡ false
      → w ≡ b ∷ bs
      → Chunk w

Chunk-append : {w s : Bytes} → Chunk w → Clean s → Clean (w ++ s)
Chunk-append {s = s} (nothing e) c = subst (λ w. Clean (w ++ s)) (sym e) c
Chunk-append {s = s} (one r b bs enc free e) c = char r b bs s enc free (ap (λ w. w ++ s) e) c

pub ascii-Encodes : (b : ℕ) → ltb b 128 ≡ true → Encodes b b []
unfolding decode_rune
ascii-Encodes b h = record { decodes = λ u. ground arith }

ascii-Chunk : (b : ℕ) → ltb b 128 ≡ true → is_forbidden b ≡ false → Chunk (b ∷ [])
ascii-Chunk b h k = one b b [] (ascii-Encodes b h) k refl

feed-Chunk : (w : Bytes) → (w ≡ []) ⊎ (w ≡ 10 ∷ []) → Chunk w
feed-Chunk w (inl e) = nothing e
feed-Chunk w (inr e) = subst Chunk (sym e) (ascii-Chunk 10 refl refl)

-- A multi-byte sequence stands for a code point above ASCII.
pub decode_rune-above :
    (r b : ℕ) (s taken t : Bytes)
    → ltb b 128 ≡ false
    → decode_rune b s ≡ rune r taken t
    → ltb r 128 ≡ false
unfolding decode_rune decode_two decode_three decode_four
decode_rune-above r b [] taken t h e = absurd (ground arith)
decode_rune-above r b (b1 ∷ []) taken t h e = ground arith
decode_rune-above r b (b1 ∷ b2 ∷ []) taken t h e = ground arith
decode_rune-above r b (b1 ∷ b2 ∷ b3 ∷ s) taken t h e = ground arith

pub decode_rune-below :
    (r b : ℕ) (s taken t : Bytes)
    → ltb b 128 ≡ true
    → decode_rune b s ≡ rune r taken t
    → (r ≡ b) × (taken ≡ b ∷ [])
unfolding decode_rune
decode_rune-below r b s taken t h e = (ground arith, ground arith)

-- A code point that the normal state writes is no control: its first byte was looked at before.
written-free :
    (r b : ℕ) (s taken t : Bytes)
    → decode_rune b s ≡ rune r taken t
    → (ltb b 32 || b == 127) ≡ false
    → between 128 159 r ≡ false
    → is_bidi r ≡ false
    → is_forbidden r ≡ false
written-free r b s taken t e c0 c1 bidi = elim (Bool-cases (ltb b 128)) [
  | inl h ↦ ground (arith, decode_rune-below r b s taken t h e)
  | inr h ↦ ground (arith, decode_rune-above r b s taken t h e)
]

rune_turn-Chunk :
    (n b : ℕ) (s : Bytes) (d : Decoded)
    → (ltb b 32 || b == 127) ≡ false
    → decode_rune b s ≡ d
    → Chunk (rune_turn n s d).written
rune_turn-Chunk n b s invalid c0 e = nothing refl
rune_turn-Chunk n b s (rune r taken t) c0 e = elim (Bool-cases (between 128 159 r || is_bidi r)) [
  | inl h ↦ nothing (ground arith)
  | inr h ↦
      let p = decode_rune-Split r b s taken t e in
      one r b p.bs p.encodes (written-free r b s taken t e c0 (ground arith) (ground arith))
        (ground (arith, p.taken_eq))
]

normal_turn-Chunk : (n b : ℕ) (s : Bytes) → Chunk (normal_turn n b s).written
unfolding normal_turn
normal_turn-Chunk n b s = elim (Bool-cases (b == 13 || b == 27)) [
  | inl h ↦ feed-Chunk _ (ground arith)
  | inr h ↦ elim (Bool-cases (b == 10 || b == 9)) [
    | inl k ↦ subst Chunk (ground arith) (ascii-Chunk b (ground arith) (ground arith))
    | inr k ↦ elim (Bool-cases (ltb b 32 || b == 127)) [
      | inl l ↦ nothing (ground arith)
      | inr l ↦ subst Chunk (ground arith) (rune_turn-Chunk n b s (decode_rune b s) l refl)
    ]
  ]
]

string_turn-Chunk :
    (st : ScanState) (n b : ℕ) (s : Bytes) (d : Decoded)
    → d ≡ decode_rune b s
    → Chunk (string_turn st n b s).written
unfolding string_turn
string_turn-Chunk st n b s invalid e = feed-Chunk _ (ground arith)
string_turn-Chunk st n b s (rune r bs t) e = feed-Chunk _ (ground arith)

take_turn-Chunk : (st : ScanState) (n b : ℕ) (s : Bytes) → Chunk (take_turn st n b s).written
unfolding take_turn
take_turn-Chunk normal n b s = normal_turn-Chunk n b s
take_turn-Chunk esc n b s = feed-Chunk _ (ground arith)
take_turn-Chunk csi n b s = feed-Chunk _ (ground arith)
take_turn-Chunk osc n b s = string_turn-Chunk osc (suc n) b s (decode_rune b s) refl
take_turn-Chunk control n b s = string_turn-Chunk control (suc n) b s (decode_rune b s) refl
take_turn-Chunk osc_esc n b s = feed-Chunk _ (ground arith)

scan-Clean : (fuel : ℕ) (st : ScanState) (n : ℕ) (s : Bytes) → Clean (scan fuel st n s)
unfolding scan
scan-Clean zero st n s = end
scan-Clean (suc fuel) st n [] = end
scan-Clean (suc fuel) st n (b ∷ s) = Chunk-append (take_turn-Chunk st n b s) (scan-Clean fuel _ _ _)

-- Whatever the text, what is left of it is well-formed UTF-8 without controls, DEL, eight-bit controls and
-- directional overrides.
pub sanitize_text-Clean : (s : Bytes) → Clean (sanitize_text s)
unfolding sanitize_text
sanitize_text-Clean s = scan-Clean (length s) normal 0 s

-- The first byte of an allowed code point is neither an escape nor a control.
first_free :
    (r b : ℕ) (bs : Bytes)
    → Encodes r b bs
    → is_forbidden r ≡ false
    → is_forbidden b ≡ false ⊎ (ltb b 128 ≡ false)
first_free r b bs enc free = elim (Bool-cases (ltb b 128)) [
  | inl h ↦ inl (ground (arith, decode_rune-below r b (bs ++ []) (b ∷ bs) [] h (enc.decodes [])))
  | inr h ↦ inr h
]

spaces-stay : (r b : ℕ) (bs : Bytes) → Encodes r b bs → (b == 10 || b == 9) ≡ true → bs ≡ []
spaces-stay r b bs enc h =
    ground (arith, decode_rune-below r b (bs ++ []) (b ∷ bs) [] (ground arith) (enc.decodes []))

rune_stays :
    (n r : ℕ) (s bs t : Bytes) (d : Decoded)
    → d ≡ rune r bs t
    → between 128 159 r ≡ false
    → is_bidi r ≡ false
    → rune_turn n s d ≡ turn normal n bs t
rune_stays n r s bs t invalid e c1 bidi = cc
rune_stays n r s bs t (rune r' bs' t') e c1 bidi = ground arith

char-stays :
    (r b n : ℕ) (bs u : Bytes)
    → Encodes r b bs
    → is_forbidden r ≡ false
    → normal_turn n b (bs ++ u) ≡ turn normal n (b ∷ bs) u
unfolding normal_turn
char-stays r b n bs u enc free = elim (Bool-cases (b == 10 || b == 9)) [
  | inl h ↦
      subst (λ w. normal_turn n b (w ++ u) ≡ turn normal n (b ∷ w) u)
        (sym (spaces-stay r b bs enc h)) (ground arith)
  | inr h ↦
      let kept =
        rune_stays n r (bs ++ u) (b ∷ bs) u (decode_rune b (bs ++ u)) (enc.decodes u) (ground arith)
          (ground arith) in
      elim (first_free r b bs enc free) [
        | inl k ↦ ground (arith, kept)
        | inr k ↦ ground (arith, kept)
      ]
]

scan-stays : {s : Bytes} → Clean s → (fuel n : ℕ) → length s ≤ fuel → scan fuel normal n s ≡ s
unfolding scan take_turn
scan-stays end zero n h = refl
scan-stays end (suc fuel) n h = refl
scan-stays (char r b bs rest enc free e c) zero n h = absurd (omega (arith, ap length e))
scan-stays (char r b bs rest enc free e c) (suc fuel) n h =
    subst (λ w. scan (suc fuel) normal n w ≡ w) (sym e)
      (subst (λ (t : Turn). t.written ++ scan fuel t.state t.seq_len t.rest ≡ b ∷ (bs ++ rest))
        (sym (char-stays r b n bs rest enc free))
        (ap (λ w. b ∷ (bs ++ w))
          (scan-stays c fuel n (omega (arith, ap length e, length-append bs rest)))))

-- A text passes unchanged exactly if it is well-formed UTF-8 without controls and overrides.
pub sanitize_text_iff : (s : Bytes) → Clean s ↔ (sanitize_text s ≡ s)
unfolding sanitize_text
sanitize_text_iff s =
    (λ c. scan-stays c (length s) 0 (omega arith), λ e. subst Clean e (sanitize_text-Clean s))

pub sanitize_text-idempotent : (s : Bytes) → sanitize_text (sanitize_text s) ≡ sanitize_text s
sanitize_text-idempotent s = (sanitize_text_iff (sanitize_text s)).0 (sanitize_text-Clean s)
