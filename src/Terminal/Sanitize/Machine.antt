-- ===== src/Terminal/Sanitize/Machine.antt =====
-- adapter/bubbletea/sanitize.go: `SanitizeText` and `SanitizeSingleLineText`.
use a2ui_persistent_daemon.Base.{
  ℕ, zero, suc, Bool, false, ◌||◌, [], ◌∷◌, ◌++◌, ltb, ◌==◌, length, if◌then◌else◌,
}
use a2ui_persistent_daemon.Terminal.Utf8.{Bytes, Decoded, rune, invalid, between, decode_rune}

-- `control` is the state of DCS, APC, PM and SOS strings.
pub data ScanState : Type 0 where
  normal esc csi osc osc_esc control : ScanState

-- One turn of the loop: the next state and length, what is written, and the text that is left.
pub record Turn : Type 0 where
  pub state : ScanState
  pub seq_len : ℕ
  pub written : Bytes
  pub rest : Bytes

abbrev pub turn : ScanState → ℕ → Bytes → Bytes → Turn
turn state seq_len written rest = record {
  state = state;
  seq_len = seq_len;
  written = written;
  rest = rest;
}

abbrev pub is_bidi : ℕ → Bool
is_bidi r = between 8234 8238 r || between 8294 8297 r

-- The eight-bit controls that open a sequence; the others are dropped.
abbrev pub c1_turn : ℕ → ℕ → Bytes → Turn
c1_turn n r s =
    if r == 155
    then turn csi 1 [] s
    else if r == 157
    then turn osc 1 [] s
    else if r == 144 || (r == 152 || (r == 158 || r == 159))
    then turn control 1 [] s
    else turn normal n [] s

abbrev pub rune_turn : ℕ → Bytes → Decoded → Turn
rune_turn n s invalid = turn normal n [] s
rune_turn n s (rune r bs t) =
    if between 128 159 r
    then c1_turn n r t
    else if is_bidi r
    then turn normal n [] t
    else turn normal n bs t

-- The byte that follows a carriage return is looked at, and left.
abbrev pub starts_lf : Bytes → Bool
starts_lf [] = false
starts_lf (b ∷ s) = b == 10

unfoldable pub normal_turn : ℕ → ℕ → Bytes → Turn
normal_turn n b s =
    if b == 13
    then turn normal n (if starts_lf s then [] else 10 ∷ []) s
    else if b == 10 || b == 9
    then turn normal n (b ∷ []) s
    else if b == 27
    then turn esc 1 [] s
    else if ltb b 32 || b == 127
    then turn normal n [] s
    else rune_turn n s (decode_rune b s)

abbrev pub esc_turn : ℕ → ℕ → Bytes → Turn
esc_turn n b s =
    if b == b'['
    then turn csi n [] s
    else if b == b']'
    then turn osc n [] s
    else if b == b'P' || (b == b'_' || (b == b'^' || b == b'X'))
    then turn control n [] s
    else if b == 27
    then turn esc 1 [] s
    else turn normal n [] s

abbrev pub line_feed : ℕ → Bytes
line_feed b = if b == 10 then 10 ∷ [] else []

abbrev pub csi_turn : ℕ → ℕ → Bytes → Turn
csi_turn n b s =
    if between 64 126 b
    then turn normal n [] s
    else if b == 27
    then turn esc 1 [] s
    else if b == 10 || ltb 128 n
    then turn normal n (line_feed b) s
    else turn csi n [] s

abbrev pub st_turn : ScanState → ℕ → Bytes → Decoded → Turn
st_turn state n s invalid = turn state n [] s
st_turn state n s (rune r bs t) = if r == 156 then turn normal n [] t else turn state n [] s

unfoldable pub string_turn : ScanState → ℕ → ℕ → Bytes → Turn
string_turn state n b s =
    if b == 7
    then turn normal n [] s
    else if b == 27
    then turn osc_esc n [] s
    else if b == 10 || ltb 2048 n
    then turn normal n (line_feed b) s
    else st_turn state n s (decode_rune b s)

abbrev pub osc_esc_turn : ℕ → ℕ → Bytes → Turn
osc_esc_turn n b s =
    if b == b'['
    then turn csi n [] s
    else if b == b']'
    then turn osc n [] s
    else if b == 27
    then turn osc_esc n [] s
    else turn normal n [] s

-- The `switch` on the state; within a sequence the length goes up first.
unfoldable pub take_turn : ScanState → ℕ → ℕ → Bytes → Turn
unfolding normal_turn string_turn
take_turn normal n b s = normal_turn n b s
take_turn esc n b s = esc_turn (suc n) b s
take_turn csi n b s = csi_turn (suc n) b s
take_turn osc n b s = string_turn osc (suc n) b s
take_turn control n b s = string_turn control (suc n) b s
take_turn osc_esc n b s = osc_esc_turn (suc n) b s

-- The loop on fuel; each turn takes a byte at least, so the length of the text is enough.
unfoldable pub scan : ℕ → ScanState → ℕ → Bytes → Bytes
unfolding take_turn
scan zero state n s = []
scan (suc fuel) state n [] = []
scan (suc fuel) state n (b ∷ s) =
    let t = take_turn state n b s in t.written ++ scan fuel t.state t.seq_len t.rest

unfoldable pub sanitize_text : Bytes → Bytes
unfolding scan
sanitize_text s = scan (length s) normal 0 s

abbrev pub is_space : ℕ → Bool
is_space b = b == 10 || b == 9

-- `strings.ContainsAny(clean, "\n\t")`
unfoldable pub has_space : Bytes → Bool
has_space [] = false
has_space (b ∷ s) = is_space b || has_space s

-- `for _, r := range clean`: an invalid byte is read as U+FFFD.
unfoldable pub spaced : ℕ → Bytes → Bytes
spaced zero s = []
spaced (suc fuel) [] = []
spaced (suc fuel) (b ∷ s) = elim (decode_rune b s) [
  | rune r bs t ↦ (if is_space r then 32 ∷ [] else bs) ++ spaced fuel t
  | invalid ↦ (239 ∷ 191 ∷ 189 ∷ []) ++ spaced fuel s
]

abbrev pub single_line : Bytes → Bytes
single_line clean =
    let replaced = spaced (length clean) clean in if has_space clean then replaced else clean

unfoldable pub sanitize_single_line_text : Bytes → Bytes
sanitize_single_line_text s = single_line (sanitize_text s)
