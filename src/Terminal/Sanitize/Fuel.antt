-- ===== src/Terminal/Sanitize/Fuel.antt =====
-- adapter/bubbletea/sanitize.go: every turn of the loop takes a byte, so the length of the text is fuel enough.
use a2ui_persistent_daemon.Base.{
  ℕ, zero, suc, ◌≤◌, ◌≡◌, refl, ap, [], ◌∷◌, ◌++◌, length, length-append, arith,
}
use a2ui_persistent_daemon.Terminal.Utf8.{
  Bytes, rune, invalid, Decoded, decode_rune, decode_rune-Split,
}
use a2ui_persistent_daemon.Terminal.Sanitize.Machine.{
  ScanState, normal, esc, csi, osc, osc_esc, control, rune_turn, st_turn, normal_turn, string_turn,
  take_turn, scan,
}

decode_rune-le :
    (r b : ℕ) (s taken t : Bytes) → decode_rune b s ≡ rune r taken t → length t ≤ length s
decode_rune-le r b s taken t e =
    let p = decode_rune-Split r b s taken t e in
    omega (arith, ap length p.splits, length-append p.bs t)

rune_turn-le :
    (n b : ℕ) (s : Bytes) (d : Decoded)
    → decode_rune b s ≡ d
    → length (rune_turn n s d).rest ≤ length s
rune_turn-le n b s invalid e = omega arith
rune_turn-le n b s (rune r taken t) e = ground (arith, decode_rune-le r b s taken t e)

normal_turn-le : (n b : ℕ) (s : Bytes) → length (normal_turn n b s).rest ≤ length s
unfolding normal_turn
normal_turn-le n b s = ground (arith, rune_turn-le n b s (decode_rune b s) refl)

st_turn-le :
    (st : ScanState) (n b : ℕ) (s : Bytes) (d : Decoded)
    → decode_rune b s ≡ d
    → length (st_turn st n s d).rest ≤ length s
st_turn-le st n b s invalid e = omega arith
st_turn-le st n b s (rune r taken t) e = ground (arith, decode_rune-le r b s taken t e)

string_turn-le :
    (st : ScanState) (n b : ℕ) (s : Bytes) → length (string_turn st n b s).rest ≤ length s
unfolding string_turn
string_turn-le st n b s = ground (arith, st_turn-le st n b s (decode_rune b s) refl)

take_turn-le : (st : ScanState) (n b : ℕ) (s : Bytes) → length (take_turn st n b s).rest ≤ length s
unfolding take_turn
take_turn-le normal n b s = normal_turn-le n b s
take_turn-le esc n b s = ground arith
take_turn-le csi n b s = ground arith
take_turn-le osc n b s = string_turn-le osc (suc n) b s
take_turn-le control n b s = string_turn-le control (suc n) b s
take_turn-le osc_esc n b s = ground arith

-- The loop of `SanitizeText` needs no more turns than the text has bytes, from whatever state: with that
-- much fuel or more the result is the same.
pub scan_enough :
    (f g : ℕ) (st : ScanState) (n : ℕ) (s : Bytes)
    → length s ≤ f
    → length s ≤ g
    → scan f st n s ≡ scan g st n s
unfolding scan
scan_enough zero zero st n s h k = refl
scan_enough zero (suc g) st n [] h k = refl
scan_enough zero (suc g) st n (b ∷ s) h k = absurd (omega arith)
scan_enough (suc f) zero st n [] h k = refl
scan_enough (suc f) zero st n (b ∷ s) h k = absurd (omega arith)
scan_enough (suc f) (suc g) st n [] h k = refl
scan_enough (suc f) (suc g) st n (b ∷ s) h k =
    ap (λ w. (take_turn st n b s).written ++ w)
      (scan_enough f g _ _ _ (omega (arith, take_turn-le st n b s))
        (omega (arith, take_turn-le st n b s)))
