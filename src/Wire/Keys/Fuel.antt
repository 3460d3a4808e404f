-- ===== src/Wire/Keys/Fuel.antt =====
-- wire/json.go: `rejectDuplicateKeys` comes to an end.
use a2ui_persistent_daemon.Base.{
  ℕ, zero, suc, ◌+◌, ◌*◌, ◌≤◌, ◌<◌, Bool, true, false, List, [], ◌∷◌, String, length, arith,
  if◌then◌else◌,
}
use a2ui_persistent_daemon.Wire.Keys.Scan.{
  Token, text, scalar, open_object, close_object, open_array, close_array, bad, Scanned, passed,
  duplicate, malformed, unfinished, contains, scanned_then, parse_value, parse_members,
  parse_elements, scan_fuel,
}

-- A scan that ends, and leaves fewer tokens than this.
abbrev pub Ends : ℕ → Scanned → Type 0
Ends n (passed ts) = length ts < n
Ends n unfinished = ⊥
Ends n _ = Unit {0}

scanned_then-Ends :
    (m n : ℕ) (r : Scanned) (go_on : List Token → Scanned)
    → Ends m r
    → ((ts : List Token) → length ts < m → Ends n (go_on ts))
    → Ends n (scanned_then r go_on)
scanned_then-Ends m n (passed ts) go_on h k = k ts h
scanned_then-Ends m n duplicate go_on h k = _
scanned_then-Ends m n malformed go_on h k = _
scanned_then-Ends m n unfinished go_on h k = absurd h

Ends-weaken : (m n : ℕ) (r : Scanned) → Ends m r → m ≤ n → Ends n r
Ends-weaken m n (passed ts) h k = omega (arith, h)
Ends-weaken m n duplicate h k = _
Ends-weaken m n malformed h k = _
Ends-weaken m n unfinished h k = absurd h

-- A loop goes on with what a value left.
loop-Ends :
    (n : ℕ) (r : Scanned) (go_on : List Token → Scanned)
    → Ends n r
    → ((ts : List Token) → length ts < n → Ends (length ts) (go_on ts))
    → Ends n (scanned_then r go_on)
loop-Ends n r go_on h k =
    scanned_then-Ends n n r go_on h
      (λ ts l. Ends-weaken (length ts) n (go_on ts) (k ts l) (omega (arith, l)))

if-Ends : (n : ℕ) (test : Bool) (r : Scanned) → Ends n r → Ends n (if test then duplicate else r)
if-Ends n true r h = _
if-Ends n false r h = h

mutual
  unfolding parse_value

  parse_value-Ends :
      (fuel : ℕ) (ts : List Token)
      → length ts * 2 + 1 ≤ fuel
      → Ends (length ts) (parse_value fuel ts)
  parse_value-Ends zero ts h = absurd (omega (arith, h))
  parse_value-Ends (suc fuel) [] h = _
  parse_value-Ends (suc fuel) (text s ∷ ts) h = omega arith
  parse_value-Ends (suc fuel) (scalar ∷ ts) h = omega arith
  parse_value-Ends (suc fuel) (open_object ∷ ts) h =
      Ends-weaken (length ts) _ _ (parse_members-Ends fuel [] ts (omega (arith, h))) (omega arith)
  parse_value-Ends (suc fuel) (open_array ∷ ts) h =
      Ends-weaken (length ts) _ _ (parse_elements-Ends fuel ts (omega (arith, h))) (omega arith)
  parse_value-Ends (suc fuel) (close_object ∷ ts) h = _
  parse_value-Ends (suc fuel) (close_array ∷ ts) h = _
  parse_value-Ends (suc fuel) (bad ∷ ts) h = _

  parse_members-Ends :
      (fuel : ℕ) (seen : List String) (ts : List Token)
      → length ts * 2 + 1 ≤ fuel
      → Ends (length ts) (parse_members fuel seen ts)
  parse_members-Ends zero seen ts h = absurd (omega (arith, h))
  parse_members-Ends (suc fuel) seen [] h = _
  parse_members-Ends (suc fuel) seen (close_object ∷ ts) h = omega arith
  parse_members-Ends (suc fuel) seen (text key ∷ ts) h =
      if-Ends (suc (length ts)) (contains key seen) _ (
        Ends-weaken (length ts) (suc (length ts)) _
          (loop-Ends (length ts) (parse_value fuel ts)
            (λ left. parse_members fuel (key ∷ seen) left)
            (parse_value-Ends fuel ts (omega (arith, h)))
            (λ left l. parse_members-Ends fuel (key ∷ seen) left (omega (arith, h, l))))
          (omega arith))
  parse_members-Ends (suc fuel) seen (scalar ∷ ts) h = _
  parse_members-Ends (suc fuel) seen (open_object ∷ ts) h = _
  parse_members-Ends (suc fuel) seen (open_array ∷ ts) h = _
  parse_members-Ends (suc fuel) seen (close_array ∷ ts) h = _
  parse_members-Ends (suc fuel) seen (bad ∷ ts) h = _

  parse_elements-Ends :
      (fuel : ℕ) (ts : List Token)
      → length ts * 2 + 2 ≤ fuel
      → Ends (length ts) (parse_elements fuel ts)
  parse_elements-Ends zero ts h = absurd (omega (arith, h))
  parse_elements-Ends (suc fuel) [] h = _
  parse_elements-Ends (suc fuel) (close_array ∷ ts) h = omega arith
  parse_elements-Ends (suc fuel) (close_object ∷ ts) h = _
  parse_elements-Ends (suc fuel) (text s ∷ ts) h =
      loop-Ends (suc (length ts)) (parse_value fuel (text s ∷ ts))
        (λ left. parse_elements fuel left) (parse_value-Ends fuel (text s ∷ ts) (omega (arith, h)))
        (λ left l. parse_elements-Ends fuel left (omega (arith, h, l)))
  parse_elements-Ends (suc fuel) (scalar ∷ ts) h =
      loop-Ends (suc (length ts)) (parse_value fuel (scalar ∷ ts))
        (λ left. parse_elements fuel left) (parse_value-Ends fuel (scalar ∷ ts) (omega (arith, h)))
        (λ left l. parse_elements-Ends fuel left (omega (arith, h, l)))
  parse_elements-Ends (suc fuel) (open_object ∷ ts) h =
      loop-Ends (suc (length ts)) (parse_value fuel (open_object ∷ ts))
        (λ left. parse_elements fuel left)
        (parse_value-Ends fuel (open_object ∷ ts) (omega (arith, h)))
        (λ left l. parse_elements-Ends fuel left (omega (arith, h, l)))
  parse_elements-Ends (suc fuel) (open_array ∷ ts) h =
      loop-Ends (suc (length ts)) (parse_value fuel (open_array ∷ ts))
        (λ left. parse_elements fuel left)
        (parse_value-Ends fuel (open_array ∷ ts) (omega (arith, h)))
        (λ left l. parse_elements-Ends fuel left (omega (arith, h, l)))
  parse_elements-Ends (suc fuel) (bad ∷ ts) h =
      loop-Ends (suc (length ts)) (parse_value fuel (bad ∷ ts)) (λ left. parse_elements fuel left)
        (parse_value-Ends fuel (bad ∷ ts) (omega (arith, h)))
        (λ left l. parse_elements-Ends fuel left (omega (arith, h, l)))

-- The fuel is enough: the scan of a record ends, whatever its tokens are, and it leaves fewer than there are.
pub scan_fuel_enough : (ts : List Token) → Ends (length ts) (parse_value (scan_fuel ts) ts)
scan_fuel_enough ts = parse_value-Ends (scan_fuel ts) ts (omega arith)
