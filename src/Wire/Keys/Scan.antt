-- ===== src/Wire/Keys/Scan.antt =====
-- wire/json.go: `rejectDuplicateKeys`, over the tokens that Go's decoder gives. `bad` is an error of the decoder, which also
-- reports a closing delimiter of the wrong kind; the end of the list is the end of the record.
use a2ui_persistent_daemon.Base.{
  ℕ, zero, suc, ◌+◌, Bool, false, ◌||◌, Option, none, some, List, [], ◌∷◌, String, length, same,
  if◌then◌else◌,
}
use a2ui_persistent_daemon.Protocol.Types.{Error, new_error}

pub data Token : Type 0 where
  text : String → Token
  scalar open_object close_object open_array close_array bad : Token

-- What is left of the tokens, or why they are refused.
pub data Scanned : Type 0 where
  passed : List Token → Scanned
  duplicate malformed unfinished : Scanned

abbrev pub contains : String → List String → Bool
contains key [] = false
contains key (k ∷ ks) = same key k || contains key ks

abbrev pub scanned_then : Scanned → (List Token → Scanned) → Scanned
scanned_then (passed ts) go_on = go_on ts
scanned_then r go_on = r

unfoldable mutual
  -- `parseValue`, on fuel
  pub parse_value : ℕ → List Token → Scanned
  parse_value zero ts = unfinished
  parse_value (suc fuel) [] = malformed
  parse_value (suc fuel) (text s ∷ ts) = passed ts
  parse_value (suc fuel) (scalar ∷ ts) = passed ts
  parse_value (suc fuel) (open_object ∷ ts) = parse_members fuel [] ts
  parse_value (suc fuel) (open_array ∷ ts) = parse_elements fuel ts
  parse_value (suc fuel) (t ∷ ts) = malformed

  -- The loop over an object's members, with the keys seen.
  pub parse_members : ℕ → List String → List Token → Scanned
  parse_members zero seen ts = unfinished
  parse_members (suc fuel) seen (close_object ∷ ts) = passed ts
  parse_members (suc fuel) seen (text key ∷ ts) =
      let rest =
        scanned_then (parse_value fuel ts) (λ left. parse_members fuel (key ∷ seen) left) in
      if contains key seen then duplicate else rest
  parse_members (suc fuel) seen ts = malformed

  -- The loop over an array's elements.
  pub parse_elements : ℕ → List Token → Scanned
  parse_elements zero ts = unfinished
  parse_elements (suc fuel) [] = malformed
  parse_elements (suc fuel) (close_array ∷ ts) = passed ts
  parse_elements (suc fuel) (close_object ∷ ts) = malformed
  parse_elements (suc fuel) (t ∷ ts) =
      scanned_then (parse_value fuel (t ∷ ts)) (λ left. parse_elements fuel left)

-- Another value may not follow. `duplicateOrMalformed` makes the error of it.
abbrev pub verdict : Scanned → Option Error
verdict (passed []) = none
verdict (passed (t ∷ ts)) = some (new_error "wire.malformed")
verdict duplicate = some (new_error "wire.duplicate_key")
verdict _ = some (new_error "wire.malformed")

-- Each call but the first follows a token that was read or begins an element.
abbrev pub scan_fuel : List Token → ℕ
scan_fuel ts = length ts + length ts + 1

unfoldable pub reject_duplicate_keys : List Token → Option Error
unfolding parse_value
reject_duplicate_keys ts = verdict (parse_value (scan_fuel ts) ts)
