-- ===== src/Wire/Keys/Distinct.antt =====
-- wire/json.go: `rejectDuplicateKeys` on the tokens of a value refuses exactly the values with a key twice in an object.
use a2ui_persistent_daemon.Base.{
  ℕ, zero, suc, ◌+◌, ◌*◌, ◌≤◌, ◌<◌, ◌≡◌, refl, ap, ◌∙◌, Bool, true, false, not, ◌&&◌, none, some,
  List, [], ◌∷◌, String, length, arith, same_iff, if◌then◌else◌,
}
use a2ui_persistent_daemon.Protocol.Types.{new_error}
use a2ui_persistent_daemon.Wire.Keys.Scan.{
  Token, text, scalar, open_object, close_object, open_array, close_array, Scanned, passed,
  duplicate, contains, scanned_then, verdict, parse_value, parse_members, parse_elements,
  reject_duplicate_keys,
}

mutual
  -- A JSON value, as far as its keys go.
  pub data Value : Type 0 where
    atom : Value
    word : String → Value
    array : Values → Value
    object : Members → Value

  pub data Values : Type 0 where
    finished : Values
    item : Value → Values → Values

  pub data Members : Type 0 where
    none_left : Members
    member : String → Value → Members → Members

-- The tokens of a value, before others.
unfoldable mutual
  pub write_value : Value → List Token → List Token
  write_value atom rest = scalar ∷ rest
  write_value (word s) rest = text s ∷ rest
  write_value (array vs) rest = open_array ∷ write_values vs rest
  write_value (object ms) rest = open_object ∷ write_members ms rest

  pub write_values : Values → List Token → List Token
  write_values finished rest = close_array ∷ rest
  write_values (item v vs) rest = write_value v (write_values vs rest)

  pub write_members : Members → List Token → List Token
  write_members none_left rest = close_object ∷ rest
  write_members (member key v ms) rest = text key ∷ write_value v (write_members ms rest)

abbrev keys_of : Members → List String
keys_of none_left = []
keys_of (member key v ms) = key ∷ keys_of ms

abbrev distinct_keys : List String → Bool
distinct_keys [] = true
distinct_keys (k ∷ ks) = not (contains k ks) && distinct_keys ks

-- No object has a key twice.
unfoldable mutual
  pub distinct : Value → Bool
  distinct atom = true
  distinct (word s) = true
  distinct (array vs) = distinct_values vs
  distinct (object ms) = distinct_keys (keys_of ms) && distinct_members ms

  pub distinct_values : Values → Bool
  distinct_values finished = true
  distinct_values (item v vs) = distinct v && distinct_values vs

  pub distinct_members : Members → Bool
  distinct_members none_left = true
  distinct_members (member key v ms) = distinct v && distinct_members ms

-- None of the keys is among those seen.
abbrev unseen : List String → List String → Bool
unseen seen [] = true
unseen seen (k ∷ ks) = not (contains k seen) && unseen seen ks

unseen-nothing : (ks : List String) → unseen [] ks ≡ true
unseen-nothing [] = refl
unseen-nothing (k ∷ ks) = unseen-nothing ks

unseen-seen :
    (k : String) (seen ks : List String)
    → unseen (k ∷ seen) ks ≡ (not (contains k ks) && unseen seen ks)
unseen-seen k seen [] = refl
unseen-seen k seen (x ∷ ks) = ground (arith, unseen-seen k seen ks, same_iff k x, same_iff x k)

abbrev outcome : Bool → List Token → Scanned
outcome true rest = passed rest
outcome false rest = duplicate

mutual
  unfolding write_value

  longer_value : (v : Value) (rest : List Token) → length rest < length (write_value v rest)
  longer_value atom rest = omega arith
  longer_value (word s) rest = omega arith
  longer_value (array vs) rest = omega (arith, longer_values vs rest)
  longer_value (object ms) rest = omega (arith, longer_members ms rest)

  longer_values : (vs : Values) (rest : List Token) → length rest < length (write_values vs rest)
  longer_values finished rest = omega arith
  longer_values (item v vs) rest =
      omega (arith, longer_value v (write_values vs rest), longer_values vs rest)

  longer_members : (ms : Members) (rest : List Token) → length rest < length (write_members ms rest)
  longer_members none_left rest = omega arith
  longer_members (member key v ms) rest =
      omega (arith, longer_value v (write_members ms rest), longer_members ms rest)

outcome-then :
    (e c : Bool) (mid rest : List Token) (go_on : List Token → Scanned)
    → go_on mid ≡ outcome c rest
    → scanned_then (outcome e mid) go_on ≡ outcome (e && c) rest
outcome-then true c mid rest go_on h = h
outcome-then false c mid rest go_on h = refl

elements_lem :
    (fuel : ℕ) (v : Value) (rest : List Token)
    → parse_elements (suc fuel) (write_value v rest)
      ≡ scanned_then (parse_value fuel (write_value v rest)) (λ left. parse_elements fuel left)
unfolding write_value parse_value
elements_lem fuel atom rest = refl
elements_lem fuel (word s) rest = refl
elements_lem fuel (array vs) rest = refl
elements_lem fuel (object ms) rest = refl

member_lem :
    (a b c d e g : Bool) (rest : List Token) (r : Scanned)
    → r ≡ outcome (e && ((not b && c) && (d && g))) rest
    → (if a then duplicate else r) ≡ outcome ((not a && c) && ((not b && d) && (e && g))) rest
member_lem true b c d e g rest r h = refl
member_lem false b c d e g rest r h = h ∙ ap (λ t. outcome t rest) (shuffled b c d e g)
  where
    shuffled :
        (b c d e g : Bool)
        → (e && ((not b && c) && (d && g))) ≡ ((not false && c) && ((not b && d) && (e && g)))
    shuffled b c d e g = ground arith

mutual
  unfolding write_value parse_value distinct

  value-outcome :
      (fuel : ℕ) (v : Value) (rest : List Token)
      → length (write_value v rest) * 2 + 1 ≤ fuel
      → parse_value fuel (write_value v rest) ≡ outcome (distinct v) rest
  value-outcome zero v rest h = absurd (omega (arith, h))
  value-outcome (suc fuel) atom rest h = refl
  value-outcome (suc fuel) (word s) rest h = refl
  value-outcome (suc fuel) (array vs) rest h = values-outcome fuel vs rest (omega (arith, h))
  value-outcome (suc fuel) (object ms) rest h =
      members-outcome fuel [] ms rest (omega (arith, h))
      ∙ ap (λ t. outcome (t && (distinct_keys (keys_of ms) && distinct_members ms)) rest)
          (unseen-nothing (keys_of ms))

  values-outcome :
      (fuel : ℕ) (vs : Values) (rest : List Token)
      → length (write_values vs rest) * 2 + 2 ≤ fuel
      → parse_elements fuel (write_values vs rest) ≡ outcome (distinct_values vs) rest
  values-outcome zero vs rest h = absurd (omega (arith, h))
  values-outcome (suc fuel) finished rest h = refl
  values-outcome (suc fuel) (item v vs) rest h =
      let left = write_values vs rest in
      elements_lem fuel v left
      ∙ ap (λ r. scanned_then r (λ left. parse_elements fuel left))
          (value-outcome fuel v left (omega (arith, h)))
      ∙ outcome-then (distinct v) (distinct_values vs) left rest (λ left. parse_elements fuel left)
          (values-outcome fuel vs rest (omega (arith, h, longer_value v left)))

  members-outcome :
      (fuel : ℕ) (seen : List String) (ms : Members) (rest : List Token)
      → length (write_members ms rest) * 2 + 1 ≤ fuel
      → parse_members fuel seen (write_members ms rest)
        ≡ outcome
            (unseen seen (keys_of ms) && (distinct_keys (keys_of ms) && distinct_members ms))
            rest
  members-outcome zero seen ms rest h = absurd (omega (arith, h))
  members-outcome (suc fuel) seen none_left rest h = refl
  members-outcome (suc fuel) seen (member key v ms) rest h =
      let left = write_members ms rest in
      let ks = keys_of ms in
      let go_on : List Token → Scanned = λ left. parse_members fuel (key ∷ seen) left in
      let rest_fine = distinct_keys ks && distinct_members ms in
      member_lem (contains key seen) (contains key ks) (unseen seen ks) (distinct_keys ks)
        (distinct v) (distinct_members ms) rest
        (scanned_then (parse_value fuel (write_value v left)) go_on)
        (ap (λ r. scanned_then r go_on) (value-outcome fuel v left (omega (arith, h)))
          ∙ outcome-then (distinct v) ((not (contains key ks) && unseen seen ks) && rest_fine) left
              rest go_on
              (members-outcome fuel (key ∷ seen) ms rest (omega (arith, h, longer_value v left))
                ∙ ap (λ t. outcome (t && rest_fine) rest) (unseen-seen key seen ks)))

-- The tokens of a JSON value pass exactly if no object in it, at any depth, has a key twice; else the error says
-- that there is a duplicate key. Where another token follows the value, they never pass.
pub reject_duplicate_keys-exact :
    (v : Value) (t : Token) (ts : List Token)
    → (reject_duplicate_keys (write_value v [])
        ≡ (if distinct v then none else some (new_error "wire.duplicate_key")))
      × (reject_duplicate_keys (write_value v (t ∷ ts))
          ≡ some (new_error (if distinct v then "wire.malformed" else "wire.duplicate_key")))
unfolding reject_duplicate_keys
reject_duplicate_keys-exact v t ts = (
  ap verdict (value-outcome _ v [] (omega arith)) ∙ alone (distinct v),
  ap verdict (value-outcome _ v (t ∷ ts) (omega arith)) ∙ followed (distinct v),
)
  where
    alone :
        (b : Bool)
        → verdict (outcome b []) ≡ (if b then none else some (new_error "wire.duplicate_key"))
    alone true = refl
    alone false = refl

    followed :
        (b : Bool)
        → verdict (outcome b (t ∷ ts))
          ≡ some (new_error (if b then "wire.malformed" else "wire.duplicate_key"))
    followed true = refl
    followed false = refl
