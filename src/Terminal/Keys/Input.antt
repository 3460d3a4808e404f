-- ===== src/Terminal/Keys/Input.antt =====
-- adapter/bubbletea/key_router.go: the caret stays in the text, and what was typed can be erased.
use a2ui_persistent_daemon.Base.{
  ℕ, zero, suc, ◌+◌, ◌≤◌, ◌<◌, ◌≡◌, refl, Option, none, some, List, [], ◌∷◌, ◌++◌, length,
  length-append, take, drop, ltb, arith, if◌then◌else◌, inl, inr, Bool-cases,
}
use a2ui_persistent_daemon.Terminal.Keys.Router.{
  Key, up, down, left, right, home, end, page_up, page_down, backspace, delete, space, enter, other,
  runes, InputCall, nothing, set_input, caret_in, inserted, removed, erased, typed, edit,
  handle_input_key,
}

-- The text after a call.
abbrev pub called : List ℕ → InputCall → List ℕ
called value (set_input next) = next
called value _ = value

-- An input as its keys see it: the text, and the caret if one is stored.
pub record Field : Type 0 where
  pub value : List ℕ
  pub caret : Option ℕ

abbrev pub pressed : Field → Option (ℕ × InputCall) → Field
pressed f none = f
pressed f (some (caret, call)) = record { value = called f.value call; caret = some caret }

abbrev pub press : Field → Key → Field
unfolding handle_input_key
press f key = pressed f (handle_input_key f.caret f.value key)

pub length-take : (n : ℕ) (xs : List ℕ) → n ≤ length xs → length (take n xs) ≡ n
length-take zero xs h = refl
length-take (suc n) [] h = absurd (omega (arith, h))
length-take (suc n) (x ∷ xs) h = omega (arith, length-take n xs (omega (arith, h)))

length-drop : (n : ℕ) (xs : List ℕ) → n ≤ length xs → length (drop n xs) + n ≡ length xs
length-drop zero xs h = omega arith
length-drop (suc n) [] h = absurd (omega (arith, h))
length-drop (suc n) (x ∷ xs) h = omega (arith, length-drop n xs (omega (arith, h)))

pub length-inserted :
    (value : List ℕ) (caret : ℕ) (new : List ℕ)
    → caret ≤ length value
    → length (inserted value caret new) ≡ length value + length new
length-inserted value caret new h = omega (
  arith,
  length-append (take caret value) (new ++ drop caret value),
  length-append new (drop caret value),
  length-take caret value h,
  length-drop caret value h,
)

length-removed :
    (value : List ℕ) (i : ℕ) → i < length value → length (removed value i) + 1 ≡ length value
length-removed value i h = omega (
  arith,
  length-append (take i value) (drop (suc i) value),
  length-take i value (omega (arith, h)),
  length-drop (suc i) value (omega (arith, h)),
)

pub caret_in-le : (caret : Option ℕ) (value : List ℕ) → caret_in caret value ≤ length value
caret_in-le none value = omega arith
caret_in-le (some caret) value = ground arith

-- After any key, whatever caret was stored, the caret is in the text or at its end.
abbrev pub InText : List ℕ → Option (ℕ × InputCall) → Type 0
InText value none = Unit {0}
InText value (some (caret, call)) = caret ≤ length (called value call)

erased-InText :
    (value : List ℕ) (caret : ℕ) → caret ≤ length value → InText value (some (erased value caret))
erased-InText value zero h = omega arith
erased-InText value (suc i) h = omega (arith, length-removed value i (omega (arith, h)))

typed-InText :
    (value : List ℕ) (caret : ℕ) (new : List ℕ)
    → caret ≤ length value
    → InText value (some (typed value caret new))
typed-InText value caret [] h = h
typed-InText value caret (r ∷ rs) h = omega (arith, length-inserted value caret (r ∷ rs) h)

delete-InText :
    (value : List ℕ) (caret : ℕ)
    → caret ≤ length value
    → caret
      ≤ length (
          called value
            (if ltb caret (length value) then set_input (removed value caret) else nothing))
delete-InText value caret h = elim (Bool-cases (ltb caret (length value))) [
  | inl inside ↦ ground (arith, inside, length-removed value caret (ground (arith, inside)))
  | inr past ↦ ground (arith, past)
]

edit-InText :
    (value : List ℕ) (caret : ℕ) (key : Key)
    → caret ≤ length value
    → InText value (edit value caret key)
edit-InText value caret left h = ground arith
edit-InText value caret right h = ground arith
edit-InText value caret home h = omega arith
edit-InText value caret end h = omega arith
edit-InText value caret backspace h = erased-InText value caret h
edit-InText value caret delete h = delete-InText value caret h
edit-InText value caret (runes new) h = typed-InText value caret new h
edit-InText value caret space h = omega (arith, length-inserted value caret (32 ∷ []) h)
edit-InText value caret enter h = h
edit-InText value caret up h = _
edit-InText value caret down h = _
edit-InText value caret page_up h = _
edit-InText value caret page_down h = _
edit-InText value caret other h = _

-- After any key, whatever caret was stored, the caret is not past the end of the text that the key makes.
pub handle_input_key-InText :
    (caret : Option ℕ) (value : List ℕ) (key : Key)
    → InText value (handle_input_key caret value key)
unfolding handle_input_key
handle_input_key-InText caret value key =
    edit-InText value (caret_in caret value) key (caret_in-le caret value)
