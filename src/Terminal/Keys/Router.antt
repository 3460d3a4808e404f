-- ===== src/Terminal/Keys/Router.antt =====
-- adapter/bubbletea/key_router.go and interaction_state.go. A text is its list of code points; the call of the controller that a key
-- makes, whose error is not looked at, is a part of the result.
use a2ui_persistent_daemon.Base.{
  ℕ, zero, suc, ◌+◌, ◌-◌, ◌%◌, Bool, true, false, not, ◌&&◌, ◌||◌, Option, none, some, List, [],
  ◌∷◌, ◌++◌, String, length, take, drop, get_elem?, ltb, ◌==◌, if◌then◌else◌,
}
use a2ui_persistent_daemon.Runtime.Selection.Rows.{index_of}

-- The kinds of a key message that the router tells apart.
pub data Key : Type 0 where
  up down left right home end page_up page_down backspace delete space enter other : Key
  runes : List ℕ → Key

pub data InputCall : Type 0 where
  nothing submit : InputCall
  set_input : List ℕ → InputCall

-- `clampInt` from 0, for a number that is not negative
abbrev pub clamp : ℕ → ℕ → ℕ
clamp v hi = if ltb hi v then hi else v

-- The caret that is stored, or the end of the text.
abbrev pub caret_in : Option ℕ → List ℕ → ℕ
caret_in none value = length value
caret_in (some caret) value = clamp caret (length value)

abbrev pub inserted : List ℕ → ℕ → List ℕ → List ℕ
inserted value caret new = take caret value ++ (new ++ drop caret value)

abbrev pub removed : List ℕ → ℕ → List ℕ
removed value i = take i value ++ drop (suc i) value

abbrev pub erased : List ℕ → ℕ → ℕ × InputCall
erased value zero = (0, nothing)
erased value (suc i) = (i, set_input (removed value i))

abbrev pub typed : List ℕ → ℕ → List ℕ → ℕ × InputCall
typed value caret [] = (caret, nothing)
typed value caret (r ∷ rs) = (caret + length (r ∷ rs), set_input (inserted value caret (r ∷ rs)))

abbrev pub edit : List ℕ → ℕ → Key → Option (ℕ × InputCall)
edit value caret left = some (if ltb 0 caret then caret - 1 else caret, nothing)
edit value caret right = some (if ltb caret (length value) then caret + 1 else caret, nothing)
edit value caret home = some (0, nothing)
edit value caret end = some (length value, nothing)
edit value caret backspace = some (erased value caret)
edit value caret delete =
    some (caret, if ltb caret (length value) then set_input (removed value caret) else nothing)
edit value caret (runes new) = some (typed value caret new)
edit value caret space = some (caret + 1, set_input (inserted value caret (32 ∷ [])))
edit value caret enter = some (caret, submit)
edit value caret _ = none

-- `handleInputKey`: the caret that is stored and the call that is made, if the key is consumed.
unfoldable pub handle_input_key : Option ℕ → List ℕ → Key → Option (ℕ × InputCall)
handle_input_key caret value key = edit value (caret_in caret value) key

pub record ViewportState : Type 0 where
  pub offset : ℕ
  pub pinned_to_tail : Bool

-- The fields of `ViewportMetrics` that the keys read.
pub record ViewportMetrics : Type 0 where
  pub visible_lines : ℕ
  pub offset : ℕ
  pub max_offset : ℕ

abbrev pub page : ViewportMetrics → ℕ
page m = if ltb (m.visible_lines - 1) 1 then 1 else m.visible_lines - 1

-- The target of a key, before it is brought into range; below 0 it is 0.
abbrev pub target : ViewportMetrics → Key → Option ℕ
target m up = some (m.offset - 1)
target m down = some (m.offset + 1)
target m page_up = some (m.offset - page m)
target m page_down = some (m.offset + page m)
target m home = some 0
target m end = some m.max_offset
target m _ = none

abbrev is_end : Key → Bool
is_end end = true
is_end _ = false

abbrev is_down : Key → Bool
is_down down = true
is_down page_down = true
is_down _ = false

abbrev is_upward : Key → Bool
is_upward home = true
is_upward up = true
is_upward page_up = true
is_upward _ = false

abbrev pub moved : ViewportMetrics → Bool → Bool → Key → ℕ → ViewportState
moved m pinned follow key target = record {
  offset = target;
  pinned_to_tail =
      if not follow
      then false
      else if is_end key || (is_down key && target == m.max_offset)
      then true
      else if ltb target m.max_offset || is_upward key
      then false
      else pinned;
}

abbrev pub pinned_of : Option ViewportState → Bool → Bool
pinned_of none follow = follow
pinned_of (some local) follow = local.pinned_to_tail

-- `handleViewportKey` on a viewport that was rendered: the state that is stored, if the key is consumed.
unfoldable pub handle_viewport_key :
    ViewportMetrics → Option ViewportState → Bool → Key → Option ViewportState
handle_viewport_key m local follow key = elim (target m key) [
  | none ↦ none
  | some t ↦ some (moved m (pinned_of local follow) follow key (clamp t m.max_offset))
]

-- The id to which `focusNext` moves the focus.
abbrev pub next_index : Option ℕ → ℕ → ℕ
next_index none n = 0 % n
next_index (some i) n = (i + 1) % n

abbrev pub prev_index : Option ℕ → ℕ → ℕ
prev_index none n = n - 1
prev_index (some zero) n = n - 1
prev_index (some (suc i)) n = i

unfoldable pub focus_next : List String → String → Option String
unfolding index_of
focus_next ids current = get_elem? ids (next_index (index_of current 0 ids) (length ids))

unfoldable pub focus_prev : List String → String → Option String
unfolding index_of
focus_prev ids current = get_elem? ids (prev_index (index_of current 0 ids) (length ids))
