-- ===== src/Terminal/Keys/Scroll.antt =====
-- adapter/bubbletea/key_router.go: a viewport stays in its range, and when it is pinned to the tail.
use a2ui_persistent_daemon.Base.{
  ℕ, ◌≤◌, ◌≡◌, refl, Bool, true, false, ◌&&◌, Option, none, some, ◌==◌, arith,
}
use a2ui_persistent_daemon.Terminal.Keys.Router.{
  Key, up, down, left, right, home, end, page_up, page_down, backspace, delete, space, enter, other,
  runes, clamp, target, moved, pinned_of, ViewportState, ViewportMetrics, handle_viewport_key,
}

-- A key that goes down, or to the end.
abbrev pub goes_down : Key → Bool
goes_down down = true
goes_down page_down = true
goes_down end = true
goes_down _ = false

-- A key that scrolls.
abbrev pub scrolls : Key → Bool
scrolls up = true
scrolls home = true
scrolls page_up = true
scrolls key = goes_down key

-- What a key leaves of a viewport's state.
abbrev pub Scrolled : ViewportMetrics → Bool → Key → Option ViewportState → Type 0
Scrolled m follow key none = scrolls key ≡ false
Scrolled m follow key (some local) =
    (scrolls key ≡ true)
    × (local.offset ≤ m.max_offset)
    × (local.pinned_to_tail ≡ (follow && (goes_down key && local.offset == m.max_offset)))

target-scrolls : (m : ViewportMetrics) (key : Key) → target m key ≡ none → scrolls key ≡ false
target-scrolls m up h = cc
target-scrolls m down h = cc
target-scrolls m home h = cc
target-scrolls m end h = cc
target-scrolls m page_up h = cc
target-scrolls m page_down h = cc
target-scrolls m _ h = refl

moved-Scrolled :
    (m : ViewportMetrics) (pinned follow : Bool) (key : Key) (t : ℕ)
    → target m key ≡ some t
    → Scrolled m follow key (some (moved m pinned follow key (clamp t m.max_offset)))
moved-Scrolled m pinned follow up t h = ground arith
moved-Scrolled m pinned follow down t h = ground arith
moved-Scrolled m pinned follow home t h = ground arith
moved-Scrolled m pinned follow end t h = ground arith
moved-Scrolled m pinned follow page_up t h = ground arith
moved-Scrolled m pinned follow page_down t h = ground arith
moved-Scrolled m pinned follow left t h = cc
moved-Scrolled m pinned follow right t h = cc
moved-Scrolled m pinned follow backspace t h = cc
moved-Scrolled m pinned follow delete t h = cc
moved-Scrolled m pinned follow space t h = cc
moved-Scrolled m pinned follow enter t h = cc
moved-Scrolled m pinned follow other t h = cc
moved-Scrolled m pinned follow (runes new) t h = cc

-- A key is consumed exactly if it scrolls: up, down, a page up or down, home or end. It then leaves the
-- offset in the range, and the viewport is pinned to the tail exactly if it follows the tail and the key went
-- down, or to the end, and reached it.
pub handle_viewport_key-Scrolled :
    (m : ViewportMetrics) (local : Option ViewportState) (follow : Bool) (key : Key)
    → Scrolled m follow key (handle_viewport_key m local follow key)
unfolding handle_viewport_key
handle_viewport_key-Scrolled m local follow key = split (target m key) refl
  where
    split :
        (o : Option ℕ)
        → target m key ≡ o
        → Scrolled m follow key (elim o as (λ x. Option ViewportState) [
          | none ↦ none
          | some t ↦ some (moved m (pinned_of local follow) follow key (clamp t m.max_offset))
        ])
    split none h = target-scrolls m key h
    split (some t) h = moved-Scrolled m (pinned_of local follow) follow key t h
