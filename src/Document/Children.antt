-- ===== src/Document/Children.antt =====
-- document/reducer.go: `insertChild` and `removeChild`, and how they undo one another.
use a2ui_persistent_daemon.Base.{
  ℕ, zero, suc, ◌≤◌, ◌≡◌, refl, false, ◌||◌, ◌<◌, ◌++◌, ◌⊎◌, inl, inr, ap, Bool-cases, Option, none,
  some, List, [], ◌∷◌, String, arith, ℤ, pos, negsuc, same, same_iff, length, ltb, insert_at,
  length-insert_at, get_elem?, get_elem?-insert_at, if◌then◌else◌,
}
use a2ui_persistent_daemon.Names.{mem, same_refl}

unfoldable pub remove_child : List String → String → List String
remove_child [] id = []
remove_child (c ∷ cs) id = let rest = remove_child cs id in if same c id then rest else c ∷ rest

-- Where the new child goes: an index outside the list means its end.
unfoldable pub child_index : List String → Option ℤ → ℕ
child_index cs none = length cs
child_index cs (some (pos i)) = if ltb i (length cs) then i else length cs
child_index cs (some (negsuc i)) = length cs

unfoldable pub insert_child : List String → String → Option ℤ → List String
unfolding child_index
insert_child cs id index = insert_at (child_index cs index) id cs

remove_child_absent : (cs : List String) (id : String) → mem id cs ≡ false → remove_child cs id ≡ cs
unfolding mem remove_child
remove_child_absent [] id h = refl
remove_child_absent (c ∷ cs) id h = ground (arith, remove_child_absent cs id)

remove_child-insert_at :
    (i : ℕ) (cs : List String) (id : String)
    → mem id cs ≡ false
    → remove_child (insert_at i id cs) id ≡ cs
unfolding mem remove_child
remove_child-insert_at zero cs id h = ground (arith, same_refl id, remove_child_absent cs id)
remove_child-insert_at (suc i) [] id h = ground (arith, same_refl id)
remove_child-insert_at (suc i) (c ∷ cs) id h = ground (arith, remove_child-insert_at i cs id)

pub mem-insert_at :
    (i : ℕ) (x id : String) (cs : List String) → mem x (insert_at i id cs) ≡ (same id x || mem x cs)
unfolding mem
mem-insert_at zero x id cs = refl
mem-insert_at (suc i) x id [] = refl
mem-insert_at (suc i) x id (c ∷ cs) = ground (arith, mem-insert_at i x id cs)

pub mem-remove_child :
    (x id : String) (cs : List String)
    → mem x (remove_child cs id) ≡ (if same id x then false else mem x cs)
unfolding mem remove_child
mem-remove_child x id [] = ground arith
mem-remove_child x id (c ∷ cs) =
    ground (arith, mem-remove_child x id cs, same_iff id x, same_iff c id, same_iff c x)

insert_at-end : (cs : List String) (id : String) → insert_at (length cs) id cs ≡ cs ++ id ∷ []
insert_at-end [] id = refl
insert_at-end (c ∷ cs) id = ap (λ xs. c ∷ xs) (insert_at-end cs id)

-- The child stands at an index of the list, and for any other index at the end.
abbrev pub Placed : List String → String → Option ℤ → List String → Type 0
Placed cs id (some (pos i)) placed =
    ((i < length cs) × (get_elem? placed i ≡ some id))
    ⊎ ((length cs ≤ i) × (placed ≡ cs ++ id ∷ []))
Placed cs id _ placed = placed ≡ cs ++ id ∷ []

insert_child-Placed :
    (cs : List String) (id : String) (index : Option ℤ)
    → Placed cs id index (insert_child cs id index)
unfolding insert_child child_index
insert_child-Placed cs id none = insert_at-end cs id
insert_child-Placed cs id (some (negsuc i)) = insert_at-end cs id
insert_child-Placed cs id (some (pos i)) = elim (Bool-cases (ltb i (length cs))) [
  | inl within ↦ inl (ground arith, ground (arith, get_elem?-insert_at i id cs (ground arith)))
  | inr beyond ↦ inr (ground arith, ground (arith, insert_at-end cs id))
]

-- A child that is not in the list is inserted at the index that was asked for, or at the end if that index is
-- none of the list's; every other child keeps its place among the rest, so that removing the new one gives the
-- old list back.
pub insert_child-lem :
    (cs : List String) (id : String) (index : Option ℤ)
    → mem id cs ≡ false
    → Placed cs id index (insert_child cs id index)
      × (length (insert_child cs id index) ≡ suc (length cs))
      × (remove_child (insert_child cs id index) id ≡ cs)
unfolding insert_child
insert_child-lem cs id index h = (
  insert_child-Placed cs id index,
  length-insert_at (child_index cs index) id cs,
  remove_child-insert_at (child_index cs index) cs id h,
)
