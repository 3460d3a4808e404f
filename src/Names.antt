-- ===== src/Names.antt =====
-- Lists of identifiers: membership as the code's `map[string]bool` tests it, lists without repetition,
-- and the counting argument for a list that is as long as one that holds it.
use a2ui_persistent_daemon.Base.{
  suc, ◌≤◌, ◌≡◌, refl, inl, inr, Bool, true, false, ◌||◌, List, [], ◌∷◌, ◌++◌, String, arith, same,
  same_iff, Bool-cases, length, if◌then◌else◌,
}

unfoldable pub mem : String → List String → Bool
mem x [] = false
mem x (y ∷ ys) = same y x || mem x ys

pub same_refl : (x : String) → same x x ≡ true
same_refl x = (same_iff x x).1 refl

pub same-eq : (x y : String) → same x y ≡ true → x ≡ y
same-eq x y = (same_iff x y).0

-- No name twice.
abbrev pub Distinct : List String → Type 0
Distinct [] = Unit {0}
Distinct (x ∷ xs) = (mem x xs ≡ false) × Distinct xs

-- Every name of the first list is in the second.
abbrev pub Within : List String → List String → Type 0
Within xs ys = (x : String) → mem x xs ≡ true → mem x ys ≡ true

-- The list without its first occurrence of a name.
erase : String → List String → List String
erase x [] = []
erase x (y ∷ ys) = if same y x then ys else y ∷ erase x ys

length-erase :
    (x : String) (ys : List String) → mem x ys ≡ true → suc (length (erase x ys)) ≡ length ys
unfolding mem erase
length-erase x [] h = ground arith
length-erase x (y ∷ ys) h = ground (arith, length-erase x ys)

mem-erase_ne :
    (x z : String) (ys : List String)
    → same x z ≡ false
    → mem z ys ≡ true
    → mem z (erase x ys) ≡ true
unfolding mem erase
mem-erase_ne x z [] n h = h
mem-erase_ne x z (y ∷ ys) n h =
    ground (arith, mem-erase_ne x z ys n, same_iff y x, same_iff y z, same_iff x z)

mem-ne : (x z : String) (xs : List String) → mem x xs ≡ false → mem z xs ≡ true → same x z ≡ false
unfolding mem
mem-ne x z xs h k = elim (Bool-cases (same x z)) [
  | inl e ↦ ground (arith, same_iff x z)
  | inr e ↦ e
]

pub length-Within : (xs ys : List String) → Distinct xs → Within xs ys → length xs ≤ length ys
length-Within [] ys d w = omega arith
length-Within (x ∷ xs) ys d w = omega (
  arith,
  length-erase x ys (w x (here x xs)),
  length-Within xs (erase x ys) d.1
      (λ z h. mem-erase_ne x z ys (mem-ne x z xs d.0 h) (w z (there x z xs h))),
)
  where
    here : (x : String) (xs : List String) → mem x (x ∷ xs) ≡ true
    here x xs = unfold mem in (ground (arith, same_refl x))

    there : (x z : String) (xs : List String) → mem z xs ≡ true → mem z (x ∷ xs) ≡ true
    there x z xs h = unfold mem in (ground arith)

-- A list without repetition inside one of the same length leaves nothing out.
pub Within-of_length :
    (xs ys : List String) → Distinct xs → Within xs ys → length xs ≡ length ys → Within ys xs
Within-of_length xs ys d w e z h = elim (Bool-cases (mem z xs)) [
  | inl k ↦ k
  | inr k ↦ absurd (omega (arith, length-Within (z ∷ xs) ys (k, d) (grow k)))
]
  where
    grow : mem z xs ≡ false → Within (z ∷ xs) ys
    grow k y m = elim (Bool-cases (same z y)) [
      | inl p ↦ ground (arith, same_iff z y)
      | inr p ↦ w y (unfold mem in (ground arith))
    ]

pub mem-append : (x : String) (xs ys : List String) → mem x (xs ++ ys) ≡ (mem x xs || mem x ys)
unfolding mem
mem-append x [] ys = refl
mem-append x (y ∷ xs) ys = ground (arith, mem-append x xs ys)
