-- ===== src/Maps.antt =====
-- Go's `map[string]V` as an association list; the order of the list stands for one of the iteration
-- orders that Go may choose.
use a2ui_persistent_daemon.Base.{
  ℕ, suc, ◌+◌, ◌≤◌, ◌≡◌, refl, ap, Bool, true, false, ◌||◌, ◌&&◌, Option, none, some, List, [], ◌∷◌,
  String, arith, same, same_iff, Bool-cases, inl, inr, length, ◌==◌, if◌then◌else◌,
}
use a2ui_persistent_daemon.Names.{mem, Distinct}

abbrev pub Map {ℓ} : Type ℓ → Type ℓ
Map V = List (String × V)

module _ {ℓ} {V : Type ℓ} where
  unfoldable pub lookup : String → Map V → Option V
  lookup k [] = none
  lookup k ((j, v) ∷ m) = if same j k then some v else lookup k m

  unfoldable pub insert : String → V → Map V → Map V
  insert k v [] = (k, v) ∷ []
  insert k v ((j, w) ∷ m) = if same j k then (j, v) ∷ m else (j, w) ∷ insert k v m

  unfoldable pub delete : String → Map V → Map V
  delete k [] = []
  delete k ((j, v) ∷ m) = if same j k then delete k m else (j, v) ∷ delete k m

  unfoldable pub keys : Map V → List String
  keys [] = []
  keys ((k, v) ∷ m) = k ∷ keys m

  abbrev pub has : String → Map V → Bool
  has k m = mem k (keys m)

  -- The sum of a measure over the entries.
  unfoldable pub total : (String → V → ℕ) → Map V → ℕ
  total f [] = 0
  total f ((k, v) ∷ m) = f k v + total f m

  abbrev pub UniqueKeys : Map V → Type 0
  UniqueKeys m = Distinct (keys m)

  pub length-keys : (m : Map V) → length (keys m) ≡ length m
  unfolding keys
  length-keys [] = refl
  length-keys ((k, v) ∷ m) = ap suc (length-keys m)

  pub lookup-insert :
      (k j : String) (v : V) (m : Map V)
      → lookup j (insert k v m) ≡ (if same k j then some v else lookup j m)
  unfolding lookup insert
  lookup-insert k j v [] = refl
  lookup-insert k j v ((i, w) ∷ m) =
      ground (arith, same_iff k j, same_iff i k, same_iff i j, lookup-insert k j v m)

  pub lookup-delete :
      (k j : String) (m : Map V) → lookup j (delete k m) ≡ (if same k j then none else lookup j m)
  unfolding lookup delete
  lookup-delete k j [] = ground arith
  lookup-delete k j ((i, w) ∷ m) =
      ground (arith, same_iff k j, same_iff i k, same_iff i j, lookup-delete k j m)

  pub has_of_lookup : (k : String) (m : Map V) (v : V) → lookup k m ≡ some v → has k m ≡ true
  unfolding lookup keys mem
  has_of_lookup k [] v h = ground arith
  has_of_lookup k ((j, w) ∷ m) v h = ground (arith, has_of_lookup k m v)

  pub lookup_absent : (k : String) (m : Map V) → has k m ≡ false → lookup k m ≡ none
  unfolding lookup keys mem
  lookup_absent k [] h = refl
  lookup_absent k ((j, w) ∷ m) h = ground (arith, lookup_absent k m)

  pub lookup_of_has : (k : String) (m : Map V) → has k m ≡ true → (v : V) × (lookup k m ≡ some v)
  unfolding lookup keys mem
  lookup_of_has k [] h = ground arith
  lookup_of_has k ((j, w) ∷ m) h = elim (Bool-cases (same j k)) [
    | inl e ↦ (w, rw e)
    | inr e ↦ rw e (lookup_of_has k m (rw e at h))
  ]

  pub has-insert : (k j : String) (v : V) (m : Map V) → has j (insert k v m) ≡ (same k j || has j m)
  unfolding insert keys mem
  has-insert k j v [] = refl
  has-insert k j v ((i, w) ∷ m) =
      ground (arith, same_iff k j, same_iff i k, same_iff i j, has-insert k j v m)

  pub has-delete-false : (k j : String) (m : Map V) → has j m ≡ false → has j (delete k m) ≡ false
  unfolding delete keys mem
  has-delete-false k j [] h = h
  has-delete-false k j ((i, w) ∷ m) h = ground (arith, has-delete-false k j m)

  pub insert-UniqueKeys :
      (k : String) (v : V) (m : Map V) → UniqueKeys m → UniqueKeys (insert k v m)
  unfolding insert keys mem
  insert-UniqueKeys k v [] u = (refl, tt)
  insert-UniqueKeys k v ((i, w) ∷ m) u =
      ground (arith, insert-UniqueKeys k v m, has-insert k i v m, same_iff i k, same_iff k i)

  pub delete-UniqueKeys : (k : String) (m : Map V) → UniqueKeys m → UniqueKeys (delete k m)
  unfolding delete keys mem
  delete-UniqueKeys k [] u = tt
  delete-UniqueKeys k ((i, w) ∷ m) u = ground (arith, delete-UniqueKeys k m, has-delete-false k i m)

  pub delete_absent : (k : String) (m : Map V) → has k m ≡ false → delete k m ≡ m
  unfolding delete keys mem
  delete_absent k [] h = refl
  delete_absent k ((i, w) ∷ m) h = ground (arith, delete_absent k m)

  pub total-insert_old :
      (f : String → V → ℕ) (k : String) (v w : V) (m : Map V)
      → lookup k m ≡ some w
      → total f (insert k v m) + f k w ≡ total f m + f k v
  unfolding total insert lookup
  total-insert_old f k v w [] h = ground arith
  total-insert_old f k v w ((i, x) ∷ m) h = ground (arith, same_iff i k, total-insert_old f k v w m)

  pub total-insert_new :
      (f : String → V → ℕ) (k : String) (v : V) (m : Map V)
      → lookup k m ≡ none
      → total f (insert k v m) ≡ total f m + f k v
  unfolding total insert lookup
  total-insert_new f k v [] h = omega arith
  total-insert_new f k v ((i, x) ∷ m) h = ground (arith, same_iff i k, total-insert_new f k v m)

  pub total-delete :
      (f : String → V → ℕ) (k : String) (w : V) (m : Map V)
      → UniqueKeys m
      → lookup k m ≡ some w
      → total f (delete k m) + f k w ≡ total f m
  unfolding total delete lookup keys
  total-delete f k w [] u h = ground arith
  total-delete f k w ((i, x) ∷ m) u h =
      ground (arith, same_iff i k, total-delete f k w m u.1, delete_absent k m)

  pub length-insert :
      (k : String) (v : V) (m : Map V)
      → length (insert k v m) ≡ (if has k m then length m else suc (length m))
  unfolding insert keys mem
  length-insert k v [] = refl
  length-insert k v ((i, w) ∷ m) = ground (arith, length-insert k v m)

  pub length-delete-le : (k : String) (m : Map V) → length (delete k m) ≤ length m
  unfolding delete
  length-delete-le k [] = omega arith
  length-delete-le k ((i, w) ∷ m) = ground (arith, length-delete-le k m)

-- `reflect.DeepEqual` on maps: as many entries, and each of the first in the second.
module _ {ℓ} {V : Type ℓ} (eqb : V → V → Bool) where
  unfoldable pub subset_eqb : Map V → Map V → Bool
  subset_eqb [] m = true
  subset_eqb ((k, v) ∷ l) m =
      elim (lookup k m) [ none ↦ false | some w ↦ eqb v w ] && subset_eqb l m

  unfoldable pub map_eqb : Map V → Map V → Bool
  unfolding subset_eqb
  map_eqb l m = length l == length m && subset_eqb l m
