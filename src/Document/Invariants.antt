-- ===== src/Document/Invariants.antt =====
-- document/invariants.go: `validateInvariants`.
use a2ui_persistent_daemon.Base.{
  ℕ, zero, suc, ◌+◌, Bool, true, false, not, ◌&&◌, Option, none, some, List, [], ◌∷◌, ◌++◌, String,
  len, pos, negsuc, exceeds, same, ◌==◌, length, if◌then◌else◌, eqb_ℤ, leb_ℤ,
}
use a2ui_persistent_daemon.Names.{mem}
use a2ui_persistent_daemon.Maps.{Map, lookup, total}
use a2ui_persistent_daemon.Protocol.Types.{
  Error, new_error, fatal_error, Result, ok, err, ◌>>=◌, ◌<|>◌, is_valid, is_container, eqb_type,
  box,
}
use a2ui_persistent_daemon.Protocol.Limits.{Limits}
use a2ui_persistent_daemon.Protocol.Validate.{refuse_if}
use a2ui_persistent_daemon.Document.Types.{Node, Document}

abbrev pub fatal_if : Bool → String → Option Error
fatal_if true code = some (fatal_error code)
fatal_if false code = none

-- The maps `seen` (the path from the root) and `visited` of the walk.
pub record Marks : Type 0 where
  pub seen : List String
  pub visited : List String

abbrev pub is_nil {ℓ} : {A : Type ℓ} → List A → Bool
is_nil [] = true
is_nil (x ∷ xs) = false

-- The checks of one node, once it is found.
unfoldable pub check_node : Limits → String → Node → Option Error
check_node limits id n =
    fatal_if (not (same n.id id && is_valid n.type)) "document.invariant"
    <|> refuse_if (exceeds (length n.children) limits.max_children) "resource.children_limit"
    <|> refuse_if (not (is_nil n.children) && not (is_container n.type))
        "document.parent_not_container"

-- A child that is there and names its parent.
abbrev pub is_child_of : Map Node → String → String → Bool
is_child_of m id c = elim (lookup c m) [ none ↦ false | some n ↦ same n.parent id ]

-- The loop over the children, with the walk of one child as an argument.
unfoldable pub walk_children :
    Map Node → (String → Marks → Result Marks) → String → List String → Marks → Result Marks
walk_children m walk_child id [] s = ok s
walk_children m walk_child id (c ∷ cs) s =
    if is_child_of m id c
    then walk_child c s >>= walk_children m walk_child id cs
    else err (fatal_error "document.invariant")

-- `seen[id] = false`
unfoldable pub unmark : String → List String → List String
unmark id [] = []
unmark id (x ∷ xs) = let rest = unmark id xs in if same x id then rest else x ∷ rest

abbrev pub enter : String → Marks → Marks
enter id s = record s { seen = id ∷ s.seen; visited = s.visited ++ id ∷ [] }

abbrev pub leave : String → Marks → Result Marks
leave id s = ok (record s { seen = unmark id s.seen })

module _ (limits : Limits) (m : Map Node) where
  abbrev pub walk_node :
      (String → Marks → Result Marks) → String → Marks → Option Node → Result Marks
  walk_node walk_child id s none = err (fatal_error "document.invariant")
  walk_node walk_child id s (some n) = elim (check_node limits id n) [
    | none ↦ walk_children m walk_child id n.children (enter id s) >>= leave id
    | some e ↦ err e
  ]

  -- The first argument is how many levels may still be entered: `MaxDepth + 1 - depth`.
  unfoldable pub walk : ℕ → String → Marks → Result Marks
  unfolding walk_children check_node unmark
  walk zero id s = err (new_error "resource.depth_limit")
  walk (suc n) id s =
      if mem id s.seen
      then err (fatal_error "document.cycle")
      else if mem id s.visited
      then err (fatal_error "document.invariant")
      else walk_node (walk n) id s (lookup id m)

-- `depth > MaxDepth` fails at once where `MaxDepth` is negative.
abbrev pub levels : Limits → ℕ
levels limits = elim limits.max_depth [ pos n ↦ suc n | negsuc n ↦ 0 ]

unfoldable pub root_ok : Map Node → Bool
root_ok m = elim (lookup "root" m) [
  | none ↦ false
  | some r ↦ eqb_type r.type box && same r.id "root" && same r.parent ""
]

abbrev pub text_bytes : Map Node → ℕ
text_bytes = total (λ id n. len n.text)

abbrev count_explicit : String → Bool → ℕ
count_explicit key true = len key + 1
count_explicit key false = 0

abbrev pub explicit_bytes : Option (Map Bool) → ℕ
explicit_bytes none = 0
explicit_bytes (some m) = total count_explicit m

abbrev pub sum_len : List String → ℕ
sum_len [] = 0
sum_len (c ∷ cs) = len c + sum_len cs

abbrev pub node_bytes : String → Node → ℕ
node_bytes id n =
    len id
    + len n.parent
    + len n.text
    + sum_len n.children
    + total (λ key value. len key + len value) n.props
    + explicit_bytes n.explicit_props

unfoldable pub check_visited : Map Node → Result Marks → Option Error
check_visited m (err e) = some e
check_visited m (ok s) = fatal_if (not (length s.visited == length m)) "document.invariant"

unfoldable pub check_sizes : Document → Limits → Option Error
check_sizes d limits =
    refuse_if (exceeds (total node_bytes d.nodes) limits.max_document_bytes)
      "resource.document_bytes_limit"
    <|> fatal_if (not (eqb_ℤ (pos (text_bytes d.nodes)) d.total_text_bytes)) "document.invariant"
    <|> refuse_if (not (leb_ℤ d.total_text_bytes limits.max_total_text_bytes))
        "resource.text_too_large"

unfoldable pub validate_invariants : Document → Limits → Option Error
unfolding root_ok walk check_visited check_sizes
validate_invariants d limits =
    fatal_if (not (root_ok d.nodes)) "document.invariant"
    <|> refuse_if (exceeds (length d.nodes) limits.max_nodes) "resource.node_limit"
    <|> check_visited d.nodes
        (walk limits d.nodes (levels limits) "root" (record { seen = []; visited = [] }))
    <|> check_sizes d limits
