-- ===== src/Runtime/Selection/Bounds.antt =====
-- runtime/table_selection.go: which tables have a selection after an operation, and what it names.
use a2ui_persistent_daemon.Base.{
  ℕ, suc, ◌+◌, ◌-◌, ◌≤◌, ◌<◌, ◌≡◌, refl, sym, ◌∙◌, ◌≢◌, true, false, not, ◌&&◌, Option, none, some,
  List, [], ◌∷◌, String, ℤ, pos, negsuc, same, ◌==◌, arith, length, if◌then◌else◌, Option-cases,
  Bool-cases, inl, inr, same_iff,
}
use a2ui_persistent_daemon.Names.{mem}
use a2ui_persistent_daemon.Maps.{
  Map, lookup, delete, has, keys, UniqueKeys, lookup-insert, lookup-delete, lookup_absent,
}
use a2ui_persistent_daemon.Protocol.Json.{Json}
use a2ui_persistent_daemon.Document.Types.{Node}
use a2ui_persistent_daemon.Runtime.State.{TableSelection}
use a2ui_persistent_daemon.Runtime.Selection.Rows.{
  get_or_empty, clamp_index, index_of, table_rows, table_row_ids, table_selection_at, is_selectable,
  kept_row, reconcile_selection, drop_stale, refresh, put_selection, reconcile_table_selections,
}

clamp_index-lt : (rows : ℕ) (i : ℤ) → rows ≢ 0 → clamp_index rows i < rows
unfolding clamp_index
clamp_index-lt rows (negsuc i) h = omega arith
clamp_index-lt rows (pos i) h = ground arith

-- A name that is found stands at the index that is returned.
index_of-lem :
    (x : String) (k i : ℕ) (xs : List String)
    → index_of x k xs ≡ some i
    → (k ≤ i) × (i < k + length xs) × (get_or_empty xs (i - k) ≡ x)
unfolding index_of
index_of-lem x k i [] h = cc
index_of-lem x k i (y ∷ ys) h = elim (Bool-cases (same y x)) [
  | inl e ↦
      let here : i ≡ k = ground arith in
      let start : i - k ≡ 0 = omega (arith, here) in
      (omega (arith, here), omega (arith, here), rw (start, get_or_empty) ((same_iff y x).0 e))
  | inr e ↦
      let (low, high, there) = index_of-lem x (suc k) i ys (ground arith) in
      let next : i - k ≡ suc (i - suc k) = omega (arith, low) in
      (omega (arith, low), omega (arith, high), rw (next, get_or_empty) there)
]

index_of-mem :
    (x : String) (k : ℕ) (xs : List String) → mem x xs ≡ true → (i : ℕ) × (index_of x k xs ≡ some i)
unfolding index_of mem
index_of-mem x k [] h = cc
index_of-mem x k (y ∷ ys) h = elim (Bool-cases (same y x)) [
  | inl e ↦ (k, rw e)
  | inr e ↦ let (i, f) = index_of-mem x (suc k) ys (ground arith) in (i, rw e f)
]

nonempty :
    (rows : List (List String)) (ids : List String) (x : String)
    → length ids ≡ length rows
    → mem x ids ≡ true
    → (length rows == 0) ≡ false
unfolding mem
nonempty rows [] x e h = cc
nonempty rows (y ∷ ys) x e h = ground arith

module _ (j : Json) where
  -- The selection names a row of the table, by its index and, where the table has row ids, by its id.
  pub record Selects (n : Node) (sel : TableSelection) : Type 0 where
    pub row : ℕ
    pub at : sel.index ≡ pos row
    pub in_range : row < length (table_rows j n)
    pub by_id :
        length (table_row_ids j n) ≡ length (table_rows j n)
        → sel.row_id ≡ get_or_empty (table_row_ids j n) row

  table_selection_at-Selects :
      (n : Node) (i : ℤ) (sel : TableSelection)
      → table_selection_at j n i ≡ some sel
      → Selects n sel
  unfolding table_selection_at
  table_selection_at-Selects n i sel h = record {
    row = clamp_index (length (table_rows j n)) i;
    at = ground arith;
    in_range = clamp_index-lt (length (table_rows j n)) i (λ e. ground arith);
    by_id = λ e. ground arith;
  }

  kept_row-Selects :
      (n : Node) (current sel : TableSelection) → kept_row j n current ≡ some sel → Selects n sel
  unfolding kept_row
  kept_row-Selects n current sel h =
      elim (Option-cases (index_of current.row_id 0 (table_row_ids j n))) [
        | inl e ↦ ground arith
        | inr (i, e) ↦
            let (low, high, there) = index_of-lem current.row_id 0 i (table_row_ids j n) e in
            let start : i - 0 ≡ i = omega arith in
            let same_length : length (table_row_ids j n) ≡ length (table_rows j n) = ground arith in
            let named : sel.row_id ≡ current.row_id = ground arith in
            record {
              row = i;
              at = ground arith;
              in_range = omega (arith, high, same_length);
              by_id = λ q. named ∙ sym (rw start at there);
            }
      ]

  reconcile_selection-Selects :
      (n : Node) (current : Option TableSelection) (sel : TableSelection)
      → reconcile_selection j n current ≡ some sel
      → Selects n sel
  unfolding reconcile_selection
  reconcile_selection-Selects n none sel h = table_selection_at-Selects n (pos 0) sel (ground arith)
  reconcile_selection-Selects n (some current) sel h = elim (Option-cases (kept_row j n current)) [
    | inl e ↦ table_selection_at-Selects n current.index sel (ground arith)
    | inr (kept, e) ↦ kept_row-Selects n current sel (ground arith)
  ]

  drop_stale-lookup :
      (nodes : Map Node) (id : String) (l out : Map TableSelection)
      → lookup id (drop_stale j nodes l out) ≡ (
          if has id l
          then elim (lookup id nodes) [
            | none ↦ none
            | some n ↦
                if is_selectable j n && not (length (table_rows j n) == 0)
                then lookup id out
                else none
          ]
          else lookup id out)
  unfolding drop_stale keys mem
  drop_stale-lookup nodes id [] out = refl
  drop_stale-lookup nodes id ((k, sel) ∷ l) out = ground (
    arith,
    drop_stale-lookup nodes id l out,
    drop_stale-lookup nodes id l (delete k out),
    lookup-delete k id out,
    same_iff k id,
  )

  put_selection-lookup :
      (k id : String) (o : Option TableSelection) (out : Map TableSelection)
      → lookup id (put_selection j k o out) ≡ (if same k id then o else lookup id out)
  put_selection-lookup k id none out = lookup-delete k id out
  put_selection-lookup k id (some sel) out = lookup-insert k id sel out

  refresh-lookup :
      (m : Map Node) (id : String) (out : Map TableSelection)
      → UniqueKeys m
      → lookup id (refresh j m out) ≡ (elim (lookup id m) [
        | none ↦ lookup id out
        | some n ↦
            if is_selectable j n then reconcile_selection j n (lookup id out) else lookup id out
      ])
  unfolding refresh keys mem lookup
  refresh-lookup [] id out u = refl
  refresh-lookup ((k, n) ∷ m) id out u = ground (
    arith,
    refresh-lookup m id out,
    refresh-lookup m id (put_selection j k (reconcile_selection j n (lookup k out)) out),
    put_selection-lookup k id (reconcile_selection j n (lookup k out)) out,
    same_iff k id,
    lookup_absent k m,
  )

  kept_row_found :
      (n : Node) (current : TableSelection) (i : ℕ)
      → current.row_id ≢ ""
      → length (table_row_ids j n) ≡ length (table_rows j n)
      → index_of current.row_id 0 (table_row_ids j n) ≡ some i
      → kept_row j n current ≡ some (record { index = pos i; row_id = current.row_id })
  unfolding kept_row
  kept_row_found n current i named ids found = ground (arith, same_iff current.row_id "")

  -- What the selection of one table comes to.
  reconcile-lookup :
      (nodes : Map Node) (sels : Map TableSelection) (id : String)
      → UniqueKeys nodes
      → lookup id (reconcile_table_selections j nodes sels) ≡ (elim (lookup id nodes) [
        | none ↦ none
        | some n ↦ if is_selectable j n then reconcile_selection j n (lookup id sels) else none
      ])
  unfolding reconcile_table_selections reconcile_selection
  reconcile-lookup nodes sels id u = ground (
    arith,
    refresh-lookup nodes id (drop_stale j nodes sels sels) u,
    drop_stale-lookup nodes id sels sels,
    lookup_absent id sels,
  )

  -- After an operation a node has a selection only if it is a selectable table of the document, and the
  -- selection names one of its rows: an index in range, with the row id of that row where the table has
  -- an id for each row.
  pub reconcile_table_selections-Selects :
      (nodes : Map Node) (sels : Map TableSelection) (id : String) (sel : TableSelection)
      → UniqueKeys nodes
      → lookup id (reconcile_table_selections j nodes sels) ≡ some sel
      → (n : Node) × (lookup id nodes ≡ some n) × (is_selectable j n ≡ true) × Selects n sel
  reconcile_table_selections-Selects nodes sels id sel u h = elim (Option-cases (lookup id nodes)) [
    | inl e ↦ ground (arith, reconcile-lookup nodes sels id u)
    | inr (n, e) ↦ (
      n,
      e,
      ground (arith, reconcile-lookup nodes sels id u),
      reconcile_selection-Selects n (lookup id sels) sel
          (ground (arith, reconcile-lookup nodes sels id u)),
    )
  ]

  -- The selection follows its row: a selection that had a row id names the row with that id again, if the
  -- table is still selectable, has an id for each row, and has that id among them.
  pub reconcile_table_selections_follows :
      (nodes : Map Node) (sels : Map TableSelection) (id : String) (n : Node)
      (current : TableSelection)
      → UniqueKeys nodes
      → lookup id nodes ≡ some n
      → is_selectable j n ≡ true
      → lookup id sels ≡ some current
      → current.row_id ≢ ""
      → length (table_row_ids j n) ≡ length (table_rows j n)
      → mem current.row_id (table_row_ids j n) ≡ true
      → (sel : TableSelection) × (lookup id (reconcile_table_selections j nodes sels) ≡ some sel)
        × (sel.row_id ≡ current.row_id)
        × Selects n sel
  unfolding reconcile_selection
  reconcile_table_selections_follows nodes sels id n current u e s c named ids listed =
      let (i, found) = index_of-mem current.row_id 0 (table_row_ids j n) listed in
      let sel : TableSelection = record { index = pos i; row_id = current.row_id } in
      let kept : kept_row j n current ≡ some sel = kept_row_found n current i named ids found in
      (
        sel,
        ground (
          arith,
          reconcile-lookup nodes sels id u,
          nonempty (table_rows j n) (table_row_ids j n) current.row_id ids listed,
        ),
        refl,
        kept_row-Selects n current sel kept,
      )
