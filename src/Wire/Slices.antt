-- ===== src/Wire/Slices.antt =====
-- wire/ndjson.go: `readLine`, and ipc/codec.go: `readRecord`. The two loops are the same but for what they keep of
-- a record that is too large. What `bufio.Reader.ReadSlice` returns is given.
use a2ui_persistent_daemon.Base.{
  ℕ, ◌+◌, ◌-◌, Bool, true, false, not, ◌&&◌, List, [], ◌∷◌, ◌++◌, length, take, ℤ, pos_part,
  below_one, ltb, ◌==◌, if◌then◌else◌,
}

abbrev pub Bytes : Type 0
Bytes = List ℕ

-- One result of `ReadSlice('\n')`: the buffer was full; the line is complete, with its newline; the stream has ended; or
-- it failed.
pub data Slice : Type 0 where
  full line last failed : Bytes → Slice

-- The buffer, and whether the record was too large.
abbrev pub Kept : Type 0
Kept = Bytes × Bool

pub data LineResult : Type 0 where
  record_read : Kept → LineResult
  at_end broken waits : LineResult

-- `part[:len(part)-1]`
abbrev pub drop_last : Bytes → Bytes
drop_last [] = []
drop_last (b ∷ []) = []
drop_last (b ∷ c ∷ bs) = b ∷ drop_last (c ∷ bs)

-- The same, if the last byte is a carriage return.
abbrev pub trim_cr : Bytes → Bytes
trim_cr [] = []
trim_cr (b ∷ []) = if b == 13 then [] else b ∷ []
trim_cr (b ∷ c ∷ bs) = b ∷ trim_cr (c ∷ bs)

abbrev pub unframed : Bytes → Bytes
unframed part = trim_cr (drop_last part)

abbrev pub finish : Bytes → Kept → LineResult
finish part (buf, too_large) =
    if length part == 0 && (length buf == 0 && not too_large)
    then at_end
    else record_read (buf, too_large)

-- `appendPart` of wire/ndjson.go
unfoldable pub append_line : ℕ → Kept → Bytes → Kept
append_line max (buf, too_large) part =
    if too_large
    then (buf, true)
    else if ltb (max - length buf) (length part)
    then (buf ++ take (max - length buf) part, true)
    else (buf ++ part, false)

-- `appendPart` of ipc/codec.go
unfoldable pub append_record : ℕ → Kept → Bytes → Kept
append_record max (buf, too_large) part =
    if too_large
    then (buf, true)
    else if ltb max (length buf + length part)
    then (buf ++ take (max + 1 - length buf) part, true)
    else (buf ++ part, false)

module _ (append_part : Kept → Bytes → Kept) where
  -- The loop, with the slices that it leaves.
  unfoldable pub read_slices : Kept → List Slice → LineResult × List Slice
  read_slices kept [] = (waits, [])
  read_slices kept (full part ∷ slices) = read_slices (append_part kept part) slices
  read_slices kept (line part ∷ slices) = (record_read (append_part kept (unframed part)), slices)
  read_slices kept (last part ∷ slices) = (finish part (append_part kept part), slices)
  read_slices kept (failed part ∷ slices) = (broken, slices)

-- `NewNDJSONReader` takes 1 for a limit below it.
abbrev pub line_limit : ℤ → ℕ
line_limit max = if below_one max then 1 else pos_part max

unfoldable pub read_line : ℤ → List Slice → LineResult × List Slice
unfolding read_slices append_line
read_line max slices = read_slices (append_line (line_limit max)) ([], false) slices

-- `NewReader` takes 16 MiB for a limit below 1.
abbrev pub record_limit : ℤ → ℕ
record_limit max = if below_one max then 16777216 else pos_part max

unfoldable pub read_record : ℤ → List Slice → LineResult × List Slice
unfolding read_slices append_record
read_record max slices = read_slices (append_record (record_limit max)) ([], false) slices
