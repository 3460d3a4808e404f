-- ===== src/Wire/Lines.antt =====
-- wire/ndjson.go and ipc/codec.go: a record is what its slices hold together, whatever the size of the buffer.
use a2ui_persistent_daemon.Base.{
  ℕ, zero, suc, ◌+◌, ◌-◌, ◌≤◌, ◌<◌, ◌≡◌, refl, sym, ap, subst, ◌∙◌, true, false, List, [], ◌∷◌,
  ◌++◌, map, length, length-append, take, append-nil, append_assoc, ℤ, pos, negsuc, ltb, ◌==◌,
  arith, if◌then◌else◌,
}
use a2ui_persistent_daemon.Wire.Slices.{
  Bytes, Slice, full, line, last, Kept, drop_last, trim_cr, record_read, at_end, unframed, finish,
  append_line, append_record, read_slices, line_limit, read_line, record_limit, read_record,
}
use a2ui_persistent_daemon.Wire.Held.{
  Held, take_none, take_all, take-append, append_line-Held, append_record-Held,
}

abbrev pub joined : List Bytes → Bytes
joined [] = []
joined (part ∷ parts) = part ++ joined parts

-- What a reader keeps of a record with this content: its first bytes, and whether there are too many.
abbrev pub kept_of : ℕ → ℕ → Bytes → Kept
kept_of k max content = (take k content, ltb max (length content))

Held-kept_of :
    (k max : ℕ) (content : Bytes) (s : Kept) → Held k max content s → s ≡ kept_of k max content
Held-kept_of k max content (buf, too_large) (e, t) = λ i. (e i, t i)

start : (k max : ℕ) → Held k max [] ([], false)
start k max = (sym (take_none k), ground arith)

finish-kept_of :
    (k max : ℕ) (part content : Bytes)
    → 0 < k
    → length part ≤ length content
    → finish part (kept_of k max content)
      ≡ (if length content == 0 then at_end else record_read (kept_of k max content))
finish-kept_of zero max part content h short = absurd (omega (arith, h))
finish-kept_of (suc k) max part [] h short = ground arith
finish-kept_of (suc k) max part (b ∷ bs) h short = ground arith

module _ (append_part : Kept → Bytes → Kept) (k max : ℕ)
    (law : (content part : Bytes) (s : Kept)
      → Held k max content s
      → Held k max (content ++ part) (append_part s part)) where
  read_parts :
      (parts : List Bytes) (content : Bytes) (s : Kept) (slices : List Slice)
      → Held k max content s
      → (s' : Kept) × Held k max (content ++ joined parts) s'
        × (read_slices append_part s (map full parts ++ slices) ≡ read_slices append_part s' slices)
  unfolding read_slices
  read_parts [] content s slices h =
      (s, subst (λ c. Held k max c s) (sym (append-nil content)) h, refl)
  read_parts (part ∷ parts) content s slices h =
      let (s', held, same) =
        read_parts parts (content ++ part) (append_part s part) slices (law content part s h) in
      (s', subst (λ c. Held k max c s') (append_assoc content part (joined parts)) held, same)

  read_slices-line :
      (parts : List Bytes) (part : Bytes) (slices : List Slice)
      → read_slices append_part ([], false) (map full parts ++ line part ∷ slices)
        ≡ (record_read (kept_of k max (joined parts ++ unframed part)), slices)
  unfolding read_slices
  read_slices-line parts part slices =
      let (s, held, same) = read_parts parts [] ([], false) (line part ∷ slices) (start k max) in
      same
      ∙ ap (λ r. (record_read r, slices))
          (Held-kept_of k max _ _ (law (joined parts) (unframed part) s held))

  -- At the end of the stream. A last record of nothing is none.
  read_slices-last :
      (parts : List Bytes) (part : Bytes) (slices : List Slice)
      → 0 < k
      → read_slices append_part ([], false) (map full parts ++ last part ∷ slices) ≡ (
        (if length (joined parts ++ part) == 0
            then at_end
            else record_read (kept_of k max (joined parts ++ part))),
        slices,
      )
  unfolding read_slices
  read_slices-last parts part slices h =
      let (s, held, same) = read_parts parts [] ([], false) (last part ∷ slices) (start k max) in
      same
      ∙ ap (λ r. (finish part r, slices)) (Held-kept_of k max _ _ (law (joined parts) part s held))
      ∙ ap (λ r. (r, slices))
          (finish-kept_of k max part (joined parts ++ part) h
            (ground (arith, length-append (joined parts) part)))

-- However the buffer cuts a line of the agent's into slices, and whatever follows it: what is read of it are the
-- bytes of the slices together, up to the limit, with the frame taken off the last slice; and it is too large
-- exactly if they are more than the limit.
pub read_line-content :
    (max : ℤ) (parts : List Bytes) (part : Bytes) (slices : List Slice)
    → (read_line max (map full parts ++ line part ∷ slices) ≡ (
      record_read (kept_of (line_limit max) (line_limit max) (joined parts ++ unframed part)),
      slices,
    ))
      × (read_line max (map full parts ++ last part ∷ slices) ≡ (
        (if length (joined parts ++ part) == 0
            then at_end
            else record_read (kept_of (line_limit max) (line_limit max) (joined parts ++ part))),
        slices,
      ))
unfolding read_line
read_line-content max parts part slices =
    let m = line_limit max in
    (
      read_slices-line (append_line m) m m (append_line-Held m) parts part slices,
      read_slices-last (append_line m) m m (append_line-Held m) parts part slices (limit_lem max),
    )
  where
    limit_lem : (max : ℤ) → 0 < line_limit max
    limit_lem (pos n) = ground arith
    limit_lem (negsuc n) = ground arith

-- The same of the daemon's and its clients' records, of which one byte more than the limit is kept.
pub read_record-content :
    (max : ℤ) (parts : List Bytes) (part : Bytes) (slices : List Slice)
    → (read_record max (map full parts ++ line part ∷ slices) ≡ (
      record_read
          (kept_of (record_limit max + 1) (record_limit max) (joined parts ++ unframed part)),
      slices,
    ))
      × (read_record max (map full parts ++ last part ∷ slices) ≡ (
        (if length (joined parts ++ part) == 0
            then at_end
            else record_read
                (kept_of (record_limit max + 1) (record_limit max) (joined parts ++ part))),
        slices,
      ))
unfolding read_record
read_record-content max parts part slices =
    let m = record_limit max in
    (
      read_slices-line (append_record m) (m + 1) m (append_record-Held m) parts part slices,
      read_slices-last (append_record m) (m + 1) m (append_record-Held m) parts part slices
          (omega arith),
    )

drop_last-append : (text : Bytes) (b : ℕ) → drop_last (text ++ b ∷ []) ≡ text
drop_last-append [] b = refl
drop_last-append (x ∷ []) b = refl
drop_last-append (x ∷ y ∷ text) b = ap (λ r. x ∷ r) (drop_last-append (y ∷ text) b)

trim_cr-append : (text : Bytes) → trim_cr (text ++ 13 ∷ []) ≡ text
trim_cr-append [] = refl
trim_cr-append (x ∷ []) = refl
trim_cr-append (x ∷ y ∷ text) = ap (λ r. x ∷ r) (trim_cr-append (y ∷ text))

unframed-append : (text : Bytes) → unframed (text ++ 13 ∷ 10 ∷ []) ≡ text
unframed-append text =
    ap unframed (sym (append_assoc text (13 ∷ []) (10 ∷ [])))
    ∙ ap trim_cr (drop_last-append (text ++ 13 ∷ []) 10)
    ∙ trim_cr-append text

kept_of-fits : (m : ℕ) (text : Bytes) → length text ≡ m → kept_of m m text ≡ (text, false)
kept_of-fits m text h = Held-pair (take_all m text (omega arith)) (ground arith)
  where
    Held-pair : take m text ≡ text → ltb m (length text) ≡ false → kept_of m m text ≡ (text, false)
    Held-pair e t = λ i. (e i, t i)

kept_of-over :
    (m : ℕ) (text : Bytes) (b : ℕ) → length text ≡ m → kept_of m m (text ++ b ∷ []) ≡ (text, true)
kept_of-over m text b h = Held-pair first (ground (arith, length-append text (b ∷ [])))
  where
    first : take m (text ++ b ∷ []) ≡ text
    first =
        take-append m text (b ∷ [])
        ∙ ap (λ n. take m text ++ take n (b ∷ [])) {x = m - length text} {y = 0} (omega arith)
        ∙ append-nil (take m text)
        ∙ take_all m text (omega arith)

    Held-pair :
        take m (text ++ b ∷ []) ≡ text
        → ltb m (length (text ++ b ∷ [])) ≡ true
        → kept_of m m (text ++ b ∷ []) ≡ (text, true)
    Held-pair e t = λ i. (e i, t i)

-- A line of exactly the limit that ends in a carriage return and a newline is read, if one slice holds it; if the
-- buffer was full after the carriage return, the line is refused as too large.
pub read_line-split :
    (max : ℤ) (text : Bytes) (slices : List Slice)
    → length text ≡ line_limit max
    → (read_line max (line (text ++ 13 ∷ 10 ∷ []) ∷ slices) ≡ (record_read (text, false), slices))
      × (read_line max (full (text ++ 13 ∷ []) ∷ line (10 ∷ []) ∷ slices)
          ≡ (record_read (text, true), slices))
read_line-split max text slices h = (
  (read_line-content max [] (text ++ 13 ∷ 10 ∷ []) slices).0
      ∙ ap (λ r. (record_read r, slices))
          (ap (kept_of (line_limit max) (line_limit max)) (unframed-append text)
            ∙ kept_of-fits (line_limit max) text h),
  (read_line-content max ((text ++ 13 ∷ []) ∷ []) (10 ∷ []) slices).0
      ∙ ap (λ r. (record_read r, slices))
          (ap (kept_of (line_limit max) (line_limit max))
              (append-nil ((text ++ 13 ∷ []) ++ []) ∙ append-nil (text ++ 13 ∷ []))
            ∙ kept_of-over (line_limit max) text 13 h),
)
