-- ===== src/Ipc/Budget.antt =====
-- ipc/limits.go: the budget of a record.
use a2ui_persistent_daemon.Base.{
  ℕ, ◌+◌, ◌*◌, ◌-◌, ◌/◌, ◌≤◌, ◌≡◌, Bool, true, ℤ, pos, negsuc, pos_part, ltb, arith, max_int,
  int_of, if◌then◌else◌,
}
use a2ui_persistent_daemon.Protocol.Limits.{Limits, effective_limits}

abbrev is_below : ℤ → ℕ → Bool
is_below (pos m) n = ltb m n
is_below (negsuc m) n = true

-- From limits that are positive.
unfoldable pub budget : ℕ → ℕ → ℤ
budget document_bytes message_bytes =
    let limit = int_of (document_bytes * 8 + message_bytes) in
    if ltb ((max_int - message_bytes) / 8) document_bytes
    then pos max_int
    else if is_below limit message_bytes
    then pos message_bytes
    else limit

unfoldable pub record_limit : Limits → ℤ
unfolding budget
record_limit configured =
    let limits = effective_limits configured in
    budget (pos_part limits.max_document_bytes) (pos_part limits.max_message_bytes)

budget-exact :
    (d m : ℕ)
    → m ≤ max_int
    → budget d m ≡ pos (if ltb max_int (d * 8 + m) then max_int else d * 8 + m)
unfolding budget
budget-exact d m h = ground arith

-- Where the limit of a message is an `int`, nothing overflows: the budget is eight times the document limit and the
-- message limit on top, or the greatest integer, if that is less.
pub record_limit-exact :
    (configured : Limits)
    → pos_part (effective_limits configured).max_message_bytes ≤ max_int
    → let exact =
        pos_part (effective_limits configured).max_document_bytes * 8
        + pos_part (effective_limits configured).max_message_bytes in
      record_limit configured ≡ pos (if ltb max_int exact then max_int else exact)
unfolding record_limit
record_limit-exact configured h = budget-exact _ _ h
