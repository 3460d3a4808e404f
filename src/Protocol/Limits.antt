-- ===== src/Protocol/Limits.antt =====
-- protocol/types.go and protocol/validate.go: the resource limits, their defaults and their checks.
use a2ui_persistent_daemon.Base.{
  ◌≡◌, ◌↔◌, false, refl, subst, Option, none, some, List, [], ◌∷◌, arith, ℤ, pos, below_one,
  if◌then◌else◌,
}
use a2ui_persistent_daemon.Protocol.Types.{Error, new_error}

pub record Limits : Type 0 where
  pub max_message_bytes : ℤ
  pub max_document_bytes : ℤ
  pub max_nodes : ℤ
  pub max_depth : ℤ
  pub max_children : ℤ
  pub max_text_bytes_per_node : ℤ
  pub max_total_text_bytes : ℤ
  pub max_table_rows : ℤ
  pub max_table_columns : ℤ
  pub max_pending_events : ℤ
  pub max_pending_mutations : ℤ
  pub max_inflight_actions : ℤ
  pub max_datagram_bytes : ℤ

abbrev pub default_limits : Limits
default_limits = record {
  max_message_bytes = pos 1048576;
  max_document_bytes = pos 8388608;
  max_nodes = pos 2048;
  max_depth = pos 32;
  max_children = pos 512;
  max_text_bytes_per_node = pos 262144;
  max_total_text_bytes = pos 2097152;
  max_table_rows = pos 4096;
  max_table_columns = pos 64;
  max_pending_events = pos 256;
  max_pending_mutations = pos 256;
  max_inflight_actions = pos 32;
  max_datagram_bytes = pos 1200;
}

unfoldable pub or_default : ℤ → ℤ → ℤ
or_default l d = if below_one l then d else l

unfoldable pub effective_limits : Limits → Limits
effective_limits l = record {
  max_message_bytes = or_default l.max_message_bytes default_limits.max_message_bytes;
  max_document_bytes = or_default l.max_document_bytes default_limits.max_document_bytes;
  max_nodes = or_default l.max_nodes default_limits.max_nodes;
  max_depth = or_default l.max_depth default_limits.max_depth;
  max_children = or_default l.max_children default_limits.max_children;
  max_text_bytes_per_node =
      or_default l.max_text_bytes_per_node default_limits.max_text_bytes_per_node;
  max_total_text_bytes = or_default l.max_total_text_bytes default_limits.max_total_text_bytes;
  max_table_rows = or_default l.max_table_rows default_limits.max_table_rows;
  max_table_columns = or_default l.max_table_columns default_limits.max_table_columns;
  max_pending_events = or_default l.max_pending_events default_limits.max_pending_events;
  max_pending_mutations = or_default l.max_pending_mutations default_limits.max_pending_mutations;
  max_inflight_actions = or_default l.max_inflight_actions default_limits.max_inflight_actions;
  max_datagram_bytes = or_default l.max_datagram_bytes default_limits.max_datagram_bytes;
}

-- The `fields` slice of `ValidateLimits`, in its order.
abbrev pub limit_fields : Limits → List ℤ
limit_fields l =
    l.max_message_bytes ∷ l.max_document_bytes ∷ l.max_nodes ∷ l.max_depth ∷ l.max_children
    ∷ l.max_text_bytes_per_node ∷ l.max_total_text_bytes ∷ l.max_table_rows ∷ l.max_table_columns
    ∷ l.max_pending_events ∷ l.max_pending_mutations ∷ l.max_inflight_actions ∷ l.max_datagram_bytes
    ∷ []

unfoldable pub check_fields : List ℤ → Option Error
check_fields [] = none
check_fields (x ∷ xs) =
    if below_one x then some (new_error "schema.invalid_limits") else check_fields xs

unfoldable pub validate_limits : Limits → Option Error
unfolding check_fields
validate_limits l = check_fields (limit_fields l)

or_default_positive : (l : ℤ) (d : ℤ) → below_one d ≡ false → below_one (or_default l d) ≡ false
unfolding or_default
or_default_positive l d h = ground arith

pub effective_limits-valid : (l : Limits) → validate_limits (effective_limits l) ≡ none
unfolding validate_limits effective_limits
effective_limits-valid l = ground (
  arith,
  or_default_positive l.max_message_bytes (pos 1048576) refl,
  or_default_positive l.max_document_bytes (pos 8388608) refl,
  or_default_positive l.max_nodes (pos 2048) refl,
  or_default_positive l.max_depth (pos 32) refl,
  or_default_positive l.max_children (pos 512) refl,
  or_default_positive l.max_text_bytes_per_node (pos 262144) refl,
  or_default_positive l.max_total_text_bytes (pos 2097152) refl,
  or_default_positive l.max_table_rows (pos 4096) refl,
  or_default_positive l.max_table_columns (pos 64) refl,
  or_default_positive l.max_pending_events (pos 256) refl,
  or_default_positive l.max_pending_mutations (pos 256) refl,
  or_default_positive l.max_inflight_actions (pos 32) refl,
  or_default_positive l.max_datagram_bytes (pos 1200) refl,
)

pub effective_limits_of_valid : (l : Limits) → validate_limits l ≡ none → effective_limits l ≡ l
unfolding validate_limits effective_limits or_default
effective_limits_of_valid l h = ground arith

-- Whatever was configured, the effective limits pass the check that is made of a peer's limits; and the
-- limits that pass it are exactly those that are kept as they are.
pub effective_limits-lem :
    (l : Limits)
    → (validate_limits (effective_limits l) ≡ none)
      × ((validate_limits l ≡ none) ↔ (effective_limits l ≡ l))
effective_limits-lem l = (
  effective_limits-valid l,
  (
    effective_limits_of_valid l,
    λ same. subst (λ k. validate_limits k ≡ none) same (effective_limits-valid l),
  ),
)
