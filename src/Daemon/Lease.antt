-- ===== src/Daemon/Lease.antt =====
-- daemon/lease.go: the lease that the one interactive client holds.
use a2ui_persistent_daemon.Base.{
  ℕ, ◌≡◌, ◌≢◌, ◌⊎◌, inl, inr, Bool, true, false, not, ◌||◌, String, same, same_iff, arith,
  Bool-cases, u64_suc, if◌then◌else◌,
}
use a2ui_persistent_daemon.Ipc.Messages.{IpcError, new_error}

pub record ClientLease : Type 0 where
  pub active : String
  pub next_id : ℕ

pub data Acquired : Type 0 where
  granted : String → Acquired
  busy : IpcError → Acquired

-- The printing of a number, `client-%d`, is Go's.
module _ (client_name : ℕ → String) where
  unfoldable pub acquire : ClientLease → ClientLease × Acquired
  acquire l =
      let id = client_name (u64_suc l.next_id) in
      if not (same l.active "")
      then (l, busy (new_error "ipc.client_busy"))
      else (record { active = id; next_id = u64_suc l.next_id }, granted id)

unfoldable pub release : ClientLease → String → ClientLease × Bool
release l id =
    if same id "" || not (same l.active id) then (l, false) else (record l { active = "" }, true)

-- `HasActiveClient`, by `owner`.
abbrev pub has_active_client : ClientLease → Bool
has_active_client l = not (same l.active "")

pub release-owner :
    (l : ClientLease) (id : String) → id ≢ "" → l.active ≡ id → (release l id).0.active ≡ ""
unfolding release
release-owner l id h a = ground (arith, same_iff id "", same_iff l.active id)

-- Of a client id that is not the owner's, or that is empty, nothing is released.
pub release-other :
    (l : ClientLease) (id : String) → (id ≡ "") ⊎ (l.active ≢ id) → release l id ≡ (l, false)
unfolding release
release-other l id h = ground (arith, same_iff id "", same_iff l.active id)

module _ (client_name : ℕ → String) where
  pub acquire-lem :
      (l : ClientLease)
      → ((l.active ≢ "") × (acquire client_name l ≡ (l, busy (new_error "ipc.client_busy"))))
        ⊎ ((l.active ≡ "")
            × (acquire client_name l ≡ (
              record { active = client_name (u64_suc l.next_id); next_id = u64_suc l.next_id },
              granted (client_name (u64_suc l.next_id)),
            )))
  unfolding acquire
  acquire-lem l = elim (Bool-cases (same l.active "")) [
    | inl free ↦ inr (ground (arith, same_iff l.active ""), ground arith)
    | inr held ↦ inl (ground (arith, same_iff l.active ""), ground arith)
  ]
