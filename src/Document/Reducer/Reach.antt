-- ===== src/Document/Reducer/Reach.antt =====
-- The documents that `Apply` of document/reducer.go leads to from `New`.
use a2ui_persistent_daemon.Base.{◌≡◌, subst, sym, inl, inr, none}
use a2ui_persistent_daemon.Protocol.Types.{Operation}
use a2ui_persistent_daemon.Protocol.Limits.{Limits}
use a2ui_persistent_daemon.Protocol.Json.{Json}
use a2ui_persistent_daemon.Document.Types.{Document, Effect}
use a2ui_persistent_daemon.Document.Invariants.{validate_invariants}
use a2ui_persistent_daemon.Document.Tree.Shape.{IsTree}
use a2ui_persistent_daemon.Document.Tree.Sound.{validate_invariants-IsTree}
use a2ui_persistent_daemon.Document.Reducer.Outcome.{done}
use a2ui_persistent_daemon.Document.Reducer.Apply.{apply, new}
use a2ui_persistent_daemon.Document.Reducer.Commit.{apply-Committed}

pub data Reachable (j : Json) (limits : Limits) : Document → Type 0 where
  start : Reachable j limits (new j)
  step :
      {d next : Document} {eff : Effect} (op : Operation)
      → Reachable j limits d
      → apply j d op limits ≡ done (next, eff)
      → Reachable j limits next

module _ (j : Json) where
  -- Where the limits admit the initial document, every document that accepted operations lead to is a
  -- tree under `root` within the limits.
  pub reachable-IsTree :
      (limits : Limits) (d : Document)
      → validate_invariants (new j) limits ≡ none
      → Reachable j limits d
      → IsTree limits d
  reachable-IsTree limits d h r = go r
    where
      go : {d : Document} → Reachable j limits d → IsTree limits d
      go Reachable.start = validate_invariants-IsTree (new j) limits h
      go (Reachable.step {d = e} {next = next} {eff = eff} op r h') =
          elim (apply-Committed j e next op limits eff h') [
            | inl (_, same_doc) ↦ subst (IsTree limits) (sym same_doc) (go r)
            | inr (_, _, t) ↦ t
          ]
