-- ===== src/Tests/Clients.antt =====
-- daemon/server.go: clients at sample values.
use a2ui_persistent_daemon.Base.{
  ℕ, ◌≢◌, refl, true, false, none, [], ◌∷◌, ◌++◌, String, pos, same, same_iff, arith,
}
use a2ui_persistent_daemon.Protocol.Types.{Event, event}
use a2ui_persistent_daemon.Runtime.State.{Binding}
use a2ui_persistent_daemon.Engine.Core.{Engine, new}
use a2ui_persistent_daemon.Ipc.Messages.{message, Kind, Interaction, InteractionType}
use a2ui_persistent_daemon.Daemon.Clients.Core.{
  World, Read, waiting, acquired, registered, acknowledged, greet, welcome, after, accepts, greets,
  welcomes, Reachable, starts, goes_on,
}
use a2ui_persistent_daemon.Daemon.Lease.{acquire}
use a2ui_persistent_daemon.Daemon.Clients.Owner.{OneOwner, Reachable-OneOwner}
use a2ui_persistent_daemon.Tests.Sample.{sample, limits}

abbrev engine : Engine
engine = new sample limits (pos 4)

abbrev no_action : Binding → Event
no_action b = event ""

abbrev focus_root : Interaction
focus_root = record {
  type = InteractionType.focus;
  id = "root";
  value = "";
  delta = pos 0;
  key = "";
}

-- A client connects and is welcomed.
abbrev client_name : ℕ → String
client_name n = "client-1"

client_name-named : (n : ℕ) → client_name n ≢ ""
unfolding same
client_name-named n e = ground (arith, (same_iff "client-1" "").1 e)

abbrev idle : World
idle = record {
  server = record {
    engine = engine;
    lease = record { active = ""; next_id = 0 };
    updates = false;
    events = false;
    active_conn = none;
  };
  clients = [];
}

abbrev connected : World
connected = record idle { clients = waiting ∷ [] }

abbrev first_read : Read
first_read = Read.received (record (message Kind.hello) { client = "terminal" })

abbrev admitted : World
admitted = after connected 0 (greet client_name first_read connected.server)

-- Its connection is made the active one, and a second client connects before the first is answered.
abbrev set : World
set = after admitted 0 (welcome acquired 0 "client-1" true admitted.server)

abbrev both : World
both = record set { clients = set.clients ++ waiting ∷ [] }

abbrev refused : World
refused = after both 1 (greet client_name first_read both.server)

abbrev answered : World
answered = after refused 0 (welcome registered 0 "client-1" true refused.server)

abbrev shown : World
shown = after answered 0 (welcome acknowledged 0 "client-1" true answered.server)

shown-Reachable : Reachable client_name sample no_action shown
unfolding same greet welcome acquire
shown-Reachable =
    goes_on answered shown
      (goes_on refused answered
        (goes_on both refused
          (goes_on set both
            (goes_on admitted set
              (goes_on connected admitted
                (goes_on idle connected (starts idle refl refl refl) accepts)
                (greets 0 first_read refl))
              (welcomes 0 acquired "client-1" true refl))
            accepts)
          (greets 1 first_read refl))
        (welcomes 0 registered "client-1" true refl))
      (welcomes 0 acknowledged "client-1" true refl)

Reachable-OneOwner_example : OneOwner shown
Reachable-OneOwner_example =
    Reachable-OneOwner client_name sample no_action client_name-named shown shown-Reachable
