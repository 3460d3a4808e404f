-- ===== src/Daemon/Clients/Core.antt =====
-- daemon/server.go and the clients' part of daemon/daemon.go: what the daemon does for one connection, and the
-- connections together. The network and the clock are what the steps are given: what a read gave, and
-- whether a write succeeded.
use a2ui_persistent_daemon.Base.{
  ℕ, zero, suc, ◌≡◌, Bool, true, false, Option, none, some, List, [], ◌∷◌, ◌++◌, String, ◌==◌, same,
  if◌then◌else◌,
}
use a2ui_persistent_daemon.Protocol.Types.{Event}
use a2ui_persistent_daemon.Protocol.Json.{Json}
use a2ui_persistent_daemon.Runtime.State.{Binding}
use a2ui_persistent_daemon.Engine.Core.{Engine}
use a2ui_persistent_daemon.Engine.Snapshot.{presentation_snapshot}
use a2ui_persistent_daemon.Ipc.Messages.{
  IpcError, new_error, Message, message, Kind, hello, hello_ack, interaction, frame_published,
  detach, detach_ack, snapshot, error,
}
use a2ui_persistent_daemon.Daemon.Lease.{ClientLease, Acquired, granted, busy, acquire, release}
use a2ui_persistent_daemon.Daemon.Publication.{ack_publication}
use a2ui_persistent_daemon.Daemon.Clients.Interactions.{handle_interaction}

-- The fields of `Daemon` that its clients use; the channels hold at most one signal. A connection is its number.
pub record Server : Type 0 where
  pub engine : Engine
  pub lease : ClientLease
  pub updates : Bool
  pub events : Bool
  pub active_conn : Option ℕ

-- How far the welcome of a client is: it has acquired the lease, its connection is the active one, and it
-- was answered.
pub data Stage : Type 0 where
  acquired registered acknowledged : Stage

-- The place where the goroutine of a connection waits, for a lock, a write or a read.
pub data Client : Type 0 where
  waiting gone : Client
  welcoming : Stage → String → Client
  attached : String → Client

-- `reader.Next`: a message, one that is refused, the end of the stream, or another failure.
pub data Read : Type 0 where
  received : Message → Read
  invalid : IpcError → Read
  ended broken : Read

-- The messages of the result are those that the step writes, whether or not that succeeds.
abbrev pub Served : Type 0
Served = Server × Client × List Message

abbrev pub error_message : String → IpcError → Message
error_message request e = record (message error) { request_id = request; error = some e }

abbrev pub snapshot_message : Engine → String → Message
snapshot_message e request = record (message snapshot) {
  request_id = request;
  snapshot = some (presentation_snapshot e);
}

abbrev pub cleared : ℕ → Option ℕ → Option ℕ
cleared conn none = none
cleared conn (some c) = if c == conn then none else some c

-- `clearActiveConn`, then the release of the lease.
abbrev pub let_go : ℕ → String → Server → Server
let_go conn id d = record d {
  active_conn = cleared conn d.active_conn;
  lease = (release d.lease id).0;
}

-- A return, with what it defers.
abbrev pub leave : ℕ → String → Server → List Message → Served
leave conn id d sent = (let_go conn id d, gone, sent)

-- `writeSnapshot`, and the return where it fails.
abbrev pub show : ℕ → String → Server → String → Bool → List Message → Served
show conn id d request written sent =
    if written
    then (d, attached id, sent ++ snapshot_message d.engine request ∷ [])
    else leave conn id d (sent ++ snapshot_message d.engine request ∷ [])

abbrev pub turned_away : Server → IpcError → Served
turned_away d e = (d, gone, error_message "" e ∷ [])

abbrev pub admit : Server → ClientLease × Acquired → Served
admit d (l, busy e) = turned_away (record d { lease = l }) e
admit d (l, granted id) = (record d { lease = l }, welcoming acquired id, [])

module _ (client_name : ℕ → String) where
  abbrev pub greet_kind : Server → Kind → Served
  greet_kind d hello = admit d (acquire client_name d.lease)
  greet_kind d _ = turned_away d (new_error "ipc.invalid_message")

  -- `handleClient` up to the acquisition of the lease. At the end of the stream the message is the zero one,
  -- which is no `hello`.
  unfoldable pub greet : Read → Server → Served
  greet (received m) d = greet_kind d m.kind
  greet (invalid e) d = turned_away d e
  greet ended d = turned_away d (new_error "ipc.invalid_message")
  greet broken d = turned_away d (new_error "ipc.connection_closed")

abbrev pub ack_message : String → Message
ack_message id = record (message hello_ack) { client_id = id; interactive = true }

-- What `handleClient` does next for a client that has acquired the lease, up to its loop: `setActiveConn`, the
-- answer, and the first snapshot.
unfoldable pub welcome : Stage → ℕ → String → Bool → Server → Served
welcome acquired conn id written d =
    (record d { active_conn = some conn }, welcoming registered id, [])
welcome registered conn id written d =
    if written
    then (d, welcoming acknowledged id, ack_message id ∷ [])
    else leave conn id d (ack_message id ∷ [])
welcome acknowledged conn id written d = show conn id d "" written []

abbrev pub detach_answer : String → List Message
detach_answer request =
    if same request "" then [] else (record (message detach_ack) { request_id = request }) ∷ []

abbrev pub interacted : ℕ → String → Server → String → Bool → Engine × Option IpcError → Served
interacted conn id d request written (e, some ierr) =
    (record d { engine = e }, attached id, error_message request ierr ∷ [])
interacted conn id d request written (e, none) =
    show conn id (record d { engine = e; events = true }) request written []

abbrev pub confirmed : String → Server → String → Engine × Option IpcError → Served
confirmed id d request (e, some ierr) =
    (record d { engine = e }, attached id, error_message request ierr ∷ [])
confirmed id d request (e, none) = (record d { engine = e; events = true }, attached id, [])

-- What a turn of the loop selects: the context is done, an update is signalled, or a read is there.
pub data Turn : Type 0 where
  cancelled update : Turn
  read : Read → Turn

module _ (j : Json) (dispatch : Binding → Event) where
  -- The `switch` on the kind. `between` is what others do to the engine during an acknowledgement.
  abbrev pub serve_kind : ℕ → String → (Engine → Engine) → Bool → Server → Message → Kind → Served
  serve_kind conn id between written d m detach =
      (let_go conn id d, gone, detach_answer m.request_id)
  serve_kind conn id between written d m interaction =
      interacted conn id d m.request_id written
        (handle_interaction j dispatch d.engine m.interaction)
  serve_kind conn id between written d m frame_published =
      confirmed id d m.request_id (ack_publication between d.engine m.publication_generation)
  serve_kind conn id between written d m _ =
      (d, attached id, error_message m.request_id (new_error "ipc.invalid_message") ∷ [])

  -- One turn of the loop of `handleClient`.
  unfoldable pub serve : ℕ → String → (Engine → Engine) → Bool → Server → Turn → Served
  serve conn id between written d cancelled = leave conn id d []
  serve conn id between written d update = show conn id (record d { updates = false }) "" written []
  serve conn id between written d (read (received m)) =
      serve_kind conn id between written d m m.kind
  serve conn id between written d (read (invalid e)) = leave conn id d (error_message "" e ∷ [])
  serve conn id between written d (read _) = leave conn id d []

pub record World : Type 0 where
  pub server : Server
  pub clients : List Client

abbrev pub client_at : ℕ → List Client → Option Client
client_at n [] = none
client_at zero (c ∷ cs) = some c
client_at (suc n) (c ∷ cs) = client_at n cs

abbrev pub put_client : ℕ → Client → List Client → List Client
put_client n c [] = []
put_client zero c (x ∷ cs) = c ∷ cs
put_client (suc n) c (x ∷ cs) = x ∷ put_client n c cs

abbrev pub after : World → ℕ → Served → World
after w n (d, c, sent) = record { server = d; clients = put_client n c w.clients }

module _ (client_name : ℕ → String) (j : Json) (dispatch : Binding → Event) where
  -- One step of the daemon: `Serve` accepts a connection, a connection's goroutine goes on, or others change
  -- the engine and signal it.
  pub data Step (w : World) : World → Type 0 where
    accepts : Step w (record w { clients = w.clients ++ waiting ∷ [] })
    greets :
        (n : ℕ) (r : Read)
        → client_at n w.clients ≡ some waiting
        → Step w (after w n (greet client_name r w.server))
    welcomes :
        (n : ℕ) (st : Stage) (id : String) (written : Bool)
        → client_at n w.clients ≡ some (welcoming st id)
        → Step w (after w n (welcome st n id written w.server))
    serves :
        (n : ℕ) (id : String) (between : Engine → Engine) (written : Bool) (t : Turn)
        → client_at n w.clients ≡ some (attached id)
        → Step w (after w n (serve j dispatch n id between written w.server t))
    others :
        (e : Engine) (updates : Bool)
        → Step w (record w { server = record w.server { engine = e; updates = updates } })

  -- From a daemon that has no client, by any number of steps.
  pub data Reachable : World → Type 0 where
    starts :
        (w : World)
        → w.clients ≡ []
        → w.server.lease.active ≡ ""
        → w.server.active_conn ≡ none
        → Reachable w
    goes_on : (w w' : World) → Reachable w → Step w w' → Reachable w'
