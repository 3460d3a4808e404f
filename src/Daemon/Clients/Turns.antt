-- ===== src/Daemon/Clients/Turns.antt =====
-- daemon/server.go: what the steps of one connection do to the lease.
use a2ui_persistent_daemon.Base.{
  ℕ, ◌≡◌, ◌≢◌, ◌⊎◌, inl, inr, refl, sym, ap, subst, Bool, true, false, Option, none, some, List, [],
  ◌∷◌, String, arith, u64_suc,
}
use a2ui_persistent_daemon.Protocol.Types.{Event}
use a2ui_persistent_daemon.Protocol.Json.{Json}
use a2ui_persistent_daemon.Runtime.State.{Binding}
use a2ui_persistent_daemon.Engine.Core.{Engine}
use a2ui_persistent_daemon.Ipc.Messages.{
  Message, Kind, hello, hello_ack, interaction, frame_published, detach, detach_ack, snapshot,
  error, unknown, IpcError,
}
use a2ui_persistent_daemon.Daemon.Lease.{acquire, release-owner, acquire-lem}
use a2ui_persistent_daemon.Daemon.Publication.{ack_publication}
use a2ui_persistent_daemon.Daemon.Clients.Interactions.{handle_interaction}
use a2ui_persistent_daemon.Daemon.Clients.Core.{
  Server, Stage, acquired, registered, acknowledged, welcoming, gone, Read, received, invalid,
  ended, broken, Served, Turn, cancelled, update, read, greet, greet_kind, admit, welcome, show,
  interacted, confirmed, serve, serve_kind, let_go, cleared,
}
use a2ui_persistent_daemon.Daemon.Clients.Holders.{Holder, held, conn_at}

-- The client of this connection is the owner; nobody is.
abbrev pub Owns : ℕ → String → Server → Type 0
Owns conn id d = (d.lease.active ≡ id) × (d.active_conn ≡ some conn)

abbrev pub Free : Server → Type 0
Free d = (d.lease.active ≡ "") × (d.active_conn ≡ none)

let_go-Free :
    (conn : ℕ) (id : String) (d : Server) → id ≢ "" → Owns conn id d → Free (let_go conn id d)
let_go-Free conn id d h (a, c) = (release-owner d.lease id h a, cleared_lem conn d.active_conn c)
  where
    cleared_lem : (conn : ℕ) (o : Option ℕ) → o ≡ some conn → cleared conn o ≡ none
    cleared_lem conn none e = refl
    cleared_lem conn (some c) e = ground arith

-- After a step of the owner, it still is, or it is gone and nobody is.
abbrev pub Kept : ℕ → String → Served → Type 0
Kept conn id (d, c, sent) =
    ((d.lease.active ≡ id) × (held conn c ≡ (conn, id, d.active_conn) ∷ []))
    ⊎ (Free d × (held conn c ≡ []))

registered_lem :
    (conn : ℕ) (id : String) (d : Server)
    → Owns conn id d
    → (d.lease.active ≡ id)
      × (◌≡◌ {A = List Holder} ((conn, id, some conn) ∷ []) ((conn, id, d.active_conn) ∷ []))
registered_lem conn id d (a, c) = (a, ap (λ o. (conn, id, o) ∷ []) (sym c))

show-Kept :
    (conn : ℕ) (id : String) (d : Server) (request : String) (written : Bool) (sent : List Message)
    → id ≢ ""
    → Owns conn id d
    → Kept conn id (show conn id d request written sent)
show-Kept conn id d request true sent h o = inl (registered_lem conn id d o)
show-Kept conn id d request false sent h o = inr (let_go-Free conn id d h o, refl)

module _ (j : Json) (dispatch : Binding → Event) where
  interacted-Kept :
      (conn : ℕ) (id : String) (d : Server) (request : String) (written : Bool)
      (r : Engine × Option IpcError)
      → id ≢ ""
      → Owns conn id d
      → Kept conn id (interacted conn id d request written r)
  interacted-Kept conn id d request written (e, some ierr) h o = inl (registered_lem conn id d o)
  interacted-Kept conn id d request written (e, none) h o =
      show-Kept conn id (record d { engine = e; events = true }) request written [] h o

  confirmed-Kept :
      (conn : ℕ) (id : String) (d : Server) (request : String) (r : Engine × Option IpcError)
      → Owns conn id d
      → Kept conn id (confirmed id d request r)
  confirmed-Kept conn id d request (e, some ierr) o = inl (registered_lem conn id d o)
  confirmed-Kept conn id d request (e, none) o = inl (registered_lem conn id d o)

  serve_kind-Kept :
      (conn : ℕ) (id : String) (between : Engine → Engine) (written : Bool) (d : Server)
      (m : Message) (k : Kind)
      → id ≢ ""
      → Owns conn id d
      → Kept conn id (serve_kind j dispatch conn id between written d m k)
  serve_kind-Kept conn id between written d m detach h o = inr (let_go-Free conn id d h o, refl)
  serve_kind-Kept conn id between written d m interaction h o =
      interacted-Kept conn id d m.request_id written
        (handle_interaction j dispatch d.engine m.interaction) h o
  serve_kind-Kept conn id between written d m frame_published h o =
      confirmed-Kept conn id d m.request_id
        (ack_publication between d.engine m.publication_generation) o
  serve_kind-Kept conn id between written d m hello h o = inl (registered_lem conn id d o)
  serve_kind-Kept conn id between written d m hello_ack h o = inl (registered_lem conn id d o)
  serve_kind-Kept conn id between written d m detach_ack h o = inl (registered_lem conn id d o)
  serve_kind-Kept conn id between written d m snapshot h o = inl (registered_lem conn id d o)
  serve_kind-Kept conn id between written d m error h o = inl (registered_lem conn id d o)
  serve_kind-Kept conn id between written d m (unknown k) h o = inl (registered_lem conn id d o)

  pub serve-Kept :
      (conn : ℕ) (id : String) (between : Engine → Engine) (written : Bool) (d : Server) (t : Turn)
      → id ≢ ""
      → Owns conn id d
      → Kept conn id (serve j dispatch conn id between written d t)
  unfolding serve
  serve-Kept conn id between written d cancelled h o = inr (let_go-Free conn id d h o, refl)
  serve-Kept conn id between written d update h o =
      show-Kept conn id (record d { updates = false }) "" written [] h o
  serve-Kept conn id between written d (read (received m)) h o =
      serve_kind-Kept conn id between written d m m.kind h o
  serve-Kept conn id between written d (read (invalid e)) h o =
      inr (let_go-Free conn id d h o, refl)
  serve-Kept conn id between written d (read ended) h o = inr (let_go-Free conn id d h o, refl)
  serve-Kept conn id between written d (read broken) h o = inr (let_go-Free conn id d h o, refl)

pub welcome-Kept :
    (st : Stage) (conn : ℕ) (id : String) (written : Bool) (d : Server)
    → id ≢ ""
    → d.lease.active ≡ id
    → d.active_conn ≡ conn_at st conn
    → Kept conn id (welcome st conn id written d)
unfolding welcome
welcome-Kept acquired conn id written d h a c = inl (a, refl)
welcome-Kept registered conn id true d h a c = inl (registered_lem conn id d (a, c))
welcome-Kept registered conn id false d h a c = inr (let_go-Free conn id d h (a, c), refl)
welcome-Kept acknowledged conn id written d h a c = show-Kept conn id d "" written [] h (a, c)

-- After the first step of a connection, nothing has changed and it is gone; or nobody was the owner, and now its
-- client is, whose connection is not yet the active one.
abbrev pub Greeted : Server → Served → Type 0
Greeted d (d', c, sent) =
    (d'.active_conn ≡ d.active_conn)
    × (((d'.lease.active ≡ d.lease.active) × (c ≡ gone))
        ⊎ ((d.lease.active ≡ "")
            × ((id : String) × (id ≢ "") × (d'.lease.active ≡ id) × (c ≡ welcoming acquired id))))

module _ (client_name : ℕ → String) (named : (n : ℕ) → client_name n ≢ "") where
  admit-Greeted : (d : Server) → Greeted d (admit d (acquire client_name d.lease))
  admit-Greeted d = elim (acquire-lem client_name d.lease) [
    | inl (taken, e) ↦ subst (λ r. Greeted d (admit d r)) (sym e) (refl, inl (refl, refl))
    | inr (free, e) ↦
        subst (λ r. Greeted d (admit d r)) (sym e)
          (refl, inr (free, (client_name (u64_suc d.lease.next_id), named _, refl, refl)))
  ]

  pub greet-Greeted : (r : Read) (d : Server) → Greeted d (greet client_name r d)
  unfolding greet
  greet-Greeted (received m) d = by_kind m.kind
    where
      by_kind : (k : Kind) → Greeted d (greet_kind client_name d k)
      by_kind hello = admit-Greeted d
      by_kind hello_ack = (refl, inl (refl, refl))
      by_kind interaction = (refl, inl (refl, refl))
      by_kind frame_published = (refl, inl (refl, refl))
      by_kind detach = (refl, inl (refl, refl))
      by_kind detach_ack = (refl, inl (refl, refl))
      by_kind snapshot = (refl, inl (refl, refl))
      by_kind error = (refl, inl (refl, refl))
      by_kind (unknown k) = (refl, inl (refl, refl))
  greet-Greeted (invalid e) d = (refl, inl (refl, refl))
  greet-Greeted ended d = (refl, inl (refl, refl))
  greet-Greeted broken d = (refl, inl (refl, refl))
