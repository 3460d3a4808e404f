-- ===== src/Daemon/Clients/Owner.antt =====
-- daemon/server.go: at most one client holds the lease.
use a2ui_persistent_daemon.Base.{
  ℕ, ◌+◌, ◌≡◌, ◌≢◌, ◌⊎◌, inl, inr, refl, sym, ap, ◌∙◌, Option, none, some, List, [], ◌∷◌, ◌++◌,
  String, same,
}
use a2ui_persistent_daemon.Protocol.Types.{Event}
use a2ui_persistent_daemon.Protocol.Json.{Json}
use a2ui_persistent_daemon.Runtime.State.{Binding}
use a2ui_persistent_daemon.Ipc.Messages.{Message}
use a2ui_persistent_daemon.Daemon.Clients.Core.{
  Server, Client, Served, waiting, attached, welcoming, welcome, welcomes, Read, greet, serve,
  World, client_at, put_client, Step, accepts, greets, serves, others, Reachable, starts, goes_on,
  after,
}
use a2ui_persistent_daemon.Daemon.Clients.Holders.{
  Holder, held, conn_at, holders, holders-append, part_lem, alone_lem, held_from, alone_held,
  nothing_held,
}
use a2ui_persistent_daemon.Daemon.Clients.Turns.{Kept, serve-Kept, welcome-Kept, greet-Greeted}

-- Nobody holds the lease and no connection is the active one; or exactly one connection holds it, under the name
-- that is in the lease, and is the active one, or none is where `setActiveConn` is still to come.
abbrev pub OneOwner : World → Type 0
OneOwner w =
    let d = w.server in
    ((d.lease.active ≡ "") × (holders 0 w.clients ≡ []) × (d.active_conn ≡ none))
    ⊎ ((n : ℕ) × (d.lease.active ≢ "")
        × (holders 0 w.clients ≡ (n, d.lease.active, d.active_conn) ∷ []))

OneOwner-same :
    (w : World) (d : Server) (cs : List Client)
    → d.lease.active ≡ w.server.lease.active
    → d.active_conn ≡ w.server.active_conn
    → holders 0 cs ≡ holders 0 w.clients
    → OneOwner w
    → OneOwner (record { server = d; clients = cs })
OneOwner-same w d cs a c h (inl (free, none_held, no_conn)) =
    inl (a ∙ free, h ∙ none_held, c ∙ no_conn)
OneOwner-same w d cs a c h (inr (n, taken, one)) = inr (
  n,
  (λ e. taken (sym a ∙ e)),
  h
      ∙ one
      ∙ ap (λ x. (n, x, w.server.active_conn) ∷ []) (sym a)
      ∙ ap (λ o. (n, d.lease.active, o) ∷ []) (sym c),
)

OneOwner-Kept :
    (n : ℕ) (id : String) (d : Server) (c : Client) (sent : List Message) (cs : List Client)
    → id ≢ ""
    → Kept n id (d, c, sent)
    → holders 0 cs ≡ held n c
    → OneOwner (record { server = d; clients = cs })
OneOwner-Kept n id d c sent cs h (inl (a, e)) one =
    inr (n, (λ x. h (sym a ∙ x)), one ∙ e ∙ ap (λ x. (n, x, d.active_conn) ∷ []) (sym a))
OneOwner-Kept n id d c sent cs h (inr ((a, conn), e)) one = inl (a, one ∙ e, conn)

free_lem :
    (w : World)
    → OneOwner w
    → w.server.lease.active ≡ ""
    → (holders 0 w.clients ≡ []) × (w.server.active_conn ≡ none)
free_lem w (inl (free, none_held, conn)) a = (none_held, conn)
free_lem w (inr (n, taken, one)) a = absurd (taken a)

owner_lem :
    (w : World) (n : ℕ) (id : String) (o : Option ℕ) (before behind : List Holder)
    → OneOwner w
    → holders 0 w.clients ≡ before ++ (n, id, o) ∷ behind
    → (id ≢ "")
      × (w.server.lease.active ≡ id)
      × (w.server.active_conn ≡ o)
      × (before ≡ [])
      × (behind ≡ [])
owner_lem w n id o before behind (inl (free, none_held, conn)) h =
    absurd (none_lem before (sym none_held ∙ h))
  where
    none_lem : (before : List Holder) → [] ≡ before ++ (n, id, o) ∷ behind → ⊥
    none_lem [] e = cc
    none_lem (x ∷ xs) e = cc
owner_lem w n id o before behind (inr (m, taken, one)) h =
    let (e, f, same) =
      alone_lem before behind (n, id, o) (m, w.server.lease.active, w.server.active_conn)
        (sym one ∙ h) in
    ((λ x. taken (ap (λ q. q.1) same ∙ x)), ap (λ q. q.1) same, ap (λ q. q.2) same, e, f)

module _ (client_name : ℕ → String) (j : Json) (dispatch : Binding → Event)
    (named : (n : ℕ) → client_name n ≢ "") where
  greets-OneOwner :
      (w : World) (n : ℕ) (r : Read)
      → client_at n w.clients ≡ some waiting
      → OneOwner w
      → OneOwner (after w n (greet client_name r w.server))
  greets-OneOwner w n r at h =
      let p = part_lem 0 n waiting w.clients at in
      let (d, c, sent) = greet client_name r w.server in
      let (conn, cases) = greet-Greeted client_name named r w.server in
      elim cases [
        | inl (active, left) ↦
            OneOwner-same w d (put_client n c w.clients) active conn
              (p.replaced c
                ∙ ap (λ x. p.before ++ (x ++ p.behind)) (ap (held (0 + n)) left)
                ∙ sym p.whole)
              h
        | inr (free, (id, some_name, active, came)) ↦
            let (none_held, no_conn) = free_lem w h free in
            let (e, f) = nothing_held p.before p.behind (sym none_held ∙ p.whole) in
            OneOwner-Kept n id d c sent (put_client n c w.clients) some_name
              (inl (active, ap (held n) came ∙ ap (λ o. (n, id, o) ∷ []) (sym (conn ∙ no_conn))))
              (alone_held n waiting w.clients p e f c)
      ]

  -- Another step of a client that holds the lease.
  holds-OneOwner :
      (w : World) (n : ℕ) (id : String) (o : Option ℕ) (c : Client) (r : Served)
      → client_at n w.clients ≡ some c
      → held n c ≡ (n, id, o) ∷ []
      → (id ≢ "" → w.server.lease.active ≡ id → w.server.active_conn ≡ o → Kept n id r)
      → OneOwner w
      → OneOwner (after w n r)
  holds-OneOwner w n id o c (d, c', sent) at holds kept h =
      let p = part_lem 0 n c w.clients at in
      let (some_name, active, conn, e, f) =
        owner_lem w n id o p.before p.behind h
          (p.whole ∙ ap (λ x. p.before ++ (x ++ p.behind)) (held_from n c ∙ holds)) in
      OneOwner-Kept n id d c' sent (put_client n c' w.clients) some_name
        (kept some_name active conn) (alone_held n c w.clients p e f c')

  Step-OneOwner : (w w' : World) → OneOwner w → Step client_name j dispatch w w' → OneOwner w'
  Step-OneOwner w _ h accepts =
      OneOwner-same w w.server (w.clients ++ waiting ∷ []) refl refl (holders-append 0 w.clients) h
  Step-OneOwner w _ h (greets n r at) = greets-OneOwner w n r at h
  Step-OneOwner w _ h (welcomes n st id written at) =
      holds-OneOwner w n id (conn_at st n) (welcoming st id) (welcome st n id written w.server) at
        refl (welcome-Kept st n id written w.server) h
  Step-OneOwner w _ h (serves n id between written t at) =
      holds-OneOwner w n id (some n) (attached id)
        (serve j dispatch n id between written w.server t) at refl
        (λ some_name active conn.
          serve-Kept j dispatch n id between written w.server t some_name (active, conn))
        h
  Step-OneOwner w _ h (others e updates) = h

  -- Where no client's name is printed as the empty text: whatever connections come and go, in any order of their
  -- steps, and whatever they send, the lease is free, no client holds it and no connection is the active one; or
  -- exactly one client holds it, from the acquisition on, the lease has its name, and its connection is the one
  -- that a shutdown closes, or none is as long as it has not been set.
  pub Reachable-OneOwner : (w : World) → Reachable client_name j dispatch w → OneOwner w
  Reachable-OneOwner w (starts _ nobody free conn) = inl (free, ap (holders 0) nobody, conn)
  Reachable-OneOwner w (goes_on v _ r s) = Step-OneOwner v w (Reachable-OneOwner v r) s
