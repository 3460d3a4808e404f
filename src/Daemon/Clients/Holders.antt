-- ===== src/Daemon/Clients/Holders.antt =====
-- daemon/server.go: the connections that hold the lease, and one connection's part of them.
use a2ui_persistent_daemon.Base.{
  ℕ, zero, suc, ◌+◌, ◌≡◌, refl, sym, ap, subst, ◌∙◌, Option, none, some, List, [], ◌∷◌, ◌++◌,
  String, append-nil, append_assoc, arith,
}
use a2ui_persistent_daemon.Daemon.Clients.Core.{
  Stage, acquired, Client, waiting, attached, welcoming, client_at, put_client,
}

-- A connection, the client's id, and the connection that is the active one while it is.
abbrev pub Holder : Type 0
Holder = ℕ × String × Option ℕ

-- Before `setActiveConn` there is no active connection.
abbrev pub conn_at : Stage → ℕ → Option ℕ
conn_at acquired n = none
conn_at _ n = some n

abbrev pub held : ℕ → Client → List Holder
held n (attached id) = (n, id, some n) ∷ []
held n (welcoming st id) = (n, id, conn_at st n) ∷ []
held n _ = []

-- The connections that have acquired the lease, from this number on.
abbrev pub holders : ℕ → List Client → List Holder
holders n [] = []
holders n (c ∷ cs) = held n c ++ holders (suc n) cs

pub holders-append : (n : ℕ) (cs : List Client) → holders n (cs ++ waiting ∷ []) ≡ holders n cs
holders-append n [] = refl
holders-append n (c ∷ cs) = ap (λ r. held n c ++ r) (holders-append (suc n) cs)

-- A connection's part of the holders, among those of the others.
pub record Part (k n : ℕ) (c : Client) (cs : List Client) : Type 0 where
  pub before : List Holder
  pub behind : List Holder
  pub whole : holders k cs ≡ before ++ (held (k + n) c ++ behind)
  pub replaced :
      (c' : Client) → holders k (put_client n c' cs) ≡ before ++ (held (k + n) c' ++ behind)

pub part_lem : (k n : ℕ) (c : Client) (cs : List Client) → client_at n cs ≡ some c → Part k n c cs
part_lem k n c [] h = cc
part_lem k zero c (x ∷ cs) h = record {
  before = [];
  behind = holders (suc k) cs;
  whole =
      subst (λ m. held k x ++ holders (suc k) cs ≡ held m c ++ holders (suc k) cs) {x = k}
        (omega arith) (same_client x c h);
  replaced = λ c'. ap (λ m. held m c' ++ holders (suc k) cs) {x = k} (omega arith);
}
  where
    same_client :
        (x c : Client)
        → some x ≡ some c
        → held k x ++ holders (suc k) cs ≡ held k c ++ holders (suc k) cs
    same_client x c e = cc
part_lem k (suc n) c (x ∷ cs) h =
    let p = part_lem (suc k) n c cs h in
    record {
      before = held k x ++ p.before;
      behind = p.behind;
      whole = further c (holders (suc k) cs) p.before p.behind p.whole;
      replaced = λ c'. further c' _ p.before p.behind (p.replaced c');
    }
  where
    further :
        (c' : Client) (hs before behind : List Holder)
        → hs ≡ before ++ (held (suc k + n) c' ++ behind)
        → held k x ++ hs ≡ (held k x ++ before) ++ (held (k + suc n) c' ++ behind)
    further c' hs before behind e =
        subst (λ m. held k x ++ hs ≡ (held k x ++ before) ++ (held m c' ++ behind)) {x = suc k + n}
          (omega arith)
          (ap (λ r. held k x ++ r) e
            ∙ sym (append_assoc (held k x) before (held (suc k + n) c' ++ behind)))

-- A client that holds the lease is the only one.
pub alone_lem :
    (before behind : List Holder) (g h : Holder)
    → h ∷ [] ≡ before ++ g ∷ behind
    → (before ≡ []) × (behind ≡ []) × (h ≡ g)
alone_lem [] behind g h e = ground arith
alone_lem (x ∷ []) behind g h e = cc
alone_lem (x ∷ y ∷ before) behind g h e = cc

pub held_from : (n : ℕ) (c : Client) → held (0 + n) c ≡ held n c
held_from n c = ap (λ m. held m c) {x = 0 + n} {y = n} (omega arith)

-- The connection is the only one that has a part.
pub alone_held :
    (n : ℕ) (c : Client) (cs : List Client) (p : Part 0 n c cs)
    → p.before ≡ []
    → p.behind ≡ []
    → (c' : Client) → holders 0 (put_client n c' cs) ≡ held n c'
alone_held n c cs p e f c' =
    p.replaced c'
    ∙ ap (λ x. x ++ (held (0 + n) c' ++ p.behind)) e
    ∙ ap (λ x. held (0 + n) c' ++ x) f
    ∙ append-nil (held (0 + n) c')
    ∙ held_from n c'

pub nothing_held :
    (before behind : List Holder) → [] ≡ before ++ behind → (before ≡ []) × (behind ≡ [])
nothing_held [] behind e = (refl, sym e)
nothing_held (x ∷ before) behind e = cc
