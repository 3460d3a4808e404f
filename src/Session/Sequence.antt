-- ===== src/Session/Sequence.antt =====
-- session/session.go: over the life of a session each mutation is accepted once and in order, and the
-- states only go forward.
use a2ui_persistent_daemon.Base.{
  ℕ, zero, suc, ◌+◌, ◌≡◌, ◌<◌, ◌≤◌, ◌∙◌, refl, sym, ap, subst, ◌⊎◌, Bool, true, false, Option, none,
  some, List, [], ◌∷◌, String, arith, length, u64_suc, u64_mod, ltb, ◌==◌, Bool-cases, inl, inr,
}
use a2ui_persistent_daemon.Protocol.Types.{Error, fatal_error}
use a2ui_persistent_daemon.Protocol.Limits.{Limits}
use a2ui_persistent_daemon.Protocol.Handshake.{Hello}
use a2ui_persistent_daemon.Session.Core.{
  SessionState, new_state, ready, draining, closed, Session, new, negotiate, accept_mutation,
  accept_in, drain, close,
}

-- A call of one of the methods that change a session.
pub data Call : Type 0 where
  negotiates : Hello → Call
  accepts : ℕ → Call
  drains closes : Call

unfoldable pub step : Session → Call → Session
step s (negotiates h) = (negotiate s h).0
step s (accepts seq) = (accept_mutation s seq).0
step s drains = drain s
step s closes = close s

unfoldable pub run : Session → List Call → Session
run s [] = s
run s (c ∷ cs) = run (step s c) cs

-- The mutation goes on to the engine exactly if it is neither refused nor a duplicate.
abbrev pub fresh : ℕ → Bool → Option Error → List ℕ → List ℕ
fresh seq false none rest = seq ∷ rest
fresh seq true none rest = rest
fresh seq duplicate (some e) rest = rest

-- The mutations that a history lets through, in order.
unfoldable pub accepted : Session → List Call → List ℕ
accepted s [] = []
accepted s (accepts seq ∷ cs) =
    let (s', duplicate, perr) = accept_mutation s seq in fresh seq duplicate perr (accepted s' cs)
accepted s (c ∷ cs) = accepted (step s c) cs

abbrev pub count_from : ℕ → ℕ → List ℕ
count_from start zero = []
count_from start (suc n) = start ∷ count_from (suc start) n

-- After its last number a session lets nothing through.
abbrev Counted : ℕ → List ℕ → Type 0
Counted expected seqs = (seqs ≡ count_from expected (length seqs)) × (expected ≡ 0 → seqs ≡ [])

Counted-suc :
    (n : ℕ) (rest : List ℕ) → n < u64_mod → 0 < n → Counted (u64_suc n) rest → Counted n (n ∷ rest)
Counted-suc n rest bound positive (h, z) = elim (Bool-cases (ltb (n + 1) u64_mod)) [
  | inl room ↦ (ground (arith, h), ground arith)
  | inr last ↦ (ground (arith, z), ground arith)
]

-- A mutation is let through only as the one that is expected.
accept_in-cases :
    (st : SessionState) (s s' : Session) (seq : ℕ) (duplicate : Bool) (o : Option Error)
    → accept_in st s seq ≡ (s', duplicate, o)
    → ((s'.expected_mutation ≡ s.expected_mutation)
        × ((duplicate ≡ true) ⊎ ((e : Error) × (o ≡ some e))))
      ⊎ ((duplicate ≡ false)
          × (o ≡ none)
          × (seq ≡ s.expected_mutation)
          × (0 < seq)
          × (s'.expected_mutation ≡ u64_suc s.expected_mutation))
accept_in-cases new_state s s' seq duplicate o h =
    inl (ground arith, inr (_, sym (ap (λ r. r.2) h)))
accept_in-cases draining s s' seq duplicate o h = inl (ground arith, inr (_, sym (ap (λ r. r.2) h)))
accept_in-cases closed s s' seq duplicate o h = inl (ground arith, inr (_, sym (ap (λ r. r.2) h)))
accept_in-cases ready s s' seq duplicate o h = elim (Bool-cases (seq == 0)) [
  | inl first ↦ inl (ground arith, inr (fatal_error "protocol.invalid_sequence", ground arith))
  | inr positive ↦ elim (Bool-cases (ltb seq s.expected_mutation)) [
    | inl old ↦ inl (ground arith, inl (ground arith))
    | inr new ↦ elim (Bool-cases (ltb s.expected_mutation seq)) [
      | inl gap ↦ inl (ground arith, inr (fatal_error "protocol.sequence_gap", ground arith))
      | inr next ↦ inr (ground arith, ground arith, ground arith, ground arith, ground arith)
    ]
  ]
]

fresh-refused :
    (seq : ℕ) (duplicate : Bool) (o : Option Error) (rest : List ℕ)
    → (duplicate ≡ true) ⊎ ((e : Error) × (o ≡ some e))
    → fresh seq duplicate o rest ≡ rest
fresh-refused seq true none rest h = refl
fresh-refused seq false none rest (inl d) = cc
fresh-refused seq false none rest (inr (e, r)) = cc
fresh-refused seq true (some e) rest h = refl
fresh-refused seq false (some e) rest h = refl

fresh-through :
    (seq n : ℕ) (duplicate : Bool) (o : Option Error) (rest : List ℕ)
    → duplicate ≡ false
    → o ≡ none
    → seq ≡ n
    → fresh seq duplicate o rest ≡ n ∷ rest
fresh-through seq n duplicate o rest d e h = ground arith

accept_mutation-Counted :
    (s s' : Session) (seq : ℕ) (duplicate : Bool) (o : Option Error) (rest : List ℕ)
    → accept_mutation s seq ≡ (s', duplicate, o)
    → s.expected_mutation < u64_mod
    → (s'.expected_mutation < u64_mod → Counted s'.expected_mutation rest)
    → Counted s.expected_mutation (fresh seq duplicate o rest)
unfolding accept_mutation
accept_mutation-Counted s s' seq duplicate o rest e bound h =
    elim (accept_in-cases s.state s s' seq duplicate o e) [
      | inl (same, refused) ↦
          subst (Counted s.expected_mutation) (sym (fresh-refused seq duplicate o rest refused))
            (subst (λ n. Counted n rest) same (h (ground arith)))
      | inr (d, n, expected, positive, counter) ↦
          subst (Counted s.expected_mutation)
            (sym (fresh-through seq s.expected_mutation duplicate o rest d n expected))
            (Counted-suc s.expected_mutation rest bound (ground arith)
              (subst (λ m. Counted m rest) counter (h (ground arith))))
    ]

negotiate-expected :
    (s : Session) (h : Hello) → (negotiate s h).0.expected_mutation ≡ s.expected_mutation
unfolding negotiate
negotiate-expected s h = ground arith

drain-expected : (s : Session) → (drain s).expected_mutation ≡ s.expected_mutation
unfolding drain
drain-expected s = ground arith

accepted-Counted :
    (s : Session) (cs : List Call)
    → s.expected_mutation < u64_mod
    → Counted s.expected_mutation (accepted s cs)
unfolding accepted step close
accepted-Counted s [] bound = (refl, λ e. refl)
accepted-Counted s (negotiates h ∷ cs) bound =
    subst (λ n. Counted n (accepted (negotiate s h).0 cs)) (negotiate-expected s h)
      (accepted-Counted (negotiate s h).0 cs (ground (arith, negotiate-expected s h)))
accepted-Counted s (accepts seq ∷ cs) bound =
    accept_mutation-Counted s (accept_mutation s seq).0 seq _ _ _ refl bound
      (accepted-Counted (accept_mutation s seq).0 cs)
accepted-Counted s (drains ∷ cs) bound =
    subst (λ n. Counted n (accepted (drain s) cs)) (drain-expected s)
      (accepted-Counted (drain s) cs (ground (arith, drain-expected s)))
accepted-Counted s (closes ∷ cs) bound = accepted-Counted (close s) cs bound

-- A session that is draining or closed.
abbrev Over : SessionState → Type 0
Over st = (st ≡ draining) ⊎ (st ≡ closed)

accept_in-Over : (st : SessionState) (s : Session) (seq : ℕ) → Over st → (accept_in st s seq).0 ≡ s
accept_in-Over ready s seq over = ground arith
accept_in-Over _ s seq over = refl

accept_in-refused :
    (st : SessionState) (s : Session) (seq : ℕ) (rest : List ℕ)
    → Over st
    → fresh seq (accept_in st s seq).1 (accept_in st s seq).2 rest ≡ rest
accept_in-refused ready s seq rest over = ground arith
accept_in-refused _ s seq rest over = refl

step-Over : (s : Session) (c : Call) → Over s.state → Over (step s c).state
unfolding step negotiate accept_mutation drain close
step-Over s (negotiates h) over = ground arith
step-Over s (accepts seq) over =
    subst (λ t. Over t.state) (sym (accept_in-Over s.state s seq over)) over
step-Over s drains over = ground arith
step-Over s closes over = inr refl

accepted-Over : (s : Session) (cs : List Call) → Over s.state → accepted s cs ≡ []
unfolding accepted accept_mutation step
accepted-Over s [] over = refl
accepted-Over s (accepts seq ∷ cs) over =
    accept_in-refused s.state s seq (accepted (accept_mutation s seq).0 cs) over
    ∙ accepted-Over (accept_mutation s seq).0 cs (step-Over s (accepts seq) over)
accepted-Over s (negotiates h ∷ cs) over =
    accepted-Over (step s (negotiates h)) cs (step-Over s (negotiates h) over)
accepted-Over s (drains ∷ cs) over = accepted-Over (step s drains) cs (step-Over s drains over)
accepted-Over s (closes ∷ cs) over = accepted-Over (step s closes) cs (step-Over s closes over)

accept_in-gap :
    (st : SessionState) (s : Session) (seq : ℕ)
    → s.state ≡ st
    → s.expected_mutation < seq
    → (st ≡ new_state)
      ⊎ (Over (accept_in st s seq).0.state
          × ((rest : List ℕ) → fresh seq (accept_in st s seq).1 (accept_in st s seq).2 rest ≡ rest))
accept_in-gap new_state s seq e gap = inl refl
accept_in-gap draining s seq e gap = inr (inl e, λ rest. refl)
accept_in-gap closed s seq e gap = inr (inr e, λ rest. refl)
accept_in-gap ready s seq e gap = inr (ground arith, λ rest. ground arith)

accepted-gap :
    (s : Session) (seq : ℕ) (later : List Call)
    → s.expected_mutation < seq
    → (s.state ≡ new_state) ⊎ (accepted s (accepts seq ∷ later) ≡ [])
unfolding accepted accept_mutation
accepted-gap s seq later gap = elim (accept_in-gap s.state s seq refl gap) [
  | inl fresh ↦ inl fresh
  | inr (over, refused) ↦ inr (refused _ ∙ accepted-Over (accept_mutation s seq).0 later over)
]

-- Whatever calls are made on a new session, the mutations it lets through are number 1, 2, 3 and so on,
-- each once and none left out. Where the session is no longer NEW, a mutation beyond the next number is a gap:
-- neither it nor anything after it is let through, whatever calls follow.
pub accepted-run :
    (id : String) (limits : Limits) (cs : List Call) (seq : ℕ) (later : List Call)
    → (accepted (new id limits) cs ≡ count_from 1 (length (accepted (new id limits) cs)))
      × ((seq ≤ (run (new id limits) cs).expected_mutation)
          ⊎ ((run (new id limits) cs).state ≡ new_state)
          ⊎ (accepted (run (new id limits) cs) (accepts seq ∷ later) ≡ []))
unfolding new
accepted-run id limits cs seq later = (
  (accepted-Counted (new id limits) cs (omega arith)).0,
  elim (Bool-cases (ltb (run (new id limits) cs).expected_mutation seq)) [
    | inl gap ↦ inr (accepted-gap (run (new id limits) cs) seq later (ground arith))
    | inr within ↦ inl (ground arith)
  ],
)
