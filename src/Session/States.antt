-- ===== src/Session/States.antt =====
-- session/session.go: the state machine of a session only goes forward.
use a2ui_persistent_daemon.Base.{
  ℕ, ◌≡◌, ◌≤◌, ◌<◌, refl, sym, subst, ◌∙◌, ◌⊎◌, pos, Bool, true, false, Option, none, some, List,
  [], ◌∷◌, arith, ltb, ltb→lt, ltb→le, ◌==◌, Bool-cases, inl, inr, if◌then◌else◌,
}
use a2ui_persistent_daemon.Protocol.Types.{Error, Result}
use a2ui_persistent_daemon.Protocol.Handshake.{Hello, HelloAck, validate_hello, mem_int}
use a2ui_persistent_daemon.Session.Core.{
  SessionState, new_state, ready, draining, closed, Session, negotiate, negotiate_in,
  negotiate_checked, accept_mutation, accept_in, drain, drain_in, close,
}
use a2ui_persistent_daemon.Session.Sequence.{
  Call, negotiates, accepts, drains, closes, step, run, accepted, fresh,
}

-- The changes of state that the methods make.
pub data Moves : SessionState → SessionState → Type 0 where
  stays : {st : SessionState} → Moves st st
  greets : Moves new_state ready
  winds_down : Moves ready draining
  ends : {st : SessionState} → Moves st closed

abbrev pub rank : SessionState → ℕ
rank new_state = 0
rank ready = 1
rank draining = 2
rank closed = 3

rank-le : (st : SessionState) → rank st ≤ 3
rank-le st = ground arith

Moves-le : {a b : SessionState} → Moves a b → rank a ≤ rank b
Moves-le stays = omega arith
Moves-le greets = omega arith
Moves-le winds_down = omega arith
Moves-le {a = a} ends = rank-le a

-- What holds of both results of a conditional holds of the conditional.
if-both : {A : Type 0} (P : A → Type 0) (b : Bool) {x y : A} → P x → P y → P (if b then x else y)
if-both P true p q = p
if-both P false p q = q

checked-Moves :
    (s : Session) (h : Hello) (o : Option Error)
    → s.state ≡ new_state
    → Moves new_state (negotiate_checked s h o).0.state
checked-Moves s h (some e) st = subst (Moves new_state) (sym st) stays
checked-Moves s h none st =
    if-both {A = Session × Result HelloAck} (λ r. Moves new_state r.0.state)
      (mem_int (pos 1) h.versions) greets (subst (Moves new_state) (sym st) stays)

negotiate_in-Moves :
    (st : SessionState) (s : Session) (h : Hello)
    → s.state ≡ st
    → Moves st (negotiate_in st s h).0.state
negotiate_in-Moves new_state s h e = checked-Moves s h (validate_hello h) e
negotiate_in-Moves ready s h e = subst (Moves ready) (sym e) stays
negotiate_in-Moves draining s h e = subst (Moves draining) (sym e) stays
negotiate_in-Moves closed s h e = subst (Moves closed) (sym e) stays

accept_in-Moves :
    (st : SessionState) (s : Session) (seq : ℕ)
    → s.state ≡ st
    → Moves st (accept_in st s seq).0.state
accept_in-Moves ready s seq e =
    let to : Session × Bool × Option Error → Type 0 = λ r. Moves ready r.0.state in
    let here : Moves ready s.state = subst (Moves ready) (sym e) stays in
    if-both to (seq == 0) ends (
      if-both to (ltb seq s.expected_mutation) here
        (if-both to (ltb s.expected_mutation seq) ends here))
accept_in-Moves new_state s seq e = subst (Moves new_state) (sym e) stays
accept_in-Moves draining s seq e = subst (Moves draining) (sym e) stays
accept_in-Moves closed s seq e = subst (Moves closed) (sym e) stays

drain_in-Moves : (st : SessionState) (s : Session) → s.state ≡ st → Moves st (drain_in st s).state
drain_in-Moves ready s e = winds_down
drain_in-Moves new_state s e = subst (Moves new_state) (sym e) stays
drain_in-Moves draining s e = subst (Moves draining) (sym e) stays
drain_in-Moves closed s e = subst (Moves closed) (sym e) stays

-- A session's state changes only from NEW to READY, from READY to DRAINING, and from anywhere to CLOSED.
pub step-Moves : (s : Session) (c : Call) → Moves s.state (step s c).state
unfolding step negotiate accept_mutation drain close
step-Moves s (negotiates h) = negotiate_in-Moves s.state s h refl
step-Moves s (accepts seq) = accept_in-Moves s.state s seq refl
step-Moves s drains = drain_in-Moves s.state s refl
step-Moves s closes = ends

run-le : (s : Session) (cs : List Call) → rank s.state ≤ rank (run s cs).state
unfolding run
run-le s [] = omega arith
run-le s (c ∷ cs) = omega (arith, Moves-le (step-Moves s c), run-le (step s c) cs)

accept_in-done :
    (st : SessionState) (s : Session) (seq : ℕ) (rest : List ℕ)
    → 2 ≤ rank st
    → fresh seq (accept_in st s seq).1 (accept_in st s seq).2 rest ≡ rest
accept_in-done new_state s seq rest h = ground arith
accept_in-done ready s seq rest h = ground arith
accept_in-done draining s seq rest h = refl
accept_in-done closed s seq rest h = refl

accepted-done : (s : Session) (cs : List Call) → 2 ≤ rank s.state → accepted s cs ≡ []
unfolding accepted accept_mutation step
accepted-done s [] h = refl
accepted-done s (accepts seq ∷ cs) h =
    accept_in-done s.state s seq (accepted (step s (accepts seq)) cs) h
    ∙ accepted-done (step s (accepts seq)) cs (omega (arith, Moves-le (step-Moves s (accepts seq))))
accepted-done s (negotiates x ∷ cs) h =
    accepted-done (step s (negotiates x)) cs (omega (arith, Moves-le (step-Moves s (negotiates x))))
accepted-done s (drains ∷ cs) h =
    accepted-done (step s drains) cs (omega (arith, Moves-le (step-Moves s drains)))
accepted-done s (closes ∷ cs) h =
    accepted-done (step s closes) cs (omega (arith, Moves-le (step-Moves s closes)))

-- Over any calls the state of a session never goes back in the order NEW, READY, DRAINING, CLOSED; and one
-- that is draining or closed lets no mutation through.
pub run-forward :
    (s : Session) (cs : List Call)
    → (rank s.state ≤ rank (run s cs).state) × ((rank s.state < 2) ⊎ (accepted s cs ≡ []))
run-forward s cs = (
  run-le s cs,
  elim (Bool-cases (ltb (rank s.state) 2)) [
    | inl early ↦ inl (ltb→lt _ _ early)
    | inr late ↦ inr (accepted-done s cs (ltb→le _ _ late))
  ],
)
