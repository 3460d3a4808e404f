-- ===== src/Session/Negotiation.antt =====
-- session/session.go: what `Negotiate` agrees on.
use a2ui_persistent_daemon.Base.{
  ◌≡◌, refl, ap, ◌∙◌, ◌⊎◌, pos, true, false, ◌&&◌, ◌||◌, Option, none, some, List, [], ◌∷◌, String,
  arith, same, same_iff, Bool-cases, inl, inr,
}
use a2ui_persistent_daemon.Names.{mem, Distinct, same_refl}
use a2ui_persistent_daemon.Protocol.Types.{Error, new_error, fatal_error, Result, ok, err}
use a2ui_persistent_daemon.Protocol.Limits.{validate_limits}
use a2ui_persistent_daemon.Protocol.Handshake.{
  Hello, HelloAck, validate_hello, validate_hello_ack, mem_int, check_features, check_components,
  all_node_types, mem_type,
}
use a2ui_persistent_daemon.Session.Core.{
  SessionState, new_state, ready, draining, closed, Session, negotiate, negotiate_in,
  negotiate_checked, sort, insert_sorted, supported_features, available,
}

mem-insert_sorted :
    (z x : String) (ys : List String) → mem z (insert_sorted x ys) ≡ (same x z || mem z ys)
unfolding mem insert_sorted
mem-insert_sorted z x [] = refl
mem-insert_sorted z x (y ∷ ys) = ground (arith, mem-insert_sorted z x ys)

mem-sort : (z : String) (xs : List String) → mem z (sort xs) ≡ mem z xs
unfolding mem sort
mem-sort z [] = refl
mem-sort z (x ∷ xs) = ground (arith, mem-sort z xs, mem-insert_sorted z x (sort xs))

insert_sorted-Distinct :
    (x : String) (ys : List String) → mem x ys ≡ false → Distinct ys → Distinct (insert_sorted x ys)
unfolding mem insert_sorted
insert_sorted-Distinct x [] h d = (refl, d)
insert_sorted-Distinct x (y ∷ ys) h d =
    ground
      (arith, insert_sorted-Distinct x ys, mem-insert_sorted y x ys, same_iff x y, same_iff y x)

sort-Distinct : (xs : List String) → Distinct xs → Distinct (sort xs)
unfolding sort
sort-Distinct [] d = d
sort-Distinct (x ∷ xs) (h, d) =
    insert_sorted-Distinct x (sort xs) (mem-sort x xs ∙ h) (sort-Distinct xs d)

mem-supported_features :
    (z : String) (xs : List String) → mem z (supported_features xs) ≡ (mem z xs && mem z available)
unfolding mem supported_features
mem-supported_features z [] = refl
mem-supported_features z (x ∷ xs) = elim (Bool-cases (same x z)) [
  | inl e ↦
      let same_answer : mem x available ≡ mem z available =
        ap (λ w. mem w available) ((same_iff x z).0 e) in
      ground (arith, mem-supported_features z xs)
  | inr n ↦ ground (arith, mem-supported_features z xs)
]

supported_features-Distinct : (xs : List String) → Distinct xs → Distinct (supported_features xs)
unfolding supported_features
supported_features-Distinct [] d = d
supported_features-Distinct (x ∷ xs) (h, d) =
    ground (arith, supported_features-Distinct xs d, mem-supported_features x xs)

-- What the loop over a list of features checks.
check_features-Distinct :
    (code : String) (xs seen : List String)
    → check_features code xs seen ≡ none
    → Distinct xs × (mem "" xs ≡ false) × ((z : String) → mem z xs ≡ true → mem z seen ≡ false)
unfolding check_features mem
check_features-Distinct code [] seen h = (_, refl, λ z e. cc)
check_features-Distinct code (x ∷ xs) seen h =
    let (d, e, apart) = check_features-Distinct code xs (x ∷ seen) (ground arith) in
    (
      (here d apart, d),
      ground arith,
      λ z m. elim (Bool-cases (same x z)) [
        | inl k ↦ ground (arith, same_iff x z)
        | inr k ↦ ground (arith, apart z)
      ],
    )
  where
    here :
        Distinct xs
        → ((z : String) → mem z xs ≡ true → (same x z || mem z seen) ≡ false)
        → mem x xs ≡ false
    here d apart = elim (Bool-cases (mem x xs)) [
      | inl m ↦ ground (arith, apart x m, same_refl x)
      | inr m ↦ m
    ]

check_features_of :
    (code : String) (xs seen : List String)
    → Distinct xs
    → mem "" xs ≡ false
    → ((z : String) → mem z xs ≡ true → mem z seen ≡ false)
    → check_features code xs seen ≡ none
unfolding check_features mem
check_features_of code [] seen d e h = refl
check_features_of code (x ∷ xs) seen (n, d) e h =
    let later : check_features code xs (x ∷ seen) ≡ none =
      check_features_of code xs (x ∷ seen) d (ground arith) (λ z m. elim (Bool-cases (same x z)) [
        | inl k ↦ ground (arith, same_iff x z)
        | inr k ↦ ground (arith, h z)
      ]) in
    ground (arith, h x, same_refl x)

validate_hello-features :
    (h : Hello)
    → validate_hello h ≡ none
    → check_features "schema.invalid_hello" h.features [] ≡ none
unfolding validate_hello
validate_hello-features h e = ground arith

-- What a `Hello` and the session's limits are agreed on as.
pub record Agreed (s : Session) (h : Hello) (ack : HelloAck) (s' : Session) : Type 0 where
  pub valid : validate_hello h ≡ none
  pub is_new : s.state ≡ new_state
  pub offered : mem_int (pos 1) h.versions ≡ true
  pub becomes_ready : s'.state ≡ ready
  pub ack_valid : validate_hello_ack ack ≡ none
  pub common : (f : String) → mem f ack.features ≡ (mem f h.features && mem f available)
  pub ack_limits : ack.limits ≡ s.limits
  pub same_features : s'.features ≡ ack.features
  pub same_expected : s'.expected_mutation ≡ s.expected_mutation

ack-valid :
    (s : Session) (h : Hello)
    → validate_hello h ≡ none
    → validate_limits s.limits ≡ none
    → validate_hello_ack (record {
      version = pos 1;
      features = sort (supported_features h.features);
      components = all_node_types;
      limits = s.limits;
    })
      ≡ none
unfolding validate_hello_ack check_components mem_type
ack-valid s h v l =
    let (d, e, apart) =
      check_features-Distinct "schema.invalid_hello" h.features [] (validate_hello-features h v) in
    let features : check_features "schema.invalid_hello_ack" (sort (supported_features h.features))
          []
        ≡ none =
      check_features_of "schema.invalid_hello_ack" (sort (supported_features h.features)) []
        (sort-Distinct (supported_features h.features) (supported_features-Distinct h.features d))
        (ground (
          arith,
          mem-sort "" (supported_features h.features),
          mem-supported_features "" h.features,
        ))
        (λ z m. unfold mem in refl) in
    ground arith

checked-lem :
    (s s' : Session) (h : Hello) (r : Result HelloAck) (o : Option Error)
    → validate_limits s.limits ≡ none
    → s.state ≡ new_state
    → validate_hello h ≡ o
    → negotiate_checked s h o ≡ (s', r)
    → ((ack : HelloAck) × (r ≡ ok ack) × Agreed s h ack s') ⊎ ((e : Error) × (r ≡ err e) × (s' ≡ s))
checked-lem s s' h r (some perr) l st v e = inr (perr, ground arith, ground arith)
checked-lem s s' h r none l st v e = elim (Bool-cases (mem_int (pos 1) h.versions)) [
  | inr n ↦ inr (fatal_error "protocol.version_mismatch", ground arith, ground arith)
  | inl offered ↦ inl (
    record {
      version = pos 1;
      features = sort (supported_features h.features);
      components = all_node_types;
      limits = s.limits;
    },
    ground arith,
    record {
      valid = v;
      is_new = st;
      offered = offered;
      becomes_ready = ground arith;
      ack_valid = ack-valid s h v l;
      common =
          λ f. mem-sort f (supported_features h.features) ∙ mem-supported_features f h.features;
      ack_limits = refl;
      same_features = ground arith;
      same_expected = ground arith;
    },
  )
]

negotiate_in-lem :
    (st : SessionState) (s s' : Session) (h : Hello) (r : Result HelloAck)
    → validate_limits s.limits ≡ none
    → s.state ≡ st
    → negotiate_in st s h ≡ (s', r)
    → ((ack : HelloAck) × (r ≡ ok ack) × Agreed s h ack s') ⊎ ((e : Error) × (r ≡ err e) × (s' ≡ s))
negotiate_in-lem new_state s s' h r l st e = checked-lem s s' h r (validate_hello h) l st refl e
negotiate_in-lem ready s s' h r l st e =
    inr (new_error "protocol.invalid_state", ground arith, ground arith)
negotiate_in-lem draining s s' h r l st e =
    inr (new_error "protocol.invalid_state", ground arith, ground arith)
negotiate_in-lem closed s s' h r l st e =
    inr (new_error "protocol.invalid_state", ground arith, ground arith)

-- A hello that is answered with an ack was valid, on a new session, and offered version 1; the session is then
-- ready, and its ack, which passes the check of the peer, has the session's limits and those of the
-- requested features that are available.
-- Otherwise the session has not changed.
pub negotiate-lem :
    (s s' : Session) (h : Hello) (r : Result HelloAck)
    → validate_limits s.limits ≡ none
    → negotiate s h ≡ (s', r)
    → ((ack : HelloAck) × (r ≡ ok ack) × Agreed s h ack s') ⊎ ((e : Error) × (r ≡ err e) × (s' ≡ s))
unfolding negotiate
negotiate-lem s s' h r l e = negotiate_in-lem s.state s s' h r l refl e
