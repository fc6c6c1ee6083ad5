-- ===== src/Network/Acceptor/Handlers.antt =====
-- The acceptor's set of session handlers, over every sequence of accepts and closed sessions.
use librtaio.Base.{
  ℕ, ◌≡◌, ◌≢◌, refl, sym, ap, subst, ◌∙◌, ◌⊎◌, inl, inr, true, false, List, [], ◌∷◌, Option, none,
  some, ◌==◌, ne→eq, ==_refl, Bool-cases, arith, done, done-inj,
}
use librtaio.Network.Acceptor.{
  Acceptor, is_member, insert, erase, remove_session_handler, start_acceptor, handle_accept,
}

eq→≡ : (a b : ℕ) → (a == b) ≡ true → a ≡ b
eq→≡ a b h = ground arith

pub IsUnique : List ℕ → Type 0
IsUnique [] = Unit
IsUnique (a ∷ rest) = (is_member a rest ≡ false) × IsUnique rest

-- What insert and erase do to the members.
pub is_member-insert-same : (a : ℕ) (bs : List ℕ) → is_member a (insert a bs) ≡ true
is_member-insert-same a bs = elim (Bool-cases (is_member a bs)) [
  | inl e ↦ rw (e, e)
  | inr e ↦ rw (e, ==_refl a)
]

is_member-insert-other :
    (a b : ℕ) (bs : List ℕ) → is_member a bs ≡ true → is_member a (insert b bs) ≡ true
is_member-insert-other a b bs h = elim (Bool-cases (is_member b bs)) [
  | inl e ↦ rw (e, h)
  | inr e ↦ rw (e, h) (ground arith)
]

pub is_member-erase-same : (a : ℕ) (bs : List ℕ) → is_member a (erase a bs) ≡ false
is_member-erase-same a [] = refl
is_member-erase-same a (b ∷ bs) = elim (Bool-cases (a == b)) [
  | inl e ↦ rw (e, is_member-erase-same a bs)
  | inr e ↦ rw (e, e, is_member-erase-same a bs)
]

pub is_member-erase-other :
    (a b : ℕ) (bs : List ℕ) → a ≢ b → is_member a (erase b bs) ≡ is_member a bs
is_member-erase-other a b [] ne = refl
is_member-erase-other a b (c ∷ bs) ne = elim (Bool-cases (b == c)) [
  | inl e ↦
      let other : (a == c) ≡ false = ne→eq a c (λ same. ne (same ∙ sym (eq→≡ b c e))) in
      rw (e, other, is_member-erase-other a b bs ne)
  | inr e ↦ rw (e, is_member-erase-other a b bs ne)
]

is_member-insert-old :
    (a b : ℕ) (bs : List ℕ)
    → (b == a) ≡ false
    → is_member b (insert a bs) ≡ true
    → is_member b bs ≡ true
is_member-insert-old a b bs e h = elim (Bool-cases (is_member a bs)) [
  | inl m ↦ (rw m at h)
  | inr m ↦ (rw e at (rw m at h))
]

insert-IsUnique : (a : ℕ) (bs : List ℕ) → IsUnique bs → IsUnique (insert a bs)
unfolding IsUnique
insert-IsUnique a bs u = elim (Bool-cases (is_member a bs)) [ inl e ↦ rw e u | inr e ↦ rw e (e, u) ]

erase-false : (a b : ℕ) (bs : List ℕ) → is_member a bs ≡ false → is_member a (erase b bs) ≡ false
erase-false a b bs h = elim (Bool-cases (a == b)) [
  | inl e ↦
      subst (λ x. is_member x (erase b bs) ≡ false) (sym (eq→≡ a b e)) (is_member-erase-same b bs)
  | inr e ↦ is_member-erase-other a b bs (λ same. absurd (ground arith)) ∙ h
]

erase-IsUnique : (a : ℕ) (bs : List ℕ) → IsUnique bs → IsUnique (erase a bs)
unfolding IsUnique
erase-IsUnique a [] u = u
erase-IsUnique a (b ∷ bs) (n, u) = elim (Bool-cases (a == b)) [
  | inl e ↦ rw e (erase-IsUnique a bs u)
  | inr e ↦ rw e (erase-false b a bs n, erase-IsUnique a bs u)
]

abbrev pub no_handlers : Acceptor
no_handlers = record { handlers = []; accepting = none; started = []; deleted = [] }

-- The states of a server: it starts; an accept ends, and a new handler waits for the next client;
-- an accept fails; or a session with a client closes. A new handler's address is not in use.
pub data Reachable : Acceptor → Type 0 where
  begin : {s : Acceptor} (a : ℕ) → start_acceptor (some a) no_handlers ≡ done s → Reachable s
  accepted :
      {s s' : Acceptor} (a handler : ℕ)
      → Reachable s
      → s.accepting ≡ some handler
      → is_member a s.handlers ≡ false
      → handle_accept (some a) handler false s ≡ done s'
      → Reachable s'
  refused :
      {s s' : Acceptor} (handler : ℕ)
      → Reachable s
      → s.accepting ≡ some handler
      → handle_accept none handler true s ≡ done s'
      → Reachable s'
  closed :
      {s : Acceptor} (a : ℕ)
      → Reachable s
      → s.accepting ≢ some a
      → Reachable (remove_session_handler a s)

-- Every handler stands once in the set, the one that waits for a client is in it, and every other
-- one was started.
pub record IsGood (s : Acceptor) : Type 0 where
  pub unique : IsUnique s.handlers
  pub waits : (a : ℕ) → s.accepting ≡ some a → is_member a s.handlers ≡ true
  pub known :
      (b : ℕ)
      → is_member b s.handlers ≡ true
      → (s.accepting ≡ some b) ⊎ (is_member b s.started ≡ true)

some-inj : {a b : ℕ} → some a ≡ some b → a ≡ b
some-inj e = cc

-- A new handler waits, and what was known before is still known.
waiting-IsGood :
    (a : ℕ) (hs started deleted : List ℕ)
    → IsUnique hs
    → ((b : ℕ) → is_member b hs ≡ true → is_member b started ≡ true)
    → IsGood (record {
      handlers = insert a hs;
      accepting = some a;
      started = started;
      deleted = deleted;
    })
waiting-IsGood a hs started deleted u known = record {
  unique = insert-IsUnique a hs u;
  waits = λ b e.
      subst (λ x. is_member x (insert a hs) ≡ true) (some-inj e) (is_member-insert-same a hs);
  known = λ b h. elim (Bool-cases (b == a)) [
    | inl e ↦ inl (ap some (sym (eq→≡ b a e)))
    | inr e ↦ inr (known b (is_member-insert-old a b hs e h))
  ];
}

-- The handler that waited was told to start.
started_known :
    (s : Acceptor) (handler : ℕ)
    → IsGood s
    → s.accepting ≡ some handler
    → (b : ℕ) → is_member b s.handlers ≡ true
    → is_member b (handler ∷ s.started) ≡ true
started_known s handler good e b h = elim (good.known b h) [
  | inl waits ↦
      let same : b ≡ handler = some-inj (sym waits ∙ e) in
      subst (λ x. is_member x (handler ∷ s.started) ≡ true) (sym same) (rw (==_refl handler))
  | inr k ↦ elim (Bool-cases (b == handler)) [ inl same ↦ rw same | inr other ↦ rw other k ]
]

removed-IsGood :
    (a : ℕ) (s : Acceptor) (o : Option ℕ) (deleted : List ℕ)
    → IsGood s
    → ((b : ℕ) → o ≡ some b → (s.accepting ≡ some b) × (b ≢ a))
    → ((b : ℕ) → s.accepting ≡ some b → b ≢ a → o ≡ some b)
    → IsGood (record s { handlers = erase a s.handlers; accepting = o; deleted = deleted })
removed-IsGood a s o deleted good keeps kept = record {
  unique = erase-IsUnique a s.handlers good.unique;
  waits = λ b e. let k = keeps b e in is_member-erase-other b a s.handlers k.1 ∙ good.waits b k.0;
  known = λ b h. elim (Bool-cases (b == a)) [
    | inl same ↦
        let gone =
          subst (λ x. is_member x (erase a s.handlers) ≡ false) (sym (eq→≡ b a same))
            (is_member-erase-same a s.handlers) in
        absurd (ground arith)
    | inr other ↦
        let ne : b ≢ a = λ same. absurd (ground arith) in
        elim (good.known b (sym (is_member-erase-other b a s.handlers ne) ∙ h)) [
          | inl waits ↦ inl (kept b waits ne)
          | inr k ↦ inr k
        ]
  ];
}

-- In every state that an acceptor reaches by starting, by accepted and refused connections and by
-- closing sessions, where a new handler's address is not in the set, no handler stands twice in
-- the set, the one that waits for a client is in it, and every other one was started.
pub Reachable-IsGood : (s : Acceptor) → Reachable s → IsGood s
unfolding start_acceptor handle_accept remove_session_handler IsUnique
Reachable-IsGood s (begin a e) =
    subst IsGood (done-inj e) (waiting-IsGood a [] [] [] tt (λ b h. absurd (ground arith)))
Reachable-IsGood s' (accepted {s} a handler r waits fresh e) =
    let good = Reachable-IsGood s r in
    subst IsGood (done-inj e) (
      waiting-IsGood a s.handlers (handler ∷ s.started) s.deleted good.unique
        (started_known s handler good waits))
Reachable-IsGood s' (refused {s} handler r waits e) =
    let good = Reachable-IsGood s r in
    subst IsGood (done-inj e) (
      removed-IsGood handler s none (handler ∷ s.deleted) good (λ b n. absurd (ground arith))
        (λ b w ne. absurd (ne (some-inj (sym w ∙ waits)))))
Reachable-IsGood s' (closed {s} a r other) =
    removed-IsGood a s s.accepting s.deleted (Reachable-IsGood s r)
      (λ b e. (e, λ same. other (subst (λ x. s.accepting ≡ some x) same e))) (λ b e ne. e)
