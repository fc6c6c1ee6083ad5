-- ===== src/Network/Service/Isolation.antt =====
-- What the sessions of a service can do to each other and to the acceptor's set.
use librtaio.Base.{
  ℕ, ◌≡◌, ◌≢◌, refl, sym, ap, subst, ◌∙◌, Bool, true, false, List, [], ◌∷◌, Option, none, some,
  ◌==◌, ==_refl, ne→eq, Bool-cases, inl, inr, Outcome, done, ◌>>=◌, arith, Always, always,
  Always->>=,
}
use librtaio.Stream.Host.{Host}
use librtaio.Network.Acceptor.{is_member, erase, remove_session_handler}
use librtaio.Network.Acceptor.Handlers.{is_member-erase-same, is_member-erase-other}
use librtaio.Network.Session.{Session, Server, complete_write}
use librtaio.Network.Session.Scope.{InScope, handlers-InScope}
use librtaio.Network.Service.{
  World, find, forget, put, received, read_failed, written, reset, for_session, lose_peer,
  handle_event,
}

abbrev pub is_live : Option Session → Bool
is_live none = false
is_live (some s) = s.live

-- The acceptor's set holds exactly the addresses of the live sessions.
unfoldable pub IsSound : World → Type 0
IsSound w = (b : ℕ) → is_member b w.acceptor.handlers ≡ is_live (find b w.sessions)

pub eq→≡ : (a b : ℕ) → (a == b) ≡ true → a ≡ b
eq→≡ a b h = ground arith

pub find-forget-same : (a : ℕ) (ss : List Session) → find a (forget a ss) ≡ none
find-forget-same a [] = refl
find-forget-same a (s ∷ ss) = elim (Bool-cases (a == s.address)) [
  | inl e ↦ rw e (find-forget-same a ss)
  | inr e ↦ simp (e, find-forget-same a ss)
]

pub find-forget-other : (a b : ℕ) (ss : List Session) → b ≢ a → find b (forget a ss) ≡ find b ss
find-forget-other a b [] ne = refl
find-forget-other a b (s ∷ ss) ne = elim (Bool-cases (a == s.address)) [
  | inl e ↦
      let off : (b == s.address) ≡ false =
        ne→eq b s.address (λ same. ne (same ∙ sym (eq→≡ a s.address e))) in
      simp (e, off, find-forget-other a b ss ne)
  | inr e ↦ simp (e, find-forget-other a b ss ne)
]

session-inj : {s t : Session} → some s ≡ some t → s ≡ t
session-inj e = cc

pub find_address : (a : ℕ) (ss : List Session) (s : Session) → find a ss ≡ some s → s.address ≡ a
find_address a [] s e = cc
find_address a (t ∷ ss) s e = elim (Bool-cases (a == t.address)) [
  | inl same ↦
      let head : some t ≡ some s = (simp same at e) in
      ap (λ x. x.address) (sym (session-inj head)) ∙ sym (eq→≡ a t.address same)
  | inr other ↦ find_address a ss s (simp other at e)
]

-- A handler of the session at `a` leaves all other sessions alone, and makes none.
pub record Apart (a : ℕ) (w w' : World) : Type 0 where
  pub sessions : (b : ℕ) → b ≢ a → find b w'.sessions ≡ find b w.sessions
  pub handlers :
      (b : ℕ) → b ≢ a → is_member b w'.acceptor.handlers ≡ is_member b w.acceptor.handlers
  pub own : is_member a w'.acceptor.handlers ≡ is_live (find a w'.sessions)
  pub lived : is_live (find a w'.sessions) ≡ true → is_live (find a w.sessions) ≡ true
  pub accepting : w'.acceptor.accepting ≡ w.acceptor.accepting

pub find-put-other :
    (a b : ℕ) (s : Session) (ss : List Session)
    → s.address ≡ a
    → b ≢ a
    → find b (put a s ss) ≡ find b ss
find-put-other a b s ss at ne =
    let off : (b == s.address) ≡ false = ne→eq b s.address (λ same. ne (same ∙ at)) in
    elim (Bool-cases s.live) [
      | inl live ↦ simp (live, off, find-forget-other a b ss ne)
      | inr dead ↦ simp (dead, find-forget-other a b ss ne)
    ]

pub find-put-same :
    (a : ℕ) (s : Session) (ss : List Session)
    → s.address ≡ a
    → is_live (find a (put a s ss)) ≡ s.live
find-put-same a s ss at = elim (Bool-cases s.live) [
  | inl live ↦ let on : (a == s.address) ≡ true = rw (at, ==_refl a) in simp (live, on)
  | inr dead ↦ simp (dead, find-forget-same a ss)
]

pub find-put-live :
    (a : ℕ) (s : Session) (ss : List Session)
    → s.address ≡ a
    → s.live ≡ true
    → find a (put a s ss) ≡ some s
find-put-live a s ss at live =
    let on : (a == s.address) ≡ true = rw (at, ==_refl a) in simp (live, on)

-- What InScope says of one session, said of the service.
scope-Apart :
    (a : ℕ) (w : World) (s : Session) (s' : Server)
    → IsSound w
    → find a w.sessions ≡ some s
    → InScope (record { session = s; acceptor = w.acceptor }) s'
    → Apart a w (record { acceptor = s'.acceptor; sessions = put a s'.session w.sessions })
unfolding IsSound remove_session_handler
scope-Apart a w s s' sound found (InScope.stays same live acceptor) =
    let at = find_address a w.sessions s found in
    record {
      sessions = λ b ne. find-put-other a b s'.session w.sessions (same ∙ at) ne;
      handlers = λ b ne. ap (λ x. is_member b x.handlers) acceptor;
      own =
          ap (λ x. is_member a x.handlers) acceptor
          ∙ sound a
          ∙ ap is_live found
          ∙ sym live
          ∙ sym (find-put-same a s'.session w.sessions (same ∙ at));
      lived = λ there.
          ap is_live found
          ∙ sym live
          ∙ sym (find-put-same a s'.session w.sessions (same ∙ at))
          ∙ there;
      accepting = ap (λ x. x.accepting) acceptor;
    }
scope-Apart a w s s' sound found (InScope.leaves dead quiet acceptor) =
    let at = find_address a w.sessions s found in
    record {
      sessions = λ b ne. simp (dead, find-forget-other a b w.sessions ne);
      handlers = λ b ne.
          ap (λ x. is_member b x.handlers) acceptor
          ∙ is_member-erase-other b s.address w.acceptor.handlers (λ same. ne (same ∙ at));
      own =
          ap (λ x. is_member a x.handlers) acceptor
          ∙ subst (λ k. is_member k (erase s.address w.acceptor.handlers) ≡ false) at
              (is_member-erase-same s.address w.acceptor.handlers)
          ∙ sym (simp (dead, find-forget-same a w.sessions));
      lived = λ there.
          let gone : is_live (find a (put a s'.session w.sessions)) ≡ false =
            simp (dead, find-forget-same a w.sessions) in
          absurd (ground arith);
      accepting = ap (λ x. x.accepting) acceptor;
    }

for_session-Apart :
    (a : ℕ) (handler : Server → Outcome Server) (w : World) (o : Option Session)
    → ((s : Server) → Always (InScope s) (handler s))
    → IsSound w
    → find a w.sessions ≡ o
    → Always (Apart a w) (for_session a handler w o)
unfolding IsSound
for_session-Apart a handler w none scope sound e = always (record {
  sessions = λ b ne. refl;
  handlers = λ b ne. refl;
  own = sound a;
  lived = λ live. live;
  accepting = refl;
})
for_session-Apart a handler w (some s) scope sound e =
    let server : Server = record { session = s; acceptor = w.acceptor } in
    Always->>= (handler server) _ (scope server) λ s' p. always (scope-Apart a w s s' sound e p)

module _ (h : Host) (now : ℕ) where
  pub written_scope :
      (error : Bool) (s : Server)
      → Always (InScope s) (complete_write h now error s >>= λ r. done r.1)
  written_scope error s =
      Always->>= (complete_write h now error s) _ ((handlers-InScope h now [] error s).2)
        λ r p. always p

  -- In a state where the acceptor's set holds exactly the live sessions, whatever one client does,
  -- whether it sends any bytes, in a piece of any size, closes or resets its connection, or takes
  -- an answer or does not: if its handler is done, all other sessions are what they were, their
  -- places in the acceptor's set too, and so is the accept that waits (Apart).
  pub client-Apart :
      (a : ℕ) (bytes : List ℕ) (error : Bool) (w : World)
      → IsSound w
      → Always (Apart a w) (handle_event h now (received a bytes) w)
        × Always (Apart a w) (handle_event h now (read_failed a) w)
        × Always (Apart a w) (handle_event h now (written a error) w)
        × Always (Apart a w) (handle_event h now (reset a) w)
  unfolding handle_event
  client-Apart a bytes error w sound =
      let o = find a w.sessions in
      (
        for_session-Apart a _ w o (λ s. (handlers-InScope h now bytes error s).0) sound refl,
        for_session-Apart a _ w o (λ s. (handlers-InScope h now bytes error s).1) sound refl,
        for_session-Apart a _ w o (λ s. written_scope error s) sound refl,
        for_session-Apart a lose_peer w o (λ s. always (InScope.stays refl refl refl)) sound refl,
      )
