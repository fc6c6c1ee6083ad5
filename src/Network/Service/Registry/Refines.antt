-- ===== src/Network/Service/Registry/Refines.antt =====
-- The service does what its registry says, event after event.
use librtaio.Base.{
  ℕ, ◌≡◌, ◌≢◌, refl, sym, ap, ap₂, fun_ext, ◌∙◌, Bool, true, false, List, [], ◌∷◌, Option, none,
  some, ◌==◌, Bool-cases, inl, inr, Outcome, done, access, ◌>>=◌, >>=-agree, >>=-assoc, arith,
  Always, always,
}
use librtaio.Stream.Host.{Host}
use librtaio.Network.Acceptor.{Acceptor, insert, handle_accept, remove_session_handler}
use librtaio.Network.Acceptor.Handlers.{no_handlers}
use librtaio.Network.Session.{
  Session, Server, session_handler, start, complete_read, fail_read, complete_write,
}
use librtaio.Network.Session.Scope.{InScope, handlers-InScope}
use librtaio.Network.Session.Alone.{Alone, beside, handlers-Alone}
use librtaio.Network.Service.{
  World, find, forget, put, Fresh, address_of, Event, accepted, refused, received, read_failed,
  written, reset, construct, with_peer, lose_peer, accept_session, refuse_session, for_accepting,
  for_session, handle_event,
}
use librtaio.Network.Service.Isolation.{
  written_scope, eq→≡, find-forget-same, find-forget-other, find-put-other, find_address,
}
use librtaio.Network.Service.Soundness.{
  IsNew, Keeps, session_handler-IsNew, start-Keeps, access-Always,
}
use librtaio.Network.Service.Registry.{
  Registry, registry, store, alive, at_address, next_session, accept, refuse, registry_event,
}

-- What a state stands for, of a run's end.
abbrev pub registered : Outcome World → Outcome Registry
registered o = o >>= λ w. done (registry w)

registry-ext :
    (at at' : ℕ → Option Session) (o o' : Option ℕ)
    → ((b : ℕ) → at b ≡ at' b)
    → o ≡ o'
    → Path Registry
        (record { session_at = at; accepting = o })
        (record { session_at = at'; accepting = o' })
registry-ext at at' o o' e e' = ap₂ (λ f x. record { session_at = f; accepting = x }) (fun_ext e) e'

find-put :
    (a b : ℕ) (s : Session) (ss : List Session)
    → s.address ≡ a
    → find b (put a s ss) ≡ store a (alive s) (λ c. find c ss) b
find-put a b s ss at = elim (Bool-cases (b == a)) [
  | inl e ↦ elim (Bool-cases s.live) [
    | inl live ↦ simp (live, e, at)
    | inr dead ↦ rw (dead, e, eq→≡ b a e) (find-forget-same a ss)
  ]
  | inr e ↦ let ne : b ≢ a = λ same. absurd (ground arith) in find-put-other a b s ss at ne ∙ rw e
]

find-forget : (a b : ℕ) (ss : List Session) → find b (forget a ss) ≡ store a none (λ c. find c ss) b
find-forget a b ss = elim (Bool-cases (b == a)) [
  | inl e ↦ rw (e, eq→≡ b a e) (find-forget-same a ss)
  | inr e ↦ let ne : b ≢ a = λ same. absurd (ground arith) in find-forget-other a b ss ne ∙ rw e
]

-- The state that a handler leaves, said of its session only.
scoped_registry :
    (a : ℕ) (w : World) (s : Session) (r : Server)
    → s.address ≡ a
    → InScope (beside s w.acceptor) r
    → registry (record { acceptor = r.acceptor; sessions = put a r.session w.sessions })
      ≡ record (registry w) { session_at = store a (alive r.session) (registry w).session_at }
unfolding remove_session_handler
scoped_registry a w s r at (InScope.stays same live acceptor) =
    registry-ext (λ b. find b (put a r.session w.sessions))
      (store a (alive r.session) (registry w).session_at) r.acceptor.accepting w.acceptor.accepting
      (λ b. find-put a b r.session w.sessions (same ∙ at)) (ap (λ x. x.accepting) acceptor)
scoped_registry a w s r at (InScope.leaves dead quiet acceptor) =
    registry-ext (λ b. find b (put a r.session w.sessions))
      (store a (alive r.session) (registry w).session_at) r.acceptor.accepting w.acceptor.accepting
      (λ b. rw dead (find-forget a b w.sessions)) (ap (λ x. x.accepting) acceptor)

for_session-registry :
    (a : ℕ) (handler : Server → Outcome Server) (w : World) (o : Option Session)
    → Alone handler
    → ((s : Server) → Always (InScope s) (handler s))
    → find a w.sessions ≡ o
    → registered (for_session a handler w o) ≡ at_address a handler (registry w) o
for_session-registry a handler w none alone scope found = refl
for_session-registry a handler w (some s) alone scope found =
    let v = registry w in
    let m = handler (beside s w.acceptor) in
    let next : Session → Registry = λ t. record v { session_at = store a (alive t) v.session_at } in
    >>=-assoc m
      (λ r. done (record { acceptor = r.acceptor; sessions = put a r.session w.sessions }))
      (λ w'. done (registry w'))
    ∙ >>=-agree m _ (λ r. done (next r.session)) (scope (beside s w.acceptor))
        (λ r p. ap done (scoped_registry a w s r (find_address a w.sessions s found) p))
    ∙ sym (>>=-assoc m (λ r. done r.session) (λ t. done (next t)))
    ∙ ap (λ o. o >>= λ t. done (next t)) (alone s w.acceptor no_handlers)
    ∙ >>=-assoc (handler (beside s no_handlers)) (λ r. done r.session) (λ t. done (next t))

-- A new session in the place of whatever was at its address.
pub construct_registry :
    (f : ℕ) (handlers started deleted : List ℕ) (ss : List Session) (v : Registry)
    → ((b : ℕ) → find b ss ≡ v.session_at b)
    → (s : Session) → s.address ≡ f
    → registry (record {
      acceptor = record {
        handlers = handlers;
        accepting = some f;
        started = started;
        deleted = deleted;
      };
      sessions = s ∷ forget f ss;
    })
      ≡ record { session_at = store f (some s) v.session_at; accepting = some f }
construct_registry f handlers started deleted ss v same s at =
    registry-ext (λ b. find b (s ∷ forget f ss)) (store f (some s) v.session_at) (some f) (some f)
      (λ b. elim (Bool-cases (b == f)) [
        | inl e ↦ simp (at, e)
        | inr e ↦
            let ne : b ≢ f = λ same. absurd (ground arith) in
            let off : (b == s.address) ≡ false = rw at e in
            simp (off, e, find-forget-other f b ss ne, same b)
      ])
      refl

-- The new session in the state, after the accepted one was started.
pub next-registry :
    (now : ℕ) (fresh : Fresh) (a : ℕ) (acceptor : Acceptor) (ss : List Session) (v : Registry)
    → ((b : ℕ) → find b ss ≡ v.session_at b)
    → registered (
        construct now fresh ss >>= λ ss'.
        handle_accept (address_of fresh) a false acceptor >>= λ acceptor'.
        done (record { acceptor = acceptor'; sessions = ss' }))
      ≡ next_session now fresh v
unfolding construct handle_accept IsNew
next-registry now none a acceptor ss v same = refl
next-registry now (some (f, raw)) a acceptor ss v same =
    let m = session_handler now f raw in
    ap registered (>>=-assoc m _ _)
    ∙ >>=-assoc m _ _
    ∙ >>=-agree m _ _ (session_handler-IsNew now f raw) λ s new. ap done (
        construct_registry f (insert f acceptor.handlers) (a ∷ acceptor.started) acceptor.deleted ss
          v same s new.0)

accept-registry :
    (now : ℕ) (fresh : Fresh) (there : Bool) (a : ℕ) (w : World)
    → registered (accept_session now fresh there a w) ≡ accept now fresh there (registry w) (some a)
unfolding accept_session Keeps
accept-registry now fresh there a w =
    let v = registry w in
    let o = access (find a w.sessions) in
    >>=-assoc o _ _
    ∙ >>=-agree o _ _ (access-Always (find a w.sessions)) λ s found.
      let m = start (with_peer there s) in
      >>=-assoc m _ _
      ∙ >>=-agree m _ _ (start-Keeps (with_peer there s)) λ s' k.
        next-registry now fresh a w.acceptor (put a s' w.sessions)
          (record v { session_at = store a (alive s') v.session_at })
          (λ b. find-put a b s' w.sessions (k.0 ∙ find_address a w.sessions s found))

refuse-registry :
    (a : ℕ) (w : World) → registered (refuse_session a w) ≡ done (refuse (registry w) (some a))
unfolding refuse_session handle_accept remove_session_handler
refuse-registry a w = ap done (
    registry-ext (λ b. find b (forget a w.sessions)) (store a none (registry w).session_at) none
      none (λ b. find-forget a b w.sessions) refl)

for_accepting-registry :
    (now : ℕ) (fresh : Fresh) (there : Bool) (w : World) (o : Option ℕ)
    → registered (for_accepting (accept_session now fresh there) w o)
      ≡ accept now fresh there (registry w) o
for_accepting-registry now fresh there w none = refl
for_accepting-registry now fresh there w (some a) = accept-registry now fresh there a w

for_refused-registry :
    (w : World) (o : Option ℕ)
    → registered (for_accepting refuse_session w o) ≡ done (refuse (registry w) o)
for_refused-registry w none = refl
for_refused-registry w (some a) = refuse-registry a w

module _ (h : Host) where
  pub handle_event-registry :
      (now : ℕ) (e : Event) (w : World)
      → registered (handle_event h now e w) ≡ registry_event h now e (registry w)
  unfolding handle_event
  handle_event-registry now (accepted fresh there) w =
      for_accepting-registry now fresh there w w.acceptor.accepting
  handle_event-registry now refused w = for_refused-registry w w.acceptor.accepting
  handle_event-registry now (received a bytes) w =
      for_session-registry a (complete_read h now bytes) w (find a w.sessions)
        (handlers-Alone h now bytes true).0 (λ s. (handlers-InScope h now bytes true s).0) refl
  handle_event-registry now (read_failed a) w =
      for_session-registry a (fail_read h now) w (find a w.sessions)
        (handlers-Alone h now [] true).1 (λ s. (handlers-InScope h now [] true s).1) refl
  handle_event-registry now (written a error) w =
      for_session-registry a (λ s. complete_write h now error s >>= λ r. done r.1) w
        (find a w.sessions) (handlers-Alone h now [] error).2 (λ s. written_scope h now error s)
        refl
  handle_event-registry now (reset a) w =
      for_session-registry a lose_peer w (find a w.sessions) (λ s x y. refl)
        (λ s. always (InScope.stays refl refl refl)) refl
