-- ===== src/Network/Service/Soundness.antt =====
-- The acceptor's set over every run of the service: it holds exactly the sessions that live.
use librtaio.Base.{
  ℕ, ◌≡◌, ◌≢◌, refl, sym, ap, subst, ◌∙◌, Bool, true, false, List, [], ◌∷◌, Option, none, some,
  ◌==◌, ne→eq, Bool-cases, inl, inr, Outcome, done, access, arith, Always, always, never_fault,
  Always->>=, Always-any->>=, Always-done, Always-map,
}
use librtaio.Stream.Host.{Host}
use librtaio.Protocol.Field.{Field, msg_common_req_fields, msg_value, msg_common}
use librtaio.Protocol.Fields.{fields_size}
use librtaio.Protocol.Send.{resize}
use librtaio.Network.Acceptor.{
  is_member, insert, erase, remove_session_handler, start_acceptor, handle_accept,
}
use librtaio.Network.Acceptor.Handlers.{
  is_member-insert-same, is_member-erase-same, is_member-erase-other,
}
use librtaio.Network.Session.{Session, session_handler, start, remote_endpoint}
use librtaio.Network.Service.{
  World, find, forget, put, Fresh, Event, accepted, refused, received, read_failed, written, reset,
  construct, with_peer, start_service, accept_session, refuse_session, for_accepting, handle_event,
}
use librtaio.Network.Service.Isolation.{
  is_live, IsSound, Apart, client-Apart, eq→≡, find-forget-same, find-forget-other, find-put-same,
  find-put-other, find_address,
}

is_member-insert-off : (a b : ℕ) (bs : List ℕ) → b ≢ a → is_member b (insert a bs) ≡ is_member b bs
is_member-insert-off a b bs ne = elim (Bool-cases (is_member a bs)) [
  | inl m ↦ rw m
  | inr m ↦ rw (m, ne→eq b a ne)
]

Apart-IsSound : (a : ℕ) (w : World) → IsSound w → (w' : World) → Apart a w w' → IsSound w'
unfolding IsSound
Apart-IsSound a w sound w' p b = elim (Bool-cases (b == a)) [
  | inl e ↦
      subst (λ k. is_member k w'.acceptor.handlers ≡ is_live (find k w'.sessions))
        (sym (eq→≡ b a e)) p.own
  | inr e ↦
      let ne : b ≢ a = λ same. absurd (ground arith) in
      p.handlers b ne ∙ sound b ∙ ap is_live (sym (p.sessions b ne))
]

unfoldable pub IsNew : ℕ → Session → Type 0
IsNew a s = (s.address ≡ a) × (s.live ≡ true)

pub session_handler-IsNew :
    (now a : ℕ) (raw : List Field) → Always (IsNew a) (session_handler now a raw)
unfolding session_handler IsNew
session_handler-IsNew now a raw =
    Always-any->>= (fields_size (msg_common_req_fields now (msg_value msg_common)) 0) _
      λ z. always (refl, refl)

unfoldable pub Keeps : Session → Session → Type 0
Keeps s s' = (s'.address ≡ s.address) × (s'.live ≡ s.live)

pub start-Keeps : (s : Session) → Always (Keeps s) (start s)
unfolding start Keeps
start-Keeps s =
    Always-any->>= (remote_endpoint s) _
      λ _. Always-any->>= (resize s.header_size) _ λ buffer. always (refl, refl)

-- A new session in front of the others, and its address in the set.
insert-IsSound :
    (f : ℕ) (hs : List ℕ) (ss : List Session) (new : Session) (b : ℕ)
    → IsNew f new
    → (b ≢ f → is_member b hs ≡ is_live (find b ss))
    → is_member b (insert f hs) ≡ is_live (find b (new ∷ forget f ss))
unfolding IsNew
insert-IsSound f hs ss new b (at, live) sound = elim (Bool-cases (b == f)) [
  | inl e ↦
      let on : (b == new.address) ≡ true = rw at e in
      subst (λ k. is_member k (insert f hs) ≡ true) (sym (eq→≡ b f e)) (is_member-insert-same f hs)
      ∙ sym (simp (on, live))
  | inr e ↦
      let ne : b ≢ f = λ same. absurd (ground arith) in
      let off : (b == new.address) ≡ false = rw at e in
      is_member-insert-off f b hs ne ∙ sound ne ∙ simp (off, find-forget-other f b ss ne)
]

-- A started session in the place of the one that was accepted.
put_live :
    (a b : ℕ) (s s' : Session) (ss : List Session)
    → find a ss ≡ some s
    → Keeps s s'
    → is_live (find b (put a s' ss)) ≡ is_live (find b ss)
unfolding Keeps
put_live a b s s' ss found (same, live) =
    let at = same ∙ find_address a ss s found in
    elim (Bool-cases (b == a)) [
      | inl e ↦
          subst (λ k. is_live (find k (put a s' ss)) ≡ is_live (find k ss)) (sym (eq→≡ b a e))
            (find-put-same a s' ss at ∙ live ∙ sym (ap is_live found))
      | inr e ↦
          let ne : b ≢ a = λ same. absurd (ground arith) in
          ap is_live (find-put-other a b s' ss at ne)
    ]

pub access-Always {ℓ} : {A : Type ℓ} (o : Option A) → Always (λ a. o ≡ some a) (access o)
access-Always none = never_fault
access-Always (some a) = always refl

-- The sessions behind a new one.
unfoldable pub InFront : ℕ → List Session → List Session → Type 0
InFront a ss ss' = (s : Session) × IsNew a s × (ss' ≡ s ∷ forget a ss)

pub construct-InFront :
    (now a : ℕ) (raw : List Field) (ss : List Session)
    → Always (InFront a ss) (construct now (some (a, raw)) ss)
unfolding construct InFront
construct-InFront now a raw ss =
    Always->>= (session_handler now a raw) _ (session_handler-IsNew now a raw)
      λ s new. always (s, new, refl)

start_service-IsSound : (now : ℕ) (fresh : Fresh) → Always IsSound (start_service now fresh)
unfolding start_service start_acceptor IsSound InFront
start_service-IsSound now none = Always-any->>= (construct now none []) _ λ ss. never_fault
start_service-IsSound now (some (a, raw)) =
    Always->>= (construct now (some (a, raw)) []) _ (construct-InFront now a raw [])
      λ ss (s, new, e).
        always
          λ b. insert-IsSound a [] [] s b new (λ ne. refl) ∙ ap (λ l. is_live (find b l)) (sym e)

accept_session-IsSound :
    (now : ℕ) (fresh : Fresh) (there : Bool) (a : ℕ) (w : World)
    → IsSound w
    → Always IsSound (accept_session now fresh there a w)
unfolding accept_session handle_accept IsSound InFront Keeps
accept_session-IsSound now none there a w sound = Always-any->>= (access (find a w.sessions)) _ λ s.
    Always-any->>= (start (with_peer there s)) _
      λ s'. Always-any->>= (construct now none (put a s' w.sessions)) _ λ ss. never_fault
accept_session-IsSound now (some (f, raw)) there a w sound =
    Always->>= (access (find a w.sessions)) _ (access-Always (find a w.sessions)) λ s found.
      Always->>= (start (with_peer there s)) _ (start-Keeps (with_peer there s)) λ s' k.
        let before = put a s' w.sessions in
        Always->>= (construct now (some (f, raw)) before) _ (construct-InFront now f raw before)
          λ ss (new, is_new, e). always λ b.
            insert-IsSound f w.acceptor.handlers before new b is_new
              (λ ne. sound b ∙ sym (put_live a b s s' w.sessions found k))
            ∙ ap (λ l. is_live (find b l)) (sym e)

refuse_session-IsSound : (a : ℕ) (w : World) → IsSound w → Always IsSound (refuse_session a w)
unfolding refuse_session handle_accept remove_session_handler IsSound
refuse_session-IsSound a w sound = always λ b. elim (Bool-cases (b == a)) [
  | inl e ↦
      subst
        (λ k. is_member k (erase a w.acceptor.handlers) ≡ is_live (find k (forget a w.sessions)))
        (sym (eq→≡ b a e))
        (is_member-erase-same a w.acceptor.handlers
          ∙ ap is_live (sym (find-forget-same a w.sessions)))
  | inr e ↦
      let ne : b ≢ a = λ same. absurd (ground arith) in
      is_member-erase-other b a w.acceptor.handlers ne
      ∙ sound b
      ∙ ap is_live (sym (find-forget-other a b w.sessions ne))
]

for_accepting-IsSound :
    (handler : ℕ → World → Outcome World) (w : World) (o : Option ℕ)
    → IsSound w
    → ((a : ℕ) → Always IsSound (handler a w))
    → Always IsSound (for_accepting handler w o)
for_accepting-IsSound handler w none sound p = always sound
for_accepting-IsSound handler w (some a) sound p = p a

module _ (h : Host) where
  pub handle_event-IsSound :
      (now : ℕ) (e : Event) (w : World) → IsSound w → Always IsSound (handle_event h now e w)
  unfolding handle_event
  handle_event-IsSound now (accepted fresh there) w sound =
      for_accepting-IsSound (accept_session now fresh there) w w.acceptor.accepting sound
        (λ a. accept_session-IsSound now fresh there a w sound)
  handle_event-IsSound now refused w sound =
      for_accepting-IsSound refuse_session w w.acceptor.accepting sound
        (λ a. refuse_session-IsSound a w sound)
  handle_event-IsSound now (received a bytes) w sound =
      Always-map (Apart-IsSound a w sound) ((client-Apart h now a bytes true w sound).0)
  handle_event-IsSound now (read_failed a) w sound =
      Always-map (Apart-IsSound a w sound) ((client-Apart h now a [] true w sound).1)
  handle_event-IsSound now (written a error) w sound =
      Always-map (Apart-IsSound a w sound) ((client-Apart h now a [] error w sound).2)
  handle_event-IsSound now (reset a) w sound =
      Always-map (Apart-IsSound a w sound) ((client-Apart h now a [] true w sound).3)

  -- The states of the service: it starts, and one handler after another is done.
  pub data Running : World → Type 0 where
    started : {w : World} (now : ℕ) (fresh : Fresh) → start_service now fresh ≡ done w → Running w
    handled :
        {w w' : World} (now : ℕ) (e : Event)
        → Running w
        → handle_event h now e w ≡ done w'
        → Running w'

  -- In every state that the service reaches (Running), by any clients with any bytes, accepts that
  -- succeed or fail, and connections that are reset, in any order, the acceptor's set holds
  -- exactly the addresses of the sessions that live.
  pub Running-IsSound : (w : World) → Running w → IsSound w
  Running-IsSound w (started now fresh e) = Always-done (start_service-IsSound now fresh) e
  Running-IsSound w' (handled {w} now e r run) =
      Always-done (handle_event-IsSound now e w (Running-IsSound w r)) run
