-- ===== src/Network/Service/Interleaving.antt =====
-- What other clients can do to one session of the service: nothing, however their events come.
use librtaio.Base.{
  ℕ, ◌≡◌, ◌≢◌, refl, sym, ap, ◌∙◌, Bool, true, false, List, [], Option, none, some, ◌==◌, ne→eq,
  Outcome, done, access, Always, always, never_fault, Always->>=, Always-any->>=, Always-done,
  Always-map,
}
use librtaio.Stream.Host.{Host}
use librtaio.Network.Acceptor.{handle_accept}
use librtaio.Network.Session.{start}
use librtaio.Network.Service.{
  World, find, put, Fresh, address_of, Event, accepted, refused, received, read_failed, written,
  reset, construct, with_peer, accept_session, refuse_session, for_accepting, handle_event,
}
use librtaio.Network.Service.Isolation.{
  IsSound, client-Apart, find-forget-other, find-put-other, find_address,
}
use librtaio.Network.Service.Soundness.{
  InFront, IsNew, Keeps, access-Always, construct-InFront, start-Keeps, handle_event-IsSound,
}

-- An event that is not about the session at `a`: another client's, or an accept of another session
-- at another address.
pub data Elsewhere (a : ℕ) (w : World) : Event → Type 0 where
  reads : {b : ℕ} {bytes : List ℕ} → a ≢ b → Elsewhere a w (received b bytes)
  fails : {b : ℕ} → a ≢ b → Elsewhere a w (read_failed b)
  writes : {b : ℕ} {error : Bool} → a ≢ b → Elsewhere a w (written b error)
  resets : {b : ℕ} → a ≢ b → Elsewhere a w (reset b)
  accepts :
      {fresh : Fresh} {there : Bool}
      → address_of fresh ≢ some a
      → w.acceptor.accepting ≢ some a
      → Elsewhere a w (accepted fresh there)
  refuses : w.acceptor.accepting ≢ some a → Elsewhere a w refused

abbrev Same : ℕ → World → World → Type 0
Same a w w' = find a w'.sessions ≡ find a w.sessions

accept_session-Same :
    (now a : ℕ) (fresh : Fresh) (there : Bool) (c : ℕ) (w : World)
    → a ≢ c
    → address_of fresh ≢ some a
    → Always (Same a w) (accept_session now fresh there c w)
unfolding accept_session handle_accept InFront IsNew Keeps
accept_session-Same now a none there c w other new =
    Always-any->>= (access (find c w.sessions)) _ λ s.
      Always-any->>= (start (with_peer there s)) _
        λ s'. Always-any->>= (construct now none (put c s' w.sessions)) _ λ ss. never_fault
accept_session-Same now a (some (f, raw)) there c w other new =
    Always->>= (access (find c w.sessions)) _ (access-Always (find c w.sessions)) λ s found.
      Always->>= (start (with_peer there s)) _ (start-Keeps (with_peer there s)) λ s' k.
        let before = put c s' w.sessions in
        Always->>= (construct now (some (f, raw)) before) _ (construct-InFront now f raw before)
          λ ss (n, is_new, e).
            let apart : a ≢ f = λ same. new (ap some (sym same)) in
            let off : (a == n.address) ≡ false =
              ne→eq a n.address (λ same. apart (same ∙ is_new.0)) in
            let at : s'.address ≡ c = k.0 ∙ find_address c w.sessions s found in
            always (
              ap (find a) e
              ∙ simp (
                off,
                find-forget-other f a before apart,
                find-put-other c a s' w.sessions at other,
              ))

refuse_session-Same : (a c : ℕ) (w : World) → a ≢ c → Always (Same a w) (refuse_session c w)
unfolding refuse_session handle_accept
refuse_session-Same a c w other = always (find-forget-other c a w.sessions other)

for_accepting-Same :
    (a : ℕ) (handler : ℕ → World → Outcome World) (w : World) (o : Option ℕ)
    → o ≢ some a
    → ((c : ℕ) → a ≢ c → Always (Same a w) (handler c w))
    → Always (Same a w) (for_accepting handler w o)
for_accepting-Same a handler w none ne p = always refl
for_accepting-Same a handler w (some c) ne p = p c (λ same. ne (ap some (sym same)))

module _ (h : Host) where
  elsewhere_lem :
      (now a : ℕ) (w : World) (e : Event)
      → IsSound w
      → Elsewhere a w e
      → Always (Same a w) (handle_event h now e w)
  unfolding handle_event
  elsewhere_lem now a w (received b bytes) sound (reads ne) =
      Always-map (λ w' p. p.sessions a ne) (client-Apart h now b bytes true w sound).0
  elsewhere_lem now a w (read_failed b) sound (fails ne) =
      Always-map (λ w' p. p.sessions a ne) (client-Apart h now b [] true w sound).1
  elsewhere_lem now a w (written b error) sound (writes ne) =
      Always-map (λ w' p. p.sessions a ne) (client-Apart h now b [] error w sound).2
  elsewhere_lem now a w (reset b) sound (resets ne) =
      Always-map (λ w' p. p.sessions a ne) (client-Apart h now b [] true w sound).3
  elsewhere_lem now a w (accepted fresh there) sound (accepts new other) =
      for_accepting-Same a (accept_session now fresh there) w w.acceptor.accepting other
        (λ c ne. accept_session-Same now a fresh there c w ne new)
  elsewhere_lem now a w refused sound (refuses other) =
      for_accepting-Same a refuse_session w w.acceptor.accepting other
        (λ c ne. refuse_session-Same a c w ne)

  -- What happens elsewhere, one handler after another.
  pub data Between (a : ℕ) : World → World → Type 0 where
    quiet : {w : World} → Between a w w
    one_more :
        {w w' w'' : World} (now : ℕ) (e : Event)
        → Between a w w'
        → Elsewhere a w' e
        → handle_event h now e w' ≡ done w''
        → Between a w w''

  pub between_lem : (a : ℕ) (w w' : World) → IsSound w → Between a w w' → IsSound w' × Same a w w'
  between_lem a w _ sound quiet = (sound, refl)
  between_lem a w w'' sound (one_more {w' = w'} now e before off run) =
      let (sound', same) = between_lem a w w' sound before in
      (
        Always-done (handle_event-IsSound h now e w' sound') run,
        Always-done (elsewhere_lem now a w' e sound' off) run ∙ same,
      )
