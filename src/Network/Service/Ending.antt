-- ===== src/Network/Service/Ending.antt =====
-- How the service of src/core/network/network_server.cpp ends.
use librtaio.Base.{
  ℕ, ◌+◌, ◌≡◌, refl, ap, ◌∙◌, true, false, List, [], ◌∷◌, some, Outcome, done, thrown, ◌>>=◌,
}
use librtaio.Stream.Host.{Host}
use librtaio.Network.Session.{
  Session, Server, reading, fail_read, handle_read, close, remote_endpoint,
}
use librtaio.Network.Service.Isolation.{find_address, find-put-live}
use librtaio.Network.Service.Work.{busy-has_work, serve-event}
use librtaio.Network.Service.{
  is_busy, World, find, put, Event, read_failed, reset, Call, event, caught, after_handler, serve,
  for_session, lose_peer, handle_event, with_peer,
}

module _ (h : Host) (now : ℕ) where
  -- The handlers of some events, one after another.
  abbrev pub handle_all : List Event → World → Outcome World
  handle_all [] w = done w
  handle_all (e ∷ es) w = handle_event h now e w >>= handle_all es

  fail_gone :
      (s : Server) (at size want : ℕ)
      → s.session.peer ≡ false
      → s.session.pending ≡ reading at size want
      → fail_read h now s ≡ thrown
  unfolding fail_read handle_read close remote_endpoint
  fail_gone s at size want gone p = simp (p, gone, fail_read)

  -- A session in any service waits for bytes, and its client resets the connection: the failing
  -- read closes the session, which throws, and network_server::run ends. Nothing is handled any
  -- more, for any client.
  pub reset_ends_service :
      (a at size want : ℕ) (s : Session) (w : World) (rest : List Call) (n : ℕ)
      → find a w.sessions ≡ some s
      → s.live ≡ true
      → s.pending ≡ reading at size want
      → serve h now (event (reset a) ∷ event (read_failed a) ∷ rest) n w ≡ caught (n + 1)
  unfolding handle_event
  reset_ends_service a at size want s w rest n found live pending =
      let address = find_address a w.sessions s found in
      let s' = with_peer false s in
      let w' : World = record { acceptor = w.acceptor; sessions = put a s' w.sessions } in
      let busy : is_busy s.pending ≡ true = ap is_busy pending in
      let found' : find a w'.sessions ≡ some s' = find-put-live a s' w.sessions address live in
      serve-event h now n w (reset a) (event (read_failed a) ∷ rest)
        (busy-has_work a s w found busy)
      ∙ ap
          (λ o.
            after_handler n (serve h now (event (read_failed a) ∷ rest) (n + 1))
              (for_session a lose_peer w o))
          found
      ∙ serve-event h now (n + 1) w' (read_failed a) rest (busy-has_work a s' w' found' busy)
      ∙ ap
          (λ o.
            after_handler (n + 1) (serve h now rest (n + 1 + 1))
              (for_session a (fail_read h now) w' o))
          found'
      ∙ ap
          (λ o. after_handler (n + 1) (serve h now rest (n + 1 + 1)) (
            o >>= λ r.
            done (record { acceptor = r.acceptor; sessions = put a r.session w'.sessions })))
          (fail_gone (record { session = s'; acceptor = w.acceptor }) at size want refl pending)
