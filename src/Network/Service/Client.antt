-- ===== src/Network/Service/Client.antt =====
-- One client's connection to the service while other clients come, talk and go.
use librtaio.Base.{
  ℕ, ◌+◌, ◌^◌, ◌<◌, ◌≡◌, refl, ap, ◌∙◌, false, List, ◌∷◌, some, length, replicate, take, drop,
  Outcome, done, ◌>>=◌, arith, take-append, drop-append, length-replicate, Always-done,
}
use librtaio.Stream.Host.{Host}
use librtaio.Protocol.Field.{Field, head_mark, to_int, msg_value}
use librtaio.Protocol.Messages.{header_with, IsText, connect_bytes, length-connect_bytes}
use librtaio.Protocol.Send.{sized_header}
use librtaio.Protocol.Wire.{Header, header_fields, header_words, header_wire, body_wire}
use librtaio.Protocol.RoundTrip.{SameCrc}
use librtaio.Network.Session.{
  Session, Server, reading, writing, complete_read, complete_write, handle_write,
}
use librtaio.Network.Session.Receive.{working, length-header_wire}
use librtaio.Network.Session.ReceiveHeader.{receive_header}
use librtaio.Network.Session.Requests.{receive_connect, response_wire}
use librtaio.Network.Exchange.{request_wire, request-IsHeader}
use librtaio.Network.Service.{World, Event, find, put, received, written, for_session, handle_event}
use librtaio.Network.Service.Isolation.{IsSound, find-put-live}
use librtaio.Network.Service.Soundness.{handle_event-IsSound}
use librtaio.Network.Service.Interleaving.{Between, between_lem}

-- The service after a handler that changed its session only.
abbrev pub after : ℕ → Session → World → World
after a s w = record w { sessions = put a s w.sessions }

pub own_lem :
    (a : ℕ) (handler : Server → Outcome Server) (s s' : Session) (w : World)
    → find a w.sessions ≡ some s
    → handler (record { session = s; acceptor = w.acceptor })
      ≡ done (record { session = s'; acceptor = w.acceptor })
    → for_session a handler w (find a w.sessions) ≡ done (after a s' w)
own_lem a handler s s' w found run =
    ap (for_session a handler w) found
    ∙ ap
        (λ o.
          o >>= λ r. done (record { acceptor = r.acceptor; sessions = put a r.session w.sessions }))
        run

-- The session's state when the header has come, when the answer is ready, and when it is sent.
abbrev pub has_header : Host → ℕ → Header → List Field → List ℕ → Session
has_header h a m rest sent =
    working a (header_fields head_mark m (h.crc32 (header_words m)) rest) (replicate m.bsize 0) sent
      (reading 0 m.bsize m.bsize)

abbrev pub answers : Host → Host → ℕ → Header → List Field → List ℕ → List ℕ → Session
answers h0 h a m rest bs answer =
    working a (header_fields head_mark m (h.crc32 (header_words m)) rest) (body_wire h0 bs) answer
      (writing answer)

abbrev pub answered : Host → Host → ℕ → Header → List Field → List ℕ → List ℕ → Session
answered h0 h a m rest bs answer =
    working a (header_fields head_mark m (h.crc32 (header_words m)) rest) (body_wire h0 bs) answer
      (reading 0 32 32)

module _ (h0 h : Host) (same : SameCrc h0 h) (now0 now : ℕ) where
  pub IsSound-after :
      (n a : ℕ) (e : Event) (s : Session) (w : World)
      → IsSound w
      → handle_event h n e w ≡ done (after a s w)
      → IsSound (after a s w)
  IsSound-after n a e s w sound run = Always-done (handle_event-IsSound h n e w sound) run

  -- In a state where the acceptor's set holds exactly the live sessions, one session waits for a
  -- header, and its client, of either byte order and with the same checksum, sends a connection
  -- request with names of nonzero bytes, each shorter than 1024, at a time below 2^31, in a read
  -- of 32 bytes and one of the rest. Before, between and after the two, any events of other
  -- clients are handled, and accepts of other sessions (Between). All the same the session's three
  -- handlers are done, each changes this session only, and it has the header, then has the answer
  -- with ERR_OK to write, and then has written it and waits for the next header.
  pub client_served :
      (c p : List ℕ) (a : ℕ) (o0 o1 o2 o3 o4 o5 o6 : Field) (rest : List Field)
      (buffer sent : List ℕ) (w0 w1 w3 w5 : World)
      → IsText c
      → IsText p
      → length c < 1024
      → length p < 1024
      → now0 < 2 ^ 31
      → IsSound w0
      → find a w0.sessions
        ≡ some (working a (o0 ∷ o1 ∷ o2 ∷ o3 ∷ o4 ∷ o5 ∷ o6 ∷ rest) buffer sent (reading 0 32 32))
      → let bs = connect_bytes c p in
        let wire = request_wire h0 now0 c p in
        let m = sized_header (header_with 2 0 0 now0) bs in
        let answer = response_wire h now in
        let w2 = after a (has_header h a m rest sent) w1 in
        let w4 = after a (answers h0 h a m rest bs answer) w3 in
        Between h a w0 w1
        → Between h a w2 w3
        → Between h a w4 w5
        → (handle_event h now (received a (take 32 wire)) w1 ≡ done w2)
          × (handle_event h now (received a (drop 32 wire)) w3 ≡ done w4)
          × (handle_event h now (written a false) w5
              ≡ done (after a (answered h0 h a m rest bs answer) w5))
  unfolding handle_event complete_write handle_write msg_value
  client_served c p a o0 o1 o2 o3 o4 o5 o6 rest buffer sent w0 w1 w3 w5 ct pt cshort pshort time
        sound found b1 b3 b5 =
      let bs = connect_bytes c p in
      let m = sized_header (header_with 2 0 0 now0) bs in
      let crc = h.crc32 (header_words m) in
      let answer = response_wire h now in
      let s0 = working a (o0 ∷ o1 ∷ o2 ∷ o3 ∷ o4 ∷ o5 ∷ o6 ∷ rest) buffer sent (reading 0 32 32) in
      let s1 = has_header h a m rest sent in
      let s2 = answers h0 h a m rest bs answer in
      let bytes : length bs ≡ length c + length p + 6 = length-connect_bytes c p in
      let small : to_int (length bs + 12) ≡ length bs + 12 = omega arith in
      let (sound1, same1) = between_lem h a w0 w1 sound b1 in
      let run1 : handle_event h now (received a (take 32 (request_wire h0 now0 c p))) w1
          ≡ done (after a s1 w1) =
        own_lem a (complete_read h now (take 32 (request_wire h0 now0 c p))) s0 s1 w1
          (same1 ∙ found)
          (rw (take-append 32 (header_wire h0 m) (body_wire h0 bs) (length-header_wire h0 m)) (
            receive_header h0 h same now m a o0 o1 o2 o3 o4 o5 o6 rest buffer sent w1.acceptor
              (request-IsHeader h0 h same now0 now bs (omega arith) time) (omega arith))) in
      let sound2 =
        IsSound-after now a (received a (take 32 (request_wire h0 now0 c p))) s1 w1 sound1 run1 in
      let (sound3, same3) = between_lem h a (after a s1 w1) w3 sound2 b3 in
      let run3 : handle_event h now (received a (drop 32 (request_wire h0 now0 c p))) w3
          ≡ done (after a s2 w3) =
        own_lem a (complete_read h now (drop 32 (request_wire h0 now0 c p))) s1 s2 w3
          (same3 ∙ find-put-live a s1 w1.sessions refl refl)
          (rw (drop-append 32 (header_wire h0 m) (body_wire h0 bs) (length-header_wire h0 m)) (
            receive_connect h0 h same now m crc a rest sent w3.acceptor c p
              (replicate (length bs + 12) 0) ct pt cshort pshort refl small
              (length-replicate (length bs + 12) 0))) in
      let sound4 =
        IsSound-after now a (received a (drop 32 (request_wire h0 now0 c p))) s2 w3 sound3 run3 in
      let (sound5, same5) = between_lem h a (after a s2 w3) w5 sound4 b5 in
      (
        run1,
        run3,
        own_lem a (λ s. complete_write h now false s >>= λ r. done r.1) s2
            (answered h0 h a m rest bs answer) w5 (same5 ∙ find-put-live a s2 w3.sessions refl refl)
            refl,
      )
