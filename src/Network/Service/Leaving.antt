-- ===== src/Network/Service/Leaving.antt =====
-- A client's disconnection from the service, and its whole connection from accept to the end.
mod Tests
use librtaio.Base.{
  ℕ, ◌+◌, ◌^◌, ◌≤◌, ◌<◌, ◌≡◌, ◌≢◌, refl, ap, ◌∙◌, Bool, true, false, List, [], ◌∷◌, none, some,
  length, replicate, take, drop, done, ◌>>=◌, Outcome, arith, take-append, drop-append,
  length-replicate, Always-done,
}
use librtaio.Stream.Host.{Host}
use librtaio.Protocol.Field.{Field, head_mark, msg_value, scalar, type_long, type_longlong}
use librtaio.Protocol.Messages.{header_with, IsText, connect_bytes, length-connect_bytes}
use librtaio.Protocol.Send.{packet_wire, sized_header}
use librtaio.Protocol.Wire.{Header, header_fields, header_words, header_wire, body_wire}
use librtaio.Protocol.RoundTrip.{SameCrc, IsHeader}
use librtaio.Network.Acceptor.{is_member, remove_session_handler}
use librtaio.Network.Acceptor.Handlers.{is_member-erase-same, is_member-erase-other}
use librtaio.Network.Session.{Session, Server, reading, idle, complete_read, delete_session}
use librtaio.Network.Session.Receive.{working, length-header_wire, length-body_wire}
use librtaio.Network.Session.ReceiveHeader.{receive_header}
use librtaio.Network.Session.Requests.{response_wire}
use librtaio.Network.Session.Requests.Disconnect.{disconnect_handled}
use librtaio.Network.Exchange.{request_wire, small-IsInt}
use librtaio.Network.Exchange.Program.{goodbye, goodbye_wire, goodbye-IsHeader}
use librtaio.Network.Service.{
  World, Event, find, forget, put, accepted, received, written, for_session, handle_event,
}
use librtaio.Network.Service.Isolation.{IsSound, find-forget-same, find-forget-other, find-put-live}
use librtaio.Network.Service.Soundness.{handle_event-IsSound}
use librtaio.Network.Service.Interleaving.{Between, between_lem}
use librtaio.Network.Service.Client.{after, own_lem, IsSound-after, has_header, answers, answered}
use librtaio.Network.Service.Accepted.{new_session, has_client, client_connected}

-- The service without the session at `a`.
abbrev pub without : ℕ → World → World
without a w = record {
  acceptor = remove_session_handler a w.acceptor;
  sessions = forget a w.sessions;
}

-- Neither an object nor the acceptor's set is left of the session at `a`; the others are as before.
pub record IsGone (a : ℕ) (w w' : World) : Type 0 where
  pub deleted : find a w'.sessions ≡ none
  pub erased : is_member a w'.acceptor.handlers ≡ false
  pub sessions : (b : ℕ) → b ≢ a → find b w'.sessions ≡ find b w.sessions
  pub handlers :
      (b : ℕ) → b ≢ a → is_member b w'.acceptor.handlers ≡ is_member b w.acceptor.handlers

without-IsGone : (a : ℕ) (w : World) → IsGone a w (without a w)
unfolding remove_session_handler
without-IsGone a w = record {
  deleted = find-forget-same a w.sessions;
  erased = is_member-erase-same a w.acceptor.handlers;
  sessions = λ b ne. find-forget-other a b w.sessions ne;
  handlers = λ b ne. is_member-erase-other b a w.acceptor.handlers ne;
}

leave_lem :
    (a : ℕ) (handler : Server → Outcome Server) (s : Session) (t : Server) (w : World)
    → find a w.sessions ≡ some s
    → t.session.address ≡ a
    → t.acceptor ≡ w.acceptor
    → handler (record { session = s; acceptor = w.acceptor }) ≡ done (delete_session t)
    → for_session a handler w (find a w.sessions) ≡ done (without a w)
leave_lem a handler s t w found at same run =
    ap (for_session a handler w) found
    ∙ ap
        (λ o.
          o >>= λ r. done (record { acceptor = r.acceptor; sessions = put a r.session w.sessions }))
        run
    ∙ rw (at, same)

module _ (h0 h : Host) (same : SameCrc h0 h) (now0 now : ℕ) where
  -- In a state where the acceptor's set holds exactly the live sessions, one session waits for a
  -- header. Its client, of either byte order and with the same
  -- checksum, sends a disconnection request at a time below 2^31, in a read of 32 bytes and one of
  -- 12. Before and between the two, any events of other clients are handled, and accepts of other
  -- sessions (Between). All the same the two handlers are done; after the second the session is
  -- deleted and erased from the set, and all other sessions are as they were.
  pub client_left :
      (a : ℕ) (o0 o1 o2 o3 o4 o5 o6 : Field) (rest : List Field) (buffer sent : List ℕ)
      (w0 w1 w3 : World)
      → now0 < 2 ^ 31
      → IsSound w0
      → find a w0.sessions
        ≡ some (working a (o0 ∷ o1 ∷ o2 ∷ o3 ∷ o4 ∷ o5 ∷ o6 ∷ rest) buffer sent (reading 0 32 32))
      → let wire = goodbye_wire h0 now0 in
        let w2 = after a (has_header h a (goodbye now0) rest sent) w1 in
        Between h a w0 w1
        → Between h a w2 w3
        → (handle_event h now (received a (take 32 wire)) w1 ≡ done w2)
          × (handle_event h now (received a (drop 32 wire)) w3 ≡ done (without a w3))
          × IsGone a w3 (without a w3)
  unfolding handle_event msg_value
  client_left a o0 o1 o2 o3 o4 o5 o6 rest buffer sent w0 w1 w3 time sound found b1 b3 =
      let m = goodbye now0 in
      let crc = h.crc32 (header_words m) in
      let wire = goodbye_wire h0 now0 in
      let s0 = working a (o0 ∷ o1 ∷ o2 ∷ o3 ∷ o4 ∷ o5 ∷ o6 ∷ rest) buffer sent (reading 0 32 32) in
      let s1 = has_header h a m rest sent in
      let (sound1, same1) = between_lem h a w0 w1 sound b1 in
      let run1 : handle_event h now (received a (take 32 wire)) w1 ≡ done (after a s1 w1) =
        own_lem a (complete_read h now (take 32 wire)) s0 s1 w1 (same1 ∙ found) (
          rw (take-append 32 (header_wire h0 m) (body_wire h0 []) (length-header_wire h0 m)) (
            receive_header h0 h same now m a o0 o1 o2 o3 o4 o5 o6 rest buffer sent w1.acceptor
              (goodbye-IsHeader now0 time) (omega arith))) in
      let sound2 =
        IsSound-after h0 h same now0 now now a (received a (take 32 wire)) s1 w1 sound1 run1 in
      let (sound3, same3) = between_lem h a (after a s1 w1) w3 sound2 b3 in
      (
        run1,
        leave_lem a (complete_read h now (drop 32 wire)) s1
            (record {
              session = working a (header_fields head_mark m crc rest) (body_wire h0 []) sent idle;
              acceptor = w3.acceptor;
            })
            w3 (same3 ∙ find-put-live a s1 w1.sessions refl refl) refl refl
            (rw (drop-append 32 (header_wire h0 m) (body_wire h0 []) (length-header_wire h0 m)) (
              disconnect_handled h0 h same now m crc a rest sent w3.acceptor (replicate 12 0) refl
                refl refl)),
        without-IsGone a w3,
      )

-- The set is right after any events of other clients and one more handler.
IsSound-event :
    (h : Host) (now a : ℕ) (e : Event) (w w' w'' : World)
    → IsSound w
    → Between h a w w'
    → handle_event h now e w' ≡ done w''
    → IsSound w''
IsSound-event h now a e w w' w'' sound between run =
    Always-done (handle_event-IsSound h now e w' (between_lem h a w w' sound between).0) run

module _ (h0 h : Host) (same : SameCrc h0 h) (now0 now last0 last : ℕ) where
  -- In a state where the acceptor's set holds exactly the live sessions, a new session waits in
  -- async_accept. Its client connects, and the next session is made at another address; the
  -- client, of either byte order and with the same checksum, sends a connection request with names
  -- of nonzero bytes, each shorter than 1024, gets the answer, and then sends a disconnection
  -- request; each request comes in a read of 32 bytes and one of the rest, and the client's times
  -- are below 2^31. In between, any events of other clients are handled, and accepts of other
  -- sessions (Between). All the same the six handlers are done: the first starts the session, the
  -- next four change this session only, and after the last the session is deleted and erased from
  -- the set, with all other sessions as they were (IsGone).
  pub client_life :
      (c p : List ℕ) (a f : ℕ) (o0 o1 o2 o3 o4 o5 o6 : Field) (rest raw' : List Field)
      (w w1 w3 w5 w7 w9 : World)
      → IsText c
      → IsText p
      → length c < 1024
      → length p < 1024
      → now0 < 2 ^ 31
      → last0 < 2 ^ 31
      → IsSound w
      → w.acceptor.accepting ≡ some a
      → let raw = o0 ∷ o1 ∷ o2 ∷ o3 ∷ o4 ∷ o5 ∷ o6 ∷ rest in
        find a w.sessions ≡ some (new_session a raw)
        → a ≢ f
        → let bs = connect_bytes c p in
          let wire = request_wire h0 now0 c p in
          let m = sized_header (header_with 2 0 0 now0) bs in
          let answer = response_wire h now in
          let end = goodbye_wire h0 last0 in
          let w0 = has_client a raw f raw' w in
          let w2 = after a (has_header h a m rest []) w1 in
          let w4 = after a (answers h0 h a m rest bs answer) w3 in
          let w6 = after a (answered h0 h a m rest bs answer) w5 in
          let w8 = after a (has_header h a (goodbye last0) rest answer) w7 in
          Between h a w0 w1
          → Between h a w2 w3
          → Between h a w4 w5
          → Between h a w6 w7
          → Between h a w8 w9
          → (handle_event h now (accepted (some (f, raw')) true) w ≡ done w0)
            × (handle_event h now (received a (take 32 wire)) w1 ≡ done w2)
            × (handle_event h now (received a (drop 32 wire)) w3 ≡ done w4)
            × (handle_event h now (written a false) w5 ≡ done w6)
            × (handle_event h last (received a (take 32 end)) w7 ≡ done w8)
            × (handle_event h last (received a (drop 32 end)) w9 ≡ done (without a w9))
            × IsGone a w9 (without a w9)
  client_life c p a f o0 o1 o2 o3 o4 o5 o6 rest raw' w w1 w3 w5 w7 w9 ct pt cshort pshort time
        last_time sound waits found ne b1 b3 b5 b7 b9 =
      let bs = connect_bytes c p in
      let m = sized_header (header_with 2 0 0 now0) bs in
      let crc = h.crc32 (header_words m) in
      let answer = response_wire h now in
      let raw = o0 ∷ o1 ∷ o2 ∷ o3 ∷ o4 ∷ o5 ∷ o6 ∷ rest in
      let w0 = has_client a raw f raw' w in
      let w2 = after a (has_header h a m rest []) w1 in
      let w4 = after a (answers h0 h a m rest bs answer) w3 in
      let s6 = answered h0 h a m rest bs answer in
      let (run0, run1, run3, run5) =
        client_connected h0 h same now0 now c p a f o0 o1 o2 o3 o4 o5 o6 rest raw' w w1 w3 w5 ct pt
          cshort pshort time sound waits found ne b1 b3 b5 in
      let sound0 : IsSound w0 =
        IsSound-event h now a (accepted (some (f, raw')) true) w w w0 sound Between.quiet run0 in
      let sound2 =
        IsSound-event h now a (received a (take 32 (request_wire h0 now0 c p))) w0 w1 w2 sound0 b1
          run1 in
      let sound4 =
        IsSound-event h now a (received a (drop 32 (request_wire h0 now0 c p))) w2 w3 w4 sound2 b3
          run3 in
      let sound6 = IsSound-event h now a (written a false) w4 w5 (after a s6 w5) sound4 b5 run5 in
      let (run7, run9, gone) =
        client_left h0 h same last0 last a (scalar type_long head_mark "hmark")
          (scalar type_long m.method "method") (scalar type_long m.bsize "bsize")
          (scalar type_long m.ret "ret") (scalar type_long m.time "time")
          (scalar type_long m.count "count") (scalar type_longlong crc "hcrc") rest
          (body_wire h0 bs) answer (after a s6 w5) w7 w9 last_time sound6
          (find-put-live a s6 w5.sessions refl refl) b7 b9 in
      (run0, run1, run3, run5, run7, run9, gone)
