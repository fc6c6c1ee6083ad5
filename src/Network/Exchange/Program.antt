-- ===== src/Network/Exchange/Program.antt =====
-- The sample program of the client library (src/test/client_main.cpp) and the server's session that
-- it talks to, from its first byte to the end of both.
mod Tests
use librtaio.Base.{
  ℕ, ◌+◌, ◌^◌, ◌≤◌, ◌<◌, ◌≡◌, ap, ◌∙◌, refl, subst, true, false, List, [], ◌∷◌, ◌++◌, some, length,
  take, drop, Outcome, done, ◌>>=◌, arith, take-append, drop-append, append_assoc, replicate,
  take_all, ltb,
}
use librtaio.Stream.Host.{Host}
use librtaio.Protocol.Field.{
  Field, head_mark, msg_value, scalar, type_long, type_longlong, msg_disconnect_fields, fields_len,
}
use librtaio.Protocol.Send.{sized_header, packet_wire}
use librtaio.Protocol.Send.Connection.{encode_disconnect}
use librtaio.Protocol.Messages.{header_with, c_string, IsText, connect_bytes, length-connect_bytes}
use librtaio.Protocol.Wire.{Header, header_fields, header_words, header_wire, body_wire}
use librtaio.Protocol.RoundTrip.{SameCrc, IsHeader}
use librtaio.Network.Acceptor.{Acceptor}
use librtaio.Network.Session.{
  Server, reading, idle, session_handler, start, connected, complete_read, complete_write,
  delete_session,
}
use librtaio.Network.Session.Closing.{IsClosed, delete_session-IsClosed}
use librtaio.Network.Session.Receive.{working, length-header_wire, length-body_wire, le→ltb}
use librtaio.Network.Session.ReceiveHeader.{receive_header}
use librtaio.Network.Session.Requests.{response_wire}
use librtaio.Network.Session.Requests.Disconnect.{disconnect_handled}
use librtaio.Network.Exchange.{write_all, request_wire, length-packet_wire, small-IsInt}
use librtaio.Network.Exchange.Answer.{connect_answered, connect_answer}
use librtaio.Api.Client.{Socket}
use librtaio.Api.Client
use librtaio.Api.Program.{rtdb_client, lock, locked_call, connect, disconnect, destroy, client_main}

-- The packet of a disconnection request.
abbrev pub goodbye : ℕ → Header
goodbye now = sized_header (header_with 3 0 0 now) []

abbrev pub goodbye_wire : Host → ℕ → List ℕ
goodbye_wire h now = packet_wire h (header_with 3 0 0 now) []

pub goodbye-IsHeader : (now : ℕ) → now < 2 ^ 31 → IsHeader (goodbye now)
goodbye-IsHeader now time = record {
  method = refl;
  bsize = refl;
  ret = refl;
  time = small-IsInt now time;
  count = refl;
}

-- The client's disconnect gives the whole request to a socket that takes all bytes.
disconnect_lem :
    (h0 : Host) (now : ℕ) (s : Socket)
    → Client.disconnect h0 now write_all s
      ≡ done (0, record s { outgoing = s.outgoing ++ goodbye_wire h0 now })
unfolding Client.disconnect Client.send_packet
disconnect_lem h0 now s =
    let wire = goodbye_wire h0 now in
    let all : ltb (length wire) 44 ≡ false =
      le→ltb (length wire) 44 (omega (arith, length-packet_wire h0 (header_with 3 0 0 now) [])) in
    rw (encode_disconnect h0 now, all, take_all (length wire) wire (omega arith))

module _ (h0 h : Host) (same : SameCrc h0 h) (now : ℕ) where
  -- A session gets a disconnection request, in a read of 32
  -- bytes and one of 12, and deletes itself.
  session_left :
      (time address : ℕ) (o0 o1 o2 o3 o4 o5 o6 : Field) (rest : List Field) (buffer sent : List ℕ)
      (acceptor : Acceptor)
      → time < 2 ^ 31
      → let wire = goodbye_wire h0 time in
        (complete_read h now (take 32 wire) (record {
          session =
              working address
                (o0 ∷ o1 ∷ o2 ∷ o3 ∷ o4 ∷ o5 ∷ o6 ∷ rest)
                buffer
                sent
                (reading 0 32 32);
          acceptor = acceptor;
        })
          >>= complete_read h now (drop 32 wire))
        ≡ done (
            delete_session (record {
              session =
                  working address
                    (header_fields head_mark
                      (goodbye time)
                      (h.crc32 (header_words (goodbye time)))
                      rest)
                    (body_wire h0 [])
                    sent
                    idle;
              acceptor = acceptor;
            }))
  unfolding msg_value
  session_left time address o0 o1 o2 o3 o4 o5 o6 rest buffer sent acceptor early =
      let m = goodbye time in
      rw (
        take-append 32 (header_wire h0 m) (body_wire h0 []) (length-header_wire h0 m),
        drop-append 32 (header_wire h0 m) (body_wire h0 []) (length-header_wire h0 m),
        receive_header h0 h same now m address o0 o1 o2 o3 o4 o5 o6 rest buffer sent acceptor
            (goodbye-IsHeader time early) (omega arith),
        disconnect_handled h0 h same now m (h.crc32 (header_words m)) address rest sent acceptor
            (replicate 12 0) refl refl refl,
      )

module _ (h0 h : Host) (same : SameCrc h0 h) (now0 later now last : ℕ) where
  program_lem :
      (c p cr pr : List ℕ) (more : List (List ℕ))
      → IsText c
      → IsText p
      → length c < 1024
      → length p < 1024
      → now < 2 ^ 31
      → let answer = response_wire h now in
        client_main h0 write_all now0 later true
          (c_string c ++ cr)
          (c_string p ++ pr)
          (some (record { incoming = take 32 answer ∷ drop 32 answer ∷ more; outgoing = [] }))
        ≡ done (
          0,
          "Connect server OK...!" ∷ [],
          some (record {
            incoming = more;
            outgoing = request_wire h0 now0 c p ++ goodbye_wire h0 later;
          }),
        )
  unfolding client_main rtdb_client connect locked_call lock disconnect destroy
  program_lem c p cr pr more ct pt cshort pshort time =
      let s : Socket = record { incoming = more; outgoing = request_wire h0 now0 c p } in
      rw (
        connect_answered h0 h same now0 now c p cr pr more [] ct pt cshort pshort time,
        disconnect_lem h0 later s,
      )

  -- The sample program and a new session of the server, on hosts of either byte order that use the
  -- same checksum; the names are of nonzero bytes, each shorter than 1024, and the times of the
  -- packets are below 2^31. The program's socket takes all bytes, the session gets each of the
  -- program's two packets as one read of 32 bytes and one of the rest, and the program gets the
  -- session's answer in the same two pieces. Then main prints that it is connected, has written
  -- exactly the two requests, and returns 0; the session, started, has sent exactly the answer,
  -- and after the second request it is deleted and the acceptor's set does not hold it any more,
  -- while all other sessions stay (IsClosed).
  pub whole_connection :
      (c p cr pr : List ℕ) (more : List (List ℕ)) (address : ℕ) (o0 o1 o2 o3 o4 o5 o6 : Field)
      (rest : List Field) (acceptor : Acceptor)
      → IsText c
      → IsText p
      → length c < 1024
      → length p < 1024
      → now0 < 2 ^ 31
      → later < 2 ^ 31
      → now < 2 ^ 31
      → let wire = request_wire h0 now0 c p in
        let end = goodbye_wire h0 later in
        let answer = response_wire h now in
        let m = sized_header (header_with 2 0 0 now0) (connect_bytes c p) in
        let raw = o0 ∷ o1 ∷ o2 ∷ o3 ∷ o4 ∷ o5 ∷ o6 ∷ rest in
        (client_main h0 write_all now0 later true
            (c_string c ++ cr)
            (c_string p ++ pr)
            (some (record { incoming = take 32 answer ∷ drop 32 answer ∷ more; outgoing = [] }))
          ≡ done (
            0,
            "Connect server OK...!" ∷ [],
            some (record { incoming = more; outgoing = wire ++ end }),
          ))
        × (served : Server) × (s' : Server) × (((session_handler now address raw
                >>= (λ s. start (connected s))
                >>= λ session.
                    complete_read h now
                      (take 32 wire)
                      (record { session = session; acceptor = acceptor })
                    >>= complete_read h now (drop 32 wire))
              >>= complete_write h now false)
            ≡ done (answer, served))
        × ((complete_read h last (take 32 end) served >>= complete_read h last (drop 32 end))
            ≡ done s')
        × IsClosed (record { session = working address raw [] [] idle; acceptor = acceptor }) s'
  whole_connection c p cr pr more address o0 o1 o2 o3 o4 o5 o6 rest acceptor ct pt cshort pshort
        time0 time1 time =
      let bs = connect_bytes c p in
      let m = sized_header (header_with 2 0 0 now0) bs in
      let crc = h.crc32 (header_words m) in
      let answer = response_wire h now in
      let left = goodbye later in
      let end : Server = record {
        session =
            working address (header_fields head_mark left (h.crc32 (header_words left)) rest)
              (body_wire h0 []) answer idle;
        acceptor = acceptor;
      } in
      let closed = delete_session-IsClosed end in
      (
        program_lem c p cr pr more ct pt cshort pshort time,
        record {
          session =
              working address (header_fields head_mark m crc rest) (body_wire h0 bs) answer
                (reading 0 32 32);
          acceptor = acceptor;
        },
        delete_session end,
        (connect_answer h0 h same now0 now c p cr pr more [] address o0 o1 o2 o3 o4 o5 o6 rest
            acceptor ct pt cshort pshort time0 time).1,
        session_left h0 h same last later address (scalar type_long head_mark "hmark")
            (scalar type_long m.method "method") (scalar type_long m.bsize "bsize")
            (scalar type_long m.ret "ret") (scalar type_long m.time "time")
            (scalar type_long m.count "count") (scalar type_longlong crc "hcrc") rest
            (body_wire h0 bs) answer acceptor time1,
        record {
          dead = closed.dead;
          quiet = closed.quiet;
          erased = closed.erased;
          others = closed.others;
        },
      )
