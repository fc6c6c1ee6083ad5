-- ===== src/Network/Exchange/Answer.antt =====
-- A client's connection from its call of connect (src/api/rtdb_client_impl.cpp) to the result: what
-- it writes is what the server's session reads, and what the session writes is what it reads.
use librtaio.Base.{
  ℕ, ◌+◌, ◌^◌, ◌<◌, ◌≡◌, ap, refl, sym, true, false, List, [], ◌∷◌, ◌++◌, length, take, drop, done,
  ◌>>=◌, arith, take-append, drop-append,
}
use librtaio.Stream.Host.{Host}
use librtaio.Protocol.Field.{Field, head_mark, msg_tail, fields_len}
use librtaio.Protocol.Send.{sized_header}
use librtaio.Protocol.Messages.{
  header_with, c_string, IsText, connect_bytes, response_fields, response_bytes, connect_response,
  response-Fills, response-Sized,
}
use librtaio.Protocol.Wire.{message, header_fields, header_words, header_wire, body_wire}
use librtaio.Protocol.RoundTrip.{SameCrc}
use librtaio.Protocol.Send.Connection.{response_length}
use librtaio.Network.Acceptor.{Acceptor}
use librtaio.Network.Session.{
  reading, session_handler, start, connected, complete_read, complete_write, handle_write,
}
use librtaio.Network.Session.Receive.{working, length-header_wire}
use librtaio.Network.Session.Requests.{response_wire}
use librtaio.Network.Exchange.{
  write_all, request_wire, request-IsHeader, send_request, connect_exchange,
}
use librtaio.Api.Client.{Socket, connect}
use librtaio.Api.Receive.{recv_packet_same}

response_len :
    (now : ℕ)
    → fields_len (message (header_with 2 0 0 now) 0 (response_fields 0 ++ msg_tail))
      ≡ length (response_fields 0) + 9
unfolding msg_tail
response_len now = refl

module _ (h0 h : Host) (same : SameCrc h0 h) (now0 now : ℕ) where
  -- The client reads the answer.
  pub connect_answered :
      (c p cr pr : List ℕ) (more : List (List ℕ)) (outgoing : List ℕ)
      → IsText c
      → IsText p
      → length c < 1024
      → length p < 1024
      → now < 2 ^ 31
      → connect h0 now0 write_all true (c_string c ++ cr) (c_string p ++ pr) (record {
        incoming = take 32 (response_wire h now) ∷ drop 32 (response_wire h now) ∷ more;
        outgoing = outgoing;
      })
        ≡ done (0, record { incoming = more; outgoing = outgoing ++ request_wire h0 now0 c p })
  unfolding connect
  connect_answered c p cr pr more outgoing ct pt cshort pshort time =
      let bs = response_bytes 1 in
      let m = sized_header (header_with 2 0 0 now) bs in
      let size : length bs ≡ 2 = response_length 1 in
      let s : Socket = record {
        incoming = header_wire h m ∷ body_wire h bs ∷ more;
        outgoing = outgoing;
      } in
      rw (
        take-append 32 (header_wire h m) (body_wire h bs) (length-header_wire h m),
        drop-append 32 (header_wire h m) (body_wire h bs) (length-header_wire h m),
        send_request h0 now0 c p cr pr ct pt cshort pshort s,
        connect_response now0 0 0,
        response_len now0,
        recv_packet_same h h0 (λ bs. sym (same bs)) now0 m (header_with 2 0 0 now0)
            (response_fields 0) (response_fields 1) 2 bs more (outgoing ++ request_wire h0 now0 c p)
            (request-IsHeader h h0 (λ bs. sym (same bs)) now now0 bs (omega (arith, size)) time)
            refl refl (omega (arith, size)) (response-Fills h0 1 0 1 (omega arith))
            (response-Sized 0) (omega arith) (omega arith),
      )

  -- A client and a server of either byte order use the same checksum; the names are of nonzero
  -- bytes, each shorter than 1024, and the times below 2^31. The client calls connect on a socket
  -- that takes the whole request, a new session gets that request as one read of 32 bytes and one
  -- of the rest, and the client gets the session's answer in the same two pieces. Then connect
  -- writes exactly the request and returns ERR_OK; and the session, started and done with its
  -- write, has sent exactly the answer, keeps the header's values, and waits for the next header.
  -- Its place in the acceptor's set does not change.
  pub connect_answer :
      (c p cr pr : List ℕ) (more : List (List ℕ)) (outgoing : List ℕ) (address : ℕ)
      (o0 o1 o2 o3 o4 o5 o6 : Field) (rest : List Field) (acceptor : Acceptor)
      → IsText c
      → IsText p
      → length c < 1024
      → length p < 1024
      → now0 < 2 ^ 31
      → now < 2 ^ 31
      → let wire = request_wire h0 now0 c p in
        let answer = response_wire h now in
        let m = sized_header (header_with 2 0 0 now0) (connect_bytes c p) in
        (connect h0 now0 write_all true
            (c_string c ++ cr)
            (c_string p ++ pr)
            (record { incoming = take 32 answer ∷ drop 32 answer ∷ more; outgoing = outgoing })
          ≡ done (0, record { incoming = more; outgoing = outgoing ++ wire }))
        × (((session_handler now address (o0 ∷ o1 ∷ o2 ∷ o3 ∷ o4 ∷ o5 ∷ o6 ∷ rest)
                >>= (λ s. start (connected s))
                >>= λ session.
                    complete_read h now
                      (take 32 wire)
                      (record { session = session; acceptor = acceptor })
                    >>= complete_read h now (drop 32 wire))
              >>= complete_write h now false)
            ≡ done (
              answer,
              record {
                session =
                    working address
                      (header_fields head_mark m (h.crc32 (header_words m)) rest)
                      (body_wire h0 (connect_bytes c p))
                      answer
                      (reading 0 32 32);
                acceptor = acceptor;
              },
            ))
  unfolding complete_write handle_write
  connect_answer c p cr pr more outgoing address o0 o1 o2 o3 o4 o5 o6 rest acceptor ct pt cshort
        pshort time0 time =
      let socket : Socket = record { incoming = []; outgoing = [] } in
      (
        connect_answered c p cr pr more outgoing ct pt cshort pshort time,
        ap (λ o. o >>= complete_write h now false)
            (connect_exchange h0 h same now0 now c p cr pr socket address o0 o1 o2 o3 o4 o5 o6 rest
              acceptor ct pt cshort pshort time0).1,
      )
