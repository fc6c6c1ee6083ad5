-- ===== src/Network/Session/Requests.antt =====
-- src/core/network/api_network.cpp: what a session does with the body of each request.
pub mod Disconnect
use librtaio.Base.{
  ℕ, ◌+◌, ◌<◌, ◌≡◌, ◌≢◌, subst, true, List, [], ◌∷◌, ◌++◌, length, replicate, ne→eq, done, ◌>>=◌,
  arith, append-nil,
}
use librtaio.Stream.Host.{Host}
use librtaio.Stream.Buffer.{istreambuf}
use librtaio.Stream.Input.{input_stream}
use librtaio.Stream.Input.Words.{open_input, input_stream-open}
use librtaio.Protocol.ErrorCode.{error_value}
use librtaio.Protocol.Field.{
  Field, head_mark, body_mark, to_int, msg_value, msg_connect, msg_disconnect, msg_tail, scalar,
  type_long, type_longlong, strlen,
}
use librtaio.Protocol.Fields.Copy.{copy_fields_header}
use librtaio.Protocol.Send.{packet_wire}
use librtaio.Protocol.Send.Connection.{encode_response}
use librtaio.Protocol.Messages.{
  first_field, header_with, IsText, connect_fields, connect_bytes, msg_connect_fields-message,
  connect-Fills, received_fields, response_bytes, disconnect_request,
}
use librtaio.Protocol.Wire.{word, Header, header_fields, message, body_wire}
use librtaio.Protocol.Encode.Body.{bcrc}
use librtaio.Protocol.Decode.{unserialize_body_packet}
use librtaio.Protocol.Decode.Body.{Fills}
use librtaio.Protocol.RoundTrip.{SameCrc, body_round_trip}
use librtaio.Network.Acceptor.{Acceptor}
use librtaio.Network.Session.{
  Server, Pending, reading, writing, idle, handle_mark, complete_read, delete_session, close,
  remote_endpoint, send_packet, handle_packet_body, read_packet_body, msg_connect_handler,
  msg_disconnect_handler,
}
use librtaio.Network.Session.Closing.{IsClosed, delete_session-IsClosed}
use librtaio.Network.Session.Receive.{working, body_mark_lem, complete_read_all, length-body_wire}

-- The packet that answers a connection request.
abbrev pub response_wire : Host → ℕ → List ℕ
response_wire h now = packet_wire h (header_with 2 0 0 now) (response_bytes 1)

module _ (h0 h : Host) (same : SameCrc h0 h) (now : ℕ) where
  -- The fields of a request get the values of the stored header and of the received body.
  pub read_packet_body_lem :
      (m m0 : Header) (hcrc address : ℕ) (rest ps qs : List Field) (bs sent : List ℕ)
      → to_int m.bsize ≡ length bs + 12
      → Fills h (to_int m.count) first_field ps bs qs
      → read_packet_body h now
          (message m0 0 (ps ++ msg_tail))
          (length ps + 9)
          (working address (header_fields head_mark m hcrc rest) (body_wire h0 bs) sent idle)
        ≡ done (0, message m hcrc (qs ++ bcrc (h.crc32 (word body_mark ++ bs))))
  unfolding read_packet_body msg_tail
  read_packet_body_lem m m0 hcrc address rest ps qs bs sent size fills =
      let wire = body_wire h0 bs in
      let after = scalar type_long body_mark "bmark" ∷ (ps ++ msg_tail) in
      let stream : input_stream h (istreambuf wire (length bs + 12)) ≡ open_input h [] wire =
        subst (λ k. input_stream h (istreambuf wire k) ≡ open_input h [] wire)
          (length-body_wire h0 bs) (input_stream-open h wire) in
      let run =
        subst
          (λ bytes.
            unserialize_body_packet h (open_input h [] bytes) (message m hcrc (ps ++ bcrc 0))
              (length ps + 9) true
            ≡ done (
              0,
              message m hcrc (qs ++ bcrc (h.crc32 (word body_mark ++ bs))),
              open_input h wire [],
            ))
          (append-nil wire) (body_round_trip h0 h same m 0 hcrc 0 ps qs bs [] fills) in
      rw (
        copy_fields_header m head_mark hcrc rest after (scalar type_long head_mark "hmark")
            (scalar type_long m0.method "method") (scalar type_long m0.bsize "bsize")
            (scalar type_long m0.ret "ret") (scalar type_long m0.time "time")
            (scalar type_long m0.count "count") (scalar type_longlong 0 "hcrc"),
        size,
        stream,
        run,
      )

  module _ (m : Header) (hcrc address : ℕ) (rest : List Field) (sent : List ℕ)
      (acceptor : Acceptor) where
    -- The server when it has the body.
    abbrev pub with_body : List ℕ → List ℕ → Pending → Server
    with_body bs out pending = record {
      session = working address (header_fields head_mark m hcrc rest) (body_wire h0 bs) out pending;
      acceptor = acceptor;
    }

    pub connect_handler_lem :
        (c p : List ℕ)
        → IsText c
        → IsText p
        → length c < 1024
        → length p < 1024
        → to_int m.bsize ≡ length (connect_bytes c p) + 12
        → msg_connect_handler h now (with_body (connect_bytes c p) sent idle)
          ≡ done (
            0,
            with_body (connect_bytes c p) (response_wire h now) (writing (response_wire h now)),
          )
    unfolding msg_connect_handler send_packet error_value msg_tail
    connect_handler_lem c p ct pt cshort pshort size =
        let zeros : List ℕ = replicate 1024 0 in
        let k = strlen zeros + 1 in
        let bs = connect_bytes c p in
        rw (
          msg_connect_fields-message now zeros zeros,
          read_packet_body_lem m (header_with 2 0 0 now) hcrc address rest
              (connect_fields k zeros k zeros) (received_fields c p) bs sent size
              (connect-Fills c p [] [] ct pt cshort pshort h (to_int m.count) k k),
          encode_response h now 0 1,
        )

    -- The body comes in one read: it is handed to the handler of the header's method.
    pub receive_body :
        (bs buffer : List ℕ)
        → length buffer ≡ length bs + 12
        → complete_read h now (body_wire h0 bs) (record {
          session =
              working address
                (header_fields head_mark m hcrc rest)
                buffer
                sent
                (reading 0 (length bs + 12) (length bs + 12));
          acceptor = acceptor;
        })
          ≡ (handle_packet_body h now (with_body bs sent idle) >>= λ r. done r.1)
    unfolding handle_mark
    receive_body bs buffer size = rw (
      complete_read_all h now (length bs + 12) address (header_fields head_mark m hcrc rest) buffer
          (body_wire h0 bs) sent acceptor (omega arith) size (length-body_wire h0 bs),
      body_mark_lem h now h0 bs,
    )

    -- A session that stored the header of a connection request gets its body in one read, with
    -- names of nonzero bytes shorter than 1024, from a host with the same checksum: it answers
    -- with ERR_OK and permission 1, and waits until the whole answer is written.
    pub receive_connect :
        (c p buffer : List ℕ)
        → IsText c
        → IsText p
        → length c < 1024
        → length p < 1024
        → let bs = connect_bytes c p in
          to_int m.method ≡ msg_value msg_connect
          → to_int m.bsize ≡ length bs + 12
          → length buffer ≡ length bs + 12
          → complete_read h now (body_wire h0 bs) (record {
            session =
                working address
                  (header_fields head_mark m hcrc rest)
                  buffer
                  sent
                  (reading 0 (length bs + 12) (length bs + 12));
            acceptor = acceptor;
          })
            ≡ done (with_body bs (response_wire h now) (writing (response_wire h now)))
    unfolding handle_packet_body msg_value
    receive_connect c p buffer ct pt cshort pshort method bsize size = rw (
      receive_body (connect_bytes c p) buffer size,
      method,
      connect_handler_lem c p ct pt cshort pshort bsize,
    )

    -- A session that stored a header with any other method gets its body in one read: the body is
    -- not decoded, nothing is answered and no further read is started. The session stays in the
    -- acceptor's set.
    pub receive_unknown :
        (bs buffer : List ℕ)
        → to_int m.method ≢ msg_value msg_connect
        → to_int m.method ≢ msg_value msg_disconnect
        → length buffer ≡ length bs + 12
        → complete_read h now (body_wire h0 bs) (record {
          session =
              working address
                (header_fields head_mark m hcrc rest)
                buffer
                sent
                (reading 0 (length bs + 12) (length bs + 12));
          acceptor = acceptor;
        })
          ≡ done (with_body bs sent idle)
    unfolding handle_packet_body
    receive_unknown bs buffer a b size = rw (
      receive_body bs buffer size,
      ne→eq (to_int m.method) (msg_value msg_connect) a,
      ne→eq (to_int m.method) (msg_value msg_disconnect) b,
    )
