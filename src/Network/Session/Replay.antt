-- ===== src/Network/Session/Replay.antt =====
-- What a session does with a body that comes where it waits for a header.
use librtaio.Base.{
  inl, ℕ, ◌+◌, ◌≤◌, ◌<◌, ◌≡◌, List, length, take, done, arith, length-take, take-append-drop,
}
use librtaio.Stream.Host.{Host}
use librtaio.Protocol.Field.{Field, head_mark, to_int, msg_value, msg_connect}
use librtaio.Protocol.Messages.{IsText, connect_bytes, length-connect_bytes}
use librtaio.Protocol.Wire.{Header, header_fields, body_wire}
use librtaio.Protocol.RoundTrip.{SameCrc}
use librtaio.Network.Acceptor.{Acceptor}
use librtaio.Network.Session.{reading, writing, handle_mark, complete_read, handle_packet_body}
use librtaio.Network.Session.Receive.{working, complete_read_over, body_mark_lem, length-body_wire}
use librtaio.Network.Session.Requests.{response_wire, connect_handler_lem}

module _ (h0 h : Host) (same : SameCrc h0 h) (now : ℕ) where
  -- A session has stored the header of a connection request and holds its body, with names of
  -- nonzero bytes, each shorter than 1024 and of at least 14 bytes together, and waits for the
  -- next header. It gets the first 32 bytes of that body once more, with no header: it takes the
  -- request as a new one and answers again.
  pub receive_body_again :
      (m : Header) (hcrc address : ℕ) (rest : List Field) (sent : List ℕ) (acceptor : Acceptor)
      (c p : List ℕ)
      → IsText c
      → IsText p
      → length c < 1024
      → length p < 1024
      → 14 ≤ length c + length p
      → to_int m.method ≡ msg_value msg_connect
      → to_int m.bsize ≡ length (connect_bytes c p) + 12
      → let body = body_wire h0 (connect_bytes c p) in
        let answer = response_wire h now in
        let fields = header_fields head_mark m hcrc rest in
        complete_read h now (take 32 body) (record {
          session = working address fields body sent (reading 0 32 32);
          acceptor = acceptor;
        })
        ≡ done (record {
          session = working address fields body answer (writing answer);
          acceptor = acceptor;
        })
  unfolding handle_mark handle_packet_body msg_value
  receive_body_again m hcrc address rest sent acceptor c p ct pt cshort pshort long method bsize =
      let bs = connect_bytes c p in
      let body = body_wire h0 bs in
      let room : 32 ≤ length body =
        omega (arith, length-body_wire h0 bs, length-connect_bytes c p) in
      let size : length (take 32 body) ≡ 32 = length-take 32 body room in
      let index : 0 + length (take 32 body) ≡ 32 = omega arith in
      rw (
        complete_read_over h now 32 address (header_fields head_mark m hcrc rest) body
            (take 32 body) sent acceptor (omega arith) (inl room) size,
        index,
        take-append-drop 32 body,
        body_mark_lem h now h0 bs,
        method,
        connect_handler_lem h0 h same now m hcrc address rest sent acceptor c p ct pt cshort pshort
            bsize,
      )
