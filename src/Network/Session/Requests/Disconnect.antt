-- ===== src/Network/Session/Requests/Disconnect.antt =====
-- src/core/network/api_network.cpp: what a session does with the body of a disconnection request.
use librtaio.Base.{ℕ, ◌≡◌, List, [], length, done}
use librtaio.Stream.Host.{Host}
use librtaio.Protocol.ErrorCode.{error_value}
use librtaio.Protocol.Field.{Field, head_mark, to_int, msg_value, msg_disconnect, msg_tail}
use librtaio.Protocol.Messages.{header_with, disconnect_request}
use librtaio.Protocol.Wire.{Header, header_fields, body_wire}
use librtaio.Protocol.Decode.Body.{Fills}
use librtaio.Protocol.RoundTrip.{SameCrc}
use librtaio.Network.Acceptor.{Acceptor}
use librtaio.Network.Session.{
  Server, reading, idle, complete_read, delete_session, close, remote_endpoint, handle_packet_body,
  msg_disconnect_handler,
}
use librtaio.Network.Session.Closing.{IsClosed, delete_session-IsClosed}
use librtaio.Network.Session.Receive.{working}
use librtaio.Network.Session.Requests.{with_body, receive_body, read_packet_body_lem}

module _ (h0 h : Host) (same : SameCrc h0 h) (now : ℕ) where
  module _ (m : Header) (hcrc address : ℕ) (rest : List Field) (sent : List ℕ)
      (acceptor : Acceptor) where
    -- The body of a disconnection request: the session deletes itself.
    pub disconnect_handled :
        (buffer : List ℕ)
        → to_int m.method ≡ msg_value msg_disconnect
        → to_int m.bsize ≡ 12
        → length buffer ≡ 12
        → complete_read h now (body_wire h0 []) (record {
          session =
              working address (header_fields head_mark m hcrc rest) buffer sent (reading 0 12 12);
          acceptor = acceptor;
        })
          ≡ done (
              delete_session
                (with_body h0 h same now m hcrc address rest sent acceptor [] sent idle))
    unfolding handle_packet_body msg_disconnect_handler msg_tail error_value msg_value close
        remote_endpoint
    disconnect_handled buffer method bsize size = rw (
      receive_body h0 h same now m hcrc address rest sent acceptor [] buffer size,
      method,
      disconnect_request now,
      read_packet_body_lem h0 h same now m (header_with 3 0 0 now) hcrc address rest [] [] [] sent
          bsize Fills.end,
    )

    -- A session that stored the header of a disconnection request gets its body in one read, from
    -- a host with the same checksum: it is deleted and waits for nothing, the acceptor's set does
    -- not hold it any more, and all other sessions stay in the set.
    pub receive_disconnect :
        (buffer : List ℕ)
        → to_int m.method ≡ msg_value msg_disconnect
        → to_int m.bsize ≡ 12
        → length buffer ≡ 12
        → let before : Server = record {
          session =
              working address (header_fields head_mark m hcrc rest) buffer sent (reading 0 12 12);
          acceptor = acceptor;
        } in
          (s' : Server) × (complete_read h now (body_wire h0 []) before ≡ done s')
          × IsClosed before s'
    receive_disconnect buffer method bsize size =
        let after =
          delete_session (with_body h0 h same now m hcrc address rest sent acceptor [] sent idle) in
        let closed =
          delete_session-IsClosed
            (with_body h0 h same now m hcrc address rest sent acceptor [] sent idle) in
        (
          after,
          disconnect_handled buffer method bsize size,
          record {
            dead = closed.dead;
            quiet = closed.quiet;
            erased = closed.erased;
            others = closed.others;
          },
        )
