-- ===== src/Protocol/Send/Connection.antt =====
-- The packets of the connection service: src/protocol/protocol_network.h, encoded.
use librtaio.Base.{
  ℕ, ◌+◌, ◌<◌, ◌≡◌, subst, sym, List, [], ◌++◌, some, length, done, arith, length-append,
}
use librtaio.Stream.Host.{Host}
use librtaio.Stream.ByteOrder.Swap.{length-be_bytes}
use librtaio.Protocol.Field.{
  msg_connect_fields, msg_connect_resp_fields, msg_disconnect_fields, fields_len, msg_tail,
}
use librtaio.Protocol.Fields.Size.{Sized}
use librtaio.Protocol.Encode.Body.{Body}
use librtaio.Protocol.Send.{encode_packet, packet_wire, encode_packet_lem}
use librtaio.Protocol.Messages.{
  first_field, header_with, c_string, IsText, connect_bytes, length-connect_bytes, request_fields,
  connect_request, connect-Body, connect-Sized, response_fields, response_bytes, connect_response,
  response-Body, response-Sized, disconnect_request,
}

pub response_length : (priv : ℕ) → length (response_bytes priv) ≡ 2
response_length priv = omega (arith, length-append {0}, length-be_bytes)

pub encode_response :
    (h : Host) (now retcode priv : ℕ)
    → encode_packet h
        (msg_connect_resp_fields now retcode priv)
        (fields_len (msg_connect_resp_fields now retcode priv))
      ≡ done (
        0,
        length (response_bytes priv) + 44,
        packet_wire h (header_with 2 0 retcode now) (response_bytes priv),
      )
unfolding msg_tail
encode_response h now retcode priv = rw (connect_response now retcode priv) (
    encode_packet_lem h (header_with 2 0 retcode now) (response_fields priv) (response_bytes priv)
      (subst (Sized 1 first_field (response_fields priv)) (sym (response_length priv))
        (response-Sized priv))
      (response-Body h (some 1) priv) (omega (arith, response_length priv)) (omega arith))

pub encode_disconnect :
    (h : Host) (now : ℕ)
    → encode_packet h (msg_disconnect_fields now) (fields_len (msg_disconnect_fields now))
      ≡ done (0, 44, packet_wire h (header_with 3 0 0 now) [])
unfolding msg_tail
encode_disconnect h now = rw (disconnect_request now) (
    encode_packet_lem h (header_with 3 0 0 now) [] [] Sized.end Body.end (omega arith)
      (omega arith))

-- A connection request with names that fit the server's arrays is sent as one packet.
pub encode_connect :
    (h : Host) (now : ℕ) (c p cr pr : List ℕ)
    → IsText c
    → IsText p
    → length c < 1024
    → length p < 1024
    → let fields = msg_connect_fields now (c_string c ++ cr) (c_string p ++ pr) in
      encode_packet h fields (fields_len fields)
      ≡ done (
        0,
        length (connect_bytes c p) + 44,
        packet_wire h (header_with 2 0 0 now) (connect_bytes c p),
      )
unfolding msg_tail
encode_connect h now c p cr pr ct pt cshort pshort = rw (connect_request c p cr pr ct pt now) (
    encode_packet_lem h (header_with 2 0 0 now) (request_fields c p cr pr ct pt) (connect_bytes c p)
      (subst (Sized 1 first_field (request_fields c p cr pr ct pt)) (sym (length-connect_bytes c p))
        (connect-Sized c p cr pr ct pt cshort pshort))
      (connect-Body c p cr pr ct pt cshort pshort h (some 1))
      (omega (arith, length-connect_bytes c p)) (omega arith))
