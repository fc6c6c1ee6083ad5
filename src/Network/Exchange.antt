-- ===== src/Network/Exchange.antt =====
-- A client's connection, from the request that src/api/rtdb_client_impl.cpp sends to the answer that
-- the server's session writes.
pub mod Answer
pub mod Program
use librtaio.Base.{
  ◌||◌, ◌⊎◌, inl, inr, Bool-cases, true, ℕ, ◌+◌, ◌%◌, ◌^◌, ◌<◌, ◌≡◌, refl, Bool, false, List, [],
  ◌∷◌, ◌++◌, length, replicate, take, drop, done, ◌>>=◌, arith, length-append, length-replicate,
  take_all, take-append, drop-append, ltb, lt→ltb,
}
use librtaio.Stream.Host.{Host}
use librtaio.Protocol.ErrorCode.{error_value, err_send_packet_error}
use librtaio.Protocol.Field.{Field, head_mark, to_int, msg_value, msg_connect_fields, fields_len}
use librtaio.Protocol.Fields.Size.{fields_size_lem, Sized}
use librtaio.Protocol.Send.{resize_lem, packet_wire, sized_header}
use librtaio.Protocol.Send.Connection.{encode_connect}
use librtaio.Protocol.Messages.{
  header_with, common_request, c_string, IsText, connect_bytes, length-connect_bytes,
}
use librtaio.Protocol.Wire.{Header, header_fields, header_words, header_wire, body_wire}
use librtaio.Protocol.RoundTrip.{SameCrc, IsInt, IsHeader}
use librtaio.Network.Acceptor.{Acceptor}
use librtaio.Network.Session.{
  reading, writing, session_handler, start, connected, remote_endpoint, complete_read,
}
use librtaio.Network.Session.Receive.{working, length-header_wire, length-body_wire, le→ltb}
use librtaio.Network.Session.ReceiveHeader.{receive_header}
use librtaio.Network.Session.Requests.{receive_connect, response_wire}
use librtaio.Api.Client.{Socket, send_packet}

-- A new session has found that a header takes 32 bytes, and waits for one.
pub session_handler-start :
    (now address : ℕ) (raw : List Field)
    → (session_handler now address raw >>= λ s. start (connected s))
      ≡ done (working address raw (replicate 32 0) [] (reading 0 32 32))
unfolding session_handler start remote_endpoint
session_handler-start now address raw = rw (
  common_request now,
  fields_size_lem (header_with 1 0 0 now) 0 [] 0 Sized.end (omega arith) (omega arith),
  resize_lem 32 (omega arith),
)

-- A socket that takes all bytes.
abbrev pub write_all : List ℕ → ℕ × Bool
write_all bytes = (length bytes, false)

length-packet_wire :
    (h : Host) (m : Header) (bs : List ℕ) → length (packet_wire h m bs) ≡ length bs + 44
length-packet_wire h m bs =
    omega
      (arith, length-append {0}, length-header_wire h (sized_header m bs), length-body_wire h bs)

abbrev pub request_wire : Host → ℕ → List ℕ → List ℕ → List ℕ
request_wire h now c p = packet_wire h (header_with 2 0 0 now) (connect_bytes c p)

module _ (h0 : Host) (now0 : ℕ) (c p cr pr : List ℕ) (ct : IsText c) (pt : IsText p)
    (cshort : length c < 1024) (pshort : length p < 1024) where
  -- The client's send_packet gives the whole request to a socket that takes all bytes.
  pub send_request :
      (s : Socket)
      → let fields = msg_connect_fields now0 (c_string c ++ cr) (c_string p ++ pr) in
        let wire = request_wire h0 now0 c p in
        send_packet h0 now0 write_all fields (fields_len fields) s
        ≡ done (0, record s { outgoing = s.outgoing ++ wire })
  unfolding send_packet
  send_request s =
      let wire = request_wire h0 now0 c p in
      let all : ltb (length wire) (length (connect_bytes c p) + 44) ≡ false =
        le→ltb (length wire) (length (connect_bytes c p) + 44)
          (omega (arith, length-packet_wire h0 (header_with 2 0 0 now0) (connect_bytes c p))) in
      rw (
        encode_connect h0 now0 c p cr pr ct pt cshort pshort,
        all,
        take_all (length wire) wire (omega arith),
      )

  -- A client sends a connection request with names of nonzero bytes, each shorter than 1024, to a
  -- socket that takes fewer bytes than the packet has or reports an error: send_packet returns
  -- ERR_SEND_PACKET_ERROR, and what the socket took is sent.
  pub send_request_short :
      (write_some : List ℕ → ℕ × Bool) (s : Socket)
      → let wire = request_wire h0 now0 c p in
        ((write_some wire).0 < length wire) ⊎ ((write_some wire).1 ≡ true)
        → let fields = msg_connect_fields now0 (c_string c ++ cr) (c_string p ++ pr) in
          send_packet h0 now0 write_some fields (fields_len fields) s
          ≡ done (
            error_value err_send_packet_error,
            record s { outgoing = s.outgoing ++ take (write_some wire).0 wire },
          )
  unfolding send_packet
  send_request_short write_some s failed =
      let wire = request_wire h0 now0 c p in
      let size = length-packet_wire h0 (header_with 2 0 0 now0) (connect_bytes c p) in
      let short : (ltb (write_some wire).0 (length (connect_bytes c p) + 44) || (write_some wire).1)
          ≡ true =
        elim failed [
          | inl few ↦
              rw (lt→ltb (write_some wire).0 (length (connect_bytes c p) + 44) (omega arith))
          | inr error ↦
              rw error
                (elim (Bool-cases (ltb (write_some wire).0 (length (connect_bytes c p) + 44))) [
                  | inl e ↦ rw e
                  | inr e ↦ rw e
                ])
        ] in
      rw (encode_connect h0 now0 c p cr pr ct pt cshort pshort, short)

pub small-IsInt : (v : ℕ) → v < 2 ^ 31 → IsInt v
small-IsInt v small = let same : v % 2 ^ 32 ≡ v = omega arith in rw (same, lt→ltb v (2 ^ 31) small)

module _ (h0 h : Host) (same : SameCrc h0 h) (now0 now : ℕ) where
  pub request-IsHeader :
      (bs : List ℕ)
      → length bs + 12 < 2 ^ 31
      → now0 < 2 ^ 31
      → IsHeader (sized_header (header_with 2 0 0 now0) bs)
  request-IsHeader bs small time = record {
    method = refl;
    bsize = small-IsInt (length bs + 12) small;
    ret = refl;
    time = small-IsInt now0 time;
    count = refl;
  }

  -- A client sends a connection request with names of nonzero bytes, each shorter than 1024, at a
  -- time below 2^31, and its packet reaches a new session as one read of 32 bytes and one of the
  -- rest. The client's send_packet reports success and puts the whole packet on a socket that
  -- takes it; the session, on a host of either byte order with the same checksum, accepts header
  -- and body, keeps the header's values, and waits for the answer with ERR_OK to be written. Its
  -- place in the acceptor's set does not change.
  pub connect_exchange :
      (c p cr pr : List ℕ) (s : Socket) (address : ℕ) (o0 o1 o2 o3 o4 o5 o6 : Field)
      (rest : List Field) (acceptor : Acceptor)
      → IsText c
      → IsText p
      → length c < 1024
      → length p < 1024
      → now0 < 2 ^ 31
      → let fields = msg_connect_fields now0 (c_string c ++ cr) (c_string p ++ pr) in
        let wire = request_wire h0 now0 c p in
        let m = sized_header (header_with 2 0 0 now0) (connect_bytes c p) in
        let answer = response_wire h now in
        (send_packet h0 now0 write_all fields (fields_len fields) s
          ≡ done (0, record s { outgoing = s.outgoing ++ wire }))
        × ((session_handler now address (o0 ∷ o1 ∷ o2 ∷ o3 ∷ o4 ∷ o5 ∷ o6 ∷ rest)
              >>= (λ s. start (connected s))
              >>= λ session.
                  complete_read h now
                    (take 32 wire)
                    (record { session = session; acceptor = acceptor })
                  >>= complete_read h now (drop 32 wire))
            ≡ done (record {
              session =
                  working address
                    (header_fields head_mark m (h.crc32 (header_words m)) rest)
                    (body_wire h0 (connect_bytes c p))
                    answer
                    (writing answer);
              acceptor = acceptor;
            }))
  unfolding msg_value
  connect_exchange c p cr pr s address o0 o1 o2 o3 o4 o5 o6 rest acceptor ct pt cshort pshort time =
      (
        send_request h0 now0 c p cr pr ct pt cshort pshort s,
        (let raw = o0 ∷ o1 ∷ o2 ∷ o3 ∷ o4 ∷ o5 ∷ o6 ∷ rest in
            let bs = connect_bytes c p in
            let m = sized_header (header_with 2 0 0 now0) bs in
            let size : length bs ≡ length c + length p + 6 = length-connect_bytes c p in
            let small : to_int (length bs + 12) ≡ length bs + 12 = omega arith in
            rw (
              session_handler-start now address raw,
              take-append 32 (header_wire h0 m) (body_wire h0 bs) (length-header_wire h0 m),
              drop-append 32 (header_wire h0 m) (body_wire h0 bs) (length-header_wire h0 m),
              receive_header h0 h same now m address o0 o1 o2 o3 o4 o5 o6 rest (replicate 32 0) []
                  acceptor (request-IsHeader bs (omega arith) time) (omega arith),
              receive_connect h0 h same now m (h.crc32 (header_words m)) address rest [] acceptor c
                  p (replicate (length bs + 12) 0) ct pt cshort pshort refl small
                  (length-replicate (length bs + 12) 0),
            )),
      )
