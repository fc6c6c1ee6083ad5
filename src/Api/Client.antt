-- ===== src/Api/Client.antt =====
-- src/api/rtdb_client_impl.cpp and rtdb_client.cpp: a client's requests. The socket is what it
-- still delivers, cut into the pieces that read_some gives, and what is written to it.
use librtaio.Base.{
  ℕ, ◌-◌, Bool, true, false, List, [], ◌∷◌, ◌++◌, length, take, drop, get_elem?, ltb, leb, ◌==◌,
  ◌||◌, if◌then◌else◌, Outcome, done, thrown, fault, access, ◌>>=◌,
}
use librtaio.Stream.Host.{Host}
use librtaio.Stream.ByteOrder.{load}
use librtaio.Stream.Buffer.{istreambuf}
use librtaio.Stream.Input.{input_stream}
use librtaio.Protocol.ErrorCode.{
  error_value, err_send_packet_error, err_decode_erroe, err_unexpectied_method,
}
use librtaio.Protocol.Field.{
  Field, msg_value, msg_common, head_mark, body_mark, field_method, field_bsize, field_return,
  to_int, minus_one, fields_len, msg_common_req_fields, msg_connect_fields, msg_connect_resp_fields,
  msg_disconnect_fields,
}
use librtaio.Protocol.Fields.{copy_fields, fields_size}
use librtaio.Protocol.Send.{resize, encode_packet}
use librtaio.Protocol.Decode.{unserialize_header_packet, unserialize_body_packet}

pub record Socket : Type 0 where
  pub incoming : List (List ℕ)
  pub outgoing : List ℕ

-- The loop around read_some, for `next` more bytes; each read stores at the front of the buffer.
-- read_some without an error code throws when the connection ends.
unfoldable pub recv_loop : List ℕ → ℕ → List (List ℕ) → Outcome (List ℕ × List (List ℕ))
recv_loop buffer next [] = if next == 0 then done (buffer, []) else thrown
recv_loop buffer next (piece ∷ pieces) =
    let got = take next piece in
    let buffer' = got ++ drop (length got) buffer in
    let more = recv_loop buffer' (next - length got) pieces in
    if next == 0
    then done (buffer, piece ∷ pieces)
    else if ltb next (length piece)
    then done (buffer', drop next piece ∷ pieces)
    else if length piece == next
    then done (buffer', pieces)
    else more

-- What recv_packet does with a header: the result so far, the fields, and whether the body is
-- decoded.
unfoldable pub match_method : List Field → List Field → Outcome (ℕ × List Field × Bool)
match_method fields robj = access (get_elem? robj field_method) >>= λ sent.
    access (get_elem? fields field_method) >>= λ received.
    access (get_elem? robj field_return) >>= λ code.
    if to_int sent.ivalue == to_int received.ivalue
    then (copy_fields fields robj true >>= λ c. done (0, c.1, true))
    else if to_int sent.ivalue == msg_value msg_common
    then done (to_int code.ivalue, fields, false)
    else done (error_value err_unexpectied_method, fields, false)

module _ (h : Host) (now : ℕ) where
  unfoldable pub mark_of : List ℕ → Outcome ℕ
  mark_of buffer = if leb 4 (length buffer) then done (load h.little (take 4 buffer)) else fault

  -- The body, decoded from a stream of `header_size` bytes.
  unfoldable pub decode_body : List Field → ℕ → ℕ → List ℕ → Outcome (ℕ × List Field)
  decode_body fields len header_size body = mark_of body >>= λ bmark.
      if bmark == body_mark
      then (unserialize_body_packet h (input_stream h (istreambuf body header_size)) fields len true
          >>= λ r. done (r.0, r.1))
      else done (error_value err_decode_erroe, fields)

  -- recv_packet from the decoded header `robj` on.
  unfoldable pub recv_body :
      List Field → ℕ → ℕ → List Field → Socket → Outcome (ℕ × List Field × Socket)
  recv_body fields len header_size robj s = access (get_elem? robj field_bsize) >>= λ p.
      match_method fields robj >>= λ m. resize (to_int p.ivalue) >>= λ buffer.
      recv_loop buffer (to_int p.ivalue) s.incoming >>= λ b.
      let s' = record s { incoming = b.1 } in
      if m.2
      then (decode_body m.1 len header_size b.0 >>= λ r. done (r.0, r.1, s'))
      else done (m.0, m.1, s')

  unfoldable pub recv_packet : List Field → ℕ → Socket → Outcome (ℕ × List Field × Socket)
  recv_packet fields len s = fields_size fields 0 >>= λ z. resize z.header >>= λ buffer.
      recv_loop buffer z.header s.incoming >>= λ b. mark_of b.0 >>= λ hmark.
      let s' = record s { incoming = b.1 } in
      let stream = input_stream h (istreambuf b.0 z.header) in
      let header =
        unserialize_header_packet h stream (msg_common_req_fields now (msg_value msg_common))
          true in
      if hmark == head_mark
      then (header >>= λ r.
          if r.0 == 0 then recv_body fields len z.header r.1 s' else done (r.0, fields, s'))
      else done (error_value err_decode_erroe, fields, s')

  -- `write_some` says how many bytes the socket takes, and whether it reports an error.
  module _ (write_some : List ℕ → ℕ × Bool) where
    unfoldable pub send_packet : List Field → ℕ → Socket → Outcome (ℕ × Socket)
    send_packet fields len s = encode_packet h fields len >>= λ r.
        let taken = write_some r.2 in
        let s' = record s { outgoing = s.outgoing ++ take taken.0 r.2 } in
        let code = if ltb taken.0 r.1 || taken.1 then error_value err_send_packet_error else r.0 in
        if r.0 == 0 then done (code, s') else done (r.0, s)

    -- connect(): `connected` is the socket's answer; the names are what gethostname and readlink
    -- leave in the two arrays. What is not yet delivered stands in `incoming`.
    unfoldable pub connect : Bool → List ℕ → List ℕ → Socket → Outcome (ℕ × Socket)
    connect false computer process s = done (minus_one, s)
    connect true computer process s =
        let wobj = msg_connect_fields now computer process in
        let robj = msg_connect_resp_fields now 0 0 in
        send_packet wobj (fields_len wobj) s >>= λ r.
        if r.0 == 0
        then (recv_packet robj (fields_len robj) r.1 >>= λ q. done (q.0, q.2))
        else done r

    unfoldable pub disconnect : Socket → Outcome (ℕ × Socket)
    disconnect s = let wobj = msg_disconnect_fields now in send_packet wobj (fields_len wobj) s
