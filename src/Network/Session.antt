-- ===== src/Network/Session.antt =====
-- src/core/network/session_handler.h, session_handler.cpp, api_network.cpp: one client's session.
-- An asynchronous operation is kept in `pending` until Boost.Asio completes it.
pub mod Receive
pub mod ReceiveHeader
pub mod Closing
pub mod Reject
pub mod AnyHeader
pub mod Requests
pub mod Faults
pub mod Scope
pub mod Alone
pub mod ShortBody
pub mod Replay
use librtaio.Base.{
  ℕ, ◌+◌, ◌-◌, ◌*◌, ◌^◌, Bool, true, false, List, [], ◌∷◌, ◌++◌, Option, none, some, length, take,
  drop, set, get_elem?, replicate, ltb, leb, ◌==◌, ◌||◌, if◌then◌else◌, Outcome, done, thrown,
  fault, access, ◌>>=◌, ◌>>◌,
}
use librtaio.Stream.Host.{Host}
use librtaio.Stream.ByteOrder.{load}
use librtaio.Stream.Buffer.{istreambuf}
use librtaio.Stream.Input.{input_stream}
use librtaio.Protocol.ErrorCode.{error_value, err_ok}
use librtaio.Protocol.Field.{
  Field, msg_value, msg_common, msg_connect, msg_disconnect, head_mark, body_mark, field_method,
  field_bsize, to_int, to_size, is_negative, minus_one, fields_len, msg_common_req_fields,
  msg_connect_fields, msg_connect_resp_fields, msg_disconnect_fields,
}
use librtaio.Protocol.Fields.{copy_fields, fields_size, Sizes}
use librtaio.Protocol.Send.{resize, encode_packet}
use librtaio.Protocol.Decode.{unserialize_header_packet, unserialize_body_packet}
use librtaio.Network.Acceptor.{Acceptor, remove_session_handler}

-- async_read_some into `size` bytes of m_recv_buffer from `at` on, with `want` bound to the
-- handler; and async_write of the bytes of m_send_buffer.
pub data Pending : Type 0 where
  idle : Pending
  reading : (at size want : ℕ) → Pending
  writing : List ℕ → Pending

-- `live` ends with `delete this`. `peer` says that the socket has a remote endpoint: it has one when
-- the acceptor has connected it, and may lose it when the client resets the connection.
-- `recv_buffer` are the bytes of m_recv_buffer's storage from its first one on: those of the vector,
-- and behind its size those that reads have stored there since it got that size. The storage has room for m_header_size
-- bytes at least, since start() resizes the vector to that, and neither clear() nor resize() makes
-- its capacity smaller.
pub record Session : Type 0 where
  pub address : ℕ
  pub live : Bool
  pub peer : Bool
  pub header_size : ℕ
  pub packet_header : List Field
  pub recv_buffer : List ℕ
  pub send_buffer : List ℕ
  pub pending : Pending

-- The storage of m_recv_buffer has room for `n` bytes.
abbrev pub has_room : ℕ → Session → Bool
has_room n s = leb n (length s.recv_buffer) || leb n s.header_size

-- A session and the acceptor that it points to.
pub record Server : Type 0 where
  pub session : Session
  pub acceptor : Acceptor

abbrev pub with_session : Server → Session → Server
with_session s session = record s { session = session }

-- `packet_header` are the array's contents before anything is stored there.
unfoldable pub session_handler : ℕ → ℕ → List Field → Outcome Session
unfolding msg_common_req_fields
session_handler now address packet_header =
    fields_size (msg_common_req_fields now (msg_value msg_common)) 0 >>= λ z. done (record {
      address = address;
      live = true;
      peer = false;
      header_size = z.header;
      packet_header = packet_header;
      recv_buffer = [];
      send_buffer = [];
      pending = idle;
    })

-- async_accept connects the socket of the session.
abbrev pub connected : Session → Session
connected s = record s { peer = true }

-- m_socket.remote_endpoint(), which throws where there is none.
unfoldable pub remote_endpoint : Session → Outcome (Unit {0})
remote_endpoint s = if s.peer then done tt else thrown

unfoldable pub start : Session → Outcome Session
unfolding remote_endpoint
start s =
    remote_endpoint s
    >> (resize s.header_size >>= λ buffer.
        done (record s { recv_buffer = buffer; pending = reading 0 s.header_size s.header_size }))

-- close() after its first line.
abbrev pub delete_session : Server → Server
delete_session s = record {
  session = record s.session { live = false; pending = idle };
  acceptor = remove_session_handler s.session.address s.acceptor;
}

unfoldable pub close : Server → Outcome Server
unfolding remote_endpoint
close s = remote_endpoint s.session >> done (delete_session s)

-- A handler that returns `int`.
abbrev pub Handler : Type 0
Handler = Server → Outcome (ℕ × Server)

module _ (h : Host) (now : ℕ) where
  unfoldable pub read_packet_header : Session → Outcome (ℕ × Session)
  read_packet_header s =
      unserialize_header_packet h (input_stream h (istreambuf s.recv_buffer s.header_size))
        s.packet_header true
      >>= λ r. done (r.0, record s { packet_header = r.1 })

  -- handle_packet_header() after the header is read: the body is waited for.
  unfoldable pub await_body : Session → Outcome Session
  await_body s = access (get_elem? s.packet_header field_bsize) >>= λ p.
      let body_size = to_int p.ivalue in
      resize body_size >>= λ buffer.
      done (record s { recv_buffer = buffer; pending = reading 0 body_size (to_size body_size) })

  unfoldable pub handle_packet_header : Handler
  handle_packet_header s =
      copy_fields s.session.packet_header (msg_common_req_fields now (msg_value msg_common)) true
      >>= λ c. read_packet_header (record s.session { packet_header = c.1 }) >>= λ r.
          if r.0 == 0
          then (await_body r.1 >>= λ session. done (r.0, with_session s session))
          else done (r.0, with_session s r.1)

  -- The result, the fields as they are left, and the session.
  unfoldable pub read_packet_body : List Field → ℕ → Session → Outcome (ℕ × List Field)
  read_packet_body fields len s = copy_fields fields s.packet_header true >>= λ c.
      access (get_elem? s.packet_header field_bsize) >>= λ p.
      unserialize_body_packet h (input_stream h (istreambuf s.recv_buffer (to_int p.ivalue))) c.1
        len true
      >>= λ r. done (r.0, r.1)

  unfoldable pub send_packet : List Field → ℕ → Handler
  send_packet fields len s = encode_packet h fields len >>= λ r.
      let pending' = if r.0 == 0 then writing r.2 else s.session.pending in
      done (r.0, with_session s (record s.session { send_buffer = r.2; pending = pending' }))

  -- The arrays that the request's names are read into hold 1024 zeros.
  unfoldable pub msg_connect_handler : Handler
  msg_connect_handler s =
      let robj = msg_connect_fields now (replicate 1024 0) (replicate 1024 0) in
      read_packet_body robj (fields_len robj) s.session >>= λ r.
      let wobj = msg_connect_resp_fields now (error_value err_ok) 1 in
      if r.0 == error_value err_ok then send_packet wobj (fields_len wobj) s else done (r.0, s)

  unfoldable pub msg_disconnect_handler : Handler
  msg_disconnect_handler s =
      let robj = msg_disconnect_fields now in
      read_packet_body robj (fields_len robj) s.session >>= λ r.
      if r.0 == error_value err_ok then (close s >>= λ s'. done (0, s')) else done (r.0, s)

  unfoldable pub handle_packet_body : Handler
  handle_packet_body s = access (get_elem? s.session.packet_header field_method) >>= λ p.
      let method = to_int p.ivalue in
      if method == msg_value msg_connect
      then msg_connect_handler s
      else if method == msg_value msg_disconnect
      then msg_disconnect_handler s
      else done (minus_one, s)

  -- The first four bytes of the buffer as an int32_t of the host.
  unfoldable pub packet_mark : List ℕ → Outcome ℕ
  packet_mark buffer = if leb 4 (length buffer) then done (load h.little (take 4 buffer)) else fault

  -- The result of a handler that handle_read calls is not looked at.
  abbrev pub dispatch : Handler → Server → Outcome Server
  dispatch handler s = handler s >>= λ r. done r.1

  unfoldable pub handle_mark : ℕ → Server → Outcome Server
  handle_mark mark s =
      if mark == head_mark
      then dispatch handle_packet_header s
      else if mark == body_mark
      then dispatch handle_packet_body s
      else done s

  unfoldable pub handle_read : Bool → ℕ → ℕ → Server → Outcome Server
  handle_read true bytes_transferred want_bytes s = close s
  handle_read false bytes_transferred want_bytes s =
      let left = want_bytes - bytes_transferred in
      if bytes_transferred == 0
      then close s
      else if ltb bytes_transferred want_bytes
      then done
          (with_session s (record s.session { pending = reading bytes_transferred left left }))
      else (packet_mark s.session.recv_buffer >>= λ mark. handle_mark mark s)

  unfoldable pub handle_write : Bool → ℕ → Server → Outcome Server
  handle_write true bytes_transferred s = close s
  handle_write false bytes_transferred s = done (
      with_session s
        (record s.session { pending = reading 0 s.session.header_size s.session.header_size }))

  -- Boost.Asio completes the pending read: it has stored `bytes`, at most `size`, from `at` on, and
  -- calls the handler. A store that fits neither the vector nor the room for a header is undefined.
  unfoldable pub complete_read : List ℕ → Server → Outcome Server
  complete_read bytes s =
      let buffer = s.session.recv_buffer in
      elim s.session.pending [
        | idle ↦ done s
        | writing sent ↦ done s
        | reading at size want ↦
            let got = take size bytes in
            let filled = take at buffer ++ (got ++ drop (at + length got) buffer) in
            let session' = record s.session { recv_buffer = filled; pending = idle } in
            if has_room (at + length got) s.session
            then handle_read false (length got) want (with_session s session')
            else fault
      ]

  -- The peer closes the connection or the read fails.
  unfoldable pub fail_read : Server → Outcome Server
  fail_read s = elim s.session.pending [
    | idle ↦ done s
    | writing sent ↦ done s
    | reading at size want ↦
        handle_read true 0 want (with_session s (record s.session { pending = idle }))
  ]

  -- async_write ends when all is written, or with an error: the bytes that went out.
  unfoldable pub complete_write : Bool → Server → Outcome (List ℕ × Server)
  complete_write error s = elim s.session.pending [
    | idle ↦ done ([], s)
    | reading at size want ↦ done ([], s)
    | writing sent ↦
        handle_write error (length sent) (with_session s (record s.session { pending = idle }))
        >>= λ s'. done (sent, s')
  ]
