-- ===== src/Network/Session/Scope.antt =====
-- What a session can do to the acceptor, whatever bytes its client sends.
use librtaio.Base.{
  ℕ, ◌≡◌, refl, ◌∙◌, Bool, true, false, List, get_elem?, length, ltb, ◌==◌, if◌then◌else◌, Outcome,
  done, access, Always, always, take, drop, ◌++◌, ◌+◌, ap₂, never_fault, Always-map, Always->>=,
  Always-any->>=, replicate,
}
use librtaio.Stream.Host.{Host}
use librtaio.Stream.Buffer.{istreambuf}
use librtaio.Stream.Input.{input_stream}
use librtaio.Protocol.ErrorCode.{error_value, err_ok}
use librtaio.Protocol.Fields.{copy_fields}
use librtaio.Protocol.Send.{resize, encode_packet}
use librtaio.Protocol.Decode.{unserialize_header_packet}
use librtaio.Protocol.Field.{
  Field, msg_value, msg_common, msg_connect, msg_disconnect, head_mark, body_mark, field_method,
  field_bsize, to_int, fields_len, msg_common_req_fields, msg_connect_fields,
  msg_connect_resp_fields, msg_disconnect_fields,
}
use librtaio.Network.Acceptor.{remove_session_handler}
use librtaio.Network.Session.{
  Server, Session, Pending, idle, reading, writing, with_session, remote_endpoint, delete_session,
  close, read_packet_header, await_body, handle_packet_header, read_packet_body, send_packet,
  msg_connect_handler, msg_disconnect_handler, handle_packet_body, packet_mark, handle_mark,
  has_room, handle_read, handle_write, complete_read, fail_read, complete_write,
}

-- The session keeps its place, or it is deleted and taken out of the acceptor's set.
pub data InScope (s s' : Server) : Type 0 where
  stays :
      s'.session.address ≡ s.session.address
      → s'.session.live ≡ s.session.live
      → s'.acceptor ≡ s.acceptor
      → InScope s s'
  leaves :
      s'.session.live ≡ false
      → s'.session.pending ≡ idle
      → s'.acceptor ≡ remove_session_handler s.session.address s.acceptor
      → InScope s s'

abbrev pub Scoped : Server → Outcome Server → Type 0
Scoped s o = Always (InScope s) o

abbrev ScopedResult : Server → Outcome (ℕ × Server) → Type 0
ScopedResult s o = Always (λ r. InScope s r.1) o

-- A session that differs in other members only.
abbrev IsSame : Session → Session → Type 0
IsSame s s' = (s'.address ≡ s.address) × (s'.live ≡ s.live)

if-Always {ℓ κ} :
    {A : Type ℓ} {P : A → Type κ} (b : Bool) (m n : Outcome A)
    → Always P m
    → Always P n
    → Always P (if b then m else n)
if-Always true m n p q = p
if-Always false m n p q = q

-- Two servers that agree on what InScope looks at.
same_InScope :
    (s t s' : Server)
    → t.session.address ≡ s.session.address
    → t.session.live ≡ s.session.live
    → t.acceptor ≡ s.acceptor
    → InScope t s'
    → InScope s s'
same_InScope s t s' a l c (stays b m d) = InScope.stays (b ∙ a) (m ∙ l) (d ∙ c)
same_InScope s t s' a l c (leaves m q d) = InScope.leaves m q (d ∙ ap₂ remove_session_handler a c)

same_scope :
    (s t : Server) {o : Outcome Server}
    → t.session.address ≡ s.session.address
    → t.session.live ≡ s.session.live
    → t.acceptor ≡ s.acceptor
    → Scoped t o
    → Scoped s o
same_scope s t a l c p = Always-map (λ s' q. same_InScope s t s' a l c q) p

close-Scoped : (s : Server) → Scoped s (close s)
unfolding close
close-Scoped s =
    Always-any->>= (remote_endpoint s.session) (λ _. done (delete_session s))
      (λ _. always (InScope.leaves refl refl refl))

module _ (h : Host) (now : ℕ) where
  await_body-IsSame : (s : Session) → Always (IsSame s) (await_body h now s)
  unfolding await_body
  await_body-IsSame s =
      Always-any->>= (access (get_elem? s.packet_header field_bsize)) _
        λ p. Always-any->>= (resize (to_int p.ivalue)) _ λ buffer. always (refl, refl)

  read_packet_header-IsSame :
      (s : Session) → Always (λ r. IsSame s r.1) (read_packet_header h now s)
  unfolding read_packet_header
  read_packet_header-IsSame s =
      Always-any->>=
        (unserialize_header_packet h (input_stream h (istreambuf s.recv_buffer s.header_size))
          s.packet_header true)
        _ λ r. always (refl, refl)

  handle_packet_header-Scoped : (s : Server) → ScopedResult s (handle_packet_header h now s)
  unfolding handle_packet_header
  handle_packet_header-Scoped s =
      Always-any->>=
        (copy_fields s.session.packet_header (msg_common_req_fields now (msg_value msg_common))
          true)
        _
        λ c.
          let before = record s.session { packet_header = c.1 } in
          Always->>= (read_packet_header h now before) _ (read_packet_header-IsSame before) λ r p.
            if-Always (r.0 == 0) _ _
              (Always->>= (await_body h now r.1) _ (await_body-IsSame r.1)
                λ session q. always (InScope.stays (q.0 ∙ p.0) (q.1 ∙ p.1) refl))
              (always (InScope.stays p.0 p.1 refl))

  send_packet-Scoped :
      (fields : List Field) (len : ℕ) (s : Server) → ScopedResult s (send_packet h now fields len s)
  unfolding send_packet
  send_packet-Scoped fields len s =
      Always-any->>= (encode_packet h fields len) _ λ r. always (InScope.stays refl refl refl)

  msg_connect_handler-Scoped : (s : Server) → ScopedResult s (msg_connect_handler h now s)
  unfolding msg_connect_handler
  msg_connect_handler-Scoped s =
      let robj = msg_connect_fields now (replicate 1024 0) (replicate 1024 0) in
      let wobj = msg_connect_resp_fields now (error_value err_ok) 1 in
      Always-any->>= (read_packet_body h now robj (fields_len robj) s.session) _ λ r.
        if-Always (r.0 == error_value err_ok) _ _ (send_packet-Scoped wobj (fields_len wobj) s)
          (always (InScope.stays refl refl refl))

  msg_disconnect_handler-Scoped : (s : Server) → ScopedResult s (msg_disconnect_handler h now s)
  unfolding msg_disconnect_handler
  msg_disconnect_handler-Scoped s =
      let robj = msg_disconnect_fields now in
      Always-any->>= (read_packet_body h now robj (fields_len robj) s.session) _ λ r.
        if-Always (r.0 == error_value err_ok) _ _
          (Always->>= (close s) (λ s'. done (0, s')) (close-Scoped s) λ s' p. always p)
          (always (InScope.stays refl refl refl))

  handle_packet_body-Scoped : (s : Server) → ScopedResult s (handle_packet_body h now s)
  unfolding handle_packet_body
  handle_packet_body-Scoped s =
      Always-any->>= (access (get_elem? s.session.packet_header field_method)) _ λ p.
        if-Always (to_int p.ivalue == msg_value msg_connect) _ _ (msg_connect_handler-Scoped s) (
          if-Always (to_int p.ivalue == msg_value msg_disconnect) _ _
            (msg_disconnect_handler-Scoped s) (always (InScope.stays refl refl refl)))

  handle_mark-Scoped : (mark : ℕ) (s : Server) → Scoped s (handle_mark h now mark s)
  unfolding handle_mark
  handle_mark-Scoped mark s =
      if-Always (mark == head_mark) _ _
        (Always->>= (handle_packet_header h now s) _ (handle_packet_header-Scoped s)
          λ r p. always p)
        (if-Always (mark == body_mark) _ _
          (Always->>= (handle_packet_body h now s) _ (handle_packet_body-Scoped s) λ r p. always p)
          (always (InScope.stays refl refl refl)))

  handle_read-Scoped :
      (error : Bool) (transferred want : ℕ) (s : Server)
      → Scoped s (handle_read h now error transferred want s)
  unfolding handle_read
  handle_read-Scoped true transferred want s = close-Scoped s
  handle_read-Scoped false transferred want s = if-Always (transferred == 0) _ _ (close-Scoped s) (
      if-Always (ltb transferred want) _ _ (always (InScope.stays refl refl refl)) (
        Always-any->>= (packet_mark h now s.session.recv_buffer) _
          λ mark. handle_mark-Scoped mark s))

  abbrev waiting : Server → Pending → Server
  waiting s p = with_session s (record s.session { pending = p })

  read_at :
      (bytes : List ℕ) (s : Server) (p : Pending)
      → Scoped s (complete_read h now bytes (waiting s p))
  unfolding complete_read
  read_at bytes s idle = always (InScope.stays refl refl refl)
  read_at bytes s (writing sent) = always (InScope.stays refl refl refl)
  read_at bytes s (reading at size want) =
      let buffer = s.session.recv_buffer in
      let got = take size bytes in
      let filled = take at buffer ++ (got ++ drop (at + length got) buffer) in
      let s' = with_session s (record s.session { recv_buffer = filled; pending = idle }) in
      if-Always (has_room (at + length got) s.session) _ _
        (same_scope s s' refl refl refl (handle_read-Scoped false (length got) want s')) never_fault

  fail_at : (s : Server) (p : Pending) → Scoped s (fail_read h now (waiting s p))
  unfolding fail_read
  fail_at s idle = always (InScope.stays refl refl refl)
  fail_at s (writing sent) = always (InScope.stays refl refl refl)
  fail_at s (reading at size want) =
      same_scope s (waiting s idle) refl refl refl (handle_read-Scoped true 0 want (waiting s idle))

  handle_write-Scoped :
      (error : Bool) (transferred : ℕ) (s : Server)
      → Scoped s (handle_write h now error transferred s)
  unfolding handle_write
  handle_write-Scoped true transferred s = close-Scoped s
  handle_write-Scoped false transferred s = always (InScope.stays refl refl refl)

  write_at :
      (error : Bool) (s : Server) (p : Pending)
      → Always (λ r. InScope s r.1) (complete_write h now error (waiting s p))
  unfolding complete_write
  write_at error s idle = always (InScope.stays refl refl refl)
  write_at error s (reading at size want) = always (InScope.stays refl refl refl)
  write_at error s (writing sent) =
      let s' = waiting s idle in
      Always->>= (handle_write h now error (length sent) s') _
        (handle_write-Scoped error (length sent) s')
        λ s'' p. always (same_InScope s s' s'' refl refl refl p)

  -- Whatever bytes come, however they are cut into reads, and whether a read or a write fails: a
  -- session's handler that is done has left the acceptor alone and kept its session's address and
  -- life, or it has deleted its session, which waits for nothing, and taken it alone out of the
  -- acceptor's set (InScope).
  pub handlers-InScope :
      (bytes : List ℕ) (error : Bool) (s : Server)
      → Always (InScope s) (complete_read h now bytes s)
        × Always (InScope s) (fail_read h now s)
        × Always (λ r. InScope s r.1) (complete_write h now error s)
  handlers-InScope bytes error s = (
    read_at bytes s s.session.pending,
    fail_at s s.session.pending,
    write_at error s s.session.pending,
  )
