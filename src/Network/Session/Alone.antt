-- ===== src/Network/Session/Alone.antt =====
-- What becomes of a session does not depend on the acceptor, whatever bytes its client sends.
use librtaio.Base.{
  ℕ, ◌≡◌, refl, sym, ◌∙◌, Bool, true, false, List, get_elem?, length, ltb, ◌==◌, if◌then◌else◌,
  Outcome, done, aborted, thrown, fault, ◌>>=◌, access, take, drop, ◌++◌, ◌+◌, replicate,
}
use librtaio.Stream.Host.{Host}
use librtaio.Protocol.ErrorCode.{error_value, err_ok}
use librtaio.Protocol.Fields.{copy_fields}
use librtaio.Protocol.Send.{encode_packet}
use librtaio.Protocol.Field.{
  Field, msg_value, msg_common, msg_connect, msg_disconnect, head_mark, body_mark, field_method,
  to_int, fields_len, msg_common_req_fields, msg_connect_fields, msg_connect_resp_fields,
  msg_disconnect_fields,
}
use librtaio.Network.Acceptor.{Acceptor}
use librtaio.Network.Session.{
  Server, Session, Pending, idle, reading, writing, Handler, remote_endpoint, close,
  read_packet_header, await_body, handle_packet_header, read_packet_body, send_packet,
  msg_connect_handler, msg_disconnect_handler, handle_packet_body, packet_mark, handle_mark,
  has_room, handle_read, handle_write, complete_read, fail_read, complete_write,
}

-- Two runs end alike, as far as `p` shows.
abbrev EndsAlike {ℓ κ} : {A : Type ℓ} {C : Type κ} → (A → C) → Outcome A → Outcome A → Type κ
EndsAlike p m n = (m >>= λ a. done (p a)) ≡ (n >>= λ a. done (p a))

alike->>= {ℓ κ μ} :
    {A : Type ℓ} {B : Type κ} {C : Type μ} (p : B → C) (m : Outcome A) (f g : A → Outcome B)
    → ((a : A) → EndsAlike p (f a) (g a))
    → EndsAlike p (m >>= f) (m >>= g)
alike->>= p (done a) f g e = e a
alike->>= p aborted f g e = refl
alike->>= p thrown f g e = refl
alike->>= p fault f g e = refl

alike-if {ℓ κ} :
    {A : Type ℓ} {C : Type κ} (p : A → C) (b : Bool) (m m' n n' : Outcome A)
    → EndsAlike p m m'
    → EndsAlike p n n'
    → EndsAlike p (if b then m else n) (if b then m' else n')
alike-if p true m m' n n' d e = d
alike-if p false m m' n n' d e = e

untagged {ℓ} :
    {A : Type ℓ} (m : Outcome (A × Server))
    → ((m >>= λ r. done r.1) >>= λ s. done s.session) ≡ (m >>= λ r. done r.1.session)
untagged (done a) = refl
untagged aborted = refl
untagged thrown = refl
untagged fault = refl

alike-dispatch {ℓ} :
    {A : Type ℓ} (m n : Outcome (A × Server))
    → EndsAlike (λ r. r.1.session) m n
    → EndsAlike (λ s. s.session) (m >>= λ r. done r.1) (n >>= λ r. done r.1)
alike-dispatch m n e = untagged m ∙ e ∙ sym (untagged n)

abbrev tag {ℓ} : {A : Type ℓ} → A → Server → Outcome (A × Server)
tag a s = done (a, s)

tagged {ℓ} :
    {A : Type ℓ} (a : A) (m : Outcome Server)
    → ((m >>= tag a) >>= λ r. done r.1.session) ≡ (m >>= λ s. done s.session)
tagged a (done s) = refl
tagged a aborted = refl
tagged a thrown = refl
tagged a fault = refl

alike-tag {ℓ} :
    {A : Type ℓ} (a : A) (m n : Outcome Server)
    → EndsAlike (λ s. s.session) m n
    → EndsAlike (λ r. r.1.session) (m >>= tag a) (n >>= tag a)
alike-tag a m n e = tagged a m ∙ e ∙ sym (tagged a n)

-- The session with an acceptor.
abbrev pub beside : Session → Acceptor → Server
beside s x = record { session = s; acceptor = x }

-- A handler that does the same to the session beside any acceptor.
abbrev pub Alone : (Server → Outcome Server) → Type 0
Alone handler =
    (s : Session) (x y : Acceptor)
    → EndsAlike (λ r. r.session) (handler (beside s x)) (handler (beside s y))

abbrev AloneResult : Handler → Type 0
AloneResult handler =
    (s : Session) (x y : Acceptor)
    → EndsAlike (λ r. r.1.session) (handler (beside s x)) (handler (beside s y))

close-Alone : Alone close
unfolding close
close-Alone s x y = alike->>= (λ r. r.session) (remote_endpoint s) _ _ (λ _. refl)

module _ (h : Host) (now : ℕ) where
  handle_packet_header-Alone : AloneResult (handle_packet_header h now)
  unfolding handle_packet_header
  handle_packet_header-Alone s x y =
      alike->>= (λ r. r.1.session)
        (copy_fields s.packet_header (msg_common_req_fields now (msg_value msg_common)) true) _ _
        λ c.
          alike->>= (λ r. r.1.session) (read_packet_header h now (record s { packet_header = c.1 }))
            _ _
            λ r.
              alike-if (λ r. r.1.session) (r.0 == 0) _ _ _ _
                (alike->>= (λ r. r.1.session) (await_body h now r.1) _ _ (λ session. refl)) refl

  send_packet-Alone : (fields : List Field) (len : ℕ) → AloneResult (send_packet h now fields len)
  unfolding send_packet
  send_packet-Alone fields len s x y =
      alike->>= (λ r. r.1.session) (encode_packet h fields len) _ _ (λ r. refl)

  msg_connect_handler-Alone : AloneResult (msg_connect_handler h now)
  unfolding msg_connect_handler
  msg_connect_handler-Alone s x y =
      let robj = msg_connect_fields now (replicate 1024 0) (replicate 1024 0) in
      let wobj = msg_connect_resp_fields now (error_value err_ok) 1 in
      alike->>= (λ r. r.1.session) (read_packet_body h now robj (fields_len robj) s) _ _
        λ r.
          alike-if (λ r. r.1.session) (r.0 == error_value err_ok) _ _ _ _
            (send_packet-Alone wobj (fields_len wobj) s x y) refl

  msg_disconnect_handler-Alone : AloneResult (msg_disconnect_handler h now)
  unfolding msg_disconnect_handler
  msg_disconnect_handler-Alone s x y =
      let robj = msg_disconnect_fields now in
      alike->>= (λ r. r.1.session) (read_packet_body h now robj (fields_len robj) s) _ _
        λ r.
          alike-if (λ r. r.1.session) (r.0 == error_value err_ok) _ _ _ _
            (alike-tag 0 _ _ (close-Alone s x y)) refl

  handle_packet_body-Alone : AloneResult (handle_packet_body h now)
  unfolding handle_packet_body
  handle_packet_body-Alone s x y =
      alike->>= (λ r. r.1.session) (access (get_elem? s.packet_header field_method)) _ _
        λ p.
          alike-if (λ r. r.1.session) (to_int p.ivalue == msg_value msg_connect) _ _ _ _
            (msg_connect_handler-Alone s x y)
            (alike-if (λ r. r.1.session) (to_int p.ivalue == msg_value msg_disconnect) _ _ _ _
              (msg_disconnect_handler-Alone s x y) refl)

  handle_mark-Alone : (mark : ℕ) → Alone (handle_mark h now mark)
  unfolding handle_mark
  handle_mark-Alone mark s x y =
      alike-if (λ r. r.session) (mark == head_mark) _ _ _ _
        (alike-dispatch _ _ (handle_packet_header-Alone s x y))
        (alike-if (λ r. r.session) (mark == body_mark) _ _ _ _
          (alike-dispatch _ _ (handle_packet_body-Alone s x y)) refl)

  handle_read-Alone :
      (error : Bool) (transferred want : ℕ) → Alone (handle_read h now error transferred want)
  unfolding handle_read
  handle_read-Alone true transferred want s x y = close-Alone s x y
  handle_read-Alone false transferred want s x y =
      alike-if (λ r. r.session) (transferred == 0) _ _ _ _ (close-Alone s x y)
        (alike-if (λ r. r.session) (ltb transferred want) _ _ _ _ refl
          (alike->>= (λ r. r.session) (packet_mark h now s.recv_buffer) _ _
            λ mark. handle_mark-Alone mark s x y))

  handle_write-Alone :
      (error : Bool) (transferred : ℕ) → Alone (handle_write h now error transferred)
  unfolding handle_write
  handle_write-Alone true transferred s x y = close-Alone s x y
  handle_write-Alone false transferred s x y = refl

  abbrev waiting : Session → Pending → Session
  waiting s p = record s { pending = p }

  read_at :
      (bytes : List ℕ) (s : Session) (p : Pending) (x y : Acceptor)
      → EndsAlike
          (λ r. r.session)
          (complete_read h now bytes (beside (waiting s p) x))
          (complete_read h now bytes (beside (waiting s p) y))
  unfolding complete_read
  read_at bytes s idle x y = refl
  read_at bytes s (writing sent) x y = refl
  read_at bytes s (reading at size want) x y =
      let buffer = s.recv_buffer in
      let got = take size bytes in
      let filled = take at buffer ++ (got ++ drop (at + length got) buffer) in
      alike-if (λ r. r.session) (has_room (at + length got) s) _ _ _ _
        (handle_read-Alone false (length got) want
          (record s { recv_buffer = filled; pending = idle }) x y)
        refl

  fail_at :
      (s : Session) (p : Pending) (x y : Acceptor)
      → EndsAlike
          (λ r. r.session)
          (fail_read h now (beside (waiting s p) x))
          (fail_read h now (beside (waiting s p) y))
  unfolding fail_read
  fail_at s idle x y = refl
  fail_at s (writing sent) x y = refl
  fail_at s (reading at size want) x y = handle_read-Alone true 0 want (waiting s idle) x y

  write_at :
      (error : Bool) (s : Session) (p : Pending) (x y : Acceptor)
      → EndsAlike
          (λ r. r.1.session)
          (complete_write h now error (beside (waiting s p) x))
          (complete_write h now error (beside (waiting s p) y))
  unfolding complete_write
  write_at error s idle x y = refl
  write_at error s (reading at size want) x y = refl
  write_at error s (writing sent) x y =
      alike-tag sent _ _ (handle_write-Alone error (length sent) (waiting s idle) x y)

  -- What the handlers of a session make of it, and whether they are done, throw or abort, is the
  -- same beside any acceptor.
  pub handlers-Alone :
      (bytes : List ℕ) (error : Bool)
      → Alone (complete_read h now bytes)
        × Alone (fail_read h now)
        × Alone (λ s. complete_write h now error s >>= λ r. done r.1)
  handlers-Alone bytes error = (
    λ s x y. read_at bytes s s.pending x y,
    λ s x y. fail_at s s.pending x y,
    λ s x y. alike-dispatch _ _ (write_at error s s.pending x y),
  )
