-- ===== src/Api/Receive.antt =====
-- src/api/rtdb_client_impl.cpp: what a client makes of the packet that it reads.
use librtaio.Base.{
  ℕ, ◌+◌, ◌-◌, ◌^◌, ◌≤◌, subst, true, [], ◌<◌, ◌≡◌, ◌≢◌, refl, List, ◌∷◌, ◌++◌, length, replicate,
  drop, ◌==◌, ne→eq, if◌then◌else◌, done, arith, append-nil, length-replicate, take_all, drop_all,
  ==_refl, Bool-cases, inl, inr,
}
use librtaio.Stream.Host.{Host}
use librtaio.Stream.Input.Words.{past_input, input_stream-past}
use librtaio.Protocol.Encode.Body.{bcrc}
use librtaio.Protocol.Decode.{unserialize_body_packet}
use librtaio.Protocol.Decode.Body.{Fills}
use librtaio.Protocol.Fields.Copy.{copy_fields_header}
use librtaio.Protocol.ErrorCode.{error_value, err_unexpectied_method}
use librtaio.Protocol.Field.{
  Field, head_mark, body_mark, to_int, msg_value, msg_common, msg_tail, type_long, type_longlong,
  scalar,
}
use librtaio.Protocol.Fields.Size.{Sized, fields_size_lem}
use librtaio.Protocol.Send.{resize_lem}
use librtaio.Protocol.Messages.{first_field, header_with, common_request}
use librtaio.Protocol.Wire.{
  Header, message, header_fields, header_words, header_wire, body_wire, word,
}
use librtaio.Protocol.RoundTrip.{
  SameCrc, IsHeader, header_buffer_round_trip, body_round_trip, received_message,
}
use librtaio.Network.Session.Receive.{
  length-header_wire, length-body_wire, le→ltb, head_mark_lem, body_mark_lem,
}
use librtaio.Network.Session.{packet_mark}
use librtaio.Api.Client.{recv_loop, mark_of, match_method, recv_body, recv_packet, decode_body}

-- What was asked for comes in one piece.
pub recv_loop-whole :
    (n : ℕ) (buffer piece : List ℕ) (pieces : List (List ℕ))
    → 0 < n
    → length buffer ≡ n
    → length piece ≡ n
    → recv_loop buffer n (piece ∷ pieces) ≡ done (piece, pieces)
unfolding recv_loop
recv_loop-whole n buffer piece pieces p e e' = rw (
  ne→eq n 0 (λ z. absurd (omega arith)),
  le→ltb n (length piece) (omega arith),
  e',
  ==_refl n,
  take_all n piece (omega arith),
  drop_all (length piece) buffer (omega arith),
  append-nil piece,
)

-- A client reads a packet's part that comes in two nonempty pieces: the loop ends, and its buffer
-- holds the second piece over the front of the first.
pub recv_loop_overwrites :
    (n : ℕ) (buffer first second : List ℕ) (pieces : List (List ℕ))
    → 0 < length first
    → 0 < length second
    → length first + length second ≡ n
    → length buffer ≡ n
    → recv_loop buffer n (first ∷ second ∷ pieces)
      ≡ done (second ++ drop (length second) (first ++ drop (length first) buffer), pieces)
unfolding recv_loop
recv_loop_overwrites n buffer first second pieces a b all size =
    let left : n - length first ≡ length second = omega arith in
    rw (
      ne→eq n 0 (λ z. absurd (omega arith)),
      le→ltb n (length first) (omega arith),
      ne→eq (length first) n (λ z. absurd (omega arith)),
      take_all n first (omega arith),
      left,
      ne→eq (length second) 0 (λ z. absurd (omega arith)),
      le→ltb (length second) (length second) (omega arith),
      ==_refl (length second),
      take_all (length second) second (omega arith),
    )

module _ (h : Host) (now : ℕ) where
  pub mark_of-packet_mark : (bytes : List ℕ) → mark_of h now bytes ≡ packet_mark h now bytes
  unfolding packet_mark mark_of
  mark_of-packet_mark bytes = refl

-- What recv_packet returns for a packet with another method than the expected one.
abbrev pub other_result : Header → ℕ
other_result m =
    if to_int m.method == msg_value msg_common
    then to_int m.ret
    else error_value err_unexpectied_method

module _ (h0 h : Host) (same : SameCrc h0 h) (now : ℕ) where
  -- A client that expects one method gets a packet with another, from a host with the same
  -- checksum, as one read of the header and one of the body, whose announced size, above 0 and
  -- below 2^31, is right: recv_packet returns the packet's own result if its method is MSG_COMMON
  -- and ERR_UNEXPECTIED_METHOD if not. The body is taken from the socket, whatever it holds, and
  -- the fields are left alone.
  pub recv_packet_other :
      (m m0 : Header) (ps : List Field) (k len : ℕ) (body : List ℕ) (more : List (List ℕ))
      (outgoing : List ℕ)
      → IsHeader m
      → to_int m.method ≢ to_int m0.method
      → m.bsize ≡ length body
      → 0 < length body
      → length body < 2 ^ 31
      → Sized (to_int m0.count) first_field ps k
      → k + 44 < 2 ^ 31
      → length ps + 20 < 2 ^ 31
      → let fields = message m0 0 (ps ++ msg_tail) in
        recv_packet h now fields len
          (record { incoming = header_wire h0 m ∷ body ∷ more; outgoing = outgoing })
        ≡ done (other_result m, fields, record { incoming = more; outgoing = outgoing })
  unfolding recv_packet recv_body match_method
  recv_packet_other m m0 ps k len body more outgoing ok other size some_bytes small sized fits few =
      let zeros : List ℕ = replicate 32 0 in
      let int_size : to_int m.bsize ≡ length body = omega arith in
      let run =
        header_buffer_round_trip h0 h same m (header_with 1 0 0 now) head_mark 0
          (scalar type_long body_mark "bmark" ∷ msg_tail) ok in
      rw
        (
          fields_size_lem m0 0 ps k sized fits few,
          resize_lem 32 (omega arith),
          recv_loop-whole 32 zeros (header_wire h0 m) (body ∷ more) (omega arith) refl
              (length-header_wire h0 m),
          mark_of-packet_mark h now (header_wire h0 m),
          head_mark_lem h now h0 m,
          common_request now,
          run,
          ne→eq (to_int m.method) (to_int m0.method) other,
          int_size,
          resize_lem (length body) small,
          recv_loop-whole (length body) (replicate (length body) 0) body more some_bytes
              (length-replicate (length body) 0) refl,
        )
        (elim (Bool-cases (to_int m.method == msg_value msg_common)) [
          | inl e ↦ rw e
          | inr e ↦ rw e
        ])

  -- The body of a packet with the expected method.
  recv_body_same :
      (m m0 : Header) (hcrc : ℕ) (ps qs : List Field) (bs : List ℕ) (more : List (List ℕ))
      (outgoing : List ℕ)
      → to_int m.method ≡ to_int m0.method
      → m.bsize ≡ length bs + 12
      → length bs ≤ 20
      → Fills h (to_int m.count) first_field ps bs qs
      → recv_body h now
          (message m0 0 (ps ++ msg_tail))
          (length ps + 9)
          32
          (header_fields head_mark m hcrc (scalar type_long body_mark "bmark" ∷ msg_tail))
          (record { incoming = body_wire h0 bs ∷ more; outgoing = outgoing })
        ≡ done (
          0,
          message m hcrc (qs ++ bcrc (h.crc32 (word body_mark ++ bs))),
          record { incoming = more; outgoing = outgoing },
        )
  unfolding recv_body match_method decode_body msg_tail
  recv_body_same m m0 hcrc ps qs bs more outgoing expected size short fills =
      let body = body_wire h0 bs in
      let int_size : to_int m.bsize ≡ length bs + 12 = omega arith in
      let body_size : length body ≡ length bs + 12 = length-body_wire h0 bs in
      let mark = scalar type_long body_mark "bmark" in
      let run =
        subst
          (λ bytes.
            unserialize_body_packet h (past_input h (32 - length body) [] bytes)
              (message m hcrc (ps ++ bcrc 0)) (length ps + 9) true
            ≡ done (
              0,
              message m hcrc (qs ++ bcrc (h.crc32 (word body_mark ++ bs))),
              past_input h (32 - length body) body [],
            ))
          (append-nil body)
          (body_round_trip h0 h same m (32 - length body) hcrc 0 ps qs bs [] fills) in
      rw (
        expected,
        ==_refl (to_int m0.method),
        copy_fields_header m head_mark hcrc (mark ∷ msg_tail) (mark ∷ (ps ++ msg_tail))
            (scalar type_long head_mark "hmark") (scalar type_long m0.method "method")
            (scalar type_long m0.bsize "bsize") (scalar type_long m0.ret "ret")
            (scalar type_long m0.time "time") (scalar type_long m0.count "count")
            (scalar type_longlong 0 "hcrc"),
        int_size,
        resize_lem (length bs + 12) (omega arith),
        recv_loop-whole (length bs + 12) (replicate (length bs + 12) 0) body more (omega arith)
            (length-replicate (length bs + 12) 0) body_size,
        mark_of-packet_mark h now body,
        body_mark_lem h now h0 bs,
        input_stream-past h body 32 (omega arith),
        run,
      )

  -- A client that expects one method gets a packet with it, from a host with the same checksum, as
  -- one read of the header and one of the body, whose size is announced right, and which is no longer
  -- than a header: recv_packet returns ERR_OK, and the fields hold what was sent.
  pub recv_packet_same :
      (m m0 : Header) (ps qs : List Field) (k : ℕ) (bs : List ℕ) (more : List (List ℕ))
      (outgoing : List ℕ)
      → IsHeader m
      → to_int m.method ≡ to_int m0.method
      → m.bsize ≡ length bs + 12
      → length bs ≤ 20
      → Fills h (to_int m.count) first_field ps bs qs
      → Sized (to_int m0.count) first_field ps k
      → k + 44 < 2 ^ 31
      → length ps + 20 < 2 ^ 31
      → recv_packet h now
          (message m0 0 (ps ++ msg_tail))
          (length ps + 9)
          (record { incoming = header_wire h0 m ∷ body_wire h0 bs ∷ more; outgoing = outgoing })
        ≡ done (0, received_message h m qs bs, record { incoming = more; outgoing = outgoing })
  unfolding recv_packet
  recv_packet_same m m0 ps qs k bs more outgoing ok expected size short fills sized fits few =
      let header_run =
        header_buffer_round_trip h0 h same m (header_with 1 0 0 now) head_mark 0
          (scalar type_long body_mark "bmark" ∷ msg_tail) ok in
      rw (
        fields_size_lem m0 0 ps k sized fits few,
        resize_lem 32 (omega arith),
        recv_loop-whole 32 (replicate 32 0) (header_wire h0 m) (body_wire h0 bs ∷ more)
            (omega arith) refl (length-header_wire h0 m),
        mark_of-packet_mark h now (header_wire h0 m),
        head_mark_lem h now h0 m,
        common_request now,
        header_run,
        recv_body_same m m0 (h.crc32 (header_words m)) ps qs bs more outgoing expected size short
            fills,
      )
