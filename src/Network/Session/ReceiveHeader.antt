-- ===== src/Network/Session/ReceiveHeader.antt =====
-- What a session does with the header of a message, behind an earlier request or not.
use librtaio.Base.{
  inr, thrown, ℕ, ◌+◌, ◌^◌, ◌<◌, ◌≡◌, drop, true, List, ◌∷◌, ◌++◌, length, replicate, Outcome, done,
  ◌>>=◌, arith,
}
use librtaio.Stream.Host.{Host}
use librtaio.Protocol.Field.{
  is_negative, Field, head_mark, body_mark, to_int, to_size, msg_tail, scalar, type_long,
}
use librtaio.Protocol.Fields.Copy.{copy_fields_header}
use librtaio.Protocol.Send.{resize_lem, resize-negative}
use librtaio.Protocol.Messages.{header_with, common_request}
use librtaio.Protocol.Wire.{Header, header_fields, header_words, header_wire}
use librtaio.Protocol.RoundTrip.{SameCrc, IsHeader, header_buffer_round_trip}
use librtaio.Network.Acceptor.{Acceptor}
use librtaio.Network.Session.{
  Session, Server, reading, idle, handle_mark, complete_read, handle_packet_header,
  read_packet_header, await_body,
}
use librtaio.Network.Session.Receive.{
  working, complete_read_over, head_mark_over, length-header_wire, istreambuf-append,
}

-- What handle_packet_header returns after await_body.
abbrev pub header_handled : Session → Acceptor → Outcome (ℕ × Server)
header_handled session acceptor = done (0, record { session = session; acceptor = acceptor })

module _ (h0 h : Host) (same : SameCrc h0 h) (now : ℕ) where
  read_packet_header_lem :
      (m m0 : Header) (hmark hcrc address : ℕ) (fields : List Field) (after sent : List ℕ)
      → IsHeader m
      → read_packet_header h now (
          working address
            (header_fields hmark m0 hcrc fields)
            (header_wire h0 m ++ after)
            sent
            idle)
        ≡ done (
          0,
          working address
              (header_fields head_mark m (h.crc32 (header_words m)) fields)
              (header_wire h0 m ++ after)
              sent
              idle,
        )
  unfolding read_packet_header
  read_packet_header_lem m m0 hmark hcrc address fields after sent ok = rw (
    istreambuf-append (header_wire h0 m) after 32 (length-header_wire h0 m),
    header_buffer_round_trip h0 h same m m0 hmark hcrc fields ok,
  )

  -- What a header of a message is handled with, after the last bytes of the buffer.
  handle_header :
      (m : Header) (address : ℕ) (o0 o1 o2 o3 o4 o5 o6 : Field) (rest : List Field)
      (buffer sent : List ℕ) (acceptor : Acceptor)
      → IsHeader m
      → complete_read h now (header_wire h0 m) (record {
        session =
            working address (o0 ∷ o1 ∷ o2 ∷ o3 ∷ o4 ∷ o5 ∷ o6 ∷ rest) buffer sent (reading 0 32 32);
        acceptor = acceptor;
      })
        ≡ ((await_body h now (
                working address
                  (header_fields head_mark m (h.crc32 (header_words m)) rest)
                  (header_wire h0 m ++ drop (0 + length (header_wire h0 m)) buffer)
                  sent
                  idle)
              >>= λ session. header_handled session acceptor)
            >>= λ r. done r.1)
  unfolding handle_mark handle_packet_header
  handle_header m address o0 o1 o2 o3 o4 o5 o6 rest buffer sent acceptor ok =
      let after = drop (0 + length (header_wire h0 m)) buffer in
      rw (
        complete_read_over h now 32 address (o0 ∷ o1 ∷ o2 ∷ o3 ∷ o4 ∷ o5 ∷ o6 ∷ rest) buffer
            (header_wire h0 m) sent acceptor (omega arith) (inr (omega arith))
            (length-header_wire h0 m),
        head_mark_over h now h0 m after,
        common_request now,
        copy_fields_header (header_with 1 0 0 now) head_mark 0
            (scalar type_long body_mark "bmark" ∷ msg_tail) rest o0 o1 o2 o3 o4 o5 o6,
        read_packet_header_lem m (header_with 1 0 0 now) head_mark 0 address rest after sent ok,
      )

  -- A session that waits for a header gets the header of a message whose values fit in an int and
  -- whose body is shorter than 2^31 bytes, in one read, from a host with the same checksum, whatever
  -- its buffer is, which may still be that of an earlier body: it stores the values
  -- in m_packet_header, makes room for a body of the announced size and waits for it.
  pub receive_header :
      (m : Header) (address : ℕ) (o0 o1 o2 o3 o4 o5 o6 : Field) (rest : List Field)
      (buffer sent : List ℕ) (acceptor : Acceptor)
      → IsHeader m
      → m.bsize < 2 ^ 31
      → complete_read h now (header_wire h0 m) (record {
        session =
            working address (o0 ∷ o1 ∷ o2 ∷ o3 ∷ o4 ∷ o5 ∷ o6 ∷ rest) buffer sent (reading 0 32 32);
        acceptor = acceptor;
      })
        ≡ done (record {
          session =
              working address
                (header_fields head_mark m (h.crc32 (header_words m)) rest)
                (replicate m.bsize 0)
                sent
                (reading 0 m.bsize m.bsize);
          acceptor = acceptor;
        })
  unfolding await_body
  receive_header m address o0 o1 o2 o3 o4 o5 o6 rest buffer sent acceptor ok small =
      let size_int : to_int m.bsize ≡ m.bsize = omega arith in
      let size_t : to_size m.bsize ≡ m.bsize = ground arith in
      rw (
        handle_header m address o0 o1 o2 o3 o4 o5 o6 rest buffer sent acceptor ok,
        size_int,
        resize_lem m.bsize small,
        size_t,
      )

  -- A session that waits for a header gets, from a host with the same checksum, a valid one whose
  -- body size is negative as an int: resizing the buffer throws out of the handler.
  pub receive_negative_size :
      (m : Header) (address : ℕ) (o0 o1 o2 o3 o4 o5 o6 : Field) (rest : List Field)
      (buffer sent : List ℕ) (acceptor : Acceptor)
      → IsHeader m
      → is_negative (to_int m.bsize) ≡ true
      → complete_read h now (header_wire h0 m) (record {
        session =
            working address (o0 ∷ o1 ∷ o2 ∷ o3 ∷ o4 ∷ o5 ∷ o6 ∷ rest) buffer sent (reading 0 32 32);
        acceptor = acceptor;
      })
        ≡ thrown
  unfolding await_body
  receive_negative_size m address o0 o1 o2 o3 o4 o5 o6 rest buffer sent acceptor ok negative = rw (
    handle_header m address o0 o1 o2 o3 o4 o5 o6 rest buffer sent acceptor ok,
    resize-negative (to_int m.bsize) negative,
  )
