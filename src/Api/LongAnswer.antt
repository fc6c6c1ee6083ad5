-- ===== src/Api/LongAnswer.antt =====
-- src/api/rtdb_client_impl.cpp: what recv_packet makes of a body that is longer than a header.
mod Tests
use librtaio.Base.{
  ℕ, ◌+◌, ◌-◌, ◌^◌, ◌≤◌, ◌<◌, ◌≡◌, refl, sym, subst, true, List, [], ◌∷◌, ◌++◌, length, take,
  replicate, Outcome, aborted, done, ◌>>=◌, arith, length-append, length-replicate, length-take,
  take_all, append_assoc, ==_refl,
}
use librtaio.Stream.Host.{Host}
use librtaio.Stream.ByteOrder.{be_bytes}
use librtaio.Stream.ByteOrder.Swap.{length-be_bytes, be_bytes-IsBytes, is_little_endian_lem}
use librtaio.Stream.Buffer.{istreambuf}
use librtaio.Stream.Input.{input_stream}
use librtaio.Stream.Input.Words.{open_input}
use librtaio.Protocol.Field.{
  Field, head_mark, body_mark, to_int, msg_tail, type_long, type_longlong, scalar, field_bmark,
}
use librtaio.Protocol.Fields.Copy.{copy_fields_header}
use librtaio.Protocol.Fields.Size.{Sized, fields_size_lem}
use librtaio.Protocol.Send.{resize_lem}
use librtaio.Protocol.Messages.{first_field, header_with, common_request}
use librtaio.Protocol.Wire.{
  Header, message, header_fields, header_words, header_wire, body_wire, word,
}
use librtaio.Protocol.Encode.Body.{bcrc}
use librtaio.Protocol.Decode.{scratch, unserialize_body_packet}
use librtaio.Protocol.Decode.Header.{value_of}
use librtaio.Protocol.Decode.Body.{Takes-long}
use librtaio.Protocol.Decode.Short.{Needs, Aborts, Aborts-long, short_body}
use librtaio.Protocol.RoundTrip.{
  SameCrc, IsHeader, header_buffer_round_trip, value_of-word, word-IsWord,
}
use librtaio.Protocol.Cut.{cut_body}
use librtaio.Network.Session.Receive.{
  length-header_wire, length-body_wire, head_mark_lem, body_mark_lem,
}
use librtaio.Api.Client.{recv_body, recv_packet, match_method, decode_body}
use librtaio.Api.Receive.{recv_loop-whole, mark_of-packet_mark}

-- A stream that is said to have fewer bytes than its array sees those only.
input_stream-take :
    (h : Host) (base : List ℕ) (n : ℕ)
    → n ≤ length base
    → input_stream h (istreambuf base n) ≡ open_input h [] (take n base)
unfolding input_stream istreambuf
input_stream-take h base n short =
    let none_beyond : n - length base ≡ 0 = omega arith in
    rw (is_little_endian_lem h.little, none_beyond)

module _ (h0 h : Host) (same : SameCrc h0 h) (on : h.asserts ≡ true) (now : ℕ) where
  long_body :
      (m m0 : Header) (hcrc : ℕ) (ps qs : List Field) (bs : List ℕ) (more : List (List ℕ))
      (outgoing : List ℕ)
      → to_int m.method ≡ to_int m0.method
      → m.bsize ≡ length bs + 12
      → 20 < length bs
      → length bs + 12 < 2 ^ 31
      → Needs h on (to_int m.count) first_field ps bs qs
      → recv_body h now
          (message m0 0 (ps ++ msg_tail))
          (length ps + 9)
          32
          (header_fields head_mark m hcrc (scalar type_long body_mark "bmark" ∷ msg_tail))
          (record { incoming = body_wire h0 bs ∷ more; outgoing = outgoing })
        ≡ aborted
  unfolding recv_body match_method decode_body msg_tail
  long_body m m0 hcrc ps qs bs more outgoing expected size long small needs =
      let body = body_wire h0 bs in
      let int_size : to_int m.bsize ≡ length bs + 12 = omega arith in
      let body_size : length body ≡ length bs + 12 = length-body_wire h0 bs in
      let mark = scalar type_long body_mark "bmark" in
      rw (
        expected,
        ==_refl (to_int m0.method),
        copy_fields_header m head_mark hcrc (mark ∷ msg_tail) (mark ∷ (ps ++ msg_tail))
            (scalar type_long head_mark "hmark") (scalar type_long m0.method "method")
            (scalar type_long m0.bsize "bsize") (scalar type_long m0.ret "ret")
            (scalar type_long m0.time "time") (scalar type_long m0.count "count")
            (scalar type_longlong 0 "hcrc"),
        int_size,
        resize_lem (length bs + 12) small,
        recv_loop-whole (length bs + 12) (replicate (length bs + 12) 0) body more (omega arith)
            (length-replicate (length bs + 12) 0) body_size,
        mark_of-packet_mark h now body,
        body_mark_lem h now h0 bs,
        input_stream-take h body 32 (omega arith),
        cut_body h0 h on m hcrc 32 ps qs bs needs (omega arith),
      )

  -- A client that expects one method gets a packet with it, from a host with the same checksum, as
  -- one read of the header and one of the body. The body's size, below 2^31, is announced right
  -- and above that of a header, and its bytes are just those that the expected fields need
  -- (Needs). Where asserts are compiled in, recv_packet ends the process: it decodes 32 bytes of
  -- the body only.
  pub recv_packet_long :
      (m m0 : Header) (ps qs : List Field) (k : ℕ) (bs : List ℕ) (more : List (List ℕ))
      (outgoing : List ℕ)
      → IsHeader m
      → to_int m.method ≡ to_int m0.method
      → m.bsize ≡ length bs + 12
      → 20 < length bs
      → length bs + 12 < 2 ^ 31
      → Needs h on (to_int m.count) first_field ps bs qs
      → Sized (to_int m0.count) first_field ps k
      → k + 44 < 2 ^ 31
      → length ps + 20 < 2 ^ 31
      → recv_packet h now
          (message m0 0 (ps ++ msg_tail))
          (length ps + 9)
          (record { incoming = header_wire h0 m ∷ body_wire h0 bs ∷ more; outgoing = outgoing })
        ≡ aborted
  unfolding recv_packet
  recv_packet_long m m0 ps qs k bs more outgoing ok expected size long small needs sized fits few =
      let header_run =
        header_buffer_round_trip h0 h same m (header_with 1 0 0 now) head_mark 0
          (scalar type_long body_mark "bmark" ∷ msg_tail) ok in
      rw (
        fields_size_lem m0 0 ps k sized fits few,
        resize_lem 32 (omega arith),
        recv_loop-whole 32 (replicate 32 0) (header_wire h0 m) (body_wire h0 bs ∷ more)
            (omega arith) refl (length-header_wire h0 m),
        mark_of-packet_mark h now (header_wire h0 m),
        head_mark_lem h now h0 m,
        common_request now,
        header_run,
        long_body m m0 (h.crc32 (header_words m)) ps qs bs more outgoing expected size long small
            needs,
      )
