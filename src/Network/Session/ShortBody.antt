-- ===== src/Network/Session/ShortBody.antt =====
-- What a connection request does to the server when its body is cut short.
use librtaio.Base.{
  ℕ, ◌+◌, ◌%◌, ◌^◌, ◌≤◌, ◌<◌, ◌≡◌, refl, sym, subst, true, List, [], ◌∷◌, ◌++◌, length, take,
  replicate, ◌-◌, append_assoc, take-append-more, overlay, aborted, arith, length-replicate,
  length-take,
}
use Prim.Native.String.{String}
use librtaio.Stream.Host.{Host}
use librtaio.Stream.ByteOrder.{be_bytes}
use librtaio.Stream.ByteOrder.Swap.{length-be_bytes}
use librtaio.Protocol.Field.{
  Field, head_mark, body_mark, to_int, msg_value, msg_connect, msg_tail, scalar, type_short,
  type_long, type_longlong, string_field, strlen,
}
use librtaio.Protocol.Messages.{
  first_field, header_with, c_string, length-c_string, connect_fields, connect_bytes,
  received_fields, msg_connect_fields-message, Takes-short_value, Takes-name,
}
use librtaio.Stream.Buffer.{istreambuf}
use librtaio.Stream.Input.{input_stream}
use librtaio.Stream.Input.Words.{open_input, input_stream-open}
use librtaio.Protocol.Fields.Copy.{copy_fields_header}
use librtaio.Protocol.Wire.{Header, message, header_fields, body_wire, word}
use librtaio.Protocol.Cut.{cut_body}
use librtaio.Network.Acceptor.{Acceptor}
use librtaio.Network.Session.{
  reading, idle, complete_read, handle_mark, handle_packet_body, msg_connect_handler,
  read_packet_body,
}
use librtaio.Network.Session.Receive.{
  working, mark_lem, load_body, complete_read_all, length-body_wire,
}
use librtaio.Protocol.Decode.Short.{Needs, Aborts, Aborts-short, Aborts-string}

module _ (h : Host) (on : h.asserts ≡ true) (cnt : ℕ) where
  Aborts-length :
      (prev : Field) (x : ℕ) (n : String) (k : ℕ)
      → Aborts h on cnt prev (scalar type_short x n) (length (be_bytes 2 k))
  Aborts-length prev x n k =
      subst (Aborts h on cnt prev (scalar type_short x n)) (sym (length-be_bytes 2 k))
        (Aborts-short h on cnt prev x n)

  Aborts-name :
      (t : List ℕ) (n n' : String)
      → length t < 1024
      → Aborts h on cnt
          (scalar type_short (length t + 1) n)
          (string_field (replicate 1024 0) n')
          (length (c_string t))
  Aborts-name t n n' short =
      Aborts-string h on cnt (scalar type_short (length t + 1) n) (replicate 1024 0) n'
        (length (c_string t)) refl refl (sym (length-c_string t)) (omega (arith, length-c_string t))
        (omega (arith, length-c_string t))
        (omega (arith, length-c_string t, length-replicate {A = ℕ} 1024 0))

  -- The fields of a connection request need all of its bytes.
  connect-Needs :
      (c p : List ℕ) (x y : ℕ)
      → length c < 1024
      → length p < 1024
      → Needs h on cnt first_field
          (connect_fields x (replicate 1024 0) y (replicate 1024 0))
          (connect_bytes c p)
          (received_fields c p)
  connect-Needs c p x y cshort pshort =
      let c_field = string_field (overlay (c_string c) (replicate 1024 0)) "clientname" in
      Needs.next refl
        (Takes-short_value h cnt first_field x "clientname_len" (length c + 1) (omega arith))
        (Aborts-length first_field x "clientname_len" ((length c + 1) % 2 ^ 16))
        (Needs.next refl (Takes-name h cnt c "clientname_len" "clientname" cshort)
          (Aborts-name c "clientname_len" "clientname" cshort)
          (Needs.next refl
            (Takes-short_value h cnt c_field y "processname_len" (length p + 1) (omega arith))
            (Aborts-length c_field y "processname_len" ((length p + 1) % 2 ^ 16))
            (Needs.next refl (Takes-name h cnt p "processname_len" "processname" pshort)
              (Aborts-name p "processname_len" "processname" pshort) Needs.end)))

module _ (h0 h : Host) (on : h.asserts ≡ true) (now : ℕ) where
  body_cut_lem :
      (m m0 : Header) (hcrc address k : ℕ) (rest ps qs : List Field) (bs sent : List ℕ)
      → to_int m.bsize ≡ k
      → k < length bs + 12
      → Needs h on (to_int m.count) first_field ps bs qs
      → read_packet_body h now (message m0 0 (ps ++ msg_tail)) (length ps + 9) (
          working address
            (header_fields head_mark m hcrc rest)
            (take k (body_wire h0 bs))
            sent
            idle)
        ≡ aborted
  unfolding read_packet_body msg_tail
  body_cut_lem m m0 hcrc address k rest ps qs bs sent size cut needs =
      let wire = take k (body_wire h0 bs) in
      let after = scalar type_long body_mark "bmark" ∷ (ps ++ msg_tail) in
      let wire_size : length wire ≡ k =
        length-take k (body_wire h0 bs) (omega (arith, length-body_wire h0 bs)) in
      let stream : input_stream h (istreambuf wire k) ≡ open_input h [] wire =
        subst (λ j. input_stream h (istreambuf wire j) ≡ open_input h [] wire) wire_size
          (input_stream-open h wire) in
      rw (
        copy_fields_header m head_mark hcrc rest after (scalar type_long head_mark "hmark")
            (scalar type_long m0.method "method") (scalar type_long m0.bsize "bsize")
            (scalar type_long m0.ret "ret") (scalar type_long m0.time "time")
            (scalar type_long m0.count "count") (scalar type_longlong 0 "hcrc"),
        size,
        stream,
        cut_body h0 h on m hcrc k ps qs bs needs cut,
      )

  -- A session stored the header of a connection request, and gets a body of just the size that the
  -- header announces, which holds the first bytes, four or more, of the body that a request with
  -- two names has, each shorter than 1024, but not all of them. Where asserts are compiled in, the
  -- decoder runs out of bytes, and the server's process ends.
  pub receive_cut_connect :
      (m : Header) (hcrc address k : ℕ) (rest : List Field) (sent : List ℕ) (acceptor : Acceptor)
      (c p buffer : List ℕ)
      → length c < 1024
      → length p < 1024
      → to_int m.method ≡ msg_value msg_connect
      → to_int m.bsize ≡ k
      → 4 ≤ k
      → k < length (connect_bytes c p) + 12
      → length buffer ≡ k
      → complete_read h now (take k (body_wire h0 (connect_bytes c p))) (record {
        session = working address (header_fields head_mark m hcrc rest) buffer sent (reading 0 k k);
        acceptor = acceptor;
      })
        ≡ aborted
  unfolding handle_mark handle_packet_body msg_connect_handler msg_value msg_tail
  receive_cut_connect m hcrc address k rest sent acceptor c p buffer cshort pshort method size some
        cut room =
      let bs = connect_bytes c p in
      let wire = take k (body_wire h0 bs) in
      let crc = be_bytes 8 (h0.crc32 (word body_mark ++ bs)) in
      let wire_size : length wire ≡ k =
        length-take k (body_wire h0 bs) (omega (arith, length-body_wire h0 bs)) in
      let zeros : List ℕ = replicate 1024 0 in
      let j = strlen zeros + 1 in
      let four : length (word body_mark) ≡ 4 = length-be_bytes 4 (body_mark % 2 ^ 32) in
      let front : wire ≡ word body_mark ++ take (k - length (word body_mark)) (bs ++ crc) =
        rw (append_assoc (word body_mark) bs crc)
          (take-append-more k (word body_mark) (bs ++ crc) (omega arith)) in
      rw (
        complete_read_all h now k address (header_fields head_mark m hcrc rest) buffer wire sent
            acceptor (omega arith) room wire_size,
        mark_lem h now body_mark wire (take (k - length (word body_mark)) (bs ++ crc))
            (load_body h.little) front,
        method,
        msg_connect_fields-message now zeros zeros,
        body_cut_lem m (header_with 2 0 0 now) hcrc address k rest (connect_fields j zeros j zeros)
            (received_fields c p) bs sent size cut
            (connect-Needs h on (to_int m.count) c p j j cshort pshort),
      )
