-- ===== src/Network/Session/Reject.antt =====
-- What a session does with a header whose checksum does not fit.
use librtaio.Base.{
  ℕ, ◌%◌, ◌^◌, ◌≡◌, ap, subst, ◌∙◌, true, false, List, [], ◌∷◌, ◌++◌, length, ◌==◌, done, arith,
  length-append,
}
use librtaio.Stream.Host.{Host}
use librtaio.Stream.ByteOrder.{of_be}
use librtaio.Stream.Buffer.{istreambuf}
use librtaio.Stream.Input.{input_stream}
use librtaio.Stream.Input.Words.{open_input, input_stream-open}
use librtaio.Protocol.ErrorCode.{error_value, err_check_crc_error}
use librtaio.Protocol.Field.{Field, head_mark, body_mark, scalar, type_long, msg_tail}
use librtaio.Protocol.Fields.Copy.{copy_fields_header}
use librtaio.Protocol.Messages.{header_with, common_request}
use librtaio.Protocol.Wire.{word, header_fields}
use librtaio.Protocol.Decode.Header.{
  Received, IsReceived, covered, all_bytes, header_of, value_of, unserialize_header_packet_lem,
}
use librtaio.Network.Acceptor.{Acceptor}
use librtaio.Network.Session.{
  reading, idle, handle_mark, complete_read, handle_packet_header, read_packet_header,
}
use librtaio.Network.Session.Receive.{
  working, mark_lem, load_head, of_be-head_mark, complete_read_all,
}

module _ (h : Host) (now : ℕ) (r : Received) (received : IsReceived r)
    (mark : r.mark ≡ word head_mark)
    (wrong : (h.crc32 (covered r) == of_be r.crc % 2 ^ 32) ≡ false) where
  length-all_bytes : length (all_bytes r []) ≡ 32
  length-all_bytes = let (a, b, c, d, e, f, g, _) = received in omega (arith, length-append {0})

  read_packet_header-wrong :
      (address : ℕ) (rest : List Field) (sent : List ℕ)
      → read_packet_header h now (
          working address
            (header_fields head_mark (header_with 1 0 0 now) 0 rest)
            (all_bytes r [])
            sent
            idle)
        ≡ done (
          error_value err_check_crc_error,
          working address
              (header_fields (value_of r.mark) (header_of r) (of_be r.crc) rest)
              (all_bytes r [])
              sent
              idle,
        )
  unfolding read_packet_header
  read_packet_header-wrong address rest sent =
      let stream : input_stream h (istreambuf (all_bytes r []) 32)
          ≡ open_input h [] (all_bytes r []) =
        subst
          (λ k. input_stream h (istreambuf (all_bytes r []) k) ≡ open_input h [] (all_bytes r []))
          length-all_bytes (input_stream-open h (all_bytes r [])) in
      let right : of_be r.mark ≡ head_mark = ap of_be mark ∙ of_be-head_mark in
      rw (
        stream,
        unserialize_header_packet_lem h true r head_mark 0 (header_with 1 0 0 now) rest [] received,
        right,
        wrong,
      )

  -- A session that waits for a header gets 32 bytes that begin with the header's mark and whose
  -- checksum does not fit: it keeps what it decoded, but no body is waited for, nothing is
  -- answered, and it stays, idle, in the acceptor's set.
  pub receive_wrong_checksum :
      (address : ℕ) (o0 o1 o2 o3 o4 o5 o6 : Field) (rest : List Field) (buffer sent : List ℕ)
      (acceptor : Acceptor)
      → length buffer ≡ 32
      → complete_read h now (all_bytes r []) (record {
        session =
            working address (o0 ∷ o1 ∷ o2 ∷ o3 ∷ o4 ∷ o5 ∷ o6 ∷ rest) buffer sent (reading 0 32 32);
        acceptor = acceptor;
      })
        ≡ done (record {
          session =
              working address
                (header_fields (value_of r.mark) (header_of r) (of_be r.crc) rest)
                (all_bytes r [])
                sent
                idle;
          acceptor = acceptor;
        })
  unfolding handle_mark handle_packet_header error_value
  receive_wrong_checksum address o0 o1 o2 o3 o4 o5 o6 rest buffer sent acceptor size =
      let tail = r.method ++ (r.bsize ++ (r.ret ++ (r.time ++ (r.count ++ (r.crc ++ []))))) in
      rw (
        complete_read_all h now 32 address (o0 ∷ o1 ∷ o2 ∷ o3 ∷ o4 ∷ o5 ∷ o6 ∷ rest) buffer
            (all_bytes r []) sent acceptor (omega arith) size length-all_bytes,
        mark_lem h now head_mark (all_bytes r []) tail (load_head h.little)
            (ap (λ x. x ++ tail) mark),
        common_request now,
        copy_fields_header (header_with 1 0 0 now) head_mark 0
            (scalar type_long body_mark "bmark" ∷ msg_tail) rest o0 o1 o2 o3 o4 o5 o6,
        read_packet_header-wrong address rest sent,
      )
