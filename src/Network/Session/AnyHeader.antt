-- ===== src/Network/Session/AnyHeader.antt =====
-- What a session that waits for a header does with any 32 bytes.
use librtaio.Base.{
  ℕ, ◌+◌, ◌^◌, ◌%◌, ◌≡◌, ◌≢◌, subst, Bool, true, ◌&&◌, List, [], ◌∷◌, ◌++◌, length, drop, leb, ◌==◌,
  ne→eq, le→leb, if◌then◌else◌, Outcome, done, ◌>>=◌, arith, length-append, take-append,
  append_assoc, Bool-cases, inl, inr,
}
use librtaio.Stream.Host.{Host}
use librtaio.Stream.ByteOrder.{load, of_be}
use librtaio.Stream.Buffer.{istreambuf}
use librtaio.Stream.Input.{input_stream}
use librtaio.Stream.Input.Words.{open_input, input_stream-open}
use librtaio.Protocol.ErrorCode.{error_value, err_decode_erroe}
use librtaio.Protocol.Field.{
  Field, head_mark, body_mark, to_int, to_size, is_negative, msg_tail, type_long, scalar,
}
use librtaio.Protocol.Fields.Copy.{copy_fields_header}
use librtaio.Protocol.Send.{resize}
use librtaio.Protocol.Messages.{header_with, common_request}
use librtaio.Protocol.Wire.{header_fields}
use librtaio.Protocol.Decode.Header.{
  Received, IsReceived, covered, header_code, all_bytes, value_of, header_of,
  unserialize_header_packet_lem,
}
use librtaio.Network.Acceptor.{Acceptor}
use librtaio.Network.Session.{
  Session, Server, Pending, idle, reading, packet_mark, handle_mark, complete_read,
  handle_packet_header, read_packet_header, await_body,
}
use librtaio.Network.Session.Receive.{working, complete_read_over, istreambuf-append}

module _ (h : Host) (now : ℕ) (r : Received) (received : IsReceived r) where
  -- The mark and the checksum are right.
  abbrev pub is_accepted : Bool
  is_accepted = (of_be r.mark == head_mark) && (h.crc32 (covered r) == of_be r.crc % 2 ^ 32)

  length-all_bytes : length (all_bytes r []) ≡ 32
  length-all_bytes = let (a, b, c, d, e, f, g, _) = received in omega (arith, length-append {0})

  mark_any :
      (after : List ℕ) → packet_mark h now (all_bytes r [] ++ after) ≡ done (load h.little r.mark)
  unfolding packet_mark
  mark_any after =
      let four : length r.mark ≡ 4 = received.0.0 in
      let tail = r.method ++ (r.bsize ++ (r.ret ++ (r.time ++ (r.count ++ (r.crc ++ []))))) in
      let long : leb 4 (length (all_bytes r [] ++ after)) ≡ true =
        le→leb 4 (length (all_bytes r [] ++ after))
          (omega (arith, length-append {0} (all_bytes r []) after, length-all_bytes)) in
      rw (long, append_assoc r.mark tail after, take-append 4 r.mark (tail ++ after) four)

  module _ (address : ℕ) (rest : List Field) (sent : List ℕ) (acceptor : Acceptor) where
    abbrev at_header : List Field → List ℕ → Pending → Server
    at_header fields buffer pending = record {
      session = working address fields buffer sent pending;
      acceptor = acceptor;
    }

    -- What is decoded of a header that is accepted, or of one with the right mark.
    abbrev decoded : List Field
    decoded = header_fields (value_of r.mark) (header_of r) (of_be r.crc) rest

    -- All that is decoded of one with a wrong mark.
    abbrev undecoded : List Field
    undecoded = header_fields (value_of r.mark) (header_with 1 0 0 now) 0 rest

    -- The body is waited for in a buffer of its size, which is asked of resize.
    abbrev awaits : Outcome Server
    awaits =
        let size = to_int (value_of r.bsize) in
        resize size >>= λ buffer. done (at_header decoded buffer (reading 0 size (to_size size)))

    code_any : ℕ
    code_any =
        if of_be r.mark == head_mark then header_code h true r else error_value err_decode_erroe

    abbrev fields_any : List Field
    fields_any = if of_be r.mark == head_mark then decoded else undecoded

    decode_any :
        (after : List ℕ)
        → read_packet_header h now (
            working address
              (header_fields head_mark (header_with 1 0 0 now) 0 rest)
              (all_bytes r [] ++ after)
              sent
              idle)
          ≡ done (code_any, working address fields_any (all_bytes r [] ++ after) sent idle)
    unfolding read_packet_header code_any
    decode_any after =
        let bytes = all_bytes r [] in
        let stream : input_stream h (istreambuf bytes 32) ≡ open_input h [] bytes =
          subst (λ k. input_stream h (istreambuf bytes k) ≡ open_input h [] bytes) length-all_bytes
            (input_stream-open h bytes) in
        rw
          (
            istreambuf-append bytes after 32 length-all_bytes,
            stream,
            unserialize_header_packet_lem h true r head_mark 0 (header_with 1 0 0 now) rest []
                received,
          )
          (elim (Bool-cases (of_be r.mark == head_mark)) [ inl e ↦ rw e | inr e ↦ rw e ])

    abbrev pub header_result : List ℕ → Outcome Server
    header_result buffer =
        if is_accepted
        then awaits
        else done (at_header (if of_be r.mark == head_mark then decoded else undecoded) buffer idle)

    abbrev handled_as : Session → Outcome (ℕ × Server)
    handled_as session = done (code_any, record { session = session; acceptor = acceptor })

    -- handle_packet_header behind read_packet_header.
    abbrev handled : List ℕ → Outcome Server
    handled buffer =
        (if code_any == 0
          then (await_body h now (working address fields_any buffer sent idle) >>= λ session.
              handled_as session)
          else handled_as (working address fields_any buffer sent idle))
        >>= λ r'. done r'.1

    header_any :
        (after : List ℕ)
        → handled (all_bytes r [] ++ after) ≡ header_result (all_bytes r [] ++ after)
    unfolding code_any await_body error_value resize
    header_any after =
        let crc = of_be r.crc % 2 ^ 32 in
        let size = to_int (value_of r.bsize) in
        elim (Bool-cases (of_be r.mark == head_mark)) [
          | inl e ↦ elim (Bool-cases (h.crc32 (covered r) == crc)) [
            | inl f ↦ elim (Bool-cases (is_negative size)) [
              | inl g ↦ simp (e, f, g)
              | inr g ↦ simp (e, f, g)
            ]
            | inr f ↦ simp (e, f)
          ]
          | inr e ↦ simp e
        ]

    -- A session that waits for a header, whatever is left in its buffer, gets any 32 bytes, of
    -- which the first four are not the mark of a body. Where they are not the mark of a header
    -- either, the bytes are stored and nothing follows: the session stays in the set, idle. Where
    -- they are, the header is decoded: if its mark and checksum are right, a buffer of the
    -- announced size is made, which throws where the size is negative as an int, and a body of
    -- that size is waited for; if not, what was decoded is kept, and the session stays in the set,
    -- idle.
    pub receive_any_header :
        (o0 o1 o2 o3 o4 o5 o6 : Field) (buffer : List ℕ)
        → load h.little r.mark ≢ body_mark
        → let fields = o0 ∷ o1 ∷ o2 ∷ o3 ∷ o4 ∷ o5 ∷ o6 ∷ rest in
          let buffer' = all_bytes r [] ++ drop 32 buffer in
          complete_read h now (all_bytes r []) (at_header fields buffer (reading 0 32 32)) ≡ (
            if load h.little r.mark == head_mark
            then header_result buffer'
            else done (at_header fields buffer' idle))
    unfolding handle_mark handle_packet_header await_body error_value code_any resize
    receive_any_header o0 o1 o2 o3 o4 o5 o6 buffer not_body =
        let fields = o0 ∷ o1 ∷ o2 ∷ o3 ∷ o4 ∷ o5 ∷ o6 ∷ rest in
        let bytes = all_bytes r [] in
        let size : 0 + length bytes ≡ 32 = omega (arith, length-all_bytes) in
        rw
          (
            complete_read_over h now 32 address fields buffer bytes sent acceptor (omega arith)
                (inr (omega arith)) length-all_bytes,
            size,
            mark_any (drop 32 buffer),
          )
          (elim (Bool-cases (load h.little r.mark == head_mark)) [
            | inl e ↦
                rw
                  (
                    e,
                    common_request now,
                    copy_fields_header (header_with 1 0 0 now) head_mark 0
                        (scalar type_long body_mark "bmark" ∷ msg_tail) rest o0 o1 o2 o3 o4 o5 o6,
                    decode_any (drop 32 buffer),
                  )
                  (header_any (drop 32 buffer))
            | inr e ↦ rw (e, ne→eq (load h.little r.mark) body_mark not_body)
          ])
