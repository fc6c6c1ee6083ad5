-- ===== src/Protocol/Tests.antt =====
-- The theorems about packets, at a connection request.
use librtaio.Base.{
  ℕ, ◌+◌, ◌≡◌, refl, true, false, List, [], ◌∷◌, ◌++◌, some, length, drop, replicate, done, fault,
  arith, ◌==◌, if◌then◌else◌,
}
use librtaio.Stream.Host.{Host}
use librtaio.Stream.Sample.{sample_host}
use librtaio.Stream.ByteOrder.{be_bytes, of_be}
use librtaio.Stream.ByteOrder.Swap.{length-be_bytes, be_bytes-IsBytes}
use librtaio.Stream.Output.Words.{open_output}
use librtaio.Stream.Input.Words.{open_input}
use librtaio.Protocol.ErrorCode.{error_value, err_decode_erroe}
use librtaio.Protocol.Field.{
  Field, type_short, type_long, type_char, type_end, scalar, string_field, head_mark, body_mark,
  msg_tail,
}
use librtaio.Protocol.Fields.{copy_fields}
use librtaio.Protocol.Fields.Copy.{copy_fields_full}
use librtaio.Protocol.Wire.{
  word, Header, header_fields, message, header_words, header_wire, body_wire,
}
use librtaio.Protocol.Encode.{serialize_packet}
use librtaio.Protocol.Encode.Body.{bcrc}
use librtaio.Protocol.Encode.Packet.{serialize_packet_lem}
use librtaio.Protocol.Decode.{
  scratch, read_field, unserialize_header_packet, unserialize_body_packet,
}
use librtaio.Protocol.Decode.Header.{
  Received, all_bytes, covered, header_of, header_code, value_of, unserialize_header_packet_lem,
}
use librtaio.Protocol.Decode.Body.{body_code, read_field-overrun}
use librtaio.Protocol.Decode.Packet.{unserialize_body_packet_lem}
use librtaio.Protocol.RoundTrip.{SameCrc, received_message, packet_round_trip}
use librtaio.Protocol.Messages.{
  header_with, IsText, c_string, connect_fields, connect_bytes, received_fields, connect-Body,
  connect-Fills, connect-Sized,
}
use librtaio.Protocol.Send.{encode_packet, packet_wire, encode_packet_lem}

abbrev sender : Host
sender = sample_host true true

abbrev receiver : Host
receiver = sample_host false true

abbrev name : List ℕ
name = 104 ∷ 105 ∷ []

abbrev process : List ℕ
process = 120 ∷ []

name-IsText : IsText name
name-IsText = ((omega arith, omega arith), ((omega arith, omega arith), tt))

process-IsText : IsText process
process-IsText = ((omega arith, omega arith), tt)

abbrev connect_header : Header
connect_header = header_with 2 21 0 5

abbrev names_fields : List Field
names_fields = connect_fields 3 (c_string name ++ []) 2 (c_string process ++ [])

abbrev empty_fields : List Field
empty_fields = connect_fields 7 (replicate 1024 0) 7 (replicate 1024 0)

abbrev names_bytes : List ℕ
names_bytes = connect_bytes name process

same : SameCrc sender receiver
same bs = refl

serialize_example :
    let hcrc = sender.crc32 (header_words connect_header) in
    let crc = sender.crc32 (word body_mark ++ names_bytes) in
    serialize_packet sender
      (open_output sender [] (replicate 60 0))
      (message connect_header 0 (names_fields ++ msg_tail))
      13
    ≡ done (
      0,
      message connect_header hcrc (names_fields ++ bcrc crc),
      open_output sender
          (header_wire sender connect_header ++ body_wire sender names_bytes)
          (drop (length names_bytes + 44) (replicate 60 0)),
    )
unfolding be_bytes
serialize_example =
    serialize_packet_lem sender connect_header names_fields names_bytes (replicate 60 0)
      (connect-Body name process [] [] name-IsText process-IsText (omega arith) (omega arith) sender
        (some 1))
      (omega arith)

abbrev received : Received
received = record {
  mark = word head_mark;
  method = word 2;
  bsize = word 21;
  ret = word 0;
  time = word 5;
  count = word 1;
  crc = be_bytes 8 77;
}

header_example :
    unserialize_header_packet receiver
      (open_input receiver [] (all_bytes received (9 ∷ [])))
      (header_fields 0 (header_with 1 0 0 0) 0 [])
      true
    ≡ (if of_be received.mark == head_mark
        then done (
          header_code receiver true received,
          header_fields (value_of received.mark) (header_of received) (of_be received.crc) [],
          open_input receiver (covered received ++ received.crc) (9 ∷ []),
        )
        else done (
          error_value err_decode_erroe,
          header_fields (value_of received.mark) (header_with 1 0 0 0) 0 [],
          open_input receiver received.mark (
              received.method
              ++ (received.bsize
                  ++ (received.ret
                      ++ (received.time ++ (received.count ++ (received.crc ++ (9 ∷ []))))))),
        ))
header_example =
    unserialize_header_packet_lem receiver true received 0 0 (header_with 1 0 0 0) [] (9 ∷ []) (
      (length-be_bytes 4 head_mark, be_bytes-IsBytes 4 head_mark),
      (length-be_bytes 4 2, be_bytes-IsBytes 4 2),
      (length-be_bytes 4 21, be_bytes-IsBytes 4 21),
      (length-be_bytes 4 0, be_bytes-IsBytes 4 0),
      (length-be_bytes 4 5, be_bytes-IsBytes 4 5),
      (length-be_bytes 4 1, be_bytes-IsBytes 4 1),
      length-be_bytes 8 77,
      be_bytes-IsBytes 8 77,
    )

body_example :
    unserialize_body_packet receiver
      (open_input receiver [] (word body_mark ++ (names_bytes ++ (be_bytes 8 77 ++ []))))
      (message connect_header 0 (empty_fields ++ bcrc 0))
      13
      true
    ≡ done (
      body_code receiver true (word body_mark ++ names_bytes) (be_bytes 8 77),
      header_fields head_mark connect_header 0 (
          scalar type_long (value_of (word body_mark)) "bmark"
          ∷ (received_fields name process ++ bcrc (of_be (be_bytes 8 77)))),
      open_input receiver (word body_mark ++ (names_bytes ++ be_bytes 8 77)) [],
    )
unfolding be_bytes
body_example =
    unserialize_body_packet_lem receiver true connect_header 0 0 0 empty_fields
      (received_fields name process) (word body_mark) names_bytes (be_bytes 8 77) []
      (length-be_bytes 4 body_mark, be_bytes-IsBytes 4 body_mark) (length-be_bytes 8 77)
      (be_bytes-IsBytes 8 77)
      (connect-Fills name process [] [] name-IsText process-IsText (omega arith) (omega arith)
        receiver 1 7 7)

overrun_example :
    read_field receiver 1
      (scalar type_short 3 "clientname_len")
      scratch
      (string_field (0 ∷ 0 ∷ []) "clientname")
      (open_input receiver [] ((1 ∷ 2 ∷ 3 ∷ []) ++ (9 ∷ [])))
    ≡ fault
overrun_example =
    read_field-overrun receiver 1 (scalar type_short 3 "clientname_len") (0 ∷ 0 ∷ []) "clientname"
      scratch [] (1 ∷ 2 ∷ 3 ∷ []) (9 ∷ []) refl refl refl (omega arith) (omega arith)

abbrev short_field : Field
short_field = scalar type_short 8 "permission"

copy_example :
    copy_fields
      (short_field ∷ short_field ∷ [])
      ((short_field ∷ []) ++ (scalar type_char 65 "grade" ∷ short_field ∷ []))
      false
    ≡ done (1, short_field ∷ record short_field { type = type_end } ∷ [])
copy_example =
    copy_fields_full (short_field ∷ []) (short_field ∷ []) [] short_field
      (scalar type_char 65 "grade") (short_field ∷ []) (refl, tt) refl refl

encode_example :
    encode_packet sender (message (header_with 2 0 0 5) 0 (names_fields ++ msg_tail)) 13
    ≡ done (0, length names_bytes + 44, packet_wire sender (header_with 2 0 0 5) names_bytes)
unfolding be_bytes
encode_example =
    encode_packet_lem sender (header_with 2 0 0 5) names_fields names_bytes
      (connect-Sized name process [] [] name-IsText process-IsText (omega arith) (omega arith))
      (connect-Body name process [] [] name-IsText process-IsText (omega arith) (omega arith) sender
        (some 1))
      (omega arith) (omega arith)

packet_example :
    (sent : List Field) × (serialize_packet sender
        (open_output sender [] (replicate 53 0))
        (message connect_header 0 (names_fields ++ msg_tail))
        13
      ≡ done (
        0,
        sent,
        open_output sender (header_wire sender connect_header ++ body_wire sender names_bytes) [],
      ))
    × (unserialize_header_packet receiver
          (open_input receiver [] (header_wire sender connect_header))
          (header_fields 0 (header_with 1 0 0 0) 0 empty_fields)
          true
        ≡ done (
          0,
          header_fields head_mark connect_header
              (receiver.crc32 (header_words connect_header))
              empty_fields,
          open_input receiver (header_wire sender connect_header) [],
        ))
    × (unserialize_body_packet receiver
          (open_input receiver [] (body_wire sender names_bytes))
          (message connect_header
            (receiver.crc32 (header_words connect_header))
            (empty_fields ++ bcrc 0))
          13
          true
        ≡ done (
          0,
          received_message receiver connect_header (received_fields name process) names_bytes,
          open_input receiver (body_wire sender names_bytes) [],
        ))
unfolding be_bytes
packet_example =
    packet_round_trip sender receiver same connect_header (header_with 1 0 0 0) 0 0 0 names_fields
      empty_fields (received_fields name process) names_bytes (replicate 53 0)
      (record { method = refl; bsize = refl; ret = refl; time = refl; count = refl })
      (connect-Body name process [] [] name-IsText process-IsText (omega arith) (omega arith) sender
        (some 1))
      (connect-Fills name process [] [] name-IsText process-IsText (omega arith) (omega arith)
        receiver 1 7 7)
      refl
