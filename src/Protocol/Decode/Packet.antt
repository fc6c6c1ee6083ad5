-- ===== src/Protocol/Decode/Packet.antt =====
-- unserialize_body_packet on a whole body.
use librtaio.Base.{
  ℕ, ◌+◌, ◌≡◌, refl, Bool, List, [], ◌∷◌, ◌++◌, length, done, arith, append_assoc, length-append,
}
use librtaio.Stream.Host.{Host}
use librtaio.Stream.ByteOrder.{of_be}
use librtaio.Stream.ByteOrder.Swap.{IsBytes}
use librtaio.Stream.Input.Words.{past_input}
use librtaio.Protocol.Field.{
  Field, type_long, type_longlong, scalar, to_int, field_bmark, body_mark, head_mark,
}
use librtaio.Protocol.Encode.Body.{bcrc}
use librtaio.Protocol.Wire.{Header, header_fields, message}
use librtaio.Protocol.Decode.{scratch, unserialize_body_packet}
use librtaio.Protocol.Decode.Header.{IsWord, value_of}
use librtaio.Protocol.Decode.Body.{Fills, Takes-long, body_code, body_fields}

module _ (h : Host) where
  -- A body that holds a mark, the bytes of its fields (Fills) and a checksum, whatever follows, in
  -- a buffer whose end may be said to lie behind its array: the fields are filled in, and the
  -- result is ERR_CHECK_CRC_ERROR if the checksum is compared and differs, and ERR_OK if not. The
  -- mark is read and not checked.
  pub unserialize_body_packet_lem :
      (compare_crc : Bool) (m : Header) (beyond hcrc x : ℕ) (ps qs : List Field)
      (mark bs c rest : List ℕ)
      → IsWord mark
      → length c ≡ 8
      → IsBytes c
      → Fills h (to_int m.count) (scalar type_long (value_of mark) "bmark") ps bs qs
      → unserialize_body_packet h
          (past_input h beyond [] (mark ++ (bs ++ (c ++ rest))))
          (message m hcrc (ps ++ bcrc x))
          (length ps + 9)
          compare_crc
        ≡ done (
          body_code h compare_crc (mark ++ bs) c,
          header_fields head_mark m hcrc
              (scalar type_long (value_of mark) "bmark" ∷ (qs ++ bcrc (of_be c))),
          past_input h beyond (mark ++ (bs ++ c)) rest,
        )
  unfolding unserialize_body_packet
  unserialize_body_packet_lem compare_crc m beyond hcrc x ps qs mark bs c rest (size, bytes) csize
        cbytes fills =
      let cnt = to_int m.count in
      let whole : Fills h cnt (scalar type_longlong hcrc "hcrc")
          (scalar type_long body_mark "bmark" ∷ ps) (mark ++ bs)
          (scalar type_long (value_of mark) "bmark" ∷ qs) =
        Fills.next refl
          (Takes-long h cnt (scalar type_longlong hcrc "hcrc") body_mark "bmark" mark bytes size)
          fills in
      let run =
        body_fields h compare_crc cnt (length ps + 9) 0 beyond x c rest csize cbytes field_bmark 0
          scratch [] whole (omega arith) (omega (arith, length-append {0} mark bs)) in
      rw (← append_assoc mark bs (c ++ rest)) (rw run (rw (append_assoc mark bs c)))
