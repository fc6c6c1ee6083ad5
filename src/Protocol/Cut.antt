-- ===== src/Protocol/Cut.antt =====
-- What the decoder of a body makes of the first bytes of one, where asserts are compiled in.
use librtaio.Base.{
  ℕ, ◌+◌, ◌<◌, ◌≡◌, refl, sym, subst, true, List, [], ◌∷◌, ◌++◌, length, take, aborted, arith,
  length-append,
}
use librtaio.Stream.Host.{Host}
use librtaio.Stream.ByteOrder.{be_bytes}
use librtaio.Stream.ByteOrder.Swap.{length-be_bytes}
use librtaio.Stream.Input.Words.{open_input}
use librtaio.Protocol.Field.{
  Field, body_mark, to_int, type_long, type_longlong, scalar, field_bmark,
}
use librtaio.Protocol.Messages.{first_field}
use librtaio.Protocol.Wire.{Header, message, body_wire, word}
use librtaio.Protocol.Encode.Body.{bcrc}
use librtaio.Protocol.Decode.{scratch, unserialize_body_packet}
use librtaio.Protocol.Decode.Header.{value_of}
use librtaio.Protocol.Decode.Body.{Takes-long}
use librtaio.Protocol.Decode.Short.{Needs, Aborts, Aborts-long, short_body}
use librtaio.Protocol.RoundTrip.{value_of-word, word-IsWord}

module _ (h0 h : Host) (on : h.asserts ≡ true) where
  -- The first `k` bytes of a body that is longer end the process.
  pub cut_body :
      (m : Header) (hcrc k : ℕ) (ps qs : List Field) (bs : List ℕ)
      → Needs h on (to_int m.count) first_field ps bs qs
      → k < length bs + 12
      → unserialize_body_packet h
          (open_input h [] (take k (body_wire h0 bs)))
          (message m hcrc (ps ++ bcrc 0))
          (length ps + 9)
          true
        ≡ aborted
  unfolding unserialize_body_packet
  cut_body m hcrc k ps qs bs needs cut =
      let cnt = to_int m.count in
      let mark = word body_mark in
      let c = be_bytes 8 (h0.crc32 (mark ++ bs)) in
      let bytes = word-IsWord body_mark in
      let sum : length (mark ++ bs) ≡ 4 + length bs =
        omega (arith, length-append {0} mark bs, bytes.0) in
      let behind : Needs h on cnt (scalar type_long (value_of mark) "bmark") ps bs qs =
        subst (λ v. Needs h on cnt (scalar type_long v "bmark") ps bs qs)
          (sym (value_of-word body_mark refl)) needs in
      let whole : Needs h on cnt (scalar type_longlong hcrc "hcrc") (first_field ∷ ps) (mark ++ bs)
          (scalar type_long (value_of mark) "bmark" ∷ qs) =
        Needs.next refl
          (Takes-long h cnt (scalar type_longlong hcrc "hcrc") body_mark "bmark" mark bytes.1
            bytes.0)
          (subst (Aborts h on cnt (scalar type_longlong hcrc "hcrc") first_field) (sym bytes.0)
            (Aborts-long h on cnt (scalar type_longlong hcrc "hcrc") body_mark "bmark"))
          behind in
      rw (
        short_body h on true cnt (length ps + 9) 0 0 c (length-be_bytes 8 (h0.crc32 (mark ++ bs)))
          field_bmark 0 k scratch [] whole (omega arith) (omega arith))
