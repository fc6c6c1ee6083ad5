-- ===== src/Protocol/RoundTrip.antt =====
-- What serialize_packet sends, the two decoders read back, on hosts of either byte order.
use librtaio.Base.{
  length-append, ℕ, ◌+◌, ◌%◌, ◌^◌, ◌≡◌, refl, ap, subst, sym, ◌∙◌, true, List, [], ◌++◌, length,
  some, done, arith, append_assoc, append-nil, drop_all, ==_refl,
}
use librtaio.Stream.Host.{Host}
use librtaio.Stream.ByteOrder.{of_be, be_bytes}
use librtaio.Stream.ByteOrder.Swap.{of_be_4, of_be_8, length-be_bytes, be_bytes-IsBytes}
use librtaio.Stream.Buffer.{istreambuf}
use librtaio.Stream.Input.{input_stream}
use librtaio.Stream.Input.Words.{open_input, past_input, input_stream-open}
use librtaio.Stream.Output.Words.{open_output}
use librtaio.Protocol.Field.{
  Field, type_long, scalar, to_int, sign_extend, body_mark, head_mark, msg_tail,
}
use librtaio.Protocol.ErrorCode.{error_value}
use librtaio.Protocol.Encode.{serialize_packet}
use librtaio.Protocol.Encode.Body.{Body, bcrc}
use librtaio.Protocol.Encode.Packet.{serialize_packet_lem}
use librtaio.Protocol.Wire.{
  word, Header, header_fields, message, header_words, header_wire, body_wire,
}
use librtaio.Protocol.Decode.{unserialize_header_packet, unserialize_body_packet}
use librtaio.Protocol.Decode.Header.{
  all_bytes, Received, IsWord, value_of, unserialize_header_packet_lem,
}
use librtaio.Protocol.Decode.Body.{Fills}
use librtaio.Protocol.Decode.Packet.{unserialize_body_packet_lem}

-- A `long long` whose value fits in an `int`.
abbrev pub IsInt : ℕ → Type 0
IsInt v = sign_extend 32 (v % 2 ^ 32) ≡ v

pub record IsHeader (m : Header) : Type 0 where
  pub method : IsInt m.method
  pub bsize : IsInt m.bsize
  pub ret : IsInt m.ret
  pub time : IsInt m.time
  pub count : IsInt m.count

pub word-IsWord : (v : ℕ) → IsWord (word v)
word-IsWord v = (length-be_bytes 4 (v % 2 ^ 32), be_bytes-IsBytes 4 (v % 2 ^ 32))

of_be-word : (v : ℕ) → of_be (word v) ≡ v % 2 ^ 32
of_be-word v = of_be_4 (v % 2 ^ 32) ∙ (omega arith)

pub value_of-word : (v : ℕ) → IsInt v → value_of (word v) ≡ v
value_of-word v i = ap (sign_extend 32) (of_be-word v) ∙ i

-- Two hosts whose builds use the same Boost checksum.
abbrev pub SameCrc : Host → Host → Type 0
SameCrc h0 h = (bs : List ℕ) → h0.crc32 bs ≡ h.crc32 bs

crc_value : (h : Host) (bs : List ℕ) → of_be (be_bytes 8 (h.crc32 bs)) ≡ h.crc32 bs
crc_value h bs = of_be_8 (h.crc32 bs) ∙ omega (arith, h.crc32_lt bs)

crc_low : (h : Host) (bs : List ℕ) → h.crc32 bs % 2 ^ 32 ≡ h.crc32 bs
crc_low h bs = omega (arith, h.crc32_lt bs)

module _ (h0 h : Host) (same : SameCrc h0 h) where
  pub header_round_trip :
      (m m0 : Header) (hmark hcrc : ℕ) (fields : List Field) (rest : List ℕ)
      → IsHeader m
      → unserialize_header_packet h
          (open_input h [] (header_wire h0 m ++ rest))
          (header_fields hmark m0 hcrc fields)
          true
        ≡ done (
          0,
          header_fields head_mark m (h.crc32 (header_words m)) fields,
          open_input h (header_wire h0 m) rest,
        )
  unfolding error_value
  header_round_trip m m0 hmark hcrc fields rest ok =
      let crc = h0.crc32 (header_words m) in
      let r : Received = record {
        mark = word head_mark;
        method = word m.method;
        bsize = word m.bsize;
        ret = word m.ret;
        time = word m.time;
        count = word m.count;
        crc = be_bytes 8 crc;
      } in
      let run = unserialize_header_packet_lem h true r hmark hcrc m0 fields rest (
        word-IsWord head_mark,
        word-IsWord m.method,
        word-IsWord m.bsize,
        word-IsWord m.ret,
        word-IsWord m.time,
        word-IsWord m.count,
        length-be_bytes 8 crc,
        be_bytes-IsBytes 8 crc,
      ) in
      let layout : header_wire h0 m ++ rest ≡ all_bytes r rest = simp append_assoc in
      rw (
        layout,
        run,
        of_be-word head_mark,
        same (header_words m),
        crc_value h (header_words m),
        crc_low h (header_words m),
        ==_refl (h.crc32 (header_words m)),
        value_of-word m.method ok.method,
        value_of-word m.bsize ok.bsize,
        value_of-word m.ret ok.ret,
        value_of-word m.time ok.time,
        value_of-word m.count ok.count,
      )

  -- The same for a stream over the buffer that holds the 32 bytes.
  pub header_buffer_round_trip :
      (m m0 : Header) (hmark hcrc : ℕ) (fields : List Field)
      → IsHeader m
      → unserialize_header_packet h
          (input_stream h (istreambuf (header_wire h0 m) 32))
          (header_fields hmark m0 hcrc fields)
          true
        ≡ done (
          0,
          header_fields head_mark m (h.crc32 (header_words m)) fields,
          open_input h (header_wire h0 m) [],
        )
  header_buffer_round_trip m m0 hmark hcrc fields ok =
      let wire = header_wire h0 m in
      let size : length wire ≡ 32 = omega (arith, length-append {0}, length-be_bytes) in
      let stream : input_stream h (istreambuf wire 32) ≡ open_input h [] wire =
        subst (λ k. input_stream h (istreambuf wire k) ≡ open_input h [] wire) size
          (input_stream-open h wire) in
      rw stream (
        subst
          (λ bytes.
            unserialize_header_packet h (open_input h [] bytes) (header_fields hmark m0 hcrc fields)
              true
            ≡ done (
              0,
              header_fields head_mark m (h.crc32 (header_words m)) fields,
              open_input h wire [],
            ))
          (append-nil wire) (header_round_trip m m0 hmark hcrc fields [] ok))

  pub body_round_trip :
      (m : Header) (beyond hcrc x : ℕ) (ps qs : List Field) (bs rest : List ℕ)
      → Fills h (to_int m.count) (scalar type_long body_mark "bmark") ps bs qs
      → unserialize_body_packet h
          (past_input h beyond [] (body_wire h0 bs ++ rest))
          (message m hcrc (ps ++ bcrc x))
          (length ps + 9)
          true
        ≡ done (
          0,
          message m hcrc (qs ++ bcrc (h.crc32 (word body_mark ++ bs))),
          past_input h beyond (body_wire h0 bs) rest,
        )
  unfolding error_value
  body_round_trip m beyond hcrc x ps qs bs rest fills =
      let body = word body_mark ++ bs in
      let c = be_bytes 8 (h0.crc32 body) in
      let layout : body_wire h0 bs ++ rest ≡ word body_mark ++ (bs ++ (c ++ rest)) =
        simp append_assoc in
      let mark_value = value_of-word body_mark refl in
      let run =
        unserialize_body_packet_lem h true m beyond hcrc x ps qs (word body_mark) bs c rest
          (word-IsWord body_mark) (length-be_bytes 8 (h0.crc32 body))
          (be_bytes-IsBytes 8 (h0.crc32 body))
          (subst (λ v. Fills h (to_int m.count) (scalar type_long v "bmark") ps bs qs)
            (sym mark_value) fills) in
      rw
        (
          layout,
          run,
          mark_value,
          same body,
          crc_value h body,
          crc_low h body,
          ==_refl (h.crc32 body),
        )
        (rw (append_assoc (word body_mark) bs (be_bytes 8 (h.crc32 body))))

-- The fields of a received message: its header as sent, and the decoded fields of its body.
abbrev pub received_message : Host → Header → List Field → List ℕ → List Field
received_message h m qs bs =
    message m (h.crc32 (header_words m)) (qs ++ bcrc (h.crc32 (word body_mark ++ bs)))

-- A message whose header values fit in an int, and whose other fields send `bs` (Body), is sent as
-- a header of 32 bytes and a body that fill a buffer of their size. On any host with the same
-- checksum the two decoders accept the two parts, with every checksum compared, and give back the
-- header's values and the fields that `bs` stands for (Fills).
pub packet_round_trip :
    (h0 h : Host)
    → SameCrc h0 h
    → (m m0 : Header) (hmark hcrc x : ℕ) (ps ps' qs : List Field) (bs target : List ℕ) → IsHeader m
    → Body h0 (some m.count) (scalar type_long body_mark "bmark") ps bs
    → Fills h (to_int m.count) (scalar type_long body_mark "bmark") ps' bs qs
    → length target ≡ length bs + 44
    → (sent : List Field) × (serialize_packet h0
          (open_output h0 [] target)
          (message m 0 (ps ++ msg_tail))
          (length ps + 9)
        ≡ done (0, sent, open_output h0 (header_wire h0 m ++ body_wire h0 bs) []))
      × (unserialize_header_packet h
            (open_input h [] (header_wire h0 m))
            (header_fields hmark m0 hcrc ps')
            true
          ≡ done (
            0,
            header_fields head_mark m (h.crc32 (header_words m)) ps',
            open_input h (header_wire h0 m) [],
          ))
      × (unserialize_body_packet h
            (open_input h [] (body_wire h0 bs))
            (message m (h.crc32 (header_words m)) (ps' ++ bcrc x))
            (length ps' + 9)
            true
          ≡ done (0, received_message h m qs bs, open_input h (body_wire h0 bs) []))
packet_round_trip h0 h same m m0 hmark hcrc x ps ps' qs bs target ok body fills size = (
  message m (h0.crc32 (header_words m)) (ps ++ bcrc (h0.crc32 (word body_mark ++ bs))),
  serialize_packet_lem h0 m ps bs target body (omega arith)
      ∙ rw (drop_all (length bs + 44) target (omega arith)),
  subst
      (λ bytes.
        unserialize_header_packet h (open_input h [] bytes) (header_fields hmark m0 hcrc ps') true
        ≡ done (
          0,
          header_fields head_mark m (h.crc32 (header_words m)) ps',
          open_input h (header_wire h0 m) [],
        ))
      (append-nil (header_wire h0 m)) (header_round_trip h0 h same m m0 hmark hcrc ps' [] ok),
  subst
      (λ bytes.
        unserialize_body_packet h (open_input h [] bytes)
          (message m (h.crc32 (header_words m)) (ps' ++ bcrc x)) (length ps' + 9) true
        ≡ done (0, received_message h m qs bs, open_input h (body_wire h0 bs) []))
      (append-nil (body_wire h0 bs))
      (body_round_trip h0 h same m 0 (h.crc32 (header_words m)) x ps' qs bs [] fills),
)
