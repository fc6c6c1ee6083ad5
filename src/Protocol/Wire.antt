-- ===== src/Protocol/Wire.antt =====
-- The layout of a packet on the network, described without the code: what serialize_packet has to
-- send and the two decoders have to accept.
use librtaio.Base.{ℕ, ◌%◌, ◌^◌, List, ◌∷◌, ◌++◌}
use librtaio.Stream.Host.{Host}
use librtaio.Stream.ByteOrder.{be_bytes}
use librtaio.Protocol.Field.{Field, type_long, type_longlong, scalar, head_mark, body_mark}

-- A 32-bit word in network order.
abbrev pub word : ℕ → List ℕ
word v = be_bytes 4 (v % 2 ^ 32)

pub record Header : Type 0 where
  pub method : ℕ
  pub bsize : ℕ
  pub ret : ℕ
  pub time : ℕ
  pub count : ℕ

-- The fields of MSG_HEADER before the body's mark, with the given values.
abbrev pub header_fields : ℕ → Header → ℕ → List Field → List Field
header_fields hmark m hcrc rest =
    scalar type_long hmark "hmark"
    ∷ scalar type_long m.method "method"
    ∷ scalar type_long m.bsize "bsize"
    ∷ scalar type_long m.ret "ret"
    ∷ scalar type_long m.time "time"
    ∷ scalar type_long m.count "count"
    ∷ scalar type_longlong hcrc "hcrc"
    ∷ rest

-- A message as the MSG_..._FIELDS macros lay it out, with the given checksum of its header.
abbrev pub message : Header → ℕ → List Field → List Field
message m hcrc rest = header_fields head_mark m hcrc (scalar type_long body_mark "bmark" ∷ rest)

-- The 24 bytes that the header's checksum covers.
abbrev pub header_words : Header → List ℕ
header_words m =
    word head_mark
    ++ (word m.method ++ (word m.bsize ++ (word m.ret ++ (word m.time ++ word m.count))))

module _ (h : Host) where
  abbrev pub header_wire : Header → List ℕ
  header_wire m = header_words m ++ be_bytes 8 (h.crc32 (header_words m))

  -- The body's checksum covers its mark and its fields.
  abbrev pub body_wire : List ℕ → List ℕ
  body_wire bs = (word body_mark ++ bs) ++ be_bytes 8 (h.crc32 (word body_mark ++ bs))
